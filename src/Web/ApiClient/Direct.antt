-- ===== src/Web/ApiClient/Direct.antt =====
-- api.ts: the three calls that use `fetch` without `api`: `users.deleteMe`, `files.upload` and
-- `files.uploadAttachment`. They set no timeout, are sent once, and leave the health store alone.
pub mod Laws
mod Tests
use apply_agent.Prelude.{
  ℕ, String, ◌<>◌, Bool, true, false, Option, none, some, [], ◌∷◌, Json, null, bool, num, str, arr,
  obj, Fields, Items, end, field, pos, negsuc, ℤ, ◌+◌, truthy, json_field, to_decimal, is_empty,
  get_or_else, if◌then◌else◌,
}
use apply_agent.Prelude.Assoc.{Assoc}
use apply_agent.Web.ApiClient.{
  Received, Fetched, responded, rejected, ApiError, api_error, extract_error_message,
  extract_error_meta, is_ok,
}

-- The request: the path, the method and the headers; the body of an upload is the file.
pub record DirectRequest : Type 0 where
  pub path : String
  pub method : String
  pub headers : Assoc String

-- `token ? { Authorization: … } : {}`
unfoldable pub bearer : Option String → Assoc String
bearer none = []
bearer (some token) = if is_empty token then [] else ("Authorization", "Bearer " <> token) ∷ []

unfoldable pub delete_me_request : (token : Option String) → DirectRequest
delete_me_request token = record {
  path = "/api/users/me";
  method = "DELETE";
  headers = bearer token;
}

-- `attachment` tells `uploadAttachment` from `upload`.
unfoldable pub upload_request : (attachment : Bool) → (token : Option String) → DirectRequest
upload_request attachment token = record {
  path = if attachment then "/api/files/attachment" else "/api/files";
  method = "POST";
  headers = bearer token;
}

-- What the caller gets: a value, an ApiError, the error of `fetch` itself, the parser's SyntaxError,
-- or a TypeError.
pub data Outcome (T : Type 0) : Type 0 where
  gives : T → Outcome T
  throws : ApiError → Outcome T
  throws_network_error : Outcome T
  throws_syntax_error : Outcome T
  throws_type_error : Outcome T

-- `await res.json().catch(() => ({ error: res.statusText }))`
unfoldable pub failure_body : Received → Json
failure_body r = get_or_else r.body (obj (field "error" (str r.status_text) end))

-- `deleteMe`, from how `fetch` ends
unfoldable pub delete_me : Fetched → Outcome (Unit {0})
unfolding failure_body
delete_me (rejected aborted) = throws_network_error
delete_me (responded r) =
    if is_ok r.status
    then gives tt
    else throws (
        api_error r.status (extract_error_message (failure_body r))
          (extract_error_meta (failure_body r)) none)

-- `e?.message` on a value of JSON
unfoldable pub message_field : Option Json → Option Json
message_field (some (obj e)) = json_field "message" e
message_field other = none

-- `a || b`, where what is missing is false
unfoldable pub truthy_or : Option Json → Json → Json
truthy_or none b = b
truthy_or (some a) b = if truthy a then a else b

integer_text : ℤ → String
integer_text (pos n) = to_decimal n
integer_text (negsuc n) = "-" <> to_decimal (n + 1)

-- `String(v)`, which `Error` makes of a message; `items_text` is that of an array.
unfoldable pub text_of_json : (items_text : Items → String) → Json → String
unfolding integer_text
text_of_json items_text null = "null"
text_of_json items_text (bool true) = "true"
text_of_json items_text (bool false) = "false"
text_of_json items_text (num n) = integer_text n
text_of_json items_text (str s) = s
text_of_json items_text (arr xs) = items_text xs
text_of_json items_text (obj fs) = "[object Object]"

-- `body.error`; `null` has no fields, which is a TypeError.
unfoldable pub error_of : Json → Option (Option Json)
error_of null = none
error_of (obj body) = some (json_field "error" body)
error_of other = some none

-- `body.error?.message || body.error || "Upload failed"`
unfoldable pub upload_message : (items_text : Items → String) → Option Json → String
upload_message items_text error =
    text_of_json items_text
      (truthy_or (message_field error) (truthy_or error (str "Upload failed")))

unfoldable pub upload_refused :
    (items_text : Items → String) → ℕ → Json → Option (Option Json) → Outcome Json
upload_refused items_text status body none = throws_type_error
upload_refused items_text status body (some error) =
    throws (api_error status (upload_message items_text error) (extract_error_meta body) none)

parsed_answer : Option Json → Outcome Json
parsed_answer none = throws_syntax_error
parsed_answer (some v) = gives v

-- `upload` and `uploadAttachment`, from how `fetch` ends
unfoldable pub upload : (items_text : Items → String) → Fetched → Outcome Json
unfolding upload_refused parsed_answer failure_body
upload items_text (rejected aborted) = throws_network_error
upload items_text (responded r) =
    if is_ok r.status
    then parsed_answer r.body
    else upload_refused items_text r.status (failure_body r) (error_of (failure_body r))
