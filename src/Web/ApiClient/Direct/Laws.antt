-- ===== src/Web/ApiClient/Direct/Laws.antt =====
-- An error of the gateway says the same in an upload as in a call that goes through `api`.
use apply_agent.Prelude.{
  String, ◌≡◌, refl, false, none, some, str, obj, Fields, Items, json_field, is_empty,
}
use apply_agent.Web.ApiClient.{
  Received, responded, api_error, extract_error_message, extract_error_meta, is_ok,
  message_of_error,
}
use apply_agent.Web.ApiClient.Direct.{
  throws, upload, upload_message, delete_me, error_of, failure_body, message_field, truthy_or,
  text_of_json, upload_refused,
}

failure-obj :
    (r : Received) (fields : Fields) → r.body ≡ some (obj fields) → failure_body r ≡ obj fields
unfolding failure_body
failure-obj r fields b = rw b refl

message-says :
    (fields error : Fields) (text : String)
    → json_field "error" fields ≡ some (obj error)
    → json_field "message" error ≡ some (str text)
    → extract_error_message (obj fields) ≡ text
unfolding extract_error_message message_of_error
message-says fields error text e m = rw (e, m) refl

upload_message-says :
    (items_text : Items → String) (error : Fields) (text : String)
    → json_field "message" error ≡ some (str text)
    → is_empty text ≡ false
    → upload_message items_text (some (obj error)) ≡ text
unfolding upload_message message_field truthy_or text_of_json
upload_message-says items_text error text m n = rw (m, n) refl

-- If the body of an error has a message that is not empty, a failed upload and a failed deletion of
-- the account throw errors with the answer's status and that message.
pub direct_calls_say :
    (items_text : Items → String) (r : Received) (fields error : Fields) (text : String)
    → is_ok r.status ≡ false
    → r.body ≡ some (obj fields)
    → json_field "error" fields ≡ some (obj error)
    → json_field "message" error ≡ some (str text)
    → is_empty text ≡ false
    → (upload items_text (responded r)
        ≡ throws (api_error r.status text (extract_error_meta (obj fields)) none))
      × (delete_me (responded r)
          ≡ throws (api_error r.status text (extract_error_meta (obj fields)) none))
unfolding upload delete_me error_of upload_refused
direct_calls_say items_text r fields error text s b e m n =
    rw
      (
        s,
        failure-obj r fields b,
        e,
        upload_message-says items_text error text m n,
        message-says fields error text e m,
      )
      (refl, refl)
