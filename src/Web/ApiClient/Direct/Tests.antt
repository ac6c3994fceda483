-- ===== src/Web/ApiClient/Direct/Tests.antt =====
-- Uploads that fail, at concrete answers.
use apply_agent.Prelude.{
  String, ◌≡◌, refl, some, [], Json, null, str, obj, Items, field, end, json_field,
}
use apply_agent.Web.ApiClient.{Received, responded, is_ok}
use apply_agent.Web.ApiClient.Direct.{
  throws_type_error, upload, upload_message, upload_refused, message_field, truthy_or, text_of_json,
  error_of, failure_body,
}

abbrev items_text : Items → String
items_text xs = "[]"

abbrev refused_with : Json → Received
refused_with body = record { status = 413; status_text = ""; headers = []; body = some body }

-- `{ error: { code } }`: the object itself becomes the message.
no_message :
    upload_message items_text (some (obj (field "code" (str "E1") end))) ≡ "[object Object]"
unfolding upload_message message_field truthy_or text_of_json json_field
no_message = refl

-- A body of `null`
null_body : upload items_text (responded (refused_with null)) ≡ throws_type_error
unfolding upload upload_refused error_of failure_body is_ok
null_body = refl
