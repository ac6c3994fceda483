-- ===== src/Web/ApiClient/Token.antt =====
-- api.ts: the token of the signed-in user, in localStorage and in a cookie, and the id of the chat
-- session, which does not outlive the token.
pub mod Laws
mod Tests
use apply_agent.Prelude.{String, ◌<>◌, Bool, Option, none, some, if◌then◌else◌}

-- What the browser keeps. `cookie` is the value of the token's cookie, encoded, and `secure` its
-- attribute `Secure`.
pub record Kept : Type 0 where
  pub token : Option String
  pub cookie : Option String
  pub secure : Bool
  pub chat_session : Option String

-- `getToken` and `getChatSessionId`, in a window
abbrev pub get_token : Kept → Option String
get_token k = k.token

abbrev pub get_chat_session_id : Kept → Option String
get_chat_session_id k = k.chat_session

-- `setChatSessionId` and `clearChatSessionId`
abbrev pub set_chat_session_id : String → Kept → Kept
set_chat_session_id id k = record k { chat_session = some id }

abbrev pub clear_chat_session_id : Kept → Kept
clear_chat_session_id k = record k { chat_session = none }

-- `writeCookie`; `https` says whether the page has that protocol, `encode` is `encodeURIComponent`.
unfoldable pub write_cookie : (encode : String → String) → (https : Bool) → String → Kept → Kept
write_cookie encode https token k = record k { cookie = some (encode token); secure = https }

-- `clearCookie`: a cookie with a `Max-Age` of 0 is removed.
unfoldable pub clear_cookie : Kept → Kept
clear_cookie k = record k { cookie = none }

-- `setToken`
unfoldable pub set_token : (encode : String → String) → (https : Bool) → String → Kept → Kept
unfolding write_cookie
set_token encode https token k =
    write_cookie encode https token (record (clear_chat_session_id k) { token = some token })

-- `clearToken`
unfoldable pub clear_token : Kept → Kept
unfolding clear_cookie
clear_token k = clear_chat_session_id (clear_cookie (record k { token = none }))
