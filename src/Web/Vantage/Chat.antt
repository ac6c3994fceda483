-- ===== src/Web/Vantage/Chat.antt =====
-- store.ts, the chat: the composer with its attachments, `sendRealChat`, `hydrateChat`, and what
-- `signOut` does to them.
pub mod Laws
mod Tests
use apply_agent.Prelude.{
  ℕ, suc, ◌-◌, String, ◌<>◌, ◌==◌, Bool, true, false, not, ◌&&◌, ◌||◌, Option, none, some, List, [],
  ◌∷◌, ◌++◌, map, nat_beq, if◌then◌else◌, is_empty, or_else, get_or_else, trim, length,
}

pub data AttachmentKind : Type 0 where
  pdf docx plain_text image : AttachmentKind

pub record ChatAttachment : Type 0 where
  pub id : String
  pub name : String
  pub size_bytes : ℕ
  pub kind : AttachmentKind

pub data Role : Type 0 where
  user assistant : Role

pub record ChatMessage : Type 0 where
  pub role : Role
  pub content : String
  pub agent : Option String
  pub attachments : Option (List ChatAttachment)

-- `stored_session` is what localStorage holds under the session's key; `sends` and `hydrations` are
-- the requests whose answer is out.
pub record Chat : Type 0 where
  pub chat_input : String
  pub chat_attachments : List ChatAttachment
  pub chat_messages : List ChatMessage
  pub chat_session_id : Option String
  pub chat_loading : Bool
  pub chat_hydrating : Bool
  pub stored_session : Option String
  pub sends : ℕ
  pub hydrations : ℕ

-- The state after a load of the page.
abbrev pub first_chat : Option String → Chat
first_chat stored = record {
  chat_input = "";
  chat_attachments = [];
  chat_messages = [];
  chat_session_id = stored;
  chat_loading = false;
  chat_hydrating = false;
  stored_session = stored;
  sends = 0;
  hydrations = 0;
}

-- `chatApi.send(message, sessionId)` and `chatApi.messages(sid)`
pub data ChatRequest : Type 0 where
  send : (message : String) → (session_id : Option String) → ChatRequest
  messages : (session_id : String) → ChatRequest

-- `setChatInput`
abbrev pub set_chat_input : String → Chat → Chat
set_chat_input v s = record s { chat_input = v }

-- `attachments.some((x) => x.id === id)`
unfoldable pub has_attachment : String → List ChatAttachment → Bool
has_attachment id [] = false
has_attachment id (a ∷ rest) = let later = has_attachment id rest in a.id == id || later

-- `addChatAttachment`
unfoldable pub add_chat_attachment : ChatAttachment → Chat → Chat
add_chat_attachment a s =
    if has_attachment a.id s.chat_attachments
    then s
    else record s { chat_attachments = s.chat_attachments ++ (a ∷ []) }

unfoldable pub drop_attachment : String → List ChatAttachment → List ChatAttachment
drop_attachment id [] = []
drop_attachment id (a ∷ rest) =
    let kept = drop_attachment id rest in if a.id == id then kept else a ∷ kept

-- `removeChatAttachment`
abbrev pub remove_chat_attachment : String → Chat → Chat
remove_chat_attachment id s = record s { chat_attachments = drop_attachment id s.chat_attachments }

-- `- ${a.name} (file:${a.id})`
abbrev reference_line : ChatAttachment → String
reference_line a = "- " <> (a.name <> (" (file:" <> (a.id <> ")")))

-- `refLines`
unfoldable pub reference_lines : List ChatAttachment → String
reference_lines [] = ""
reference_lines (a ∷ []) = reference_line a
reference_lines (a ∷ b ∷ rest) = reference_line a <> ("\n" <> reference_lines (b ∷ rest))

-- `body`
unfoldable pub body_of : String → List ChatAttachment → String
body_of text atts =
    or_else text (
      if nat_beq (length atts) 1
      then "Take a look at this file."
      else "Take a look at these files.")

-- `msg`
unfoldable pub message_text : String → List ChatAttachment → String
message_text body [] = body
message_text body (a ∷ atts) = body <> ("\n\nAttached files:\n" <> reference_lines (a ∷ atts))

-- `atts.length > 0 ? atts : undefined`
abbrev pub some_attachments : List ChatAttachment → Option (List ChatAttachment)
some_attachments [] = none
some_attachments (a ∷ atts) = some (a ∷ atts)

-- `id || undefined`
abbrev pub session_of : Option String → Option String
session_of none = none
session_of (some id) = if is_empty id then none else some id

-- `(!text && atts.length === 0) || s.chatLoading`
unfoldable pub cannot_send : Chat → Bool
cannot_send s =
    (is_empty (trim s.chat_input) && nat_beq (length s.chat_attachments) 0) || s.chat_loading

-- `sendRealChat` up to its `await`
unfoldable pub send_real_chat : Chat → Chat × Option ChatRequest
send_real_chat s =
    let body = body_of (trim s.chat_input) s.chat_attachments in
    if cannot_send s then (s, none) else (
      record s {
        chat_input = "";
        chat_attachments = [];
        chat_loading = true;
        chat_messages =
            s.chat_messages
            ++ (record {
              role = user;
              content = body;
              agent = none;
              attachments = some_attachments s.chat_attachments;
            }
                ∷ []);
        sends = suc s.sends;
      },
      some (send (message_text body s.chat_attachments) (session_of s.chat_session_id)),
    )

abbrev pub assistant_message : (content : String) → (agent : Option String) → ChatMessage
assistant_message content agent = record {
  role = assistant;
  content = content;
  agent = agent;
  attachments = none;
}

-- `sendRealChat` after its `await`: the reply, or an error.
unfoldable pub chat_replied : (session_id content : String) → (agent : Option String) → Chat → Chat
chat_replied session_id content agent s = record s {
  stored_session = some session_id;
  chat_session_id = some session_id;
  chat_messages = s.chat_messages ++ (assistant_message content agent ∷ []);
  chat_loading = false;
  sends = s.sends - 1;
}

unfoldable pub chat_failed : Chat → Chat
chat_failed s = record s {
  chat_messages =
      s.chat_messages
      ++ (assistant_message "Sorry, I couldn't process that request. Please try again." none ∷ []);
  chat_loading = false;
  sends = s.sends - 1;
}

-- `!sid || s.chatMessages.length > 0 || s.chatHydrating`
unfoldable pub cannot_hydrate : Chat → Bool
cannot_hydrate s =
    is_empty (get_or_else s.chat_session_id "")
    || not (nat_beq (length s.chat_messages) 0)
    || s.chat_hydrating

-- `hydrateChat` up to its `await`
unfoldable pub hydrate_chat : Chat → Chat × Option ChatRequest
hydrate_chat s = if cannot_hydrate s then (s, none) else (
  record s { chat_hydrating = true; hydrations = suc s.hydrations },
  some (messages (get_or_else s.chat_session_id "")),
)

-- A message as the server keeps it.
pub record StoredMessage : Type 0 where
  pub role : String
  pub content : String

abbrev plain_message : Role → String → ChatMessage
plain_message role content = record {
  role = role;
  content = content;
  agent = none;
  attachments = none;
}

-- The messages of the user and the assistant
unfoldable pub shown_messages : List StoredMessage → List ChatMessage
shown_messages [] = []
shown_messages (m ∷ rest) =
    let later = shown_messages rest in
    if m.role == "user"
    then plain_message user m.content ∷ later
    else if m.role == "assistant"
    then plain_message assistant m.content ∷ later
    else later

-- `hydrateChat` after its `await`
unfoldable pub chat_hydrated : List StoredMessage → Chat → Chat
chat_hydrated stored s = record s {
  chat_messages = shown_messages stored;
  chat_hydrating = false;
  hydrations = s.hydrations - 1;
}

-- The server answers 404.
unfoldable pub session_missing : Chat → Chat
session_missing s = record s {
  stored_session = none;
  chat_session_id = none;
  chat_messages = [];
  chat_hydrating = false;
  hydrations = s.hydrations - 1;
}

-- Another error
unfoldable pub hydration_failed : Chat → Chat
hydration_failed s = record s { chat_hydrating = false; hydrations = s.hydrations - 1 }

-- What `signOut` sets of the chat; a request that is out stays out.
unfoldable pub sign_out_chat : Chat → Chat
sign_out_chat s = record s {
  stored_session = none;
  chat_messages = [];
  chat_session_id = none;
  chat_hydrating = false;
}
