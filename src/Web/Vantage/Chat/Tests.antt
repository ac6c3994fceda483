-- ===== src/Web/Vantage/Chat/Tests.antt =====
-- Runs of the chat, and the witness of the theorem about its steps.
use apply_agent.Prelude.{trim, none, some, List, [], ◌∷◌, ◌≡◌, refl}
use apply_agent.Web.Vantage.Chat.{
  sign_out_chat, shown_messages, send_real_chat, reference_lines, hydrate_chat, chat_replied,
  chat_hydrated, cannot_send, cannot_hydrate, ChatAttachment, pdf, first_chat, assistant_message,
  message_text,
}
use apply_agent.Web.Vantage.Chat.Laws.{
  step, Event, types, attaches, sends_message, replied, hydrates, hydrated, signs_out, steps,
  IsSound, steps-IsSound,
}

abbrev cv : ChatAttachment
cv = record { id = "f1"; name = "cv.pdf"; size_bytes = 1000; kind = pdf }

abbrev session : List Event
session = types "hello" ∷ attaches cv ∷ attaches cv ∷ sends_message ∷ sends_message ∷ signs_out ∷ []

steps-IsSound_example : IsSound (steps session (first_chat none))
steps-IsSound_example = steps-IsSound none session

message_text_lem :
    message_text "Take a look at this file." (cv ∷ [])
    ≡ "Take a look at this file.\n\nAttached files:\n- cv.pdf (file:f1)"
unfolding message_text reference_lines
message_text_lem = refl

-- The reply to a message that was sent before the sign-out brings the session back.
late_reply :
    ((steps
        (types "hi" ∷ sends_message ∷ signs_out ∷ replied "s1" "Hello Ada" none ∷ [])
        (first_chat none)).stored_session
      ≡ some "s1")
    × ((steps
          (types "hi" ∷ sends_message ∷ signs_out ∷ replied "s1" "Hello Ada" none ∷ [])
          (first_chat none)).chat_messages
        ≡ assistant_message "Hello Ada" none ∷ [])
unfolding steps step sign_out_chat send_real_chat cannot_send trim chat_replied
late_reply = (refl, refl)

-- A message that is sent while the history is loaded disappears when the history is there.
hydration_drops_message :
    (steps
      (hydrates ∷ types "hi" ∷ sends_message ∷ hydrated [] ∷ [])
      (first_chat (some "s1"))).chat_messages
    ≡ []
unfolding steps step send_real_chat cannot_send trim hydrate_chat cannot_hydrate chat_hydrated
    shown_messages
hydration_drops_message = refl
