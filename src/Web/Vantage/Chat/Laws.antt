-- ===== src/Web/Vantage/Chat/Laws.antt =====
-- One message at a time, and what a reply does that arrives after the user has signed out.
use apply_agent.Prelude.{
  ℕ, suc, String, ◌==◌, false, Option, some, List, [], ◌∷◌, ◌++◌, nat_beq, ◌≡◌, ◌≢◌, refl,
  Bool-cases, inl, inr, arith, eq_iff, if◌then◌else◌, map,
}
use apply_agent.Prelude.Assoc.{IsFresh, IsDistinct}
use apply_agent.Web.Vantage.Chat.{
  ChatAttachment, Chat, first_chat, set_chat_input, has_attachment, add_chat_attachment,
  drop_attachment, remove_chat_attachment, send_real_chat, assistant_message, chat_replied,
  chat_failed, cannot_send, cannot_hydrate, hydrate_chat, StoredMessage, chat_hydrated,
  session_missing, hydration_failed, sign_out_chat,
}

-- What happens to the chat. An answer comes only while one is out.
pub data Event : Type 0 where
  types : String → Event
  attaches : ChatAttachment → Event
  detaches : String → Event
  sends_message : Event
  replied : (session_id content : String) → (agent : Option String) → Event
  send_failed : Event
  hydrates : Event
  hydrated : List StoredMessage → Event
  missing : Event
  hydrating_failed : Event
  signs_out : Event

abbrev when : ℕ → Chat → Chat → Chat
when out s t = if nat_beq out 0 then s else t

unfoldable pub step : Event → Chat → Chat
step (types v) s = set_chat_input v s
step (attaches a) s = add_chat_attachment a s
step (detaches id) s = remove_chat_attachment id s
step sends_message s = (send_real_chat s).0
step (replied session_id content agent) s = when s.sends s (chat_replied session_id content agent s)
step send_failed s = when s.sends s (chat_failed s)
step hydrates s = (hydrate_chat s).0
step (hydrated stored) s = when s.hydrations s (chat_hydrated stored s)
step missing s = when s.hydrations s (session_missing s)
step hydrating_failed s = when s.hydrations s (hydration_failed s)
step signs_out s = sign_out_chat s

unfoldable pub steps : List Event → Chat → Chat
steps [] s = s
steps (e ∷ es) s = steps es (step e s)

abbrev pub ids : List ChatAttachment → List String
ids atts = map (λ a. a.id) atts

-- The flag says whether a message is under way, there is at most one, and no attachment is staged
-- twice.
pub record IsSound (s : Chat) : Type 0 where
  pub one_send : s.sends ≡ (if s.chat_loading then 1 else 0)
  pub staged_once : IsDistinct (ids s.chat_attachments)

IsFresh-drop :
    (id other : String) (atts : List ChatAttachment)
    → IsFresh other (ids atts)
    → IsFresh other (ids (drop_attachment id atts))
unfolding drop_attachment
IsFresh-drop id other [] h = tt
IsFresh-drop id other (a ∷ atts) h = ground (arith, IsFresh-drop id other atts)

IsDistinct-drop :
    (id : String) (atts : List ChatAttachment)
    → IsDistinct (ids atts)
    → IsDistinct (ids (drop_attachment id atts))
unfolding drop_attachment
IsDistinct-drop id [] h = tt
IsDistinct-drop id (a ∷ atts) h = elim (Bool-cases (a.id == id)) [
  | inl e ↦ rw (e, drop_attachment) (IsDistinct-drop id atts h.1)
  | inr e ↦ rw (e, drop_attachment) (IsFresh-drop id a.id atts h.0, IsDistinct-drop id atts h.1)
]

IsFresh-snoc :
    (a : ChatAttachment) (id : String) (atts : List ChatAttachment)
    → IsFresh id (ids atts)
    → a.id ≢ id
    → IsFresh id (ids (atts ++ (a ∷ [])))
IsFresh-snoc a id [] h ne = (ne, tt)
IsFresh-snoc a id (b ∷ atts) h ne = (h.0, IsFresh-snoc a id atts h.1 ne)

IsDistinct-snoc :
    (a : ChatAttachment) (atts : List ChatAttachment)
    → has_attachment a.id atts ≡ false
    → IsDistinct (ids atts)
    → IsDistinct (ids (atts ++ (a ∷ [])))
unfolding has_attachment
IsDistinct-snoc a [] e h = (tt, tt)
IsDistinct-snoc a (b ∷ atts) e h =
    let ne : a.id ≢ b.id = ground (arith, eq_iff b.id a.id) in
    let rest : has_attachment a.id atts ≡ false = ground arith in
    (IsFresh-snoc a b.id atts h.0 ne, IsDistinct-snoc a atts rest h.1)

IsSound-when :
    (out : ℕ) (s t : Chat)
    → IsSound s
    → (nat_beq out 0 ≡ false → IsSound t)
    → IsSound (when out s t)
IsSound-when out s t w k = elim (Bool-cases (nat_beq out 0)) [ inl e ↦ rw e w | inr e ↦ rw e (k e) ]

idle_sender : (s : Chat) → cannot_send s ≡ false → s.chat_loading ≡ false
unfolding cannot_send
idle_sender s e = ground arith

IsSound-send_real_chat : (s : Chat) → IsSound s → IsSound (send_real_chat s).0
unfolding send_real_chat
IsSound-send_real_chat s w = elim (Bool-cases (cannot_send s)) [
  | inl e ↦ rw (e, send_real_chat) w
  | inr e ↦
      let none_out : s.sends ≡ 0 = ground (arith, w.one_send, idle_sender s e) in
      rw (e, send_real_chat) (record { one_send = rw none_out; staged_once = tt })
]

IsSound-step : (e : Event) (s : Chat) → IsSound s → IsSound (step e s)
unfolding step add_chat_attachment chat_replied chat_failed hydrate_chat chat_hydrated
    session_missing hydration_failed sign_out_chat
IsSound-step (types v) s w = record { one_send = w.one_send; staged_once = w.staged_once }
IsSound-step (attaches a) s w = elim (Bool-cases (has_attachment a.id s.chat_attachments)) [
  | inl e ↦ rw (e, add_chat_attachment) w
  | inr e ↦
      rw (e, add_chat_attachment)
        (record {
          one_send = w.one_send;
          staged_once = IsDistinct-snoc a s.chat_attachments e w.staged_once;
        })
]
IsSound-step (detaches id) s w = record {
  one_send = w.one_send;
  staged_once = IsDistinct-drop id s.chat_attachments w.staged_once;
}
IsSound-step sends_message s w = IsSound-send_real_chat s w
IsSound-step (replied session_id content agent) s w =
    IsSound-when s.sends s (chat_replied session_id content agent s) w
      (λ e. record { one_send = ground (arith, w.one_send); staged_once = w.staged_once })
IsSound-step send_failed s w =
    IsSound-when s.sends s (chat_failed s) w
      (λ e. record { one_send = ground (arith, w.one_send); staged_once = w.staged_once })
IsSound-step hydrates s w = elim (Bool-cases (cannot_hydrate s)) [
  | inl e ↦ rw (e, step, hydrate_chat) w
  | inr e ↦
      rw (e, step, hydrate_chat) (record { one_send = w.one_send; staged_once = w.staged_once })
]
IsSound-step (hydrated stored) s w =
    IsSound-when s.hydrations s (chat_hydrated stored s) w
      (λ e. record { one_send = w.one_send; staged_once = w.staged_once })
IsSound-step missing s w =
    IsSound-when s.hydrations s (session_missing s) w
      (λ e. record { one_send = w.one_send; staged_once = w.staged_once })
IsSound-step hydrating_failed s w =
    IsSound-when s.hydrations s (hydration_failed s) w
      (λ e. record { one_send = w.one_send; staged_once = w.staged_once })
IsSound-step signs_out s w = record { one_send = w.one_send; staged_once = w.staged_once }

IsSound-steps : (es : List Event) (s : Chat) → IsSound s → IsSound (steps es s)
unfolding steps
IsSound-steps [] s w = w
IsSound-steps (e ∷ es) s w = IsSound-steps es (step e s) (IsSound-step e s w)

-- Whatever happens to the chat from a load of the page on, at most one message is under way,
-- `chatLoading` says whether one is, and no attachment is staged twice.
pub steps-IsSound :
    (stored : Option String) (es : List Event) → IsSound (steps es (first_chat stored))
steps-IsSound stored es =
    IsSound-steps es (first_chat stored) (record { one_send = refl; staged_once = tt })

sends-send_real_chat : (s : Chat) → cannot_send s ≡ false → (send_real_chat s).0.sends ≡ suc s.sends
unfolding send_real_chat
sends-send_real_chat s e = rw (e, send_real_chat)

reply_after_sign_out :
    (session_id content : String) (agent : Option String) (s : Chat) {n : ℕ}
    → s.sends ≡ suc n
    → (let after = steps (signs_out ∷ replied session_id content agent ∷ []) s in
        (after.chat_messages ≡ assistant_message content agent ∷ [])
        × (after.chat_session_id ≡ some session_id)
        × (after.stored_session ≡ some session_id))
unfolding steps step chat_replied sign_out_chat
reply_after_sign_out session_id content agent s {n} e =
    let out : nat_beq s.sends 0 ≡ false = ground (arith, e) in rw (out, step) (refl, refl, refl)

-- A message that is sent before the user signs out: if its reply arrives after that, the reply is
-- the chat's only message, and its session is the chat's and what localStorage holds.
pub late_reply_lem :
    (session_id content : String) (agent : Option String) (s : Chat)
    → cannot_send s ≡ false
    → (let after = steps (sends_message ∷ signs_out ∷ replied session_id content agent ∷ []) s in
        (after.chat_messages ≡ assistant_message content agent ∷ [])
        × (after.chat_session_id ≡ some session_id)
        × (after.stored_session ≡ some session_id))
unfolding steps step
late_reply_lem session_id content agent s e =
    reply_after_sign_out session_id content agent (send_real_chat s).0 (sends-send_real_chat s e)
