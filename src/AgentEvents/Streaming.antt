-- ===== src/AgentEvents/Streaming.antt =====
-- Streaming a message: its deltas are concatenated, whatever else arrives in between.
use text.Mathlib.TextLemmas.{append-nil, append_assoc}
use apply_agent.Prelude.{
  Host, ℕ, String, ◌<>◌, ◌==◌, eq_iff, eq_refl, ◌≡◌, ◌≢◌, refl, sym, ◌∙◌, Option, none, some, [],
  ◌∷◌, All, Bool-cases, Option-cases, inl, inr, if◌then◌else◌, subst, str_neq,
}
use apply_agent.Prelude.Assoc.{lookup, insert, lookup-insert}
use apply_agent.AgentEvents.Events.{AgentEvent, EventBody, Custom, extract_relay_meta}
use apply_agent.AgentEvents.Steps.{Step}
use apply_agent.AgentEvents.State.{ReducerState, message_step_id, upsert_step}
use apply_agent.AgentEvents.Handlers.{run_step_id, on_text_content}
use apply_agent.AgentEvents.Reducer.{apply_body, apply_event, apply_events, Arrivals}
use apply_agent.AgentEvents.Change.{Change, Write, create, extend, refresh, same, put, start, after}
use apply_agent.AgentEvents.Change.Ids
use apply_agent.AgentEvents.Change.Events.{Opens, OpensCustom, apply_body-Change}
use apply_agent.AgentEvents.Invariant.{
  IsWellFormed, Change-IsWellFormed, any-Change, lookup-IsEntry,
}

abbrev step_text_of : Option Step → Option String
step_text_of none = none
step_text_of (some st) = st.text

-- The text of the step with the id `k`, if it is there and has one.
abbrev pub text_of : String → ReducerState → Option String
text_of k s = step_text_of (lookup k s.steps)

module _ (k : String) (s : ReducerState) where
  -- A write to another step leaves the text alone, and so does a refresh.
  Write-text_of :
      (st : Step)
      → IsWellFormed s
      → Write (λ id. id ≢ k) s st
      → step_text_of (lookup k (insert st.id st s.steps)) ≡ text_of k s
  Write-text_of st w (create q) = rw (lookup-insert, str_neq st.id k q)
  Write-text_of st w (extend j old found same_id q) =
      let moved : st.id ≢ k = λ e. q (sym (lookup-IsEntry s j w found).0 ∙ sym same_id ∙ e) in
      rw (lookup-insert, str_neq st.id k moved)
  Write-text_of st w (refresh j old found r) = elim (Bool-cases (st.id == k)) [
    | inl here ↦
        let key : j ≡ k =
          sym (lookup-IsEntry s j w found).0 ∙ sym r.same_id ∙ (eq_iff st.id k).0 here in
        rw (lookup-insert, here, ← key, found, r.same_text)
    | inr there ↦ rw (lookup-insert, there)
  ]

Change-text_of :
    (k : String) {s t : ReducerState}
    → Change (λ id. id ≢ k) s t
    → IsWellFormed s
    → text_of k t ≡ text_of k s
unfolding upsert_step
Change-text_of k (same s) w = refl
Change-text_of k (put s st bound write) w = Write-text_of k s st w write
Change-text_of k (start s st bound q) w = Write-text_of k s st w (create q)
Change-text_of k (after c d) w = Change-text_of k d (Change-IsWellFormed c w) ∙ Change-text_of k c w

-- The event does not open the step of the message `m` anew: no start of a message `m`, no reasoning
-- under its id, and no run whose own id is that of the message's step.
abbrev pub IsForeign : String → ℕ → AgentEvent → EventBody → Type 0
IsForeign m now evt (EventBody.run_started t r) =
    run_step_id now (extract_relay_meta evt).run_id r ≢ message_step_id m
IsForeign m now evt (EventBody.text_start n) = n ≢ m
IsForeign m now evt (EventBody.reasoning_start n) = n ≢ m
IsForeign m now evt (EventBody.reasoning_content n d) = n ≢ m
IsForeign m now evt _ = Unit

-- What one event adds to the text of the message `m`.
abbrev pub delta_of : String → EventBody → String
delta_of m (EventBody.text_content n d) = if n == m then d else ""
delta_of m _ = ""

-- The deltas of the message `m` in a stream, one after the other.
abbrev pub deltas : String → Arrivals → String
deltas m [] = ""
deltas m ((now, evt) ∷ rest) = delta_of m evt.body <> deltas m rest

custom-OpensCustom :
    (m : String) (now : ℕ) (evt : AgentEvent) (c : Custom)
    → OpensCustom (λ id. id ≢ message_step_id m) now evt c
custom-OpensCustom m now evt (Custom.task_graph v) = Ids.plan_ne m v.task_id
custom-OpensCustom m now evt (Custom.agent_start v) = Ids.agent_ne m now evt v
custom-OpensCustom m now evt (Custom.narrator v) =
    Ids.custom_ne m "relay.narrator" (extract_relay_meta evt)
custom-OpensCustom m now evt (Custom.partial_artifact v) = Ids.artifact_ne m _
custom-OpensCustom m now evt (Custom.artifact v) = Ids.artifact_ne m _
custom-OpensCustom m now evt (Custom.file_edit v) = Ids.file_ne m _
custom-OpensCustom m now evt (Custom.file_edit_preview v) = Ids.file_ne m _
custom-OpensCustom m now evt (Custom.browser_snapshot v) = Ids.browser_ne m _
custom-OpensCustom m now evt (Custom.browser_action v) = Ids.browser_ne m _
custom-OpensCustom m now evt _ = tt

-- Text of another message is foreign too; `other` is that hypothesis where it is needed.
abbrev IsOther : String → EventBody → Type 0
IsOther m (EventBody.text_content n d) = n ≢ m
IsOther m _ = Unit

body-Opens :
    (m : String) (now : ℕ) (evt : AgentEvent) (body : EventBody)
    → IsForeign m now evt body
    → IsOther m body
    → Opens (λ id. id ≢ message_step_id m) now evt body
body-Opens m now evt (EventBody.run_started t r) f o = f
body-Opens m now evt (EventBody.run_finished t r o') f o = Ids.hitl_ne m
body-Opens m now evt (EventBody.reasoning_start n) f o =
    λ e. f (Ids.message_step_id-injective n m e)
body-Opens m now evt (EventBody.reasoning_content n d) f o =
    λ e. f (Ids.message_step_id-injective n m e)
body-Opens m now evt (EventBody.text_start n) f o = λ e. f (Ids.message_step_id-injective n m e)
body-Opens m now evt (EventBody.text_content n d) f o = λ e. o (Ids.message_step_id-injective n m e)
body-Opens m now evt (EventBody.tool_start t n) f o = Ids.tool_ne m t
body-Opens m now evt (EventBody.tool_result t n c) f o = Ids.tool_ne m t
body-Opens m now evt (EventBody.custom c) f o = custom-OpensCustom m now evt c
body-Opens m now evt _ f o = tt

-- A delta of the message itself is appended.
on_text_content-text_of :
    (now : ℕ) (s : ReducerState) (evt : AgentEvent) (m d t : String)
    → IsWellFormed s
    → text_of (message_step_id m) s ≡ some t
    → text_of (message_step_id m) (on_text_content now s evt m d) ≡ some (t <> d)
unfolding on_text_content upsert_step
on_text_content-text_of now s evt m d t w h =
    elim (Option-cases (lookup (message_step_id m) s.steps)) [
      | inl e ↦ absurd (cc (rw e at h))
      | inr (st, e) ↦
          let at_key : st.id ≡ message_step_id m = (lookup-IsEntry s (message_step_id m) w e).0 in
          let said : st.text ≡ some t = rw e at h in
          rw (e, on_text_content, lookup-insert, at_key, eq_refl, said)
    ]

module _ (host : Host) (now : ℕ) (s : ReducerState) (evt : AgentEvent) (m t : String) where
  body_other :
      (body : EventBody)
      → IsWellFormed s
      → IsForeign m now evt body
      → IsOther m body
      → text_of (message_step_id m) s ≡ some t
      → text_of (message_step_id m) (apply_body host now s evt body) ≡ some t
  body_other body w f o h =
      Change-text_of (message_step_id m)
        (apply_body-Change (λ id. id ≢ message_step_id m) now s evt host body
          (body-Opens m now evt body f o))
        w
      ∙ h

  body_text_of :
      (body : EventBody)
      → IsWellFormed s
      → IsForeign m now evt body
      → text_of (message_step_id m) s ≡ some t
      → text_of (message_step_id m) (apply_body host now s evt body) ≡ some (t <> delta_of m body)
  unfolding apply_body
  body_text_of (EventBody.text_content n d) w f h = elim (Bool-cases (n == m)) [
    | inl e ↦ rw e (
        subst (λ k. text_of (message_step_id m) (on_text_content now s evt k d) ≡ some (t <> d))
          (sym ((eq_iff n m).0 e)) (on_text_content-text_of now s evt m d t w h))
    | inr e ↦
        rw (e, append-nil)
          (body_other (EventBody.text_content n d) w f (λ p. cc (rw (p, eq_refl m) at e)) h)
  ]
  body_text_of body w f h = rw append-nil (body_other body w f tt h)

-- Once the step of the message `m` is open with the text `t`, its text after a stream of events is
-- `t` followed by the deltas for `m` in the order of their arrival. The other events of the stream
-- are arbitrary (other messages, tools, runs, cards, interrupts), but none opens the step anew.
pub apply_events-text_of :
    (host : Host) (s : ReducerState) (arrivals : Arrivals) (m t : String)
    → IsWellFormed s
    → All (λ a. IsForeign m a.0 a.1 a.1.body) arrivals
    → text_of (message_step_id m) s ≡ some t
    → text_of (message_step_id m) (apply_events host s arrivals) ≡ some (t <> deltas m arrivals)
unfolding apply_events apply_event
apply_events-text_of host s [] m t w f h = rw append-nil h
apply_events-text_of host s ((now, evt) ∷ rest) m t w (f, fs) h = rw (← append_assoc) (
    apply_events-text_of host (apply_event host now s evt) rest m (t <> delta_of m evt.body)
      (Change-IsWellFormed (any-Change host now s evt) w) fs
      (body_text_of host now s evt m t evt.body w f h))
