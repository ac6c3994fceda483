-- ===== src/AgentEvents/Change/Ids.antt =====
-- The prefixes of step ids keep message, tool and card ids apart.
use Prim.Native.Char.{Char, code}
use Prim.Native.String.{[], ◌∷◌}
use text.Mathlib.TextLemmas.{cons-append, append_cancel_left}
use apply_agent.Prelude.{
  ℕ, String, ◌<>◌, ◌≡◌, ◌∙◌, ap, ◌≢◌, Option, arith, is_empty, get_or_else, Bool-cases, inl, inr,
}
use apply_agent.AgentEvents.Events.{AgentEvent, AgentPayload, RelayMeta, extract_relay_meta}
use apply_agent.AgentEvents.State.{message_step_id, tool_step_id}
use apply_agent.AgentEvents.Custom.{plan_step_id, agent_step_id, custom_step_id}

-- The code of the first character, 0 for the empty text.
abbrev initial : String → ℕ
initial [] = 0
initial (c ∷ s) = code c

initial-append : (c : Char) (s t : String) → initial ((c ∷ s) <> t) ≡ code c
initial-append c s t = rw cons-append

-- An id whose first letter is no `m` is no message's.
ne_of_initial : (id m : String) → initial id ≢ b'm' → id ≢ message_step_id m
ne_of_initial id m h e = h (ap initial e ∙ initial-append _ _ m)

append_ne : (c : Char) (p s m : String) → code c ≢ b'm' → (c ∷ p) <> s ≢ message_step_id m
append_ne c p s m h = ne_of_initial _ m (rw initial-append h)

module _ (m : String) where
  pub hitl_ne : (s : String) → "hitl:" <> s ≢ message_step_id m
  hitl_ne s = append_ne _ _ s m (omega arith)

  pub tool_ne : (s : String) → tool_step_id s ≢ message_step_id m
  tool_ne s = append_ne _ _ s m (omega arith)

  pub artifact_ne : (s : String) → "artifact:" <> s ≢ message_step_id m
  artifact_ne s = append_ne _ _ s m (omega arith)

  pub file_ne : (s : String) → "file:" <> s ≢ message_step_id m
  file_ne s = append_ne _ _ s m (omega arith)

  pub browser_ne : (s : String) → "browser:" <> s ≢ message_step_id m
  browser_ne s = append_ne _ _ s m (omega arith)

  pub plan_ne : (task_id : Option String) → plan_step_id task_id ≢ message_step_id m
  plan_ne task_id = elim (Bool-cases (is_empty (get_or_else task_id ""))) [
    | inl e ↦ rw e (ne_of_initial _ m (omega arith))
    | inr e ↦ rw e (append_ne _ _ _ m (omega arith))
  ]

  pub agent_ne :
      (now : ℕ) (evt : AgentEvent) (v : AgentPayload) → agent_step_id now evt v ≢ message_step_id m
  agent_ne now evt v =
      elim (Bool-cases (is_empty (get_or_else (extract_relay_meta evt).step_id ""))) [
        | inl e ↦ rw e (append_ne _ _ _ m (omega arith))
        | inr e ↦ rw e (append_ne _ _ _ m (omega arith))
      ]

  pub custom_ne : (name : String) (meta : RelayMeta) → custom_step_id name meta ≢ message_step_id m
  custom_ne name meta = elim (Bool-cases (is_empty (get_or_else meta.step_id ""))) [
    | inl e ↦ rw e (append_ne _ _ _ m (omega arith))
    | inr e ↦ rw e (append_ne _ _ _ m (omega arith))
  ]

-- Two messages have one step only if they are one.
pub message_step_id-injective : (m n : String) → message_step_id m ≡ message_step_id n → m ≡ n
message_step_id-injective m n e = append_cancel_left "msg:" m n e
