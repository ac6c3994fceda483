-- ===== src/AgentEvents/Timeline.antt =====
-- The timeline only grows: what an event may do to `order` and to the set of steps.
use apply_agent.Prelude.{
  Host, String, ◌≡◌, sym, ◌∙◌, ap, Bool, true, false, some, List, [], ◌∷◌, ◌++◌, Bool-cases, inl,
  inr, arith,
}
use mathlib.Core.List.{append-nil, append_assoc}
use apply_agent.Prelude.Assoc.{has, lookup-insert}
use apply_agent.AgentEvents.Steps.{Step}
use apply_agent.AgentEvents.State.{ReducerState, upsert_step}
use apply_agent.AgentEvents.Reducer.{apply_event, apply_events, Arrivals}
use apply_agent.AgentEvents.Change.{Change, same, put, start, after}
use apply_agent.AgentEvents.Invariant.{any-Change}

-- `t` comes after `s`: its order continues that of `s`, and it has every step that `s` has.
pub record IsLater (s t : ReducerState) : Type 0 where
  pub added : List String
  pub continues : t.order ≡ s.order ++ added
  pub keeps : (k : String) → has k s.steps ≡ true → has k t.steps ≡ true

IsLater-refl : (s : ReducerState) → IsLater s s
IsLater-refl s = record { added = []; continues = sym (append-nil s.order); keeps = λ k h. h }

IsLater-trans : {s t u : ReducerState} → IsLater s t → IsLater t u → IsLater s u
IsLater-trans {s} a b = record {
  added = a.added ++ b.added;
  continues =
      b.continues ∙ ap (λ o. o ++ b.added) a.continues ∙ append_assoc s.order a.added b.added;
  keeps = λ k h. b.keeps k (a.keeps k h);
}

new_in_order : Bool → String → List String
new_in_order true id = []
new_in_order false id = id ∷ []

upsert_step-IsLater : (s : ReducerState) (st : Step) → IsLater s (upsert_step s st)
unfolding upsert_step new_in_order
upsert_step-IsLater s st = record {
  added = new_in_order (has st.id s.steps) st.id;
  continues = elim (Bool-cases (has st.id s.steps)) [
    | inl e ↦ rw e (sym (append-nil s.order))
    | inr e ↦ rw e
  ];
  keeps = λ k h. ground (arith, lookup-insert st.id k st s.steps);
}

Change-IsLater : {Q : String → Type 0} {s t : ReducerState} → Change Q s t → IsLater s t
Change-IsLater (same s) = IsLater-refl s
Change-IsLater (put s st _ _) = upsert_step-IsLater s st
Change-IsLater (start s st _ _) =
    let l = upsert_step-IsLater (record s { root_step_id = some st.id }) st in
    record { added = l.added; continues = l.continues; keeps = l.keeps }
Change-IsLater (after c d) = IsLater-trans (Change-IsLater c) (Change-IsLater d)

-- A stream of events only appends to `order`, and no step ever leaves the map.
pub apply_events-IsLater :
    (host : Host) (s : ReducerState) (arrivals : Arrivals)
    → IsLater s (apply_events host s arrivals)
unfolding apply_events
apply_events-IsLater host s [] = IsLater-refl s
apply_events-IsLater host s ((now, evt) ∷ rest) =
    IsLater-trans (Change-IsLater (any-Change host now s evt))
      (apply_events-IsLater host (apply_event host now s evt) rest)
