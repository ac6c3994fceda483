-- ===== src/AgentEvents/Invariant.antt =====
-- Well-formed reducer states, and that every event keeps them so.
use apply_agent.Prelude.{
  Host, ℕ, String, ◌≤◌, ◌≡◌, refl, true, Option, none, some, [], ◌∷◌, length, All, arith, eq_refl,
}
use apply_agent.Prelude.Assoc.{
  Assoc, lookup, has, insert, keys, IsDistinct, keys-insert, IsDistinct-insert, lookup-insert,
  All-insert, All-lookup,
}
use apply_agent.AgentEvents.Events.{AgentEvent, EventBody, Custom}
use apply_agent.AgentEvents.Steps.{Step}
use apply_agent.AgentEvents.State.{ReducerState, empty_state, upsert_step}
use apply_agent.AgentEvents.Reducer.{apply_event, apply_events, Arrivals}
use apply_agent.AgentEvents.Change.{Change, same, put, start, after}
use apply_agent.AgentEvents.Change.Events.{apply_event-Change, Opens, OpensCustom}

-- An entry of the map: the key is the step's own id, and its feed is within the cap.
abbrev pub IsEntry : String × Step → Type 0
IsEntry p = (p.1.id ≡ p.0) × (length p.1.events ≤ 200)

-- The root, once set, is a step of the map.
abbrev pub IsRooted : Option String → Assoc Step → Type 0
IsRooted none steps = Unit
IsRooted (some id) steps = has id steps ≡ true

pub record IsWellFormed (s : ReducerState) : Type 0 where
  -- `order` is the insertion order of the map.
  pub ordered : s.order ≡ keys s.steps
  pub distinct : IsDistinct (keys s.steps)
  pub entries : All IsEntry s.steps
  pub rooted : IsRooted s.root_step_id s.steps

has-insert :
    (k j : String) (st : Step) (steps : Assoc Step)
    → has j steps ≡ true
    → has j (insert k st steps) ≡ true
has-insert k j st steps h = ground (arith, lookup-insert k j st steps)

IsRooted-insert :
    (root : Option String) (k : String) (st : Step) (steps : Assoc Step)
    → IsRooted root steps
    → IsRooted root (insert k st steps)
IsRooted-insert none k st steps h = tt
IsRooted-insert (some id) k st steps h = has-insert k id st steps h

pub upsert_step-IsWellFormed :
    (s : ReducerState) (st : Step)
    → length st.events ≤ 200
    → IsWellFormed s
    → IsWellFormed (upsert_step s st)
unfolding upsert_step
upsert_step-IsWellFormed s st bound w = record {
  ordered = rw (keys-insert st.id st s.steps, w.ordered);
  distinct = IsDistinct-insert st.id st s.steps w.distinct;
  entries = All-insert IsEntry st.id st s.steps (refl, bound) w.entries;
  rooted = IsRooted-insert s.root_step_id st.id st s.steps w.rooted;
}

started-IsWellFormed :
    (s : ReducerState) (st : Step)
    → length st.events ≤ 200
    → IsWellFormed s
    → IsWellFormed (record (upsert_step (record s { root_step_id = some st.id }) st) {
      root_step_id = some st.id;
    })
unfolding upsert_step
started-IsWellFormed s st bound w = record {
  ordered = rw (keys-insert st.id st s.steps, w.ordered);
  distinct = IsDistinct-insert st.id st s.steps w.distinct;
  entries = All-insert IsEntry st.id st s.steps (refl, bound) w.entries;
  rooted = rw (lookup-insert st.id st.id st s.steps, eq_refl st.id);
}

pub Change-IsWellFormed :
    {Q : String → Type 0} {s t : ReducerState} → Change Q s t → IsWellFormed s → IsWellFormed t
Change-IsWellFormed (same _) w = w
Change-IsWellFormed (put s st bound _) w = upsert_step-IsWellFormed s st bound w
Change-IsWellFormed (start s st bound _) w = started-IsWellFormed s st bound w
Change-IsWellFormed (after c d) w = Change-IsWellFormed d (Change-IsWellFormed c w)

-- Any event is a change, if no id is barred.
abbrev Anything : String → Type 0
Anything id = Unit

custom-OpensCustom : (now : ℕ) (evt : AgentEvent) (c : Custom) → OpensCustom Anything now evt c
custom-OpensCustom now evt (Custom.task_graph v) = tt
custom-OpensCustom now evt _ = tt

body-Opens : (now : ℕ) (evt : AgentEvent) (body : EventBody) → Opens Anything now evt body
body-Opens now evt (EventBody.run_finished t r o) = λ id. tt
body-Opens now evt (EventBody.custom c) = custom-OpensCustom now evt c
body-Opens now evt _ = tt

pub any-Change :
    (host : Host) (now : ℕ) (s : ReducerState) (evt : AgentEvent)
    → Change Anything s (apply_event host now s evt)
any-Change host now s evt = apply_event-Change Anything now s evt host (body-Opens now evt evt.body)

pub empty_state-IsWellFormed : IsWellFormed empty_state
unfolding empty_state
empty_state-IsWellFormed = record { ordered = refl; distinct = tt; entries = tt; rooted = tt }

-- Every stream of events, of any kinds and in any order, keeps a well-formed state well-formed:
-- `order` lists the keys of the map in insertion order, no id occurs twice, every step stands under
-- its own id, no feed is longer than 200 events, and the root, once set, is a step of the map.
pub apply_events-IsWellFormed :
    (host : Host) (s : ReducerState) (arrivals : Arrivals)
    → IsWellFormed s
    → IsWellFormed (apply_events host s arrivals)
unfolding apply_events
apply_events-IsWellFormed host s [] w = w
apply_events-IsWellFormed host s ((now, evt) ∷ rest) w =
    apply_events-IsWellFormed host (apply_event host now s evt) rest
      (Change-IsWellFormed (any-Change host now s evt) w)

-- What a lookup finds in a well-formed state.
pub lookup-IsEntry :
    (s : ReducerState) (k : String) {st : Step}
    → IsWellFormed s
    → lookup k s.steps ≡ some st
    → IsEntry (k, st)
lookup-IsEntry s k w e = All-lookup IsEntry k s.steps w.entries e
