-- ===== src/AgentEvents/Consumer/Invariant.antt =====
-- The states that the consumer can be in.
use apply_agent.Prelude.{
  String, ◌≤◌, ◌≡◌, ◌⊎◌, true, false, Option, none, some, List, [], ◌∷◌, arith,
}
use apply_agent.AgentEvents.Consumer.{
  Consumer, Input, next, fail, complete, fire, abort, abort_error, transport, step, run, begin,
}

-- Done: nothing is open and no timer is pending.
abbrev pub IsOver : Consumer → Type 0
IsOver c = (c.settled ≡ true) × (c.live ≡ false) × (c.timer ≡ false)

-- Under way: the signal is heard, and either a connection is open or a timer will open one.
abbrev pub IsUnderWay : Consumer → Type 0
IsUnderWay c =
    (c.settled ≡ false)
    × (c.listening ≡ true)
    × (c.aborted ≡ false)
    × (((c.live ≡ true) × (c.timer ≡ false)) ⊎ ((c.live ≡ false) × (c.timer ≡ true)))

pub record IsSound (c : Consumer) : Type 0 where
  pub budget : c.attempt ≤ 3
  pub phase : IsOver c ⊎ IsUnderWay c

pub step-IsSound : (c : Consumer) (i : Input) → IsSound c → IsSound (step c i).0
unfolding step
step-IsSound c (next f) h = ground arith
step-IsSound c (fail abort_error) h = ground arith
step-IsSound c (fail (transport e)) h = ground arith
step-IsSound c complete h = ground arith
step-IsSound c (fire none) h = ground arith
step-IsSound c (fire (some e)) h = ground arith
step-IsSound c abort h = ground arith

pub begin-IsSound : (err : Option String) → IsSound (begin err).0
unfolding begin
begin-IsSound none = ground arith
begin-IsSound (some e) = ground arith

pub run-IsSound : (c : Consumer) (is : List Input) → IsSound c → IsSound (run c is).0
unfolding run
run-IsSound c [] h = h
run-IsSound c (i ∷ is) h = run-IsSound (step c i).0 is (step-IsSound c i h)
