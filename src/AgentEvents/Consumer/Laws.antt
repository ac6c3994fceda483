-- ===== src/AgentEvents/Consumer/Laws.antt =====
-- What a caller of the consumer sees: one end, the right cursors, a bounded number of retries.
use apply_agent.Prelude.{
  ℕ, suc, ◌+◌, ◌≡◌, refl, ◌⊎◌, String, Option, none, some, List, [], ◌∷◌, ◌++◌, arith,
  if◌then◌else◌,
}
use apply_agent.AgentEvents.Consumer.{
  Consumer, Input, next, fail, complete, fire, abort, abort_error, transport, step, run, begin,
  consume_agent_stream, Effect, open_request, on_event, on_error, on_done, on_reconnect,
  on_stream_expired,
}
use apply_agent.AgentEvents.Consumer.Invariant.{
  IsSound, IsOver, IsUnderWay, step-IsSound, begin-IsSound, run-IsSound,
}

-- The calls of `onDone` and `onError`, which end the promise.
abbrev pub endings : List Effect → ℕ
endings [] = 0
endings (on_error e ∷ rest) = suc (endings rest)
endings (on_done ∷ rest) = suc (endings rest)
endings (_ ∷ rest) = endings rest

endings-append : (xs ys : List Effect) → endings (xs ++ ys) ≡ endings xs + endings ys
endings-append [] ys = omega arith
endings-append (on_error e ∷ xs) ys = omega (arith, endings-append xs ys)
endings-append (on_done ∷ xs) ys = omega (arith, endings-append xs ys)
endings-append (open_request r c ∷ xs) ys = endings-append xs ys
endings-append (on_event f ∷ xs) ys = endings-append xs ys
endings-append (on_reconnect a d ∷ xs) ys = endings-append xs ys
endings-append (on_stream_expired t ∷ xs) ys = endings-append xs ys

abbrev pub ended : Consumer → ℕ
ended c = if c.settled then 1 else 0

pub step-endings :
    (c : Consumer) (i : Input) → IsSound c → ended c + endings (step c i).1 ≡ ended (step c i).0
unfolding step
step-endings c (next f) h = ground arith
step-endings c (fail abort_error) h = ground arith
step-endings c (fail (transport e)) h = ground arith
step-endings c complete h = ground arith
step-endings c (fire none) h = ground arith
step-endings c (fire (some e)) h = ground arith
step-endings c abort h = ground arith

run-endings :
    (c : Consumer) (is : List Input)
    → IsSound c
    → ended c + endings (run c is).1 ≡ ended (run c is).0
unfolding run
run-endings c [] h = omega arith
run-endings c (i ∷ is) h = omega (
  arith,
  endings-append (step c i).1 (run (step c i).0 is).1,
  step-endings c i h,
  run-endings (step c i).0 is (step-IsSound c i h),
)

pub begin-endings : (err : Option String) → endings (begin err).1 ≡ ended (begin err).0
unfolding begin
begin-endings none = refl
begin-endings (some e) = refl

-- Whatever the environment does, and in whatever order, the consumer calls `onDone` or `onError`
-- once in all if its promise has resolved and never before. Until then a connection is open or a
-- timer is pending that will open one, and never both; afterwards neither is there.
pub consumer_ends_once :
    (err : Option String) (is : List Input)
    → (endings (consume_agent_stream err is).1 ≡ ended (consume_agent_stream err is).0)
      × (IsOver (consume_agent_stream err is).0 ⊎ IsUnderWay (consume_agent_stream err is).0)
unfolding consume_agent_stream
consumer_ends_once err is = (
  omega (
    arith,
    endings-append (begin err).1 (run (begin err).0 is).1,
    begin-endings err,
    run-endings (begin err).0 is (begin-IsSound err),
  ),
  (run-IsSound (begin err).0 is (begin-IsSound err)).phase,
)

-- Once it is over, nothing is called any more.
step-IsOver : (c : Consumer) (i : Input) → IsOver c → IsOver (step c i).0 × ((step c i).1 ≡ [])
unfolding step
step-IsOver c (next f) h = ground arith
step-IsOver c (fail abort_error) h = ground arith
step-IsOver c (fail (transport e)) h = ground arith
step-IsOver c complete h = ground arith
step-IsOver c (fire none) h = ground arith
step-IsOver c (fire (some e)) h = ground arith
step-IsOver c abort h = ground arith

run-IsOver : (c : Consumer) (is : List Input) → IsOver c → IsOver (run c is).0 × ((run c is).1 ≡ [])
unfolding run
run-IsOver c [] h = (h, refl)
run-IsOver c (i ∷ is) h =
    let (over, quiet) = step-IsOver c i h in
    let (last, silent) = run-IsOver (step c i).0 is over in (last, rw (quiet, silent))

step_abort : (c : Consumer) → IsSound c → IsOver (step c abort).0
unfolding step
step_abort c h = ground arith

-- The abort signal ends the stream at any point, in the middle of a retry too: the promise has
-- resolved, nothing is open, and whatever the environment does next causes no call and no request.
pub consumer_abort :
    (err : Option String) (is later : List Input)
    → let c = (step (consume_agent_stream err is).0 abort).0 in
      IsOver c × IsOver (run c later).0 × ((run c later).1 ≡ [])
unfolding consume_agent_stream
consumer_abort err is later =
    let over =
      step_abort (consume_agent_stream err is).0
        (run-IsSound (begin err).0 is (begin-IsSound err)) in
    let (o, q) = run-IsOver (step (consume_agent_stream err is).0 abort).0 later over in
    (over, o, q)
