-- ===== src/AgentEvents/Consumer/Budget.antt =====
-- How often the consumer reconnects.
use apply_agent.Prelude.{
  ℕ, suc, ◌+◌, ◌≤◌, ◌<◌, ◌≡◌, String, true, false, Option, none, some, List, [], ◌∷◌, ◌++◌, arith,
  if◌then◌else◌, negsuc, pos, ltb,
}
use apply_agent.AgentEvents.Consumer.{
  Consumer, Input, next, fail, complete, fire, abort, abort_error, transport, step, run, begin,
  consume_agent_stream, Effect, open_request, on_event, on_error, on_done, on_reconnect,
  on_stream_expired,
}
use apply_agent.AgentEvents.Consumer.Invariant.{IsSound, step-IsSound, begin-IsSound}

-- The resumed requests since the last event, if there were `k` before.
abbrev pub resumes : ℕ → List Effect → ℕ
resumes k [] = k
resumes k (open_request true c ∷ rest) = resumes (suc k) rest
resumes k (on_event f ∷ rest) = resumes 0 rest
resumes k (_ ∷ rest) = resumes k rest

-- At most three resumed requests stand between two events.
abbrev pub WithinBudget : ℕ → List Effect → Type 0
WithinBudget k [] = Unit
WithinBudget k (open_request true c ∷ rest) = (k < 3) × WithinBudget (suc k) rest
WithinBudget k (on_event f ∷ rest) = WithinBudget 0 rest
WithinBudget k (_ ∷ rest) = WithinBudget k rest

WithinBudget-append :
    (k : ℕ) (xs ys : List Effect)
    → WithinBudget k xs
    → WithinBudget (resumes k xs) ys
    → WithinBudget k (xs ++ ys)
WithinBudget-append k [] ys h g = g
WithinBudget-append k (open_request true c ∷ xs) ys (b, h) g =
    (b, WithinBudget-append (suc k) xs ys h g)
WithinBudget-append k (open_request false c ∷ xs) ys h g = WithinBudget-append k xs ys h g
WithinBudget-append k (on_event f ∷ xs) ys h g = WithinBudget-append 0 xs ys h g
WithinBudget-append k (on_error e ∷ xs) ys h g = WithinBudget-append k xs ys h g
WithinBudget-append k (on_done ∷ xs) ys h g = WithinBudget-append k xs ys h g
WithinBudget-append k (on_reconnect a d ∷ xs) ys h g = WithinBudget-append k xs ys h g
WithinBudget-append k (on_stream_expired t ∷ xs) ys h g = WithinBudget-append k xs ys h g

-- The requests so far, and the one that a pending timer will make, are counted by `attempt`.
abbrev IsCounted : ℕ → Consumer → Type 0
IsCounted k c = k + (if c.timer then 1 else 0) ≤ c.attempt

abbrev IsSpent : ℕ → Consumer × List Effect → Type 0
IsSpent k r = WithinBudget k r.1 × IsCounted (resumes k r.1) r.0

step-IsSpent : (k : ℕ) (c : Consumer) (i : Input) → IsSound c → IsCounted k c → IsSpent k (step c i)
unfolding step
step-IsSpent k c (next f) h b = ground arith
step-IsSpent k c (fail abort_error) h b = ground arith
step-IsSpent k c (fail (transport e)) h b = ground arith
step-IsSpent k c complete h b = ground arith
step-IsSpent k c (fire none) h b = ground arith
step-IsSpent k c (fire (some e)) h b = ground arith
step-IsSpent k c abort h b = ground arith

run-WithinBudget :
    (k : ℕ) (c : Consumer) (is : List Input)
    → IsSound c
    → IsCounted k c
    → WithinBudget k (run c is).1
unfolding run
run-WithinBudget k c [] h b = tt
run-WithinBudget k c (i ∷ is) h b =
    let (w, d) = step-IsSpent k c i h b in
    WithinBudget-append k (step c i).1 _ w
      (run-WithinBudget (resumes k (step c i).1) (step c i).0 is (step-IsSound c i h) d)

begin-IsSpent : (err : Option String) → IsSpent 0 (begin err)
unfolding begin
begin-IsSpent none = ground arith
begin-IsSpent (some e) = ground arith

-- In every run there are at most three resumed requests between one event and the next, before the
-- first event and after the last one: a connection that keeps dropping is given up.
pub consumer_budget :
    (err : Option String) (is : List Input) → WithinBudget 0 (consume_agent_stream err is).1
unfolding consume_agent_stream
consumer_budget err is =
    let (w, b) = begin-IsSpent err in
    WithinBudget-append 0 (begin err).1 _ w
      (run-WithinBudget (resumes 0 (begin err).1) (begin err).0 is (begin-IsSound err) b)

abbrev drop_and_fire : String → List Input
drop_and_fire e = fail (transport e) ∷ fire none ∷ []

-- An open connection with no retry behind it that drops, and drops again after each of the three
-- reconnects with no event in between, is reported: the delays are 500, 1500 and 3500 ms, each
-- request resumes from the cursor, and the last failure's message goes to `onError`.
pub consumer_gives_up :
    (c : Consumer) (e1 e2 e3 e4 : String)
    → c.live ≡ true
    → c.settled ≡ false
    → c.aborted ≡ false
    → c.expired ≡ false
    → c.attempt ≡ 0
    → let cursor = if ltb 0 c.last_seq then some c.last_seq else none in
      (run c (
        drop_and_fire e1
        ++ (drop_and_fire e2 ++ (drop_and_fire e3 ++ (fail (transport e4) ∷ []))))).1
      ≡ on_reconnect (pos 1) (some 500)
        ∷ open_request true cursor
        ∷ on_reconnect (pos 2) (some 1500)
        ∷ open_request true cursor
        ∷ on_reconnect (pos 3) (some 3500)
        ∷ open_request true cursor
        ∷ on_reconnect (negsuc 2) none
        ∷ on_error e4
        ∷ []
unfolding run step
consumer_gives_up c e1 e2 e3 e4 live settled aborted expired attempt =
    rw (run, step, live, settled, aborted, expired, attempt)
