-- ===== src/AgentEvents/Consumer/Resume.antt =====
-- The cursors and the number of the resumed requests.
use apply_agent.Prelude.{
  ℕ, ◌≡◌, refl, sym, ◌∙◌, String, Option, none, some, List, [], ◌∷◌, ◌++◌, max, arith, get_or_else,
  subst,
}
use apply_agent.AgentEvents.Consumer.{
  Consumer, Input, next, fail, complete, fire, abort, abort_error, transport, step, run, begin,
  consume_agent_stream, Effect, open_request, on_event, on_error, on_done, on_reconnect,
  on_stream_expired, cursor_of, read_stream_seq, seq_after, Frame,
}

abbrev pub frame_seq : Frame → ℕ
frame_seq f = get_or_else (read_stream_seq f) 0

-- The highest sequence number of the events handed on, and `n`.
abbrev pub highest : ℕ → List Effect → ℕ
highest n [] = n
highest n (on_event f ∷ rest) = highest (max n (frame_seq f)) rest
highest n (_ ∷ rest) = highest n rest

-- Every resumed request carries the highest sequence number handed on before it, if there is one;
-- the first request carries none.
abbrev pub FollowsCursor : ℕ → List Effect → Type 0
FollowsCursor n [] = Unit
FollowsCursor n (open_request resume c ∷ rest) = (c ≡ cursor_of resume n) × FollowsCursor n rest
FollowsCursor n (on_event f ∷ rest) = FollowsCursor (max n (frame_seq f)) rest
FollowsCursor n (_ ∷ rest) = FollowsCursor n rest

FollowsCursor-append :
    (n : ℕ) (xs ys : List Effect)
    → FollowsCursor n xs
    → FollowsCursor (highest n xs) ys
    → FollowsCursor n (xs ++ ys)
FollowsCursor-append n [] ys h k = k
FollowsCursor-append n (open_request r c ∷ xs) ys (e, h) k = (e, FollowsCursor-append n xs ys h k)
FollowsCursor-append n (on_event f ∷ xs) ys h k =
    FollowsCursor-append (max n (frame_seq f)) xs ys h k
FollowsCursor-append n (on_error e ∷ xs) ys h k = FollowsCursor-append n xs ys h k
FollowsCursor-append n (on_done ∷ xs) ys h k = FollowsCursor-append n xs ys h k
FollowsCursor-append n (on_reconnect a d ∷ xs) ys h k = FollowsCursor-append n xs ys h k
FollowsCursor-append n (on_stream_expired t ∷ xs) ys h k = FollowsCursor-append n xs ys h k

highest-append : (n : ℕ) (xs ys : List Effect) → highest n (xs ++ ys) ≡ highest (highest n xs) ys
highest-append n [] ys = refl
highest-append n (on_event f ∷ xs) ys = highest-append (max n (frame_seq f)) xs ys
highest-append n (open_request r c ∷ xs) ys = highest-append n xs ys
highest-append n (on_error e ∷ xs) ys = highest-append n xs ys
highest-append n (on_done ∷ xs) ys = highest-append n xs ys
highest-append n (on_reconnect a d ∷ xs) ys = highest-append n xs ys
highest-append n (on_stream_expired t ∷ xs) ys = highest-append n xs ys

seq_after_lem : (n : ℕ) (o : Option ℕ) → seq_after n o ≡ max n (get_or_else o 0)
seq_after_lem n none = omega arith
seq_after_lem n (some k) = ground arith

abbrev IsTracked : Consumer → Consumer × List Effect → Type 0
IsTracked c r = FollowsCursor c.last_seq r.1 × (highest c.last_seq r.1 ≡ r.0.last_seq)

step-IsTracked : (c : Consumer) (i : Input) → IsTracked c (step c i)
unfolding step
step-IsTracked c (next f) = ground (arith, seq_after_lem c.last_seq (read_stream_seq f))
step-IsTracked c (fail abort_error) = ground arith
step-IsTracked c (fail (transport e)) = ground arith
step-IsTracked c complete = ground arith
step-IsTracked c (fire none) = ground arith
step-IsTracked c (fire (some e)) = ground arith
step-IsTracked c abort = ground arith

run-IsTracked : (c : Consumer) (is : List Input) → IsTracked c (run c is)
unfolding run
run-IsTracked c [] = (tt, refl)
run-IsTracked c (i ∷ is) =
    let (f, e) = step-IsTracked c i in
    let (g, d) = run-IsTracked (step c i).0 is in
    (
      FollowsCursor-append c.last_seq (step c i).1 _ f
          (subst (λ n. FollowsCursor n (run (step c i).0 is).1) (sym e) g),
      highest-append c.last_seq (step c i).1 _ ∙ rw e d,
    )

begin-FollowsCursor :
    (err : Option String)
    → FollowsCursor 0 (begin err).1 × (highest 0 (begin err).1 ≡ 0) × ((begin err).0.last_seq ≡ 0)
unfolding begin
begin-FollowsCursor none = ((refl, tt), refl, refl)
begin-FollowsCursor (some e) = (tt, refl, refl)

-- Whatever happens, every resumed request of a stream carries as its cursor the highest positive
-- sequence number among the events handed on so far, or no cursor if there was none, and the first
-- request carries none.
pub consumer_resumes :
    (err : Option String) (is : List Input) → FollowsCursor 0 (consume_agent_stream err is).1
unfolding consume_agent_stream
consumer_resumes err is =
    let (f, e, z) = begin-FollowsCursor err in
    let (g, d) = run-IsTracked (begin err).0 is in
    FollowsCursor-append 0 (begin err).1 _ f
      (subst (λ n. FollowsCursor n (run (begin err).0 is).1) (z ∙ sym e) g)
