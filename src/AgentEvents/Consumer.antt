-- ===== src/AgentEvents/Consumer.antt =====
-- consumer.ts: one logical stream over several connections, resumed by cursor.
-- The closure of `consumeAgentStream` is a state, what the environment does (frames, failures, the
-- timer, the abort signal) are its inputs, and calls of the callbacks and of `fetch` its effects.
-- RxJS delivers nothing to a subscription that has ended; `live` says that one is open.
pub mod Invariant
pub mod Laws
pub mod Resume
pub mod Budget
mod Tests
use apply_agent.Prelude.{
  ℕ, zero, suc, ◌+◌, String, ◌==◌, Bool, true, false, ◌&&◌, ◌||◌, Option, none, some, List, [], ◌∷◌,
  ◌++◌, ltb, leb, ℤ, pos, negsuc, sub_ℕ, Json, num, str, if◌then◌else◌, is_empty, max, to_decimal,
  ◌<>◌,
}
use apply_agent.Prelude.Assoc.{Assoc, lookup, insert}
use apply_agent.AgentEvents.Events.{AgentEvent}

-- A parsed frame: the event, `rawEvent.stream_seq` where it is a number, and the top-level `reason`
-- and `traceId` where they are texts.
pub record Frame : Type 0 where
  pub event : AgentEvent
  pub stream_seq : Option ℕ
  pub reason : Option String
  pub trace_id : Option String

-- `readStreamSeq`
unfoldable pub read_stream_seq : Frame → Option ℕ
read_stream_seq f = elim f.stream_seq [ none ↦ none | some n ↦ if ltb 0 n then some n else none ]

-- `tryReadStreamExpired`: whether the frame is the mark of an evicted buffer
unfoldable pub is_stream_expired : Frame → Bool
is_stream_expired f = elim f.reason [ none ↦ false | some r ↦ r == "buffer_evicted" ]

abbrev pub max_reconnect_attempts : ℕ
max_reconnect_attempts = 3

-- `RECONNECT_BACKOFF_MS[attempt] ?? 3500`
abbrev pub backoff_ms : ℕ → ℕ
backoff_ms zero = 500
backoff_ms (suc zero) = 1500
backoff_ms _ = 3500

-- A property of a JavaScript object, removed or set.
abbrev without : String → Assoc Json → Assoc Json
without k [] = []
without k ((j, v) ∷ m) = let rest = without k m in if j == k then rest else (j, v) ∷ rest

abbrev text_header : String → Option Json → List (String × String)
text_header name (some (str s)) = if is_empty s then [] else (name, s) ∷ []
text_header name _ = []

abbrev pub has_cursor : Bool → ℕ → Bool
has_cursor is_resume last_seq = is_resume && ltb 0 last_seq

-- `token ? { Authorization: … } : {}`
abbrev auth_header : Option String → List (String × String)
auth_header none = []
auth_header (some token) = if is_empty token then [] else ("Authorization", "Bearer " <> token) ∷ []

-- `buildStreamRequestParts`: the payload and the headers
unfoldable pub build_stream_request_parts :
    Assoc Json
    → (token : Option String) → (locale : String) → (last_seq : ℕ) → (is_resume : Bool)
    → Assoc Json × List (String × String)
build_stream_request_parts body token locale last_seq is_resume =
    let rest = insert "locale" (str locale) (without "surface" (without "thread_id" body)) in
    let payload =
      if has_cursor is_resume last_seq
      then insert "last_event_id" (num (pos last_seq)) rest
      else rest in
    let headers =
      ("Content-Type", "application/json")
      ∷ ("Accept", "text/event-stream")
      ∷ ("X-Relay-Locale", locale)
      ∷ (auth_header token
          ++ (text_header "X-Relay-Thread-Id" (lookup "thread_id" body)
              ++ text_header "X-Relay-Surface" (lookup "surface" body))) in
    (
      payload,
      if has_cursor is_resume last_seq
          then headers ++ (("Last-Event-ID", to_decimal last_seq) ∷ [])
          else headers,
    )

-- The variables of the closure. `timer` is a pending reconnect timer, `listening` the abort
-- listener, `aborted` the signal.
pub record Consumer : Type 0 where
  pub last_seq : ℕ
  pub attempt : ℕ
  pub expired : Bool
  pub settled : Bool
  pub live : Bool
  pub timer : Bool
  pub listening : Bool
  pub aborted : Bool

-- The calls that the closure makes: `open_request` is a `fetch`, with its cursor where it has one.
pub data Effect : Type 0 where
  open_request : (is_resume : Bool) → (cursor : Option ℕ) → Effect
  on_event : Frame → Effect
  on_error : String → Effect
  on_done : Effect
  on_reconnect : (attempt : ℤ) → (next_delay_ms : Option ℕ) → Effect
  on_stream_expired : (trace_id : Option String) → Effect

-- `abort_error` is a `DOMException` named AbortError; any other failure has a message.
pub data Failure : Type 0 where
  abort_error : Failure
  transport : String → Failure

-- What the environment does. `fire` is the timer going off; `some err` says that opening the
-- stream throws `err`.
pub data Input : Type 0 where
  next : Frame → Input
  fail : Failure → Input
  complete : Input
  fire : Option String → Input
  abort : Input

abbrev Step : Type 0
Step = Consumer × List Effect

-- `finish`
finish : Consumer → Effect → Step
finish c eff = if c.settled then (c, []) else (record c { settled = true; timer = false }, eff ∷ [])

abbrev pub cursor_of : Bool → ℕ → Option ℕ
cursor_of is_resume last_seq = if has_cursor is_resume last_seq then some last_seq else none

-- `openStream`, in its `try`: an exception goes to `onError`.
open_stream : Consumer → Bool → Option String → Step
open_stream c is_resume none =
    (record c { live = true }, open_request is_resume (cursor_of is_resume c.last_seq) ∷ [])
open_stream c is_resume (some err) = finish (record c { live = false }) (on_error err)

-- `scheduleReconnect`
schedule_reconnect : Consumer → String → Step
schedule_reconnect c err =
    if leb max_reconnect_attempts c.attempt
    then (let (c', effs) = finish c (on_error err) in
        (c', on_reconnect (sub_ℕ 0 c.attempt) none ∷ effs))
    else (
      record c { attempt = c.attempt + 1; timer = true },
      on_reconnect (pos (c.attempt + 1)) (some (backoff_ms c.attempt)) ∷ [],
    )

abbrev pub seq_after : ℕ → Option ℕ → ℕ
seq_after last_seq none = last_seq
seq_after last_seq (some seq) = if ltb last_seq seq then seq else last_seq

-- The `next` callback of the subscription
on_next : Consumer → Frame → Step
on_next c f =
    if is_stream_expired f
    then (record c { expired = true }, on_stream_expired f.trace_id ∷ [])
    else if ltb 0 c.attempt
    then (
      record c { last_seq = seq_after c.last_seq (read_stream_seq f); attempt = 0 },
      on_reconnect (pos 0) none ∷ on_event f ∷ [],
    )
    else (record c { last_seq = seq_after c.last_seq (read_stream_seq f) }, on_event f ∷ [])

-- The `error` callback; the subscription has ended.
on_failure : Consumer → Failure → Step
on_failure c abort_error = finish (record c { live = false; listening = false }) on_done
on_failure c (transport err) =
    if c.expired
    then finish (record c { live = false; listening = false }) on_done
    else schedule_reconnect (record c { live = false }) err

-- `onAbort`
on_abort : Consumer → Step
on_abort c =
    if c.listening
    then finish (record c { aborted = true; live = false; timer = false; listening = false })
        on_done
    else (record c { aborted = true }, [])

unfoldable pub step : Consumer → Input → Step
unfolding finish open_stream schedule_reconnect on_next on_failure on_abort
step c (next f) = if c.live then on_next c f else (c, [])
step c (fail e) = if c.live then on_failure c e else (c, [])
step c complete =
    if c.live then finish (record c { live = false; listening = false }) on_done else (c, [])
step c (fire err) =
    if c.timer
    then (if c.settled || c.aborted
        then (record c { timer = false }, [])
        else open_stream (record c { timer = false }) true err)
    else (c, [])
step c abort = on_abort c

abbrev pub idle : Consumer
idle = record {
  last_seq = 0;
  attempt = 0;
  expired = false;
  settled = false;
  live = false;
  timer = false;
  listening = true;
  aborted = false;
}

-- The body of the promise: the first connection.
unfoldable pub begin : Option String → Step
unfolding open_stream finish
begin err = open_stream idle false err

-- The effects of a sequence of inputs.
unfoldable pub run : Consumer → List Input → Step
run c [] = (c, [])
run c (i ∷ is) = let (c', effs) = step c i in let (d, more) = run c' is in (d, effs ++ more)

-- `consumeAgentStream`
unfoldable pub consume_agent_stream : Option String → List Input → Step
consume_agent_stream err is =
    let (c, effs) = begin err in let (d, more) = run c is in (d, effs ++ more)
