-- ===== src/AgentEvents/Consumer/Tests.antt =====
-- The consumer's theorems at concrete inputs.
use apply_agent.Prelude.{ℕ, ◌≡◌, ◌⊎◌, none, some, List, [], ◌∷◌, true}
use apply_agent.AgentEvents.Events.{EventBody}
use apply_agent.AgentEvents.Consumer.{
  Consumer, Input, next, fail, complete, fire, abort, transport, step, run, consume_agent_stream,
  idle, Frame,
}
use apply_agent.AgentEvents.Consumer.Invariant.{IsOver, IsUnderWay}
use apply_agent.AgentEvents.Consumer.Laws.{endings, ended, consumer_ends_once, consumer_abort}
use apply_agent.AgentEvents.Consumer.Resume.{FollowsCursor, consumer_resumes}
use apply_agent.AgentEvents.Consumer.Budget.{WithinBudget, consumer_budget}

abbrev frame : ℕ → Frame
frame n = record {
  event = record { body = EventBody.other "x"; timestamp = none; raw_event = none };
  stream_seq = some n;
  reason = none;
  trace_id = none;
}

abbrev inputs : List Input
inputs = next (frame 4) ∷ fail (transport "dropped") ∷ fire none ∷ next (frame 5) ∷ complete ∷ []

consumer_ends_once_example :
    (endings (consume_agent_stream none inputs).1 ≡ ended (consume_agent_stream none inputs).0)
    × (IsOver (consume_agent_stream none inputs).0
        ⊎ IsUnderWay (consume_agent_stream none inputs).0)
consumer_ends_once_example = consumer_ends_once none inputs

consumer_abort_example :
    let c = (step (consume_agent_stream none inputs).0 abort).0 in
    IsOver c × IsOver (run c inputs).0 × ((run c inputs).1 ≡ [])
consumer_abort_example = consumer_abort none inputs inputs

consumer_resumes_example : FollowsCursor 0 (consume_agent_stream none inputs).1
consumer_resumes_example = consumer_resumes none inputs

consumer_budget_example : WithinBudget 0 (consume_agent_stream none inputs).1
consumer_budget_example = consumer_budget none inputs

abbrev at_seven : Consumer
at_seven = record idle { last_seq = 7; live = true }
