-- ===== src/AgentEvents/Feed.antt =====
-- The raw events feed of a step: `appendEvent` and its soft cap (reducer.ts).
pub mod Laws
use apply_agent.Prelude.{
  ℕ, ◌+◌, ◌-◌, none, some, List, [], ◌∷◌, ◌++◌, length, take, drop, ltb, if◌then◌else◌,
}
use apply_agent.AgentEvents.Events.{AgentEvent, EventBody, Custom}
use apply_agent.AgentEvents.Steps.{Step}

abbrev pub events_soft_cap : ℕ
events_soft_cap = 200

abbrev pub events_head : ℕ
events_head = 50

abbrev pub events_tail : ℕ
events_tail = 50

-- `truncationSentinel`
pub truncation_sentinel : ℕ → AgentEvent
truncation_sentinel dropped = record {
  body = EventBody.custom (Custom.narrator (record { text = none; truncated = some dropped }));
  timestamp = none;
  raw_event = none;
}

-- `appendEvent` on the feed alone. The feed is not shorter than the cap where `-` is used.
pub append_feed : List AgentEvent → AgentEvent → List AgentEvent
append_feed feed evt =
    if ltb (length feed) events_soft_cap
    then feed ++ (evt ∷ [])
    else (take events_head feed
        ++ (truncation_sentinel (length feed - events_head - (events_tail - 1))
            ∷ (drop (length feed - events_tail + 1) feed ++ (evt ∷ []))))

-- `appendEvent`
unfoldable pub append_event : Step → AgentEvent → List AgentEvent
append_event step evt = append_feed step.events evt
