-- ===== src/Web/Vantage/Practice/Laws.antt =====
-- What holds of the builder and the interview at any time, and an answer that outlives its interview.
use apply_agent.Prelude.{
  min, String, true, none, List, [], ◌∷◌, length, length-append, is_some, ◌≡◌, refl, arith,
  Bool-cases, inl, inr, Option-cases,
}
use apply_agent.Web.Vantage.Scripts.{builder_stages, mock_questions}
use apply_agent.Web.Vantage.Practice.{
  Practice, MockLevel, advance_builder, builder_advanced, stage_at, first_chip, send_builder,
  go_mock_setup, set_mock_level, restart_mock, start_mock, answer_mock, mock_answered, question_at,
  send_mock, mock_from_prep,
}

pub data Event : Type 0 where
  chooses : String → Event
  sends_choice : Event
  choice_taken : Event
  answers : String → Event
  sends_answer : Event
  answer_taken : Event
  sets_up : Event
  levels : MockLevel → Event
  starts : Event
  restarts : Event
  practises : Event

unfoldable pub step : Event → Practice → Practice
step (chooses choice) s = advance_builder choice s
step sends_choice s = send_builder s
step choice_taken s = builder_advanced s
step (answers label) s = answer_mock label s
step sends_answer s = send_mock s
step answer_taken s = mock_answered s
step sets_up s = go_mock_setup s
step (levels level) s = set_mock_level level s
step starts s = start_mock s
step restarts s = restart_mock s
step practises s = mock_from_prep s

unfoldable pub steps : List Event → Practice → Practice
steps [] s = s
steps (e ∷ es) s = steps es (step e s)

-- The builder is at the stage of as many choices as it has taken in, but not beyond the last, and
-- while an answer is pending the interview shows that it thinks.
pub record IsSound (s : Practice) : Type 0 where
  pub at_stage : s.builder_step ≡ min (length s.builder_choices) 3
  pub thinks : is_some s.pending_answer ≡ true → s.mock_thinking ≡ true

IsSound-advance_builder :
    (choice : String) (s : Practice) → IsSound s → IsSound (advance_builder choice s)
unfolding advance_builder
IsSound-advance_builder choice s w = record { at_stage = w.at_stage; thinks = w.thinks }

IsSound-send_builder : (s : Practice) → IsSound s → IsSound (send_builder s)
unfolding send_builder
IsSound-send_builder s w =
    elim (Option-cases (first_chip (stage_at s.builder_step builder_stages))) [
      | inl e ↦ rw (e, send_builder) w
      | inr (chip, e) ↦ rw (e, send_builder) (IsSound-advance_builder chip s w)
    ]

builder_taken :
    (timers : List String) (s : Practice)
    → IsSound s
    → IsSound (builder_advanced (record s { builder_timers = timers }))
unfolding builder_advanced
builder_taken [] s w = record { at_stage = w.at_stage; thinks = w.thinks }
builder_taken (choice ∷ rest) s w = record {
  at_stage = omega (arith, length-append s.builder_choices (choice ∷ []), w.at_stage);
  thinks = w.thinks;
}

IsSound-answer_mock : (label : String) (s : Practice) → IsSound s → IsSound (answer_mock label s)
unfolding answer_mock
IsSound-answer_mock label s w = elim (Bool-cases (is_some s.pending_answer)) [
  | inl e ↦ rw (e, answer_mock) w
  | inr e ↦ rw (e, answer_mock) (record { at_stage = w.at_stage; thinks = λ _. refl })
]

IsSound-send_mock : (s : Practice) → IsSound s → IsSound (send_mock s)
unfolding send_mock
IsSound-send_mock s w = elim (Option-cases (question_at (length s.mock_answers) mock_questions)) [
  | inl e ↦ rw (e, send_mock) w
  | inr (question, e) ↦ rw (e, send_mock) (IsSound-answer_mock question.sample s w)
]

mock_taken :
    (timers : List String) (s : Practice)
    → IsSound s
    → IsSound (mock_answered (record s { mock_timers = timers }))
unfolding mock_answered
mock_taken [] s w = record { at_stage = w.at_stage; thinks = w.thinks }
mock_taken (label ∷ rest) s w = record { at_stage = w.at_stage; thinks = λ e. cc }

IsSound-step : (e : Event) (s : Practice) → IsSound s → IsSound (step e s)
unfolding step
IsSound-step (chooses choice) s w = IsSound-advance_builder choice s w
IsSound-step sends_choice s w = IsSound-send_builder s w
IsSound-step choice_taken s w = builder_taken s.builder_timers s w
IsSound-step (answers label) s w = IsSound-answer_mock label s w
IsSound-step sends_answer s w = IsSound-send_mock s w
IsSound-step answer_taken s w = mock_taken s.mock_timers s w
IsSound-step sets_up s w = record { at_stage = w.at_stage; thinks = w.thinks }
IsSound-step (levels level) s w = record { at_stage = w.at_stage; thinks = w.thinks }
IsSound-step starts s w = record { at_stage = w.at_stage; thinks = λ e. cc }
IsSound-step restarts s w = record { at_stage = w.at_stage; thinks = λ e. cc }
IsSound-step practises s w = record { at_stage = w.at_stage; thinks = λ e. cc }

-- Whatever the user does, the builder is at the stage of as many choices as it has taken in, but
-- not beyond the last one, and an interview with a pending answer shows that it thinks.
pub steps-IsSound : (es : List Event) (s : Practice) → IsSound s → IsSound (steps es s)
unfolding steps
steps-IsSound [] s w = w
steps-IsSound (e ∷ es) s w = steps-IsSound es (step e s) (IsSound-step e s w)

-- An answer that is pending when the interview is restarted: it is taken in all the same, as the
-- first answer of the new interview, and the answer given there is no longer pending while its own
-- delay still runs.
pub restarted_answer_lem :
    (label next : String) (s : Practice)
    → s.pending_answer ≡ none
    → s.mock_timers ≡ []
    → (let after = mock_answered (answer_mock next (restart_mock (answer_mock label s))) in
        (after.mock_answers ≡ label ∷ [])
        × (after.pending_answer ≡ none)
        × (after.mock_timers ≡ next ∷ []))
unfolding mock_answered answer_mock
restarted_answer_lem label next s idle quiet = rw (idle, quiet, answer_mock) (refl, refl, refl)
