-- ===== src/Web/Vantage/Practice.antt =====
-- store.ts, the résumé builder and the mock interview. A choice or an answer is taken in after a
-- delay; the delays of a kind are equally long, so they end in the order in which they began.
pub mod Laws
mod Tests
use apply_agent.Prelude.{
  ℕ, zero, suc, ◌+◌, ◌-◌, min, String, Bool, true, false, Option, none, some, List, [], ◌∷◌, ◌++◌,
  length, is_some, if◌then◌else◌, nat_beq,
}
use apply_agent.Web.Vantage.Views.{Views, builder, mock}
use apply_agent.Web.Vantage.Scripts.{BuilderStage, MockQuestion, builder_stages, mock_questions}

pub data MockState : Type 0 where
  setup live : MockState

pub data MockLevel : Type 0 where
  warmup standard pressure : MockLevel

-- `builder_timers` and `mock_timers` hold what the delays that run will take in.
pub record Practice : Type 0 where
  pub views : Views
  pub builder_step : ℕ
  pub builder_target : Option String
  pub builder_thinking : Bool
  pub builder_choices : List String
  pub builder_timers : List String
  pub mock_state : MockState
  pub mock_level : MockLevel
  pub mock_answers : List String
  pub pending_answer : Option String
  pub mock_thinking : Bool
  pub mock_timers : List String

abbrev pub first_practice : Views → Practice
first_practice views = record {
  views = views;
  builder_step = 0;
  builder_target = none;
  builder_thinking = false;
  builder_choices = [];
  builder_timers = [];
  mock_state = setup;
  mock_level = standard;
  mock_answers = [];
  pending_answer = none;
  mock_thinking = false;
  mock_timers = [];
}

-- `goBuilder` and `startByChat`
abbrev pub go_builder : Practice → Practice
go_builder s = record s { views = record s.views { screen = builder } }

-- `advanceBuilder`
unfoldable pub advance_builder : String → Practice → Practice
advance_builder choice s = record s {
  builder_target = if nat_beq s.builder_step 0 then some choice else s.builder_target;
  builder_thinking = true;
  builder_timers = s.builder_timers ++ (choice ∷ []);
}

-- 750 ms after a choice
unfoldable pub builder_advanced : Practice → Practice
builder_advanced s = elim s.builder_timers [
  | [] ↦ s
  | choice ∷ rest ↦ record s {
    builder_choices = s.builder_choices ++ (choice ∷ []);
    builder_step = min (s.builder_step + 1) (length builder_stages - 1);
    builder_thinking = false;
    builder_timers = rest;
  }
]

-- `BUILDER_STAGES[i]`
unfoldable pub stage_at : ℕ → List BuilderStage → Option BuilderStage
stage_at i [] = none
stage_at zero (stage ∷ stages) = some stage
stage_at (suc i) (stage ∷ stages) = stage_at i stages

first_chip : Option BuilderStage → Option String
first_chip none = none
first_chip (some stage) = elim stage.chips [ [] ↦ none | chip ∷ chips ↦ some chip ]

-- `sendBuilder`; no chip of the script is empty.
unfoldable pub send_builder : Practice → Practice
unfolding first_chip
send_builder s = elim (first_chip (stage_at s.builder_step builder_stages)) [
  | none ↦ s
  | some chip ↦ advance_builder chip s
]

abbrev pub go_mock_setup : Practice → Practice
go_mock_setup s = record s { views = record s.views { screen = mock }; mock_state = setup }

abbrev pub set_mock_level : MockLevel → Practice → Practice
set_mock_level level s = record s { mock_level = level }

abbrev pub restart_mock : Practice → Practice
restart_mock s = record s { mock_answers = []; pending_answer = none; mock_thinking = false }

-- `startMock`
abbrev pub start_mock : Practice → Practice
start_mock s = record (restart_mock s) { mock_state = live }

-- `answerMock`
unfoldable pub answer_mock : String → Practice → Practice
answer_mock label s = if is_some s.pending_answer then s else record s {
  pending_answer = some label;
  mock_thinking = true;
  mock_timers = s.mock_timers ++ (label ∷ []);
}

-- 900 ms after an answer
unfoldable pub mock_answered : Practice → Practice
mock_answered s = elim s.mock_timers [
  | [] ↦ s
  | label ∷ rest ↦ record s {
    mock_answers = s.mock_answers ++ (label ∷ []);
    pending_answer = none;
    mock_thinking = false;
    mock_timers = rest;
  }
]

-- `MOCK_QS[i]`
unfoldable pub question_at : ℕ → List MockQuestion → Option MockQuestion
question_at i [] = none
question_at zero (question ∷ questions) = some question
question_at (suc i) (question ∷ questions) = question_at i questions

-- `sendMock`
unfoldable pub send_mock : Practice → Practice
send_mock s = elim (question_at (length s.mock_answers) mock_questions) [
  | none ↦ s
  | some question ↦ answer_mock question.sample s
]

-- `mockFromPrep`
abbrev pub mock_from_prep : Practice → Practice
mock_from_prep s = record s {
  views = record s.views { prep_id = none; screen = mock };
  mock_state = setup;
  mock_answers = [];
  pending_answer = none;
}
