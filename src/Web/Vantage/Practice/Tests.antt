-- ===== src/Web/Vantage/Practice/Tests.antt =====
-- Runs of the builder and of the interview.
use apply_agent.Prelude.{true, [], ◌∷◌, ◌≡◌, refl}
use apply_agent.Web.Vantage.Views.{first_views}
use apply_agent.Web.Vantage.Practice.{
  stage_at, send_builder, mock_answered, builder_advanced, answer_mock, advance_builder,
  first_practice,
}
use apply_agent.Web.Vantage.Practice.Laws.{
  step, sends_choice, choice_taken, answers, answer_taken, starts, restarts, steps,
}

-- The script's chips take the builder to its last stage.
builder_run :
    (steps
      (sends_choice ∷ choice_taken ∷ sends_choice ∷ choice_taken ∷ sends_choice ∷ choice_taken
        ∷ sends_choice ∷ [])
      (first_practice (first_views true))).builder_choices
    ≡ "Senior IC" ∷ "The 40k-team collab redesign" ∷ "Keep my tone" ∷ []
unfolding steps step send_builder stage_at builder_advanced advance_builder
builder_run = refl

-- An answer to the old interview becomes the first answer of the new one.
answer_survives_restart :
    (steps
      (starts ∷ answers "old" ∷ restarts ∷ answer_taken ∷ [])
      (first_practice (first_views true))).mock_answers
    ≡ "old" ∷ []
unfolding steps step mock_answered answer_mock
answer_survives_restart = refl
