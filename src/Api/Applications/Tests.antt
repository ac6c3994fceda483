-- ===== src/Api/Applications/Tests.antt =====
-- Updates and next actions, and the witness of the theorem.
use apply_agent.Api.ResumeMarkdown.{join}
use apply_agent.Prelude.{to_decimal, true, none, some, ◌≡◌, refl, map, text_host}
use apply_agent.Api.Applications.{
  update_text, push_submission, push_if, push, patch_builder, UpdateApplication, submitted,
  has_field, update_statement, set_text,
}
use apply_agent.Api.Applications.Laws.{effect_of, asked, param_at, update_statement_lem}

abbrev handed_in : UpdateApplication
handed_in = record {
  status = some submitted;
  cover_letter = none;
  form_answers = none;
  outcome = some "pending";
  submitted_via = none;
}

abbrev only_channel : UpdateApplication
only_channel = record {
  status = none;
  cover_letter = none;
  form_answers = none;
  outcome = none;
  submitted_via = some "email";
}

update_statement_lem_example :
    (let q = update_statement text_host "a1" "u1" handed_in in
      (map (effect_of q.params) q.updates ≡ asked text_host handed_in)
      × (param_at q.id_param q.params ≡ some "a1")
      × (param_at q.user_param q.params ≡ some "u1"))
update_statement_lem_example = update_statement_lem text_host "a1" "u1" handed_in

set_text_lem :
    set_text (update_statement text_host "a1" "u1" handed_in)
    ≡ "status = $1, outcome = $2, submitted_at = COALESCE(submitted_at, NOW()), submitted_via = COALESCE(submitted_via, $3)"
unfolding set_text join update_statement patch_builder push_submission push push_if update_text
    to_decimal
set_text_lem = refl

-- A body that the schema accepts, and an UPDATE that sets nothing.
empty_update :
    (has_field only_channel ≡ true)
    × (set_text (update_statement text_host "a1" "u1" only_channel) ≡ "")
unfolding has_field set_text join update_statement patch_builder push_submission push_if
empty_update = (refl, refl)
