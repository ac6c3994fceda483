-- ===== src/Api/AppError/Tests.antt =====
-- The gateway's errors at concrete exceptions, and the witness of the theorem about unknown ones.
use apply_agent.Prelude.{
  is_word, ends_word, trim_start, text_take, text_drop, is_space, ◌≡◌, refl, String, true, false,
  none, some, lower, is_digit,
}
use apply_agent.Api.AppError.Infra.{Thrown, native, translate_infra_error, matches_word}
use apply_agent.Api.AppError.TraceCode.{trace_code_from_trace_id}
use apply_agent.Api.AppError.Envelope.{Context, error_handler}
use apply_agent.Api.AppError.Outage.{unknown_errors_look_alike}

trace_code_lem : trace_code_from_trace_id "9b2f41c8-77de-4c11-9a51-000000000000" ≡ "R-GYM3"
unfolding trace_code_from_trace_id text_take text_drop trim_start is_space is_digit lower
trace_code_lem = refl

short_trace_code : trace_code_from_trace_id "abc" ≡ "R-0000"
unfolding trace_code_from_trace_id text_take
short_trace_code = refl

etimedout_is_a_word :
    (matches_word "ETIMEDOUT" "connect etimedout 10.0.0.1:443" ≡ true)
    × (matches_word "ETIMEDOUT" "XETIMEDOUT" ≡ false)
unfolding matches_word lower is_digit is_word ends_word
etimedout_is_a_word = (refl, refl)

abbrev failure : String → Thrown
failure message = native (record { name = "Error"; message = message; stack = none; code = none })

abbrev syntax_failure : Thrown
syntax_failure = failure "syntax error at or near SELECT"

syntax_failure_is_unknown : translate_infra_error syntax_failure ≡ none
unfolding translate_infra_error lower is_digit is_word
syntax_failure_is_unknown = refl

abbrev missing_table : Thrown
missing_table = failure "relation users does not exist"

missing_table_is_unknown : translate_infra_error missing_table ≡ none
unfolding translate_infra_error lower is_digit is_word
missing_table_is_unknown = refl

abbrev context : Context
context = record { trace_id = some "9b2f41c8-77de-4c11-9a51-000000000000"; request_id = none }

unknown_errors_look_alike_example :
    error_handler context "fresh" "now" syntax_failure
    ≡ error_handler context "fresh" "now" missing_table
unknown_errors_look_alike_example =
    unknown_errors_look_alike context "fresh" "now" syntax_failure missing_table tt tt
      syntax_failure_is_unknown missing_table_is_unknown
