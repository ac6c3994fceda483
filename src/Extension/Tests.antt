-- ===== src/Extension/Tests.antt =====
-- Forms at concrete fields, and the witness of the theorem about the plan.
use apply_agent.Extension.Sensitive.{is_sensitive_label}
use apply_agent.Prelude.{
  trim, to_lower_case, lower, is_word, is_space, ends_word, after_text, ◌≡◌, refl, String, List,
  true, none, some, [], ◌∷◌,
}
use apply_agent.Extension.{
  type_text, slot, DetectedField, FieldType, text, email, select, file, UserProfile, ProfileKey,
}
use apply_agent.Extension.Rules.{rules, pattern_test, lit, spaces, d_or_s, maybe}
use apply_agent.Extension.LocalFill.{
  first_rule, allows, plan_local_fill, extract_name, choose, skip, haystack_of,
}
use apply_agent.Extension.Fill.{AtsContext, lever, CloudFillRequest, cloud_request}
use apply_agent.Extension.LocalFill.Laws.{IsPlan, plan_local_fill-IsPlan}

abbrev field_of : String → FieldType → String → DetectedField
field_of label type selector = record {
  id = selector;
  label = label;
  field_type = type;
  required = true;
  placeholder = none;
  options = [];
  selector = selector;
}

abbrev profile : UserProfile
profile = record {
  first_name = "Ada";
  last_name = "Lovelace";
  full_name = "Ada Lovelace";
  email = "ada@example.org";
  phone = "";
  city = "London";
  state = "";
  country = "UK";
  linkedin = "";
  github = "";
  website = "";
  portfolio = "";
  work_authorization = "UK citizen";
  needs_sponsorship = "no";
}

abbrev mail : DetectedField
mail = field_of "Your E-mail" email "input[name=\"mail\"]"

abbrev race : DetectedField
race = field_of "Race" select "#race"

abbrev passport_scan : DetectedField
passport_scan = field_of "Scan of your passport" file "#passport"

abbrev form : List DetectedField
form = mail ∷ race ∷ passport_scan ∷ []

extract_name_lem : extract_name "input[name='first_name']" ≡ "first_name"
unfolding extract_name after_text
extract_name_lem = refl

sponsor_pattern :
    pattern_test
      ((lit "require" ∷ d_or_s ∷ spaces ∷ lit "sponsor" ∷ maybe "ship" ∷ []) ∷ [])
      "do you required  sponsorship now"
    ≡ true
unfolding pattern_test after_text is_word is_space ends_word
sponsor_pattern = refl

plan_of_form : plan_local_fill form profile ≡ record {
  fills =
      record {
        selector = "input[name=\"mail\"]";
        profile_key = ProfileKey.email;
        value = "ada@example.org";
        field_type = email;
        confidence = 95;
      }
      ∷ [];
  unmatched = passport_scan ∷ [];
  skipped_sensitive = race ∷ [];
}
unfolding plan_local_fill choose is_sensitive_label haystack_of to_lower_case extract_name
    after_text lower first_rule rules pattern_test is_word ends_word allows type_text trim slot
plan_of_form = refl

-- A question about the visa is sensitive, so the rule with that word never sees it.
visa_is_skipped : choose (field_of "Visa status" text "#visa") profile ≡ skip
unfolding choose is_sensitive_label haystack_of to_lower_case extract_name after_text lower
visa_is_skipped = refl

plan_local_fill-IsPlan_example : IsPlan form profile (plan_local_fill form profile)
plan_local_fill-IsPlan_example = plan_local_fill-IsPlan form profile

abbrev context : AtsContext
context = record {
  source = lever;
  external_id = none;
  company_slug = none;
  jd_url = "https://jobs.lever.co/x";
}

abbrev sent : CloudFillRequest
sent = record { context = context; jd_url = context.jd_url; fields = passport_scan ∷ [] }

-- The scan of a passport is a file, and so it is sent.
form_is_sent : cloud_request true context (plan_local_fill form profile) ≡ some sent
unfolding cloud_request
form_is_sent = rw plan_of_form
