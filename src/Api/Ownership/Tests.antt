-- ===== src/Api/Ownership/Tests.antt =====
-- Runs of the small decisions, and the witness of the theorem.
use apply_agent.Prelude.{
  trim, to_lower_case, lower, is_space, ℕ, String, ◌==◌, none, some, List, [], ◌∷◌, ◌≡◌, refl, null,
  ap, sym, ◌∙◌, Bool-cases, inl, inr, if◌then◌else◌, Bool, true, false, ◌&&◌, ◌||◌, All, eq_iff,
}
use apply_agent.Api.Errors.{Result, ok, err, not_found}
use apply_agent.Api.Ownership.Laws.{Database, all, require_ownership_lem}
use mathlib.Core.List.{map}
use apply_agent.Api.Locale.{en, zh, resolve_locale, locale_from_header, coerce_locale}
use apply_agent.Api.Operations.{max_attempts}
use apply_agent.Api.Ownership.{resumes, require_ownership}

header_wins : resolve_locale (some " ZH-cn ") (some "en-GB") ≡ zh
unfolding resolve_locale coerce_locale to_lower_case trim lower
header_wins = refl

any_chinese : resolve_locale (some "fr") (some "en-GB, zh;q=0.3") ≡ zh
unfolding resolve_locale coerce_locale to_lower_case trim lower locale_from_header
any_chinese = refl

default_english : resolve_locale none (some "fr-zh") ≡ en
unfolding resolve_locale coerce_locale locale_from_header to_lower_case lower is_space
default_english = refl

contention_is_retried :
    max_attempts (record {
      id = "1";
      status = "waiting_retry";
      result = null;
      error_class = none;
      error_code = some "DB_CONTENTION";
      error_message = none;
      attempt_count = 1;
      reconcile_count = 0;
      next_attempt_at = none;
    })
    ≡ some 5
unfolding max_attempts
contention_is_retried = refl

-- Tables with one row, r1 of ada, and a column of ids and one of users. No text is a value of both,
-- so the parameters say which columns a statement compares.
abbrev equals : Unit {0} → String → String → Bool
equals e column value =
    if column == "id" then value == "r1" else if column == "user_id" then value == "ada" else false

abbrev is_value : String → String → Bool
is_value column value =
    if column == "id"
    then (value == "r1") || (value == "r9")
    else if column == "user_id"
    then (value == "ada") || (value == "eve")
    else false

abbrev hit : String → Bool
hit value = (value == "r1") || (value == "ada")

abbrev hits : List String → Bool
hits [] = true
hits (value ∷ values) = hit value && hits values

abbrev run_query : String → List String → Result (List ℕ)
run_query text params = ok (if hits params then 7 ∷ [] else [])

id-hit :
    (value : String) → ((value == "r1") || (value == "r9")) ≡ true → (value == "r1") ≡ hit value
id-hit value h = elim (Bool-cases (value == "r1")) [
  | inl p ↦ rw p
  | inr p ↦ (let same : value ≡ "r9" = (eq_iff value "r9").0 (rw p at h) in rw same)
]

user-hit :
    (value : String) → ((value == "ada") || (value == "eve")) ≡ true → (value == "ada") ≡ hit value
user-hit value h = elim (Bool-cases (value == "ada")) [
  | inl p ↦ (let same : value ≡ "ada" = (eq_iff value "ada").0 p in rw same)
  | inr p ↦ (let same : value ≡ "eve" = (eq_iff value "eve").0 (rw p at h) in rw same)
]

equals-hit :
    (column value : String) → is_value column value ≡ true → equals tt column value ≡ hit value
equals-hit column value h = elim (Bool-cases (column == "id")) [
  | inl p ↦ rw p (id-hit value (rw p at h))
  | inr p ↦ elim (Bool-cases (column == "user_id")) [
    | inl r ↦ rw (p, r) (user-hit value (rw (p, r) at h))
    | inr r ↦ (let never : false ≡ true = rw (p, r) at h in cc)
  ]
]

all-hits :
    (cs : List (String × String))
    → All (λ d. is_value d.0 d.1 ≡ true) cs
    → all (λ d. equals tt d.0 d.1) cs ≡ hits (map (λ d. d.1) cs)
all-hits [] h = refl
all-hits (c ∷ cs) h = rw (equals-hit c.0 c.1 h.0, all-hits cs h.1)

selected :
    (b : Bool)
    → map {B = ℕ} (λ (e : Unit {0}). 7) (if b then tt ∷ [] else []) ≡ (if b then 7 ∷ [] else [])
selected true = refl
selected false = refl

one_row : Database run_query "*"
one_row = record {
  Entry = Unit {0};
  entries = λ table. tt ∷ [];
  equals = equals;
  is_value = is_value;
  chosen = λ e. 7;
  selects = λ table c cs h.
      ap ok (sym (selected _ ∙ ap (λ (b : Bool). if b then 7 ∷ [] else []) (all-hits (c ∷ cs) h)));
  own_id = λ table id e f i j p r. refl;
}

require_ownership_lem_example :
    (require_ownership run_query resumes "r1" "ada" "*" ≡ ok 7)
    × (require_ownership run_query resumes "r1" "eve" "*" ≡ err (not_found "Resume not found"))
    × (require_ownership run_query resumes "r9" "eve" "*" ≡ err (not_found "Resume not found"))
unfolding one_row
require_ownership_lem_example =
    require_ownership_lem run_query "*" one_row resumes "r1" "r9" "ada" "eve" tt refl refl refl refl
      (inl refl) refl refl refl (refl, tt)
