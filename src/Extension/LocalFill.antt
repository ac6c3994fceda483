-- ===== src/Extension/LocalFill.antt =====
-- local-fill.ts: the plan of a local fill.
pub mod Laws
pub mod Partition
use Prim.Native.Char.{code}
use apply_agent.Prelude.{
  ℕ, String, ◌<>◌, ◌==◌, Bool, true, false, not, ◌&&◌, ◌||◌, Option, none, some, List, [], ◌∷◌,
  nat_beq, is_empty, trim, after_text, to_lower_case, if◌then◌else◌, get_or_else,
}
use apply_agent.Extension.{FieldType, file, type_text, DetectedField, UserProfile, ProfileKey, slot}
use apply_agent.Extension.Sensitive.{is_sensitive_label}
use apply_agent.Extension.Rules.{Rule, rules, pattern_test}

pub record FillInstruction : Type 0 where
  pub selector : String
  pub profile_key : ProfileKey
  pub value : String
  pub field_type : FieldType
  pub confidence : ℕ

pub record FillPlan : Type 0 where
  pub fills : List FillInstruction
  pub unmatched : List DetectedField
  pub skipped_sensitive : List DetectedField

-- What stands in front of the quote, if it is there and something stands in front of it
until_quote : (quote : ℕ) → String → Option String
until_quote quote String.[] = none
until_quote quote (String.◌∷◌ c s) =
    let rest = until_quote quote s in
    if nat_beq (code c) quote
    then some ""
    else elim rest [ none ↦ none | some name ↦ some (String.◌∷◌ c name) ]

some_text : Option String → Option String
some_text none = none
some_text (some name) = if is_empty name then none else some name

quoted : String → Option String
quoted String.[] = none
quoted (String.◌∷◌ c s) =
    if nat_beq (code c) b'"' || nat_beq (code c) b'\''
    then some_text (until_quote (code c) s)
    else none

-- The first match of `/name=(?:"([^"]+)"|'([^']+)')/`
name_in : String → Option String
name_in String.[] = none
name_in (String.◌∷◌ c s) =
    let later = name_in s in
    elim (quoted (get_or_else (after_text "name=" (String.◌∷◌ c s)) "")) [
      | some name ↦ some name
      | none ↦ later
    ]

-- `extractName`
unfoldable pub extract_name : String → String
unfolding name_in quoted some_text until_quote
extract_name selector = get_or_else (name_in selector) selector

unfoldable pub haystack_of : DetectedField → String
haystack_of f =
    to_lower_case
      (f.label <> (" " <> (get_or_else f.placeholder "" <> (" " <> extract_name f.selector))))

-- `allowedTypes.includes(type)`
unfoldable pub allows : List FieldType → FieldType → Bool
allows [] t = false
allows (u ∷ us) t = let rest = allows us t in (type_text u == type_text t) || rest

-- The first rule whose pattern and types fit
unfoldable pub first_rule : List Rule → (haystack : String) → FieldType → Option Rule
first_rule [] haystack t = none
first_rule (r ∷ rs) haystack t =
    let later = first_rule rs haystack t in
    if pattern_test r.pattern haystack && allows r.allowed_types t then some r else later

unfoldable is_file : FieldType → Bool
is_file file = true
is_file _ = false

-- What becomes of one field
pub data Choice : Type 0 where
  fill : FillInstruction → Choice
  leave skip : Choice

unfoldable by_rule : Option Rule → DetectedField → UserProfile → Choice
by_rule none f profile = leave
by_rule (some r) f profile =
    let value = slot r.profile_key profile in
    if is_empty (trim value)
    then leave
    else fill (record {
      selector = f.selector;
      profile_key = r.profile_key;
      value = value;
      field_type = f.field_type;
      confidence = r.confidence;
    })

-- One round of the loop
unfoldable pub choose : DetectedField → UserProfile → Choice
unfolding is_file by_rule
choose f profile =
    if is_file f.field_type
    then leave
    else if is_sensitive_label (haystack_of f)
    then skip
    else by_rule (first_rule rules (haystack_of f) f.field_type) f profile

unfoldable add : Choice → DetectedField → FillPlan → FillPlan
add (fill i) f p = record p { fills = i ∷ p.fills }
add leave f p = record p { unmatched = f ∷ p.unmatched }
add skip f p = record p { skipped_sensitive = f ∷ p.skipped_sensitive }

-- `planLocalFill`
unfoldable pub plan_local_fill : List DetectedField → UserProfile → FillPlan
unfolding add
plan_local_fill [] profile = record { fills = []; unmatched = []; skipped_sensitive = [] }
plan_local_fill (f ∷ fs) profile =
    let rest = plan_local_fill fs profile in add (choose f profile) f rest
