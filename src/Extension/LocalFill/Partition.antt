-- ===== src/Extension/LocalFill/Partition.antt =====
-- A plan mentions each detected field once.
use apply_agent.Prelude.{
  ℕ, String, Option, none, some, List, [], ◌∷◌, map, ◌≡◌, refl, inl, inr, Bool-cases, arith, ◌+◌,
  ◌==◌, if◌then◌else◌, is_empty, trim,
}
use apply_agent.Extension.{DetectedField, UserProfile, slot}
use apply_agent.Extension.Sensitive.{is_sensitive_label}
use apply_agent.Extension.Rules.{Rule, rules}
use apply_agent.Extension.LocalFill.{
  FillPlan, plan_local_fill, choose, Choice, fill, leave, skip, add, by_rule, is_file, haystack_of,
  first_rule,
}

-- How often a selector stands in a list
abbrev pub count_of : String → List String → ℕ
count_of s [] = 0
count_of s (t ∷ ts) = (if t == s then 1 else 0) + count_of s ts

-- How often a plan mentions a selector
abbrev pub mentions : String → FillPlan → ℕ
mentions s p =
    count_of s (map (λ i. i.selector) p.fills)
    + count_of s (map (λ f. f.selector) p.unmatched)
    + count_of s (map (λ f. f.selector) p.skipped_sensitive)

-- A fill keeps the selector of its field.
abbrev Keeps : DetectedField → Choice → Type 0
Keeps f (fill i) = i.selector ≡ f.selector
Keeps f leave = Unit
Keeps f skip = Unit

by_rule-Keeps :
    (o : Option Rule) (f : DetectedField) (profile : UserProfile) → Keeps f (by_rule o f profile)
unfolding by_rule
by_rule-Keeps none f profile = tt
by_rule-Keeps (some r) f profile =
    elim (Bool-cases (is_empty (trim (slot r.profile_key profile)))) [
      | inl b ↦ rw b tt
      | inr b ↦ rw b refl
    ]

choose-Keeps : (f : DetectedField) (profile : UserProfile) → Keeps f (choose f profile)
unfolding choose
choose-Keeps f profile = elim (Bool-cases (is_file f.field_type)) [
  | inl p ↦ rw p tt
  | inr p ↦ elim (Bool-cases (is_sensitive_label (haystack_of f))) [
    | inl q ↦ rw (p, q) tt
    | inr q ↦ rw (p, q) (by_rule-Keeps (first_rule rules (haystack_of f) f.field_type) f profile)
  ]
]

mentions-add :
    (s : String) (c : Choice) (f : DetectedField) (p : FillPlan)
    → Keeps f c
    → mentions s (add c f p) ≡ (if f.selector == s then 1 else 0) + mentions s p
unfolding add
mentions-add s (fill i) f p h = rw h (omega arith)
mentions-add s leave f p h = omega arith
mentions-add s skip f p h = omega arith

-- Every detected field is filled, left or skipped, and only one of these: each selector occurs in the
-- plan as often as in the fields.
pub mentions-plan_local_fill :
    (s : String) (fields : List DetectedField) (profile : UserProfile)
    → mentions s (plan_local_fill fields profile) ≡ count_of s (map (λ f. f.selector) fields)
unfolding plan_local_fill
mentions-plan_local_fill s [] profile = refl
mentions-plan_local_fill s (f ∷ fs) profile =
    let here =
      mentions-add s (choose f profile) f (plan_local_fill fs profile) (choose-Keeps f profile) in
    let later = mentions-plan_local_fill s fs profile in omega (arith, here, later)
