-- ===== src/Extension/LocalFill/Laws.antt =====
-- What a local fill may touch, and what may leave the browser.
use mathlib.Core.List.{Mem, mem-cons_self, mem-cons_of_mem}
use apply_agent.Prelude.{
  Bool, true, false, Option, none, some, List, [], ◌∷◌, All, ◌≡◌, refl, ◌⊎◌, inl, inr, Bool-cases,
  arith, subst, sym, is_empty, trim,
}
use apply_agent.Extension.{DetectedField, FieldType, file, UserProfile, slot}
use apply_agent.Extension.Sensitive.{is_sensitive_label}
use apply_agent.Extension.Rules.{Rule, rules}
use apply_agent.Extension.LocalFill.{
  FillInstruction, FillPlan, plan_local_fill, choose, Choice, fill, leave, skip, add, by_rule,
  is_file, haystack_of, first_rule,
}
use apply_agent.Extension.Fill.{CloudFillRequest, AtsContext, cloud_request}

abbrev pub IsSensitive : DetectedField → Type 0
IsSensitive f = is_sensitive_label (haystack_of f) ≡ true

-- A field that is left for the user or the cloud: it is a file, or it is not sensitive.
abbrev pub IsLeft : DetectedField → Type 0
IsLeft f = (f.field_type ≡ file) ⊎ (is_sensitive_label (haystack_of f) ≡ false)

-- A fill has a detected field that is neither a file nor sensitive, and the first rule that fits it; it
-- writes the slot of the profile that the rule names, which is not blank.
pub record IsFill (fields : List DetectedField) (profile : UserProfile) (i : FillInstruction)
    : Type 0 where
  pub field : DetectedField
  pub detected : Mem field fields
  pub same_selector : i.selector ≡ field.selector
  pub not_file : is_file field.field_type ≡ false
  pub not_sensitive : is_sensitive_label (haystack_of field) ≡ false
  pub rule : Rule
  pub fits : first_rule rules (haystack_of field) field.field_type ≡ some rule
  pub from_profile : i.value ≡ slot rule.profile_key profile
  pub not_blank : is_empty (trim i.value) ≡ false

-- What a choice says of its field
abbrev Fits : List DetectedField → DetectedField → UserProfile → Choice → Type 0
Fits fs f profile (fill i) = IsFill (f ∷ fs) profile i
Fits fs f profile leave = IsLeft f
Fits fs f profile skip = IsSensitive f

is_file-eq : (t : FieldType) → is_file t ≡ true → t ≡ file
unfolding is_file
is_file-eq t h = ground arith

by_rule-Fits :
    (o : Option Rule) (fs : List DetectedField) (f : DetectedField) (profile : UserProfile)
    → is_file f.field_type ≡ false
    → is_sensitive_label (haystack_of f) ≡ false
    → first_rule rules (haystack_of f) f.field_type ≡ o
    → Fits fs f profile (by_rule o f profile)
unfolding by_rule
by_rule-Fits none fs f profile p q e = inr q
by_rule-Fits (some r) fs f profile p q e =
    elim (Bool-cases (is_empty (trim (slot r.profile_key profile)))) [
      | inl b ↦ rw b (inr q)
      | inr b ↦ rw b (record {
        field = f;
        detected = mem-cons_self;
        same_selector = refl;
        not_file = p;
        not_sensitive = q;
        rule = r;
        fits = e;
        from_profile = refl;
        not_blank = b;
      })
    ]

choose-Fits :
    (fs : List DetectedField) (f : DetectedField) (profile : UserProfile)
    → Fits fs f profile (choose f profile)
unfolding choose
choose-Fits fs f profile = elim (Bool-cases (is_file f.field_type)) [
  | inl p ↦ rw p (inl (is_file-eq f.field_type p))
  | inr p ↦ elim (Bool-cases (is_sensitive_label (haystack_of f))) [
    | inl q ↦ rw (p, q) q
    | inr q ↦
        rw (p, q)
          (by_rule-Fits (first_rule rules (haystack_of f) f.field_type) fs f profile p q refl)
  ]
]

IsFill-cons :
    (f : DetectedField) (fs : List DetectedField) (profile : UserProfile) (i : FillInstruction)
    → IsFill fs profile i
    → IsFill (f ∷ fs) profile i
IsFill-cons f fs profile i h = record {
  field = h.field;
  detected = mem-cons_of_mem f h.detected;
  same_selector = h.same_selector;
  not_file = h.not_file;
  not_sensitive = h.not_sensitive;
  rule = h.rule;
  fits = h.fits;
  from_profile = h.from_profile;
  not_blank = h.not_blank;
}

All-IsFill-cons :
    (f : DetectedField) (fs : List DetectedField) (profile : UserProfile)
    (is : List FillInstruction)
    → All (IsFill fs profile) is
    → All (IsFill (f ∷ fs) profile) is
All-IsFill-cons f fs profile [] h = tt
All-IsFill-cons f fs profile (i ∷ is) (h, hs) =
    (IsFill-cons f fs profile i h, All-IsFill-cons f fs profile is hs)

abbrev pub IsPlan : List DetectedField → UserProfile → FillPlan → Type 0
IsPlan fields profile plan =
    All (IsFill fields profile) plan.fills
    × All IsLeft plan.unmatched
    × All IsSensitive plan.skipped_sensitive

add-IsPlan :
    (c : Choice) (f : DetectedField) (fs : List DetectedField) (profile : UserProfile)
    (p : FillPlan)
    → Fits fs f profile c
    → IsPlan fs profile p
    → IsPlan (f ∷ fs) profile (add c f p)
unfolding add
add-IsPlan (fill i) f fs profile p h (a, b, c) = ((h, All-IsFill-cons f fs profile p.fills a), b, c)
add-IsPlan leave f fs profile p h (a, b, c) = (All-IsFill-cons f fs profile p.fills a, (h, b), c)
add-IsPlan skip f fs profile p h (a, b, c) = (All-IsFill-cons f fs profile p.fills a, b, (h, c))

-- The plan fills only fields that are neither files nor sensitive, each with the non-blank slot that the
-- first rule which fits names; the fields it skips are sensitive, and the fields it leaves are files or
-- not sensitive.
pub plan_local_fill-IsPlan :
    (fields : List DetectedField) (profile : UserProfile)
    → IsPlan fields profile (plan_local_fill fields profile)
unfolding plan_local_fill
plan_local_fill-IsPlan [] profile = (tt, tt, tt)
plan_local_fill-IsPlan (f ∷ fs) profile =
    add-IsPlan (choose f profile) f fs profile (plan_local_fill fs profile)
      (choose-Fits fs f profile) (plan_local_fill-IsPlan fs profile)

sent_of :
    (use_cloud : Bool) (context : AtsContext) (plan : FillPlan) (request : CloudFillRequest)
    → cloud_request use_cloud context plan ≡ some request
    → request.fields ≡ plan.unmatched
unfolding cloud_request
sent_of use_cloud context plan request h = ground arith

-- A field that `doFill` sends to the cloud is a file or not sensitive.
pub cloud_request-IsLeft :
    (use_cloud : Bool) (context : AtsContext) (fields : List DetectedField) (profile : UserProfile)
    (request : CloudFillRequest)
    → cloud_request use_cloud context (plan_local_fill fields profile) ≡ some request
    → All IsLeft request.fields
cloud_request-IsLeft use_cloud context fields profile request h =
    let same = sent_of use_cloud context (plan_local_fill fields profile) request h in
    subst (All IsLeft) (sym same) (plan_local_fill-IsPlan fields profile).1
