-- ===== src/Api/Export/Laws.antt =====
-- Which characters the name of an exported file has.
use apply_agent.Prelude.{
  ℕ, zero, suc, String, ◌<>◌, ◌≡◌, refl, Bool, true, false, ◌||◌, Option, none, some, Json, null,
  bool, num, str, arr, obj, inl, inr, Bool-cases, arith, nat_beq, is_digit, text_take, to_decimal,
  or_else,
}
use apply_agent.Prelude.Decimal.{IsDigits, IsDigits-to_decimal}
use text.Mathlib.TextLemmas.{nil-append, cons-append}
use Prim.Native.Char.{Char, code}
use Prim.Native.String.{[], ◌∷◌}
use apply_agent.Api.Export.{
  ExportFormat, md, json, pdf, docx, export_ext, is_slug, dash_runs, drop_dashes, drop_last_dashes,
  slug_of, slugify, export_filename, version_label,
}

-- A small letter, a digit, a dash or a dot
abbrev pub is_safe : Char → Bool
is_safe c = is_slug c || (nat_beq (code c) b'-' || nat_beq (code c) b'.')

abbrev pub IsSafe : String → Type 0
IsSafe [] = Unit
IsSafe (c ∷ s) = (is_safe c ≡ true) × IsSafe s

pub IsSafe-append : (s t : String) → IsSafe s → IsSafe t → IsSafe (s <> t)
IsSafe-append [] t h k = rw (nil-append t) k
IsSafe-append (c ∷ s) t h k = rw (cons-append c s t) (h.0, IsSafe-append s t h.1 k)

or_true : (a b : Bool) → a ≡ true → (a || b) ≡ true
or_true true b e = refl
or_true false b e = cc

dash_is_safe : is_safe "-" ≡ true
unfolding is_slug
dash_is_safe = refl

IsSafe-dash_runs : (dashed : Bool) (s : String) → IsSafe (dash_runs dashed s)
unfolding dash_runs
IsSafe-dash_runs dashed [] = tt
IsSafe-dash_runs dashed (c ∷ s) = elim (Bool-cases (is_slug c)) [
  | inl e ↦ rw e (or_true (is_slug c) _ e, IsSafe-dash_runs false s)
  | inr e ↦ elim (Bool-cases dashed) [
    | inl d ↦ rw (e, d) (IsSafe-dash_runs true s)
    | inr d ↦ rw (e, d) (dash_is_safe, IsSafe-dash_runs true s)
  ]
]

IsSafe-drop_dashes : (s : String) → IsSafe s → IsSafe (drop_dashes s)
unfolding drop_dashes
IsSafe-drop_dashes [] h = tt
IsSafe-drop_dashes (c ∷ s) h = ground (arith, IsSafe-drop_dashes s h.1, h)

IsSafe-drop_last_dashes : (s : String) → IsSafe s → IsSafe (drop_last_dashes s)
unfolding drop_last_dashes
IsSafe-drop_last_dashes [] h = tt
IsSafe-drop_last_dashes (c ∷ s) h = ground (arith, IsSafe-drop_last_dashes s h.1, h)

IsSafe-text_take : (n : ℕ) (s : String) → IsSafe s → IsSafe (text_take n s)
unfolding text_take
IsSafe-text_take zero s h = tt
IsSafe-text_take (suc n) [] h = tt
IsSafe-text_take (suc n) (c ∷ s) h = (h.0, IsSafe-text_take n s h.1)

IsSafe-IsDigits : (s : String) → IsDigits s → IsSafe s
unfolding is_slug
IsSafe-IsDigits [] h = tt
IsSafe-IsDigits (c ∷ s) h =
    (or_true (is_slug c) _ (or_true (is_digit c) _ h.0), IsSafe-IsDigits s h.1)

IsSafe-slug_of : (s : String) → IsSafe (slug_of s)
unfolding slug_of
IsSafe-slug_of s =
    IsSafe-text_take 64 _
      (IsSafe-drop_last_dashes _ (IsSafe-drop_dashes _ (IsSafe-dash_runs false s)))

IsSafe-slugify : (fold : String → String) (name : Option Json) → IsSafe (slugify fold name)
unfolding slugify
IsSafe-slugify fold (some (str s)) = IsSafe-slug_of (fold s)
IsSafe-slugify fold none = tt
IsSafe-slugify fold (some null) = tt
IsSafe-slugify fold (some (bool b)) = tt
IsSafe-slugify fold (some (num n)) = tt
IsSafe-slugify fold (some (arr xs)) = tt
IsSafe-slugify fold (some (obj fs)) = tt

IsSafe-or_else : (s t : String) → IsSafe s → IsSafe t → IsSafe (or_else s t)
IsSafe-or_else [] t h k = k
IsSafe-or_else (c ∷ s) t h k = h

IsSafe-export_ext : (format : ExportFormat) → IsSafe (export_ext format)
unfolding export_ext is_slug is_digit
IsSafe-export_ext md = (refl, (refl, tt))
IsSafe-export_ext json = (refl, (refl, (refl, (refl, tt))))
IsSafe-export_ext pdf = (refl, (refl, (refl, tt)))
IsSafe-export_ext docx = (refl, (refl, (refl, (refl, tt))))

pub export_filename-IsSafe :
    (fold : String → String) (parsed : Json) (version : ℕ) (format : ExportFormat)
    → IsSafe (export_filename fold parsed (version_label version) format)
unfolding export_filename is_slug
export_filename-IsSafe fold parsed version format =
    IsSafe-append (or_else (slugify fold _) "resume") _
      (IsSafe-or_else (slugify fold _) "resume" (IsSafe-slugify fold _)
        (refl, (refl, (refl, (refl, (refl, (refl, tt)))))))
      (IsSafe-append "-" _ (refl, tt)
        (IsSafe-append (version_label version) _
          (IsSafe-append "v" _ (refl, tt)
            (IsSafe-IsDigits (to_decimal version) (IsDigits-to_decimal version)))
          (IsSafe-append "." _ (refl, tt) (IsSafe-export_ext format))))
