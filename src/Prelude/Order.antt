-- ===== src/Prelude/Order.antt =====
-- The order in which JavaScript's `sort` puts texts: by the first character where they differ. It
-- compares UTF-16 units, which is by code point for text of the basic plane.
use Prim.Native.Char.{Char, code}
use Prim.Native.String.{String, [], ◌∷◌}
use mathlib.Core.Path.{◌≡◌, refl}
use mathlib.Core.Logic.{inl, inr}
use mathlib.Core.Bool.{Bool, true, false}
use native.Mathlib.Omega.{arith}
use text.Mathlib.TextEquality.{codes_equal}
use text.Mathlib.TextPositions.{compare_self}
use apply_agent.Prelude.Tests.{ltb, if◌then◌else◌, Bool-cases}

unfoldable pub text_less : String → String → Bool
text_less [] [] = false
text_less [] (d ∷ t) = true
text_less (c ∷ s) [] = false
text_less (c ∷ s) (d ∷ t) =
    let rest = text_less s t in
    if ltb (code c) (code d) then true else if ltb (code d) (code c) then false else rest

code-inj : (c d : Char) → code c ≡ code d → c ≡ d
code-inj c d e = codes_equal c d (rw e (compare_self (code d)))

-- Exactly one of the three holds.
pub data Trichotomy (s t : String) : Type 0 where
  same : s ≡ t → Trichotomy s t
  before : text_less s t ≡ true → text_less t s ≡ false → Trichotomy s t
  after : text_less s t ≡ false → text_less t s ≡ true → Trichotomy s t

pub text_less-Trichotomy : (s t : String) → Trichotomy s t
unfolding text_less
text_less-Trichotomy [] [] = same refl
text_less-Trichotomy [] (d ∷ t) = before refl refl
text_less-Trichotomy (c ∷ s) [] = after refl refl
text_less-Trichotomy (c ∷ s) (d ∷ t) = elim (Bool-cases (ltb (code c) (code d))) [
  | inl e ↦ before (ground arith) (ground arith)
  | inr e ↦ elim (Bool-cases (ltb (code d) (code c))) [
    | inl f ↦ after (ground arith) (ground arith)
    | inr f ↦
        let eq : c ≡ d = code-inj c d (ground arith) in
        elim (text_less-Trichotomy s t) [
          | same p ↦ same (rw (eq, p))
          | before p q ↦ before (rw (e, f) p) (rw (e, f) q)
          | after p q ↦ after (rw (e, f) p) (rw (e, f) q)
        ]
  ]
]

pub text_less_trans :
    (s t u : String) → text_less s t ≡ true → text_less t u ≡ true → text_less s u ≡ true
unfolding text_less
text_less_trans [] [] u p q = cc
text_less_trans [] (d ∷ t) [] p q = cc
text_less_trans [] (d ∷ t) (e ∷ u) p q = refl
text_less_trans (c ∷ s) [] u p q = cc
text_less_trans (c ∷ s) (d ∷ t) [] p q = cc
text_less_trans (c ∷ s) (d ∷ t) (e ∷ u) p q = ground (arith, text_less_trans s t u)
