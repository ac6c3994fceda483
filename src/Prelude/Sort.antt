-- ===== src/Prelude/Sort.antt =====
-- JavaScript's `xs.sort((a, b) => rank(b) - rank(a))`: the highest rank first, and elements of one
-- rank in the order in which they stood.
use Prim.Native.Nat.{ℕ, suc, ◌≤◌}
use mathlib.Core.Path.{◌≡◌, refl, ◌∙◌}
use mathlib.Core.Logic.{inl, inr}
use mathlib.Core.Bool.{Bool}
use mathlib.Core.List.{List, [], ◌∷◌}
use native.Mathlib.Omega.{arith}
use apply_agent.Prelude.Tests.{leb, if◌then◌else◌, Bool-cases}

module _ {ℓ} {A : Type ℓ} (rank : A → ℕ) where
  unfoldable pub insert_by : A → List A → List A
  insert_by x [] = x ∷ []
  insert_by x (y ∷ ys) =
      let later = insert_by x ys in if leb (rank y) (rank x) then x ∷ y ∷ ys else y ∷ later

  unfoldable pub sort_by : List A → List A
  sort_by [] = []
  sort_by (x ∷ xs) = insert_by x (sort_by xs)

  abbrev pub IsAtMost : ℕ → List A → Type 0
  IsAtMost bound [] = Unit
  IsAtMost bound (x ∷ xs) = (rank x ≤ bound) × IsAtMost bound xs

  -- No rank is above the one before it.
  abbrev pub IsRanked : List A → Type 0
  IsRanked [] = Unit
  IsRanked (x ∷ xs) = IsAtMost (rank x) xs × IsRanked xs

  IsAtMost-mono : (a b : ℕ) (xs : List A) → a ≤ b → IsAtMost a xs → IsAtMost b xs
  IsAtMost-mono a b [] le h = tt
  IsAtMost-mono a b (x ∷ xs) le h = (omega (arith, le, h.0), IsAtMost-mono a b xs le h.1)

  IsAtMost-insert_by :
      (bound : ℕ) (x : A) (xs : List A)
      → rank x ≤ bound
      → IsAtMost bound xs
      → IsAtMost bound (insert_by x xs)
  unfolding insert_by
  IsAtMost-insert_by bound x [] le h = (le, tt)
  IsAtMost-insert_by bound x (y ∷ xs) le h =
      let later = IsAtMost-insert_by bound x xs le h.1 in
      elim (Bool-cases (leb (rank y) (rank x))) [
        | inl e ↦ rw (e, insert_by) (le, (h.0, h.1))
        | inr e ↦ rw (e, insert_by) (h.0, later)
      ]

  IsRanked-insert_by : (x : A) (xs : List A) → IsRanked xs → IsRanked (insert_by x xs)
  unfolding insert_by
  IsRanked-insert_by x [] h = (tt, tt)
  IsRanked-insert_by x (y ∷ xs) h =
      let later = IsRanked-insert_by x xs h.1 in
      elim (Bool-cases (leb (rank y) (rank x))) [
        | inl e ↦
            let le : rank y ≤ rank x = ground (arith, e) in
            rw (e, insert_by) ((le, IsAtMost-mono (rank y) (rank x) xs le h.0), h)
        | inr e ↦
            let le : rank x ≤ rank y = ground (arith, e) in
            rw (e, insert_by) (IsAtMost-insert_by (rank y) x xs le h.0, later)
      ]

  pub sort_by-IsRanked : (xs : List A) → IsRanked (sort_by xs)
  unfolding sort_by
  sort_by-IsRanked [] = tt
  sort_by-IsRanked (x ∷ xs) = IsRanked-insert_by x (sort_by xs) (sort_by-IsRanked xs)

module _ {ℓ} {A : Type ℓ} (test : A → Bool) where
  -- How often a test holds in a list
  abbrev pub count : List A → ℕ
  count [] = 0
  count (x ∷ xs) = let n = count xs in if test x then suc n else n

  module _ (rank : A → ℕ) where
    count-insert_by : (x : A) (xs : List A) → count (insert_by rank x xs) ≡ count (x ∷ xs)
    unfolding insert_by
    count-insert_by x [] = refl
    count-insert_by x (y ∷ xs) = ground (arith, count-insert_by x xs)

    pub count-sort_by : (xs : List A) → count (sort_by rank xs) ≡ count xs
    unfolding sort_by
    count-sort_by [] = refl
    count-sort_by (x ∷ xs) = count-insert_by x (sort_by rank xs) ∙ ground (arith, count-sort_by xs)
