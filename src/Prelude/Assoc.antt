-- ===== src/Prelude/Assoc.antt =====
-- JavaScript's `Map` with string keys: entries in insertion order. `insert` on a key that is there
-- replaces the value in place; a new key goes to the end.
use Prim.Native.String.{String}
use mathlib.Core.Path.{◌≡◌, refl, sym, subst, subst₂}
use mathlib.Core.Logic.{◌≢◌, inl, inr}
use mathlib.Core.Bool.{Bool}
use mathlib.Core.Option.{Option, none, some}
use mathlib.Core.List.{List, [], ◌∷◌, ◌++◌}
use native.Mathlib.Omega.{arith}
use text.Mathlib.Text.{◌==◌}
use text.Mathlib.TextEquality.{eq_iff}
use apply_agent.Prelude.Tests.{if◌then◌else◌, is_some, Bool-cases}
use apply_agent.Prelude.Lists.{All}

abbrev pub Assoc {ℓ} : Type ℓ → Type ℓ
Assoc V = List (String × V)

-- No key occurs twice.
abbrev pub IsFresh : String → List String → Type 0
IsFresh k [] = Unit
IsFresh k (j ∷ ks) = (j ≢ k) × IsFresh k ks

abbrev pub IsDistinct : List String → Type 0
IsDistinct [] = Unit
IsDistinct (k ∷ ks) = IsFresh k ks × IsDistinct ks

IsFresh-append :
    (k j : String) (ks : List String) → IsFresh k ks → j ≢ k → IsFresh k (ks ++ (j ∷ []))
IsFresh-append k j [] h e = (e, tt)
IsFresh-append k j (i ∷ ks) h e = (h.0, IsFresh-append k j ks h.1 e)

module _ {ℓ} {V : Type ℓ} where
  -- `m.get(k)`
  unfoldable pub lookup : String → Assoc V → Option V
  lookup key [] = none
  lookup key ((other, value) ∷ entries) =
      let later = lookup key entries in if other == key then some value else later

  -- `m.has(k)`
  abbrev pub has : String → Assoc V → Bool
  has k m = is_some (lookup k m)

  -- `m.set(k, v)`
  unfoldable pub insert : String → V → Assoc V → Assoc V
  insert key value [] = (key, value) ∷ []
  insert key value ((other, old) ∷ entries) =
      let later = insert key value entries in
      if other == key then (other, value) ∷ entries else (other, old) ∷ later

  -- `[...m.keys()]`
  abbrev pub keys : Assoc V → List String
  keys [] = []
  keys ((k, v) ∷ m) = k ∷ keys m

  pub lookup-insert :
      (key wanted : String) (value : V) (entries : Assoc V)
      → lookup wanted (insert key value entries)
        ≡ (if key == wanted then some value else lookup wanted entries)
  unfolding lookup insert
  lookup-insert key wanted value [] = refl
  lookup-insert key wanted value ((other, old) ∷ entries) =
      let later = lookup-insert key wanted value entries in
      ground (arith, later, eq_iff other wanted, eq_iff other key, eq_iff key wanted)

  pub keys-insert :
      (k : String) (v : V) (m : Assoc V)
      → keys (insert k v m) ≡ (if has k m then keys m else keys m ++ (k ∷ []))
  unfolding lookup insert
  keys-insert k v [] = refl
  keys-insert k v ((j, w) ∷ m) = ground (arith, eq_iff j k, keys-insert k v m)

  IsFresh-insert :
      (i k : String) (v : V) (m : Assoc V)
      → k ≢ i
      → IsFresh i (keys m)
      → IsFresh i (keys (insert k v m))
  unfolding insert
  IsFresh-insert i k v [] e h = (e, tt)
  IsFresh-insert i k v ((j, w) ∷ m) e h = ground (arith, IsFresh-insert i k v m)

  pub IsDistinct-insert :
      (k : String) (v : V) (m : Assoc V) → IsDistinct (keys m) → IsDistinct (keys (insert k v m))
  unfolding insert
  IsDistinct-insert k v [] h = (tt, tt)
  IsDistinct-insert k v ((j, w) ∷ m) h =
      ground (arith, eq_iff j k, IsFresh-insert j k v m, IsDistinct-insert k v m)

  module _ {κ} (P : String × V → Type κ) where
    pub All-insert : (k : String) (v : V) (m : Assoc V) → P (k, v) → All P m → All P (insert k v m)
    unfolding insert
    All-insert k v [] p h = (p, tt)
    All-insert k v ((j, w) ∷ m) p h = elim (Bool-cases (j == k)) [
      | inl same ↦ rw same (subst (λ i. P (i, v)) (sym ((eq_iff j k).0 same)) p, h.1)
      | inr other ↦ rw other (h.0, All-insert k v m p h.1)
    ]

    pub All-lookup : (k : String) (m : Assoc V) {v : V} → All P m → lookup k m ≡ some v → P (k, v)
    unfolding lookup
    All-lookup k [] h e = cc
    All-lookup k ((j, w) ∷ m) {v} h e = elim (Bool-cases (j == k)) [
      | inl same ↦
          let found : w ≡ v = ground arith in
          subst₂ (λ i u. P (i, u)) ((eq_iff j k).0 same) found h.0
      | inr other ↦ All-lookup k m h.1 (rw (other, lookup) at e)
    ]
