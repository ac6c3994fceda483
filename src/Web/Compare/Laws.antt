-- ===== src/Web/Compare/Laws.antt =====
-- What the merge of two bullet lists keeps.
use apply_agent.Prelude.{
  ℕ, ◌+◌, ◌≤◌, String, ◌==◌, Bool, true, false, ◌&&◌, Option, none, some, List, [], ◌∷◌, ◌≡◌, refl,
  subst, ◌⊎◌, inl, inr, Bool-cases, arith, if◌then◌else◌,
}
use apply_agent.Web.Compare.{Candidates, fresh, pick, leftover, merge_highlights}
use apply_agent.Web.Compare.Text.{likely_rewrite_of}

-- How often a bullet stands in a list
abbrev pub occurrences : String → List String → ℕ
occurrences s [] = 0
occurrences s (t ∷ ts) = (if t == s then 1 else 0) + occurrences s ts

-- The first bullets of the list stand for those of the base, in order: each is the base bullet or a
-- rewrite of it.
abbrev pub Covers : (base merged : List String) → Type 0
Covers [] merged = Unit
Covers (b ∷ bs) [] = ⊥
Covers (b ∷ bs) (m ∷ ms) = ((m ≡ b) ⊎ (likely_rewrite_of b m ≡ true)) × Covers bs ms

and_true : (a b : Bool) → (a && b) ≡ true → b ≡ true
and_true true b h = h
and_true false b h = cc

-- What a picked bullet is, and that only it is consumed
abbrev Picked : String → String → Candidates → Option (String × Candidates) → Type 0
Picked s base ds none = Unit
Picked s base ds (some (c, cs)) =
    (likely_rewrite_of base c ≡ true)
    × (occurrences s (leftover ds) ≡ (if c == s then 1 else 0) + occurrences s (leftover cs))

Picked-later :
    (s base d : String) (consumed : Bool) (ds : Candidates) (o : Option (String × Candidates))
    → Picked s base ds o
    → Picked s base
        ((d, consumed) ∷ ds)
        (elim o [ none ↦ none | some (c, cs) ↦ some (c, (d, consumed) ∷ cs) ])
unfolding leftover
Picked-later s base d consumed ds none h = tt
Picked-later s base d true ds (some (c, cs)) h = h
Picked-later s base d false ds (some (c, cs)) h = (h.0, omega (arith, h.1))

pick-Picked : (s base : String) (ds : Candidates) → Picked s base ds (pick base ds)
unfolding pick leftover
pick-Picked s base [] = tt
pick-Picked s base ((d, true) ∷ ds) =
    Picked-later s base d true ds (pick base ds) (pick-Picked s base ds)
pick-Picked s base ((d, false) ∷ ds) = elim (Bool-cases (likely_rewrite_of base d)) [
  | inl e ↦ rw e (e, refl)
  | inr e ↦ rw e (Picked-later s base d false ds (pick base ds) (pick-Picked s base ds))
]

leftover-fresh : (ds : List String) → leftover (fresh ds) ≡ ds
unfolding leftover fresh
leftover-fresh [] = refl
leftover-fresh (d ∷ ds) = rw (leftover-fresh ds)

-- What the merge keeps: the base bullets or their rewrites, and every derived bullet.
abbrev pub Keeps : (base : List String) → Candidates → (merged : List String) → Type 0
Keeps bs ds merged =
    Covers bs merged × ((s : String) → occurrences s (leftover ds) ≤ occurrences s merged)

Keeps-Picked :
    (b : String) (bs : List String) (ds : Candidates) (o : Option (String × Candidates))
    → ((s : String) → Picked s b ds o)
    → ((cs : Candidates) → Keeps bs cs (merge_highlights bs cs))
    → Keeps
        (b ∷ bs)
        ds
        (elim o [ none ↦ b ∷ merge_highlights bs ds | some (c, cs) ↦ c ∷ merge_highlights bs cs ])
Keeps-Picked b bs ds none p k = ((inl refl, (k ds).0), λ s. omega (arith, (k ds).1 s))
Keeps-Picked b bs ds (some (c, cs)) p k =
    ((inr (p "").0, (k cs).0), λ s. omega (arith, (p s).1, (k cs).1 s))

merge_highlights-Keeps : (bs : List String) (ds : Candidates) → Keeps bs ds (merge_highlights bs ds)
unfolding merge_highlights
merge_highlights-Keeps [] ds = (tt, λ s. omega arith)
merge_highlights-Keeps (b ∷ bs) ds =
    Keeps-Picked b bs ds (pick b ds) (λ s. pick-Picked s b ds) (merge_highlights-Keeps bs)

-- The merge of two bullet lists loses none: its first bullets are the base bullets or likely rewrites of
-- them, in order, and every derived bullet occurs in it at least as often as in the derived list.
pub merge_highlights_lem :
    (base derived : List String) (s : String)
    → Covers base (merge_highlights base (fresh derived))
      × (occurrences s derived ≤ occurrences s (merge_highlights base (fresh derived)))
merge_highlights_lem base derived s =
    let keeps = merge_highlights-Keeps base (fresh derived) in
    (
      keeps.0,
      subst (λ ds. occurrences s ds ≤ occurrences s (merge_highlights base (fresh derived)))
          (leftover-fresh derived) (keeps.1 s),
    )
