-- ===== src/Web/Compare.antt =====
-- resume-compare.ts: the right-hand document of the comparison of a résumé with its base.
pub mod Text
pub mod Laws
mod Tests
use apply_agent.Prelude.{
  ℕ, zero, suc, String, ◌==◌, Bool, true, false, not, ◌&&◌, ◌||◌, Option, none, some, List, [], ◌∷◌,
  ◌++◌, is_empty, trim, if◌then◌else◌, get_or_else,
}
use apply_agent.Web.Compare.Text.{normalized, likely_rewrite_of}

pub record ComparableWork : Type 0 where
  pub name : Option String
  pub position : Option String
  pub start_date : Option String
  pub end_date : Option String
  pub summary : Option String
  pub highlights : Option (List String)

-- `Boolean(a && b && a === b)`
both_equal : String → String → Bool
both_equal a b = not (is_empty a) && not (is_empty b) && (a == b)

-- `sameRole`
unfoldable pub same_role : ComparableWork → ComparableWork → Bool
unfolding both_equal
same_role left right =
    both_equal (normalized (get_or_else left.name "")) (normalized (get_or_else right.name ""))
    || both_equal (normalized (get_or_else left.position ""))
        (normalized (get_or_else right.position ""))

-- The derived bullets, each with its place in `consumed`
abbrev pub Candidates : Type 0
Candidates = List (String × Bool)

unfoldable pub fresh : List String → Candidates
fresh [] = []
fresh (d ∷ ds) = (d, false) ∷ fresh ds

-- `findIndex` with `consumed.add`: the first bullet that is not consumed and may be a rewrite
unfoldable pub pick : String → Candidates → Option (String × Candidates)
pick base [] = none
pick base ((d, consumed) ∷ ds) =
    let later = pick base ds in
    if not consumed && likely_rewrite_of base d
    then some (d, (d, true) ∷ ds)
    else elim later [ none ↦ none | some (c, cs) ↦ some (c, (d, consumed) ∷ cs) ]

-- The bullets that are not consumed
unfoldable pub leftover : Candidates → List String
leftover [] = []
leftover ((d, consumed) ∷ ds) = let rest = leftover ds in if consumed then rest else d ∷ rest

-- The loop over the base bullets, then the derived bullets that are left
unfoldable pub merge_highlights : (base : List String) → Candidates → List String
merge_highlights [] ds = leftover ds
merge_highlights (b ∷ bs) ds = elim (pick b ds) [
  | none ↦ b ∷ merge_highlights bs ds
  | some (c, cs) ↦ c ∷ merge_highlights bs cs
]

-- `s?.trim() || …`
trimmed : Option String → Option String
trimmed none = none
trimmed (some s) = if is_empty (trim s) then none else some (trim s)

first_of : Option String → Option String → Option String
first_of none o = o
first_of (some s) o = some s

-- What becomes of a derived role that a base role matches; `source` is the role as the derived version
-- has it, `role` what earlier base roles have made of it.
unfoldable pub merge_role : (source role base : ComparableWork) → ComparableWork
unfolding trimmed first_of
merge_role source role base = record role {
  summary = first_of (trimmed role.summary) (trimmed base.summary);
  highlights = some (
      merge_highlights (get_or_else base.highlights []) (fresh (get_or_else source.highlights [])));
}

-- One round of the loop over the base, with the derived roles and what is merged of them
unfoldable pub merge_one :
    (derived : List ComparableWork)
    → (base : ComparableWork) → (merged : List ComparableWork) → List ComparableWork
merge_one [] base merged = merged ++ (base ∷ [])
merge_one (d ∷ ds) base [] = []
merge_one (d ∷ ds) base (r ∷ rs) =
    let later = merge_one ds base rs in
    if same_role d base then merge_role d r base ∷ rs else r ∷ later

merge_all : List ComparableWork → List ComparableWork → List ComparableWork → List ComparableWork
merge_all derived [] merged = merged
merge_all derived (b ∷ bs) merged = merge_all derived bs (merge_one derived b merged)

-- `mergeCompareWork`
unfoldable pub merge_compare_work : List ComparableWork → List ComparableWork → List ComparableWork
unfolding merge_all
merge_compare_work derived base = merge_all derived base derived
