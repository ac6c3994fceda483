-- ===== src/Web/ResumeEdit/Merge.antt =====
-- `branchFromTheirs`: my edits on top of their document.
use apply_agent.Prelude.{ℕ, ◌≡◌, refl, ◌∙◌, arith, String, some, List, [], ◌∷◌, All}
use apply_agent.Web.ResumeEdit.Document.{Value, path_of, get_at_path, set_at_path}
use apply_agent.Web.ResumeEdit.Document.Laws.{
  Disjoint, HasContainers, HasContainers-set_at_path, HasContainers-IsAddressed,
  get_at_path-set_at_path, get_at_path-set_at_path_other,
}
use apply_agent.Web.ResumeEdit.{Editor, reapply, branch_from_theirs, persist_if_dirty}

-- The paths lead away from one another, each from all later ones and back.
abbrev pub PairwiseDisjoint : List String → Type 0
PairwiseDisjoint [] = Unit
PairwiseDisjoint (p ∷ rest) =
    All (λ q. Disjoint (path_of p) (path_of q) × Disjoint (path_of q) (path_of p)) rest
    × PairwiseDisjoint rest

-- The paths exist in the document up to their last segments.
abbrev pub AllHaveContainers : List String → Value → Type 0
AllHaveContainers ps doc = All (λ p. HasContainers (path_of p) doc) ps

reapply_other :
    (ps : List String) (q : String) (mine theirs : Value)
    → All (λ p. Disjoint (path_of p) (path_of q)) ps
    → get_at_path (path_of q) (reapply ps mine theirs) ≡ get_at_path (path_of q) theirs
unfolding reapply
reapply_other [] q mine theirs h = refl
reapply_other (p ∷ ps) q mine theirs (apart, rest) =
    reapply_other ps q mine (set_at_path (path_of p) (get_at_path (path_of p) mine) theirs) rest
    ∙ get_at_path-set_at_path_other (path_of p) (path_of q) (get_at_path (path_of p) mine) theirs
        apart

backwards :
    (p : String) (ps : List String)
    → All (λ q. Disjoint (path_of p) (path_of q) × Disjoint (path_of q) (path_of p)) ps
    → All (λ q. Disjoint (path_of q) (path_of p)) ps
backwards p [] h = tt
backwards p (q ∷ ps) (here, rest) = (here.1, backwards p ps rest)

containers_kept :
    (p : String) (v theirs : Value) (ps : List String)
    → All (λ q. Disjoint (path_of p) (path_of q) × Disjoint (path_of q) (path_of p)) ps
    → AllHaveContainers ps theirs
    → AllHaveContainers ps (set_at_path (path_of p) v theirs)
containers_kept p v theirs [] h c = tt
containers_kept p v theirs (q ∷ ps) (here, rest) (c, cs) = (
  HasContainers-set_at_path (path_of q) (path_of p) v theirs here.0 c,
  containers_kept p v theirs ps rest cs,
)

reapply_mine :
    (ps : List String) (mine theirs : Value)
    → PairwiseDisjoint ps
    → AllHaveContainers ps theirs
    → All (λ p. get_at_path (path_of p) (reapply ps mine theirs) ≡ get_at_path (path_of p) mine) ps
unfolding reapply
reapply_mine [] mine theirs d c = tt
reapply_mine (p ∷ ps) mine theirs (apart, pairwise) (c, cs) =
    let mine_p = get_at_path (path_of p) mine in
    let next = set_at_path (path_of p) mine_p theirs in
    (
      reapply_other ps p mine next (backwards p ps apart)
          ∙ get_at_path-set_at_path (path_of p) mine_p theirs
              (HasContainers-IsAddressed (path_of p) theirs c),
      reapply_mine ps mine next pairwise (containers_kept p mine_p theirs ps apart cs),
    )

persisted_draft :
    (now : ℕ) (dirty : List String) (doc : Value) (e : Editor)
    → (persist_if_dirty now dirty doc e).draft ≡ e.draft
persisted_draft now [] doc e = refl
persisted_draft now (p ∷ rest) doc e = ground arith

-- Keeping mine over a newer version of theirs: if the edited paths are pairwise disjoint and exist in
-- their document up to their last segments, the draft has my value at each edited path, and their
-- value at each path that is disjoint from all of those.
pub branch_keeps_both :
    (now : ℕ) (e : Editor) (mine theirs : Value) (their_version : ℕ)
    → e.draft ≡ some mine
    → PairwiseDisjoint e.dirty
    → AllHaveContainers e.dirty theirs
    → (doc : Value) × ((branch_from_theirs now theirs their_version e).draft ≡ some doc)
      × All (λ p. get_at_path (path_of p) doc ≡ get_at_path (path_of p) mine) e.dirty
      × ((q : String)
          → All (λ p. Disjoint (path_of p) (path_of q)) e.dirty
          → get_at_path (path_of q) doc ≡ get_at_path (path_of q) theirs)
unfolding branch_from_theirs
branch_keeps_both now e mine theirs their_version drafted pairwise containers = (
  reapply e.dirty mine theirs,
  persisted_draft now e.dirty _ _ ∙ rw drafted,
  reapply_mine e.dirty mine theirs pairwise containers,
  λ q h. reapply_other e.dirty q mine theirs h,
)
