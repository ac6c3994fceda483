-- ===== src/Web/ResumeEdit/Tests.antt =====
-- Edit sessions at concrete documents, and the witnesses of the theorems about them.
use apply_agent.Prelude.{
  ◌≡◌, refl, String, false, none, some, [], ◌∷◌, All, arith, inl, inr, neq_of_test,
}
use apply_agent.Web.ResumeEdit.Document.{
  Value, str, arr, obj, item, no_item, field, no_field, path_of, get_at_path, set_at_path,
  parse_index, child, get_item, set_item, get_field, set_field, place,
}
use apply_agent.Web.ResumeEdit.Document.Laws.{Differ, Disjoint}
use apply_agent.Web.ResumeEdit.{
  Editor, edit, edit_deferred, handle, commit, commit_deferred, add_path, autosave, replied,
  accepted, draft, idle, session, flush, object_is, branch_from_theirs,
}
use apply_agent.Web.ResumeEdit.Session.{IsCovered, session-IsCovered}
use apply_agent.Web.ResumeEdit.Replies.{late_edit_is_dropped}
use apply_agent.Web.ResumeEdit.Merge.{branch_keeps_both}

-- { name: "Ada", work: ["built it", "ran it"] }
abbrev resume : Value
resume = obj (
    field "name" (str "Ada")
      (field "work" (arr (item (str "built it") (item (str "ran it") no_item))) no_field))

abbrev theirs : Value
theirs =
    obj (field "name" (str "Ada L.") (field "work" (arr (item (str "built it") no_item)) no_field))

path_of_lem : path_of "work.1" ≡ "work" ∷ "1" ∷ []
unfolding path_of
path_of_lem = refl

set_at_path_lem :
    set_at_path ("work" ∷ "3" ∷ []) (str "new") resume
    ≡ obj (
        field "name" (str "Ada") (
          field "work"
            (arr (
              item
                (str "built it")
                (item (str "ran it") (item Value.undefined (item (str "new") no_item)))))
            no_field))
unfolding set_at_path child place get_field set_field get_item set_item parse_index
set_at_path_lem = refl

abbrev opened_resume : Editor
opened_resume = record {
  resume_id = some "r1";
  base_version = 3;
  initial_doc = some resume;
  draft = some resume;
  dirty = [];
  status = idle;
  conflict = none;
  version = 3;
  timer = false;
  in_flight = 0;
  stash = λ v. none;
}

zero_one : Differ "0" "1"
unfolding parse_index
zero_one = record { keys = neq_of_test _ _ refl; elements = λ i p q. ground arith }

one_zero : Differ "1" "0"
unfolding parse_index
one_zero = record { keys = neq_of_test _ _ refl; elements = λ i p q. ground arith }

session-IsCovered_example :
    IsCovered (session ((5, edit "name" (str "Bea")) ∷ (9, autosave) ∷ []) opened_resume).0
session-IsCovered_example =
    session-IsCovered ((5, edit "name" (str "Bea")) ∷ (9, autosave) ∷ []) opened_resume
      (record { drafted = λ h d. cc; attended = λ h d. cc })

-- Two edits before the next render: the second one is in the draft, but not marked as unsaved.
deferred_edit_is_unmarked :
    (session
      ((5, edit "name" (str "Bea")) ∷ (5, edit_deferred "work.0" (str "led it")) ∷ [])
      opened_resume).0.dirty
    ≡ "name" ∷ []
unfolding session handle commit commit_deferred object_is get_at_path set_at_path path_of child
    get_field set_field get_item set_item place parse_index add_path
deferred_edit_is_unmarked = refl

late_edit_is_dropped_example :
    let (last, sent) =
      session
        ((5, edit "name" (str "Bea"))
          ∷ (6, replied (some "r1") (accepted 3 draft))
          ∷ (9, autosave)
          ∷ [])
        (record opened_resume { in_flight = 1 }) in
    (sent ≡ [])
    × (last.dirty ≡ [])
    × ((flush last).1 ≡ [])
    × (last.draft ≡ some (set_at_path (path_of "name") (str "Bea") resume))
    × (get_at_path (path_of "name") (set_at_path (path_of "name") (str "Bea") resume) ≡ str "Bea")
unfolding object_is get_at_path path_of child get_field
late_edit_is_dropped_example =
    late_edit_is_dropped (record opened_resume { in_flight = 1 }) resume (str "Bea") "name"
      (some "r1") 3 5 6 9 draft refl (omega arith) refl (tt, tt)

branch_keeps_both_example :
    (doc : Value) × ((branch_from_theirs 9 theirs 4
        (record opened_resume { dirty = "work.0" ∷ "work.1" ∷ [] })).draft
      ≡ some doc)
    × All
        (λ p. get_at_path (path_of p) doc ≡ get_at_path (path_of p) resume)
        ("work.0" ∷ "work.1" ∷ [])
    × ((q : String)
        → All (λ p. Disjoint (path_of p) (path_of q)) ("work.0" ∷ "work.1" ∷ [])
        → get_at_path (path_of q) doc ≡ get_at_path (path_of q) theirs)
unfolding path_of child get_field parse_index
branch_keeps_both_example =
    branch_keeps_both 9 (record opened_resume { dirty = "work.0" ∷ "work.1" ∷ [] }) resume theirs 4
      refl (((inr (refl, inl zero_one), inr (refl, inl one_zero)), tt), (tt, tt))
      ((tt, ((0, refl), tt)), ((tt, ((1, refl), tt)), tt))
