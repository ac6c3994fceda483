-- ===== src/Web/ResumeEdit/Replies.antt =====
-- Replies of the server: what a conflict stops, and what an accepted save does to later edits.
use apply_agent.Prelude.{
  ℕ, ◌≤◌, ◌≡◌, refl, ◌∙◌, String, Bool, true, false, Option, some, List, [], ◌∷◌, ◌++◌, arith, All,
  is_some,
}
use apply_agent.Web.ResumeEdit.Document.{Value, path_of, get_at_path, set_at_path}
use apply_agent.Web.ResumeEdit.Document.Laws.{IsAddressed, get_at_path-set_at_path}
use apply_agent.Web.ResumeEdit.{
  edit_deferred, commit_deferred, Editor, Mode, accepted, version_moved, unreachable, failed, Event,
  edit, autosave, flushed, snapshot_asked, replied, discarded, adopted, branched, opened, object_is,
  do_save, settle, commit, timer_fires, flush, save_if_dirty, handle, session, Request,
}

-- Only the page's answer to a conflict, or another row, ends it.
abbrev pub keeps_conflict : Event → Bool
keeps_conflict discarded = false
keeps_conflict (adopted doc version) = false
keeps_conflict (branched doc version) = false
keeps_conflict (opened id base doc stash) = false
keeps_conflict _ = true

abbrev pub AllKeepConflict : List (ℕ × Event) → Type 0
AllKeepConflict events = All (λ p. keeps_conflict p.1 ≡ true) events

handle_in_conflict :
    (now : ℕ) (event : Event) (e : Editor)
    → is_some e.conflict ≡ true
    → keeps_conflict event ≡ true
    → ((handle now event e).1 ≡ []) × (is_some (handle now event e).0.conflict ≡ true)
unfolding handle commit commit_deferred timer_fires flush do_save settle save_if_dirty
handle_in_conflict now (edit path v) e c k = ground arith
handle_in_conflict now (edit_deferred path v) e c k = ground arith
handle_in_conflict now autosave e c k = ground arith
handle_in_conflict now flushed e c k = ground arith
handle_in_conflict now snapshot_asked e c k = ground arith
handle_in_conflict now (replied rid (accepted version mode)) e c k = ground arith
handle_in_conflict now (replied rid version_moved) e c k = ground arith
handle_in_conflict now (replied rid unreachable) e c k = ground arith
handle_in_conflict now (replied rid (failed message)) e c k = ground arith
handle_in_conflict now discarded e c k = cc
handle_in_conflict now (adopted doc version) e c k = cc
handle_in_conflict now (branched doc version) e c k = cc
handle_in_conflict now (opened id base doc stash) e c k = cc

-- While a conflict is shown, no event but an answer to it (discard, adopt, branch) or the opening of
-- another row sends a request or ends the conflict.
pub conflict_pauses :
    (events : List (ℕ × Event)) (e : Editor)
    → is_some e.conflict ≡ true
    → AllKeepConflict events
    → ((session events e).1 ≡ []) × (is_some (session events e).0.conflict ≡ true)
unfolding session
conflict_pauses [] e c k = (refl, c)
conflict_pauses ((now, event) ∷ rest) e c (here, later) =
    let (quiet, still) = handle_in_conflict now event e c here in
    let (silent, kept) = conflict_pauses rest (handle now event e).0 still later in
    (rw (quiet, silent), kept)

both_empty : (xs ys : List Request) → xs ≡ [] → ys ≡ [] → xs ++ (ys ++ []) ≡ []
both_empty xs ys p q = rw (p, q)

-- What `commit` and the reply to an accepted save leave.
edited :
    (now : ℕ) (path : String) (v doc : Value) (e : Editor)
    → e.draft ≡ some doc
    → object_is (get_at_path (path_of path) doc) v ≡ false
    → ((commit now path v e).draft ≡ some (set_at_path (path_of path) v doc))
      × ((commit now path v e).in_flight ≡ e.in_flight)
unfolding commit
edited now path v doc e drafted new = ground arith

record IsClean (d : Option Value) (m : Editor × List Request) : Type 0 where
  silent : m.1 ≡ []
  nothing_dirty : m.0.dirty ≡ []
  kept : m.0.draft ≡ d

accepted-IsClean :
    (now version : ℕ) (rid : Option String) (mode : Mode) (e : Editor)
    → 1 ≤ e.in_flight
    → IsClean e.draft (handle now (replied rid (accepted version mode)) e)
unfolding handle settle
accepted-IsClean now version rid mode e busy = ground arith

timer_fires-IsClean :
    (e : Editor) (d : Option Value) → e.dirty ≡ [] → e.draft ≡ d → IsClean d (timer_fires e)
unfolding timer_fires save_if_dirty
timer_fires-IsClean e d q drafted = ground arith

flush_clean : (e : Editor) → e.dirty ≡ [] → (flush e).1 ≡ []
unfolding flush save_if_dirty
flush_clean e q = ground arith

-- An edit that is made while a save is under way and is not yet autosaved when the server accepts
-- that save: it is in the draft, but it is no longer marked as unsaved, and neither the autosave
-- that was scheduled for it nor a flush sends it.
pub late_edit_is_dropped :
    (e : Editor) (doc v : Value) (path : String) (rid : Option String) (version t1 t2 t3 : ℕ)
    (mode : Mode)
    → e.draft ≡ some doc
    → 1 ≤ e.in_flight
    → object_is (get_at_path (path_of path) doc) v ≡ false
    → IsAddressed (path_of path) doc
    → let (last, sent) =
        session
          ((t1, edit path v) ∷ (t2, replied rid (accepted version mode)) ∷ (t3, autosave) ∷ [])
          e in
      (sent ≡ [])
      × (last.dirty ≡ [])
      × ((flush last).1 ≡ [])
      × (last.draft ≡ some (set_at_path (path_of path) v doc))
      × (get_at_path (path_of path) (set_at_path (path_of path) v doc) ≡ v)
unfolding session handle
late_edit_is_dropped e doc v path rid version t1 t2 t3 mode drafted busy new addressed =
    let (written, under_way) = edited t1 path v doc e drafted new in
    let e1 = commit t1 path v e in
    let a = accepted-IsClean t2 version rid mode e1 (omega arith) in
    let e2 = (handle t2 (replied rid (accepted version mode)) e1).0 in
    let b = timer_fires-IsClean e2 _ a.nothing_dirty (a.kept ∙ written) in
    (
      both_empty _ _ a.silent b.silent,
      b.nothing_dirty,
      flush_clean (timer_fires e2).0 b.nothing_dirty,
      b.kept,
      get_at_path-set_at_path (path_of path) v doc addressed,
    )
