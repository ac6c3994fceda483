-- ===== src/Web/ResumeEdit/Session.antt =====
-- Unsaved edits: when they are looked after, and when they are not.
use apply_agent.Prelude.{
  ℕ, ◌≡◌, refl, sym, ap, subst, String, Bool, Bool-cases, true, false, ◌||◌, Option, none, some,
  List, [], ◌∷◌, inl, inr, arith, ltb, ◌-◌, is_some, Option-cases,
}
use apply_agent.Web.ResumeEdit.Document.{Value, path_of, get_at_path}
use apply_agent.Web.ResumeEdit.{
  Editor, Mode, draft, snapshot, SaveStatus, offline, error, Reply, accepted, version_moved,
  unreachable, failed, Event, edit, edit_deferred, commit_deferred, autosave, flushed,
  snapshot_asked, replied, discarded, adopted, branched, opened, has_id, do_save, settle, commit,
  timer_fires, flush, save_if_dirty, branch_from_theirs, reset_session, rehydrate, handle, session,
  Stash, persist_if_dirty, reopened, draft_ttl_ms, object_is,
}

abbrev pub is_problem : SaveStatus → Bool
is_problem offline = true
is_problem (error message) = true
is_problem _ = false

abbrev pub is_dirty : List String → Bool
is_dirty [] = false
is_dirty (p ∷ rest) = true

-- A save is scheduled or under way, or the page shows that one has failed.
abbrev pub is_attended : Editor → Bool
is_attended e = e.timer || ltb 0 e.in_flight || is_some e.conflict || is_problem e.status

-- Where there is a résumé, edits that are not saved have a draft and are attended to.
pub record IsCovered (e : Editor) : Type 0 where
  pub drafted : has_id e.resume_id ≡ true → is_dirty e.dirty ≡ true → is_some e.draft ≡ true
  pub attended : has_id e.resume_id ≡ true → is_dirty e.dirty ≡ true → is_attended e ≡ true

commit-IsCovered :
    (now : ℕ) (path : String) (v : Value) (e : Editor)
    → IsCovered e
    → IsCovered (commit now path v e)
unfolding commit
commit-IsCovered now path v e c = ground arith

settle-IsCovered :
    (now : ℕ) (rid : Option String) (r : Reply) (e : Editor)
    → IsCovered e
    → IsCovered (settle now rid r e)
unfolding settle
settle-IsCovered now rid (accepted version mode) e c = ground arith
settle-IsCovered now rid version_moved e c = ground arith
settle-IsCovered now rid unreachable e c = ground arith
settle-IsCovered now rid (failed message) e c = ground arith

do_save-IsCovered :
    (mode : Mode) (e : Editor)
    → IsCovered e
    → IsCovered (do_save mode (record e { timer = false })).0
unfolding do_save
do_save-IsCovered mode e c = ground arith

save_if_dirty-IsCovered :
    (dirty : List String) (e : Editor)
    → e.dirty ≡ dirty
    → IsCovered e
    → IsCovered (save_if_dirty dirty (record e { timer = false })).0
unfolding save_if_dirty
save_if_dirty-IsCovered [] e q c = ground arith
save_if_dirty-IsCovered (p ∷ rest) e q c = do_save-IsCovered draft e c

persist_if_dirty-IsCovered :
    (now : ℕ) (dirty : List String) (doc : Value) (e : Editor)
    → IsCovered e
    → IsCovered (persist_if_dirty now dirty doc e)
persist_if_dirty-IsCovered now [] doc e c = c
persist_if_dirty-IsCovered now (p ∷ rest) doc e c = ground arith

commit_deferred-IsCovered :
    (now : ℕ) (path : String) (v : Value) (e : Editor)
    → IsCovered e
    → IsCovered (commit_deferred now path v e)
unfolding commit_deferred
commit_deferred-IsCovered now path v e c = elim (Option-cases e.draft) [
  | inl n ↦ rw (n, commit_deferred) c
  | inr (doc, d) ↦ elim (Bool-cases (object_is (get_at_path (path_of path) doc) v)) [
    | inl p ↦ rw (d, p, commit_deferred) c
    | inr p ↦
        rw (d, p, commit_deferred)
          (persist_if_dirty-IsCovered now e.dirty _ _
            (record { drafted = λ h q. refl; attended = c.attended }))
  ]
]

branch_from_theirs-IsCovered :
    (now : ℕ) (doc : Value) (version : ℕ) (e : Editor)
    → IsCovered (branch_from_theirs now doc version e)
unfolding branch_from_theirs
branch_from_theirs-IsCovered now doc version e =
    persist_if_dirty-IsCovered now e.dirty _ _
      (record { drafted = λ h q. refl; attended = λ h q. refl })

rehydrate-IsCovered :
    (now : ℕ) (o : Option Stash) (e : Editor) → IsCovered e → IsCovered (rehydrate now o e)
unfolding rehydrate
rehydrate-IsCovered now none e c = c
rehydrate-IsCovered now (some s) e c = elim (Bool-cases (ltb draft_ttl_ms (now - s.saved_at))) [
  | inl q ↦ rw (q, rehydrate) (ground arith)
  | inr q ↦
      rw (q, rehydrate)
        (persist_if_dirty-IsCovered now s.dirty s.draft _
          (record { drafted = λ h d. refl; attended = λ h d. refl }))
]

reset_session-IsCovered :
    (now : ℕ) (id : Option String) (base : ℕ) (doc : Option Value) (stash : ℕ → Option Stash)
    (e : Editor)
    → IsCovered (reset_session now id base doc stash e)
unfolding reset_session
reset_session-IsCovered now id base none stash e = record {
  drafted = λ h d. cc;
  attended = λ h d. cc;
}
reset_session-IsCovered now id base (some doc) stash e =
    let clean : IsCovered (reopened id base (some doc) stash e) = record {
      drafted = λ h d. cc;
      attended = λ h d. cc;
    } in
    elim (Bool-cases (has_id id)) [
      | inl q ↦ rw (q, reset_session) (rehydrate-IsCovered now (stash base) _ clean)
      | inr q ↦ rw (q, reset_session) clean
    ]

no_timer : (e : Editor) → e.timer ≡ false → timer_fires e ≡ (e, [])
unfolding timer_fires
no_timer e q = ground arith

handle-IsCovered :
    (now : ℕ) (event : Event) (e : Editor) → IsCovered e → IsCovered (handle now event e).0
unfolding handle timer_fires flush
handle-IsCovered now (edit path v) e c = commit-IsCovered now path v e c
handle-IsCovered now (edit_deferred path v) e c = commit_deferred-IsCovered now path v e c
handle-IsCovered now autosave e c = elim (Bool-cases e.timer) [
  | inl q ↦ rw (q, timer_fires) (save_if_dirty-IsCovered e.dirty e refl c)
  | inr q ↦ subst IsCovered (sym (ap (λ m. m.0) (no_timer e q))) c
]
handle-IsCovered now flushed e c = save_if_dirty-IsCovered e.dirty e refl c
handle-IsCovered now snapshot_asked e c = do_save-IsCovered snapshot e c
handle-IsCovered now (replied rid reply) e c = elim (Bool-cases (ltb 0 e.in_flight)) [
  | inl q ↦ rw (q, handle) (settle-IsCovered now rid reply e c)
  | inr q ↦ rw (q, handle) c
]
handle-IsCovered now discarded e c = ground arith
handle-IsCovered now (adopted doc version) e c = ground arith
handle-IsCovered now (branched doc version) e c = branch_from_theirs-IsCovered now doc version e
handle-IsCovered now (opened id base doc stash) e c =
    reset_session-IsCovered now id base doc stash e

-- After any sequence of events from a session on that is `IsCovered`: if there is a résumé and edits
-- are marked as unsaved, there is a draft, and an autosave is scheduled, a request is under way, a
-- conflict is shown, or the status shows a failure.
pub session-IsCovered :
    (events : List (ℕ × Event)) (e : Editor) → IsCovered e → IsCovered (session events e).0
unfolding session
session-IsCovered [] e c = c
session-IsCovered ((now, event) ∷ rest) e c =
    session-IsCovered rest (handle now event e).0 (handle-IsCovered now event e c)
