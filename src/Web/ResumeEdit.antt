-- ===== src/Web/ResumeEdit.antt =====
-- use-resume-edit.ts: the edit session of one résumé. The hook's state and the refs that mirror it
-- are one record; what the page, the timer and the network do are its events, and the PUT requests
-- that it sends are their output. A render lies between two events, so the refs are up to date.
pub mod Document
pub mod Merge
pub mod Session
pub mod Replies
mod Tests
use apply_agent.Prelude.{
  ℕ, ◌+◌, ◌-◌, String, ◌==◌, Bool, true, false, ◌||◌, Option, none, some, List, [], ◌∷◌, ◌++◌, ltb,
  nat_beq, ℤ, pos, negsuc, if◌then◌else◌, is_empty,
}
use apply_agent.Web.ResumeEdit.Document.{
  Value, undefined, null, bool, num, str, arr, obj, FieldPath, path_of, get_at_path, set_at_path,
  strip_envelope,
}

pub data Mode : Type 0 where
  draft snapshot : Mode

pub data SaveStatus : Type 0 where
  idle : SaveStatus
  pending : (pending_at : ℕ) → SaveStatus
  saving : Mode → SaveStatus
  saved : Mode → (at_ms version : ℕ) → SaveStatus
  offline : SaveStatus
  error : (message : String) → SaveStatus

-- What localStorage holds under `draftStorageKey`.
pub record Stash : Type 0 where
  pub draft : Value
  pub dirty : List String
  pub saved_at : ℕ

-- `update` of the API: the body and the mode of a PUT.
pub record Request : Type 0 where
  pub content : Value
  pub expected_version : ℕ
  pub mode : Mode

-- How a PUT ends: the row that the server returns, a status of 409, a status of 0, or another error.
pub data Reply : Type 0 where
  accepted : (version : ℕ) → Mode → Reply
  version_moved : Reply
  unreachable : Reply
  failed : (message : String) → Reply

-- `resume_id`, `base_version` and `initial_doc` are the props. `timer` is a pending autosave,
-- `in_flight` the number of requests without a reply, `conflict` the attempted version, and `stash`
-- what localStorage holds for this résumé, by version.
pub record Editor : Type 0 where
  pub resume_id : Option String
  pub base_version : ℕ
  pub initial_doc : Option Value
  pub draft : Option Value
  pub dirty : List String
  pub status : SaveStatus
  pub conflict : Option ℕ
  pub version : ℕ
  pub timer : Bool
  pub in_flight : ℕ
  pub stash : ℕ → Option Stash

abbrev Step : Type 0
Step = Editor × List Request

abbrev pub draft_ttl_ms : ℕ
draft_ttl_ms = 86400000

-- `!resumeId` is false.
abbrev pub has_id : Option String → Bool
has_id none = false
has_id (some id) = if is_empty id then false else true

abbrev pub write_stash : ℕ → Option Stash → (ℕ → Option Stash) → ℕ → Option Stash
write_stash version entry stash v = if nat_beq v version then entry else stash v

-- The effect that persists the draft after each change; `removeItem` writes `none`.
abbrev pub persist : ℕ → Value → Editor → Editor
persist now doc e =
    if has_id e.resume_id
    then record e {
      stash =
          write_stash e.base_version
            (some (record { draft = doc; dirty = e.dirty; saved_at = now })) e.stash;
    }
    else e

abbrev pub drop_stash : ℕ → Editor → Editor
drop_stash version e =
    if has_id e.resume_id then record e { stash = write_stash version none e.stash } else e

abbrev persist_if_dirty : ℕ → List String → Value → Editor → Editor
persist_if_dirty now [] doc e = e
persist_if_dirty now (p ∷ rest) doc e = persist now doc e

-- `Object.is` on the values that are compared here; two objects are never the same reference.
abbrev int_beq : ℤ → ℤ → Bool
int_beq (pos m) (pos n) = nat_beq m n
int_beq (negsuc m) (negsuc n) = nat_beq m n
int_beq _ _ = false

abbrev bool_beq : Bool → Bool → Bool
bool_beq true b = b
bool_beq false true = false
bool_beq false false = true

unfoldable pub object_is : Value → Value → Bool
object_is undefined undefined = true
object_is null null = true
object_is (bool a) (bool b) = bool_beq a b
object_is (num a) (num b) = int_beq a b
object_is (str a) (str b) = a == b
object_is _ _ = false

abbrev has_path : String → List String → Bool
has_path p [] = false
has_path p (q ∷ rest) = q == p || has_path p rest

-- `dirty.add(path)`
unfoldable pub add_path : String → List String → List String
add_path p dirty = if has_path p dirty then dirty else dirty ++ (p ∷ [])

-- `doSave`, up to the reply
unfoldable pub do_save : Mode → Editor → Step
do_save mode e = elim e.draft [
  | none ↦ (e, [])
  | some doc ↦ elim e.conflict [
    | some attempted ↦ (e, [])
    | none ↦
        if has_id e.resume_id
        then (
          record e { status = saving mode; in_flight = e.in_flight + 1 },
          record { content = strip_envelope doc; expected_version = e.version; mode = mode } ∷ [],
        )
        else (e, [])
  ]
]

same_rid : Option String → Option String → Bool
same_rid (some a) (some b) = a == b
same_rid _ _ = false

-- `doSave`, from the reply on; `rid` is the id of the résumé that the request was for. The stash of
-- another résumé is not among those that the editor has.
unfoldable pub settle : ℕ → (rid : Option String) → Reply → Editor → Editor
unfolding same_rid
settle now rid (accepted version mode) e =
    let done = record e {
      version = version;
      dirty = [];
      status = saved mode now version;
      in_flight = e.in_flight - 1;
    } in
    if same_rid rid e.resume_id then drop_stash e.version done else done
settle now rid version_moved e = record e {
  conflict = some e.version;
  status = error "This résumé moved while you were editing.";
  in_flight = e.in_flight - 1;
}
settle now rid unreachable e = record e { status = offline; in_flight = e.in_flight - 1 }
settle now rid (failed message) e = record e { status = error message; in_flight = e.in_flight - 1 }

-- `scheduleAutosave`
abbrev pub schedule_autosave : ℕ → Editor → Editor
schedule_autosave now e = record e { timer = true; status = pending now }

-- `commit`, where React runs the updater of `setDraft` at once
unfoldable pub commit : ℕ → String → Value → Editor → Editor
commit now path value e = elim e.draft [
  | none ↦ e
  | some doc ↦
      if object_is (get_at_path (path_of path) doc) value
      then e
      else (let next = set_at_path (path_of path) value doc in
          persist now next
            (schedule_autosave now (record e { draft = some next; dirty = add_path path e.dirty })))
]

-- `commit`, where React runs that updater only in the next render, as it may while another update
-- waits: `changed` is then still false when it is read, and `commit` returns there.
unfoldable pub commit_deferred : ℕ → String → Value → Editor → Editor
commit_deferred now path value e = elim e.draft [
  | none ↦ e
  | some doc ↦
      if object_is (get_at_path (path_of path) doc) value
      then e
      else (let next = set_at_path (path_of path) value doc in
          persist_if_dirty now e.dirty next (record e { draft = some next }))
]

save_if_dirty : List String → Editor → Step
save_if_dirty [] e = (e, [])
save_if_dirty (p ∷ rest) e = do_save draft e

-- The callback of the autosave timer
unfoldable pub timer_fires : Editor → Step
unfolding save_if_dirty
timer_fires e = if e.timer then save_if_dirty e.dirty (record e { timer = false }) else (e, [])

-- `flush`, which is also the cleanup on unmount
unfoldable pub flush : Editor → Step
unfolding save_if_dirty
flush e = save_if_dirty e.dirty (record e { timer = false })

-- `saveSnapshot`
abbrev pub save_snapshot : Editor → Step
save_snapshot e = do_save snapshot (record e { timer = false })

-- `discardDraft`
abbrev pub discard_draft : Editor → Editor
discard_draft e =
    drop_stash e.base_version
      (record e { draft = e.initial_doc; dirty = []; status = idle; conflict = none })

-- `adoptTheirs`
abbrev pub adopt_theirs : Value → ℕ → Editor → Editor
adopt_theirs their_doc their_version e = drop_stash e.base_version (record e {
  draft = some their_doc;
  dirty = [];
  version = their_version;
  conflict = none;
  status = idle;
})

-- The loop of `branchFromTheirs`
unfoldable pub reapply : List String → (mine theirs : Value) → Value
reapply [] mine theirs = theirs
reapply (p ∷ paths) mine theirs =
    reapply paths mine (set_at_path (path_of p) (get_at_path (path_of p) mine) theirs)

abbrev merged_with : List String → Option Value → Value → Value
merged_with dirty none theirs = theirs
merged_with dirty (some mine) theirs = reapply dirty mine theirs

-- `branchFromTheirs`
unfoldable pub branch_from_theirs : ℕ → Value → ℕ → Editor → Editor
branch_from_theirs now their_doc their_version e =
    let doc = merged_with e.dirty e.draft their_doc in
    persist_if_dirty now e.dirty doc (
      schedule_autosave now
        (record e { draft = some doc; version = their_version; conflict = none }))

-- The session of new props, before localStorage is read
abbrev reopened : Option String → ℕ → Option Value → (ℕ → Option Stash) → Editor → Editor
reopened resume_id base_version initial_doc stash e = record e {
  resume_id = resume_id;
  base_version = base_version;
  initial_doc = initial_doc;
  draft = initial_doc;
  dirty = [];
  status = idle;
  conflict = none;
  version = base_version;
  stash = stash;
}

rehydrate : ℕ → Option Stash → Editor → Editor
rehydrate now none e = e
rehydrate now (some s) e =
    if ltb draft_ttl_ms (now - s.saved_at)
    then drop_stash e.base_version e
    else persist_if_dirty now s.dirty s.draft (record e {
      draft = some s.draft;
      dirty = s.dirty;
      status = pending s.saved_at;
      timer = true;
    })

-- The effect that runs when the props name another row or version; `stash` is localStorage for it.
unfoldable pub reset_session :
    ℕ → Option String → ℕ → Option Value → (ℕ → Option Stash) → Editor → Editor
unfolding rehydrate
reset_session now resume_id base_version initial_doc stash e =
    let fresh = reopened resume_id base_version initial_doc stash e in
    elim initial_doc [
      | none ↦ fresh
      | some doc ↦ if has_id resume_id then rehydrate now (stash base_version) fresh else fresh
    ]

pub data Event : Type 0 where
  edit : (path : String) → Value → Event
  edit_deferred : (path : String) → Value → Event
  autosave : Event
  flushed : Event
  snapshot_asked : Event
  replied : (rid : Option String) → Reply → Event
  discarded : Event
  adopted : (their_doc : Value) → (their_version : ℕ) → Event
  branched : (their_doc : Value) → (their_version : ℕ) → Event
  opened :
      (resume_id : Option String)
      → (base_version : ℕ) → (initial_doc : Option Value) → (stash : ℕ → Option Stash) → Event

-- A reply comes only to a request that has none yet, which may be one for an earlier résumé.
unfoldable pub handle : ℕ → Event → Editor → Step
handle now (edit path value) e = (commit now path value e, [])
handle now (edit_deferred path value) e = (commit_deferred now path value e, [])
handle now autosave e = timer_fires e
handle now flushed e = flush e
handle now snapshot_asked e = save_snapshot e
handle now (replied rid reply) e =
    if ltb 0 e.in_flight then (settle now rid reply e, []) else (e, [])
handle now discarded e = (discard_draft e, [])
handle now (adopted their_doc their_version) e = (adopt_theirs their_doc their_version e, [])
handle now (branched their_doc their_version) e =
    (branch_from_theirs now their_doc their_version e, [])
handle now (opened resume_id base_version initial_doc stash) e =
    (reset_session now resume_id base_version initial_doc stash e, [])

-- The session after a sequence of events, each with the clock's reading, and all that it sent.
unfoldable pub session : List (ℕ × Event) → Editor → Step
session [] e = (e, [])
session ((now, event) ∷ rest) e =
    let (e1, sent) = handle now event e in let (e2, more) = session rest e1 in (e2, sent ++ more)
