-- ===== src/Web/Vantage/Applications/Laws.antt =====
-- What an optimistic patch shows, and what its refusal brings back.
use apply_agent.Prelude.{
  ℕ, ◌<◌, String, ◌==◌, false, Option, none, some, List, [], ◌∷◌, map, nat_beq, ◌≡◌, ◌≢◌, refl, sym,
  ap, ◌∙◌, Bool-cases, Option-cases, inl, inr, arith, eq_iff, if◌then◌else◌, map_option,
}
use apply_agent.Web.Vantage.Applications.{
  Application, Patch, apply_patch, find_application, replace_application, Pending, Tracker,
  patch_error, patch_application, find_pending, without, update_error, patch_accepted,
  patch_refused, load_applications, Listing, applications_loaded,
}

abbrev pub ids : List Application → List String
ids rows = map (λ a. a.id) rows

find-replace :
    (id other : String) (row : Application) (rows : List Application)
    → row.id ≡ id
    → find_application other (replace_application id row rows) ≡ (
        if id == other
        then map_option (λ _. row) (find_application id rows)
        else find_application other rows)
unfolding find_application replace_application
find-replace id other row [] e = ground arith
find-replace id other row (a ∷ rows) e = ground (
  arith,
  find-replace id other row rows e,
  eq_iff a.id id,
  eq_iff a.id other,
  eq_iff id other,
  eq_iff row.id other,
)

ids-replace :
    (id : String) (row : Application) (rows : List Application)
    → row.id ≡ id
    → ids (replace_application id row rows) ≡ ids rows
unfolding replace_application
ids-replace id row [] e = refl
ids-replace id row (a ∷ rows) e = ground (arith, ids-replace id row rows e, eq_iff a.id id)

find-id :
    (id : String) (rows : List Application) {a : Application}
    → find_application id rows ≡ some a
    → a.id ≡ id
unfolding find_application
find-id id [] e = cc
find-id id (b ∷ rows) {a} e = elim (Bool-cases (b.id == id)) [
  | inl same ↦
      let found : b ≡ a = ground arith in ap (λ c. c.id) (sym found) ∙ (eq_iff b.id id).0 same
  | inr other ↦ find-id id rows (rw (other, find_application) at e)
]

-- What happens to the tracker.
pub data Event : Type 0 where
  patches : (id : String) → Patch → Event
  accepts : (ticket : ℕ) → Event
  refuses : (ticket : ℕ) → Option String → Event
  loads : Event
  loaded : Option Listing → Event

unfoldable pub step : Event → Tracker → Tracker
step (patches id patch) s = (patch_application id patch s).0
step (accepts ticket) s = (patch_accepted ticket s).0
step (refuses ticket message) s = (patch_refused ticket message s).0
step loads s = load_applications s
step (loaded listing) s = applications_loaded listing s

unfoldable pub steps : List Event → Tracker → Tracker
steps [] s = s
steps (e ∷ es) s = steps es (step e s)

-- No event of the list settles the call with this ticket.
abbrev pub Spares : ℕ → Event → Type 0
Spares t (accepts u) = u ≢ t
Spares t (refuses u message) = u ≢ t
Spares t e = Unit

abbrev pub IsOpen : ℕ → List Event → Type 0
IsOpen t [] = Unit
IsOpen t (e ∷ es) = Spares t e × IsOpen t es

find-without :
    (t u : ℕ) (ps : List Pending) → u ≢ t → find_pending t (without u ps) ≡ find_pending t ps
unfolding find_pending without
find-without t u [] ne = refl
find-without t u (p ∷ ps) ne = ground (arith, find-without t u ps ne)

record Waits (t : ℕ) (rows : List Application) (s : Tracker) : Type 0 where
  issued : t < s.next_ticket
  kept : map_option (λ p. p.before) (find_pending t s.pending) ≡ some rows

Waits-patch :
    (t : ℕ) (rows : List Application) (id : String) (patch : Patch) (s : Tracker)
    → Waits t rows s
    → Waits t rows (patch_application id patch s).0
unfolding patch_application find_pending
Waits-patch t rows id patch s w = elim (Option-cases (find_application id s.api_applications)) [
  | inl e ↦ rw (e, patch_application) w
  | inr (target, e) ↦
      let other : nat_beq s.next_ticket t ≡ false = ground (arith, w.issued) in
      rw (e, patch_application)
        (record { issued = omega (arith, w.issued); kept = rw (other, find_pending) w.kept })
]

Waits-settled :
    (t u : ℕ) (rows : List Application) (s : Tracker) (shown : List Application)
    → u ≢ t
    → Waits t rows s
    → Waits t rows (record s { api_applications = shown; pending = without u s.pending })
Waits-settled t u rows s shown ne w = record {
  issued = w.issued;
  kept = rw (find-without t u s.pending ne) w.kept;
}

Waits-step :
    (t : ℕ) (rows : List Application) (e : Event) (s : Tracker)
    → Spares t e
    → Waits t rows s
    → Waits t rows (step e s)
unfolding step patch_accepted patch_refused load_applications applications_loaded
Waits-step t rows (patches id patch) s o w = Waits-patch t rows id patch s w
Waits-step t rows (accepts u) s o w = elim (Option-cases (find_pending u s.pending)) [
  | inl e ↦ rw (e, step, patch_accepted) w
  | inr (p, e) ↦ rw (e, step, patch_accepted) (Waits-settled t u rows s s.api_applications o w)
]
Waits-step t rows (refuses u message) s o w = elim (Option-cases (find_pending u s.pending)) [
  | inl e ↦ rw (e, step, patch_refused) w
  | inr (p, e) ↦ rw (e, step, patch_refused) (Waits-settled t u rows s p.before o w)
]
Waits-step t rows loads s o w = record { issued = w.issued; kept = w.kept }
Waits-step t rows (loaded none) s o w = record { issued = w.issued; kept = w.kept }
Waits-step t rows (loaded (some l)) s o w = record { issued = w.issued; kept = w.kept }

Waits-steps :
    (t : ℕ) (rows : List Application) (es : List Event) (s : Tracker)
    → IsOpen t es
    → Waits t rows s
    → Waits t rows (steps es s)
unfolding steps
Waits-steps t rows [] s o w = w
Waits-steps t rows (e ∷ es) s o w =
    Waits-steps t rows es (step e s) o.1 (Waits-step t rows e s o.0 w)

-- A patch of a row that is shown: the row is shown with it, no other row changes, and the order of
-- the rows stays.
pub patch_application_lem :
    (id other : String) (patch : Patch) (s : Tracker) {target : Application}
    → find_application id s.api_applications ≡ some target
    → (let after = (patch_application id patch s).0.api_applications in
        (find_application other after ≡ (
          if id == other
          then some (apply_patch patch target)
          else find_application other s.api_applications))
        × (ids after ≡ ids s.api_applications))
unfolding patch_application apply_patch
patch_application_lem id other patch s {target} e =
    let row = apply_patch patch target in
    let same : row.id ≡ id = find-id id s.api_applications e in
    rw (e, patch_application)
      (
        find-replace id other row s.api_applications same ∙ rw e,
        ids-replace id row s.api_applications same,
      )

-- A patch that is refused brings back the rows as they were shown when it was made, whatever has
-- happened since: other patches, accepted or refused, and lists that were loaded.
pub refused_patch_restores :
    (id : String) (patch : Patch) (message : Option String) (es : List Event) (s : Tracker)
    {target : Application}
    → find_application id s.api_applications ≡ some target
    → IsOpen s.next_ticket es
    → (let (after, result) =
          patch_refused s.next_ticket message (steps es (patch_application id patch s).0) in
        (after.api_applications ≡ s.api_applications)
        × (result ≡ patch_error (update_error message)))
unfolding patch_refused find_pending patch_application
refused_patch_restores id patch message es s {target} e open_call =
    let s1 = (patch_application id patch s).0 in
    let w : Waits s.next_ticket s.api_applications s1 =
      rw (e, patch_application) (record { issued = omega arith; kept = ground arith }) in
    let w2 = Waits-steps s.next_ticket s.api_applications es s1 open_call w in
    elim (Option-cases (find_pending s.next_ticket (steps es s1).pending)) [
      | inl f ↦ absurd (ground (arith, w2.kept))
      | inr (p, f) ↦ rw (f, patch_refused) (ground (arith, w2.kept), refl)
    ]
