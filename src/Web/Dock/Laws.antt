-- ===== src/Web/Dock/Laws.antt =====
-- What holds of the dock after any events.
use apply_agent.Prelude.{
  ℕ, ◌≤◌, String, ◌<>◌, ◌==◌, ◌≡◌, ◌≢◌, refl, sym, subst, Bool, true, false, Option, none, some,
  List, [], ◌∷◌, ◌++◌, ℤ, pos, negsuc, arith, map, inl, inr, Bool-cases, Option-cases, neq_of_test,
  is_empty,
}
use apply_agent.Prelude.Assoc.{IsFresh, IsDistinct}
use apply_agent.Web.Dock.{
  DockState, closed, docked, full, DockAttachment, DockSession, Dock, Shell, initial_dock,
  clamp_width, read_persisted_width, width_from, finite_width, show, cancel_dock_stream, open_dock,
  close_dock, toggle_full, toggle_dock, set_width, without, remove_session, Setting, apply_setting,
  reset_dock, sign_out_dock, present, boot_dock_thread, booted, boot_user, boot_anonymous,
  boot_stored, same_id, widened, dock_toggled, hydrate_dock, apply_viewport,
}
use apply_agent.Web.Dock.Events.{
  Use, opens, closes, toggles_full, toggles_dock, sets_width, sets, attaches, detaches, streams,
  cancels, asks, boots, hydrates, turns, Event, use_of, loads_sessions, upserts, removes, signs_out,
  after_use, after_event, after_events,
}

-- The width can be shown, and neither an attachment nor a session is listed twice.
pub record IsSound (d : Dock) : Type 0 where
  pub wide_enough : 280 ≤ d.width
  pub narrow_enough : d.width ≤ 560
  pub attached_once : IsDistinct (map (λ a. a.id) d.attachments)
  pub listed_once : IsDistinct (map (λ r. r.id) d.sessions)

clamp_width-bounds : (px : ℤ) → (280 ≤ clamp_width px) × (clamp_width px ≤ 560)
unfolding clamp_width
clamp_width-bounds (pos n) = (omega arith, omega arith)
clamp_width-bounds (negsuc n) = (omega arith, omega arith)

module _ {A : Type 0} (id_of : A → String) where
  IsFresh-without :
      (id other : String) (xs : List A)
      → IsFresh other (map id_of xs)
      → IsFresh other (map id_of (without id_of id xs))
  unfolding without
  IsFresh-without id other [] h = tt
  IsFresh-without id other (x ∷ xs) h = ground (arith, IsFresh-without id other xs)

  IsDistinct-without :
      (id : String) (xs : List A)
      → IsDistinct (map id_of xs)
      → IsDistinct (map id_of (without id_of id xs))
  unfolding without
  IsDistinct-without id [] h = tt
  IsDistinct-without id (x ∷ xs) h = elim (Bool-cases (id_of x == id)) [
    | inl e ↦ rw e (IsDistinct-without id xs h.1)
    | inr e ↦ rw e (IsFresh-without id (id_of x) xs h.0, IsDistinct-without id xs h.1)
  ]

  -- What is filtered out is not there.
  IsFresh-own : (id : String) (xs : List A) → IsFresh id (map id_of (without id_of id xs))
  unfolding without
  IsFresh-own id [] = tt
  IsFresh-own id (x ∷ xs) = elim (Bool-cases (id_of x == id)) [
    | inl e ↦ rw e (IsFresh-own id xs)
    | inr e ↦ rw e (neq_of_test (id_of x) id e, IsFresh-own id xs)
  ]

  IsFresh-snoc :
      (x : A) (id : String) (xs : List A)
      → IsFresh id (map id_of xs)
      → id_of x ≢ id
      → IsFresh id (map id_of (xs ++ (x ∷ [])))
  IsFresh-snoc x id [] h ne = (ne, tt)
  IsFresh-snoc x id (y ∷ xs) h ne = (h.0, IsFresh-snoc x id xs h.1 ne)

  IsDistinct-snoc :
      (x : A) (xs : List A)
      → IsFresh (id_of x) (map id_of xs)
      → IsDistinct (map id_of xs)
      → IsDistinct (map id_of (xs ++ (x ∷ [])))
  IsDistinct-snoc x [] f h = (tt, tt)
  IsDistinct-snoc x (y ∷ xs) f h =
      (IsFresh-snoc x (id_of y) xs h.0 (λ e. f.0 (sym e)), IsDistinct-snoc x xs f.1 h.1)

pub initial_dock-IsSound : IsSound initial_dock
initial_dock-IsSound = record {
  wide_enough = omega arith;
  narrow_enough = omega arith;
  attached_once = tt;
  listed_once = tt;
}

-- The parts that the invariant is about
abbrev pub frame : Dock → ℕ × List DockAttachment × List DockSession
frame d = (d.width, d.attachments, d.sessions)

IsSound-frame : {d e : Dock} → frame d ≡ frame e → IsSound d → IsSound e
IsSound-frame {d = d} {e = e} same h = record {
  wide_enough = subst (λ f. 280 ≤ f.0) same h.wide_enough;
  narrow_enough = subst (λ f. f.0 ≤ 560) same h.narrow_enough;
  attached_once = subst (λ f. IsDistinct (map (λ a. a.id) f.1)) same h.attached_once;
  listed_once = subst (λ f. IsDistinct (map (λ r. r.id) f.2)) same h.listed_once;
}

pub frame-cancel : (s : Shell) → frame s.dock ≡ frame (cancel_dock_stream s).dock
unfolding cancel_dock_stream
frame-cancel s = elim (Option-cases s.dock.abort_controller) [
  | inl e ↦ rw e refl
  | inr (c, e) ↦ rw e refl
]

pub frame-dock_toggled :
    (narrow : Bool) (state : DockState) (s : Shell)
    → frame s.dock ≡ frame (dock_toggled narrow state s).dock
unfolding dock_toggled close_dock
frame-dock_toggled narrow closed s = refl
frame-dock_toggled narrow docked s = frame-cancel (show closed s)
frame-dock_toggled narrow full s = frame-cancel (show closed s)

pub frame-widened : (state : DockState) (s : Shell) → frame s.dock ≡ frame (widened state s).dock
unfolding widened
frame-widened closed s = refl
frame-widened docked s = refl
frame-widened full s = refl

frame-boot_stored :
    (fresh : String) (stored : Option String) (s : Shell)
    → frame s.dock ≡ frame (boot_stored fresh stored s).dock
unfolding boot_stored
frame-boot_stored fresh none s = refl
frame-boot_stored fresh (some t) s = refl

frame-boot_anonymous :
    (fresh : String) (thread : Option String) (s : Shell)
    → frame s.dock ≡ frame (boot_anonymous fresh thread s).dock
unfolding boot_anonymous
frame-boot_anonymous fresh none s = frame-boot_stored fresh (present s.storage.thread_item) s
frame-boot_anonymous fresh (some t) s = refl

frame-boot_user : (id : String) (s : Shell) → frame s.dock ≡ frame (boot_user id s).dock
unfolding boot_user
frame-boot_user id s = elim (Bool-cases (same_id s.dock.thread_id id)) [
  | inl e ↦ rw e refl
  | inr e ↦ rw e refl
]

pub frame-booted :
    (fresh : String) (user : Option String) (s : Shell)
    → frame s.dock ≡ frame (booted fresh user s).dock
unfolding booted
frame-booted fresh (some u) s = frame-boot_user ("ask_vantage:" <> u) s
frame-booted fresh none s = frame-boot_anonymous fresh (present s.dock.thread_id) s

reattached-IsSound :
    (d : Dock) (atts : List DockAttachment)
    → IsDistinct (map (λ a. a.id) atts)
    → IsSound d
    → IsSound (record d { attachments = atts })
reattached-IsSound d atts once h = record {
  wide_enough = h.wide_enough;
  narrow_enough = h.narrow_enough;
  attached_once = once;
  listed_once = h.listed_once;
}

relisted-IsSound :
    (d : Dock) (rows : List DockSession)
    → IsDistinct (map (λ r. r.id) rows)
    → IsSound d
    → IsSound (record d { sessions = rows })
relisted-IsSound d rows once h = record {
  wide_enough = h.wide_enough;
  narrow_enough = h.narrow_enough;
  attached_once = h.attached_once;
  listed_once = once;
}

apply_setting-IsSound : (v : Setting) (d : Dock) → IsSound d → IsSound (apply_setting v d)
unfolding apply_setting
apply_setting-IsSound (Setting.hinted_collapse v) d h = IsSound-frame refl h
apply_setting-IsSound (Setting.input v) d h = IsSound-frame refl h
apply_setting-IsSound (Setting.thread_id v) d h = IsSound-frame refl h
apply_setting-IsSound (Setting.mode v) d h = IsSound-frame refl h
apply_setting-IsSound (Setting.streaming v) d h = IsSound-frame refl h
apply_setting-IsSound (Setting.recent_anchors v) d h = IsSound-frame refl h
apply_setting-IsSound (Setting.active_session v) d h = IsSound-frame refl h
apply_setting-IsSound Setting.no_attachments d h = reattached-IsSound d [] tt h

width_from-bounds :
    (to_number : String → Option ℤ) (raw : Option String)
    → (280 ≤ width_from to_number raw) × (width_from to_number raw ≤ 560)
unfolding width_from finite_width
width_from-bounds to_number none = (omega arith, omega arith)
width_from-bounds to_number (some raw) = elim (Bool-cases (is_empty raw)) [
  | inl e ↦ rw e (omega arith, omega arith)
  | inr e ↦ elim (Option-cases (to_number raw)) [
    | inl d ↦ rw (e, d) (omega arith, omega arith)
    | inr (n, d) ↦ rw (e, d) (clamp_width-bounds n)
  ]
]

resized-IsSound :
    (d : Dock) (w : ℕ) → (280 ≤ w) × (w ≤ 560) → IsSound d → IsSound (record d { width = w })
resized-IsSound d w (a, b) h = record {
  wide_enough = a;
  narrow_enough = b;
  attached_once = h.attached_once;
  listed_once = h.listed_once;
}

module _ (to_number : String → Option ℤ) where
  after_use-IsSound :
      (u : Use) (s : Shell) → IsSound s.dock → IsSound (after_use to_number u s).dock
  unfolding after_use open_dock toggle_full set_width hydrate_dock read_persisted_width toggle_dock
      boot_dock_thread apply_viewport close_dock
  after_use-IsSound (opens narrow) s h = IsSound-frame refl h
  after_use-IsSound closes s h = IsSound-frame (frame-cancel (show closed s)) h
  after_use-IsSound (toggles_full narrow) s h = IsSound-frame refl h
  after_use-IsSound (toggles_dock narrow) s h =
      IsSound-frame (frame-dock_toggled narrow s.dock.state s) h
  after_use-IsSound (sets_width px) s h =
      resized-IsSound s.dock (clamp_width px) (clamp_width-bounds px) h
  after_use-IsSound (sets v) s h = apply_setting-IsSound v s.dock h
  after_use-IsSound (attaches a) s h =
      reattached-IsSound s.dock _
        (IsDistinct-snoc (λ x. x.id) a (without (λ x. x.id) a.id s.dock.attachments)
          (IsFresh-own (λ x. x.id) a.id s.dock.attachments)
          (IsDistinct-without (λ x. x.id) a.id s.dock.attachments h.attached_once))
        h
  after_use-IsSound (detaches id) s h =
      reattached-IsSound s.dock _
        (IsDistinct-without (λ x. x.id) id s.dock.attachments h.attached_once) h
  after_use-IsSound (streams c) s h = IsSound-frame refl h
  after_use-IsSound cancels s h = IsSound-frame (frame-cancel s) h
  after_use-IsSound (asks a) s h = IsSound-frame refl h
  after_use-IsSound (boots fresh user_id) s h =
      IsSound-frame (frame-booted fresh (present user_id) s) h
  after_use-IsSound (hydrates narrow) s h =
      IsSound-frame refl
        (resized-IsSound s.dock _ (width_from-bounds to_number s.storage.width_item) h)
  after_use-IsSound (turns true) s h = IsSound-frame refl h
  after_use-IsSound (turns false) s h = IsSound-frame (frame-widened s.dock.state s) h

  after_event-IsSound :
      (e : Event) (s : Shell) → IsSound s.dock → IsSound (after_event to_number e s).dock
  unfolding after_event remove_session sign_out_dock reset_dock
  after_event-IsSound (use_of u) s h = after_use-IsSound u s h
  after_event-IsSound (loads_sessions rows distinct) s h = relisted-IsSound s.dock rows distinct h
  after_event-IsSound (upserts row) s h =
      relisted-IsSound s.dock _
        (
          IsFresh-own (λ x. x.id) row.id s.dock.sessions,
          IsDistinct-without (λ x. x.id) row.id s.dock.sessions h.listed_once,
        )
        h
  after_event-IsSound (removes id) s h = IsSound-frame refl (
      relisted-IsSound s.dock _ (IsDistinct-without (λ x. x.id) id s.dock.sessions h.listed_once) h)
  after_event-IsSound signs_out s h = IsSound-frame refl (reattached-IsSound s.dock [] tt h)

  -- Whatever happens to the dock from a state that is sound on, such as that of a new page: its width
  -- stays between 280 and 560 pixels, and neither an attachment nor a session is listed twice. The
  -- rows that are loaded have distinct ids.
  pub after_events-IsSound :
      (es : List Event) (s : Shell) → IsSound s.dock → IsSound (after_events to_number es s).dock
  unfolding after_events
  after_events-IsSound [] s h = h
  after_events-IsSound (e ∷ es) s h =
      after_events-IsSound es (after_event to_number e s) (after_event-IsSound e s h)
