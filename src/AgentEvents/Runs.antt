-- ===== src/AgentEvents/Runs.antt =====
-- How a run ends: interrupts, success and errors.
use text.Mathlib.TextLemmas.{append_cancel_left}
use apply_agent.Prelude.{
  Host, ℕ, String, ◌<>◌, ◌==◌, eq_iff, eq_refl, str_neq, ◌≡◌, ◌≢◌, refl, sym, ◌∙◌, Option, none,
  some, List, [], ◌∷◌, All, true, Bool-cases, Option-cases, inl, inr, ◌⊎◌, arith, subst,
}
use apply_agent.Prelude.Assoc.{lookup, has, lookup-insert}
use apply_agent.AgentEvents.Events.{
  AgentEvent, EventBody, InterruptPayload, success, interrupt, now_ts,
}
use apply_agent.AgentEvents.Steps.{Step, StepKind, StepStatus, failed, HitlPart}
use apply_agent.AgentEvents.State.{ReducerState, upsert_step, truthy_id, close_step, closed_status}
use apply_agent.AgentEvents.Handlers.{
  hitl_step, add_interrupts, on_run_finished, finish_root, on_run_error,
}
use apply_agent.AgentEvents.Reducer.{apply_body, apply_event}
use apply_agent.AgentEvents.Invariant.{IsWellFormed, IsRooted, Change-IsWellFormed, lookup-IsEntry}
use apply_agent.AgentEvents.Change.Handlers.{on_run_error-Change}

-- `t` shows the interrupt: its step awaits the user, with the interrupt's id and reason.
pub record IsPending (t : ReducerState) (it : InterruptPayload) : Type 0 where
  pub step : Step
  pub part : HitlPart
  pub listed : lookup ("hitl:" <> it.id) t.steps ≡ some step
  pub kind : step.kind ≡ StepKind.hitl
  pub status : step.status ≡ StepStatus.review
  pub shown : step.hitl ≡ some part
  pub same_id : part.interrupt_id ≡ it.id

-- A later interrupt leaves an earlier one pending, also under the same id.
upsert_hitl-IsPending :
    (now : ℕ) (root : Option String) (evt : AgentEvent) (s : ReducerState)
    (new it : InterruptPayload)
    → IsPending s it
    → IsPending (upsert_step s (hitl_step now root evt new)) it
unfolding upsert_step
upsert_hitl-IsPending now root evt s new it p =
    elim (Bool-cases (("hitl:" <> new.id) == ("hitl:" <> it.id))) [
      | inl e ↦ record {
        step = hitl_step now root evt new;
        part = _;
        listed = rw (lookup-insert, e);
        kind = refl;
        status = refl;
        shown = refl;
        same_id = append_cancel_left "hitl:" new.id it.id ((eq_iff _ _).0 e);
      }
      | inr e ↦ record {
        step = p.step;
        part = p.part;
        listed = rw (lookup-insert, e) p.listed;
        kind = p.kind;
        status = p.status;
        shown = p.shown;
        same_id = p.same_id;
      }
    ]

hitl_step-IsPending :
    (now : ℕ) (root : Option String) (evt : AgentEvent) (s : ReducerState) (it : InterruptPayload)
    → IsPending (upsert_step s (hitl_step now root evt it)) it
unfolding upsert_step
hitl_step-IsPending now root evt s it = record {
  step = hitl_step now root evt it;
  part = _;
  listed = rw (lookup-insert, eq_refl ("hitl:" <> it.id));
  kind = refl;
  status = refl;
  shown = refl;
  same_id = refl;
}

module _ (now : ℕ) (root : Option String) (evt : AgentEvent) where
  add_interrupts_keep :
      (s : ReducerState) (its : List InterruptPayload) (it : InterruptPayload)
      → IsPending s it
      → IsPending (add_interrupts now root evt s its) it
  unfolding add_interrupts
  add_interrupts_keep s [] it p = p
  add_interrupts_keep s (new ∷ its) it p =
      add_interrupts_keep (upsert_step s (hitl_step now root evt new)) its it
        (upsert_hitl-IsPending now root evt s new it p)

  add_interrupts-IsPending :
      (s : ReducerState) (its : List InterruptPayload)
      → All (IsPending (add_interrupts now root evt s its)) its
  unfolding add_interrupts
  add_interrupts-IsPending s [] = tt
  add_interrupts-IsPending s (it ∷ its) = (
    add_interrupts_keep (upsert_step s (hitl_step now root evt it)) its it
        (hitl_step-IsPending now root evt s it),
    add_interrupts-IsPending (upsert_step s (hitl_step now root evt it)) its,
  )

  add_interrupts-lookup :
      (s : ReducerState) (its : List InterruptPayload) (k : String)
      → All (λ it. "hitl:" <> it.id ≢ k) its
      → lookup k (add_interrupts now root evt s its).steps ≡ lookup k s.steps
  unfolding add_interrupts upsert_step
  add_interrupts-lookup s [] k h = refl
  add_interrupts-lookup s (it ∷ its) k (ne, h) =
      add_interrupts-lookup (upsert_step s (hitl_step now root evt it)) its k h
      ∙ rw (lookup-insert, str_neq ("hitl:" <> it.id) k ne)

-- A run that ends in interrupts leaves every one of them pending, and no other step changes: the
-- root in particular keeps its status, unless an interrupt has the root's own id.
pub interrupted_run :
    (host : Host) (now : ℕ) (s : ReducerState) (evt : AgentEvent) (thread run : String)
    (its : List InterruptPayload)
    → evt.body ≡ EventBody.run_finished thread run (some (interrupt its))
    → All (IsPending (apply_event host now s evt)) its
      × ((k : String)
          → All (λ it. "hitl:" <> it.id ≢ k) its
          → lookup k (apply_event host now s evt).steps ≡ lookup k s.steps)
unfolding apply_event apply_body on_run_finished
interrupted_run host now s evt thread run its e =
    subst
      (λ b.
        All (IsPending (apply_body host now s evt b)) its
        × ((k : String)
            → All (λ it. "hitl:" <> it.id ≢ k) its
            → lookup k (apply_body host now s evt b).steps ≡ lookup k s.steps))
      (sym e)
      (
        add_interrupts-IsPending now s.root_step_id evt s its,
        add_interrupts-lookup now s.root_step_id evt s its,
      )

abbrev step_status : Option Step → Option StepStatus
step_status none = none
step_status (some st) = some st.status

-- The status of the step with the id `k`.
abbrev pub status_of : String → ReducerState → Option StepStatus
status_of k s = step_status (lookup k s.steps)

closed_failed : (st : Step) → st.status ≡ failed → closed_status st.status ≡ failed
closed_failed st e = rw e

close_step-failed :
    (s : ReducerState) (k : String) (t : ℕ) (evt : AgentEvent)
    → IsWellFormed s
    → status_of k s ≡ some failed
    → status_of k (close_step s k t evt) ≡ some failed
unfolding close_step upsert_step
close_step-failed s k t evt w h = elim (Option-cases (lookup k s.steps)) [
  | inl e ↦ absurd (cc (rw e at h))
  | inr (st, e) ↦
      let at_key : st.id ≡ k = (lookup-IsEntry s k w e).0 in
      let broken : st.status ≡ failed = cc (rw e at h) in
      rw (e, close_step, lookup-insert, at_key, eq_refl, broken)
]

eq-some_of_truthy_id : (o : Option String) {id : String} → truthy_id o ≡ some id → o ≡ some id
unfolding truthy_id
eq-some_of_truthy_id none e = cc
eq-some_of_truthy_id (some id) e = ground arith

-- The root of a well-formed state is a step.
root-lookup :
    (s : ReducerState) {root : String}
    → IsWellFormed s
    → truthy_id s.root_step_id ≡ some root
    → (st : Step) × (lookup root s.steps ≡ some st)
root-lookup s {root} w e =
    let rooted : has root s.steps ≡ true =
      subst (λ o. IsRooted o s.steps) (eq-some_of_truthy_id s.root_step_id e) w.rooted in
    elim (Option-cases (lookup root s.steps)) [
      | inl gone ↦ absurd (cc (rw gone at rooted))
      | inr found ↦ found
    ]

on_run_error-failed :
    (now : ℕ) (s : ReducerState) (evt : AgentEvent) (root : String)
    → IsWellFormed s
    → truthy_id s.root_step_id ≡ some root
    → (status_of root (on_run_error now s evt) ≡ some failed)
      × ((on_run_error now s evt).root_step_id ≡ s.root_step_id)
unfolding on_run_error upsert_step
on_run_error-failed now s evt root w e =
    let (st, found) = root-lookup s w e in
    let at_key : st.id ≡ root = (lookup-IsEntry s root w found).0 in
    (rw (e, found, on_run_error, lookup-insert, at_key, eq_refl), rw (e, found, on_run_error))

finish_root-failed :
    (now : ℕ) (s : ReducerState) (evt : AgentEvent) (root : String)
    → IsWellFormed s
    → truthy_id s.root_step_id ≡ some root
    → status_of root s ≡ some failed
    → status_of root (finish_root now s evt) ≡ some failed
unfolding finish_root
finish_root-failed now s evt root w e h =
    rw (e, finish_root) (close_step-failed s root (now_ts now evt) evt w h)

-- A run that has failed stays failed: after RUN_ERROR, a RUN_FINISHED with no outcome or with the
-- outcome `success` does not turn the root into a finished one.
pub failed_run_stays :
    (host : Host) (now later : ℕ) (s : ReducerState) (err fin : AgentEvent)
    (root msg thread run : String) (error_code : Option String)
    → IsWellFormed s
    → truthy_id s.root_step_id ≡ some root
    → err.body ≡ EventBody.run_error msg error_code
    → fin.body ≡ EventBody.run_finished thread run (some success)
      ⊎ fin.body ≡ EventBody.run_finished thread run none
    → status_of root (apply_event host later (apply_event host now s err) fin) ≡ some failed
unfolding apply_event apply_body on_run_finished
failed_run_stays host now later s err fin root msg thread run error_code w e be bf =
    let t = on_run_error now s err in
    let (broken, same_root) = on_run_error-failed now s err root w e in
    let wt : IsWellFormed t =
      Change-IsWellFormed (on_run_error-Change (λ id. Unit {0}) s now err) w in
    let et : truthy_id t.root_step_id ≡ some root = rw same_root e in
    let closed = finish_root-failed later t fin root wt et broken in
    subst
      (λ b.
        status_of root (apply_body host later (apply_body host now s err b) fin fin.body)
        ≡ some failed)
      (sym be)
      (elim bf [
        | inl f ↦
            subst (λ b. status_of root (apply_body host later t fin b) ≡ some failed) (sym f) closed
        | inr f ↦
            subst (λ b. status_of root (apply_body host later t fin b) ≡ some failed) (sym f) closed
      ])
