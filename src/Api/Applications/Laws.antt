-- ===== src/Api/Applications/Laws.antt =====
-- What the database makes of the UPDATE, and what a derived next action says of the row.
use mathlib.Core.List.{append-nil, append_assoc}
use apply_agent.Prelude.{
  ℕ, zero, suc, ◌+◌, ◌*◌, ◌≤◌, ◌<◌, String, ◌==◌, true, false, Option, none, some, List, [], ◌∷◌,
  ◌++◌, map, length, length-append, ◌≡◌, refl, sym, subst, ◌∙◌, Bool-cases, inl, inr, arith,
  if◌then◌else◌, or_else, get_or_else, Host,
}
use apply_agent.Api.Applications.{
  UpdateApplication, Update, assign, submitted_now, channel_if_unset, Builder, first_builder, push,
  push_if, is_submitted, push_submission, status_value, answers_value, patch_builder,
  update_statement, ApplicationRow, NextAction, DerivedPair, day_ms, is_closed, is_imminent, is_old,
  derive_next_action, follow_up, close_loop, prep, submit, by_status, by_submission, by_interview,
}

-- What the database does for an element of the SET clause, with the value that its number names
pub data Effect : Type 0 where
  sets : (column : String) → (value : Option String) → Effect
  submits : Effect
  sets_channel : (value : Option String) → Effect

-- `$n` is the n-th parameter, from 1.
unfoldable pub param_at : ℕ → List String → Option String
param_at n [] = none
param_at zero (p ∷ ps) = none
param_at (suc zero) (p ∷ ps) = some p
param_at (suc (suc n)) (p ∷ ps) = param_at (suc n) ps

unfoldable pub effect_of : List String → Update → Effect
effect_of params (assign column n) = sets column (param_at n params)
effect_of params submitted_now = submits
effect_of params (channel_if_unset n) = sets_channel (param_at n params)

param-last :
    (ps : List String) (p : String) (qs : List String)
    → param_at (suc (length ps)) (ps ++ (p ∷ qs)) ≡ some p
unfolding param_at
param-last [] p qs = refl
param-last (q ∷ ps) p qs = param-last ps p qs

param-second :
    (ps : List String) (p q : String)
    → param_at (suc (suc (length ps))) (ps ++ (p ∷ q ∷ [])) ≡ some q
unfolding param_at
param-second [] p q = refl
param-second (o ∷ ps) p q = param-second ps p q

-- The numbers stay right whatever parameters come after those that are there.
record IsBuilt (b : Builder) (effects : List Effect) : Type 0 where
  next : b.idx ≡ suc (length b.params)
  right : (later : List String) → map (effect_of (b.params ++ later)) b.updates ≡ effects

map-snoc :
    {A B : Type 0} (f : A → B) (xs : List A) (y : A)
    → map f (xs ++ (y ∷ [])) ≡ map f xs ++ (f y ∷ [])
map-snoc f [] y = refl
map-snoc f (x ∷ xs) y = rw (map-snoc f xs y)

IsBuilt-push :
    (update : ℕ → Update) (effect : Option String → Effect) (value : String) (b : Builder)
    (effects : List Effect)
    → ((params : List String) (n : ℕ) → effect_of params (update n) ≡ effect (param_at n params))
    → IsBuilt b effects
    → IsBuilt (push update value b) (effects ++ (effect (some value) ∷ []))
unfolding push
IsBuilt-push update effect value b effects does w = record {
  next = omega (arith, w.next, length-append b.params (value ∷ []));
  right = λ later.
      map-snoc (effect_of ((b.params ++ (value ∷ [])) ++ later)) b.updates (update b.idx)
      ∙ rw (
        append_assoc b.params (value ∷ []) later,
        does (b.params ++ (value ∷ later)) b.idx,
        w.next,
        param-last b.params value later,
        w.right (value ∷ later),
      );
}

-- What a field that is there does
abbrev field_effect : String → Option String → List Effect
field_effect column none = []
field_effect column (some value) = sets column (some value) ∷ []

IsBuilt-push_if :
    (column : String) (value : Option String) (b : Builder) (effects : List Effect)
    → IsBuilt b effects
    → IsBuilt (push_if column value b) (effects ++ field_effect column value)
unfolding push_if effect_of
IsBuilt-push_if column none b effects w = record {
  next = w.next;
  right = λ later. w.right later ∙ sym (append-nil effects);
}
IsBuilt-push_if column (some value) b effects w =
    IsBuilt-push (assign column) (sets column) value b effects (λ params n. refl) w

-- The submission stamps the time and the channel, unless they are set.
abbrev submission_effects : UpdateApplication → List Effect
submission_effects body =
    if is_submitted body.status
    then submits
      ∷ sets_channel (some (or_else (get_or_else body.submitted_via "") "client_extension"))
      ∷ []
    else []

IsBuilt-submission :
    (body : UpdateApplication) (b : Builder) (effects : List Effect)
    → IsBuilt b effects
    → IsBuilt (push_submission body b) (effects ++ submission_effects body)
unfolding push_submission effect_of
IsBuilt-submission body b effects w =
    let channel = or_else (get_or_else body.submitted_via "") "client_extension" in
    elim (Bool-cases (is_submitted body.status)) [
      | inl e ↦
          let stamped : IsBuilt (record b { updates = b.updates ++ (submitted_now ∷ []) })
              (effects ++ (submits ∷ [])) =
            record {
              next = w.next;
              right = λ later.
                  map-snoc (effect_of (b.params ++ later)) b.updates submitted_now
                  ∙ rw (w.right later);
            } in
          rw (e, push_submission)
            (subst (IsBuilt (push channel_if_unset channel _))
              (append_assoc effects (submits ∷ []) (sets_channel (some channel) ∷ []))
              (IsBuilt-push channel_if_unset sets_channel channel _ (effects ++ (submits ∷ []))
                (λ params n. refl) stamped))
      | inr e ↦
          rw (e, push_submission)
            (record { next = w.next; right = λ later. w.right later ∙ sym (append-nil effects) })
    ]

-- What the body asks for, field by field
abbrev pub asked : Host → UpdateApplication → List Effect
asked host body =
    field_effect "status" (status_value host body)
    ++ field_effect "cover_letter" body.cover_letter
    ++ field_effect "form_answers" (answers_value host body)
    ++ field_effect "outcome" body.outcome
    ++ submission_effects body

patch_builder_lem :
    (host : Host) (body : UpdateApplication) → IsBuilt (patch_builder host body) (asked host body)
unfolding patch_builder
patch_builder_lem host body =
    let built1 =
      IsBuilt-push_if "status" (status_value host body) first_builder []
        (record { next = refl; right = λ later. refl }) in
    let built2 = IsBuilt-push_if "cover_letter" body.cover_letter _ _ built1 in
    let built3 = IsBuilt-push_if "form_answers" (answers_value host body) _ _ built2 in
    let built4 = IsBuilt-push_if "outcome" body.outcome _ _ built3 in
    IsBuilt-submission body _ _ built4

-- What the database makes of the statement is what the body asks for: every number of the SET clause
-- names the value of its own column, and those of the WHERE clause the application and the user.
pub update_statement_lem :
    (host : Host) (id user_id : String) (body : UpdateApplication)
    → (let q = update_statement host id user_id body in
        (map (effect_of q.params) q.updates ≡ asked host body)
        × (param_at q.id_param q.params ≡ some id)
        × (param_at q.user_param q.params ≡ some user_id))
unfolding update_statement
update_statement_lem host id user_id body =
    let b = patch_builder host body in
    let built = patch_builder_lem host body in
    (
      built.right (id ∷ user_id ∷ []),
      rw built.next (param-last b.params id (user_id ∷ [])),
      rw built.next (param-second b.params id user_id),
    )

-- What a derived next action says of the row: an interview is not past and less than eight days
-- ahead, and a follow-up is due, seven days after the submission.
pub data Speaks (now : ℕ) (row : ApplicationRow) : DerivedPair → Type 0 where
  closing :
      is_closed row ≡ true → Speaks now row (record { next_action = some close_loop; due = none })
  interviewing :
      (due : ℕ)
      → is_closed row ≡ false
      → row.interview_date ≡ some due
      → now ≤ due
      → due < now + 8 * day_ms
      → Speaks now row (record { next_action = some NextAction.interview; due = some due })
  following :
      (sent : ℕ)
      → is_closed row ≡ false
      → row.submitted_at ≡ some sent
      → sent + 7 * day_ms ≤ now
      → Speaks now row (record { next_action = some follow_up; due = some (sent + 7 * day_ms) })
  waiting :
      (action : Option NextAction)
      → is_closed row ≡ false
      → Speaks now row (record { next_action = action; due = none })

by_status-Speaks :
    (now : ℕ) (row : ApplicationRow) → is_closed row ≡ false → Speaks now row (by_status row)
unfolding by_status
by_status-Speaks now row o = elim (Bool-cases (get_or_else row.status "" == "review")) [
  | inl e ↦ rw (e, by_status) (waiting (some submit) o)
  | inr e ↦ elim (Bool-cases (get_or_else row.status "" == "draft")) [
    | inl f ↦ rw (e, f, by_status) (waiting (some prep) o)
    | inr f ↦ rw (e, f, by_status) (waiting none o)
  ]
]

by_submission-Speaks :
    (now : ℕ) (row : ApplicationRow) (sent : Option ℕ)
    → is_closed row ≡ false
    → row.submitted_at ≡ sent
    → Speaks now row (by_submission now row sent)
unfolding by_submission is_old
by_submission-Speaks now row none o e = by_status-Speaks now row o
by_submission-Speaks now row (some sent) o e = elim (Bool-cases (is_old now sent)) [
  | inl old ↦ rw (old, by_submission) (following sent o e (ground (arith, old)))
  | inr new ↦ rw (new, by_submission) (by_status-Speaks now row o)
]

by_interview-Speaks :
    (now : ℕ) (row : ApplicationRow) (due : Option ℕ)
    → is_closed row ≡ false
    → row.interview_date ≡ due
    → Speaks now row (by_interview now row due)
unfolding by_interview is_imminent
by_interview-Speaks now row none o e = by_submission-Speaks now row row.submitted_at o refl
by_interview-Speaks now row (some due) o e = elim (Bool-cases (is_imminent now due)) [
  | inl near ↦
      rw (near, by_interview) (interviewing due o e (ground (arith, near)) (ground (arith, near)))
  | inr far ↦ rw (far, by_interview) (by_submission-Speaks now row row.submitted_at o refl)
]

pub derive_next_action-Speaks :
    (now : ℕ) (row : ApplicationRow) → Speaks now row (derive_next_action now row)
unfolding derive_next_action
derive_next_action-Speaks now row = elim (Bool-cases (is_closed row)) [
  | inl e ↦ rw (e, derive_next_action) (closing e)
  | inr e ↦ rw (e, derive_next_action) (by_interview-Speaks now row row.interview_date e refl)
]
