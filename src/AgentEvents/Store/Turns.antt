-- ===== src/AgentEvents/Store/Turns.antt =====
-- What one turn does to the session: its start, and what happens to its consumer.
use apply_agent.Prelude.{
  Host, ℕ, zero, suc, ◌≡◌, refl, sym, ap, subst, ◌∙◌, String, Bool-cases, Option-cases, true, false,
  Option, none, some, List, [], ◌∷◌, nat_beq, arith, inl, inr, ◌⊎◌, if◌then◌else◌, is_some,
}
use apply_agent.AgentEvents.Consumer.{
  Consumer, Input, step, begin, Effect, open_request, on_event, on_error, on_done, on_reconnect,
  on_stream_expired,
}
use apply_agent.AgentEvents.Consumer.Invariant.{IsSound, step-IsSound, begin-IsSound}
use apply_agent.AgentEvents.Consumer.Laws.{endings, step-endings, begin-endings}
use apply_agent.AgentEvents.Store.{
  Session, Client, owns_controller, clear_owned, to_user_facing_stream_error, callback, deliver,
  set_turn, receive, start_turn,
}

-- The streaming flag says whether there is a controller.
abbrev pub IsFlagged : Session → Type 0
IsFlagged s = s.stream.is_streaming ≡ is_some s.stream.abort_controller

-- The controller after a turn has called back, with so many endings among the calls.
abbrev released : ℕ → ℕ → Option ℕ → Option ℕ
released controller zero current = current
released controller (suc n) current = if owns_controller controller current then none else current

released_again :
    (c n : ℕ) (o : Option ℕ)
    → released c n (if owns_controller c o then none else o) ≡ released c (suc n) o
released_again c zero none = refl
released_again c zero (some d) = refl
released_again c (suc n) none = refl
released_again c (suc n) (some d) = ground arith

released_other : (c n d : ℕ) → nat_beq d c ≡ false → released c n (some d) ≡ some d
released_other c zero d h = refl
released_other c (suc n) d h = rw h

clear_owned_lem :
    (c : ℕ) (s : Session)
    → (clear_owned c s).stream.abort_controller
        ≡ (if owns_controller c s.stream.abort_controller then none else s.stream.abort_controller)
      × ((clear_owned c s).turns ≡ s.turns)
      × (IsFlagged s → IsFlagged (clear_owned c s))
unfolding clear_owned
clear_owned_lem c s = elim (Bool-cases (owns_controller c s.stream.abort_controller)) [
  | inl e ↦ rw e (refl, refl, λ h. refl)
  | inr e ↦ rw e (refl, refl, λ h. h)
]

module _ (host : Host) (client : Client) where
  -- What the callbacks of a turn leave of the controller and of the turns.
  record IsDelivered (c n : ℕ) (s t : Session) : Type 0 where
    controller : t.stream.abort_controller ≡ released c n s.stream.abort_controller
    turns : t.turns ≡ s.turns
    flagged : IsFlagged s → IsFlagged t

  after_clear :
      (c : ℕ) (s : Session) {n : ℕ} {t : Session}
      → IsDelivered c n (clear_owned c s) t
      → IsDelivered c (suc n) s t
  after_clear c s {n} r =
      let (freed, kept, flags) = clear_owned_lem c s in
      record {
        controller =
            r.controller ∙ ap (released c n) freed ∙ released_again c n s.stream.abort_controller;
        turns = r.turns ∙ kept;
        flagged = λ h. r.flagged (flags h);
      }

  deliver-IsDelivered :
      (now c : ℕ) (effs : List Effect) (s : Session)
      → IsDelivered c (endings effs) s (deliver host client now c effs s)
  unfolding deliver callback
  deliver-IsDelivered now c [] s = record { controller = refl; turns = refl; flagged = λ h. h }
  deliver-IsDelivered now c (open_request r x ∷ rest) s = deliver-IsDelivered now c rest s
  deliver-IsDelivered now c (on_event f ∷ rest) s =
      let r = deliver-IsDelivered now c rest (callback host client now c (on_event f) s) in
      record { controller = r.controller; turns = r.turns; flagged = r.flagged }
  deliver-IsDelivered now c (on_reconnect a d ∷ rest) s =
      let r = deliver-IsDelivered now c rest (callback host client now c (on_reconnect a d) s) in
      record { controller = r.controller; turns = r.turns; flagged = r.flagged }
  deliver-IsDelivered now c (on_stream_expired x ∷ rest) s =
      let r = deliver-IsDelivered now c rest (callback host client now c (on_stream_expired x) s) in
      record { controller = r.controller; turns = r.turns; flagged = r.flagged }
  deliver-IsDelivered now c (on_done ∷ rest) s =
      after_clear c s (deliver-IsDelivered now c rest (clear_owned c s))
  deliver-IsDelivered now c (on_error e ∷ rest) s =
      let shown : Session = record s {
        stream = record s.stream { error_message = some (to_user_facing_stream_error client e) };
      } in
      let r = after_clear c shown (deliver-IsDelivered now c rest (clear_owned c shown)) in
      record { controller = r.controller; turns = r.turns; flagged = r.flagged }

-- The controller's turn is under way, and every turn is one that a consumer can reach.
pub record IsOwned (s : Session) : Type 0 where
  pub flagged : IsFlagged s
  pub sound : (c : ℕ) (k : Consumer) → s.turns c ≡ some k → IsSound k
  pub under_way :
      (c : ℕ)
      → s.stream.abort_controller ≡ some c
      → (k : Consumer) × (s.turns c ≡ some k) × (k.settled ≡ false)

-- A turn whose consumer goes on to `k`, with so many endings among its calls.
record IsTurn (c n : ℕ) (k : Consumer) (s : Session) : Type 0 where
  is_sound : IsSound k
  others : (d : ℕ) (j : Consumer) → s.turns d ≡ some j → IsSound j
  flag : IsFlagged s
  running :
      (d : ℕ)
      → released c n s.stream.abort_controller ≡ some d
      → (nat_beq d c ≡ true) × (k.settled ≡ false)
        ⊎ (nat_beq d c ≡ false) × ((j : Consumer) × (s.turns d ≡ some j) × (j.settled ≡ false))

released_held :
    (c n : ℕ) (o : Option ℕ) (d : ℕ)
    → released c n o ≡ some d
    → (o ≡ some d) × (nat_beq d c ≡ true → n ≡ 0)
released_held c zero o d q = (q, λ b. refl)
released_held c (suc n) none d q = cc
released_held c (suc n) (some x) d q = ground arith

-- A turn that called neither ending has not ended.
still_open :
    (k : Consumer) (i : Input)
    → IsSound k
    → endings (step k i).1 ≡ 0
    → k.settled ≡ false
    → (step k i).0.settled ≡ false
still_open k i sound quiet going = ground (arith, step-endings k i sound)

module _ (host : Host) (client : Client) where
  turn_own :
      (now c : ℕ) (effs : List Effect) (k : Consumer) (s : Session) (d : ℕ)
      → nat_beq d c ≡ true
      → (deliver host client now c effs (set_turn host client c k s)).turns d ≡ some k
  turn_own now c effs k s d q =
      let r = deliver-IsDelivered host client now c effs (set_turn host client c k s) in
      ap (λ f. f d) r.turns ∙ rw q

  turn_other :
      (now c : ℕ) (effs : List Effect) (k : Consumer) (s : Session) (d : ℕ)
      → nat_beq d c ≡ false
      → (deliver host client now c effs (set_turn host client c k s)).turns d ≡ s.turns d
  turn_other now c effs k s d q =
      let r = deliver-IsDelivered host client now c effs (set_turn host client c k s) in
      ap (λ f. f d) r.turns ∙ rw q

  turn-IsOwned :
      (now c : ℕ) (effs : List Effect) (k : Consumer) (s : Session)
      → IsTurn c (endings effs) k s
      → IsOwned (deliver host client now c effs (set_turn host client c k s))
  turn-IsOwned now c effs k s t =
      let r = deliver-IsDelivered host client now c effs (set_turn host client c k s) in
      let own = turn_own now c effs k s in
      let other = turn_other now c effs k s in
      record {
        flagged = r.flagged t.flag;
        sound = λ d j e. elim (Bool-cases (nat_beq d c)) [
          | inl q ↦ subst IsSound (cc (sym (own d q) ∙ e)) t.is_sound
          | inr q ↦ t.others d j (sym (other d q) ∙ e)
        ];
        under_way = λ d e. elim (t.running d (sym r.controller ∙ e)) [
          | inl (q, going) ↦ (k, own d q, going)
          | inr (q, (j, p, going)) ↦ (j, other d q ∙ p, going)
        ];
      }

  same_turn :
      (s : Session) (c d : ℕ) {j k : Consumer}
      → nat_beq d c ≡ true
      → s.turns d ≡ some j
      → s.turns c ≡ some k
      → j.settled ≡ false
      → k.settled ≡ false
  same_turn s c d b p e going =
      let eq : d ≡ c = ground arith in
      let at_c = ap s.turns (sym eq) ∙ p in cc (sym at_c ∙ e, going)

  pub receive-IsOwned :
      (now c : ℕ) (i : Input) (s : Session) → IsOwned s → IsOwned (receive host client now c i s)
  unfolding receive
  receive-IsOwned now c i s o = elim (Option-cases (s.turns c)) [
    | inl e ↦ rw (e, receive) o
    | inr (k, e) ↦
        let sound = o.sound c k e in
        rw (e, receive)
          (turn-IsOwned now c (step k i).1 (step k i).0 s (record {
            is_sound = step-IsSound k i sound;
            others = o.sound;
            flag = o.flagged;
            running = λ d q.
                let (same, quiet) = released_held c (endings (step k i).1) _ d q in
                let (j, p, going) = o.under_way d same in
                elim (Bool-cases (nat_beq d c)) [
                  | inl b ↦ inl (b, still_open k i sound (quiet b) (same_turn s c d b p e going))
                  | inr b ↦ inr (b, (j, p, going))
                ];
          }))
  ]

  pub start_turn-IsOwned :
      (now : ℕ) (opening : Option String) (s : Session)
      → IsOwned s
      → IsOwned (start_turn host client now opening s)
  unfolding start_turn
  start_turn-IsOwned now opening s o =
      turn-IsOwned now s.next_controller (begin opening).1 (begin opening).0 _ (record {
        is_sound = begin-IsSound opening;
        others = o.sound;
        flag = refl;
        running = λ d q.
            let (same, quiet) = released_held s.next_controller (endings (begin opening).1) _ d q in
            let b : nat_beq d s.next_controller ≡ true = ground (arith, same) in
            inl (b, ground (arith, begin-endings opening, quiet b));
      })

  -- A turn that does not hold the controller cannot change it.
  pub receive_keeps :
      (now c : ℕ) (i : Input) (s : Session) {d : ℕ}
      → s.stream.abort_controller ≡ some d
      → nat_beq d c ≡ false
      → (receive host client now c i s).stream.abort_controller ≡ some d
  unfolding receive
  receive_keeps now c i s held differ = elim (Option-cases (s.turns c)) [
    | inl e ↦ rw (e, receive) held
    | inr (k, e) ↦
        let t = set_turn host client c (step k i).0 s in
        let r = deliver-IsDelivered host client now c (step k i).1 t in
        rw (e, receive)
          (r.controller
            ∙ ap (released c (endings (step k i).1)) held
            ∙ released_other c (endings (step k i).1) _ differ)
  ]
