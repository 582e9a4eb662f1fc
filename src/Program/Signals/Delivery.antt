-- ===== src/Program/Signals/Delivery.antt =====
-- What the delivery of a signal does: `sigint_handler`, or the default.
use satip_client.Base.{
  ◌+◌, ◌≤◌, ◌≡◌, refl, sym, subst, ◌∙◌, Bool, true, false, ◌||◌, not, ◌∷◌, Bool-cases, inl, inr,
  if-both, some, List, length, arith,
}
use satip_client.Program.{
  Signal, sigint, sigterm, set_for, Stage, MainState, sigint_handler, after_handler, is_open,
  is_suspended, deliver, is_set,
}
use satip_client.Program.Signals.{
  count, is_killed, needs_mask, is_before_handlers, known, is_waiting, IsAlert, IsCalm,
}

not_waiting :
    (stage : Stage) (blocked : Bool)
    → (needs_mask stage ≡ true → blocked ≡ true)
    → (is_suspended stage || not blocked) ≡ true
    → is_waiting (after_handler stage) ≡ false
not_waiting stage blocked m o = ground (arith, m)

same_masked : (stage : Stage) → needs_mask (after_handler stage) ≡ needs_mask stage
same_masked stage = ground arith

same_place : (stage : Stage) → is_before_handlers (after_handler stage) ≡ is_before_handlers stage
same_place stage = ground arith

same_life : (stage : Stage) → is_killed (after_handler stage) ≡ is_killed stage
same_life stage = ground arith

raised :
    (s : Signal) (f : Signal → Bool)
    → 1 ≤ count (set_for s true f sigint) + count (set_for s true f sigterm)
raised sigint f = omega arith
raised sigterm f = omega arith

-- The delivery of a signal.
pub deliver-IsAlert :
    (s : Signal) (p : MainState) → is_open p ≡ true → IsAlert p → IsAlert (deliver s p)
unfolding deliver sigint_handler
deliver-IsAlert s p o v =
    let w = not_waiting p.stage p.blocked v.masked o in
    let m : needs_mask (after_handler p.stage) ≡ true → p.blocked ≡ true =
      λ h. v.masked (sym (same_masked p.stage) ∙ h) in
    let up = raised s (set_for s false p.pending) in
    if-both IsAlert (p.is_default s) _ _
      (record {
        is_known = λ h. omega arith;
        unhandled = λ h. absurd (cc);
        masked = λ h. absurd (cc);
        set_taken = λ h. omega arith;
        taken_set = λ h. omega arith;
        again = λ h. omega arith;
      })
      (elim (Bool-cases (is_set p.shutdown_signo)) [
        | inl e ↦ rw e (record {
          is_known = λ h. omega (arith, up);
          unhandled = λ h. absurd (cc);
          masked = m;
          set_taken = λ h. omega arith;
          taken_set = λ h. ground (arith, e);
          again = λ h. omega (arith, up);
        })
        | inr e ↦ rw e (record {
          is_known = λ h. omega arith;
          unhandled = λ h. absurd (cc);
          masked = m;
          set_taken = λ h. omega arith;
          taken_set = λ h. omega arith;
          again = λ h. ground (arith, v.taken_set, e, same_life p.stage);
        })
      ])

deliver-arrived : (s : Signal) (p : MainState) → (deliver s p).arrived ≡ p.arrived
unfolding deliver sigint_handler
deliver-arrived s p =
    if-both (λ (q : MainState). q.arrived ≡ p.arrived) (p.is_default s) _ _ refl
      (if-both (λ (q : MainState). q.arrived ≡ p.arrived) (is_set p.shutdown_signo) _ _ refl refl)

-- The delivery of the only signal.
abbrev taken_first : Signal → MainState → MainState
taken_first s p = record p {
  shutdown_signo = some s;
  pending = set_for s false p.pending;
  taken = s ∷ p.taken;
  stage = after_handler p.stage;
}

past_handlers : (p : MainState) → IsCalm p → is_open p ≡ true → is_before_handlers p.stage ≡ false
past_handlers p v o = ground (arith, v.masked, o)

only_one :
    (s : Signal) (p : MainState)
    → known p ≤ 1
    → p.pending s ≡ true
    → (is_set p.shutdown_signo ≡ false) × (known (taken_first s p) ≤ 1)
only_one sigint p h e = (ground (arith, h, e), ground (arith, h, e))
only_one sigterm p h e = (ground (arith, h, e), ground (arith, h, e))

deliver_single :
    (s : Signal) (p : MainState)
    → IsCalm p
    → p.pending s ≡ true
    → is_open p ≡ true
    → length p.arrived ≤ 1
    → deliver s p ≡ taken_first s p
unfolding deliver sigint_handler
deliver_single s p v h o l =
    let own = v.handled l (past_handlers p v o) s in
    let unset = (only_one s p (omega (arith, v.single l, l)) h).0 in rw (own, unset) refl

-- A known signal came.
some_arrived :
    (s : Signal) (p : MainState)
    → known p ≤ length p.arrived
    → p.pending s ≡ true
    → 1 ≤ length p.arrived
some_arrived sigint p k h = ground (arith, k, h)
some_arrived sigterm p k h = ground (arith, k, h)

taken_first-IsCalm :
    (s : Signal) (p : MainState)
    → IsCalm p
    → p.pending s ≡ true
    → is_open p ≡ true
    → length p.arrived ≤ 1
    → (known (taken_first s p) ≤ length p.arrived)
      × (is_killed (taken_first s p).stage ≡ false)
      × ((t : Signal) → p.is_default t ≡ false)
taken_first-IsCalm s p v h o l = (
  omega (arith, (only_one s p (omega (arith, v.single l, l)) h).1, some_arrived s p (v.single l) h),
  same_life p.stage ∙ v.alive l,
  v.handled l (past_handlers p v o),
)

pub deliver-IsCalm :
    (s : Signal) (p : MainState)
    → p.pending s ≡ true
    → is_open p ≡ true
    → IsAlert (deliver s p)
    → IsCalm p
    → IsCalm (deliver s p)
deliver-IsCalm s p h o w v =
    let few : length (deliver s p).arrived ≤ 1 → length p.arrived ≤ 1 =
      λ l. subst (λ (a : List Signal). length a ≤ 1) (deliver-arrived s p) l in
    record {
      masked = w.masked;
      single = λ l. rw (deliver_single s p v h o (few l)) (taken_first-IsCalm s p v h o (few l)).0;
      alive = λ l. rw (deliver_single s p v h o (few l)) (taken_first-IsCalm s p v h o (few l)).1;
      handled = λ l b t.
          rw (deliver_single s p v h o (few l)) ((taken_first-IsCalm s p v h o (few l)).2 t);
    }
