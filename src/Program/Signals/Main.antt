-- ===== src/Program/Signals/Main.antt =====
-- What the steps of `main` do with its signals.
use satip_client.Base.{
  ℕ, ◌≤◌, ◌≡◌, refl, sym, subst, ◌∙◌, Bool, true, false, ◌||◌, not, Bool-cases, inl, inr, Option,
  none, some, List, [], ◌∷◌, length, arith,
}
use satip_client.Program.{
  Act, Signal, Stage, at_block, at_handlers, at_start, at_test, at_wait, suspended, stopping,
  joining, returned, killed, MainState, is_set, main_at,
}
use satip_client.Program.Signals.{
  is_killed, needs_mask, is_before_handlers, known, is_waiting, IsAlert, IsCalm,
}

-- What a step of `main` does with the signals.
pub record Continues (p q : MainState) : Type 0 where
  pub shutdown : q.shutdown_signo ≡ p.shutdown_signo
  pub pending : q.pending ≡ p.pending
  pub arrived : q.arrived ≡ p.arrived
  pub taken : q.taken ≡ p.taken
  pub alive : is_killed q.stage ≡ is_killed p.stage
  pub waits :
      is_waiting q.stage ≡ true → (is_waiting p.stage || not (is_set q.shutdown_signo)) ≡ true
  pub masked :
      needs_mask q.stage ≡ true → (needs_mask p.stage ≡ true → p.blocked ≡ true) → q.blocked ≡ true
  pub handled :
      (s : Signal)
      → is_before_handlers q.stage ≡ false
      → (is_before_handlers p.stage ≡ false → p.is_default s ≡ false)
      → q.is_default s ≡ false

-- A step to a place where the program neither waits nor lacks its handlers.
moves :
    (p : MainState) (stage : Stage) (blocked : Bool) (sessions : List ℕ) (acts : List Act)
    → is_killed p.stage ≡ false
    → is_before_handlers p.stage ≡ false
    → is_killed stage ≡ false
    → is_before_handlers stage ≡ false
    → (is_waiting stage ≡ true → (is_waiting p.stage || not (is_set p.shutdown_signo)) ≡ true)
    → (needs_mask stage ≡ true → (needs_mask p.stage ≡ true → p.blocked ≡ true) → blocked ≡ true)
    → Continues p (record p { stage = stage; blocked = blocked; sessions = sessions; acts = acts })
moves p stage blocked sessions acts a b a' b' w m = record {
  shutdown = refl;
  pending = refl;
  arrived = refl;
  taken = refl;
  alive = a' ∙ sym a;
  waits = w;
  masked = m;
  handled = λ s h d. d b;
}

-- A step that leaves the place alone.
stays : (p : MainState) → is_before_handlers p.stage ≡ false → Continues p p
stays p e = record {
  shutdown = refl;
  pending = refl;
  arrived = refl;
  taken = refl;
  alive = refl;
  waits = λ h. ground (arith, h);
  masked = λ h m. m h;
  handled = λ s h d. d h;
}

pub main_at-Continues :
    (stage : Stage) (prev_mask : Bool) (started : Option (List ℕ)) (p : MainState)
    → p.stage ≡ stage
    → Continues p (main_at stage prev_mask started p)
unfolding main_at
main_at-Continues at_block b started p e = record {
  shutdown = refl;
  pending = refl;
  arrived = refl;
  taken = refl;
  alive = rw e refl;
  waits = λ h. cc;
  masked = λ h m. refl;
  handled = λ s h d. cc;
}
main_at-Continues at_handlers b started p e = record {
  shutdown = refl;
  pending = refl;
  arrived = refl;
  taken = refl;
  alive = rw e refl;
  waits = λ h. cc;
  masked = λ h m. m (rw e refl);
  handled = λ s h d. refl;
}
main_at-Continues at_start b none p e =
    moves p returned _ _ _ (rw e refl) (rw e refl) refl refl (λ h. absurd (cc)) (λ h. absurd (cc))
main_at-Continues at_start b (some is) p e =
    moves p at_test _ _ _ (rw e refl) (rw e refl) refl refl (λ h. absurd (cc))
      (λ h m. m (rw e refl))
main_at-Continues at_test b started p e = elim (Bool-cases (is_set p.shutdown_signo)) [
  | inl h ↦ rw h (
      moves p (stopping p.sessions) _ _ _ (rw e refl) (rw e refl) refl refl (λ w. absurd (cc))
        (λ w. absurd (cc)))
  | inr h ↦ rw h (
      moves p at_wait _ _ _ (rw e refl) (rw e refl) refl refl (λ w. rw (e, h) refl)
        (λ w m. m (rw e refl)))
]
main_at-Continues at_wait b started p e =
    moves p (suspended false) _ _ _ (rw e refl) (rw e refl) refl refl (λ w. rw e refl)
      (λ w m. m (rw e refl))
main_at-Continues (suspended true) b started p e =
    moves p at_test _ _ _ (rw e refl) (rw e refl) refl refl (λ h. absurd (cc))
      (λ h m. m (rw e refl))
main_at-Continues (suspended false) b started p e = stays p (rw e refl)
main_at-Continues (stopping []) b started p e =
    moves p (joining p.sessions) _ _ _ (rw e refl) (rw e refl) refl refl (λ h. absurd (cc))
      (λ h. absurd (cc))
main_at-Continues (stopping (i ∷ is)) b started p e =
    moves p (stopping is) _ _ _ (rw e refl) (rw e refl) refl refl (λ h. absurd (cc))
      (λ h. absurd (cc))
main_at-Continues (joining []) b started p e =
    moves p returned _ _ _ (rw e refl) (rw e refl) refl refl (λ h. absurd (cc)) (λ h. absurd (cc))
main_at-Continues (joining (i ∷ is)) b started p e =
    moves p (joining is) _ _ _ (rw e refl) (rw e refl) refl refl (λ h. absurd (cc))
      (λ h. absurd (cc))
main_at-Continues returned b started p e = stays p (rw e refl)
main_at-Continues killed b started p e = stays p (rw e refl)

known-Continues : (p q : MainState) → Continues p q → known q ≡ known p
known-Continues p q c = rw (c.shutdown, c.pending) refl

pub Continues-IsAlert : (p q : MainState) → Continues p q → IsAlert p → IsAlert q
Continues-IsAlert p q c v = record {
  is_known = λ h.
      rw (known-Continues p q c, c.alive)
        (v.is_known (subst (λ (l : List Signal). 1 ≤ length l) c.arrived h));
  unhandled = λ h. ground (arith, c.waits h, v.unhandled, c.shutdown);
  masked = λ h. c.masked h v.masked;
  set_taken =
      λ h. rw c.taken (v.set_taken (subst (λ (o : Option Signal). is_set o ≡ true) c.shutdown h));
  taken_set = λ h.
      rw (c.shutdown, c.alive) (v.taken_set (subst (λ (l : List Signal). 1 ≤ length l) c.taken h));
  again =
      λ h. rw (c.pending, c.alive) (v.again (subst (λ (l : List Signal). 2 ≤ length l) c.taken h));
}

pub Continues-IsCalm : (p q : MainState) → Continues p q → IsCalm p → IsCalm q
Continues-IsCalm p q c v = record {
  masked = λ h. c.masked h v.masked;
  single = λ h.
      rw (known-Continues p q c, c.arrived)
        (v.single (subst (λ (l : List Signal). length l ≤ 1) c.arrived h));
  alive = λ h. c.alive ∙ v.alive (subst (λ (l : List Signal). length l ≤ 1) c.arrived h);
  handled = λ h b s.
      c.handled s b (λ b'. v.handled (subst (λ (l : List Signal). length l ≤ 1) c.arrived h) b' s);
}
