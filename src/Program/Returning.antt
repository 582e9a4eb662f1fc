-- ===== src/Program/Returning.antt =====
-- `main` returns once a signal has been handled.
use mathlib.Core.List.{append-nil, append_assoc}
use satip_client.Base.{
  ℕ, zero, suc, ◌+◌, ◌*◌, ◌≡◌, refl, sym, ap, ◌∙◌, Bool, true, false, Option, none, some, List, [],
  ◌∷◌, ◌++◌, length, arith, subst,
}
use satip_client.Program.{
  Act, stop_called, join_called, Signal, Stage, at_test, suspended, stopping, joining, returned,
  MainState, sigint_handler, deliver, is_set, set_for, after_handler, main_at, main_step,
}
use satip_client.Program.Ending.{stops, joins}

module _ (prev_mask : Bool) (started : Option (List ℕ)) where
  -- Steps of `main` alone.
  unfoldable pub main_steps : ℕ → MainState → MainState
  unfolding main_step
  main_steps zero p = p
  main_steps (suc n) p = main_steps n (main_step prev_mask started p)

  step_at :
      (stage : Stage) (p : MainState)
      → p.stage ≡ stage
      → main_step prev_mask started p ≡ main_at stage prev_mask started p
  unfolding main_step
  step_at stage p e = ap (λ (s : Stage). main_at s prev_mask started p) e

  -- A state that comes to the end in some steps, with calls that follow those it has.
  abbrev Returns : ℕ → List Act → MainState → Type 0
  Returns n calls p = let q = main_steps n p in (q.stage ≡ returned) × (q.acts ≡ p.acts ++ calls)

  -- A step before the way to the end.
  step-Returns :
      (n : ℕ) (act calls : List Act) (stage : Stage) (p q : MainState)
      → p.stage ≡ stage
      → main_at stage prev_mask started p ≡ q
      → q.acts ≡ p.acts ++ act
      → Returns n calls q
      → Returns (suc n) (act ++ calls) p
  unfolding main_steps
  step-Returns n act calls stage p q e m a (done, called) =
      let step : main_step prev_mask started p ≡ q = step_at stage p e ∙ m in
      (
        ap (λ (x : MainState). (main_steps n x).stage) step ∙ done,
        ap (λ (x : MainState). (main_steps n x).acts) step
            ∙ called
            ∙ ap (λ (l : List Act). l ++ calls) a
            ∙ append_assoc p.acts act calls,
      )

  returned-Returns : (p : MainState) → p.stage ≡ returned → Returns 0 [] p
  unfolding main_steps
  returned-Returns p e = (e, sym (append-nil p.acts))

  joining-Returns :
      (rest : List ℕ) (p : MainState)
      → p.stage ≡ joining rest
      → Returns (suc (length rest)) (joins rest) p
  unfolding joins main_at
  joining-Returns [] p e =
      step-Returns 0 [] [] (joining []) p _ e refl (sym (append-nil p.acts))
        (returned-Returns (record p { stage = returned }) refl)
  joining-Returns (i ∷ rest) p e =
      let next : MainState = record p {
        acts = p.acts ++ join_called i ∷ [];
        stage = joining rest;
      } in
      step-Returns (suc (length rest)) (join_called i ∷ []) (joins rest) (joining (i ∷ rest)) p next
        e refl refl (joining-Returns rest next refl)

  -- The steps from a test that finds the signal on.
  abbrev pub steps_left : ℕ → ℕ → ℕ
  steps_left zero joined = suc (suc joined)
  steps_left (suc n) joined = suc (steps_left n joined)

  stopping-Returns :
      (rest : List ℕ) (p : MainState)
      → p.stage ≡ stopping rest
      → Returns (steps_left (length rest) (length p.sessions)) (stops rest ++ joins p.sessions) p
  unfolding stops main_at
  stopping-Returns [] p e =
      let next : MainState = record p { stage = joining p.sessions } in
      step-Returns (suc (length p.sessions)) [] (joins p.sessions) (stopping []) p next e refl
        (sym (append-nil p.acts)) (joining-Returns p.sessions next refl)
  stopping-Returns (i ∷ rest) p e =
      let next : MainState = record p {
        acts = p.acts ++ stop_called i ∷ [];
        stage = stopping rest;
      } in
      step-Returns (steps_left (length rest) (length p.sessions)) (stop_called i ∷ [])
        (stops rest ++ joins p.sessions) (stopping (i ∷ rest)) p next e refl refl
        (stopping-Returns rest next refl)

  steps_left-sum : (n joined : ℕ) → steps_left n joined ≡ n + joined + 2
  steps_left-sum zero joined = omega arith
  steps_left-sum (suc n) joined = omega (arith, steps_left-sum n joined)

  -- The state after the handler of the first signal.
  abbrev handled : Signal → MainState → MainState
  handled s p = record p {
    shutdown_signo = some s;
    pending = set_for s false p.pending;
    taken = s ∷ p.taken;
    stage = suspended true;
  }

  deliver-handled :
      (s : Signal) (p : MainState)
      → p.stage ≡ suspended false
      → p.shutdown_signo ≡ none
      → p.is_default s ≡ false
      → deliver s p ≡ handled s p
  unfolding deliver sigint_handler
  deliver-handled s p e n d =
      let unset : is_set p.shutdown_signo ≡ false = ap is_set n in
      rw (d, unset) (ap (λ (stage : Stage). record (handled s p) { stage = after_handler stage }) e)

  handled-Returns :
      (s : Signal) (p : MainState)
      → Returns
          (suc (suc (steps_left (length p.sessions) (length p.sessions))))
          (stops p.sessions ++ joins p.sessions)
          (handled s p)
  unfolding main_at
  handled-Returns s p =
      let n = steps_left (length p.sessions) (length p.sessions) in
      let calls = stops p.sessions ++ joins p.sessions in
      let tested : MainState = record (handled s p) { stage = at_test } in
      let stopping_all : MainState = record tested {
        blocked = prev_mask;
        stage = stopping p.sessions;
      } in
      let none_called : p.acts ≡ p.acts ++ [] = sym (append-nil p.acts) in
      step-Returns (suc n) [] calls (suspended true) (handled s p) tested refl refl none_called (
        step-Returns n [] calls at_test tested stopping_all refl refl none_called
          (stopping-Returns p.sessions stopping_all refl))

  -- A program that waits takes a pending signal, and then returns in two steps for each session and
  -- four more, if no second signal comes: it stops the sessions in their order, and then joins them.
  pub waiting_returns :
      (s : Signal) (p : MainState)
      → p.stage ≡ suspended false
      → p.shutdown_signo ≡ none
      → p.is_default s ≡ false
      → let q = main_steps (2 * length p.sessions + 4) (deliver s p) in
        (q.stage ≡ returned) × (q.acts ≡ p.acts ++ (stops p.sessions ++ joins p.sessions))
  waiting_returns s p e n d =
      let calls = stops p.sessions ++ joins p.sessions in
      let steps : suc (suc (steps_left (length p.sessions) (length p.sessions)))
          ≡ 2 * length p.sessions + 4 =
        omega (arith, steps_left-sum (length p.sessions) (length p.sessions)) in
      let same = deliver-handled s p e n d in
      let (done, called) =
        subst (λ (k : ℕ). Returns k calls (handled s p)) steps (handled-Returns s p) in
      let m = 2 * length p.sessions + 4 in
      (
        ap (λ (x : MainState). (main_steps m x).stage) same ∙ done,
        ap (λ (x : MainState). (main_steps m x).acts) same ∙ called,
      )
