-- ===== src/Program/Heard.antt =====
-- What becomes of the signals that come to a running program.
use satip_client.Base.{
  ℕ, ◌≤◌, ◌≡◌, ◌≢◌, refl, Bool, true, false, leb, Bool-cases, inl, inr, ◌⊎◌, Option, none, some,
  List, [], ◌∷◌, length, arith,
}
use satip_client.Program.{
  Signal, sigint, sigterm, Stage, at_handlers, killed, MainState, is_set, main_at, main_step,
  new_program, signal_comes, signal_taken, main_goes_on, Runs, at_first, and_then,
}
use satip_client.Program.Signals.{
  is_killed, is_waiting, IsAlert, IsCalm, arrive-IsAlert, arrive-IsCalm,
}
use satip_client.Program.Signals.Main.{main_at-Continues, Continues-IsAlert, Continues-IsCalm}
use satip_client.Program.Signals.Delivery.{deliver-IsAlert, deliver-IsCalm}

none_arrived : (l : List Signal) → leb (length l) 0 ≡ true → l ≡ []
none_arrived [] h = refl
none_arrived (s ∷ l) h = absurd (ground (arith, h))

killed_stage : (stage : Stage) → is_killed stage ≡ true → stage ≡ killed
killed_stage stage h = ground (arith, h)

set_signo : (o : Option Signal) → is_set o ≡ true → o ≢ none
set_signo none h = absurd (cc)
set_signo (some s) h = λ e. cc

many : (n : ℕ) (b : Bool) → b ≡ true → (n ≤ 1 → b ≡ false) → 2 ≤ n
many n b e h = ground (arith, h)

by_known :
    (p : MainState)
    → IsAlert p
    → IsCalm p
    → 1 ≤ length p.arrived
    → ((p.stage ≡ killed) × (2 ≤ length p.arrived))
      ⊎ ((p.shutdown_signo ≢ none) × (is_waiting p.stage ≡ false) × (length p.taken ≡ 1))
      ⊎ ((s : Signal) × (p.pending s ≡ true))
by_known p v w h = elim (Bool-cases (is_killed p.stage)) [
  | inl k ↦ inl (killed_stage p.stage k, many (length p.arrived) (is_killed p.stage) k w.alive)
  | inr k ↦ elim (Bool-cases (p.pending sigint)) [
    | inl e ↦ inr (inr (sigint, e))
    | inr e ↦ elim (Bool-cases (p.pending sigterm)) [
      | inl f ↦ inr (inr (sigterm, f))
      | inr f ↦
          let set : is_set p.shutdown_signo ≡ true = ground (arith, v.is_known h, k, e, f) in
          inr (
            inl (
              set_signo p.shutdown_signo set,
              ground (arith, v.unhandled, set),
              ground (arith, v.set_taken set, v.again, k, e, f),
            ))
    ]
  ]
]

module _ (prev_mask : Bool) (started : Option (List ℕ)) where
  Runs-IsAlert : (start p : MainState) → IsAlert start → Runs prev_mask started start p → IsAlert p
  unfolding main_step
  Runs-IsAlert start _ v at_first = v
  Runs-IsAlert start _ v (and_then {p} r (signal_comes s)) =
      arrive-IsAlert s p (Runs-IsAlert start p v r)
  Runs-IsAlert start _ v (and_then {p} r (signal_taken s h o)) =
      deliver-IsAlert s p o (Runs-IsAlert start p v r)
  Runs-IsAlert start _ v (and_then {p} r main_goes_on) =
      Continues-IsAlert p (main_at p.stage prev_mask started p)
        (main_at-Continues p.stage prev_mask started p refl) (Runs-IsAlert start p v r)

  Runs-IsCalm :
      (start p : MainState)
      → IsAlert start
      → IsCalm start
      → Runs prev_mask started start p
      → IsCalm p
  unfolding main_step
  Runs-IsCalm start _ a v at_first = v
  Runs-IsCalm start _ a v (and_then {p} r (signal_comes s)) =
      arrive-IsCalm s p (Runs-IsCalm start p a v r)
  Runs-IsCalm start _ a v (and_then {p} r (signal_taken s h o)) =
      deliver-IsCalm s p h o (deliver-IsAlert s p o (Runs-IsAlert start p a r))
        (Runs-IsCalm start p a v r)
  Runs-IsCalm start _ a v (and_then {p} r main_goes_on) =
      Continues-IsCalm p (main_at p.stage prev_mask started p)
        (main_at-Continues p.stage prev_mask started p refl) (Runs-IsCalm start p a v r)

  -- `main` with the signals blocked.
  abbrev pub masked_program : MainState
  masked_program = record (new_program prev_mask) { blocked = true; stage = at_handlers }

  -- Once `main` has blocked the signals, in every state that it reaches: no signal came; or at least
  -- two came and killed the program; or a signal is still pending; or exactly one was delivered, its
  -- handler has set `shutdown_signo`, and `main` neither waits in `sigsuspend` nor is past the last
  -- test before it. So `main` waits over no signal but a pending one, which `sigsuspend` lets through,
  -- a second one that is delivered is not dropped by the handler, and one alone never kills the program. Signals of one kind that
  -- come before the first of them is delivered are one, as the kernel has it.
  pub signals_are_heard :
      (p : MainState)
      → Runs prev_mask started masked_program p
      → (p.arrived ≡ [])
        ⊎ ((p.stage ≡ killed) × (2 ≤ length p.arrived))
        ⊎ ((p.shutdown_signo ≢ none) × (is_waiting p.stage ≡ false) × (length p.taken ≡ 1))
        ⊎ ((s : Signal) × (p.pending s ≡ true))
  signals_are_heard p r =
      let first : IsAlert masked_program = record {
        is_known = λ h. absurd (omega (arith, h));
        unhandled = λ h. refl;
        masked = λ h. refl;
        set_taken = λ h. absurd (cc);
        taken_set = λ h. absurd (omega (arith, h));
        again = λ h. absurd (omega (arith, h));
      } in
      let alert = Runs-IsAlert masked_program p first r in
      let calm =
        Runs-IsCalm masked_program p first
          (record {
            masked = λ h. refl;
            single = λ h. omega arith;
            alive = λ h. refl;
            handled = λ h b s. absurd (cc);
          })
          r in
      elim (Bool-cases (leb (length p.arrived) 0)) [
        | inl e ↦ inl (none_arrived p.arrived e)
        | inr n ↦ inr (by_known p alert calm (ground (arith, n)))
      ]
