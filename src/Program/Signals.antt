-- ===== src/Program/Signals.antt =====
-- What the program knows of its signals, and what the arrival of one leaves of it.
pub mod Main
pub mod Delivery
use satip_client.Base.{
  ℕ, ◌+◌, ◌≤◌, ◌≡◌, ◌≢◌, refl, sym, subst, ap, ◌∙◌, Bool, true, false, ◌&&◌, ◌||◌, not, leb,
  if◌then◌else◌, if-both, Bool-cases, inl, inr, ◌⊎◌, Option, none, some, List, [], ◌∷◌, length,
  arith,
}
use satip_client.Program.{
  Act, Signal, sigint, sigterm, same_signal, set_for, Stage, at_block, at_handlers, at_start,
  at_test, at_wait, suspended, stopping, joining, returned, killed, MainState, sigint_handler,
  arrive, is_suspended, after_handler, is_open, deliver, is_set, main_at, main_step, new_program,
  MainStep, signal_comes, signal_taken, main_goes_on, Runs, at_first, and_then,
}

abbrev pub count : Bool → ℕ
count true = 1
count false = 0

abbrev pub is_killed : Stage → Bool
is_killed killed = true
is_killed _ = false

abbrev pub is_before_handlers : Stage → Bool
is_before_handlers at_handlers = true
is_before_handlers _ = false

-- From the blocking of the signals to the end of the loop.
abbrev pub needs_mask : Stage → Bool
needs_mask at_handlers = true
needs_mask at_start = true
needs_mask at_test = true
needs_mask at_wait = true
needs_mask (suspended handled) = true
needs_mask _ = false

-- What the program knows of signals: the one in `shutdown_signo`, and the pending ones.
abbrev pub known : MainState → ℕ
known p = count (is_set p.shutdown_signo) + count (p.pending sigint) + count (p.pending sigterm)

-- Waiting, or past the last test before it.
abbrev pub is_waiting : Stage → Bool
is_waiting at_wait = true
is_waiting (suspended false) = true
is_waiting _ = false

-- A signal that came is known, unless the program is killed; it waits, or is about to, only while no
-- signal has been handled, and is masked up to there. The first signal that is taken sets
-- `shutdown_signo`, and a second one is pending or kills the program.
pub record IsAlert (p : MainState) : Type 0 where
  pub is_known : 1 ≤ length p.arrived → 1 ≤ known p + count (is_killed p.stage)
  pub unhandled : is_waiting p.stage ≡ true → is_set p.shutdown_signo ≡ false
  pub masked : needs_mask p.stage ≡ true → p.blocked ≡ true
  pub set_taken : is_set p.shutdown_signo ≡ true → 1 ≤ length p.taken
  pub taken_set :
      1 ≤ length p.taken → 1 ≤ count (is_set p.shutdown_signo) + count (is_killed p.stage)
  pub again :
      2 ≤ length p.taken
      → 1 ≤ count (p.pending sigint) + count (p.pending sigterm) + count (is_killed p.stage)

-- With one signal at most the program is not killed, and from the handlers on it has no default.
pub record IsCalm (p : MainState) : Type 0 where
  pub masked : needs_mask p.stage ≡ true → p.blocked ≡ true
  pub single : length p.arrived ≤ 1 → known p ≤ length p.arrived
  pub alive : length p.arrived ≤ 1 → is_killed p.stage ≡ false
  pub handled :
      length p.arrived ≤ 1
      → is_before_handlers p.stage ≡ false
      → (s : Signal) → p.is_default s ≡ false

pub arrive-IsAlert : (s : Signal) (p : MainState) → IsAlert p → IsAlert (arrive s p)
unfolding arrive
arrive-IsAlert sigint p v = record {
  is_known = λ h. omega arith;
  unhandled = v.unhandled;
  masked = v.masked;
  set_taken = v.set_taken;
  taken_set = v.taken_set;
  again = λ h. omega arith;
}
arrive-IsAlert sigterm p v = record {
  is_known = λ h. omega arith;
  unhandled = v.unhandled;
  masked = v.masked;
  set_taken = v.set_taken;
  taken_set = v.taken_set;
  again = λ h. omega arith;
}

pub arrive-IsCalm : (s : Signal) (p : MainState) → IsCalm p → IsCalm (arrive s p)
unfolding arrive
arrive-IsCalm sigint p v = record {
  masked = v.masked;
  single = λ h. ground (arith, v.single (omega (arith, h)));
  alive = λ h. v.alive (omega (arith, h));
  handled = λ h. v.handled (omega (arith, h));
}
arrive-IsCalm sigterm p v = record {
  masked = v.masked;
  single = λ h. ground (arith, v.single (omega (arith, h)));
  alive = λ h. v.alive (omega (arith, h));
  handled = λ h. v.handled (omega (arith, h));
}
