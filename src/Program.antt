-- ===== src/Program.antt =====
-- main.cpp, with `sessionStop` and `sessionJoin` of manager.cpp: the program's way from the blocking of
-- its signals to its end, and the signals that come meanwhile. Child modules are the command line,
-- log.cpp and log.h, and what holds of the signals and of the order of the end.
pub mod Log
pub mod Signals
pub mod Heard
pub mod Ending
pub mod Returning
pub mod Arguments
use satip_client.Base.{
  ℕ, ◌≡◌, Bool, true, false, ◌&&◌, ◌||◌, not, if◌then◌else◌, Option, none, some, List, [], ◌∷◌,
  ◌++◌,
}

pub data Signal : Type 0 where
  sigint sigterm : Signal

abbrev pub same_signal : Signal → Signal → Bool
same_signal sigint sigint = true
same_signal sigterm sigterm = true
same_signal _ _ = false

abbrev pub set_for : Signal → Bool → (Signal → Bool) → Signal → Bool
set_for s b f t = if same_signal s t then b else f t

-- Where `main` stands: before the signals are blocked, before the handlers are set, before
-- `satipStart`, at the test of the loop, behind a test that found no signal, in `sigsuspend` with what
-- has been handled there, in the loops of `sessionStop` and `sessionJoin` with the sessions left, and
-- at the end.
pub data Stage : Type 0 where
  at_block at_handlers at_start at_test at_wait : Stage
  suspended : Bool → Stage
  stopping joining : List ℕ → Stage
  returned killed : Stage

-- What is called of a session.
pub data Act : Type 0 where
  stop_called join_called : ℕ → Act

-- `shutdown_signo`, the signal mask of the main thread, the pending signals, those whose disposition is
-- the default, the sessions of the manager, their calls in order, the signals that came, and those
-- that were delivered, the last one first.
pub record MainState : Type 0 where
  pub shutdown_signo : Option Signal
  pub blocked : Bool
  pub pending : Signal → Bool
  pub is_default : Signal → Bool
  pub stage : Stage
  pub sessions : List ℕ
  pub acts : List Act
  pub arrived : List Signal
  pub taken : List Signal

abbrev pub is_set : Option Signal → Bool
is_set none = false
is_set (some s) = true

-- `sigint_handler`: `raise` leaves the signal pending until the handler returns.
unfoldable pub sigint_handler : Signal → MainState → MainState
sigint_handler signo p =
    if is_set p.shutdown_signo
    then record p {
      pending = set_for signo true p.pending;
      is_default = set_for signo true p.is_default;
    }
    else record p { shutdown_signo = some signo }

-- A signal is sent to the process: one of a kind that is pending already joins it.
unfoldable pub arrive : Signal → MainState → MainState
arrive s p = record p { pending = set_for s true p.pending; arrived = s ∷ p.arrived }

abbrev pub is_suspended : Stage → Bool
is_suspended (suspended handled) = true
is_suspended _ = false

abbrev pub after_handler : Stage → Stage
after_handler (suspended handled) = suspended true
after_handler stage = stage

-- `sigsuspend` lets every signal through.
abbrev pub is_open : MainState → Bool
is_open p = is_suspended p.stage || not p.blocked

-- A pending signal is delivered.
unfoldable pub deliver : Signal → MainState → MainState
unfolding sigint_handler
deliver s p =
    let p' = record p { pending = set_for s false p.pending; taken = s ∷ p.taken } in
    if p.is_default s
    then record p' { stage = killed }
    else sigint_handler s (record p' { stage = after_handler p.stage })

-- A step of `main` at a place. `prev_mask` is whether the signals were blocked when the program
-- started, and `started` the sessions that `satipStart` starts, or none if it returns -1.
unfoldable pub main_at : Stage → Bool → Option (List ℕ) → MainState → MainState
main_at at_block prev_mask started p = record p { blocked = true; stage = at_handlers }
main_at at_handlers prev_mask started p = record p { is_default = λ s. false; stage = at_start }
main_at at_start prev_mask none p = record p { blocked = prev_mask; stage = returned }
main_at at_start prev_mask (some sessions) p = record p { sessions = sessions; stage = at_test }
main_at at_test prev_mask started p =
    if is_set p.shutdown_signo
    then record p { blocked = prev_mask; stage = stopping p.sessions }
    else record p { stage = at_wait }
main_at at_wait prev_mask started p = record p { stage = suspended false }
main_at (suspended true) prev_mask started p = record p { stage = at_test }
main_at (suspended false) prev_mask started p = p
main_at (stopping (i ∷ sessions)) prev_mask started p = record p {
  acts = p.acts ++ stop_called i ∷ [];
  stage = stopping sessions;
}
main_at (stopping []) prev_mask started p = record p { stage = joining p.sessions }
main_at (joining (i ∷ sessions)) prev_mask started p = record p {
  acts = p.acts ++ join_called i ∷ [];
  stage = joining sessions;
}
main_at (joining []) prev_mask started p = record p { stage = returned }
main_at returned prev_mask started p = p
main_at killed prev_mask started p = p

unfoldable pub main_step : Bool → Option (List ℕ) → MainState → MainState
unfolding main_at
main_step prev_mask started p = main_at p.stage prev_mask started p

-- The start of `main`.
abbrev pub new_program : Bool → MainState
new_program prev_mask = record {
  shutdown_signo = none;
  blocked = prev_mask;
  pending = λ s. false;
  is_default = λ s. true;
  stage = at_block;
  sessions = [];
  acts = [];
  arrived = [];
  taken = [];
}

module _ (prev_mask : Bool) (started : Option (List ℕ)) where
  pub data MainStep (p : MainState) : MainState → Type 0 where
    signal_comes : (s : Signal) → MainStep p (arrive s p)
    signal_taken : (s : Signal) → p.pending s ≡ true → is_open p ≡ true → MainStep p (deliver s p)
    main_goes_on : MainStep p (main_step prev_mask started p)

  pub data Runs (start : MainState) : MainState → Type 0 where
    at_first : Runs start start
    and_then : {p q : MainState} → Runs start p → MainStep p q → Runs start q
