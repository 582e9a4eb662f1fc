-- ===== src/Examples/Programs.antt =====
-- The theorems on `main` and the log: a program with two sessions that gets a signal while it starts.
use satip_client.Base.{
  ℕ, ◌+◌, ◌*◌, ◌++◌, ◌≤◌, ◌≡◌, ◌≢◌, refl, ◌⊎◌, true, false, Option, none, some, List, [], ◌∷◌, All,
  length,
}
use satip_client.Base.Int.{pos}
use satip_client.Base.Text.{codes}
use satip_client.Program.{
  Signal, sigint, MainState, killed, returned, arrive, deliver, main_step, new_program,
  signal_comes, signal_taken, main_goes_on, Runs, at_first, and_then,
}
use satip_client.Program.Signals.{is_waiting}
use satip_client.Program.Heard.{masked_program, signals_are_heard}
use satip_client.Program.Returning.{main_steps, waiting_returns}
use satip_client.Program.Ending.{stops, joins, CalledAt, Runs-CalledAt}
use satip_client.Program.Log.{
  Log, LogMessage, write_messages, all_spoken, emptied, said, write_messages-spoken,
}

abbrev sessions : Option (List ℕ)
sessions = some (1 ∷ 2 ∷ [])

abbrev main_on : MainState → MainState
main_on p = main_step false sessions p

-- The signal comes while the sessions are started.
abbrev waiting : MainState
waiting = main_on (main_on (main_on (arrive sigint (main_on (masked_program false sessions)))))

abbrev woken : MainState
woken = deliver sigint waiting

reached : Runs false sessions (masked_program false sessions) woken
unfolding main_step arrive
reached =
    and_then
      (and_then
        (and_then
          (and_then (and_then (and_then at_first main_goes_on) (signal_comes sigint)) main_goes_on)
          main_goes_on)
        main_goes_on)
      (signal_taken sigint refl refl)

signals_are_heard_example :
    (woken.arrived ≡ [])
    ⊎ ((woken.stage ≡ killed) × (2 ≤ length woken.arrived))
    ⊎ ((woken.shutdown_signo ≢ none) × (is_waiting woken.stage ≡ false) × (length woken.taken ≡ 1))
    ⊎ ((s : Signal) × (woken.pending s ≡ true))
signals_are_heard_example = signals_are_heard false sessions woken reached

-- Both sessions are stopped, and the first is joined.
abbrev ending : MainState
ending = main_on (main_on (main_on (main_on (main_on (main_on woken)))))

from_start : Runs false sessions (new_program false) ending
unfolding main_step arrive
from_start =
    let masked = and_then at_first main_goes_on in
    let started =
      and_then
        (and_then
          (and_then (and_then (and_then masked main_goes_on) (signal_comes sigint)) main_goes_on)
          main_goes_on)
        main_goes_on in
    let taken = and_then started (signal_taken sigint refl refl) in
    and_then
      (and_then
        (and_then (and_then (and_then (and_then taken main_goes_on) main_goes_on) main_goes_on)
          main_goes_on)
        main_goes_on)
      main_goes_on

Runs-CalledAt_example : CalledAt ending.stage ending.sessions ending.acts
Runs-CalledAt_example = Runs-CalledAt false sessions ending from_start

abbrev quiet : Log
quiet = record { dbg_mask = 47; dbg_level = pos 1; use_syslog = false; has_file = false; msg = [] }

abbrev messages : List LogMessage
messages =
    record { mtype = 1; level = 1; formatted = codes "error: Unknown frontend type" }
    ∷ record { mtype = 16; level = 1; formatted = codes "debug: RTP DATA" }
    ∷ []

write_messages-spoken_example :
    (write_messages messages (emptied quiet) ≡ some (emptied quiet, all_spoken quiet messages))
    × All (λ out. length (said out) ≤ 1022) (all_spoken quiet messages)
write_messages-spoken_example = write_messages-spoken messages quiet

waiting_returns_example :
    let q = main_steps false sessions (2 * length waiting.sessions + 4) (deliver sigint waiting) in
    (q.stage ≡ returned)
    × (q.acts ≡ waiting.acts ++ (stops waiting.sessions ++ joins waiting.sessions))
waiting_returns_example =
    waiting_returns false sessions sigint waiting (unfold main_step arrive in refl)
      (unfold main_step arrive in refl) (unfold main_step arrive in refl)
