-- ===== src/Session/Stopping.antt =====
-- The end of the session thread: what `stop` makes of the loop, whatever else runs.
use satip_client.Base.{
  ℕ, suc, ◌+◌, ◌≤◌, ◌≡◌, refl, ◌⊎◌, inl, inr, Bool, true, false, if◌then◌else◌, if-both, Option,
  none, some, arith,
}
use satip_client.Timer.{Timespec}
use satip_client.Config.Header.{FrontendHeader}
use satip_client.Rtp.{Scan}
use satip_client.Vtuner.{Message}
use satip_client.Rtsp.Parse.{CLibrary}
use satip_client.Rtsp.Receive.{Clock, Received, end_of_stream}
use satip_client.Rtsp.Machine.{Events}
use satip_client.Session.{
  Session, Phase, at_status, at_timers, at_wakeup, at_vtuner, at_events, finished, with_rtsp,
  with_vtuner, with_config, is_polled, timers_step, wakeup_step, vtuner_step, events_step,
  stop_session, Step, handle_status, leave, poll_failed, handle_timers, handle_wakeup,
  handle_message, handle_events, receive_rtp, receive_rtcp, stopped, Reach, begin, later,
}

-- The steps that a thread which no longer runs has before its end.
abbrev steps_left : Phase → ℕ
steps_left at_timers = 5
steps_left at_wakeup = 4
steps_left at_vtuner = 3
steps_left at_events = 2
steps_left at_status = 1
steps_left finished = 0

is_nearer :
    (before after : Phase) {p q : Phase}
    → p ≡ before
    → q ≡ after
    → steps_left after + 1 ≤ steps_left before
    → steps_left q + 1 ≤ steps_left p
is_nearer before after e f h = rw (e, f) h

module _ (k : FrontendHeader) (libc : CLibrary) (scan : Scan) (old_mode : Bool) where
  -- Whether the session thread takes the step, not the RTP thread or the one that calls `stop`.
  unfoldable pub is_own : {s t : Session} → Step k libc scan old_mode s t → Bool
  is_own (handle_status connected send_ok at run) = true
  is_own (leave at run) = true
  is_own (poll_failed at) = true
  is_own (handle_timers send_ok due at) = true
  is_own (handle_wakeup readable at) = true
  is_own (handle_message now msg at) = true
  is_own (handle_events clock received events at) = true
  is_own (receive_rtp clock bytes) = false
  is_own (receive_rtcp bytes rtp e) = false
  is_own stopped = false

  -- The steps of the session thread on the way to a state.
  unfoldable pub own_steps : {start s : Session} → Reach k libc scan old_mode start s → ℕ
  unfolding is_own
  own_steps begin = 0
  own_steps (later r step) = if is_own step then suc (own_steps r) else own_steps r

  -- A step of a thread that no longer runs.
  record Stops (s t : Session) (step : Step k libc scan old_mode s t) : Type 0 where
    halted : t.running ≡ false
    nearer : steps_left t.phase + (if is_own step then 1 else 0) ≤ steps_left s.phase

  events_step-Stops :
      (clock : Clock) (received : Received) (events : Option Events) (s : Session)
      → s.running ≡ false
      → let t = events_step k libc scan old_mode clock received events s in
        (t.running ≡ false) × (t.phase ≡ at_status)
  unfolding events_step with_rtsp
  events_step-Stops clock received none s h = (h, refl)
  events_step-Stops clock received (some events) s h =
      if-both (λ (t : Session). (t.running ≡ false) × (t.phase ≡ at_status)) (is_polled s.polled) _
        _ (h, refl) (h, refl)

  vtuner_step-Stops :
      (now : Timespec) (msg : Option Message) (s : Session)
      → s.running ≡ false
      → let t = vtuner_step k libc scan old_mode now msg s in
        (t.running ≡ false) × (t.phase ≡ at_events)
  unfolding vtuner_step with_vtuner
  vtuner_step-Stops now none s h = (h, refl)
  vtuner_step-Stops now (some msg) s h = (h, refl)

  Step-Stops :
      (s t : Session) (step : Step k libc scan old_mode s t) → s.running ≡ false → Stops s t step
  unfolding is_own timers_step wakeup_step stop_session with_rtsp with_config
  Step-Stops s _ (handle_status connected send_ok at run) h = absurd (cc)
  Step-Stops s _ (leave at run) h = record { halted = h; nearer = rw at (omega arith) }
  Step-Stops s _ (poll_failed at) h = record { halted = h; nearer = rw at (omega arith) }
  Step-Stops s _ (handle_timers send_ok due at) h = record {
    halted = h;
    nearer = rw at (omega arith);
  }
  Step-Stops s _ (handle_wakeup readable at) h = record { halted = h; nearer = rw at (omega arith) }
  Step-Stops s _ (handle_message now msg at) h =
      let (halted, phase) = vtuner_step-Stops now msg s h in
      record { halted = halted; nearer = is_nearer at_vtuner at_events at phase (omega arith) }
  Step-Stops s _ (handle_events clock received events at) h =
      let (halted, phase) = events_step-Stops clock received events s h in
      record { halted = halted; nearer = is_nearer at_events at_status at phase (omega arith) }
  Step-Stops s _ (receive_rtp clock bytes) h = record { halted = h; nearer = omega arith }
  Step-Stops s _ (receive_rtcp bytes rtp e) h = record { halted = h; nearer = omega arith }
  Step-Stops s _ stopped h = record { halted = refl; nearer = omega arith }

  Reach-Stops :
      (start s : Session) (r : Reach k libc scan old_mode start s)
      → start.running ≡ false
      → (s.running ≡ false) × (own_steps r + steps_left s.phase ≤ steps_left start.phase)
  unfolding own_steps
  Reach-Stops start _ begin h = (h, omega arith)
  Reach-Stops start _ (later {s} {t} r step) h =
      let (halted, near) = Reach-Stops start s r h in
      let done = Step-Stops s t step halted in (done.halted, ground (arith, near, done.nearer))

  -- The session thread can take a step.
  abbrev pub CanStep : Session → Type 0
  CanStep s = (t : Session) × (step : Step k libc scan old_mode s t) × (is_own step ≡ true)

  CanStep-at :
      (phase : Phase) (s : Session)
      → s.running ≡ false
      → s.phase ≡ phase
      → (s.phase ≡ finished) ⊎ CanStep s
  unfolding is_own
  CanStep-at at_status s h e = inr (_, leave e h, refl)
  CanStep-at at_timers s h e = inr (
    _,
    handle_timers true
        (record { connect_due = false; keep_alive_due = false; reconnect_due = false }) e,
    refl,
  )
  CanStep-at at_wakeup s h e = inr (_, handle_wakeup true e, refl)
  CanStep-at at_vtuner s h e = inr (_, handle_message (record { sec = 0; nsec = 0 }) none e, refl)
  CanStep-at at_events s h e =
      inr (_, handle_events (record { first = 0; now = 0 }) end_of_stream none e, refl)
  CanStep-at finished s h e = inl e

  five : (phase : Phase) → steps_left phase ≤ 5
  five phase = ground arith

  -- After `stop` the session thread leaves its loop: whatever the RTP thread, the kernel, the server
  -- and further calls of `stop` do in between, it takes at most five more steps, and as long as it is not
  -- at the loop's end, one of the five is left and it can take it.
  pub stop_ends_thread :
      (s t : Session) (r : Reach k libc scan old_mode (stop_session k libc scan old_mode s) t)
      → (own_steps r ≤ 5) × ((t.phase ≡ finished) ⊎ ((suc (own_steps r) ≤ 5) × CanStep t))
  unfolding stop_session
  stop_ends_thread s t r =
      let (halted, near) = Reach-Stops _ t r refl in
      let most = five s.phase in
      (
        omega (arith, near, most),
        elim (CanStep-at t.phase t halted refl) [
          | inl e ↦ inl e
          | inr (u, step, own) ↦
              let next = (Step-Stops t u step halted).nearer in
              inr (ground (arith, near, most, next, own), (u, step, own))
        ],
      )
