-- ===== src/Session/Recovery.antt =====
-- How a tuner that lost its server comes back: the steps of the session thread from the lost
-- connection to the next SETUP.
use satip_client.Base.{
  ℕ, suc, ◌≤◌, ◌≡◌, refl, sym, subst, ◌∙◌, ap, Bool, true, false, none, some, arith, length,
}
use satip_client.Config.Header.{FrontendHeader}
use satip_client.Config.State.{
  channel_changed, channel_stable, clear_channel_changed, set_channel_retry,
}
use satip_client.Rtsp.State.{
  Rtsp, config_waiting, server_connecting, session_establishing, request_setup, is_active,
}
use satip_client.Rtsp.Timers.{
  reset_connect, closed, is_new_tuning, start_timer_reset_connect, stop_timer_reset_connect,
  start_timer_reconnect, stop_timer_reconnect, reset_reconnect_backoff, stop_timer_keep_alive,
  timeout_connect, timeout_reconnect, retry, reconnect_delay, max_ms,
}
use satip_client.Rtsp.Parse.{CLibrary}
use satip_client.Rtsp.Send.{send_setup, send_text, after_send, send_request, transmit}
use satip_client.Rtsp.Receive.{Clock, Received}
use satip_client.Rtsp.Machine.{
  Events, forget_penalty, attempt_connect, connect_changed, wait_for_config, status_case,
  handle_rtsp_status, event_case, handle_poll_events,
}
use satip_client.Rtsp.Due.{Due, timeout_keep_alive, call_if_due, handle_next_timer}
use satip_client.Rtsp.Invariant.{IsRtsp, delays}

-- The connection is gone, and the timer of the next try runs for at most 30 s.
record IsWaiting (s : Rtsp) : Type 0 where
  pub status : s.status ≡ config_waiting
  pub stable : s.config.status ≡ channel_stable
  pub unanswered : s.wait_response ≡ false
  pub watchdog : s.timer_reset_connect ≡ none
  pub keep_alive : s.timer_keep_alive ≡ none
  pub retries : (d : ℕ) × (s.timer_reconnect ≡ some d) × (1000 ≤ d) × (d ≤ max_ms)

broken-IsWaiting :
    (libc : CLibrary) (clock : Clock) (received : Received) (events : Events) (s : Rtsp)
    → IsRtsp s
    → s.config.status ≡ channel_stable
    → events.broken ≡ true
    → IsWaiting (handle_poll_events libc clock received events s)
unfolding handle_poll_events reset_connect closed is_new_tuning start_timer_reconnect
    clear_channel_changed
broken-IsWaiting libc clock received events s v c b =
    let l = delays s.reconnect_attempts v.attempts in
    record {
      status = ground (arith, b, c);
      stable = ground (arith, b, c);
      unanswered = ground (arith, b, c);
      watchdog = ground (arith, b, c);
      keep_alive = ground (arith, b, c);
      retries = (reconnect_delay s.reconnect_attempts, ground (arith, b, c), l.0, l.1);
    }

-- The timer has run: the tuning is tried again.
record IsRetrying (s : Rtsp) : Type 0 where
  pub status : s.status ≡ config_waiting
  pub changed : s.config.status ≡ channel_changed
  pub unanswered : s.wait_response ≡ false

call_if_due-skips :
    (active due : Bool) (handler : Rtsp → Rtsp) (s : Rtsp)
    → active ≡ false
    → call_if_due active due handler s ≡ s
unfolding call_if_due
call_if_due-skips active due handler s h = rw h refl

call_if_due-runs :
    (active due : Bool) (handler : Rtsp → Rtsp) (s : Rtsp)
    → active ≡ true
    → due ≡ true
    → call_if_due active due handler s ≡ handler s
unfolding call_if_due
call_if_due-runs active due handler s h d = rw (h, d) refl

retried_frame :
    (s : Rtsp)
    → s.config.status ≡ channel_stable
    → let t = timeout_reconnect s in
      (t.status ≡ s.status)
      × (t.config.status ≡ channel_changed)
      × (t.wait_response ≡ s.wait_response)
unfolding timeout_reconnect retry stop_timer_reconnect set_channel_retry
retried_frame s c = (ground (arith, c), ground (arith, c), ground (arith, c))

module _ (k : FrontendHeader) (send_ok : Bool) (due : Due) where
  handle_next_timer-reconnects :
      (s : Rtsp)
      → IsWaiting s
      → due.reconnect_due ≡ true
      → handle_next_timer k send_ok due s ≡ timeout_reconnect s
  unfolding handle_next_timer
  handle_next_timer-reconnects s w d =
      let (n, timer, low, high) = w.retries in
      let third : Rtsp → Rtsp =
        λ t. call_if_due (is_active t.timer_reconnect) due.reconnect_due timeout_reconnect t in
      let second : Rtsp → Rtsp = λ t.
        call_if_due (is_active t.timer_keep_alive) due.keep_alive_due (timeout_keep_alive k send_ok)
          t in
      ap (λ t. third (second t))
        (call_if_due-skips (is_active s.timer_reset_connect) due.connect_due timeout_connect s
          (ap is_active w.watchdog))
      ∙ (ap third (
            call_if_due-skips (is_active s.timer_keep_alive) due.keep_alive_due
              (timeout_keep_alive k send_ok) s (ap is_active w.keep_alive))
          ∙ call_if_due-runs (is_active s.timer_reconnect) due.reconnect_due timeout_reconnect s
              (ap is_active timer) d)

  timer-IsRetrying :
      (s : Rtsp)
      → IsWaiting s
      → due.reconnect_due ≡ true
      → IsRetrying (handle_next_timer k send_ok due s)
  timer-IsRetrying s w d =
      let (status, changed, unanswered) = retried_frame s w.stable in
      subst IsRetrying (sym (handle_next_timer-reconnects s w d)) (record {
        status = status ∙ w.status;
        changed = changed;
        unanswered = unanswered ∙ w.unanswered;
      })

-- The connection is being made, with the watchdog on it.
record IsConnecting (s : Rtsp) : Type 0 where
  pub status : s.status ≡ server_connecting
  pub unanswered : s.wait_response ≡ false
  pub watchdog : s.timer_reset_connect ≡ some 5000

connect_changed-IsConnecting :
    (s : Rtsp) → s.wait_response ≡ false → IsConnecting (connect_changed true s)
unfolding connect_changed attempt_connect start_timer_reset_connect forget_penalty
    reset_reconnect_backoff stop_timer_reconnect
connect_changed-IsConnecting s h = record {
  status = refl;
  unanswered = ground (arith, h);
  watchdog = refl;
}

wait_for_config-changed :
    (connected : Bool) (s : Rtsp)
    → s.config.status ≡ channel_changed
    → wait_for_config connected s ≡ connect_changed connected s
unfolding wait_for_config
wait_for_config-changed connected s h = rw h refl

wait_for_config-stable :
    (connected : Bool) (s : Rtsp)
    → s.config.status ≡ channel_stable
    → wait_for_config connected s ≡ s
unfolding wait_for_config
wait_for_config-stable connected s h = rw h refl

module _ (k : FrontendHeader) (libc : CLibrary) where
  status-IsConnecting :
      (send_ok : Bool) (s : Rtsp)
      → IsRetrying s
      → IsConnecting (handle_rtsp_status k true send_ok s)
  unfolding handle_rtsp_status status_case
  status-IsConnecting send_ok s r =
      subst IsConnecting
        (sym (
          ap (λ st. status_case k st true send_ok s) r.status
          ∙ wait_for_config-changed true s r.changed))
        (connect_changed-IsConnecting s r.unanswered)

  -- The socket can be written: SETUP is due.
  established :
      (clock : Clock) (received : Received) (events : Events) (s : Rtsp)
      → IsConnecting s
      → events.broken ≡ false
      → events.writable ≡ true
      → let t = handle_poll_events libc clock received events s in
        (t.status ≡ session_establishing) × (t.wait_response ≡ false) × (t.sent ≡ s.sent)
  unfolding handle_poll_events event_case stop_timer_reset_connect
  established clock received events s c b w = rw (b, c.status, w) (refl, c.unanswered, refl)

  setup_sent :
      (connected : Bool) (s : Rtsp)
      → s.status ≡ session_establishing
      → s.wait_response ≡ false
      → let t = handle_rtsp_status k connected true s in
        (t.status ≡ session_establishing)
        × (t.wait_response ≡ true)
        × (t.request ≡ request_setup)
        × (t.timer_reset_connect ≡ some 4000)
        × (length t.sent ≡ suc (length s.sent))
  unfolding handle_rtsp_status status_case send_request send_text send_setup transmit after_send
      stop_timer_keep_alive start_timer_reset_connect
  setup_sent connected s e w = rw (e, w) (refl, refl, refl, refl, refl)

  -- While the tuner waits, the status is left alone.
  waits_on :
      (connected send_ok : Bool) (s : Rtsp)
      → IsWaiting s
      → handle_rtsp_status k connected send_ok s ≡ s
  unfolding handle_rtsp_status status_case wait_for_config
  waits_on connected send_ok s w =
      ap (λ st. status_case k st connected send_ok s) w.status
      ∙ wait_for_config-stable connected s w.stable

  -- A tuner that has a tuning and loses its server comes back: the timer of the next try runs for 1
  -- to 30 seconds, in which the status is left alone; when it is due and the server accepts the
  -- connection, the loop connects and, once the socket can be written and takes the request, sends
  -- one SETUP and awaits its answer under a watchdog of 4 seconds.
  pub lost_session_recovers :
      (clock : Clock) (received : Received) (lost ready : Events) (due : Due)
      (connected send_ok : Bool) (s : Rtsp)
      → IsRtsp s
      → s.config.status ≡ channel_stable
      → lost.broken ≡ true
      → due.reconnect_due ≡ true
      → ready.broken ≡ false
      → ready.writable ≡ true
      → let waiting = handle_poll_events libc clock received lost s in
        let connecting =
          handle_rtsp_status k true send_ok (handle_next_timer k send_ok due waiting) in
        let requesting =
          handle_rtsp_status k connected true
            (handle_poll_events libc clock received ready connecting) in
        ((d : ℕ) × (waiting.timer_reconnect ≡ some d) × (1000 ≤ d) × (d ≤ max_ms))
        × (handle_rtsp_status k connected send_ok waiting ≡ waiting)
        × (connecting.status ≡ server_connecting)
        × (requesting.status ≡ session_establishing)
        × (requesting.wait_response ≡ true)
        × (requesting.request ≡ request_setup)
        × (requesting.timer_reset_connect ≡ some 4000)
        × (length requesting.sent ≡ suc (length connecting.sent))
  lost_session_recovers clock received lost ready due connected send_ok s v c b d r w =
      let waiting = handle_poll_events libc clock received lost s in
      let waits = broken-IsWaiting libc clock received lost s v c b in
      let connecting =
        handle_rtsp_status k true send_ok (handle_next_timer k send_ok due waiting) in
      let connects =
        status-IsConnecting send_ok _ (timer-IsRetrying k send_ok due waiting waits d) in
      let (status, unanswered, sent) = established clock received ready connecting connects r w in
      let (e, wait, request, watchdog, more) =
        setup_sent connected (handle_poll_events libc clock received ready connecting) status
          unanswered in
      (
        waits.retries,
        waits_on connected send_ok waiting waits,
        connects.status,
        e,
        wait,
        request,
        watchdog,
        more ∙ ap (λ texts. suc (length texts)) sent,
      )
