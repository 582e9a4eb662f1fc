-- ===== src/Rtsp/Linked/Loop.antt =====
-- The operations that the session thread runs keep the configuration well formed.
use satip_client.Base.{Bool, true, false, ◌&&◌, ◌||◌, not, ltb, if◌then◌else◌, if-both}
use satip_client.Config.Header.{FrontendHeader}
use satip_client.Config.State.{set_channel_retry, channel_invalid, channel_changed, channel_stable}
use satip_client.Config.Request.{is_channel_changed, is_pid_changed}
use satip_client.Config.State.{get_pid_status}
use satip_client.Rtsp.State.{
  Rtsp, RtspStatus, config_waiting, server_connecting, session_establishing, session_playing,
  session_transmitting, session_teardowning, request_option, request_setup, request_play,
  request_teardown, RtspResult, rtsp_failed, rtsp_ok, rtsp_error, response_complete, is_active,
}
use satip_client.Rtsp.Timers.{
  reset_connect, is_channel_invalid, start_timer_reset_connect, stop_timer_reset_connect,
  start_timer_keep_alive, stop_timer_keep_alive, start_timer_reconnect, stop_timer_reconnect,
  reset_reconnect_backoff, timeout_connect, timeout_reconnect, retry,
}
use satip_client.Rtsp.Parse.{CLibrary}
use satip_client.Rtsp.Send.{send_request}
use satip_client.Rtsp.Receive.{Clock, Received, handle_response}
use satip_client.Rtsp.Machine.{
  Events, handle_input, move_if_complete, move_if_ok, event_case, handle_poll_events,
  forget_penalty, attempt_connect, connect_changed, wait_for_config, while_transmitting,
  status_case, handle_rtsp_status,
}
use satip_client.Rtsp.Due.{Due, timeout_keep_alive, call_if_due, handle_next_timer}
use satip_client.Rtsp.Linked.{
  Linked, reset_connect-Linked, send_request-Linked, clear_channel_changed-IsConfig,
  set_channel_retry-IsConfig,
}
use satip_client.Rtsp.Linked.Answers.{handle_response-Linked}

move_if_ok-Linked :
    (status : RtspStatus) (s : Rtsp) (res : RtspResult)
    → Linked s
    → Linked (move_if_ok status (s, res))
move_if_ok-Linked status s rtsp_ok v = v
move_if_ok-Linked status s rtsp_failed v = v
move_if_ok-Linked status s rtsp_error v = v
move_if_ok-Linked status s response_complete v = v

forget_penalty-Linked : (s : Rtsp) → Linked s → Linked (forget_penalty s)
unfolding forget_penalty reset_reconnect_backoff stop_timer_reconnect
forget_penalty-Linked s v =
    if-both Linked (ltb s.attempted_generation s.config.tune_generation) _ _ v v

attempt_connect-Linked :
    (connected : Bool) (s : Rtsp) → Linked s → Linked (attempt_connect connected s)
unfolding attempt_connect start_timer_reset_connect start_timer_reconnect
attempt_connect-Linked true s v = v
attempt_connect-Linked false s v = clear_channel_changed-IsConfig s.config v

wait_for_config-Linked :
    (connected : Bool) (s : Rtsp) → Linked s → Linked (wait_for_config connected s)
unfolding wait_for_config connect_changed reset_reconnect_backoff stop_timer_reconnect
wait_for_config-Linked connected s v =
    elim s.config.status
      as (λ c. Linked (elim c [
        | channel_invalid ↦
            reset_reconnect_backoff
              (if is_active s.timer_reconnect then stop_timer_reconnect s else s)
        | channel_changed ↦ connect_changed connected s
        | channel_stable ↦ s
      ])) [
        | channel_invalid ↦ if-both Linked (is_active s.timer_reconnect) _ _ v v
        | channel_changed ↦
            attempt_connect-Linked connected (forget_penalty s) (forget_penalty-Linked s v)
        | channel_stable ↦ v
      ]

timeout_reconnect-Linked : (s : Rtsp) → Linked s → Linked (timeout_reconnect s)
unfolding timeout_reconnect retry stop_timer_reconnect reset_reconnect_backoff
timeout_reconnect-Linked s v =
    elim s.config.status
      as (λ c. Linked (elim c [
        | channel_invalid ↦ reset_reconnect_backoff s
        | channel_changed ↦ reset_reconnect_backoff s
        | channel_stable ↦ record s { config = set_channel_retry s.config }
      ])) [
        | channel_invalid ↦ v
        | channel_changed ↦ v
        | channel_stable ↦ set_channel_retry-IsConfig s.config v
      ]

call_if_due-Linked :
    (active due : Bool) (handler : Rtsp → Rtsp) (s : Rtsp)
    → Linked s
    → Linked (handler s)
    → Linked (call_if_due active due handler s)
unfolding call_if_due
call_if_due-Linked active due handler s v h = if-both Linked (active && due) _ _ h v

module _ (k : FrontendHeader) where
  while_transmitting-Linked :
      (send_ok : Bool) (s : Rtsp) → Linked s → Linked (while_transmitting k send_ok s)
  unfolding while_transmitting start_timer_keep_alive
  while_transmitting-Linked send_ok s v =
      let play = send_request k request_play send_ok s in
      let teardown = send_request k request_teardown send_ok s in
      if-both Linked
        (is_channel_changed s.config.status || is_pid_changed (get_pid_status s.config)) _ _
        (move_if_ok-Linked session_playing play.0 play.1
          (send_request-Linked k request_play send_ok s v))
        (if-both Linked (is_channel_invalid s.config.status) _ _
          (move_if_ok-Linked session_teardowning teardown.0 teardown.1
            (send_request-Linked k request_teardown send_ok s v))
          (if-both Linked (not (is_active s.timer_keep_alive)) _ _ v v))

  status_case-Linked :
      (st : RtspStatus) (connected send_ok : Bool) (s : Rtsp)
      → Linked s
      → Linked (status_case k st connected send_ok s)
  unfolding status_case
  status_case-Linked config_waiting connected send_ok s v = wait_for_config-Linked connected s v
  status_case-Linked server_connecting connected send_ok s v = v
  status_case-Linked session_establishing connected send_ok s v =
      send_request-Linked k request_setup send_ok s v
  status_case-Linked session_playing connected send_ok s v =
      send_request-Linked k request_play send_ok s v
  status_case-Linked session_transmitting connected send_ok s v =
      while_transmitting-Linked send_ok s v
  status_case-Linked session_teardowning connected send_ok s v = v

  pub handle_rtsp_status-Linked :
      (connected send_ok : Bool) (s : Rtsp)
      → Linked s
      → Linked (handle_rtsp_status k connected send_ok s)
  unfolding handle_rtsp_status
  handle_rtsp_status-Linked connected send_ok s v =
      status_case-Linked s.status connected send_ok s v

  pub handle_next_timer-Linked :
      (send_ok : Bool) (due : Due) (s : Rtsp)
      → Linked s
      → Linked (handle_next_timer k send_ok due s)
  unfolding handle_next_timer timeout_connect timeout_keep_alive stop_timer_reset_connect
      stop_timer_keep_alive
  handle_next_timer-Linked send_ok due s v =
      let sa = call_if_due (is_active s.timer_reset_connect) due.connect_due timeout_connect s in
      let a =
        call_if_due-Linked (is_active s.timer_reset_connect) due.connect_due timeout_connect s v
          (reset_connect-Linked true s v) in
      let sb =
        call_if_due (is_active sa.timer_keep_alive) due.keep_alive_due
          (timeout_keep_alive k send_ok) sa in
      let b =
        call_if_due-Linked (is_active sa.timer_keep_alive) due.keep_alive_due
          (timeout_keep_alive k send_ok) sa a (send_request-Linked k request_option send_ok sa a) in
      call_if_due-Linked (is_active sb.timer_reconnect) due.reconnect_due timeout_reconnect sb b
        (timeout_reconnect-Linked sb b)

module _ (libc : CLibrary) where
  move_if_complete-Linked :
      (move : Rtsp → Rtsp) (s : Rtsp) (res : RtspResult)
      → ((t : Rtsp) → Linked t → Linked (move t))
      → Linked s
      → Linked (move_if_complete move (s, res))
  move_if_complete-Linked move s response_complete keeps v = keeps s v
  move_if_complete-Linked move s rtsp_ok keeps v = v
  move_if_complete-Linked move s rtsp_failed keeps v = v
  move_if_complete-Linked move s rtsp_error keeps v = v

  handle_input-Linked :
      (clock : Clock) (received : Received) (move : Rtsp → Rtsp) (events : Events) (s : Rtsp)
      → Linked s
      → ((t : Rtsp) → Linked t → Linked (move t))
      → Linked (handle_input libc clock received move events s)
  unfolding handle_input
  handle_input-Linked clock received move events s v keeps =
      let r = handle_response libc clock received s in
      if-both Linked events.readable _ _
        (move_if_complete-Linked move r.0 r.1 keeps
          (handle_response-Linked libc clock received s v))
        v

  event_case-Linked :
      (st : RtspStatus) (clock : Clock) (received : Received) (events : Events) (s : Rtsp)
      → Linked s
      → Linked (event_case libc st clock received events s)
  unfolding event_case stop_timer_reset_connect reset_reconnect_backoff stop_timer_reconnect
  event_case-Linked config_waiting clock received events s v = v
  event_case-Linked server_connecting clock received events s v =
      if-both Linked events.writable _ _ v v
  event_case-Linked session_establishing clock received events s v =
      handle_input-Linked clock received (λ t. record t { status = session_playing }) events s v
        (λ t w. w)
  event_case-Linked session_playing clock received events s v =
      handle_input-Linked clock received
        (λ t.
          reset_reconnect_backoff
            (stop_timer_reconnect (record t { status = session_transmitting })))
        events s v (λ t w. w)
  event_case-Linked session_transmitting clock received events s v =
      handle_input-Linked clock received (λ t. t) events s v (λ t w. w)
  event_case-Linked session_teardowning clock received events s v =
      handle_input-Linked clock received (reset_connect false) events s v
        (λ t w. reset_connect-Linked false t w)

  pub handle_poll_events-Linked :
      (clock : Clock) (received : Received) (events : Events) (s : Rtsp)
      → Linked s
      → Linked (handle_poll_events libc clock received events s)
  unfolding handle_poll_events
  handle_poll_events-Linked clock received events s v =
      if-both Linked events.broken _ _ (reset_connect-Linked true s v)
        (event_case-Linked s.status clock received events s v)
