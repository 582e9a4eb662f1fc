-- ===== src/Rtsp/Machine.antt =====
-- The state machine of rtsp.cpp: `handleRTSPStatus`, `getPollEvent` and `handlePollEvents`, with
-- the constructor.
use satip_client.Base.{ℕ, ◌*◌, Bool, true, false, ◌||◌, not, ltb, if◌then◌else◌, none, []}
use satip_client.Base.Text.{Text}
use satip_client.Config.Header.{FrontendHeader}
use satip_client.Config.State.{
  Config, channel_invalid, channel_changed, channel_stable, clear_channel_changed, get_pid_status,
}
use satip_client.Config.Request.{is_channel_changed, is_pid_changed}
use satip_client.Rtsp.State.{
  Rtsp, RtspStatus, config_waiting, server_connecting, session_establishing, session_playing,
  session_transmitting, session_teardowning, request_none, request_option, request_setup,
  request_play, request_teardown, RtspResult, rtsp_failed, rtsp_ok, rtsp_error, response_complete,
  is_active, minus_one,
}
use satip_client.Rtsp.Timers.{
  reset_connect, start_timer_reset_connect, stop_timer_reset_connect, start_timer_keep_alive,
  start_timer_reconnect, stop_timer_reconnect, reset_reconnect_backoff, is_channel_invalid,
}
use satip_client.Rtsp.Parse.{CLibrary}
use satip_client.Rtsp.Send.{send_request}
use satip_client.Rtsp.Receive.{Clock, Received, handle_response}

-- What `getPollEvent` asks for: nothing, or input or output with the three errors.
pub data PollEvent : Type 0 where
  no_poll poll_input poll_output : PollEvent

-- The events that `poll` reports; `broken` is any of `POLLHUP`, `POLLERR` and `POLLNVAL`.
pub record Events : Type 0 where
  pub broken : Bool
  pub readable : Bool
  pub writable : Bool

-- `getPollEvent`
unfoldable pub get_poll_event : Rtsp → PollEvent
get_poll_event s =
    let tcpdata = s.config.settings.tcpdata in
    elim s.status [
      | config_waiting ↦ if tcpdata then poll_input else no_poll
      | server_connecting ↦ poll_output
      | session_establishing ↦ poll_input
      | session_playing ↦ poll_input
      | session_transmitting ↦ elim s.request [
        | request_option ↦ poll_input
        | _ ↦ if tcpdata then poll_input else no_poll
      ]
      | session_teardowning ↦ poll_input
    ]

-- `if (... == RTSP_OK) m_rtsp_status = ...`
abbrev pub move_if_ok : RtspStatus → Rtsp × RtspResult → Rtsp
move_if_ok status (s, rtsp_ok) = record s { status = status }
move_if_ok status (s, rtsp_failed) = s
move_if_ok status (s, rtsp_error) = s
move_if_ok status (s, response_complete) = s

abbrev pub move_if_complete : (Rtsp → Rtsp) → Rtsp × RtspResult → Rtsp
move_if_complete move (s, response_complete) = move s
move_if_complete move (s, rtsp_ok) = s
move_if_complete move (s, rtsp_failed) = s
move_if_complete move (s, rtsp_error) = s

-- A new tuning cancels the wait for a retry and its backoff.
unfoldable pub forget_penalty : Rtsp → Rtsp
unfolding stop_timer_reconnect reset_reconnect_backoff
forget_penalty s =
    if ltb s.attempted_generation s.config.tune_generation
    then reset_reconnect_backoff (stop_timer_reconnect s)
    else s

-- The result of `connectToServer` is the argument `connected`.
unfoldable pub attempt_connect : Bool → Rtsp → Rtsp
unfolding start_timer_reset_connect start_timer_reconnect clear_channel_changed
attempt_connect connected s =
    let tried = record s { attempted_generation = s.config.tune_generation } in
    if connected
    then start_timer_reset_connect 5000
        (record tried { is_open = true; status = server_connecting })
    else start_timer_reconnect (record tried { config = clear_channel_changed tried.config })

-- A changed channel while the configuration is waited for.
unfoldable pub connect_changed : Bool → Rtsp → Rtsp
unfolding forget_penalty attempt_connect
connect_changed connected s = attempt_connect connected (forget_penalty s)

-- The case of `RTSP_STATUS_CONFIG_WAITING`
unfoldable pub wait_for_config : Bool → Rtsp → Rtsp
unfolding connect_changed stop_timer_reconnect reset_reconnect_backoff
wait_for_config connected s = elim s.config.status [
  | channel_invalid ↦
      reset_reconnect_backoff (if is_active s.timer_reconnect then stop_timer_reconnect s else s)
  | channel_changed ↦ connect_changed connected s
  | channel_stable ↦ s
]

module _ (k : FrontendHeader) where
  -- The case of `RTSP_STATUS_SESSION_TRANSMITTING`
  unfoldable pub while_transmitting : Bool → Rtsp → Rtsp
  unfolding send_request start_timer_keep_alive get_pid_status
  while_transmitting send_ok s =
      if is_channel_changed s.config.status || is_pid_changed (get_pid_status s.config)
      then move_if_ok session_playing (send_request k request_play send_ok s)
      else if is_channel_invalid s.config.status
      then move_if_ok session_teardowning (send_request k request_teardown send_ok s)
      else if not (is_active s.timer_keep_alive)
      then start_timer_keep_alive s
      else s

  -- `handleRTSPStatus`, by the status at its start
  unfoldable pub status_case : RtspStatus → Bool → Bool → Rtsp → Rtsp
  unfolding wait_for_config while_transmitting send_request
  status_case config_waiting connected send_ok s = wait_for_config connected s
  status_case server_connecting connected send_ok s = s
  status_case session_establishing connected send_ok s = (send_request k request_setup send_ok s).0
  status_case session_playing connected send_ok s = (send_request k request_play send_ok s).0
  status_case session_transmitting connected send_ok s = while_transmitting send_ok s
  status_case session_teardowning connected send_ok s = s

  unfoldable pub handle_rtsp_status : Bool → Bool → Rtsp → Rtsp
  unfolding status_case
  handle_rtsp_status connected send_ok s = status_case s.status connected send_ok s

module _ (libc : CLibrary) where
  -- A read in `handlePollEvents`, with the move that a complete answer makes.
  unfoldable pub handle_input : Clock → Received → (Rtsp → Rtsp) → Events → Rtsp → Rtsp
  unfolding handle_response
  handle_input clock received move events s =
      if events.readable then move_if_complete move (handle_response libc clock received s) else s

  -- The `switch` of `handlePollEvents`, by the status at its start
  unfoldable pub event_case : RtspStatus → Clock → Received → Events → Rtsp → Rtsp
  unfolding handle_input reset_connect stop_timer_reset_connect stop_timer_reconnect
      reset_reconnect_backoff
  event_case config_waiting clock received events s = s
  event_case server_connecting clock received events s =
      if events.writable
      then record (stop_timer_reset_connect s) { status = session_establishing }
      else s
  event_case session_establishing clock received events s =
      handle_input clock received (λ s. record s { status = session_playing }) events s
  event_case session_playing clock received events s =
      handle_input clock received
        (λ s.
          reset_reconnect_backoff
            (stop_timer_reconnect (record s { status = session_transmitting })))
        events s
  event_case session_transmitting clock received events s =
      handle_input clock received (λ s. s) events s
  event_case session_teardowning clock received events s =
      handle_input clock received (reset_connect false) events s

  -- `handlePollEvents`
  unfoldable pub handle_poll_events : Clock → Received → Events → Rtsp → Rtsp
  unfolding event_case reset_connect
  handle_poll_events clock received events s =
      if events.broken then reset_connect true s else event_case s.status clock received events s

-- The members before the body of the constructor runs. `resetConnect` sets those that have no
-- initialiser.
unfoldable pub new_rtsp : Text → Text → ℕ → Config → Rtsp
new_rtsp host port rtp_port config = record {
  host = host;
  port = port;
  rtp_port = rtp_port;
  config = config;
  timer_reset_connect = none;
  timer_keep_alive = none;
  timer_reconnect = none;
  reconnect_attempts = 0;
  attempted_generation = 0;
  is_open = false;
  rx_data_len = if config.settings.tcpdata then 256 * 1024 else 2048;
  rx = [];
  status = config_waiting;
  request = request_none;
  session_id = [];
  stream_id = minus_one;
  timeout = 60;
  cseq = 1;
  wait_response = false;
  sent = [];
}

-- The constructor.
unfoldable pub init_rtsp : Text → Text → ℕ → Config → Rtsp
unfolding new_rtsp reset_connect
init_rtsp host port rtp_port config = reset_connect false (new_rtsp host port rtp_port config)
