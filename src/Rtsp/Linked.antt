-- ===== src/Rtsp/Linked.antt =====
-- What rtsp.cpp does to the configuration keeps it well formed.
pub mod Answers
pub mod Loop
use satip_client.Base.{
  ℕ, zero, suc, ◌-◌, ◌≡◌, refl, subst, sym, Bool, true, false, ◌&&◌, ◌||◌, not, ltb, leb, ◌==◌,
  if◌then◌else◌, List, [], ◌∷◌, ◌++◌, length, arith, Option-cases, if-both, inl, inr,
}
use satip_client.Psi.Bytes.{byte_at}
use satip_client.Config.Header.{FrontendHeader}
use satip_client.Config.State.{
  Config, clear_channel_changed, set_channel_retry, channel_invalid, channel_changed,
  channel_stable, receive_ts,
}
use satip_client.Config.Link.{IsConfig, same-IsConfig, receive_ts-IsConfig}
use satip_client.Config.Request.{is_channel_changed, is_pid_changed}
use satip_client.Config.State.{get_pid_status}
use satip_client.Config.Request.Linked.{get_setup_data-IsConfig, get_play_data-IsConfig}
use satip_client.Base.Search.{c_string, find_text}
use satip_client.Rtsp.State.{
  Rtsp, RtspStatus, config_waiting, server_connecting, session_establishing, session_playing,
  session_transmitting, session_teardowning, RtspRequest, request_none, request_option,
  request_setup, request_play, request_teardown, request_describe, RtspResult, rtsp_failed, rtsp_ok,
  rtsp_error, response_complete, lacks_session, is_active,
}
use satip_client.Rtsp.Timers.{
  reset_connect, closed, is_new_tuning, is_channel_invalid, start_timer_reset_connect,
  stop_timer_reset_connect, start_timer_keep_alive, stop_timer_keep_alive, start_timer_reconnect,
  stop_timer_reconnect, reset_reconnect_backoff, timeout_connect, timeout_reconnect, retry,
}
use satip_client.Rtsp.Parse.{CLibrary, handle_response_setup, with_timeout, with_stream_id}
use satip_client.Rtsp.Send.{
  send_setup, send_play, send_option, send_teardown, send_describe, send_text, after_send,
  send_request, transmit,
}
use satip_client.Rtsp.Receive.{
  frame_len, Clock, Received, end_of_stream, bytes_read, Pass, returns, again, complete, accept,
  conclude, answer, text_pass, blank_line, take_frame, pass, passes, handle_response, rtp_tcp_data,
}
use satip_client.Rtsp.Machine.{
  Events, handle_input, move_if_complete, move_if_ok, event_case, handle_poll_events,
  forget_penalty, attempt_connect, connect_changed, wait_for_config, while_transmitting,
  status_case, handle_rtsp_status,
}
use satip_client.Rtsp.Due.{Due, timeout_keep_alive, call_if_due, handle_next_timer}
use satip_client.Rtsp.Answers.{Pass-cases}

abbrev pub Linked : Rtsp → Type 0
Linked s = IsConfig s.config

pub clear_channel_changed-IsConfig : (c : Config) → IsConfig c → IsConfig (clear_channel_changed c)
unfolding clear_channel_changed
clear_channel_changed-IsConfig c v = record { pid_list = v.pid_list; linked = v.linked }

pub set_channel_retry-IsConfig : (c : Config) → IsConfig c → IsConfig (set_channel_retry c)
unfolding set_channel_retry
set_channel_retry-IsConfig c v = record { pid_list = v.pid_list; linked = v.linked }

pub reset_connect-Linked : (auto : Bool) (s : Rtsp) → Linked s → Linked (reset_connect auto s)
unfolding reset_connect closed reset_reconnect_backoff stop_timer_reconnect start_timer_reconnect
reset_connect-Linked auto s v =
    if-both Linked ((not auto || is_channel_invalid s.config.status) || is_new_tuning s) _ _ v
      (clear_channel_changed-IsConfig s.config v)

transmit-Linked :
    (send_ok : Bool) (text : List ℕ) (s : Rtsp) → Linked s → Linked (transmit send_ok text s).0
unfolding transmit
transmit-Linked true text s v = v
transmit-Linked false text s v = v

after_send-Linked :
    (request : RtspRequest) (s : Rtsp) (res : RtspResult)
    → Linked s
    → Linked (after_send request (s, res)).0
unfolding after_send start_timer_reset_connect
after_send-Linked request s rtsp_ok v = v
after_send-Linked request s rtsp_failed v = reset_connect-Linked true s v
after_send-Linked request s rtsp_error v = reset_connect-Linked true s v
after_send-Linked request s response_complete v = reset_connect-Linked true s v

-- The first component, for `if-both`.
abbrev pub LinkedResult : Rtsp × RtspResult → Type 0
LinkedResult r = Linked r.0

module _ (k : FrontendHeader) where
  send_text-Linked :
      (request : RtspRequest) (send_ok : Bool) (s : Rtsp)
      → Linked s
      → Linked (send_text k request send_ok s).0
  unfolding send_text send_setup send_play send_option send_teardown send_describe
  send_text-Linked request_none send_ok s v = v
  send_text-Linked request_option send_ok s v =
      if-both LinkedResult (lacks_session s) _ _ v (transmit-Linked send_ok _ s v)
  send_text-Linked request_setup send_ok s v =
      transmit-Linked send_ok _ _ (get_setup_data-IsConfig k s.config v)
  send_text-Linked request_play send_ok s v =
      if-both LinkedResult (lacks_session s) _ _ v
        (transmit-Linked send_ok _ _ (get_play_data-IsConfig k s.config v))
  send_text-Linked request_teardown send_ok s v =
      if-both LinkedResult (lacks_session s) _ _ v (transmit-Linked send_ok _ s v)
  send_text-Linked request_describe send_ok s v = transmit-Linked send_ok _ s v

  pub send_request-Linked :
      (request : RtspRequest) (send_ok : Bool) (s : Rtsp)
      → Linked s
      → Linked (send_request k request send_ok s).0
  unfolding send_request stop_timer_keep_alive
  send_request-Linked request send_ok s v =
      let r = send_text k request send_ok (stop_timer_keep_alive s) in
      if-both LinkedResult s.wait_response _ _ v (
        after_send-Linked request r.0 r.1
          (send_text-Linked request send_ok (stop_timer_keep_alive s) v))
