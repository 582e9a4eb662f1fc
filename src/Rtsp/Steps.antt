-- ===== src/Rtsp/Steps.antt =====
-- The operations of the state machine keep a session well formed.
use satip_client.Base.{
  ℕ, ◌≡◌, refl, Bool, true, false, if◌then◌else◌, none, arith, Bool-cases, if-both, inl, inr,
}
use satip_client.Base.Text.{Text}
use satip_client.Config.Header.{FrontendHeader}
use satip_client.Config.State.{Config, channel_invalid, channel_changed, channel_stable}
use satip_client.Rtsp.State.{
  Rtsp, RtspStatus, config_waiting, server_connecting, session_establishing, session_playing,
  session_transmitting, session_teardowning, RtspRequest, request_setup, request_play,
  request_teardown, RtspResult, rtsp_failed, rtsp_ok, rtsp_error, response_complete, is_active,
}
use satip_client.Rtsp.Timers.{
  start_timer_reset_connect, start_timer_keep_alive, stop_timer_keep_alive, start_timer_reconnect,
  stop_timer_reconnect, reset_reconnect_backoff,
}
use satip_client.Rtsp.Send.{send_request, send_text, after_send}
use satip_client.Rtsp.Machine.{
  new_rtsp, init_rtsp, handle_rtsp_status, wait_for_config, connect_changed, forget_penalty,
  attempt_connect, while_transmitting, status_case, move_if_ok,
}
use satip_client.Rtsp.Invariant.{
  IsRtsp, may_wait, reset_connect-IsRtsp, start_timer_reconnect-attempts, send_text_frame,
}

-- What `sendRequest` leaves: a valid session, also if a sent request moves it to another status.
pub record IsSent (r : Rtsp × RtspResult) : Type 0 where
  pub valid : IsRtsp r.0
  moved : (status : RtspStatus) → may_wait status ≡ true → IsRtsp (move_if_ok status r)

after_send-IsSent :
    (request : RtspRequest) (s : Rtsp) (res : RtspResult)
    → IsRtsp s
    → may_wait s.status ≡ true
    → s.timer_keep_alive ≡ none
    → IsSent (after_send request (s, res))
unfolding after_send start_timer_reset_connect
after_send-IsSent request s rtsp_ok v m k = record {
  valid = record {
    socket = v.socket;
    connecting = λ h. refl;
    watched = λ h. refl;
    waits = λ h. m;
    keep_alive = v.keep_alive;
    attempts = v.attempts;
  };
  moved = λ status m'. record {
    socket = ground (arith, v.socket);
    connecting = λ h. refl;
    watched = λ h. refl;
    waits = λ h. m';
    keep_alive = ground (arith, k);
    attempts = v.attempts;
  };
}
after_send-IsSent request s rtsp_failed v m k =
    let r = reset_connect-IsRtsp true s v.attempts in record { valid = r; moved = λ status m'. r }
after_send-IsSent request s rtsp_error v m k =
    let r = reset_connect-IsRtsp true s v.attempts in record { valid = r; moved = λ status m'. r }
after_send-IsSent request s response_complete v m k =
    let r = reset_connect-IsRtsp true s v.attempts in record { valid = r; moved = λ status m'. r }

pub reset_reconnect_backoff-IsRtsp : (s : Rtsp) → IsRtsp s → IsRtsp (reset_reconnect_backoff s)
unfolding reset_reconnect_backoff
reset_reconnect_backoff-IsRtsp s v = record {
  socket = v.socket;
  connecting = v.connecting;
  watched = v.watched;
  waits = v.waits;
  keep_alive = v.keep_alive;
  attempts = omega arith;
}

pub stop_timer_reconnect-IsRtsp : (s : Rtsp) → IsRtsp s → IsRtsp (stop_timer_reconnect s)
unfolding stop_timer_reconnect
stop_timer_reconnect-IsRtsp s v = record {
  socket = v.socket;
  connecting = v.connecting;
  watched = v.watched;
  waits = v.waits;
  keep_alive = v.keep_alive;
  attempts = v.attempts;
}

pub stop_timer_keep_alive-IsRtsp : (s : Rtsp) → IsRtsp s → IsRtsp (stop_timer_keep_alive s)
unfolding stop_timer_keep_alive
stop_timer_keep_alive-IsRtsp s v = record {
  socket = v.socket;
  connecting = v.connecting;
  watched = v.watched;
  waits = v.waits;
  keep_alive = ground arith;
  attempts = v.attempts;
}

module _ (k : FrontendHeader) where
  send_text-IsRtsp :
      (request : RtspRequest) (send_ok : Bool) (s : Rtsp)
      → IsRtsp s
      → IsRtsp (send_text k request send_ok s).0
  send_text-IsRtsp request send_ok s v =
      let (socket, status, timer, alive, tries, wait) = send_text_frame k request send_ok s in
      record {
        socket = ground (arith, v.socket);
        connecting = ground (arith, v.connecting);
        watched = ground (arith, v.watched);
        waits = ground (arith, v.waits);
        keep_alive = ground (arith, v.keep_alive);
        attempts = ground (arith, v.attempts);
      }

  send_request_skips :
      (request : RtspRequest) (send_ok : Bool) (s : Rtsp)
      → s.wait_response ≡ true
      → send_request k request send_ok s ≡ (s, rtsp_failed)
  unfolding send_request
  send_request_skips request send_ok s w = ground (arith, w)

  send_request_goes :
      (request : RtspRequest) (send_ok : Bool) (s : Rtsp)
      → s.wait_response ≡ false
      → send_request k request send_ok s
        ≡ after_send request (send_text k request send_ok (stop_timer_keep_alive s))
  unfolding send_request
  send_request_goes request send_ok s w = ground (arith, w)

  pub send_request-IsSent :
      (request : RtspRequest) (send_ok : Bool) (s : Rtsp)
      → IsRtsp s
      → may_wait s.status ≡ true
      → IsSent (send_request k request send_ok s)
  send_request-IsSent request send_ok s v m = elim (Bool-cases s.wait_response) [
    | inl w ↦
        rw (send_request_skips request send_ok s w) (record { valid = v; moved = λ status m'. v })
    | inr w ↦
        let t = stop_timer_keep_alive s in
        let v' = stop_timer_keep_alive-IsRtsp s v in
        let (socket, status, timer, alive, tries, wait) = send_text_frame k request send_ok t in
        rw (send_request_goes request send_ok s w) (
          after_send-IsSent request (send_text k request send_ok t).0
            (send_text k request send_ok t).1 (send_text-IsRtsp request send_ok t v')
            (unfold stop_timer_keep_alive in ground arith)
            (unfold stop_timer_keep_alive in ground arith))
  ]

  while_transmitting-IsRtsp :
      (send_ok : Bool) (s : Rtsp)
      → IsRtsp s
      → s.status ≡ session_transmitting
      → IsRtsp (while_transmitting k send_ok s)
  unfolding while_transmitting start_timer_keep_alive
  while_transmitting-IsRtsp send_ok s v t =
      let m : may_wait s.status ≡ true = rw t refl in
      let a = (send_request-IsSent request_play send_ok s v m).moved session_playing refl in
      let b = (send_request-IsSent request_teardown send_ok s v m).moved session_teardowning refl in
      let c : IsRtsp (start_timer_keep_alive s) = record {
        socket = v.socket;
        connecting = v.connecting;
        watched = v.watched;
        waits = v.waits;
        keep_alive = ground (arith, t);
        attempts = v.attempts;
      } in
      if-both IsRtsp _ _ _ a (if-both IsRtsp _ _ _ b (if-both IsRtsp _ _ _ c v))

  attempt_connect-IsRtsp :
      (connected : Bool) (s : Rtsp)
      → IsRtsp s
      → s.status ≡ config_waiting
      → IsRtsp (attempt_connect connected s)
  unfolding attempt_connect start_timer_reconnect start_timer_reset_connect
  attempt_connect-IsRtsp true s v w = record {
    socket = refl;
    connecting = λ h. refl;
    watched = λ h. refl;
    waits = λ h. ground (arith, v.waits h);
    keep_alive = λ h. ground (arith, v.keep_alive h);
    attempts = v.attempts;
  }
  attempt_connect-IsRtsp false s v w = record {
    socket = v.socket;
    connecting = v.connecting;
    watched = v.watched;
    waits = v.waits;
    keep_alive = v.keep_alive;
    attempts = start_timer_reconnect-attempts (record s { config = s.config }) v.attempts;
  }

  connect_changed-IsRtsp :
      (connected : Bool) (s : Rtsp)
      → IsRtsp s
      → s.status ≡ config_waiting
      → IsRtsp (connect_changed connected s)
  unfolding connect_changed
  connect_changed-IsRtsp connected s v w =
      attempt_connect-IsRtsp connected (forget_penalty s)
        (unfold forget_penalty in
          if-both IsRtsp _ _ _
            (reset_reconnect_backoff-IsRtsp (stop_timer_reconnect s)
              (stop_timer_reconnect-IsRtsp s v))
            v)
        (unfold forget_penalty reset_reconnect_backoff stop_timer_reconnect in ground (arith, w))

  wait_for_config-IsRtsp :
      (connected : Bool) (s : Rtsp)
      → IsRtsp s
      → s.status ≡ config_waiting
      → IsRtsp (wait_for_config connected s)
  unfolding wait_for_config reset_reconnect_backoff stop_timer_reconnect
  wait_for_config-IsRtsp connected s v w =
      elim s.config.status
        as (λ c. IsRtsp (elim c [
          | channel_invalid ↦
              reset_reconnect_backoff
                (if is_active s.timer_reconnect then stop_timer_reconnect s else s)
          | channel_changed ↦ connect_changed connected s
          | channel_stable ↦ s
        ])) [
          | channel_invalid ↦
              reset_reconnect_backoff-IsRtsp _
                (if-both IsRtsp _ _ _ (stop_timer_reconnect-IsRtsp s v) v)
          | channel_changed ↦ connect_changed-IsRtsp connected s v w
          | channel_stable ↦ v
        ]

  status_case-IsRtsp :
      (st : RtspStatus) (connected send_ok : Bool) (s : Rtsp)
      → s.status ≡ st
      → IsRtsp s
      → IsRtsp (status_case k st connected send_ok s)
  unfolding status_case
  status_case-IsRtsp config_waiting connected send_ok s e v = wait_for_config-IsRtsp connected s v e
  status_case-IsRtsp server_connecting connected send_ok s e v = v
  status_case-IsRtsp session_establishing connected send_ok s e v =
      (send_request-IsSent request_setup send_ok s v (ground (arith, e))).valid
  status_case-IsRtsp session_playing connected send_ok s e v =
      (send_request-IsSent request_play send_ok s v (ground (arith, e))).valid
  status_case-IsRtsp session_transmitting connected send_ok s e v =
      while_transmitting-IsRtsp send_ok s v e
  status_case-IsRtsp session_teardowning connected send_ok s e v = v

  -- `handleRTSPStatus` keeps a well-formed session well formed, whether or not the server can be
  -- reached and the socket takes the request.
  pub handle_rtsp_status-IsRtsp :
      (connected send_ok : Bool) (s : Rtsp)
      → IsRtsp s
      → IsRtsp (handle_rtsp_status k connected send_ok s)
  unfolding handle_rtsp_status
  handle_rtsp_status-IsRtsp connected send_ok s v =
      status_case-IsRtsp s.status connected send_ok s refl v

-- The constructor makes a well-formed session.
pub init_rtsp-IsRtsp :
    (host port : Text) (rtp_port : ℕ) (config : Config)
    → IsRtsp (init_rtsp host port rtp_port config)
unfolding init_rtsp new_rtsp
init_rtsp-IsRtsp host port rtp_port config =
    reset_connect-IsRtsp false (new_rtsp host port rtp_port config) (omega arith)
