-- ===== src/Rtsp/Invariant.antt =====
-- The well-formedness of a session, which every operation of rtsp.cpp keeps.
use satip_client.Base.{ℕ, zero, suc, ◌≤◌, ◌≡◌, Bool, true, false, ltb, arith}
use satip_client.Config.Header.{FrontendHeader}
use satip_client.Rtsp.State.{
  Rtsp, RtspStatus, config_waiting, server_connecting, session_transmitting, RtspRequest,
  request_none, request_option, request_setup, request_play, request_teardown, request_describe,
  is_active,
}
use satip_client.Rtsp.Timers.{reset_connect, closed, start_timer_reconnect, reconnect_delay, max_ms}
use satip_client.Rtsp.Send.{
  send_text, send_setup, send_play, send_option, send_teardown, send_describe, transmit,
}

-- The statuses in which a socket is open.
abbrev pub is_connected : RtspStatus → Bool
is_connected config_waiting = false
is_connected _ = true

-- The statuses in which requests are sent.
abbrev pub may_wait : RtspStatus → Bool
may_wait config_waiting = false
may_wait server_connecting = false
may_wait _ = true

abbrev pub is_connecting : RtspStatus → Bool
is_connecting server_connecting = true
is_connecting _ = false

abbrev pub is_transmitting : RtspStatus → Bool
is_transmitting session_transmitting = true
is_transmitting _ = false

-- A socket is open exactly when the status says so; the watchdog runs while the connection is made
-- and while an answer is awaited; answers are awaited and the keep-alive timer runs only within a
-- session; and the attempts stay below the cap of the backoff.
pub record IsRtsp (s : Rtsp) : Type 0 where
  pub socket : s.is_open ≡ is_connected s.status
  pub connecting : is_connecting s.status ≡ true → is_active s.timer_reset_connect ≡ true
  pub watched : s.wait_response ≡ true → is_active s.timer_reset_connect ≡ true
  pub waits : s.wait_response ≡ true → may_wait s.status ≡ true
  pub keep_alive : is_active s.timer_keep_alive ≡ true → is_transmitting s.status ≡ true
  pub attempts : s.reconnect_attempts ≤ 5

pub delays :
    (n : ℕ)
    → n ≤ 5
    → (1000 ≤ reconnect_delay n)
      × (reconnect_delay n ≤ max_ms)
      × (ltb (reconnect_delay n) max_ms ≡ ltb n 5)
unfolding reconnect_delay
delays zero h = ground arith
delays (suc zero) h = ground arith
delays (suc (suc zero)) h = ground arith
delays (suc (suc (suc zero))) h = ground arith
delays (suc (suc (suc (suc zero)))) h = ground arith
delays (suc (suc (suc (suc (suc zero))))) h = ground arith
delays (suc (suc (suc (suc (suc (suc n)))))) h = ground arith

pub start_timer_reconnect-attempts :
    (s : Rtsp) → s.reconnect_attempts ≤ 5 → (start_timer_reconnect s).reconnect_attempts ≤ 5
unfolding start_timer_reconnect
start_timer_reconnect-attempts s h = ground (arith, delays s.reconnect_attempts h)

-- `resetConnect` leaves a well-formed session, whatever it was before, if the reconnect attempts were
-- at most 5.
pub reset_connect-IsRtsp :
    (auto : Bool) (s : Rtsp) → s.reconnect_attempts ≤ 5 → IsRtsp (reset_connect auto s)
unfolding reset_connect closed start_timer_reconnect
reset_connect-IsRtsp auto s h =
    let l = delays s.reconnect_attempts h in
    record {
      socket = ground arith;
      connecting = ground arith;
      watched = ground arith;
      waits = ground arith;
      keep_alive = ground arith;
      attempts = ground (arith, l);
    }

-- What a request may do to a session that is not awaiting an answer.
pub send_text_frame :
    (k : FrontendHeader) (request : RtspRequest) (send_ok : Bool) (s : Rtsp)
    → let s' = (send_text k request send_ok s).0 in
      (s'.is_open ≡ s.is_open)
      × (s'.status ≡ s.status)
      × (s'.timer_reset_connect ≡ s.timer_reset_connect)
      × (s'.timer_keep_alive ≡ s.timer_keep_alive)
      × (s'.reconnect_attempts ≡ s.reconnect_attempts)
      × (s'.wait_response ≡ s.wait_response)
unfolding send_text send_setup send_play send_option send_teardown send_describe transmit
send_text_frame k request_none send_ok s = ground arith
send_text_frame k request_option send_ok s = ground arith
send_text_frame k request_setup send_ok s = ground arith
send_text_frame k request_play send_ok s = ground arith
send_text_frame k request_teardown send_ok s = ground arith
send_text_frame k request_describe send_ok s = ground arith
