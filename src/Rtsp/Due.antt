-- ===== src/Rtsp/Due.antt =====
-- `handleNextTimer` of rtsp.cpp: the handlers of the timers that are due, in the order of the list.
-- Whether the deadline of a timer has passed is an argument.
use satip_client.Base.{◌≡◌, refl, Bool, true, false, ◌&&◌, if◌then◌else◌, arith, if-both}
use satip_client.Config.Header.{FrontendHeader}
use satip_client.Config.State.{channel_invalid, channel_changed, channel_stable, set_channel_retry}
use satip_client.Rtsp.State.{Rtsp, request_option, is_active}
use satip_client.Rtsp.Timers.{
  timeout_connect, timeout_reconnect, retry, reset_connect, closed, stop_timer_keep_alive,
  stop_timer_reset_connect, reset_reconnect_backoff,
}
use satip_client.Rtsp.Send.{send_request}
use satip_client.Rtsp.Invariant.{IsRtsp, may_wait, reset_connect-IsRtsp}
use satip_client.Rtsp.Steps.{
  send_request-IsSent, reset_reconnect_backoff-IsRtsp, stop_timer_reconnect-IsRtsp,
  stop_timer_keep_alive-IsRtsp,
}

-- Which deadlines the clock has passed.
pub record Due : Type 0 where
  pub connect_due : Bool
  pub keep_alive_due : Bool
  pub reconnect_due : Bool

-- `timeoutKeepAlive`, run by `timer_elem::call`
unfoldable pub timeout_keep_alive : FrontendHeader → Bool → Rtsp → Rtsp
unfolding send_request stop_timer_keep_alive
timeout_keep_alive k send_ok s = stop_timer_keep_alive (send_request k request_option send_ok s).0

-- A timer is called only while it is active.
unfoldable pub call_if_due : Bool → Bool → (Rtsp → Rtsp) → Rtsp → Rtsp
call_if_due active due handler s = if active && due then handler s else s

unfoldable pub handle_next_timer : FrontendHeader → Bool → Due → Rtsp → Rtsp
unfolding call_if_due timeout_connect timeout_keep_alive timeout_reconnect
handle_next_timer k send_ok due s =
    let a = call_if_due (is_active s.timer_reset_connect) due.connect_due timeout_connect s in
    let b =
      call_if_due (is_active a.timer_keep_alive) due.keep_alive_due (timeout_keep_alive k send_ok)
        a in
    call_if_due (is_active b.timer_reconnect) due.reconnect_due timeout_reconnect b

timeout_connect-IsRtsp : (s : Rtsp) → IsRtsp s → IsRtsp (timeout_connect s)
unfolding timeout_connect stop_timer_reset_connect reset_connect closed
timeout_connect-IsRtsp s v =
    let r = reset_connect-IsRtsp true s v.attempts in
    record {
      socket = ground arith;
      connecting = ground arith;
      watched = ground arith;
      waits = ground arith;
      keep_alive = ground arith;
      attempts = r.attempts;
    }

retry-IsRtsp : (s : Rtsp) → IsRtsp s → IsRtsp (retry s)
unfolding retry
retry-IsRtsp s v =
    elim s.config.status
      as (λ c. IsRtsp (elim c [
        | channel_invalid ↦ reset_reconnect_backoff s
        | channel_changed ↦ reset_reconnect_backoff s
        | channel_stable ↦ record s { config = set_channel_retry s.config }
      ])) [
        | channel_invalid ↦ reset_reconnect_backoff-IsRtsp s v
        | channel_changed ↦ reset_reconnect_backoff-IsRtsp s v
        | channel_stable ↦ record {
          socket = v.socket;
          connecting = v.connecting;
          watched = v.watched;
          waits = v.waits;
          keep_alive = v.keep_alive;
          attempts = v.attempts;
        }
      ]

timeout_reconnect-IsRtsp : (s : Rtsp) → IsRtsp s → IsRtsp (timeout_reconnect s)
unfolding timeout_reconnect
timeout_reconnect-IsRtsp s v = stop_timer_reconnect-IsRtsp (retry s) (retry-IsRtsp s v)

module _ (k : FrontendHeader) (send_ok : Bool) where
  timeout_keep_alive-IsRtsp :
      (s : Rtsp)
      → IsRtsp s
      → is_active s.timer_keep_alive ≡ true
      → IsRtsp (timeout_keep_alive k send_ok s)
  unfolding timeout_keep_alive
  timeout_keep_alive-IsRtsp s v a =
      let m : may_wait s.status ≡ true = ground (arith, v.keep_alive a) in
      stop_timer_keep_alive-IsRtsp _ (send_request-IsSent k request_option send_ok s v m).valid

  call_if_due-IsRtsp :
      (active due : Bool) (handler : Rtsp → Rtsp) (s : Rtsp)
      → IsRtsp s
      → (active ≡ true → IsRtsp (handler s))
      → IsRtsp (call_if_due active due handler s)
  unfolding call_if_due
  call_if_due-IsRtsp true due handler s v h = if-both IsRtsp due _ _ (h refl) v
  call_if_due-IsRtsp false due handler s v h = v

  -- The handlers of the timers keep a well-formed session well formed, whichever are due.
  pub handle_next_timer-IsRtsp :
      (due : Due) (s : Rtsp) → IsRtsp s → IsRtsp (handle_next_timer k send_ok due s)
  unfolding handle_next_timer
  handle_next_timer-IsRtsp due s v =
      let a =
        call_if_due-IsRtsp (is_active s.timer_reset_connect) due.connect_due timeout_connect s v
          (λ h. timeout_connect-IsRtsp s v) in
      let b =
        call_if_due-IsRtsp _ due.keep_alive_due (timeout_keep_alive k send_ok) _ a
          (λ h. timeout_keep_alive-IsRtsp _ a h) in
      call_if_due-IsRtsp _ due.reconnect_due timeout_reconnect _ b
        (λ h. timeout_reconnect-IsRtsp _ b)
