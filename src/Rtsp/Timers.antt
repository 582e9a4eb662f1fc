-- ===== src/Rtsp/Timers.antt =====
-- The timers of `satipRTSP`, the reconnect backoff, `resetConnect` and the handlers of the timers.
use satip_client.Base.{
  ℕ, suc, ◌+◌, ◌-◌, ◌*◌, ◌%◌, ◌^◌, Bool, true, false, ◌&&◌, ◌||◌, not, ltb, if◌then◌else◌, none,
  some, [],
}
use satip_client.Config.State.{
  ChannelStatus, channel_invalid, channel_changed, channel_stable, clear_channel_changed,
  set_channel_retry,
}
use satip_client.Config.Request.{is_channel_changed}
use satip_client.Rtsp.State.{Rtsp, config_waiting, request_none, minus_one}

-- `startTimerResetConnect`, `stopTimerResetConnect`
unfoldable pub start_timer_reset_connect : ℕ → Rtsp → Rtsp
start_timer_reset_connect timeout s = record s { timer_reset_connect = some timeout }

unfoldable pub stop_timer_reset_connect : Rtsp → Rtsp
stop_timer_reset_connect s = record s { timer_reset_connect = none }

-- `startTimerKeepAliveMessage`, `stopTimerKeepAliveMessage`
unfoldable pub start_timer_keep_alive : Rtsp → Rtsp
start_timer_keep_alive s = record s {
  timer_keep_alive = some ((s.timeout + (2 ^ 32 - 5)) * 1000 % 2 ^ 32);
}

unfoldable pub stop_timer_keep_alive : Rtsp → Rtsp
stop_timer_keep_alive s = record s { timer_keep_alive = none }

-- `initial_ms << m_reconnect_attempts`, and its cap at `max_ms`. The number of attempts stays below
-- 6, so nothing is shifted out of the `long` and the test for `delay <= 0` never holds.
abbrev pub max_ms : ℕ
max_ms = 30000

unfoldable pub reconnect_delay : ℕ → ℕ
reconnect_delay attempts =
    let delay = 1000 * 2 ^ attempts in if ltb max_ms delay then max_ms else delay

-- `startTimerReconnect`
unfoldable pub start_timer_reconnect : Rtsp → Rtsp
unfolding reconnect_delay
start_timer_reconnect s =
    let delay = reconnect_delay s.reconnect_attempts in
    record s {
      timer_reconnect = some delay;
      reconnect_attempts =
          if ltb delay max_ms then suc s.reconnect_attempts else s.reconnect_attempts;
    }

-- `stopTimerReconnect`, `resetReconnectBackoff`
unfoldable pub stop_timer_reconnect : Rtsp → Rtsp
stop_timer_reconnect s = record s { timer_reconnect = none }

unfoldable pub reset_reconnect_backoff : Rtsp → Rtsp
reset_reconnect_backoff s = record s { reconnect_attempts = 0 }

-- `resetConnect`: the members it sets back.
unfoldable pub closed : Rtsp → Rtsp
closed s = record s {
  status = config_waiting;
  request = request_none;
  cseq = 1;
  session_id = [];
  stream_id = minus_one;
  timeout = 60;
  rx = [];
  wait_response = false;
  is_open = false;
  timer_reset_connect = none;
  timer_keep_alive = none;
}

abbrev pub is_channel_invalid : ChannelStatus → Bool
is_channel_invalid channel_invalid = true
is_channel_invalid _ = false

-- `resetConnect`: a new tuning that no connection was tried for.
unfoldable pub is_new_tuning : Rtsp → Bool
is_new_tuning s =
    is_channel_changed s.config.status && ltb s.attempted_generation s.config.tune_generation

unfoldable pub reset_connect : Bool → Rtsp → Rtsp
unfolding closed is_new_tuning stop_timer_reconnect reset_reconnect_backoff start_timer_reconnect
    clear_channel_changed
reset_connect auto_reconnect s =
    let c = closed s in
    if (not auto_reconnect || is_channel_invalid s.config.status) || is_new_tuning s
    then reset_reconnect_backoff (stop_timer_reconnect c)
    else start_timer_reconnect (record c { config = clear_channel_changed c.config })

-- `timeoutConnect`, run by `timer_elem::call`, which then ends the single shot.
unfoldable pub timeout_connect : Rtsp → Rtsp
unfolding reset_connect stop_timer_reset_connect
timeout_connect s = stop_timer_reset_connect (reset_connect true s)

-- The body of `timeoutReconnect`
unfoldable pub retry : Rtsp → Rtsp
unfolding reset_reconnect_backoff set_channel_retry
retry s = elim s.config.status [
  | channel_invalid ↦ reset_reconnect_backoff s
  | channel_changed ↦ reset_reconnect_backoff s
  | channel_stable ↦ record s { config = set_channel_retry s.config }
]

-- `timeoutReconnect`, run by `timer_elem::call`
unfoldable pub timeout_reconnect : Rtsp → Rtsp
unfolding retry stop_timer_reconnect
timeout_reconnect s = stop_timer_reconnect (retry s)
