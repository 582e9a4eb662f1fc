-- ===== src/Rtsp/Backoff.antt =====
-- What a lost session comes to: the next attempt, and its delay.
use satip_client.Base.{◌≤◌, ◌<◌, ◌≡◌, true, none, some, arith}
use satip_client.Config.State.{
  channel_invalid, channel_changed, channel_stable, clear_channel_changed,
}
use satip_client.Rtsp.State.{Rtsp}
use satip_client.Rtsp.Timers.{
  reset_connect, closed, is_new_tuning, start_timer_reconnect, stop_timer_reconnect,
  reset_reconnect_backoff, reconnect_delay,
}
use satip_client.Rtsp.Invariant.{delays}

-- A session that is lost (`resetConnect(true)`) while its tuner is tuned is tried again after
-- between 1 and 30 seconds, as the attempts so far say; a tuner that was released is not tried
-- again; and a tuning that no attempt was made for is kept as changed, without a wait. The number
-- of attempts is at most 5 before.
lost_session_retries :
    (s : Rtsp)
    → s.reconnect_attempts ≤ 5
    → let s' = reset_connect true s in
      (s.config.status ≡ channel_stable
        → (s'.timer_reconnect ≡ some (reconnect_delay s.reconnect_attempts))
          × (1000 ≤ reconnect_delay s.reconnect_attempts)
          × (reconnect_delay s.reconnect_attempts ≤ 30000)
          × (s'.config.status ≡ channel_stable))
      × (s.config.status ≡ channel_invalid
          → (s'.timer_reconnect ≡ none) × (s'.reconnect_attempts ≡ 0) × (s'.config ≡ s.config))
      × (s.config.status ≡ channel_changed
          → s.attempted_generation < s.config.tune_generation
          → (s'.timer_reconnect ≡ none) × (s'.reconnect_attempts ≡ 0) × (s'.config ≡ s.config))
unfolding reset_connect closed is_new_tuning start_timer_reconnect stop_timer_reconnect
    reset_reconnect_backoff clear_channel_changed
lost_session_retries s h =
    let (low, high, _) = delays s.reconnect_attempts h in
    (
      λ e. (ground (arith, e), low, high, ground (arith, e)),
      λ e. (ground (arith, e), ground (arith, e), ground (arith, e)),
      λ e g. (ground (arith, e), ground (arith, e), ground (arith, e)),
    )
