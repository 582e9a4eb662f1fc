-- ===== src/Examples/Threads.antt =====
-- The theorems on the session's threads, at a fresh session.
use satip_client.Base.{
  ℕ, suc, ◌≤◌, ◌≡◌, ◌⊎◌, refl, true, false, none, some, List, [], ◌∷◌, ◌++◌, length,
}
use satip_client.Base.Text.{codes}
use satip_client.Config.State.{sat, channel_stable}
use satip_client.Rtsp.State.{Rtsp, server_connecting, session_establishing, request_setup}
use satip_client.Rtsp.Timers.{max_ms}
use satip_client.Rtsp.Receive.{Clock, end_of_stream}
use satip_client.Rtsp.Machine.{Events, handle_rtsp_status, handle_poll_events, init_rtsp, new_rtsp}
use satip_client.Rtsp.Due.{Due, handle_next_timer}
use satip_client.Rtsp.Invariant.{IsRtsp}
use satip_client.Rtsp.Steps.{init_rtsp-IsRtsp}
use satip_client.Session.{
  Session, init_session, with_rtsp, status_step, timers_step, handle_status, handle_timers, stopped,
  stop_session, finished, with_config, Reach, begin, later,
}
use satip_client.Rtp.Writing.{accepted, interrupted, write}
use satip_client.Session.Dump.{
  Round, Sink, recv_interrupted, recv_bytes, recv_failed, bytes_of, rtp_dump,
}
use satip_client.Session.Dump.Steps.{sink_of, with_sink}
use satip_client.Session.Dump.Stream.{payloads, hear_all, rtp_dump-delivers}
use satip_client.Session.Invariant.{IsSession, Reach-IsSession}
use satip_client.Session.Stopping.{own_steps, CanStep, stop_ends_thread}
use satip_client.Session.Recovery.{lost_session_recovers}
use satip_client.Examples.{linux_dvb}
use satip_client.Examples.Requests.{tuned, settings}
use satip_client.Examples.Sessions.{small_libc}
use satip_client.Examples.Signals.{best_scan}
use satip_client.Examples.Tuners.{tuner}

abbrev all_due : Due
all_due = record { connect_due = true; keep_alive_due = true; reconnect_due = true }

abbrev clock : Clock
clock = record { first = 0; now = 0 }

abbrev new_session : Session
new_session =
    init_session linux_dvb true sat settings (codes "192.168.0.2") (codes "554") 46000 tuner

abbrev ran_status : Session
ran_status = status_step linux_dvb small_libc best_scan false true true new_session

abbrev ran_timers : Session
ran_timers = timers_step linux_dvb small_libc best_scan false true all_due ran_status

reached : Reach linux_dvb small_libc best_scan false new_session ran_timers
unfolding init_session status_step with_rtsp
reached = later (later begin (handle_status true true refl refl)) (handle_timers true all_due refl)

Reach-IsSession_example : IsSession ran_timers
Reach-IsSession_example =
    Reach-IsSession linux_dvb small_libc best_scan false true sat settings (codes "192.168.0.2")
      (codes "554") 46000 tuner ran_timers reached

-- A session whose tuning is known to the server.
abbrev settled : Rtsp
settled =
    init_rtsp (codes "192.168.0.2") (codes "554") 46000 (record tuned { status = channel_stable })

settled-IsRtsp : IsRtsp settled
settled-IsRtsp =
    init_rtsp-IsRtsp (codes "192.168.0.2") (codes "554") 46000
      (record tuned { status = channel_stable })

settled_stable : settled.config.status ≡ channel_stable
unfolding init_rtsp new_rtsp
settled_stable = refl

abbrev broken_events : Events
broken_events = record { broken = true; readable = false; writable = false }

abbrev ready_events : Events
ready_events = record { broken = false; readable = false; writable = true }

abbrev waiting : Rtsp
waiting = handle_poll_events small_libc clock end_of_stream broken_events settled

abbrev connecting : Rtsp
connecting =
    handle_rtsp_status linux_dvb true true (handle_next_timer linux_dvb true all_due waiting)

abbrev requesting : Rtsp
requesting =
    handle_rtsp_status linux_dvb true true
      (handle_poll_events small_libc clock end_of_stream ready_events connecting)

lost_session_recovers_example :
    ((d : ℕ) × (waiting.timer_reconnect ≡ some d) × (1000 ≤ d) × (d ≤ max_ms))
    × (handle_rtsp_status linux_dvb true true waiting ≡ waiting)
    × (connecting.status ≡ server_connecting)
    × (requesting.status ≡ session_establishing)
    × (requesting.wait_response ≡ true)
    × (requesting.request ≡ request_setup)
    × (requesting.timer_reset_connect ≡ some 4000)
    × (length requesting.sent ≡ suc (length connecting.sent))
lost_session_recovers_example =
    lost_session_recovers linux_dvb small_libc clock end_of_stream broken_events ready_events
      all_due true true settled settled-IsRtsp settled_stable refl refl refl refl

-- `stop` comes while the thread polls; the timers still run, and `stop` is called once more.
abbrev stopped_once : Session
stopped_once = stop_session linux_dvb small_libc best_scan false ran_status

abbrev stopped_twice : Session
stopped_twice =
    stop_session linux_dvb small_libc best_scan false
      (timers_step linux_dvb small_libc best_scan false true all_due stopped_once)

ending : Reach linux_dvb small_libc best_scan false stopped_once stopped_twice
unfolding status_step stop_session with_config with_rtsp
ending = later (later begin (handle_timers true all_due refl)) stopped

stop_ends_thread_example :
    (own_steps linux_dvb small_libc best_scan false ending ≤ 5)
    × ((stopped_twice.phase ≡ finished)
        ⊎ ((suc (own_steps linux_dvb small_libc best_scan false ending) ≤ 5)
            × CanStep linux_dvb small_libc best_scan false stopped_twice))
stop_ends_thread_example =
    stop_ends_thread linux_dvb small_libc best_scan false ran_status stopped_twice ending

-- Two rounds: a packet behind twelve bytes of header, after an interrupted call, and a report that
-- fails.
abbrev rounds : List Round
rounds =
    record {
      packet = some (
          recv_interrupted
          ∷ recv_bytes (0 ∷ 0 ∷ 0 ∷ 0 ∷ 0 ∷ 0 ∷ 0 ∷ 0 ∷ 0 ∷ 0 ∷ 0 ∷ 0 ∷ 0x47 ∷ 0x1f ∷ 0xff ∷ [])
          ∷ []);
      writes = accepted 2 ∷ interrupted ∷ accepted 1 ∷ [];
      report = none;
      clock = clock;
    }
    ∷ record { packet = none; writes = []; report = some recv_failed; clock = clock }
    ∷ []

abbrev dumped : Sink
dumped = record (sink_of new_session) {
  config = hear_all rounds (sink_of new_session).config;
  written = 0x47 ∷ 0x1f ∷ 0xff ∷ [];
}

dumps : rtp_dump best_scan rounds (sink_of new_session) ≡ some dumped
unfolding rtp_dump
dumps = refl

rtp_dump-delivers_example :
    (dumped.written ≡ [] ++ payloads rounds)
    × (dumped.config ≡ hear_all rounds (sink_of new_session).config)
rtp_dump-delivers_example =
    rtp_dump-delivers best_scan rounds (sink_of new_session) dumped
      (unfold write bytes_of in (refl, (refl, tt))) dumps

at_sink :
    Reach linux_dvb small_libc best_scan false new_session
      (with_sink new_session (sink_of new_session))
unfolding init_session
at_sink = begin
