-- ===== src/Session.antt =====
-- session.cpp and session.h: the parts of one tuner, the session thread that runs them in turn, and
-- the RTP thread that runs beside it. A step is what a thread does between two looks at the other:
-- one call of the session thread, or one packet of the RTP thread. The results of the system calls
-- are arguments of the steps.
pub mod Invariant
pub mod Recovery
pub mod Stopping
pub mod Dump
pub mod Creation
use satip_client.Base.{
  ℕ, ◌≡◌, Bool, true, false, ◌&&◌, ltb, ◌==◌, if◌then◌else◌, Option, none, some, List, [], ◌∷◌,
  length, drop,
}
use satip_client.Base.Text.{Text}
use satip_client.Psi.Bytes.{byte_at}
use satip_client.Timer.{Timespec}
use satip_client.Config.Header.{FrontendHeader}
use satip_client.Config.State.{Config, FeType, Settings, init_config, receive_ts, wakeup}
use satip_client.Rtp.{Rtp, Scan, rtcp_data}
use satip_client.Vtuner.{Vtuner, Message, Response, vtuner_event}
use satip_client.Rtsp.State.{Rtsp}
use satip_client.Rtsp.Parse.{CLibrary}
use satip_client.Rtsp.Receive.{Clock, Received}
use satip_client.Rtsp.Machine.{
  PollEvent, no_poll, poll_input, poll_output, Events, get_poll_event, handle_rtsp_status,
  handle_poll_events, init_rtsp,
}
use satip_client.Rtsp.Due.{Due, handle_next_timer}

-- Where the session thread stands in its loop: before `handleRTSPStatus`, the timers, the pipe, the
-- tuner's message and the socket's events, or behind the loop.
pub data Phase : Type 0 where
  at_status at_timers at_wakeup at_vtuner at_events finished : Phase

-- `satipSession`. The configuration is one object: the tuner's and the RTSP part's are kept equal.
-- `polled` is what the last `getPollEvent` asked for.
pub record Session : Type 0 where
  pub rtsp : Rtsp
  pub vtuner : Vtuner
  pub phase : Phase
  pub polled : PollEvent
  pub running : Bool

unfoldable pub with_rtsp : Rtsp → Phase → Session → Session
with_rtsp rtsp phase s = record s {
  rtsp = rtsp;
  vtuner = record s.vtuner { config = rtsp.config };
  phase = phase;
}

unfoldable pub with_vtuner : Vtuner → Phase → Session → Session
with_vtuner vtuner phase s = record s {
  rtsp = record s.rtsp { config = vtuner.config };
  vtuner = vtuner;
  phase = phase;
}

unfoldable pub with_config : Config → Phase → Session → Session
with_config config phase s = record s {
  rtsp = record s.rtsp { config = config };
  vtuner = record s.vtuner { config = config };
  phase = phase;
}

-- The constructor: the configuration, whose pipe may be missing, the tuner, the signal and the RTSP
-- part. `vtuner` holds the members that the tuner's constructor leaves unset.
unfoldable pub init_session :
    FrontendHeader → Bool → FeType → Settings → Text → Text → ℕ → Vtuner → Session
unfolding init_config init_rtsp
init_session k has_pipe fe_type settings host port rtp_port vtuner =
    let config = record (init_config k fe_type settings) { has_wakeup = has_pipe } in
    let rtsp = init_rtsp host port rtp_port config in
    record {
      rtsp = rtsp;
      vtuner = record {
        tone = k.sec_tone_off;
        tune_tries = vtuner.tune_tries;
        timeout = vtuner.timeout;
        config = rtsp.config;
        rtp = record { has_lock = false; signal_strength = 0; signal_quality = 0 };
      };
      phase = at_status;
      polled = no_poll;
      running = true;
    }

-- The pipe is read until it is empty.
unfoldable pub drain : Config → Config
drain c = record c { wakeups = 0 }

-- `rtpDump`: a packet behind the 12 bytes of its header.
unfoldable pub rtp_packet : Clock → List ℕ → Config → Config
unfolding receive_ts
rtp_packet clock bytes c =
    if ltb 12 (length bytes) && byte_at bytes 12 == 0x47
    then receive_ts clock.first clock.now (drop 12 bytes) c
    else c

abbrev pub is_polled : PollEvent → Bool
is_polled no_poll = false
is_polled poll_input = true
is_polled poll_output = true

module _ (k : FrontendHeader) (libc : CLibrary) (scan : Scan) (old_mode : Bool) where
  -- The calls of `satipMainLoop`, in their order.
  unfoldable pub status_step : Bool → Bool → Session → Session
  unfolding handle_rtsp_status get_poll_event with_rtsp
  status_step connected send_ok s =
      let rtsp = handle_rtsp_status k connected send_ok s.rtsp in
      record (with_rtsp rtsp at_timers s) { polled = get_poll_event rtsp }

  unfoldable pub timers_step : Bool → Due → Session → Session
  unfolding handle_next_timer with_rtsp
  timers_step send_ok due s = with_rtsp (handle_next_timer k send_ok due s.rtsp) at_wakeup s

  unfoldable pub wakeup_step : Bool → Session → Session
  unfolding drain with_config
  wakeup_step readable s =
      with_config
        (if s.rtsp.config.has_wakeup && readable then drain s.rtsp.config else s.rtsp.config)
        at_vtuner s

  unfoldable pub vtuner_step : Timespec → Option Message → Session → Session
  unfolding vtuner_event with_vtuner
  vtuner_step now none s = record s { phase = at_events }
  vtuner_step now (some msg) s =
      with_vtuner (vtuner_event k old_mode now msg s.vtuner).0 at_events s

  -- The events that `poll` reported; they are handled although a timer may have closed the socket
  -- since.
  unfoldable pub events_step : Clock → Received → Option Events → Session → Session
  unfolding handle_poll_events with_rtsp
  events_step clock received none s = record s { phase = at_status }
  events_step clock received (some events) s =
      if is_polled s.polled
      then with_rtsp (handle_poll_events libc clock received events s.rtsp) at_status s
      else record s { phase = at_status }

  -- `stop`, as far as the session thread sees it
  unfoldable pub stop_session : Session → Session
  unfolding wakeup with_config
  stop_session s = record (with_config (wakeup s.rtsp.config) s.phase s) { running = false }

  pub data Step (s : Session) : Session → Type 0 where
    handle_status :
        (connected send_ok : Bool)
        → s.phase ≡ at_status
        → s.running ≡ true
        → Step s (status_step connected send_ok s)
    leave : s.phase ≡ at_status → s.running ≡ false → Step s (record s { phase = finished })
    poll_failed : s.phase ≡ at_timers → Step s (record s { phase = finished })
    handle_timers :
        (send_ok : Bool) (due : Due) → s.phase ≡ at_timers → Step s (timers_step send_ok due s)
    handle_wakeup : (readable : Bool) → s.phase ≡ at_wakeup → Step s (wakeup_step readable s)
    handle_message :
        (now : Timespec) (msg : Option Message)
        → s.phase ≡ at_vtuner
        → Step s (vtuner_step now msg s)
    handle_events :
        (clock : Clock) (received : Received) (events : Option Events)
        → s.phase ≡ at_events
        → Step s (events_step clock received events s)
    receive_rtp :
        (clock : Clock) (bytes : List ℕ)
        → Step s (with_config (rtp_packet clock bytes s.rtsp.config) s.phase s)
    receive_rtcp :
        (bytes : List ℕ) (rtp : Rtp)
        → rtcp_data scan bytes s.vtuner.rtp ≡ some rtp
        → Step s (record s { vtuner = record s.vtuner { rtp = rtp } })
    stopped : Step s (stop_session s)

  pub data Reach (start : Session) : Session → Type 0 where
    begin : Reach start start
    later : {s t : Session} → Reach start s → Step s t → Reach start t
