-- ===== src/Session/Invariant.antt =====
-- What holds in every state that the two threads of a tuner reach, in whatever order they run.
use satip_client.Base.{
  ℕ, ◌≡◌, refl, sym, subst, Bool, false, ◌&&◌, ltb, ◌==◌, if-both, Option, none, some, List, length,
  drop,
}
use satip_client.Base.Text.{Text}
use satip_client.Psi.Bytes.{byte_at}
use satip_client.Timer.{Timespec}
use satip_client.Config.Header.{FrontendHeader}
use satip_client.Config.State.{Config, FeType, Settings, init_config, wakeup}
use satip_client.Config.Link.{IsConfig, init_config-IsConfig, receive_ts-IsConfig}
use satip_client.Rtp.{Scan}
use satip_client.Rtp.Signal.{IsSignal, rtcp_data-IsSignal}
use satip_client.Vtuner.{Vtuner, Message, vtuner_event}
use satip_client.Vtuner.Messages.{vtuner_event-IsConfig, vtuner_event-IsSignal}
use satip_client.Rtsp.State.{Rtsp}
use satip_client.Rtsp.Parse.{CLibrary}
use satip_client.Rtsp.Receive.{Clock, Received}
use satip_client.Rtsp.Machine.{Events, handle_rtsp_status, handle_poll_events, init_rtsp, new_rtsp}
use satip_client.Rtsp.Invariant.{IsRtsp}
use satip_client.Rtsp.Steps.{handle_rtsp_status-IsRtsp, init_rtsp-IsRtsp}
use satip_client.Rtsp.Answers.{handle_poll_events-IsRtsp}
use satip_client.Rtsp.Due.{handle_next_timer, handle_next_timer-IsRtsp}
use satip_client.Rtsp.Linked.{reset_connect-Linked}
use satip_client.Rtsp.Linked.Loop.{
  handle_rtsp_status-Linked, handle_next_timer-Linked, handle_poll_events-Linked,
}
use satip_client.Session.{
  Session, Phase, with_rtsp, with_vtuner, with_config, init_session, drain, rtp_packet, is_polled,
  status_step, timers_step, wakeup_step, vtuner_step, events_step, stop_session, Step,
  handle_status, leave, poll_failed, handle_timers, handle_wakeup, handle_message, handle_events,
  receive_rtp, receive_rtcp, stopped, Reach, begin, later,
}

-- The RTSP session and the configuration are valid, no quality is held without a lock, and the tuner's configuration is the
-- session's.
pub record IsSession (s : Session) : Type 0 where
  pub rtsp : IsRtsp s.rtsp
  pub config : IsConfig s.rtsp.config
  pub shared : s.vtuner.config ≡ s.rtsp.config
  pub signal : IsSignal s.vtuner.rtp

-- The members of the RTSP session that its validity is about do not include the configuration.
with_config-IsRtsp : (c : Config) (s : Rtsp) → IsRtsp s → IsRtsp (record s { config = c })
with_config-IsRtsp c s v = record {
  socket = v.socket;
  connecting = v.connecting;
  watched = v.watched;
  waits = v.waits;
  keep_alive = v.keep_alive;
  attempts = v.attempts;
}

with_rtsp-IsSession :
    (rtsp : Rtsp) (phase : Phase) (s : Session)
    → IsSession s
    → IsRtsp rtsp
    → IsConfig rtsp.config
    → IsSession (with_rtsp rtsp phase s)
unfolding with_rtsp
with_rtsp-IsSession rtsp phase s v r c = record {
  rtsp = r;
  config = c;
  shared = refl;
  signal = v.signal;
}

with_config-IsSession :
    (c : Config) (phase : Phase) (s : Session)
    → IsSession s
    → IsConfig c
    → IsSession (with_config c phase s)
unfolding with_config
with_config-IsSession c phase s v w = record {
  rtsp = with_config-IsRtsp c s.rtsp v.rtsp;
  config = w;
  shared = refl;
  signal = v.signal;
}

with_vtuner-IsSession :
    (w : Vtuner) (phase : Phase) (s : Session)
    → IsSession s
    → IsConfig w.config
    → IsSignal w.rtp
    → IsSession (with_vtuner w phase s)
unfolding with_vtuner
with_vtuner-IsSession w phase s v c signal = record {
  rtsp = with_config-IsRtsp w.config s.rtsp v.rtsp;
  config = c;
  shared = refl;
  signal = signal;
}

-- The phase is not what the validity is about.
phase-IsSession :
    (s : Session) (phase : Phase) → IsSession s → IsSession (record s { phase = phase })
phase-IsSession s phase v = record {
  rtsp = v.rtsp;
  config = v.config;
  shared = v.shared;
  signal = v.signal;
}

wakeup-IsConfig : (c : Config) → IsConfig c → IsConfig (wakeup c)
unfolding wakeup
wakeup-IsConfig c v =
    if-both IsConfig c.has_wakeup _ _ (record { pid_list = v.pid_list; linked = v.linked }) v

rtp_packet-IsConfig :
    (clock : Clock) (bytes : List ℕ) (c : Config) → IsConfig c → IsConfig (rtp_packet clock bytes c)
unfolding rtp_packet
rtp_packet-IsConfig clock bytes c v =
    if-both IsConfig (ltb 12 (length bytes) && byte_at bytes 12 == 0x47) _ _
      (receive_ts-IsConfig clock.first clock.now (drop 12 bytes) c v) v

-- The constructor makes a valid session.
pub init_session-IsSession :
    (k : FrontendHeader) (has_pipe : Bool) (fe_type : FeType) (settings : Settings)
    (host port : Text) (rtp_port : ℕ) (vtuner : Vtuner)
    → IsSession (init_session k has_pipe fe_type settings host port rtp_port vtuner)
unfolding init_session
init_session-IsSession k has_pipe fe_type settings host port rtp_port vtuner =
    let start = init_config-IsConfig k fe_type settings in
    let c = record (init_config k fe_type settings) { has_wakeup = has_pipe } in
    let v : IsConfig c = record { pid_list = start.pid_list; linked = start.linked } in
    record {
      rtsp = init_rtsp-IsRtsp host port rtp_port c;
      config =
          unfold init_rtsp new_rtsp in reset_connect-Linked false (new_rtsp host port rtp_port c) v;
      shared = refl;
      signal = record { unlocked = λ u. refl };
    }

module _ (k : FrontendHeader) (libc : CLibrary) (scan : Scan) (old_mode : Bool) where
  vtuner_step-IsSession :
      (now : Timespec) (msg : Option Message) (s : Session)
      → IsSession s
      → IsSession (vtuner_step k libc scan old_mode now msg s)
  unfolding vtuner_step
  vtuner_step-IsSession now none s v = phase-IsSession s Phase.at_events v
  vtuner_step-IsSession now (some msg) s v =
      with_vtuner-IsSession (vtuner_event k old_mode now msg s.vtuner).0 Phase.at_events s v
        (vtuner_event-IsConfig k old_mode now msg s.vtuner (subst IsConfig (sym v.shared) v.config))
        (vtuner_event-IsSignal k old_mode now msg s.vtuner v.signal)

  events_step-IsSession :
      (clock : Clock) (received : Received) (events : Option Events) (s : Session)
      → IsSession s
      → IsSession (events_step k libc scan old_mode clock received events s)
  unfolding events_step
  events_step-IsSession clock received none s v = phase-IsSession s Phase.at_status v
  events_step-IsSession clock received (some events) s v =
      if-both IsSession (is_polled s.polled) _ _
        (with_rtsp-IsSession (handle_poll_events libc clock received events s.rtsp) Phase.at_status
          s v (handle_poll_events-IsRtsp libc clock received events s.rtsp v.rtsp)
          (handle_poll_events-Linked libc clock received events s.rtsp v.config))
        (phase-IsSession s Phase.at_status v)

  Step-IsSession : (s t : Session) → IsSession s → Step k libc scan old_mode s t → IsSession t
  unfolding status_step timers_step wakeup_step stop_session
  Step-IsSession s _ v (handle_status connected send_ok at run) =
      let w =
        with_rtsp-IsSession (handle_rtsp_status k connected send_ok s.rtsp) Phase.at_timers s v
          (handle_rtsp_status-IsRtsp k connected send_ok s.rtsp v.rtsp)
          (handle_rtsp_status-Linked k connected send_ok s.rtsp v.config) in
      record { rtsp = w.rtsp; config = w.config; shared = w.shared; signal = w.signal }
  Step-IsSession s _ v (leave at run) = phase-IsSession s Phase.finished v
  Step-IsSession s _ v (poll_failed at) = phase-IsSession s Phase.finished v
  Step-IsSession s _ v (handle_timers send_ok due at) =
      with_rtsp-IsSession (handle_next_timer k send_ok due s.rtsp) Phase.at_wakeup s v
        (handle_next_timer-IsRtsp k send_ok due s.rtsp v.rtsp)
        (handle_next_timer-Linked k send_ok due s.rtsp v.config)
  Step-IsSession s _ v (handle_wakeup readable at) = with_config-IsSession _ Phase.at_vtuner s v (
      if-both IsConfig (s.rtsp.config.has_wakeup && readable) (drain s.rtsp.config) s.rtsp.config
        (unfold drain in record { pid_list = v.config.pid_list; linked = v.config.linked })
        v.config)
  Step-IsSession s _ v (handle_message now msg at) = vtuner_step-IsSession now msg s v
  Step-IsSession s _ v (handle_events clock received events at) =
      events_step-IsSession clock received events s v
  Step-IsSession s _ v (receive_rtp clock bytes) =
      with_config-IsSession _ s.phase s v (rtp_packet-IsConfig clock bytes s.rtsp.config v.config)
  Step-IsSession s _ v (receive_rtcp bytes rtp e) = record {
    rtsp = v.rtsp;
    config = v.config;
    shared = v.shared;
    signal = rtcp_data-IsSignal scan bytes s.vtuner.rtp rtp v.signal e;
  }
  Step-IsSession s _ v stopped =
      let w =
        with_config-IsSession (wakeup s.rtsp.config) s.phase s v
          (wakeup-IsConfig s.rtsp.config v.config) in
      record { rtsp = w.rtsp; config = w.config; shared = w.shared; signal = w.signal }

  from_valid-IsSession :
      (start s : Session) → IsSession start → Reach k libc scan old_mode start s → IsSession s
  from_valid-IsSession start _ v begin = v
  from_valid-IsSession start _ v (later {s} {t} r step) =
      Step-IsSession s t (from_valid-IsSession start s v r) step

  -- In every state that the two threads of a new tuner reach, by any interleaving of their steps, of
  -- `stop` and of what the kernel, the server, the sockets and the clock do, the RTSP session is well
  -- formed, the configuration is valid with the CA pids that its parser derived, the tuner and the
  -- RTSP part see the same configuration, and no signal quality is held without a lock.
  pub Reach-IsSession :
      (has_pipe : Bool) (fe_type : FeType) (settings : Settings) (host port : Text) (rtp_port : ℕ)
      (vtuner : Vtuner) (s : Session)
      → Reach k libc scan old_mode
          (init_session k has_pipe fe_type settings host port rtp_port vtuner)
          s
      → IsSession s
  Reach-IsSession has_pipe fe_type settings host port rtp_port vtuner s r =
      from_valid-IsSession _ s
        (init_session-IsSession k has_pipe fe_type settings host port rtp_port vtuner) r
