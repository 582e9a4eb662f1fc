-- ===== src/Session/Dump/Steps.antt =====
-- The rounds of the RTP thread are steps of the session.
use satip_client.Base.{
  ℕ, ◌≡◌, refl, sym, Bool, Option, none, some, List, [], ◌∷◌, >>=-eq-some, Bool-cases, inl, inr,
  subst,
}
use satip_client.Config.State.{Config}
use satip_client.Config.Header.{FrontendHeader}
use satip_client.Rtp.{Rtp, Scan, rtcp_data}
use satip_client.Rtsp.Parse.{CLibrary}
use satip_client.Session.{
  Session, with_config, rtp_packet, Step, receive_rtp, receive_rtcp, Reach, later,
}
use satip_client.Session.Dump.{
  Recv, recv_interrupted, recv_failed, recv_bytes, Round, Sink, has_payload, give_packet, bytes_of,
  dump_packet, dump_report, dump_round, rtp_dump,
}

-- What the thread works on in a session, and a session after its work.
abbrev pub sink_of : Session → Sink
sink_of s = record { config = s.rtsp.config; rtp = s.vtuner.rtp; written = [] }

abbrev placed : Session → Config → Rtp → Session
placed s config rtp = record s {
  rtsp = record s.rtsp { config = config };
  vtuner = record s.vtuner { config = config; rtp = rtp };
}

abbrev pub with_sink : Session → Sink → Session
with_sink s sink = placed s sink.config sink.rtp

give_packet-rtp_packet :
    (round : Round) (bytes : List ℕ) (sink : Sink)
    → ((give_packet round bytes sink).config ≡ rtp_packet round.clock bytes sink.config)
      × ((give_packet round bytes sink).rtp ≡ sink.rtp)
unfolding give_packet rtp_packet
give_packet-rtp_packet round bytes sink = elim (Bool-cases (has_payload bytes)) [
  | inl e ↦ rw e (refl, refl)
  | inr e ↦ rw e (refl, refl)
]

module _ (k : FrontendHeader) (libc : CLibrary) (scan : Scan) (old_mode : Bool) where
  packet-Step :
      (round : Round) (s : Session) (sink : Sink)
      → Step k libc scan old_mode (with_sink s sink) (with_sink s (dump_packet round sink))
  unfolding dump_packet with_config
  packet-Step round s sink =
      let bytes = bytes_of round.packet in
      let (config, rtp) = give_packet-rtp_packet round bytes sink in
      let step : Step k libc scan old_mode (with_sink s sink)
          (placed s (rtp_packet round.clock bytes sink.config) sink.rtp) =
        receive_rtp round.clock bytes in
      subst
        (λ (c : Config).
          Step k libc scan old_mode (with_sink s sink)
            (placed s c (give_packet round bytes sink).rtp))
        (sym config)
        (subst
          (λ (r : Rtp).
            Step k libc scan old_mode (with_sink s sink)
              (placed s (rtp_packet round.clock bytes sink.config) r))
          (sym rtp) step)

  same_sink :
      (start s : Session) {a b : Sink}
      → some a ≡ some b
      → Reach k libc scan old_mode start (with_sink s a)
      → Reach k libc scan old_mode start (with_sink s b)
  same_sink start s {a} {b} h r =
      let same : a ≡ b = cc h in
      subst (λ (n : Sink). Reach k libc scan old_mode start (with_sink s n)) same r

  report-Reach :
      (report : Option Recv) (start s : Session) (sink next : Sink)
      → dump_report scan report sink ≡ some next
      → Reach k libc scan old_mode start (with_sink s sink)
      → Reach k libc scan old_mode start (with_sink s next)
  unfolding dump_report with_config
  report-Reach (some (recv_bytes (b ∷ bytes))) start s sink next h r =
      let (rtp, read, same) =
        >>=-eq-some (rtcp_data scan (b ∷ bytes) sink.rtp) (λ rtp. some (record sink { rtp = rtp }))
          h in
      let step : Step k libc scan old_mode (with_sink s sink) (placed s sink.config rtp) =
        receive_rtcp (b ∷ bytes) rtp read in
      same_sink start s same (later r step)
  report-Reach none start s sink next h r = same_sink start s h r
  report-Reach (some recv_interrupted) start s sink next h r = same_sink start s h r
  report-Reach (some recv_failed) start s sink next h r = same_sink start s h r
  report-Reach (some (recv_bytes [])) start s sink next h r = same_sink start s h r

  -- The rounds of `rtpDump`, from any state that the two threads reach and with no report read
  -- behind its end, are steps of the RTP thread: the state with the configuration and the signal
  -- that the rounds leave is reached, so what holds in every reached state holds between any two
  -- rounds.
  rtp_dump-Reach :
      (rounds : List Round) (start s : Session) (sink next : Sink)
      → Reach k libc scan old_mode start (with_sink s sink)
      → rtp_dump scan rounds sink ≡ some next
      → Reach k libc scan old_mode start (with_sink s next)
  unfolding rtp_dump dump_round
  rtp_dump-Reach [] start s sink next r h = same_sink start s h r
  rtp_dump-Reach (round ∷ rounds) start s sink next r h =
      let (mid, first, rest) =
        >>=-eq-some (dump_round scan round sink) (λ mid. rtp_dump scan rounds mid) h in
      rtp_dump-Reach rounds start s mid next
        (report-Reach round.report start s (dump_packet round sink) mid first
          (later r (packet-Step round s sink)))
        rest
