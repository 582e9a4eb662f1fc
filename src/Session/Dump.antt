-- ===== src/Session/Dump.antt =====
-- `rtpDump` of rtp.cpp with `Read`: the rounds of the RTP thread. What `poll`, `recv` and `write` do is
-- an argument of a round.
pub mod Steps
pub mod Stream
use satip_client.Base.{
  ℕ, ◌≡◌, Bool, true, false, ◌&&◌, ltb, ◌==◌, if◌then◌else◌, Option, none, some, List, [], ◌∷◌,
  ◌++◌, length, drop, ◌>>=◌,
}
use satip_client.Psi.Bytes.{byte_at}
use satip_client.Config.State.{Config, receive_ts}
use satip_client.Rtp.{Rtp, Scan, rtcp_data}
use satip_client.Rtp.Writing.{Outcome, write}
use satip_client.Rtsp.Receive.{Clock}
use satip_client.Session.{Session}

-- What `recv` does: it is interrupted (`EINTR`), it fails, or it gives some bytes.
pub data Recv : Type 0 where
  recv_interrupted recv_failed : Recv
  recv_bytes : List ℕ → Recv

-- `Read`: the bytes, or none for -1 and for a call that still waits; one outcome for each `recv`.
unfoldable pub read : List Recv → Option (List ℕ)
read [] = none
read (recv_interrupted ∷ outcomes) = read outcomes
read (recv_failed ∷ outcomes) = none
read (recv_bytes bytes ∷ outcomes) = some bytes

-- What a round finds: the calls of `recv` if the RTP socket is readable, those of `write` that take
-- the packet, the call of `recv` if the RTCP socket is readable, and the clock of the parser.
pub record Round : Type 0 where
  pub packet : Option (List Recv)
  pub writes : List Outcome
  pub report : Option Recv
  pub clock : Clock

-- What the thread works on: the parser's configuration, the signal, and the bytes that the tuner got.
pub record Sink : Type 0 where
  pub config : Config
  pub rtp : Rtp
  pub written : List ℕ

-- Whether a packet has a payload that starts with the sync byte.
abbrev pub has_payload : List ℕ → Bool
has_payload bytes = ltb 12 (length bytes) && byte_at bytes 12 == 0x47

unfoldable pub give_packet : Round → List ℕ → Sink → Sink
unfolding receive_ts write
give_packet round bytes sink =
    let given = write round.writes (drop 12 bytes) in
    if has_payload bytes
    then record sink {
      config = receive_ts round.clock.first round.clock.now (drop 12 bytes) sink.config;
      written = sink.written ++ given.written;
    }
    else sink

-- What is read of the RTP socket, or nothing.
unfoldable pub bytes_of : Option (List Recv) → List ℕ
unfolding read
bytes_of none = []
bytes_of (some outcomes) = elim (read outcomes) [ none ↦ [] | some bytes ↦ bytes ]

unfoldable pub dump_packet : Round → Sink → Sink
unfolding give_packet bytes_of
dump_packet round sink = give_packet round (bytes_of round.packet) sink

module _ (scan : Scan) where
  unfoldable pub dump_report : Option Recv → Sink → Option Sink
  unfolding rtcp_data
  dump_report (some (recv_bytes (b ∷ bytes))) sink =
      rtcp_data scan (b ∷ bytes) sink.rtp >>= λ rtp. some (record sink { rtp = rtp })
  dump_report _ sink = some sink

  -- A round of the loop. It is none where a report is read behind its end.
  unfoldable pub dump_round : Round → Sink → Option Sink
  unfolding dump_packet dump_report
  dump_round round sink = dump_report round.report (dump_packet round sink)

  unfoldable pub rtp_dump : List Round → Sink → Option Sink
  unfolding dump_round
  rtp_dump [] sink = some sink
  rtp_dump (round ∷ rounds) sink = dump_round round sink >>= λ next. rtp_dump rounds next
