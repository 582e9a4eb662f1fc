-- ===== src/Session/Dump/Stream.antt =====
-- The tuner and the parser get the same stream from the RTP thread.
use mathlib.Core.List.{append-nil, append_assoc}
use satip_client.Base.{
  ℕ, ◌≡◌, refl, sym, ap, ◌∙◌, Bool, if◌then◌else◌, Option, none, some, List, [], ◌∷◌, ◌++◌,
  >>=-eq-some, drop, Bool-cases, inl, inr, All, subst,
}
use satip_client.Config.State.{Config, receive_ts}
use satip_client.Rtp.{Scan, rtcp_data}
use satip_client.Rtp.Writing.{Outcome, write, write_complete, write-spells}
use satip_client.Session.Dump.{
  Recv, recv_interrupted, recv_failed, recv_bytes, Round, Sink, has_payload, give_packet, bytes_of,
  dump_packet, dump_report, dump_round, rtp_dump,
}

-- The stream bytes of a round, and of the rounds in their order.
abbrev pub payload : Round → List ℕ
payload round = let bytes = bytes_of round.packet in if has_payload bytes then drop 12 bytes else []

abbrev pub payloads : List Round → List ℕ
payloads [] = []
payloads (round ∷ rounds) = payload round ++ payloads rounds

-- The parser after a round that has stream bytes.
abbrev pub hear : Round → Config → Config
hear round c =
    let bytes = bytes_of round.packet in
    if has_payload bytes then receive_ts round.clock.first round.clock.now (drop 12 bytes) c else c

abbrev pub hear_all : List Round → Config → Config
hear_all [] c = c
hear_all (round ∷ rounds) c = hear_all rounds (hear round c)

-- The tuner takes the whole packet.
abbrev pub IsTaken : Round → Type 0
IsTaken round = (write round.writes (payload round)).result ≡ write_complete

taken-written :
    (writes : List Outcome) (buffer : List ℕ)
    → (write writes buffer).result ≡ write_complete
    → (write writes buffer).written ≡ buffer
taken-written writes buffer h =
    let (spells, (emptied, _)) = write-spells writes buffer in
    sym (append-nil (write writes buffer).written)
    ∙ ap (λ (l : List ℕ). (write writes buffer).written ++ l) (sym (emptied h))
    ∙ spells

dump_packet-delivers :
    (round : Round) (sink : Sink)
    → IsTaken round
    → ((dump_packet round sink).written ≡ sink.written ++ payload round)
      × ((dump_packet round sink).config ≡ hear round sink.config)
unfolding dump_packet give_packet
dump_packet-delivers round sink h =
    let bytes = bytes_of round.packet in
    elim (Bool-cases (has_payload bytes)) [
      | inl e ↦
          let whole : (write round.writes (drop 12 bytes)).result ≡ write_complete =
            subst
              (λ (b : Bool).
                (write round.writes (if b then drop 12 bytes else [])).result ≡ write_complete)
              e h in
          rw e (
            ap (λ (l : List ℕ). sink.written ++ l)
                (taken-written round.writes (drop 12 bytes) whole),
            refl,
          )
      | inr e ↦ rw e (sym (append-nil sink.written), refl)
    ]

same_stream : {a b : Sink} → some a ≡ some b → (b.written ≡ a.written) × (b.config ≡ a.config)
same_stream {a} {b} h =
    let e : a ≡ b = cc h in
    (sym (ap (λ (n : Sink). n.written) e), sym (ap (λ (n : Sink). n.config) e))

-- A report leaves the stream alone.
dump_report-keeps :
    (scan : Scan) (report : Option Recv) (sink next : Sink)
    → dump_report scan report sink ≡ some next
    → (next.written ≡ sink.written) × (next.config ≡ sink.config)
unfolding dump_report
dump_report-keeps scan (some (recv_bytes (b ∷ bytes))) sink next h =
    let (rtp, read, same) =
      >>=-eq-some (rtcp_data scan (b ∷ bytes) sink.rtp) (λ rtp. some (record sink { rtp = rtp }))
        h in
    same_stream {a = record sink { rtp = rtp }} same
dump_report-keeps scan (some (recv_bytes [])) sink next h = same_stream h
dump_report-keeps scan (some recv_interrupted) sink next h = same_stream h
dump_report-keeps scan (some recv_failed) sink next h = same_stream h
dump_report-keeps scan none sink next h = same_stream h

-- Over any rounds of `rtpDump` whose packets the tuner takes whole, and in which no report is read
-- behind its end, the tuner gets exactly the bytes behind the headers of the packets that start
-- with the sync byte, in their order, and the parser hears the same bytes in the same order.
pub rtp_dump-delivers :
    (scan : Scan) (rounds : List Round) (sink next : Sink)
    → All IsTaken rounds
    → rtp_dump scan rounds sink ≡ some next
    → (next.written ≡ sink.written ++ payloads rounds) × (next.config ≡ hear_all rounds sink.config)
unfolding rtp_dump dump_round
rtp_dump-delivers scan [] sink next t h =
    let (written, config) = same_stream h in (written ∙ sym (append-nil sink.written), config)
rtp_dump-delivers scan (round ∷ rounds) sink next (taken, t) h =
    let (mid, first, rest) =
      >>=-eq-some (dump_round scan round sink) (λ mid. rtp_dump scan rounds mid) h in
    let (written, config) = dump_packet-delivers round sink taken in
    let (written', config') =
      dump_report-keeps scan round.report (dump_packet round sink) mid first in
    let (all, heard) = rtp_dump-delivers scan rounds mid next t rest in
    (
      all
          ∙ ap (λ (l : List ℕ). l ++ payloads rounds) (written' ∙ written)
          ∙ append_assoc sink.written (payload round) (payloads rounds),
      heard ∙ ap (hear_all rounds) (config' ∙ config),
    )
