-- ===== src/Psi/Stream.antt =====
-- `processTS` and `feed` of psi.cpp: from a buffer of transport packets to the reports.
use satip_client.Base.{
  ℕ, zero, suc, ◌+◌, ◌/◌, ◌%◌, Bool, true, false, ◌||◌, ◌&&◌, not, ltb, leb, ◌==◌, if◌then◌else◌,
  List, [], ◌++◌, length, take, drop,
}
use satip_client.Base.Sets.{contains}
use satip_client.Base.Maps.{find, put, or_default}
use satip_client.Psi.Bytes.{byte_at, has_bit, pid13}
use satip_client.Psi.Assembler.{idle, feed_bytes}
use satip_client.Psi.State.{Psi, Reports}
use satip_client.Psi.Recompute.{recompute}
use satip_client.Psi.Tables.{handle_section, count_up}

-- `TS_PACKET_SIZE`
abbrev pub ts_packet_size : ℕ
ts_packet_size = 188

-- `feed(pid, buf, len, allow_start)`: the loop works on `m_assembler[pid]`, and `handleSection`
-- does not touch that map, so the entry is written back at the end.
unfoldable pub feed : ℕ → List ℕ → Bool → Psi → Psi
unfolding find put
feed pid buf allow_start psi =
    let sa = or_default idle (find pid psi.assembler) in
    let (sa', psi') = feed_bytes (handle_section pid) allow_start buf sa psi in
    record psi' { assembler = put pid sa' psi'.assembler }

-- `m_dirty` after a packet.
unfoldable pub settle : Psi → Psi × Reports
unfolding recompute
settle psi = if psi.dirty then recompute (record psi { dirty = false }) else (psi, [])

-- A payload behind a pointer field: the tail of a section, and the start of the next.
unfoldable pub feed_pointed : ℕ → ℕ → List ℕ → Psi → Psi
unfolding feed
feed_pointed pid ptr rest psi =
    feed pid (drop ptr rest) true (if ltb 0 ptr then feed pid (take ptr rest) false psi else psi)

-- The payload, from `pos` on. A pointer that leaves the packet skips the rest of the round.
unfoldable pub feed_payload : ℕ → Bool → List ℕ → Psi → Psi × Reports
unfolding feed_pointed settle
feed_payload pid unit_start payload psi =
    if unit_start
    then (let ptr = byte_at payload 0 in
        let rest = drop 1 payload in
        if ltb (length rest) ptr then (psi, []) else settle (feed_pointed pid ptr rest psi))
    else settle (feed pid payload false psi)

-- `(p[3] >> 4) & 0x03`
abbrev pub adaptation_control : List ℕ → ℕ
adaptation_control p = byte_at p 3 / 16 % 4

-- One packet, past the test of its sync byte.
unfoldable pub ts_packet : List ℕ → Psi → Psi × Reports
unfolding contains feed_payload
ts_packet p psi =
    let pid = pid13 (byte_at p 1) (byte_at p 2) in
    let afc = adaptation_control p in
    let pos = if afc == 3 then 4 + 1 + byte_at p 4 else 4 in
    if not (contains pid psi.watched_pids)
    then (psi, [])
    else if has_bit 7 (byte_at p 3) || has_bit 6 (byte_at p 3)
    then (psi, [])
    else if afc == 0 || afc == 2
    then (psi, [])
    else if afc == 3 && leb ts_packet_size pos
    then (psi, [])
    else feed_payload pid (has_bit 6 (byte_at p 1)) (drop pos p) psi

-- The loop over the packets, for the whole packets that are left.
unfoldable pub packet_loop : ℕ → List ℕ → Psi → Psi × Reports
unfolding ts_packet
packet_loop zero buf psi = (psi, [])
packet_loop (suc n) buf psi = elim (byte_at buf 0 == 0x47) [
  | false ↦ (psi, [])
  | true ↦
      let counted = record psi { ts_packets = count_up psi.ts_packets } in
      let (psi', reports) = ts_packet (take ts_packet_size buf) counted in
      let (psi'', later) = packet_loop n (drop ts_packet_size buf) psi' in (psi'', reports ++ later)
]

-- The first data seen starts the clock of the heartbeat; `first` is what `time` gives then.
unfoldable pub note_data : ℕ → Psi → Psi
note_data first psi =
    if psi.saw_data then psi else record psi { saw_data = true; last_stats = first }

-- The heartbeat at the end: only its time is kept. A clock that went back logs nothing.
unfoldable pub heartbeat : ℕ → Psi → Psi
heartbeat now psi = if leb (psi.last_stats + 60) now then record psi { last_stats = now } else psi

unfoldable pub process_ts : ℕ → ℕ → List ℕ → Psi → Psi × Reports
unfolding packet_loop note_data heartbeat
process_ts first now buf psi =
    let (psi', reports) = packet_loop (length buf / ts_packet_size) buf (note_data first psi) in
    (heartbeat now psi', reports)
