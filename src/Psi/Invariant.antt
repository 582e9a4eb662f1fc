-- ===== src/Psi/Invariant.antt =====
-- What holds of the parser between any two of its operations.
use satip_client.Base.{
  ℕ, zero, suc, ◌+◌, ◌/◌, ◌≤◌, ◌≡◌, refl, sym, ◌∙◌, ap, Bool, true, false, ◌||◌, ◌&&◌, not, ltb,
  leb, ◌==◌, if◌then◌else◌, Option, none, some, List, [], ◌∷◌, ◌++◌, length, take, drop, arith,
  Bool-cases, inl, inr,
}
use satip_client.Base.Sets.{contains, set_eq}
use satip_client.Base.Maps.{find, or_default, erase_unlisted, find-put, find-erase_unlisted}
use satip_client.Psi.Bytes.{byte_at, has_bit, pid13}
use satip_client.Psi.Assembler.{Assembler, idle, feed_loop, feed_bytes}
use satip_client.Psi.Assembler.Invariant.{
  IsAssembler, IsSection, idle-IsAssembler, feed_loop-invariant,
}
use satip_client.Psi.State.{Psi, Reports, clear_state, new_psi}
use satip_client.Psi.Recompute.{
  max_derived_pids, wanted_pids, recompute, reset, set_joined_pids, init_psi,
}
use satip_client.Psi.Recompute.Spec.{last_report, recompute_derives, recompute_reports}
use satip_client.Psi.Tables.{handle_section, count_up, union_sections}
use satip_client.Psi.Tables.Sections.{
  TablesAgree, handle_section-TablesAgree, handle_section-SameFrame,
}
use satip_client.Psi.Stream.{
  feed, settle, feed_pointed, feed_payload, ts_packet, packet_loop, note_data, process_ts,
  adaptation_control, ts_packet_size,
}

pub record IsPsi (psi : Psi) : Type 0 where
  pub tables : TablesAgree psi
  pub assemblers : (pid : ℕ) → IsAssembler (or_default idle (find pid psi.assembler))
  pub few : length psi.derived_pids ≤ max_derived_pids

-- After an operation: the invariant, and the reports end in the pids now derived.
pub record IsStep (before : List ℕ) (r : Psi × Reports) : Type 0 where
  pub valid : IsPsi r.0
  pub reported : last_report before r.1 ≡ r.0.derived_pids

-- A branch keeps what both its ends keep.
if-IsStep :
    (d : List ℕ) (c : Bool) (r r' : Psi × Reports)
    → IsStep d r
    → IsStep d r'
    → IsStep d (if c then r else r')
if-IsStep d true r r' h k = h
if-IsStep d false r r' h k = k

new_psi-IsPsi : (emm : Bool) (filter : List ℕ) → IsPsi (new_psi emm filter)
unfolding new_psi find
new_psi-IsPsi emm filter = record {
  tables = record {
    pat_agrees = unfold union_sections in refl;
    cat_agrees = unfold union_sections in refl;
  };
  assemblers = λ pid. idle-IsAssembler;
  few = omega arith;
}

kept-IsAssembler :
    (keep : Bool) (o : Option Assembler)
    → IsAssembler (or_default idle o)
    → IsAssembler (or_default idle (if keep then o else none))
kept-IsAssembler true o v = v
kept-IsAssembler false o v = idle-IsAssembler

stored-IsAssembler :
    (hit : Bool) (sa : Assembler) (o : Option Assembler)
    → IsAssembler sa
    → IsAssembler (or_default idle o)
    → IsAssembler (or_default idle (if hit then some sa else o))
stored-IsAssembler true sa o v w = v
stored-IsAssembler false sa o v w = w

recompute-tables : (psi : Psi) → TablesAgree psi → TablesAgree (recompute psi).0
unfolding recompute
recompute-tables psi v = ground arith

recompute-assemblers :
    (psi : Psi) → (recompute psi).0.assembler ≡ erase_unlisted (wanted_pids psi).1 psi.assembler
unfolding recompute
recompute-assemblers psi = ground arith

recompute-IsStep :
    (psi : Psi)
    → TablesAgree psi
    → ((pid : ℕ) → IsAssembler (or_default idle (find pid psi.assembler)))
    → IsStep psi.derived_pids (recompute psi)
recompute-IsStep psi t a = record {
  valid = record {
    tables = recompute-tables psi t;
    assemblers = λ pid.
        rw (recompute-assemblers psi, find-erase_unlisted (wanted_pids psi).1 pid psi.assembler)
          (kept-IsAssembler (contains pid (wanted_pids psi).1) (find pid psi.assembler) (a pid));
    few = (recompute_derives psi 0 0).0;
  };
  reported = recompute_reports psi;
}

-- The handling of sections keeps the tables, the assemblers and the derived pids.
feed-keeps :
    (pid : ℕ) (buf : List ℕ) (start : Bool) (psi : Psi)
    → IsPsi psi
    → IsPsi (feed pid buf start psi) × ((feed pid buf start psi).derived_pids ≡ psi.derived_pids)
unfolding feed feed_bytes
feed-keeps pid buf start psi v =
    let sa = or_default idle (find pid psi.assembler) in
    let Same : Psi → Type 0 =
      λ s. TablesAgree s × (s.derived_pids ≡ psi.derived_pids) × (s.assembler ≡ psi.assembler) in
    let keeps : (sec : List ℕ) (s : Psi)
        → IsSection sec
        → Same s
        → Same (handle_section pid sec s) =
      λ sec s _ h.
        let frame = handle_section-SameFrame pid sec s in
        (
          handle_section-TablesAgree pid sec s h.0,
          frame.same_derived ∙ h.1,
          frame.same_assembler ∙ h.2,
        ) in
    let out =
      feed_loop-invariant (handle_section pid) Same keeps (length buf) start buf sa psi
        (v.assemblers pid) (v.tables, refl, refl) in
    let r = feed_loop (handle_section pid) (length buf) start buf sa psi in
    (
      record {
        tables = record { pat_agrees = out.1.0.pat_agrees; cat_agrees = out.1.0.cat_agrees };
        assemblers = λ j.
            rw (find-put pid j r.0 r.1.assembler, out.1.2)
              (stored-IsAssembler (pid == j) r.0 (find j psi.assembler) out.0 (v.assemblers j));
        few = rw out.1.1 v.few;
      },
      out.1.1,
    )

still : (psi : Psi) → IsPsi psi → IsStep psi.derived_pids (psi, [])
still psi v = record { valid = v; reported = refl }

settle-IsStep : (psi : Psi) → IsPsi psi → IsStep psi.derived_pids (settle psi)
unfolding settle
settle-IsStep psi v =
    let clean : Psi = record psi { dirty = false } in
    if-IsStep psi.derived_pids psi.dirty (recompute clean) (psi, [])
      (recompute-IsStep clean
        (record { pat_agrees = v.tables.pat_agrees; cat_agrees = v.tables.cat_agrees })
        v.assemblers)
      (still psi v)

feed_pointed-keeps :
    (pid ptr : ℕ) (rest : List ℕ) (psi : Psi)
    → IsPsi psi
    → IsPsi (feed_pointed pid ptr rest psi)
      × ((feed_pointed pid ptr rest psi).derived_pids ≡ psi.derived_pids)
unfolding feed_pointed
feed_pointed-keeps pid ptr rest psi v = elim (Bool-cases (ltb 0 ptr)) [
  | inl e ↦
      let tail = feed-keeps pid (take ptr rest) false psi v in
      let next = feed-keeps pid (drop ptr rest) true (feed pid (take ptr rest) false psi) tail.0 in
      rw e (next.0, next.1 ∙ tail.1)
  | inr n ↦ rw n (feed-keeps pid (drop ptr rest) true psi v)
]

settled :
    (psi psi' : Psi)
    → IsPsi psi' × (psi'.derived_pids ≡ psi.derived_pids)
    → IsStep psi.derived_pids (settle psi')
settled psi psi' h =
    let done = settle-IsStep psi' h.0 in
    record { valid = done.valid; reported = rw (← h.1) done.reported }

feed_payload-IsStep :
    (pid : ℕ) (start : Bool) (payload : List ℕ) (psi : Psi)
    → IsPsi psi
    → IsStep psi.derived_pids (feed_payload pid start payload psi)
unfolding feed_payload
feed_payload-IsStep pid start payload psi v =
    let d = psi.derived_pids in
    let ptr = byte_at payload 0 in
    let rest = drop 1 payload in
    if-IsStep d start _ _
      (if-IsStep d (ltb (length rest) ptr) _ _ (still psi v)
        (settled psi (feed_pointed pid ptr rest psi) (feed_pointed-keeps pid ptr rest psi v)))
      (settled psi (feed pid payload false psi) (feed-keeps pid payload false psi v))

ts_packet-IsStep : (p : List ℕ) (psi : Psi) → IsPsi psi → IsStep psi.derived_pids (ts_packet p psi)
unfolding ts_packet
ts_packet-IsStep p psi v =
    let d = psi.derived_pids in
    let pid = pid13 (byte_at p 1) (byte_at p 2) in
    let afc = adaptation_control p in
    let pos = if afc == 3 then 4 + 1 + byte_at p 4 else 4 in
    let none_yet = still psi v in
    if-IsStep d (not (contains pid psi.watched_pids)) _ _ none_yet (
      if-IsStep d (has_bit 7 (byte_at p 3) || has_bit 6 (byte_at p 3)) _ _ none_yet (
        if-IsStep d (afc == 0 || afc == 2) _ _ none_yet (
          if-IsStep d (afc == 3 && leb ts_packet_size pos) _ _ none_yet
            (feed_payload-IsStep pid (has_bit 6 (byte_at p 1)) (drop pos p) psi v))))

last_report-append :
    (d : List ℕ) (rs rs' : Reports) → last_report d (rs ++ rs') ≡ last_report (last_report d rs) rs'
last_report-append d [] rs' = refl
last_report-append d (r ∷ rs) rs' = last_report-append r rs rs'

-- `psi` with other counters and times.
counted-IsPsi :
    (n t : ℕ) (saw : Bool) (psi : Psi)
    → IsPsi psi
    → IsPsi (record psi { ts_packets = n; saw_data = saw; last_stats = t })
counted-IsPsi n t saw psi v = record {
  tables = record { pat_agrees = v.tables.pat_agrees; cat_agrees = v.tables.cat_agrees };
  assemblers = v.assemblers;
  few = v.few;
}

packet_loop_synced :
    (n : ℕ) (buf : List ℕ) (psi : Psi)
    → (byte_at buf 0 == 0x47) ≡ true
    → let r =
        ts_packet (take ts_packet_size buf) (record psi { ts_packets = count_up psi.ts_packets }) in
      let rs = packet_loop n (drop ts_packet_size buf) r.0 in
      packet_loop (suc n) buf psi ≡ (rs.0, r.1 ++ rs.1)
unfolding packet_loop
packet_loop_synced n buf psi e = rw (e, packet_loop) refl

packet_loop_unsynced :
    (n : ℕ) (buf : List ℕ) (psi : Psi)
    → (byte_at buf 0 == 0x47) ≡ false
    → packet_loop (suc n) buf psi ≡ (psi, [])
unfolding packet_loop
packet_loop_unsynced n buf psi e = rw (e, packet_loop) refl

packet_loop-IsStep :
    (n : ℕ) (buf : List ℕ) (psi : Psi) → IsPsi psi → IsStep psi.derived_pids (packet_loop n buf psi)
packet_loop-IsStep zero buf psi v = unfold packet_loop in still psi v
packet_loop-IsStep (suc n) buf psi v = elim (Bool-cases (byte_at buf 0 == 0x47)) [
  | inl e ↦
      let counted : Psi = record psi { ts_packets = count_up psi.ts_packets } in
      let first =
        ts_packet-IsStep (take ts_packet_size buf) counted
          (counted-IsPsi (count_up psi.ts_packets) psi.last_stats psi.saw_data psi v) in
      let r = ts_packet (take ts_packet_size buf) counted in
      let later = packet_loop-IsStep n (drop ts_packet_size buf) r.0 first.valid in
      let rs = packet_loop n (drop ts_packet_size buf) r.0 in
      rw (packet_loop_synced n buf psi e) (record {
        valid = later.valid;
        reported =
            last_report-append psi.derived_pids r.1 rs.1
            ∙ ap (λ (d : List ℕ). last_report d rs.1) first.reported
            ∙ later.reported;
      })
  | inr m ↦ rw (packet_loop_unsynced n buf psi m) (still psi v)
]

if-IsPsi :
    (d : List ℕ) (c : Bool) (a b : Psi)
    → IsPsi a × (a.derived_pids ≡ d)
    → IsPsi b × (b.derived_pids ≡ d)
    → IsPsi (if c then a else b) × ((if c then a else b).derived_pids ≡ d)
if-IsPsi d true a b h k = h
if-IsPsi d false a b h k = k

process_ts-IsStep :
    (first now : ℕ) (buf : List ℕ) (psi : Psi)
    → IsPsi psi
    → IsStep psi.derived_pids (process_ts first now buf psi)
unfolding process_ts
process_ts-IsStep first now buf psi v =
    let noted =
      if-IsPsi psi.derived_pids psi.saw_data psi
        (record psi { saw_data = true; last_stats = first }) (v, refl)
        (counted-IsPsi psi.ts_packets first true psi v, refl) in
    let n = length buf / ts_packet_size in
    let start = note_data first psi in
    let r = packet_loop n buf start in
    let looped = packet_loop-IsStep n buf start noted.0 in
    let beat =
      if-IsPsi r.0.derived_pids (leb (r.0.last_stats + 60) now) (record r.0 { last_stats = now })
        r.0 (counted-IsPsi r.0.ts_packets now r.0.saw_data r.0 looped.valid, refl)
        (looped.valid, refl) in
    record {
      valid = beat.0;
      reported =
          ap (λ (d : List ℕ). last_report d r.1) (sym noted.1) ∙ looped.reported ∙ sym beat.1;
    }

set_joined_pids-IsStep :
    (pids : List ℕ) (psi : Psi) → IsPsi psi → IsStep psi.derived_pids (set_joined_pids pids psi)
unfolding set_joined_pids
set_joined_pids-IsStep pids psi v =
    if-IsStep psi.derived_pids (not (set_eq pids psi.joined_pids)) _ _
      (recompute-IsStep (record psi { joined_pids = pids })
        (record { pat_agrees = v.tables.pat_agrees; cat_agrees = v.tables.cat_agrees })
        v.assemblers)
      (still psi v)

reset-IsStep : (psi : Psi) → IsStep psi.derived_pids (reset psi)
unfolding reset clear_state find
reset-IsStep psi =
    recompute-IsStep (record (clear_state psi) { joined_pids = [] })
      (record {
        pat_agrees = unfold union_sections in refl;
        cat_agrees = unfold union_sections in refl;
      })
      (λ pid. idle-IsAssembler)

pub init_psi-IsStep : (emm : Bool) (filter : List ℕ) → IsStep [] (init_psi emm filter)
unfolding init_psi new_psi
init_psi-IsStep emm filter = reset-IsStep (new_psi emm filter)

-- The operations that other threads and the constructor call; each holds the lock throughout.
pub data Operation : Type 0 where
  reset_op : Operation
  joined_op : List ℕ → Operation
  ts_op : ℕ → ℕ → List ℕ → Operation

unfoldable pub perform : Operation → Psi → Psi × Reports
perform reset_op psi = reset psi
perform (joined_op pids) psi = set_joined_pids pids psi
perform (ts_op first now buf) psi = process_ts first now buf psi

unfoldable pub run : List Operation → Psi → Psi × Reports
unfolding perform
run [] psi = (psi, [])
run (op ∷ ops) psi =
    let (psi', reports) = perform op psi in
    let (psi'', later) = run ops psi' in (psi'', reports ++ later)

pub perform-IsStep :
    (op : Operation) (psi : Psi) → IsPsi psi → IsStep psi.derived_pids (perform op psi)
unfolding perform
perform-IsStep reset_op psi v = reset-IsStep psi
perform-IsStep (joined_op pids) psi v = set_joined_pids-IsStep pids psi v
perform-IsStep (ts_op first now buf) psi v = process_ts-IsStep first now buf psi v

run-IsStep : (ops : List Operation) (psi : Psi) → IsPsi psi → IsStep psi.derived_pids (run ops psi)
unfolding run
run-IsStep [] psi v = still psi v
run-IsStep (op ∷ ops) psi v =
    let here = perform-IsStep op psi v in
    let r = perform op psi in
    let later = run-IsStep ops r.0 here.valid in
    record {
      valid = later.valid;
      reported =
          last_report-append psi.derived_pids r.1 (run ops r.0).1
          ∙ ap (λ (d : List ℕ). last_report d (run ops r.0).1) here.reported
          ∙ later.reported;
    }

-- From the constructor on, after any sequence of retunes, kernel pid lists and stream buffers, the
-- parser is valid (the PAT and CAT pids are those of the sections kept, every assembler is within
-- its bounds, at most 32 pids are derived), and the set last given to `setCaPids` is the set of
-- pids now derived.
pub run-init_psi :
    (emm : Bool) (filter : List ℕ) (ops : List Operation)
    → let (psi, reports) = init_psi emm filter in
      let (psi', later) = run ops psi in
      IsPsi psi' × (last_report [] (reports ++ later) ≡ psi'.derived_pids)
run-init_psi emm filter ops =
    let start = init_psi-IsStep emm filter in
    let r = init_psi emm filter in
    let rest = run-IsStep ops r.0 start.valid in
    (
      rest.valid,
      last_report-append [] r.1 (run ops r.0).1
          ∙ ap (λ (d : List ℕ). last_report d (run ops r.0).1) start.reported
          ∙ rest.reported,
    )
