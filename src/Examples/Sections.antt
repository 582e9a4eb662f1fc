-- ===== src/Examples/Sections.antt =====
-- The theorems on the parser, at small sections.
use satip_client.Base.{
  ℕ, suc, ◌≤◌, ◌<◌, ◌≡◌, refl, true, false, ◌&&◌, ◌||◌, ◌==◌, if◌then◌else◌, none, List, [], ◌∷◌,
  ◌++◌, length, arith,
}
use satip_client.Base.Sets.{contains}
use satip_client.Base.Maps.{find}
use satip_client.Psi.Assembler.{idle, feed_loop, feed_bytes}
use satip_client.Psi.Assembler.Invariant.{
  IsAssembler, IsSection, idle-IsAssembler, feed_loop-invariant,
}
use satip_client.Psi.Assembler.Reassembly.{feed_loop_fuel, feed_chunks, feed_chunks_section}
use satip_client.Psi.Descriptors.{collect_ca_descriptors}
use satip_client.Psi.Descriptors.Roundtrip.{Descriptor, encode, any_announces, collect-encode}
use satip_client.Psi.State.{Psi}
use satip_client.Psi.Recompute.{init_psi, recompute, wanted_pids, max_derived_pids}
use satip_client.Psi.Recompute.Spec.{
  is_wanted_pid, recompute_derives, recompute_watches, last_report,
}
use satip_client.Psi.Tables.{pat_loop, es_loop}
use satip_client.Psi.Tables.Programs.{
  Program, encode_pat, any_names_pmt, pat_loop-encode, Stream, encode_pmt, any_ecm, any_es,
  es_loop-encode,
}
use satip_client.Psi.Invariant.{IsPsi, reset_op, joined_op, run, run-init_psi}

-- A PAT with one service, of which the PMT has pid 0x100.
abbrev pat : List ℕ
pat =
    0x00 ∷ 0xb0 ∷ 0x0d ∷ 0x00 ∷ 0x01 ∷ 0xc1 ∷ 0x00 ∷ 0x00 ∷ 0x00 ∷ 0x01 ∷ 0xe1 ∷ 0x00 ∷ 0xe8 ∷ 0xf9
    ∷ 0x5e ∷ 0x7d ∷ []

pat-IsSection : IsSection pat
pat-IsSection = record { long_enough = omega arith; fits = omega arith; announced = refl }

-- Handing a section over counts it.
abbrev count : List ℕ → ℕ → ℕ
count sec n = suc n

feed_chunks_section_example :
    feed_chunks count
      ((0xb0 ∷ 0x0d ∷ 0x00 ∷ [])
        ∷ ((0x01 ∷ 0xc1 ∷ 0x00 ∷ 0x00 ∷ 0x00 ∷ 0x01 ∷ 0xe1 ∷ 0x00 ∷ 0xe8 ∷ 0xf9 ∷ 0x5e ∷ 0x7d ∷ [])
            ++ (0xff ∷ []))
        ∷ [])
      (feed_bytes count true (0x00 ∷ []) idle 0).0
      (feed_bytes count true (0x00 ∷ []) idle 0).1
    ≡ (idle, count pat 0)
feed_chunks_section_example =
    feed_chunks_section count pat (0x00 ∷ []) ((0xb0 ∷ 0x0d ∷ 0x00 ∷ []) ∷ [])
      (0x01 ∷ 0xc1 ∷ 0x00 ∷ 0x00 ∷ 0x00 ∷ 0x01 ∷ 0xe1 ∷ 0x00 ∷ 0xe8 ∷ 0xf9 ∷ 0x5e ∷ 0x7d ∷ [])
      (0xff ∷ []) 0 pat-IsSection (ground arith) refl (omega arith) (omega arith)

feed_loop-invariant_example :
    IsAssembler (feed_loop count 3 true (0x00 ∷ 0xb0 ∷ 0x0d ∷ []) idle 7).0
    × (7 ≤ (feed_loop count 3 true (0x00 ∷ 0xb0 ∷ 0x0d ∷ []) idle 7).1)
feed_loop-invariant_example =
    feed_loop-invariant count (λ (n : ℕ). 7 ≤ n) (λ sec s v p. omega (arith, p)) 3 true
      (0x00 ∷ 0xb0 ∷ 0x0d ∷ []) idle 7 idle-IsAssembler (omega arith)

feed_loop_fuel_example :
    feed_loop count 2 true (0 ∷ 0xb0 ∷ []) idle 0 ≡ feed_loop count 9 true (0 ∷ 0xb0 ∷ []) idle 0
feed_loop_fuel_example =
    feed_loop_fuel count 2 9 true (0 ∷ 0xb0 ∷ []) idle 0 idle-IsAssembler (omega arith)
      (omega arith)

-- A CA descriptor of system 0x0500 with pid 0x123.
abbrev viaccess : Descriptor
viaccess = record { tag = 0x09; body = 0x05 ∷ 0x00 ∷ 0xe1 ∷ 0x23 ∷ [] }

collect-encode_example :
    contains 0x123 (collect_ca_descriptors (0x0500 ∷ []) (encode (viaccess ∷ [])) (7 ∷ []))
    ≡ (any_announces (0x0500 ∷ []) 0x123 (viaccess ∷ []) || contains 0x123 (7 ∷ []))
collect-encode_example = collect-encode (0x0500 ∷ []) 0x123 (viaccess ∷ []) (7 ∷ [])

abbrev news : Program
news = record { number = 1; pmt_pid = 0x1e8 }

pat_loop-encode_example :
    contains 0x1e8 (pat_loop (encode_pat (news ∷ [])) [])
    ≡ (any_names_pmt 0x1e8 (news ∷ []) || contains 0x1e8 [])
pat_loop-encode_example = pat_loop-encode 0x1e8 (news ∷ []) [] ((omega arith, omega arith), tt)

abbrev video : Stream
video = record { stream_type = 2; es_pid = 0x100; descriptors = viaccess ∷ [] }

es_loop-encode_example :
    (contains 0x100 (es_loop 11 [] (encode_pmt (video ∷ [])) [] []).0
      ≡ (any_ecm [] 0x100 (video ∷ []) || contains 0x100 []))
    × (contains 0x100 (es_loop 11 [] (encode_pmt (video ∷ [])) [] []).1
        ≡ (any_es 0x100 (video ∷ []) || contains 0x100 []))
es_loop-encode_example =
    es_loop-encode 11 [] 0x100 (video ∷ []) [] [] ((omega arith, omega arith), tt) (omega arith)

-- A PMT of one stream, without its CRC.
abbrev pmt_section : List ℕ
pmt_section =
    (0x02 ∷ 0xb0 ∷ 0x18 ∷ 0x00 ∷ 0x01 ∷ 0xc3 ∷ 0x00 ∷ 0x00 ∷ 0xe1 ∷ 0x00 ∷ 0xf0 ∷ 0x00 ∷ [])
    ++ (encode_pmt (video ∷ []) ++ (0 ∷ 0 ∷ 0 ∷ 0 ∷ []))

abbrev fresh : Psi
fresh = (init_psi true []).0

recompute_derives_example :
    (length (recompute fresh).0.derived_pids ≤ max_derived_pids)
    × (contains 0 (recompute fresh).0.derived_pids ≡ true)
    × (contains 1 (recompute fresh).0.derived_pids ≡ true → is_wanted_pid fresh 1 ≡ true)
    × (length (wanted_pids fresh).0 ≤ max_derived_pids
        → contains 1 (recompute fresh).0.derived_pids ≡ is_wanted_pid fresh 1)
    × (is_wanted_pid fresh 1 ≡ true
        → contains 1 (recompute fresh).0.derived_pids ≡ false
        → contains 0 (recompute fresh).0.derived_pids ≡ true
        → 0 < 1)
recompute_derives_example = recompute_derives fresh 1 0

recompute_watches_example :
    (contains 1 (recompute fresh).0.watched_pids
      ≡ (1 == 0 || (fresh.emm_enabled && 1 == 1) || contains 1 fresh.pat_pmt_pids))
    × (find 1 (recompute fresh).0.assembler
        ≡ (if contains 1 (recompute fresh).0.watched_pids then find 1 fresh.assembler else none))
recompute_watches_example = recompute_watches fresh 1

run-init_psi_example :
    IsPsi (run (joined_op (0x100 ∷ []) ∷ reset_op ∷ []) (init_psi true []).0).0
    × (last_report [] (
          (init_psi true []).1
          ++ (run (joined_op (0x100 ∷ []) ∷ reset_op ∷ []) (init_psi true []).0).1)
        ≡ (run (joined_op (0x100 ∷ []) ∷ reset_op ∷ []) (init_psi true []).0).0.derived_pids)
run-init_psi_example = run-init_psi true [] (joined_op (0x100 ∷ []) ∷ reset_op ∷ [])
