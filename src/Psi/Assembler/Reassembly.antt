-- ===== src/Psi/Assembler/Reassembly.antt =====
-- A section split over several payloads is put together again, and handed over once.
use mathlib.Core.List.{append-nil, append_assoc}
use satip_client.Base.{
  ℕ, zero, suc, ◌+◌, ◌-◌, ◌≤◌, ◌<◌, ◌≡◌, refl, sym, subst, ap, ◌∙◌, ◌≢◌, Bool, true, false, ltb,
  ltb→lt, ◌==◌, ==_iff, inl, inr, Bool-cases, if◌then◌else◌, List, [], ◌∷◌, ◌++◌, length, take,
  drop, arith, length-append, length-drop, get_or-append, take-append, drop-append, take_all,
  drop_all,
}
use satip_client.Psi.Bytes.{byte_at}
use satip_client.Psi.Assembler.{
  Assembler, more, idle, open_section, header_byte, feed_loop, feed_bytes, feed_loop-stop,
  feed_loop_more, feed_loop_full, feed_loop_part,
}
use satip_client.Psi.Assembler.Invariant.{
  IsAssembler, IsSection, StepOk, HeaderStep-cases, idle-IsAssembler, header_byte-ok, fill-body,
  filled-IsAssembler,
}

-- The assembler after the bytes `a` of a section of `len` bytes.
abbrev after_bytes : ℕ → List ℕ → Assembler
after_bytes len a = record { buffer = a; expected = if ltb (length a) 3 then 0 else len }

module _ {S : Type 0} (handle : List ℕ → S → S) where
  -- The loop of `feed` ends by its own test: every bound on the rounds that is not less than the
  -- number of bytes gives the same result.
  pub feed_loop_fuel :
      (f g : ℕ) (start : Bool) (buf : List ℕ) (sa : Assembler) (s : S)
      → IsAssembler sa
      → length buf ≤ f
      → length buf ≤ g
      → feed_loop handle f start buf sa s ≡ feed_loop handle g start buf sa s
  feed_loop_fuel zero zero start [] sa s v p q = refl
  feed_loop_fuel zero (suc g) start [] sa s v p q = unfold feed_loop in refl
  feed_loop_fuel (suc f) zero start [] sa s v p q = unfold feed_loop in refl
  feed_loop_fuel (suc f) (suc g) start [] sa s v p q = unfold feed_loop in refl
  feed_loop_fuel zero g start (b ∷ buf) sa s v p q = absurd (omega arith)
  feed_loop_fuel (suc f) zero start (b ∷ buf) sa s v p q = absurd (omega arith)
  feed_loop_fuel (suc f) (suc g) start (b ∷ buf) sa s v p q =
      let rec = feed_loop_fuel f g start in
      elim (Bool-cases (sa.expected == 0)) [
        | inl e ↦
            let none_yet : sa.expected ≡ 0 = (==_iff _ _).0 e in
            let ok = header_byte-ok start b sa v none_yet in
            elim (HeaderStep-cases (header_byte start b sa)) [
              | inl (sa', h) ↦
                  feed_loop-stop handle f start b buf sa s none_yet h
                  ∙ sym (feed_loop-stop handle g start b buf sa s none_yet h)
              | inr (sa', h) ↦
                  feed_loop_more handle f start b buf sa s none_yet h
                  ∙ rec buf sa' s (subst StepOk h ok) (omega arith) (omega arith)
                  ∙ sym (feed_loop_more handle g start b buf sa s none_yet h)
            ]
        | inr n ↦
            let live : 0 < sa.expected = ground arith in
            let need = sa.expected - length sa.buffer in
            let filled = sa.buffer ++ take need (b ∷ buf) in
            let rest = drop need (b ∷ buf) in
            let fill = fill-body b buf sa v live in
            let ok = v.in_body live in
            let shorter : length rest ≤ length buf = omega (arith, length-drop need (b ∷ buf)) in
            elim (Bool-cases (length filled == sa.expected)) [
              | inl e ↦
                  feed_loop_full handle f start b buf sa s live ((==_iff _ _).0 e)
                  ∙ rec rest (record { buffer = []; expected = 0 }) (handle filled s)
                      idle-IsAssembler (omega arith) (omega arith)
                  ∙ sym (feed_loop_full handle g start b buf sa s live ((==_iff _ _).0 e))
              | inr m ↦
                  feed_loop_part handle f start b buf sa s live m
                  ∙ rec rest (record { buffer = filled; expected = sa.expected }) s
                      (filled-IsAssembler filled sa v live m fill) (omega arith) (omega arith)
                  ∙ sym (feed_loop_part handle g start b buf sa s live m)
            ]
      ]

-- A byte of the header is taken: never as a start that the caller does not allow, nor as stuffing.
header_byte-after :
    (start : Bool) (sec a : List ℕ) (b : ℕ) (r : List ℕ)
    → IsSection sec
    → sec ≡ a ++ b ∷ r
    → length a < 3
    → (length a ≡ 0 → (start ≡ true) × (b ≢ 0xff))
    → header_byte start b (after_bytes (length sec) a)
      ≡ more (after_bytes (length sec) (a ++ b ∷ []))
unfolding header_byte open_section
header_byte-after start sec a b r v e h first =
    let taken = a ++ b ∷ [] in
    let whole : sec ≡ taken ++ r = e ∙ sym (append_assoc a (b ∷ []) r) in
    let same : (i : ℕ) → i < length taken → byte_at taken i ≡ byte_at sec i =
      λ i l. sym (ap (λ (t : List ℕ). byte_at t i) whole ∙ get_or-append taken r i 0 l) in
    ground (arith, same 1, same 2, length-append a (b ∷ []), first)

-- At the start of a section the byte taken is its first.
first_byte :
    (sec a : List ℕ) (b : ℕ) (r : List ℕ) → sec ≡ a ++ b ∷ r → length a ≡ 0 → byte_at sec 0 ≡ b
first_byte sec [] b r e h = ap (λ (t : List ℕ). byte_at t 0) e
first_byte sec (x ∷ a) b r e h = absurd (omega arith)

abbrev Starts : Bool → ℕ → List ℕ → Type 0
Starts start first a = length a ≡ 0 → (start ≡ true) × (first ≢ 0xff)

module _ {S : Type 0} (handle : List ℕ → S → S) where
  feed_loop_nil :
      (fuel : ℕ) (start : Bool) (sa : Assembler) (s : S)
      → feed_loop handle fuel start [] sa s ≡ (sa, s)
  unfolding feed_loop
  feed_loop_nil zero start sa s = refl
  feed_loop_nil (suc fuel) start sa s = refl

  -- A byte of the header is taken, and the loop goes on.
  feed_loop_header :
      (fuel : ℕ) (start : Bool) (sec a : List ℕ) (b : ℕ) (buf r : List ℕ) (s : S)
      → IsSection sec
      → sec ≡ a ++ b ∷ r
      → length a < 3
      → Starts start (byte_at sec 0) a
      → feed_loop handle (suc fuel) start (b ∷ buf) (after_bytes (length sec) a) s
        ≡ feed_loop handle fuel start buf (after_bytes (length sec) (a ++ b ∷ [])) s
  feed_loop_header fuel start sec a b buf r s v e h first =
      feed_loop_more handle fuel start b buf (after_bytes (length sec) a) s (ground arith) (
        header_byte-after start sec a b r v e h
          (λ z. ((first z).0, rw (first_byte sec a b r e z) at ((first z).1))))

  -- Bytes of the section that do not end it are kept.
  feed_loop_partial :
      (fuel : ℕ) (start : Bool) (sec a buf r : List ℕ) (s : S)
      → IsSection sec
      → sec ≡ a ++ (buf ++ r)
      → 0 < length r
      → Starts start (byte_at sec 0) a
      → length buf ≤ fuel
      → feed_loop handle fuel start buf (after_bytes (length sec) a) s
        ≡ (after_bytes (length sec) (a ++ buf), s)
  feed_loop_partial zero start sec a [] r s v e h first f = unfold feed_loop in rw append-nil
  feed_loop_partial (suc fuel) start sec a [] r s v e h first f = unfold feed_loop in rw append-nil
  feed_loop_partial zero start sec a (b ∷ buf) r s v e h first f = absurd (omega arith)
  feed_loop_partial (suc fuel) start sec a (b ∷ buf) r s v e h first f =
      let split : length sec ≡ length a + (suc (length buf) + length r) =
        omega (arith, ap length e, length-append a (b ∷ (buf ++ r)), length-append buf r) in
      elim (Bool-cases (ltb (length a) 3)) [
        | inl short ↦
            feed_loop_header fuel start sec a b buf (buf ++ r) s v e (ltb→lt _ _ short) first
            ∙ feed_loop_partial fuel start sec (a ++ b ∷ []) buf r s v
                (e ∙ sym (append_assoc a (b ∷ []) (buf ++ r))) h
                (λ z. absurd (omega (arith, length-append a (b ∷ [])))) (omega arith)
            ∙ rw (append_assoc a (b ∷ []) buf) refl
        | inr long ↦
            let expected : (after_bytes (length sec) a).expected ≡ length sec = rw long refl in
            let need = (after_bytes (length sec) a).expected - length a in
            let all : take need (b ∷ buf) ≡ b ∷ buf = take_all need (b ∷ buf) (omega arith) in
            let nothing : drop need (b ∷ buf) ≡ [] = drop_all need (b ∷ buf) (omega arith) in
            feed_loop_part handle fuel start b buf (after_bytes (length sec) a) s (omega arith)
              (rw all (ground (arith, expected, length-append a (b ∷ buf))))
            ∙ rw (nothing, all)
                (feed_loop_nil fuel start _ s ∙ ground (arith, expected, length-append a (b ∷ buf)))
      ]

  -- The last bytes of the section hand it over; the loop goes on with what follows them.
  feed_loop_complete :
      (fuel : ℕ) (start : Bool) (sec a r tail : List ℕ) (s : S)
      → IsSection sec
      → sec ≡ a ++ r
      → 0 < length r
      → Starts start (byte_at sec 0) a
      → length (r ++ tail) ≤ fuel
      → feed_loop handle fuel start (r ++ tail) (after_bytes (length sec) a) s
        ≡ feed_loop handle fuel start tail idle (handle sec s)
  feed_loop_complete fuel start sec a [] tail s v e h first f = absurd (omega arith)
  feed_loop_complete zero start sec a (b ∷ r) tail s v e h first f = absurd (omega arith)
  feed_loop_complete (suc fuel) start sec a (b ∷ r) tail s v e h first f =
      let split : length sec ≡ length a + suc (length r) =
        omega (arith, ap length e, length-append a (b ∷ r)) in
      let later : feed_loop handle fuel start tail idle (handle sec s)
          ≡ feed_loop handle (suc fuel) start tail idle (handle sec s) =
        feed_loop_fuel handle fuel (suc fuel) start tail idle (handle sec s) idle-IsAssembler
          (omega (arith, length-append r tail)) (omega (arith, length-append r tail)) in
      elim (Bool-cases (ltb (length a) 3)) [
        | inl short ↦
            let brief : length a < 3 = ltb→lt _ _ short in
            feed_loop_header fuel start sec a b (r ++ tail) r s v e brief first
            ∙ feed_loop_complete fuel start sec (a ++ b ∷ []) r tail s v
                (e ∙ sym (append_assoc a (b ∷ []) r)) (omega arith)
                (λ z. absurd (omega (arith, length-append a (b ∷ [])))) (omega arith)
            ∙ later
        | inr long ↦
            let expected : (after_bytes (length sec) a).expected ≡ length sec = rw long refl in
            let need = (after_bytes (length sec) a).expected - length a in
            let exact : need ≡ length (b ∷ r) = omega (arith, expected) in
            let all : take need (b ∷ (r ++ tail)) ≡ b ∷ r = rw exact (take-append (b ∷ r) tail) in
            let rest : drop need (b ∷ (r ++ tail)) ≡ tail = rw exact (drop-append (b ∷ r) tail) in
            feed_loop_full handle fuel start b (r ++ tail) (after_bytes (length sec) a) s
              (omega arith) (rw all (omega (arith, expected, length-append a (b ∷ r))))
            ∙ rw (all, rest, ← e) later
      ]

  -- The payloads of the packets that follow the first one of a section.
  unfoldable pub feed_chunks : List (List ℕ) → Assembler → S → Assembler × S
  unfolding feed_bytes
  feed_chunks [] sa s = (sa, s)
  feed_chunks (c ∷ cs) sa s =
      let (sa', s') = feed_bytes handle false c sa s in feed_chunks cs sa' s'

  abbrev pub join : List (List ℕ) → List ℕ
  join [] = []
  join (c ∷ cs) = c ++ join cs

  -- Between sections nothing is taken where no section may start.
  feed_loop_between :
      (fuel : ℕ) (tail : List ℕ) (s : S) → feed_loop handle fuel false tail idle s ≡ (idle, s)
  feed_loop_between fuel [] s = feed_loop_nil fuel false idle s
  feed_loop_between zero (b ∷ tail) s = unfold feed_loop in refl
  feed_loop_between (suc fuel) (b ∷ tail) s =
      feed_loop-stop handle fuel false b tail idle s refl (unfold header_byte in refl)

  feed_chunks_after :
      (cs : List (List ℕ)) (sec a last tail : List ℕ) (s : S)
      → IsSection sec
      → sec ≡ a ++ (join cs ++ last)
      → 0 < length a
      → 0 < length last
      → feed_chunks (cs ++ (last ++ tail) ∷ []) (after_bytes (length sec) a) s
        ≡ (idle, handle sec s)
  unfolding feed_chunks
  feed_chunks_after [] sec a last tail s v e ha hl =
      let fuel = length (last ++ tail) in
      feed_loop_complete fuel false sec a last tail s v e hl (λ z. absurd (omega arith))
        (omega arith)
      ∙ feed_loop_between fuel tail (handle sec s)
  feed_chunks_after (c ∷ cs) sec a last tail s v e ha hl =
      let e' : sec ≡ a ++ (c ++ (join cs ++ last)) =
        e ∙ ap (◌++◌ a) (append_assoc c (join cs) last) in
      let more_to_come : 0 < length (join cs ++ last) =
        omega (arith, length-append (join cs) last) in
      ap (λ (r : Assembler × S). feed_chunks (cs ++ (last ++ tail) ∷ []) r.0 r.1)
        (feed_loop_partial (length c) false sec a c (join cs ++ last) s v e' more_to_come
          (λ z. absurd (omega arith)) (omega arith))
      ∙ (feed_chunks_after cs sec (a ++ c) last tail s v
          (e' ∙ sym (append_assoc a c (join cs ++ last))) (omega (arith, length-append a c)) hl)

  -- A section that starts in one payload and goes on in any number of further ones is handed over
  -- exactly once, whole, however its bytes are split, and whatever follows it in its last payload;
  -- the assembler is then idle. The first byte of the section is not 0xff, which would be stuffing.
  pub feed_chunks_section :
      (sec first : List ℕ) (cs : List (List ℕ)) (last tail : List ℕ) (s : S)
      → IsSection sec
      → byte_at sec 0 ≢ 0xff
      → sec ≡ first ++ (join cs ++ last)
      → 0 < length first
      → 0 < length last
      → let (sa, s') = feed_bytes handle true first idle s in
        feed_chunks (cs ++ (last ++ tail) ∷ []) sa s' ≡ (idle, handle sec s)
  unfolding feed_bytes
  feed_chunks_section sec first cs last tail s v stuffing e hf hl =
      let more_to_come : 0 < length (join cs ++ last) =
        omega (arith, length-append (join cs) last) in
      rw
        (feed_loop_partial (length first) true sec [] first (join cs ++ last) s v e more_to_come
          (λ z. (refl, stuffing)) (omega arith))
        (feed_chunks_after cs sec first last tail s v e hf hl)
