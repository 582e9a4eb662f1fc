-- ===== src/Psi/Assembler/Invariant.antt =====
-- The assembler never holds more than it announced, never more than its buffer, and hands over
-- whole sections only.
use satip_client.Base.{
  ℕ, zero, suc, ◌+◌, ◌-◌, ◌≤◌, ◌<◌, ◌≡◌, refl, subst, Bool, false, ◌==◌, ==_iff, ◌⊎◌, inl, inr,
  Bool-cases, List, [], ◌∷◌, ◌++◌, length, take, drop, arith, length-append, length-take,
  get_or-append,
}
use satip_client.Psi.Bytes.{byte_at, length12}
use satip_client.Psi.Assembler.{
  Assembler, HeaderStep, stop, more, max_section_len, open_section, header_byte, feed_loop,
  feed_loop-stop, feed_loop_more, feed_loop_full, feed_loop_part,
}

pub record IsAssembler (sa : Assembler) : Type 0 where
  pub in_header : sa.expected ≡ 0 → length sa.buffer < 3
  pub in_body :
      0 < sa.expected
      → (3 ≤ length sa.buffer)
        × (length sa.buffer < sa.expected)
        × (12 ≤ sa.expected)
        × (sa.expected ≤ max_section_len)
        × (length12 (byte_at sa.buffer 1) (byte_at sa.buffer 2) + 3 ≡ sa.expected)

-- A section as long as its header says, with room for the table header and the CRC.
pub record IsSection (sec : List ℕ) : Type 0 where
  pub long_enough : 12 ≤ length sec
  pub fits : length sec ≤ max_section_len
  pub announced : length12 (byte_at sec 1) (byte_at sec 2) + 3 ≡ length sec

abbrev pub StepOk : HeaderStep → Type 0
StepOk (stop sa) = IsAssembler sa
StepOk (more sa) = IsAssembler sa

pub idle-IsAssembler : IsAssembler (record { buffer = []; expected = 0 })
idle-IsAssembler = record { in_header = λ e. omega arith; in_body = λ h. absurd (omega arith) }

open_section-ok : (header : List ℕ) → length header ≡ 3 → StepOk (open_section header)
unfolding open_section
open_section-ok header h = ground arith

pub header_byte-ok :
    (start : Bool) (b : ℕ) (sa : Assembler)
    → IsAssembler sa
    → sa.expected ≡ 0
    → StepOk (header_byte start b sa)
unfolding header_byte
header_byte-ok start b sa v e =
    ground (
      arith,
      v.in_header e,
      length-append sa.buffer (b ∷ []),
      open_section-ok (sa.buffer ++ b ∷ []),
    )

-- One fill of the body: what is still missing, or all the bytes there are.
pub fill-body :
    (b : ℕ) (buf : List ℕ) (sa : Assembler)
    → IsAssembler sa
    → 0 < sa.expected
    → let filled = sa.buffer ++ take (sa.expected - length sa.buffer) (b ∷ buf) in
      (length filled ≤ sa.expected)
      × (length sa.buffer < length filled)
      × (byte_at filled 1 ≡ byte_at sa.buffer 1)
      × (byte_at filled 2 ≡ byte_at sa.buffer 2)
fill-body b buf sa v h =
    let need = sa.expected - length sa.buffer in
    let ok = v.in_body h in
    (
      omega (arith, length-append sa.buffer (take need (b ∷ buf)), length-take need (b ∷ buf)),
      omega (arith, length-append sa.buffer (take need (b ∷ buf)), length-take need (b ∷ buf)),
      get_or-append sa.buffer (take need (b ∷ buf)) 1 0 (omega arith),
      get_or-append sa.buffer (take need (b ∷ buf)) 2 0 (omega arith),
    )

filled-IsSection :
    (filled : List ℕ) (sa : Assembler)
    → IsAssembler sa
    → 0 < sa.expected
    → length filled ≡ sa.expected
    → byte_at filled 1 ≡ byte_at sa.buffer 1
    → byte_at filled 2 ≡ byte_at sa.buffer 2
    → IsSection filled
filled-IsSection filled sa v h e p q =
    let ok = v.in_body h in
    record { long_enough = omega arith; fits = omega arith; announced = rw (p, q) (omega arith) }

pub filled-IsAssembler :
    (filled : List ℕ) (sa : Assembler)
    → IsAssembler sa
    → 0 < sa.expected
    → (length filled == sa.expected) ≡ false
    → (length filled ≤ sa.expected)
      × (length sa.buffer < length filled)
      × (byte_at filled 1 ≡ byte_at sa.buffer 1)
      × (byte_at filled 2 ≡ byte_at sa.buffer 2)
    → IsAssembler (record { buffer = filled; expected = sa.expected })
filled-IsAssembler filled sa v h m f =
    let ok = v.in_body h in
    record {
      in_header = λ e. absurd (omega arith);
      in_body =
          λ l. (omega arith, ground arith, omega arith, omega arith, rw (f.2, f.3) (omega arith));
    }

pub HeaderStep-cases :
    (h : HeaderStep) → ((sa : Assembler) × (h ≡ stop sa)) ⊎ ((sa : Assembler) × (h ≡ more sa))
HeaderStep-cases (stop sa) = inl (sa, refl)
HeaderStep-cases (more sa) = inr (sa, refl)

module _ {S : Type 0} (handle : List ℕ → S → S) where
  -- `feed` keeps the assembler within its 4096 bytes and its announced length, and every section
  -- that it hands over is as long as its header says: what each such call keeps, `feed` keeps.
  pub feed_loop-invariant {κ} :
      (P : S → Type κ)
      → ((sec : List ℕ) (s : S) → IsSection sec → P s → P (handle sec s))
      → (fuel : ℕ) (start : Bool) (buf : List ℕ) (sa : Assembler) (s : S) → IsAssembler sa
      → P s
      → IsAssembler (feed_loop handle fuel start buf sa s).0
        × P (feed_loop handle fuel start buf sa s).1
  feed_loop-invariant P keeps zero start buf sa s v p = unfold feed_loop in (v, p)
  feed_loop-invariant P keeps (suc fuel) start [] sa s v p = unfold feed_loop in (v, p)
  feed_loop-invariant P keeps (suc fuel) start (b ∷ buf) sa s v p =
      let rec = feed_loop-invariant P keeps fuel start in
      elim (Bool-cases (sa.expected == 0)) [
        | inl e ↦
            let none_yet : sa.expected ≡ 0 = (==_iff _ _).0 e in
            let ok = header_byte-ok start b sa v none_yet in
            elim (HeaderStep-cases (header_byte start b sa)) [
              | inl (sa', h) ↦
                  rw (feed_loop-stop handle fuel start b buf sa s none_yet h) (subst StepOk h ok, p)
              | inr (sa', h) ↦
                  rw (feed_loop_more handle fuel start b buf sa s none_yet h)
                    (rec buf sa' s (subst StepOk h ok) p)
            ]
        | inr n ↦
            let live : 0 < sa.expected = ground arith in
            let need = sa.expected - length sa.buffer in
            let filled = sa.buffer ++ take need (b ∷ buf) in
            let rest = drop need (b ∷ buf) in
            let fill = fill-body b buf sa v live in
            let ok = v.in_body live in
            elim (Bool-cases (length filled == sa.expected)) [
              | inl e ↦ rw (feed_loop_full handle fuel start b buf sa s live ((==_iff _ _).0 e)) (
                  rec rest (record { buffer = []; expected = 0 }) (handle filled s) idle-IsAssembler
                    (keeps filled s
                      (filled-IsSection filled sa v live ((==_iff _ _).0 e) fill.2 fill.3) p))
              | inr m ↦ rw (feed_loop_part handle fuel start b buf sa s live m) (
                  rec rest (record { buffer = filled; expected = sa.expected }) s
                    (filled-IsAssembler filled sa v live m fill) p)
            ]
      ]
