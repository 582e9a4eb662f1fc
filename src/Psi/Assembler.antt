-- ===== src/Psi/Assembler.antt =====
-- `section_assembler` and the loop of `satipPSI::feed`, which joins the bytes of a section from the
-- payloads of several packets. `handle` stands for the call of `handleSection`; it does not see the
-- assembler.
pub mod Invariant
pub mod Reassembly
use satip_client.Base.{
  ℕ, zero, suc, ◌+◌, ◌-◌, ◌≤◌, ◌<◌, ◌≡◌, Bool, true, false, ◌||◌, ◌&&◌, not, ltb, ◌==◌,
  if◌then◌else◌, List, [], ◌∷◌, ◌++◌, length, take, drop, ==_iff, refl, arith,
}
use satip_client.Psi.Bytes.{byte_at, length12}

-- `data[0 .. len)` and `expected`; `len` is the length of the buffer.
pub record Assembler : Type 0 where
  pub buffer : List ℕ
  pub expected : ℕ

abbrev pub idle : Assembler
idle = record { buffer = []; expected = 0 }

-- `PSI_MAX_SECTION_LEN`
abbrev pub max_section_len : ℕ
max_section_len = 4096

-- One round of the loop in the header: `stop` is its `return`, `more` its `continue`.
pub data HeaderStep : Type 0 where
  stop more : Assembler → HeaderStep

-- The third byte of the header decides.
unfoldable pub open_section : List ℕ → HeaderStep
open_section header =
    let section_length = length12 (byte_at header 1) (byte_at header 2) in
    if ltb section_length 9 || ltb max_section_len (section_length + 3)
    then stop (record { buffer = []; expected = 0 })
    else more (record { buffer = header; expected = section_length + 3 })

unfoldable pub header_byte : Bool → ℕ → Assembler → HeaderStep
unfolding open_section
header_byte allow_start b sa =
    if length sa.buffer == 0 && (not allow_start || b == 0xff)
    then stop sa
    else if ltb (length (sa.buffer ++ b ∷ [])) 3
    then more (record { buffer = sa.buffer ++ b ∷ []; expected = 0 })
    else open_section (sa.buffer ++ b ∷ [])

module _ {S : Type 0} (handle : List ℕ → S → S) where
  -- The loop, with the bytes from `pos` on. Each round takes a byte, so their number is fuel enough.
  unfoldable pub feed_loop : ℕ → Bool → List ℕ → Assembler → S → Assembler × S
  feed_loop zero allow_start buf sa s = (sa, s)
  feed_loop (suc fuel) allow_start [] sa s = (sa, s)
  feed_loop (suc fuel) allow_start (b ∷ buf) sa s = elim (sa.expected == 0) [
    | true ↦ elim (header_byte allow_start b sa) [
      | stop sa' ↦ (sa', s)
      | more sa' ↦ feed_loop fuel allow_start buf sa' s
    ]
    | false ↦
        let need = sa.expected - length sa.buffer in
        let filled = sa.buffer ++ take need (b ∷ buf) in
        let rest = drop need (b ∷ buf) in
        elim (length filled == sa.expected) [
          | true ↦
              feed_loop fuel allow_start rest (record { buffer = []; expected = 0 })
                (handle filled s)
          | false ↦
              feed_loop fuel allow_start rest (record { buffer = filled; expected = sa.expected }) s
        ]
  ]

  unfoldable pub feed_bytes : Bool → List ℕ → Assembler → S → Assembler × S
  unfolding feed_loop header_byte
  feed_bytes allow_start buf sa s = feed_loop (length buf) allow_start buf sa s

  -- The four ways through one round.
  pub feed_loop-stop :
      (fuel : ℕ) (start : Bool) (b : ℕ) (buf : List ℕ) (sa : Assembler) (s : S) {sa' : Assembler}
      → sa.expected ≡ 0
      → header_byte start b sa ≡ stop sa'
      → feed_loop (suc fuel) start (b ∷ buf) sa s ≡ (sa', s)
  unfolding feed_loop
  feed_loop-stop fuel start b buf sa s e h = rw ((==_iff _ _).1 e, feed_loop) (rw (h, feed_loop))

  pub feed_loop_more :
      (fuel : ℕ) (start : Bool) (b : ℕ) (buf : List ℕ) (sa : Assembler) (s : S) {sa' : Assembler}
      → sa.expected ≡ 0
      → header_byte start b sa ≡ more sa'
      → feed_loop (suc fuel) start (b ∷ buf) sa s ≡ feed_loop fuel start buf sa' s
  unfolding feed_loop
  feed_loop_more fuel start b buf sa s e h = rw ((==_iff _ _).1 e, feed_loop) (rw (h, feed_loop))

  pub feed_loop_full :
      (fuel : ℕ) (start : Bool) (b : ℕ) (buf : List ℕ) (sa : Assembler) (s : S)
      → 0 < sa.expected
      → let need = sa.expected - length sa.buffer in
        let filled = sa.buffer ++ take need (b ∷ buf) in
        length filled ≡ sa.expected
        → feed_loop (suc fuel) start (b ∷ buf) sa s
          ≡ feed_loop fuel start
              (drop need (b ∷ buf))
              (record { buffer = []; expected = 0 })
              (handle filled s)
  unfolding feed_loop
  feed_loop_full fuel start b buf sa s h e =
      let live : (sa.expected == 0) ≡ false = ground arith in
      rw (live, feed_loop) (rw ((==_iff _ _).1 e, feed_loop))

  pub feed_loop_part :
      (fuel : ℕ) (start : Bool) (b : ℕ) (buf : List ℕ) (sa : Assembler) (s : S)
      → 0 < sa.expected
      → let need = sa.expected - length sa.buffer in
        let filled = sa.buffer ++ take need (b ∷ buf) in
        (length filled == sa.expected) ≡ false
        → feed_loop (suc fuel) start (b ∷ buf) sa s
          ≡ feed_loop fuel start
              (drop need (b ∷ buf))
              (record { buffer = filled; expected = sa.expected })
              s
  unfolding feed_loop
  feed_loop_part fuel start b buf sa s h e =
      let live : (sa.expected == 0) ≡ false = ground arith in
      rw (live, feed_loop) (rw (e, feed_loop))
