-- ===== src/Psi/Crc.antt =====
-- `crc32_init` and `crc32_calc` of psi.cpp. Words have 32 bits, so `<<` drops what leaves them.
use Prim.Native.Nat.{bit_xor}
use satip_client.Base.{
  ℕ, zero, suc, ◌*◌, ◌/◌, ◌%◌, ◌^◌, ◌≡◌, refl, if◌then◌else◌, List, [], ◌∷◌, get_or,
}
use satip_client.Psi.Bytes.{has_bit}

abbrev pub word_mod : ℕ
word_mod = 2 ^ 32

-- `(k & 0x80000000) ? ((k << 1) ^ 0x04c11db7) : (k << 1)`
unfoldable pub crc32_shift : ℕ → ℕ
crc32_shift k =
    let shifted = k * 2 % word_mod in if has_bit 31 k then bit_xor shifted 0x04c11db7 else shifted

-- The inner loop of `crc32_init`, for the rounds that are left.
unfoldable pub crc32_rounds : ℕ → ℕ → ℕ
unfolding crc32_shift
crc32_rounds zero k = k
crc32_rounds (suc n) k = crc32_rounds n (crc32_shift k)

unfoldable pub crc32_entry : ℕ → ℕ
unfolding crc32_rounds
crc32_entry i = crc32_rounds 8 (i * 2 ^ 24)

-- `crc32_table[i]` for `i` from `from` on, `n` entries.
unfoldable pub crc32_entries : ℕ → ℕ → List ℕ
unfolding crc32_entry
crc32_entries zero from = []
crc32_entries (suc n) from = crc32_entry from ∷ crc32_entries n (suc from)

-- The table that `crc32_init` fills.
unfoldable pub crc32_table : List ℕ
unfolding crc32_entries
crc32_table = crc32_entries 256 0

-- The loop of `crc32_calc`.
unfoldable pub crc32_from : List ℕ → ℕ → List ℕ → ℕ
crc32_from table crc [] = crc
crc32_from table crc (b ∷ data_bytes) =
    crc32_from table
      (bit_xor (crc * 2 ^ 8 % word_mod) (get_or table (bit_xor (crc / 2 ^ 24) b % 256) 0))
      data_bytes

unfoldable pub crc32_calc : List ℕ → ℕ
unfolding crc32_from crc32_table
crc32_calc data_bytes = crc32_from crc32_table 0xffffffff data_bytes

known_table :
    crc32_calc (
      0x00 ∷ 0xb0 ∷ 0x0d ∷ 0x00 ∷ 0x01 ∷ 0xc1 ∷ 0x00 ∷ 0x00 ∷ 0x00 ∷ 0x01 ∷ 0xe1 ∷ 0x00 ∷ 0xe8
      ∷ 0xf9 ∷ 0x5e ∷ 0x7d ∷ [])
    ≡ 0
unfolding crc32_calc
known_table = refl
