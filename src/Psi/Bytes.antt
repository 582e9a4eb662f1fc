-- ===== src/Psi/Bytes.antt =====
-- Bytes and the bit fields of psi.cpp. A buffer is a list of numbers below 256; `&`, `|` and `<<`
-- on bytes are written as `%`, `+` and `*`, where the `|` of the source joins disjoint bits.
use satip_client.Base.{ℕ, ◌+◌, ◌*◌, ◌/◌, ◌%◌, ◌^◌, ◌<◌, Bool, ◌==◌, List, All, get_or}

abbrev pub AreBytes : List ℕ → Type 0
AreBytes = All (λ b. b < 256)

-- `p[i]`
abbrev pub byte_at : List ℕ → ℕ → ℕ
byte_at p i = get_or p i 0

-- `b & (1 << k)`
abbrev pub has_bit : ℕ → ℕ → Bool
has_bit k b = b / 2 ^ k % 2 == 1

-- `((hi & 0x0f) << 8) | lo`, a length field
abbrev pub length12 : ℕ → ℕ → ℕ
length12 hi lo = hi % 16 * 256 + lo

-- `((hi & 0x1f) << 8) | lo`, a pid field
abbrev pub pid13 : ℕ → ℕ → ℕ
pid13 hi lo = hi % 32 * 256 + lo

-- `(hi << 8) | lo`
abbrev pub word16 : ℕ → ℕ → ℕ
word16 hi lo = hi * 256 + lo

-- `PSI_PID_NULL`
abbrev pub pid_null : ℕ
pid_null = 0x1fff
