-- ===== src/Base/Text.antt =====
-- Text as the list of its bytes, and numbers in decimal, as `std::ostringstream` prints them.
use Prim.Native.Nat.{ℕ, zero, suc, ◌+◌, ◌/◌, ◌%◌}
use Prim.Native.Char.{code}
use Prim.Native.String.{String}
use satip_client.Base.Tests.{◌==◌}
use mathlib.Core.Path.{◌≡◌, refl}
use mathlib.Core.Bool.{true, false}
use mathlib.Core.List.{List, [], ◌∷◌, ◌++◌}

abbrev pub Text : Type 0
Text = List ℕ

abbrev pub codes : String → Text
codes String.[] = []
codes (String.◌∷◌ c s) = code c ∷ codes s

-- The digits of `n` before `rest`; a number has fewer digits than it counts, so `suc n` is fuel
-- enough.
unfoldable pub digits_before : ℕ → ℕ → Text → Text
digits_before zero n rest = rest
digits_before (suc fuel) n rest = elim (n / 10 == 0) [
  | true ↦ (b'0' + n % 10) ∷ rest
  | false ↦ digits_before fuel (n / 10) ((b'0' + n % 10) ∷ rest)
]

-- `oss << n`
unfoldable pub decimal : ℕ → Text
unfolding digits_before
decimal n = digits_before (suc n) n []

-- The numbers after the first, each behind a comma.
unfoldable pub join_rest : List ℕ → Text
unfolding decimal
join_rest [] = []
join_rest (n ∷ ns) = codes "," ++ (decimal n ++ join_rest ns)

-- `joinNumbers(values)`, in decimal
unfoldable pub join_numbers : List ℕ → Text
unfolding join_rest
join_numbers [] = []
join_numbers (n ∷ ns) = decimal n ++ join_rest ns

joined : join_numbers (0 ∷ 16 ∷ 8191 ∷ []) ≡ codes "0,16,8191"
unfolding join_numbers
joined = refl
