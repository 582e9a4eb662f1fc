-- ===== src/Base/Digits.antt =====
-- The digits of the numbers that are printed in decimal.
use Prim.Native.Nat.{ℕ, zero, suc, ◌+◌, ◌/◌, ◌%◌, ◌≤◌}
use satip_client.Base.Tests.{◌==◌, Bool-cases}
use satip_client.Base.Lists.{All}
use satip_client.Base.Text.{Text, digits_before, decimal}
use mathlib.Core.Logic.{inl, inr}
use mathlib.Core.List.{[], ◌∷◌}
use native.Mathlib.Omega.{arith}

abbrev pub IsDigit : ℕ → Type 0
IsDigit c = (b'0' ≤ c) × (c ≤ b'9')

digits_before-IsDigit :
    (fuel n : ℕ) (rest : Text) → All IsDigit rest → All IsDigit (digits_before fuel n rest)
unfolding digits_before
digits_before-IsDigit zero n rest h = h
digits_before-IsDigit (suc fuel) n rest h = elim (Bool-cases (n / 10 == 0)) [
  | inl e ↦ rw (e, All) ((omega arith, omega arith), h)
  | inr e ↦
      rw (e, All)
        (digits_before-IsDigit fuel (n / 10) ((b'0' + n % 10) ∷ rest)
          ((omega arith, omega arith), h))
]

pub decimal-IsDigit : (n : ℕ) → All IsDigit (decimal n)
unfolding decimal
decimal-IsDigit n = digits_before-IsDigit (suc n) n [] tt
