-- ===== src/Base/Maps.antt =====
-- `std::map<int, V>` with keys that are not negative: pairs with strictly rising keys.
use satip_client.Base.Tests.{ltb, ◌==◌, if◌then◌else◌, ==_iff, Bool-cases}
use satip_client.Base.Sets.{contains}
use Prim.Native.Nat.{ℕ}
use mathlib.Core.Path.{◌≡◌, refl}
use mathlib.Core.Logic.{inl, inr}
use mathlib.Core.Option.{Option, none, some}
use mathlib.Core.List.{List, [], ◌∷◌}
use native.Mathlib.Omega.{arith}

module _ {ℓ} {V : Type ℓ} where
  -- `m.find(k)`
  unfoldable pub find : ℕ → List (ℕ × V) → Option V
  find k [] = none
  find k ((j, v) ∷ m) = if j == k then some v else find k m

  -- `m[k] = v`
  unfoldable pub put : ℕ → V → List (ℕ × V) → List (ℕ × V)
  put k v [] = (k, v) ∷ []
  put k v ((j, w) ∷ m) =
      let rest = put k v m in
      if ltb k j then (k, v) ∷ (j, w) ∷ m else if j == k then (k, v) ∷ m else (j, w) ∷ rest

  -- `m[k]`, which the source lets create an entry: the value read. The entry is made by `put`.
  abbrev pub or_default : V → Option V → V
  or_default d none = d
  or_default d (some v) = v

  -- `eraseUnlisted`
  unfoldable pub erase_unlisted : List ℕ → List (ℕ × V) → List (ℕ × V)
  erase_unlisted keep [] = []
  erase_unlisted keep ((k, v) ∷ m) =
      let rest = erase_unlisted keep m in if contains k keep then (k, v) ∷ rest else rest

  pub find-put :
      (k j : ℕ) (v : V) (m : List (ℕ × V))
      → find j (put k v m) ≡ (if k == j then some v else find j m)
  unfolding find put
  find-put k j v [] = refl
  find-put k j v ((i, w) ∷ m) = ground (arith, find-put k j v m)

  pub find-erase_unlisted :
      (keep : List ℕ) (j : ℕ) (m : List (ℕ × V))
      → find j (erase_unlisted keep m) ≡ (if contains j keep then find j m else none)
  unfolding find erase_unlisted
  find-erase_unlisted keep j [] = ground arith
  find-erase_unlisted keep j ((k, v) ∷ m) = elim (Bool-cases (k == j)) [
    | inl e ↦ rw ((==_iff k j).0 e) (ground (arith, find-erase_unlisted keep j m))
    | inr n ↦ ground (arith, find-erase_unlisted keep j m)
  ]
