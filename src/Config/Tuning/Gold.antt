-- ===== src/Config/Tuning/Gold.antt =====
-- The shift register of the physical layer scrambling codes.
use satip_client.Base.{
  ℕ, zero, suc, ◌+◌, ◌≤◌, ◌<◌, ◌≡◌, refl, ◌≢◌, sym, true, false, ◌==◌, ==_iff, inl, inr, Bool-cases,
  arith,
}
use satip_client.Config.Tuning.{gold_step, gold_loop, pls_root2gold}

-- The register after `n` steps.
unfoldable pub gold_state : ℕ → ℕ → ℕ
gold_state zero x = x
gold_state (suc n) x = gold_state n (gold_step x)

gold_loop_hit : (n root g x : ℕ) → (root == x) ≡ true → gold_loop (suc n) root g x ≡ g
unfolding gold_loop
gold_loop_hit n root g x e = rw (e, gold_loop) refl

gold_loop_miss :
    (n root g x : ℕ)
    → (root == x) ≡ false
    → gold_loop (suc n) root g x ≡ gold_loop n root (suc g) (gold_step x)
unfolding gold_loop
gold_loop_miss n root g x e = rw (e, gold_loop) refl

-- The loop stops at the first step whose state is the root, or after its last round.
Finds : ℕ → ℕ → ℕ → ℕ → ℕ → Type 0
Finds n root g x r =
    (j : ℕ) × (r ≡ g + j)
    × (j ≤ n)
    × (j < n → gold_state j x ≡ root)
    × ((i : ℕ) → i < j → gold_state i x ≢ root)

gold_first :
    (root x j : ℕ)
    → (root == x) ≡ false
    → ((i : ℕ) → i < j → gold_state i (gold_step x) ≢ root)
    → (i : ℕ) → i < suc j
    → gold_state i x ≢ root
unfolding gold_state
gold_first root x j m first zero h e = ground arith
gold_first root x j m first (suc i) h e = first i (omega arith) e

gold_loop-Finds : (n root g x : ℕ) → Finds n root g x (gold_loop n root g x)
unfolding Finds gold_state
gold_loop-Finds zero root g x = (
  0,
  unfold gold_loop in omega arith,
  omega arith,
  λ h. absurd (omega arith),
  λ i h. absurd (omega arith),
)
gold_loop-Finds (suc n) root g x = elim (Bool-cases (root == x)) [
  | inl e ↦
      rw (gold_loop_hit n root g x e)
        (0, omega arith, omega arith, λ h. sym ((==_iff root x).0 e), λ i h. absurd (omega arith))
  | inr m ↦
      let (j, e, bound, hit, first) = gold_loop-Finds n root (suc g) (gold_step x) in
      rw (gold_loop_miss n root g x m)
        (suc j, omega arith, omega arith, λ h. hit (omega arith), gold_first root x j m first)
]

gold_loop_least :
    (n root : ℕ)
    → let g = gold_loop n root 0 1 in
      (g ≤ n) × (g < n → gold_state g 1 ≡ root) × ((i : ℕ) → i < g → gold_state i 1 ≢ root)
unfolding Finds
gold_loop_least n root =
    let (j, e, bound, hit, first) = gold_loop-Finds n root 0 1 in
    let same : gold_loop n root 0 1 ≡ j = omega arith in rw same (bound, hit, first)

-- `pls_root2gold` gives the least number of steps below 0x3ffff after which the register, started
-- at 1, holds the root, and 0x3ffff if there is none.
pub pls_root2gold_least :
    (root : ℕ)
    → let g = pls_root2gold root in
      (g ≤ 0x3ffff)
      × (g < 0x3ffff → gold_state g 1 ≡ root)
      × ((i : ℕ) → i < g → gold_state i 1 ≢ root)
unfolding pls_root2gold
pls_root2gold_least root = gold_loop_least 0x3ffff root
