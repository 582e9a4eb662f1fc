-- ===== src/Rtp/Ports.antt =====
-- `openRTP`: the search for two neighbouring ports that are free.
use satip_client.Base.{
  ℕ, zero, suc, ◌+◌, ◌-◌, ◌/◌, ◌%◌, ◌≤◌, ◌<◌, ◌≡◌, refl, subst, sym, Bool, Bool-cases, inl, inr,
  true, false, ◌&&◌, ◌==◌, if◌then◌else◌, Option, none, some, arith,
}

-- One round: what `random` gives, and whether the two `bind`s succeed.
pub record Attempt : Type 0 where
  pub random : ℕ
  pub rtp_bound : Bool
  pub rtcp_bound : Bool

-- `PORT_BASE`, `PORT_RANGE`
abbrev pub port_base : ℕ
port_base = 45000

abbrev pub port_range : ℕ
port_range = 2000

abbrev pub is_free : Attempt → Bool
is_free a = a.rtp_bound && a.rtcp_bound

abbrev pub rtp_port_of : Attempt → ℕ
rtp_port_of a = port_base + a.random % (port_range - 1)

-- The loop, with the value of `attempts` at its test and the number of the round.
unfoldable pub open_loop : ℕ → ℕ → (ℕ → Attempt) → Option ℕ
open_loop zero round world = none
open_loop (suc attempts) round world =
    let later = open_loop attempts (suc round) world in
    if attempts == 0
    then none
    else if is_free (world round)
    then some (rtp_port_of (world round))
    else later

-- The RTP port that `openRTP` leaves in `m_rtp_port`; the RTCP port is the next one. It is `none` where
-- the source returns -1.
unfoldable pub open_rtp : (ℕ → Attempt) → Option ℕ
unfolding open_loop
open_rtp world = open_loop (port_range / 2) 0 world

-- A fact about a later round, counted from the next one.
from_next :
    (world : ℕ → Attempt) (round j : ℕ) (b : Bool)
    → is_free (world (round + suc j)) ≡ b
    → is_free (world (suc round + j)) ≡ b
from_next world round j b h =
    let same : round + suc j ≡ suc round + j = omega arith in
    subst (λ (n : ℕ). is_free (world n) ≡ b) same h

this_round :
    (world : ℕ → Attempt) (round : ℕ) (b : Bool)
    → is_free (world (round + 0)) ≡ b
    → is_free (world round) ≡ b
this_round world round b h =
    let same : round + 0 ≡ round = omega arith in subst (λ (n : ℕ). is_free (world n) ≡ b) same h

open_loop_round :
    (attempts round : ℕ) (world : ℕ → Attempt)
    → is_free (world round) ≡ false
    → open_loop (suc attempts) round world
      ≡ (if attempts == 0 then none else open_loop attempts (suc round) world)
unfolding open_loop
open_loop_round attempts round world h = rw h refl

open_loop_finds :
    (attempts round d : ℕ) (world : ℕ → Attempt)
    → d + 1 < attempts
    → ((j : ℕ) → j < d → is_free (world (round + j)) ≡ false)
    → is_free (world (round + d)) ≡ true
    → open_loop attempts round world ≡ some (rtp_port_of (world (round + d)))
open_loop_finds zero round d world h taken free = absurd (omega arith)
open_loop_finds (suc attempts) round zero world h taken free =
    let here : round + 0 ≡ round = omega arith in
    let more : (attempts == 0) ≡ false = ground arith in
    unfold open_loop in rw (here, more, this_round world round true free) refl
open_loop_finds (suc attempts) round (suc d) world h taken free =
    let more : (attempts == 0) ≡ false = ground arith in
    let later : round + suc d ≡ suc round + d = omega arith in
    rw
      (
        open_loop_round attempts round world (this_round world round false (taken 0 (omega arith))),
        more,
        later,
      )
      (open_loop_finds attempts (suc round) d world (omega arith)
        (λ j k. from_next world round j false (taken (suc j) (omega (arith, k))))
        (from_next world round d true free))

open_loop_gives_up :
    (attempts round : ℕ) (world : ℕ → Attempt)
    → ((j : ℕ) → j + 1 < attempts → is_free (world (round + j)) ≡ false)
    → open_loop attempts round world ≡ none
open_loop_gives_up zero round world taken = unfold open_loop in refl
open_loop_gives_up (suc attempts) round world taken = elim (Bool-cases (attempts == 0)) [
  | inl e ↦ unfold open_loop in rw e refl
  | inr n ↦
      let some_left : 0 < attempts = ground (arith, n) in
      rw
        (
          open_loop_round attempts round world
              (this_round world round false (taken 0 (omega arith))),
          n,
        )
        (open_loop_gives_up attempts (suc round) world
          (λ j k. from_next world round j false (taken (suc j) (omega (arith, k)))))
]

-- `openRTP` takes the ports of the first round in which both are free, if that is one of its 999
-- rounds: a pair in 45000 to 46999.
open_rtp_first :
    (world : ℕ → Attempt) (i : ℕ)
    → i < 999
    → ((j : ℕ) → j < i → is_free (world j) ≡ false)
    → is_free (world i) ≡ true
    → (open_rtp world ≡ some (rtp_port_of (world i)))
      × (port_base ≤ rtp_port_of (world i))
      × (rtp_port_of (world i) + 1 < port_base + port_range)
unfolding open_rtp
open_rtp_first world i h taken free =
    let at : (j : ℕ) → 0 + j ≡ j = λ j. omega arith in
    (
      subst (λ (n : ℕ). open_loop 1000 0 world ≡ some (rtp_port_of (world n))) (at i)
          (open_loop_finds 1000 0 i world (omega (arith, h))
            (λ j k. subst (λ (n : ℕ). is_free (world n) ≡ false) (sym (at j)) (taken j k))
            (subst (λ (n : ℕ). is_free (world n) ≡ true) (sym (at i)) free)),
      omega arith,
      omega arith,
    )

-- With no round that finds two free ports `openRTP` fails.
open_rtp_fails :
    (world : ℕ → Attempt) → ((j : ℕ) → j < 999 → is_free (world j) ≡ false) → open_rtp world ≡ none
unfolding open_rtp
open_rtp_fails world taken =
    let at : (j : ℕ) → 0 + j ≡ j = λ j. omega arith in
    open_loop_gives_up 1000 0 world (λ j k.
      subst (λ (n : ℕ). is_free (world n) ≡ false) (sym (at j)) (taken j (omega (arith, k))))
