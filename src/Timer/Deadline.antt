-- ===== src/Timer/Deadline.antt =====
-- Times as numbers of nanoseconds: the order of `callNextTimer`, and what a poll of
-- `getNextTimerBegin` milliseconds comes to.
use satip_client.Base.{ℕ, ◌+◌, ◌*◌, ◌≤◌, ◌<◌, ◌≡◌, ◌↔◌, true, arith}
use satip_client.Timer.{Timespec, after_msec, is_later, msec_left}

-- The nanoseconds of a time.
abbrev pub total : Timespec → ℕ
total t = t.sec * 1000000000 + t.nsec

abbrev pub IsTimespec : Timespec → Type 0
IsTimespec t = t.nsec < 1000000000

pub after_msec-total :
    (now : Timespec) (msec : ℕ)
    → IsTimespec now
    → IsTimespec (after_msec now msec) × (total (after_msec now msec) ≡ total now + msec * 1000000)
unfolding after_msec
after_msec-total now msec v = ground arith

pub is_later_iff :
    (a b : Timespec) → IsTimespec a → IsTimespec b → (is_later a b ≡ true) ↔ (total b < total a)
unfolding is_later
is_later_iff a b v w = ground arith

pub msec_left-enough :
    (now ts : Timespec)
    → IsTimespec now
    → IsTimespec ts
    → total ts < total now + msec_left now ts * 1000000
unfolding msec_left
msec_left-enough now ts v w = omega arith

-- From both on, the wait ends within two milliseconds.
pub msec_left-close :
    (now ts : Timespec) (x : ℕ)
    → IsTimespec now
    → IsTimespec ts
    → total now ≤ x
    → total ts ≤ x
    → total now + msec_left now ts * 1000000 ≤ x + 2000000
unfolding msec_left
msec_left-close now ts x v w h k = omega arith
