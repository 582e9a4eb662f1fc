-- ===== src/Timer/Earliest.antt =====
-- The timer that `getNextTimerBegin` picks, and the poll that it bounds.
use satip_client.Base.{
  ℕ, ◌+◌, ◌*◌, ◌≤◌, ◌<◌, ◌≡◌, refl, ap, ◌∙◌, Bool, true, false, ◌||◌, ◌&&◌, none, some, List, [],
  ◌∷◌, inl, inr, Bool-cases, if◌then◌else◌, All, arith,
}
use satip_client.Timer.{
  Timespec, TimerElem, is_later, replaces, earliest, msec_left, get_next_timer_begin,
}
use satip_client.Timer.Deadline.{total, IsTimespec, is_later_iff, msec_left-enough, msec_left-close}

abbrev pub IsTimer : TimerElem → Type 0
IsTimer t = IsTimespec t.ts

-- Some active timer is past its time, as `callNextTimer` tests it.
unfoldable pub any_due : Timespec → List TimerElem → Bool
unfolding is_later
any_due now [] = false
any_due now (t ∷ timers) = (t.active && is_later now t.ts) || any_due now timers

unfoldable pub any_active : List TimerElem → Bool
any_active [] = false
any_active (t ∷ timers) = t.active || any_active timers

-- What the loop ends with, once it has found a timer.
record IsEarliest (found : TimerElem) (timers : List TimerElem) (m : TimerElem) : Type 0 where
  picked : earliest (some found) timers ≡ some m
  timer : IsTimer m
  below : total m.ts ≤ total found.ts
  least : All (λ t. t.active ≡ true → total m.ts ≤ total t.ts) timers
  due :
      (now : Timespec)
      → is_later now m.ts ≡ true
      → (is_later now found.ts || any_due now timers) ≡ true

-- One round, for a timer that replaces the one found and for one that does not.
earliest_next :
    (found t : TimerElem) (timers : List TimerElem) (b : Bool)
    → (t.active && is_later found.ts t.ts) ≡ b
    → earliest (some found) (t ∷ timers)
      ≡ (if b then earliest (some t) timers else earliest (some found) timers)
unfolding earliest
earliest_next found t timers true h = rw h
earliest_next found t timers false h = rw h

All-least_mono :
    (a b : ℕ) (timers : List TimerElem)
    → a ≤ b
    → All (λ t. t.active ≡ true → b ≤ total t.ts) timers
    → All (λ t. t.active ≡ true → a ≤ total t.ts) timers
All-least_mono a b [] h all = tt
All-least_mono a b (t ∷ timers) h (first, rest) =
    (λ e. ground (arith, first e), All-least_mono a b timers h rest)

rounds_find :
    (timers : List TimerElem) (found : TimerElem)
    → IsTimer found
    → All IsTimer timers
    → (m : TimerElem) × IsEarliest found timers m
unfolding any_due
rounds_find [] found v all = (
  found,
  record {
    picked = unfold earliest in refl;
    timer = v;
    below = omega arith;
    least = tt;
    due = λ now h. ground (arith, h);
  },
)
rounds_find (t ∷ timers) found v (vt, all) =
    elim (Bool-cases (t.active && is_later found.ts t.ts)) [
      | inl e ↦
          let (m, r) = rounds_find timers t vt all in
          let later = is_later_iff found.ts t.ts v vt in
          let sooner : total t.ts < total found.ts = ground (arith, later, e) in
          (
            m,
            record {
              picked = earliest_next found t timers true e ∙ r.picked;
              timer = r.timer;
              below = omega (arith, r.below);
              least = (λ a. r.below, r.least);
              due = λ now h. ground (arith, r.due now h, e);
            },
          )
      | inr n ↦
          let (m, r) = rounds_find timers found v all in
          let later = is_later_iff found.ts t.ts v vt in
          (
            m,
            record {
              picked = earliest_next found t timers false n ∙ r.picked;
              timer = r.timer;
              below = r.below;
              least = (λ a. ground (arith, later, n, r.below), r.least);
              due = λ now h. ground (arith, r.due now h);
            },
          )
    ]

earliest_first :
    (t : TimerElem) (timers : List TimerElem) (b : Bool)
    → t.active ≡ b
    → earliest none (t ∷ timers) ≡ earliest (if b then some t else none) timers
unfolding earliest replaces
earliest_first t timers true h =
    ap (λ (b : Bool). earliest (if b && true then some t else none) timers) h
earliest_first t timers false h =
    ap (λ (b : Bool). earliest (if b && true then some t else none) timers) h

-- The loop before a timer is found.
earliest_start :
    (timers : List TimerElem)
    → All IsTimer timers
    → any_active timers ≡ true
    → (m : TimerElem) × (earliest none timers ≡ some m)
      × IsTimer m
      × All (λ t. t.active ≡ true → total m.ts ≤ total t.ts) timers
      × ((now : Timespec) → is_later now m.ts ≡ true → any_due now timers ≡ true)
unfolding any_due any_active
earliest_start [] all h = cc
earliest_start (t ∷ timers) (vt, all) h = elim (Bool-cases t.active) [
  | inl a ↦
      let (m, r) = rounds_find timers t vt all in
      (
        m,
        earliest_first t timers true a ∙ r.picked,
        r.timer,
        (λ _. r.below, r.least),
        λ now due. ground (arith, r.due now due, a),
      )
  | inr n ↦
      let (m, picked, timer, least, due) = earliest_start timers all (ground (arith, n, h)) in
      (
        m,
        earliest_first t timers false n ∙ picked,
        timer,
        (λ a. ground (arith, a, n), least),
        λ now d. ground (arith, due now d),
      )
]

begin_at :
    (now : Timespec) (timers : List TimerElem) (m : TimerElem)
    → earliest none timers ≡ some m
    → get_next_timer_begin now timers ≡ msec_left now m.ts
unfolding get_next_timer_begin
begin_at now timers m e = rw (e, get_next_timer_begin)

close_everywhere :
    (now ts : Timespec) (timers : List TimerElem)
    → IsTimespec now
    → IsTimespec ts
    → All (λ t. t.active ≡ true → total ts ≤ total t.ts) timers
    → All
        (λ t.
          (t.active ≡ true) × (total now ≤ total t.ts)
          → total now + msec_left now ts * 1000000 ≤ total t.ts + 2000000)
        timers
close_everywhere now ts [] v w all = tt
close_everywhere now ts (t ∷ timers) v w (first, rest) = (
  λ h. msec_left-close now ts (total t.ts) v w h.1 (first h.0),
  close_everywhere now ts timers v w rest,
)

-- After a poll of `getNextTimerBegin` milliseconds, `callNextTimer` finds a timer that is due, if one
-- was active; and the poll ends at most two milliseconds after the time of any active timer that was
-- still to come when it began. The clock readings and the timers have less than 10^9 nanoseconds.
pub poll_meets_deadline :
    (now later : Timespec) (timers : List TimerElem)
    → IsTimespec now
    → IsTimespec later
    → All IsTimer timers
    → any_active timers ≡ true
    → total now + get_next_timer_begin now timers * 1000000 ≤ total later
    → let wait = get_next_timer_begin now timers in
      (any_due later timers ≡ true)
      × All
          (λ t.
            (t.active ≡ true) × (total now ≤ total t.ts)
            → total now + wait * 1000000 ≤ total t.ts + 2000000)
          timers
poll_meets_deadline now later timers v w all a h =
    let (m, picked, timer, least, due) = earliest_start timers all a in
    let wait = begin_at now timers m picked in
    let enough = msec_left-enough now m.ts v timer in
    rw wait (
      due later ((is_later_iff later m.ts w timer).1 (omega (arith, enough, wait, h))),
      close_everywhere now m.ts timers v timer least,
    )
