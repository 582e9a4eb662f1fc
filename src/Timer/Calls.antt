-- ===== src/Timer/Calls.antt =====
-- What `callNextTimer` runs, and when a timer that was started is due.
use satip_client.Base.{
  ℕ, ◌+◌, ◌*◌, ◌<◌, ◌≡◌, ◌↔◌, refl, Bool, true, false, ◌&&◌, List, [], ◌∷◌, map, arith, ◌∙◌,
}
use satip_client.Timer.{
  Timespec, TimerElem, TimerStore, after_msec, start, is_later, call_next_timer,
}
use satip_client.Timer.Deadline.{total, IsTimespec, after_msec-total, is_later_iff}
use satip_client.Timer.Earliest.{any_due}

-- A timer that was started is due exactly when more than its interval has passed on the clock.
start_due_after :
    (now later : Timespec) (msec : ℕ) (single : Bool) (t : TimerElem)
    → IsTimespec now
    → IsTimespec later
    → ((start now msec single t).active && is_later later (start now msec single t).ts ≡ true)
      ↔ (total now + msec * 1000000 < total later)
unfolding start
start_due_after now later msec single t v w =
    let (valid, sum) = after_msec-total now msec v in
    ground (arith, is_later_iff later (after_msec now msec) w valid)

module _ {S Name : Type 0} (store : TimerStore S Name) where
  call_next_skip :
      (clock : Name → Timespec) (now : Timespec) (name : Name) (names : List Name) (s : S)
      → ((store.get name s).active && is_later now (store.get name s).ts) ≡ false
      → call_next_timer store clock now (name ∷ names) s ≡ call_next_timer store clock now names s
  unfolding call_next_timer
  call_next_skip clock now name names s h = rw h

  -- If no timer is due, `callNextTimer` runs no handler and changes nothing.
  pub call_next_quiet :
      (clock : Name → Timespec) (now : Timespec) (names : List Name) (s : S)
      → any_due now (map (λ name. store.get name s) names) ≡ false
      → call_next_timer store clock now names s ≡ s
  unfolding any_due
  call_next_quiet clock now [] s h = unfold call_next_timer in refl
  call_next_quiet clock now (name ∷ names) s h =
      call_next_skip clock now name names s (ground arith)
      ∙ call_next_quiet clock now names s (ground arith)
