-- ===== src/Examples/Timers.antt =====
-- The theorems on the timers, at a list of two.
use satip_client.Base.{
  ℕ, ◌+◌, ◌*◌, ◌≤◌, ◌≡◌, refl, Bool, true, false, List, [], ◌∷◌, map, arith, All, suc,
}
use satip_client.Timer.{
  Timespec, TimerElem, TimerStore, is_later, get_next_timer_begin, call_next_timer, earliest,
  replaces, msec_left,
}
use satip_client.Timer.Deadline.{total}
use satip_client.Timer.Earliest.{any_due, any_active, poll_meets_deadline}
use satip_client.Timer.Calls.{call_next_quiet}

abbrev begin_ts : Timespec
begin_ts = record { sec = 5; nsec = 0 }

abbrev later_ts : Timespec
later_ts = record { sec = 6; nsec = 0 }

abbrev timer : TimerElem
timer = record {
  interval = 900;
  ts = record { sec = 5; nsec = 900000000 };
  active = true;
  single = true;
}

abbrev idle_timer : TimerElem
idle_timer = record {
  interval = 100;
  ts = record { sec = 3; nsec = 0 };
  active = false;
  single = true;
}

abbrev two_timers : List TimerElem
two_timers = idle_timer ∷ timer ∷ []

two_active : any_active two_timers ≡ true
unfolding any_active
two_active = refl

two_wait : get_next_timer_begin begin_ts two_timers ≡ 901
unfolding get_next_timer_begin earliest replaces msec_left
two_wait = refl

two_polled : total begin_ts + get_next_timer_begin begin_ts two_timers * 1000000 ≤ total later_ts
two_polled = rw two_wait (omega arith)

poll_meets_deadline_example :
    (any_due later_ts two_timers ≡ true)
    × All
        (λ t.
          (t.active ≡ true) × (total begin_ts ≤ total t.ts)
          → total begin_ts + get_next_timer_begin begin_ts two_timers * 1000000
            ≤ total t.ts + 2000000)
        two_timers
poll_meets_deadline_example =
    poll_meets_deadline begin_ts later_ts two_timers (omega arith) (omega arith)
      (omega arith, (omega arith, tt)) two_active two_polled

-- One timer, with the number of its calls.
abbrev one_timer : TimerStore (TimerElem × ℕ) Bool
one_timer = record {
  get = λ name s. s.0;
  put = λ name t s. (t, s.1);
  handler = λ name s. (s.0, suc s.1);
}

not_due : any_due begin_ts (map (λ (name : Bool). timer) (true ∷ [])) ≡ false
unfolding any_due is_later
not_due = refl

call_next_quiet_example :
    call_next_timer one_timer (λ name. begin_ts) begin_ts (true ∷ []) (timer, 0) ≡ (timer, 0)
call_next_quiet_example =
    call_next_quiet one_timer (λ name. begin_ts) begin_ts (true ∷ []) (timer, 0) not_due
