-- ===== src/Timer.antt =====
-- timer.cpp and timer.h: `timer_elem`, and the list of timers of `satipTimer`. The readings of the
-- monotonic clock are arguments, and so are the handlers. Times and intervals are not negative.
pub mod Deadline
pub mod Earliest
pub mod Calls
use satip_client.Base.{
  ℕ, ◌+◌, ◌-◌, ◌*◌, ◌/◌, ◌%◌, Bool, true, false, ◌&&◌, ◌||◌, ltb, leb, ◌==◌, if◌then◌else◌, Option,
  none, some, List, [], ◌∷◌,
}

-- `struct timespec`
pub record Timespec : Type 0 where
  pub sec : ℕ
  pub nsec : ℕ

-- `timer_elem`, without its handler and its description
pub record TimerElem : Type 0 where
  pub interval : ℕ
  pub ts : Timespec
  pub active : Bool
  pub single : Bool

-- A clock reading and some milliseconds, with the carry.
unfoldable pub after_msec : Timespec → ℕ → Timespec
after_msec now msec =
    let nsec = now.nsec + msec % 1000 * 1000000 in
    if leb 1000000000 nsec
    then record { sec = now.sec + msec / 1000 + 1; nsec = nsec - 1000000000 }
    else record { sec = now.sec + msec / 1000; nsec = nsec }

-- `timer_elem::start`, `stop`
unfoldable pub start : Timespec → ℕ → Bool → TimerElem → TimerElem
unfolding after_msec
start now msec single t = record {
  interval = msec;
  ts = after_msec now msec;
  active = true;
  single = single;
}

unfoldable pub stop : TimerElem → TimerElem
stop t = record t { active = false }

-- `a > b` on times, as `callNextTimer` and `getNextTimerBegin` write it
unfoldable pub is_later : Timespec → Timespec → Bool
is_later a b = ltb b.sec a.sec || (a.sec == b.sec && ltb b.nsec a.nsec)

-- The loop of `getNextTimerBegin`: the earliest of the active timers, from the one found so far.
unfoldable pub replaces : Option TimerElem → TimerElem → Bool
unfolding is_later
replaces none t = true
replaces (some least) t = is_later least.ts t.ts

unfoldable pub earliest : Option TimerElem → List TimerElem → Option TimerElem
unfolding replaces
earliest least [] = least
earliest least (t ∷ timers) =
    earliest (if t.active && replaces least t then some t else least) timers

-- The milliseconds left, from a time on: the differences of the seconds and of the nanoseconds, where
-- the latter's quotient is rounded towards zero. What is below 0 becomes 0.
unfoldable pub msec_left : Timespec → Timespec → ℕ
msec_left now ts =
    (ts.sec * 1000 + (ts.nsec - now.nsec) / 1000000 + 1)
    - (now.sec * 1000 + (now.nsec - ts.nsec) / 1000000)

-- `getNextTimerBegin`
unfoldable pub get_next_timer_begin : Timespec → List TimerElem → ℕ
unfolding earliest msec_left
get_next_timer_begin now timers = elim (earliest none timers) [
  | none ↦ 1000
  | some t ↦ msec_left now t.ts
]

-- The list of timers within a state that the handlers change as well: a timer by its name.
pub record TimerStore (S Name : Type 0) : Type 0 where
  pub get : Name → S → TimerElem
  pub put : Name → TimerElem → S → S
  pub handler : Name → S → S

-- What `timer_elem::call` makes of the timer after its handler.
unfoldable pub called : Timespec → TimerElem → TimerElem
unfolding after_msec stop
called ts t = if t.single then stop t else record t { ts = after_msec ts t.interval }

module _ {S Name : Type 0} (store : TimerStore S Name) where
  -- `timer_elem::call`; `ts` is the clock when it starts.
  unfoldable pub call : Timespec → Name → S → S
  unfolding called
  call ts name s =
      let s' = store.handler name s in
      if (store.get name s).active then store.put name (called ts (store.get name s')) s' else s

  -- `callNextTimer`; the clock is read once for the tests. The calls read it again, each at the time
  -- that `clock` gives.
  unfoldable pub call_next_timer : (Name → Timespec) → Timespec → List Name → S → S
  unfolding call is_later
  call_next_timer clock now [] s = s
  call_next_timer clock now (name ∷ names) s =
      let t = store.get name s in
      call_next_timer clock now names
        (if t.active && is_later now t.ts then call (clock name) name s else s)
