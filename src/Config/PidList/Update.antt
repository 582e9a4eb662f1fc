-- ===== src/Config/PidList/Update.antt =====
-- Which pids are active after `updatePidList` and after `commitPidStates`.
use satip_client.Base.{
  ℕ, ◌≡◌, refl, Bool, true, false, ◌||◌, ◌&&◌, not, ltb, if◌then◌else◌, Option, none, some, List,
  [], ◌∷◌, arith,
}
use satip_client.Base.Sets.{contains, contains-insert, IsOrdered, insert-IsOrdered}
use satip_client.Config.PidList.{
  PidStatus, Slot, insert_pid, pid_limit, pid_is, is_invalid, is_active, touch, claim, add_pid,
  add_pids, is_wanted, del_slot, del_pids, update_slots, collect_active,
}
use satip_client.Config.PidList.Laws.{IsSlot, SlotsOk, IsPidList, add_pids-IsPidList}

-- Some slot holds the pid in a status that passes the test.
unfoldable pub holds : (PidStatus → Bool) → ℕ → List Slot → Bool
holds t p [] = false
holds t p (s ∷ slots) = (pid_is s.pid p && t s.status) || holds t p slots

abbrev pub is_live : PidStatus → Bool
is_live s = not (is_invalid s)

contains-insert_active :
    (p : ℕ) (o : Option ℕ) (t : PidStatus) (pids : List ℕ)
    → contains p (if is_active t then insert_pid o pids else pids)
      ≡ ((pid_is o p && is_active t) || contains p pids)
contains-insert_active p none t pids = ground arith
contains-insert_active p (some q) t pids = ground (arith, contains-insert p q pids)

pub contains-collect :
    (p : ℕ) (slots : List Slot) (pids : List ℕ)
    → contains p (collect_active slots pids) ≡ (holds is_active p slots || contains p pids)
unfolding collect_active holds
contains-collect p [] pids = refl
contains-collect p (s ∷ slots) pids = ground (
  arith,
  contains-insert_active p s.pid s.status pids,
  contains-collect p slots (if is_active s.status then insert_pid s.pid pids else pids),
)

insert_pid-IsOrdered :
    (o : Option ℕ) (pids : List ℕ) → IsOrdered pids → IsOrdered (insert_pid o pids)
insert_pid-IsOrdered none pids h = h
insert_pid-IsOrdered (some p) pids h = insert-IsOrdered p pids h

pub collect-IsOrdered :
    (slots : List Slot) (pids : List ℕ) → IsOrdered pids → IsOrdered (collect_active slots pids)
unfolding collect_active
collect-IsOrdered [] pids h = h
collect-IsOrdered (s ∷ slots) pids h =
    collect-IsOrdered slots (if is_active s.status then insert_pid s.pid pids else pids)
      (ground (arith, insert_pid-IsOrdered s.pid pids h))

-- A pid of the kernel's list that is a pid.
abbrev pub asked : ℕ → List ℕ → Bool
asked p new = ltb p pid_limit && contains p new

is_wanted-asked : (p : ℕ) (new : List ℕ) → is_wanted (some p) new ≡ asked p new
unfolding is_wanted contains
is_wanted-asked p [] = ground arith
is_wanted-asked p (q ∷ new) = ground (arith, is_wanted-asked p new)

holds-del_slot :
    (new : List ℕ) (p : ℕ) (o : Option ℕ) (t : PidStatus)
    → IsSlot o t
    → let s = del_slot new (record { pid = o; status = t }) in
      (pid_is s.pid p && is_active s.status) ≡ ((pid_is o p && is_active t) && asked p new)
unfolding del_slot
holds-del_slot new p none t h = ground arith
holds-del_slot new p (some q) t h = ground (arith, is_wanted-asked q new)

-- After the second loop an active pid is one that was active and that the list asks for.
pub holds-del_pids :
    (new : List ℕ) (p : ℕ) (slots : List Slot)
    → SlotsOk slots
    → holds is_active p (del_pids new slots) ≡ (holds is_active p slots && asked p new)
unfolding holds del_pids
holds-del_pids new p [] a = refl
holds-del_pids new p (s ∷ slots) a =
    rw (holds-del_slot new p s.pid s.status a.0, holds-del_pids new p slots a.1) (ground arith)

pub holds-touch :
    (p q : ℕ) (slots : List Slot)
    → holds is_active p slots ≡ true
    → holds is_active p (touch q slots) ≡ true
unfolding touch holds
holds-touch p q [] h = h
holds-touch p q (s ∷ slots) h = ground (arith, holds-touch p q slots)

pub holds-claim :
    (p q : ℕ) (slots : List Slot)
    → holds is_active p slots ≡ true
    → holds is_active p (claim q slots) ≡ true
unfolding claim holds
holds-claim p q [] h = h
holds-claim p q (s ∷ slots) h = ground (arith, holds-claim p q slots)

-- The first loop never takes a pid out of use.
pub holds-add_pid :
    (p q : ℕ) (slots : List Slot)
    → holds is_active p slots ≡ true
    → holds is_active p (add_pid q slots) ≡ true
unfolding add_pid
holds-add_pid p q slots h = ground (arith, holds-touch p q slots h, holds-claim p q slots h)

-- It takes in a pid of the list, when a slot is free or the pid has one.

pub holds-add_pids :
    (p : ℕ) (new : List ℕ) (slots : List Slot)
    → holds is_active p slots ≡ true
    → holds is_active p (add_pids new slots) ≡ true
unfolding add_pids
holds-add_pids p [] slots h = h
holds-add_pids p (q ∷ new) slots h =
    holds-add_pids p new (add_pid q slots) (holds-add_pid p q slots h)

-- The pids that `updatePidList` leaves active are asked for by the kernel's new list, and every
-- pid that was active and is asked for stays active, also when the 30 slots are full.
pub update_slots_sound :
    (new : List ℕ) (slots : List Slot) (p : ℕ)
    → IsPidList slots
    → let before = contains p (collect_active slots []) in
      let after = contains p (collect_active (update_slots new slots) []) in
      (after ≡ true → asked p new ≡ true) × (before ≡ true → asked p new ≡ true → after ≡ true)
unfolding update_slots contains
update_slots_sound new slots p v =
    let v' = add_pids-IsPidList new slots v in
    let kept = holds-del_pids new p (add_pids new slots) v'.slots_ok in
    let after = contains-collect p (del_pids new (add_pids new slots)) [] in
    (
      λ h. ground (arith, kept, after),
      λ h a. ground (arith, kept, after, contains-collect p slots [], holds-add_pids p new slots),
    )
