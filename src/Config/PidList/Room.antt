-- ===== src/Config/PidList/Room.antt =====
-- When the slots have room, `updatePidList` makes exactly the pids of the new list active.
use satip_client.Base.{
  ℕ, suc, ◌+◌, ◌≤◌, ◌≡◌, refl, true, ◌&&◌, not, ◌==◌, ltb, if◌then◌else◌, List, [], ◌∷◌, arith,
  Bool-cases, Bool_ext, ==_iff, inl, inr,
}
use satip_client.Base.Sets.{contains}
use satip_client.Config.PidList.{
  Slot, pid_limit, is_invalid, is_active, has_pid, touch, claim, add_pid, add_pids, del_pids,
  update_slots, collect_active,
}
use satip_client.Config.PidList.Laws.{IsPidList, occurs, add_pid-IsPidList, add_pids-IsPidList}
use satip_client.Config.PidList.Update.{
  holds, is_live, asked, contains-collect, holds-add_pids, update_slots_sound, holds-del_pids,
}

-- How many slots are free.
unfoldable pub free : List Slot → ℕ
free [] = 0
free (s ∷ slots) = let rest = free slots in if is_invalid s.status then suc rest else rest

-- How many entries of the new list have no slot in use.
unfoldable pub missing : List ℕ → List Slot → ℕ
unfolding holds
missing [] slots = 0
missing (p ∷ new) slots =
    let rest = missing new slots in
    if ltb p pid_limit && not (holds is_live p slots) then suc rest else rest

live-touch :
    (p q : ℕ) (slots : List Slot)
    → holds is_live p slots ≡ true
    → holds is_live p (touch q slots) ≡ true
unfolding touch holds
live-touch p q [] h = h
live-touch p q (s ∷ slots) h = ground (arith, live-touch p q slots)

live-claim :
    (p q : ℕ) (slots : List Slot)
    → holds is_live p slots ≡ true
    → holds is_live p (claim q slots) ≡ true
unfolding claim holds
live-claim p q [] h = h
live-claim p q (s ∷ slots) h = ground (arith, live-claim p q slots)

live-add_pid :
    (p q : ℕ) (slots : List Slot)
    → holds is_live p slots ≡ true
    → holds is_live p (add_pid q slots) ≡ true
unfolding add_pid
live-add_pid p q slots h = ground (arith, live-touch p q slots h, live-claim p q slots h)

missing-add_pid :
    (new : List ℕ) (q : ℕ) (slots : List Slot) → missing new (add_pid q slots) ≤ missing new slots
unfolding missing
missing-add_pid [] q slots = omega arith
missing-add_pid (p ∷ new) q slots =
    ground (arith, missing-add_pid new q slots, live-add_pid p q slots)

free-touch_absent :
    (p : ℕ) (slots : List Slot) → occurs p slots ≡ 0 → free (touch p slots) ≡ free slots
unfolding touch occurs free
free-touch_absent p [] h = refl
free-touch_absent p (s ∷ slots) h = ground (arith, free-touch_absent p slots)

live-occurs : (p : ℕ) (slots : List Slot) → holds is_live p slots ≡ true → 1 ≤ occurs p slots
unfolding holds occurs
live-occurs p [] h = ground arith
live-occurs p (s ∷ slots) h = ground (arith, live-occurs p slots)

-- A pid found in a slot in use costs no room, one found in a free slot costs that slot.
free-touch :
    (p : ℕ) (slots : List Slot)
    → occurs p slots ≤ 1
    → free slots ≤ free (touch p slots) + (if holds is_live p slots then 0 else 1)
unfolding touch occurs free holds
free-touch p [] h = omega arith
free-touch p (s ∷ slots) h =
    ground (arith, free-touch p slots, free-touch_absent p slots, live-occurs p slots)

free-claim : (p : ℕ) (slots : List Slot) → free slots ≤ suc (free (claim p slots))
unfolding claim free
free-claim p [] = omega arith
free-claim p (s ∷ slots) = ground (arith, free-claim p slots)

live-has_pid : (p : ℕ) (slots : List Slot) → holds is_live p slots ≡ true → has_pid p slots ≡ true
unfolding holds has_pid
live-has_pid p [] h = cc
live-has_pid p (s ∷ slots) h = ground (arith, live-has_pid p slots)

active-touch :
    (p : ℕ) (slots : List Slot) → has_pid p slots ≡ true → holds is_active p (touch p slots) ≡ true
unfolding holds has_pid touch
active-touch p [] h = cc
active-touch p (s ∷ slots) h = ground (arith, active-touch p slots)

active-claim :
    (p : ℕ) (slots : List Slot) → 1 ≤ free slots → holds is_active p (claim p slots) ≡ true
unfolding holds free claim
active-claim p [] h = absurd (omega arith)
active-claim p (s ∷ slots) h = ground (arith, active-claim p slots)

-- One round: the pid is active, and the rest of the list still finds room.
add_pid_room :
    (p : ℕ) (new : List ℕ) (slots : List Slot)
    → IsPidList slots
    → missing (p ∷ new) slots ≤ free slots
    → (missing new (add_pid p slots) ≤ free (add_pid p slots))
      × (ltb p pid_limit ≡ true → holds is_active p (add_pid p slots) ≡ true)
unfolding add_pid missing
add_pid_room p new slots v h = (
  ground (
    arith,
    missing-add_pid new p slots,
    free-touch p slots (v.distinct p),
    free-claim p slots,
    live-has_pid p slots,
  ),
  λ small. ground (arith, active-touch p slots, active-claim p slots, live-has_pid p slots),
)

add_pids_room :
    (p : ℕ) (new : List ℕ) (slots : List Slot)
    → IsPidList slots
    → missing new slots ≤ free slots
    → asked p new ≡ true
    → holds is_active p (add_pids new slots) ≡ true
unfolding add_pids contains
add_pids_room p [] slots v h a = ground arith
add_pids_room p (q ∷ new) slots v h a =
    let (room, taken) = add_pid_room q new slots v h in
    let rest = add_pids_room p new (add_pid q slots) (add_pid-IsPidList q slots v) room in
    let stays = holds-add_pids p new (add_pid q slots) in
    elim (Bool-cases (p == q)) [
      | inl e ↦ let same : p ≡ q = (==_iff p q).0 e in stays (ground (arith, same, taken))
      | inr n ↦ ground (arith, rest)
    ]

-- When every entry of the new list that has no slot in use finds a free one, the pids active after
-- `updatePidList` are exactly the entries of the new list below 0x2000.
pub update_slots_complete :
    (new : List ℕ) (slots : List Slot) (p : ℕ)
    → IsPidList slots
    → missing new slots ≤ free slots
    → contains p (collect_active (update_slots new slots) []) ≡ asked p new
unfolding update_slots
update_slots_complete new slots p v h =
    let (sound, _) = update_slots_sound new slots p v in
    let v' = add_pids-IsPidList new slots v in
    Bool_ext _ _ sound (λ a. ground (
      arith,
      add_pids_room p new slots v h a,
      holds-del_pids new p (add_pids new slots) v'.slots_ok,
      contains-collect p (del_pids new (add_pids new slots)) [],
    ))
