-- ===== src/Config/PidList/Laws.antt =====
-- The invariant of the slots of `m_pid_list`, which every loop over them keeps.
use satip_client.Base.{
  ℕ, suc, ◌≤◌, ◌<◌, ◌≡◌, refl, false, ◌==◌, if◌then◌else◌, Option, none, some, List, [], ◌∷◌,
  length, All, arith, zero, replicate,
}
use satip_client.Config.PidList.{
  PidStatus, Slot, max_pids, pid_limit, pid_is, pid_invalid, empty_slots, clear_pid_list, has_pid,
  touch, claim, add_pid, add_pids, del_pids, update_slots, commit,
}

-- How many slots hold the pid.
unfoldable pub occurs : ℕ → List Slot → ℕ
occurs p [] = 0
occurs p (s ∷ slots) = let rest = occurs p slots in if pid_is s.pid p then suc rest else rest

-- A slot in use holds a pid, and what a slot holds is a pid.
abbrev pub IsSlot : Option ℕ → PidStatus → Type 0
IsSlot none status = status ≡ pid_invalid
IsSlot (some p) status = p < pid_limit

abbrev pub SlotsOk : List Slot → Type 0
SlotsOk = All (λ s. IsSlot s.pid s.status)

pub record IsPidList (slots : List Slot) : Type 0 where
  pub full_length : length slots ≡ max_pids
  pub slots_ok : SlotsOk slots
  pub distinct : (p : ℕ) → occurs p slots ≤ 1

replicate-SlotsOk : (n : ℕ) → SlotsOk (replicate n (record { pid = none; status = pid_invalid }))
replicate-SlotsOk zero = tt
replicate-SlotsOk (suc n) = (refl, replicate-SlotsOk n)

occurs-replicate :
    (p n : ℕ) → occurs p (replicate n (record { pid = none; status = pid_invalid })) ≡ 0
unfolding occurs
occurs-replicate p zero = refl
occurs-replicate p (suc n) = occurs-replicate p n

pub empty_slots-IsPidList : IsPidList empty_slots
unfolding empty_slots
empty_slots-IsPidList = record {
  full_length = refl;
  slots_ok = replicate-SlotsOk max_pids;
  distinct = λ p. omega (arith, occurs-replicate p max_pids);
}

-- What the parts do to the number of slots, to each slot and to the occurrences of a pid.
length-touch : (p : ℕ) (slots : List Slot) → length (touch p slots) ≡ length slots
unfolding touch
length-touch p [] = refl
length-touch p (s ∷ slots) = omega (arith, length-touch p slots)

length-claim : (p : ℕ) (slots : List Slot) → length (claim p slots) ≡ length slots
unfolding claim
length-claim p [] = refl
length-claim p (s ∷ slots) = ground (arith, length-claim p slots)

length-del_pids : (new : List ℕ) (slots : List Slot) → length (del_pids new slots) ≡ length slots
unfolding del_pids
length-del_pids new [] = refl
length-del_pids new (s ∷ slots) = omega (arith, length-del_pids new slots)

touch-SlotsOk :
    (p : ℕ) (slots : List Slot) → p < pid_limit → SlotsOk slots → SlotsOk (touch p slots)
unfolding touch
touch-SlotsOk p [] h a = tt
touch-SlotsOk p (s ∷ slots) h a = (ground arith, touch-SlotsOk p slots h a.1)

claim-SlotsOk :
    (p : ℕ) (slots : List Slot) → p < pid_limit → SlotsOk slots → SlotsOk (claim p slots)
unfolding claim
claim-SlotsOk p [] h a = tt
claim-SlotsOk p (s ∷ slots) h a = ground (arith, claim-SlotsOk p slots h a.1)

del_pids-SlotsOk : (new : List ℕ) (slots : List Slot) → SlotsOk slots → SlotsOk (del_pids new slots)
unfolding del_pids
del_pids-SlotsOk new [] a = tt
del_pids-SlotsOk new (s ∷ slots) a = (ground arith, del_pids-SlotsOk new slots a.1)

occurs-touch : (p q : ℕ) (slots : List Slot) → occurs q (touch p slots) ≡ occurs q slots
unfolding touch occurs
occurs-touch p q [] = refl
occurs-touch p q (s ∷ slots) = ground (arith, occurs-touch p q slots)

occurs-claim :
    (p q : ℕ) (slots : List Slot)
    → occurs q (claim p slots) ≤ (if p == q then suc (occurs q slots) else occurs q slots)
unfolding claim occurs
occurs-claim p q [] = ground arith
occurs-claim p q (s ∷ slots) = ground (arith, occurs-claim p q slots)

occurs-has_pid : (p : ℕ) (slots : List Slot) → has_pid p slots ≡ false → occurs p slots ≡ 0
unfolding has_pid occurs
occurs-has_pid p [] h = refl
occurs-has_pid p (s ∷ slots) h = ground (arith, occurs-has_pid p slots)

occurs-del_pids :
    (new : List ℕ) (q : ℕ) (slots : List Slot) → occurs q (del_pids new slots) ≡ occurs q slots
unfolding del_pids occurs
occurs-del_pids new q [] = refl
occurs-del_pids new q (s ∷ slots) = ground (arith, occurs-del_pids new q slots)

pub add_pid-IsPidList : (p : ℕ) (slots : List Slot) → IsPidList slots → IsPidList (add_pid p slots)
unfolding add_pid
add_pid-IsPidList p slots v = record {
  full_length = ground (arith, length-touch p slots, length-claim p slots, v.full_length);
  slots_ok = ground (arith, touch-SlotsOk p slots, claim-SlotsOk p slots, v.slots_ok);
  distinct = λ q.
      ground (
        arith,
        occurs-touch p q slots,
        occurs-claim p q slots,
        occurs-has_pid p slots,
        v.distinct q,
      );
}

pub add_pids-IsPidList :
    (new : List ℕ) (slots : List Slot) → IsPidList slots → IsPidList (add_pids new slots)
unfolding add_pids
add_pids-IsPidList [] slots v = v
add_pids-IsPidList (p ∷ new) slots v =
    add_pids-IsPidList new (add_pid p slots) (add_pid-IsPidList p slots v)

del_pids-IsPidList :
    (new : List ℕ) (slots : List Slot) → IsPidList slots → IsPidList (del_pids new slots)
del_pids-IsPidList new slots v = record {
  full_length = omega (arith, length-del_pids new slots, v.full_length);
  slots_ok = del_pids-SlotsOk new slots v.slots_ok;
  distinct = λ q. omega (arith, occurs-del_pids new q slots, v.distinct q);
}

-- `updatePidList` keeps the list well formed: 30 slots, no pid in two of them, no slot in use
-- without a pid, and no pid of 0x2000 or more.
pub update_slots-IsPidList :
    (new : List ℕ) (slots : List Slot) → IsPidList slots → IsPidList (update_slots new slots)
unfolding update_slots
update_slots-IsPidList new slots v =
    del_pids-IsPidList new (add_pids new slots) (add_pids-IsPidList new slots v)

length-commit : (slots : List Slot) → length (commit slots) ≡ length slots
unfolding commit
length-commit [] = refl
length-commit (s ∷ slots) = omega (arith, length-commit slots)

commit-SlotsOk : (slots : List Slot) → SlotsOk slots → SlotsOk (commit slots)
unfolding commit
commit-SlotsOk [] a = tt
commit-SlotsOk (s ∷ slots) a = (ground arith, commit-SlotsOk slots a.1)

occurs-commit : (q : ℕ) (slots : List Slot) → occurs q (commit slots) ≡ occurs q slots
unfolding commit occurs
occurs-commit q [] = refl
occurs-commit q (s ∷ slots) = ground (arith, occurs-commit q slots)

pub commit-IsPidList : (slots : List Slot) → IsPidList slots → IsPidList (commit slots)
commit-IsPidList slots v = record {
  full_length = omega (arith, length-commit slots, v.full_length);
  slots_ok = commit-SlotsOk slots v.slots_ok;
  distinct = λ q. omega (arith, occurs-commit q slots, v.distinct q);
}

length-clear : (slots : List Slot) → length (clear_pid_list slots) ≡ length slots
unfolding clear_pid_list
length-clear [] = refl
length-clear (s ∷ slots) = omega (arith, length-clear slots)

clear-SlotsOk : (slots : List Slot) → SlotsOk slots → SlotsOk (clear_pid_list slots)
unfolding clear_pid_list
clear-SlotsOk [] a = tt
clear-SlotsOk (s ∷ slots) a = (ground arith, clear-SlotsOk slots a.1)

occurs-clear : (q : ℕ) (slots : List Slot) → occurs q (clear_pid_list slots) ≡ occurs q slots
unfolding clear_pid_list occurs
occurs-clear q [] = refl
occurs-clear q (s ∷ slots) = ground (arith, occurs-clear q slots)

pub clear_pid_list-IsPidList :
    (slots : List Slot) → IsPidList slots → IsPidList (clear_pid_list slots)
clear_pid_list-IsPidList slots v = record {
  full_length = omega (arith, length-clear slots, v.full_length);
  slots_ok = clear-SlotsOk slots v.slots_ok;
  distinct = λ q. omega (arith, occurs-clear q slots, v.distinct q);
}
