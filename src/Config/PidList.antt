-- ===== src/Config/PidList.antt =====
-- The kernel's pid list in config.cpp: `m_pid_list` and the loops over it.
-- A slot that was never used holds the pid -1 in the source and `none` here. `collectActivePids`
-- would insert that -1 if such a slot were active; `PidList.Laws` shows that none ever is.
pub mod Laws
pub mod Update
pub mod Room
pub mod Sent
use satip_client.Base.{
  ℕ, Bool, true, false, ◌||◌, ◌&&◌, not, ◌==◌, ltb, leb, if◌then◌else◌, Option, none, some, List,
  [], ◌∷◌, replicate,
}
use satip_client.Base.Sets.{contains, insert}

-- `t_pid_elem_status`
pub data PidStatus : Type 0 where
  pid_add pid_delete pid_valid pid_invalid : PidStatus

-- `pid_elem`
pub record Slot : Type 0 where
  pub pid : Option ℕ
  pub status : PidStatus

-- `MAX_PIDS`
abbrev pub max_pids : ℕ
max_pids = 30

-- Pids from here on are no pids: 0xffff fills the unused entries of the kernel's array.
abbrev pub pid_limit : ℕ
pid_limit = 0x2000

-- `m_pid_list[cur_index].pid == new_pid`
abbrev pub pid_is : Option ℕ → ℕ → Bool
pid_is none p = false
pid_is (some q) p = q == p

-- The slots after the constructor.
unfoldable pub empty_slots : List Slot
empty_slots = replicate max_pids (record { pid = none; status = pid_invalid })

-- `clearPidList`
unfoldable pub clear_pid_list : List Slot → List Slot
clear_pid_list [] = []
clear_pid_list (s ∷ slots) = record s { status = pid_invalid } ∷ clear_pid_list slots

-- The `switch` on a slot that holds a pid of the new list.
abbrev pub revived : PidStatus → PidStatus
revived pid_add = pid_add
revived pid_delete = pid_valid
revived pid_valid = pid_valid
revived pid_invalid = pid_add

-- `found`, after the loop over the slots.
unfoldable pub has_pid : ℕ → List Slot → Bool
has_pid p [] = false
has_pid p (s ∷ slots) = pid_is s.pid p || has_pid p slots

-- What that loop does to the slots.
unfoldable pub touch : ℕ → List Slot → List Slot
touch p [] = []
touch p (s ∷ slots) =
    (if pid_is s.pid p then record s { status = revived s.status } else s) ∷ touch p slots

abbrev pub is_invalid : PidStatus → Bool
is_invalid pid_invalid = true
is_invalid _ = false

-- The first free slot takes the pid; when there is none the pid is dropped (and an error logged).
unfoldable pub claim : ℕ → List Slot → List Slot
claim p [] = []
claim p (s ∷ slots) =
    let rest = claim p slots in
    if is_invalid s.status then record { pid = some p; status = pid_add } ∷ slots else s ∷ rest

-- One round of the `add pid` loop.
unfoldable pub add_pid : ℕ → List Slot → List Slot
add_pid p slots =
    if leb pid_limit p then slots else if has_pid p slots then touch p slots else claim p slots

unfoldable pub add_pids : List ℕ → List Slot → List Slot
add_pids [] slots = slots
add_pids (p ∷ new) slots = add_pids new (add_pid p slots)

-- The inner loop of `del pid`: is the pid of the slot in the new list?
unfoldable pub is_wanted : Option ℕ → List ℕ → Bool
is_wanted o [] = false
is_wanted o (p ∷ new) = (ltb p pid_limit && pid_is o p) || is_wanted o new

-- The `switch` on a slot that holds no pid of the new list.
abbrev pub dropped : PidStatus → PidStatus
dropped pid_add = pid_invalid
dropped pid_delete = pid_delete
dropped pid_valid = pid_delete
dropped pid_invalid = pid_invalid

abbrev pub beyond_limit : Option ℕ → Bool
beyond_limit none = false
beyond_limit (some p) = leb pid_limit p

-- One round of the `del pid` loop.
unfoldable pub del_slot : List ℕ → Slot → Slot
unfolding is_wanted
del_slot new s =
    if beyond_limit s.pid || is_wanted s.pid new then s else record s { status = dropped s.status }

unfoldable pub del_pids : List ℕ → List Slot → List Slot
unfolding del_slot
del_pids new [] = []
del_pids new (s ∷ slots) = del_slot new s ∷ del_pids new slots

-- The two loops of `updatePidList`.
unfoldable pub update_slots : List ℕ → List Slot → List Slot
unfolding add_pids del_pids add_pid has_pid touch claim
update_slots new slots = del_pids new (add_pids new slots)

abbrev pub is_changing : PidStatus → Bool
is_changing pid_add = true
is_changing pid_delete = true
is_changing _ = false

-- The loop of `updatePidStatus`.
unfoldable pub pid_changed : List Slot → Bool
pid_changed [] = false
pid_changed (s ∷ slots) = is_changing s.status || pid_changed slots

abbrev pub is_active : PidStatus → Bool
is_active pid_add = true
is_active pid_valid = true
is_active _ = false

abbrev pub insert_pid : Option ℕ → List ℕ → List ℕ
insert_pid none pids = pids
insert_pid (some p) pids = insert p pids

-- `collectActivePids`
unfoldable pub collect_active : List Slot → List ℕ → List ℕ
unfolding insert
collect_active [] pids = pids
collect_active (s ∷ slots) pids =
    collect_active slots (if is_active s.status then insert_pid s.pid pids else pids)

abbrev pub committed : PidStatus → PidStatus
committed pid_add = pid_valid
committed pid_delete = pid_invalid
committed pid_valid = pid_valid
committed pid_invalid = pid_invalid

-- `commitPidStates`
unfoldable pub commit : List Slot → List Slot
commit [] = []
commit (s ∷ slots) = record s { status = committed s.status } ∷ commit slots
