-- ===== src/Config/PidList/Sent.antt =====
-- The slots as a record of what the server was sent: a pid in a slot marked VALID or DELETE is one
-- that the server has, whatever the kernel has asked for since.
use satip_client.Base.{ℕ, ◌≡◌, refl, Bool, true, false, List, [], ◌∷◌, arith}
use satip_client.Base.Sets.{contains, IsOrdered-ext}
use satip_client.Config.PidList.{
  PidStatus, pid_valid, pid_delete, Slot, is_active, touch, claim, add_pid, add_pids, del_pids,
  update_slots, collect_active, commit, pid_changed,
}
use satip_client.Config.PidList.Update.{holds, contains-collect, collect-IsOrdered}

abbrev pub is_sent : PidStatus → Bool
is_sent pid_valid = true
is_sent pid_delete = true
is_sent _ = false

sent-touch : (p q : ℕ) (slots : List Slot) → holds is_sent p (touch q slots) ≡ holds is_sent p slots
unfolding touch holds
sent-touch p q [] = refl
sent-touch p q (s ∷ slots) = ground (arith, sent-touch p q slots)

sent-claim : (p q : ℕ) (slots : List Slot) → holds is_sent p (claim q slots) ≡ holds is_sent p slots
unfolding claim holds
sent-claim p q [] = refl
sent-claim p q (s ∷ slots) = ground (arith, sent-claim p q slots)

sent-add_pid :
    (p q : ℕ) (slots : List Slot) → holds is_sent p (add_pid q slots) ≡ holds is_sent p slots
unfolding add_pid
sent-add_pid p q slots = ground (arith, sent-touch p q slots, sent-claim p q slots)

sent-add_pids :
    (p : ℕ) (new : List ℕ) (slots : List Slot)
    → holds is_sent p (add_pids new slots) ≡ holds is_sent p slots
unfolding add_pids
sent-add_pids p [] slots = refl
sent-add_pids p (q ∷ new) slots =
    ground (arith, sent-add_pids p new (add_pid q slots), sent-add_pid p q slots)

sent-del_pids :
    (p : ℕ) (new : List ℕ) (slots : List Slot)
    → holds is_sent p (del_pids new slots) ≡ holds is_sent p slots
unfolding del_pids holds
sent-del_pids p new [] = refl
sent-del_pids p new (s ∷ slots) = ground (arith, sent-del_pids p new slots)

-- `updatePidList` never forgets nor invents what the server was sent.
pub sent-update_slots :
    (p : ℕ) (new : List ℕ) (slots : List Slot)
    → holds is_sent p (update_slots new slots) ≡ holds is_sent p slots
unfolding update_slots
sent-update_slots p new slots =
    ground (arith, sent-del_pids p new (add_pids new slots), sent-add_pids p new slots)

pub sent-commit :
    (p : ℕ) (slots : List Slot) → holds is_sent p (commit slots) ≡ holds is_active p slots
unfolding commit holds
sent-commit p [] = refl
sent-commit p (s ∷ slots) = ground (arith, sent-commit p slots)

active-commit :
    (p : ℕ) (slots : List Slot) → holds is_active p (commit slots) ≡ holds is_active p slots
unfolding commit holds
active-commit p [] = refl
active-commit p (s ∷ slots) = ground (arith, active-commit p slots)

pub pid_changed-commit : (slots : List Slot) → pid_changed (commit slots) ≡ false
unfolding commit pid_changed
pid_changed-commit [] = refl
pid_changed-commit (s ∷ slots) = ground (arith, pid_changed-commit slots)

-- With no change pending the active pids are those that were sent.
pub active-sent :
    (p : ℕ) (slots : List Slot)
    → pid_changed slots ≡ false
    → holds is_active p slots ≡ holds is_sent p slots
unfolding pid_changed holds
active-sent p [] h = refl
active-sent p (s ∷ slots) h = ground (arith, active-sent p slots)

-- `commitPidStates` leaves no change pending and the same pids active, and what was sent is then
-- what is active.
pub commit_settles :
    (slots : List Slot)
    → (pid_changed (commit slots) ≡ false)
      × (collect_active (commit slots) [] ≡ collect_active slots [])
      × ((p : ℕ) → holds is_sent p (commit slots) ≡ contains p (collect_active slots []))
unfolding contains
commit_settles slots = (
  pid_changed-commit slots,
  IsOrdered-ext (collect_active (commit slots) []) (collect_active slots [])
      (collect-IsOrdered (commit slots) [] tt) (collect-IsOrdered slots [] tt)
      (λ p. ground (
        arith,
        contains-collect p (commit slots) [],
        contains-collect p slots [],
        active-commit p slots,
      )),
  λ p. ground (arith, contains-collect p slots [], sent-commit p slots),
)
