-- ===== src/Examples/PidLists.antt =====
-- The theorems on the kernel's pid list, at the list of a tuner that changes the channel.
use satip_client.Base.{ℕ, ◌≤◌, ◌≡◌, refl, true, List, [], ◌∷◌, arith}
use satip_client.Base.Sets.{contains}
use satip_client.Config.PidList.{Slot, empty_slots, update_slots, commit, collect_active}
use satip_client.Config.PidList.Laws.{
  IsPidList, empty_slots-IsPidList, update_slots-IsPidList, commit-IsPidList,
}
use satip_client.Config.PidList.Update.{asked, holds, update_slots_sound}
use satip_client.Config.PidList.Room.{free, missing, update_slots_complete}

-- The kernel's array, with 0xffff in the unused places.
abbrev first_pids : List ℕ
first_pids = 0 ∷ 16 ∷ 110 ∷ 0xffff ∷ []

abbrev next_pids : List ℕ
next_pids = 0 ∷ 120 ∷ 0xffff ∷ 0xffff ∷ []

abbrev tuned_slots : List Slot
tuned_slots = commit (update_slots first_pids empty_slots)

tuned_slots-IsPidList : IsPidList tuned_slots
tuned_slots-IsPidList =
    commit-IsPidList (update_slots first_pids empty_slots)
      (update_slots-IsPidList first_pids empty_slots empty_slots-IsPidList)

next_active : collect_active (update_slots next_pids tuned_slots) [] ≡ 0 ∷ 120 ∷ []
unfolding update_slots commit collect_active empty_slots
next_active = refl

update_slots_sound_example :
    (contains 120 (collect_active (update_slots next_pids tuned_slots) []) ≡ true
      → asked 120 next_pids ≡ true)
    × (contains 120 (collect_active tuned_slots []) ≡ true
        → asked 120 next_pids ≡ true
        → contains 120 (collect_active (update_slots next_pids tuned_slots) []) ≡ true)
update_slots_sound_example = update_slots_sound next_pids tuned_slots 120 tuned_slots-IsPidList

room_left : missing next_pids tuned_slots ≤ free tuned_slots
unfolding update_slots commit missing free holds empty_slots
room_left = omega arith

update_slots_complete_example :
    contains 110 (collect_active (update_slots next_pids tuned_slots) []) ≡ asked 110 next_pids
update_slots_complete_example =
    update_slots_complete next_pids tuned_slots 110 tuned_slots-IsPidList room_left
