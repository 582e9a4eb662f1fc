-- ===== src/Config/Request.antt =====
-- `getSetupData` and `getPlayData` of config.cpp: the requests, and what they commit. Each is one step
-- here; the source takes m_ca_lock in pieces, in `getPidStatus` and in `addCaPids`, and a report of CA
-- pids between them is taken to come before or behind the request.
pub mod Laws
pub mod Linked
use satip_client.Base.{
  ℕ, ◌+◌, ◌≡◌, Bool, true, false, ◌||◌, ◌&&◌, not, ◌==◌, if◌then◌else◌, List, [], ◌∷◌, ◌++◌,
}
use satip_client.Base.Sets.{contains, insert_all, keep_if}
use satip_client.Base.Text.{Text, codes, join_numbers}
use satip_client.Config.Header.{FrontendHeader}
use satip_client.Config.PidList.{collect_active, commit}
use satip_client.Config.State.{
  Config, ChannelStatus, channel_invalid, channel_changed, channel_stable, PidListStatus,
  pid_list_changed, pid_stationary, update_pid_status, get_pid_status,
}
use satip_client.Config.Tuning.{tuning_data}

abbrev pub is_channel_changed : ChannelStatus → Bool
is_channel_changed channel_changed = true
is_channel_changed _ = false

abbrev pub is_pid_changed : PidListStatus → Bool
is_pid_changed pid_list_changed = true
is_pid_changed pid_stationary = false

-- The pids that the request is about: `collectActivePids`, then `addCaPids`.
unfoldable pub request_pids : Config → List ℕ
unfolding collect_active insert_all
request_pids c = insert_all c.ca_pids (collect_active c.slots [])

-- What `addCaPids`, `commitPidStates`, `m_requested_pids = pids` and `updatePidStatus` leave behind.
unfoldable pub commit_request : Config → Config
unfolding request_pids commit update_pid_status
commit_request c =
    update_pid_status
      (record c { ca_dirty = false; slots = commit c.slots; requested_pids = request_pids c })

-- The parameters behind a question mark, without their first `&`.
unfoldable pub query : Text → Text
query [] = []
query (ch ∷ text) = b'?' ∷ (if ch == b'&' then text else ch ∷ text)

-- `getPlayData`, the pids to add and to delete: the differences of what is wanted and requested.
unfoldable pub play_diff : List ℕ → List ℕ → List ℕ × List ℕ
unfolding keep_if contains
play_diff pids requested =
    (keep_if (λ p. not (contains p requested)) pids, keep_if (λ p. not (contains p pids)) requested)

-- `"&addpids="` and its like, left out for an empty set.
abbrev pub pids_text : Text → List ℕ → Text
pids_text name [] = []
pids_text name (p ∷ pids) = name ++ join_numbers (p ∷ pids)

-- `"&pids="`, or `none` for an empty set.
abbrev pub setup_pids_text : List ℕ → Text
setup_pids_text [] = codes "&pids=none"
setup_pids_text (p ∷ pids) = codes "&pids=" ++ join_numbers (p ∷ pids)

module _ (k : FrontendHeader) where
  -- The tuning part of `getSetupData`.
  unfoldable pub setup_tuning : Config → Config × Text
  unfolding tuning_data
  setup_tuning c =
      let (tuned, tuning) = tuning_data k c in
      if is_channel_changed c.status
      then (record tuned { status = channel_stable }, tuning)
      else (c, [])

  unfoldable pub get_setup_data : Config → Config × Text
  unfolding setup_tuning commit_request query join_numbers
  get_setup_data c =
      let (start, tuning) = setup_tuning c in
      (commit_request start, query (tuning ++ setup_pids_text (request_pids start)))

  -- The tuning part of `getPlayData`: a new channel forgets what was requested.
  unfoldable pub play_tuning : Config → Config × Text
  unfolding tuning_data
  play_tuning c =
      let (tuned, tuning) = tuning_data k c in
      if is_channel_changed c.status
      then (record tuned { status = channel_stable; requested_pids = [] }, tuning)
      else (c, [])

  unfoldable pub get_play_data : Config → Config × Text
  unfolding play_tuning play_diff commit_request query join_numbers get_pid_status
  get_play_data c =
      let (start, tuning) = play_tuning c in
      let (addpids, delpids) = play_diff (request_pids start) start.requested_pids in
      if is_pid_changed (get_pid_status start)
      then (
        commit_request start,
        query (
            tuning
            ++ (pids_text (codes "&addpids=") addpids ++ pids_text (codes "&delpids=") delpids)),
      )
      else (start, query tuning)
