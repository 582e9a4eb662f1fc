-- ===== src/Config/Request/Linked.antt =====
-- The requests keep the configuration well formed, and its parser linked.
use satip_client.Base.{ℕ, subst, sym, if-both, List}
use satip_client.Config.Header.{FrontendHeader}
use satip_client.Config.PidList.Laws.{commit-IsPidList}
use satip_client.Config.State.{Config, ChannelStatus, update_pid_status, get_pid_status}
use satip_client.Config.Request.{
  is_pid_changed, commit_request, setup_tuning, play_tuning, get_setup_data, get_play_data,
}
use satip_client.Config.Request.Laws.{
  tuned_to, after_tuning, base_pids, setup_tuning_frame, play_tuning_frame, play_state,
}
use satip_client.Config.Link.{IsConfig}

commit_request-IsConfig : (c : Config) → IsConfig c → IsConfig (commit_request c)
unfolding commit_request update_pid_status
commit_request-IsConfig c v = record {
  pid_list = commit-IsPidList c.slots v.pid_list;
  linked = v.linked;
}

tuned_to-IsConfig :
    (c : Config) (pilot : ℕ) (status : ChannelStatus) (requested : List ℕ)
    → IsConfig c
    → IsConfig (tuned_to c pilot status requested)
tuned_to-IsConfig c pilot status requested v = record { pid_list = v.pid_list; linked = v.linked }

module _ (k : FrontendHeader) where
  pub get_setup_data-IsConfig : (c : Config) → IsConfig c → IsConfig (get_setup_data k c).0
  get_setup_data-IsConfig c v =
      let start = (setup_tuning k c).0 in
      let tuned : IsConfig start =
        subst IsConfig (sym (setup_tuning_frame k c))
          (tuned_to-IsConfig c start.pilot (after_tuning c.status) c.requested_pids v) in
      unfold get_setup_data in commit_request-IsConfig start tuned

  pub get_play_data-IsConfig : (c : Config) → IsConfig c → IsConfig (get_play_data k c).0
  get_play_data-IsConfig c v =
      let start = (play_tuning k c).0 in
      let tuned : IsConfig start =
        subst IsConfig (sym (play_tuning_frame k c))
          (tuned_to-IsConfig c start.pilot (after_tuning c.status) (base_pids c) v) in
      subst IsConfig (sym (play_state k c)) (
        if-both IsConfig (is_pid_changed (get_pid_status start)) _ _
          (commit_request-IsConfig start tuned) tuned)
