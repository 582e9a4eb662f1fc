-- ===== src/Config/Server.antt =====
-- The configuration of a tuned channel beside a server that does what the texts of the requests
-- say: the server's state is the set of pids that it has.
pub mod Synced
pub mod Follows
use satip_client.Base.{
  ℕ, ◌≡◌, refl, sym, ap, ◌∙◌, subst, Bool, true, false, ◌&&◌, ◌||◌, not, if◌then◌else◌, if-both,
  Option, none, some, List, [], ◌∷◌, arith, Bool-cases, inl, inr,
}
use satip_client.Base.Sets.{
  set_eq, set_eq_iff, contains, keep_if, insert_all, contains-keep_if, contains-insert_all,
}
use satip_client.Psi.State.{Psi, Reports}
use satip_client.Psi.Recompute.{set_joined_pids}
use satip_client.Psi.Stream.{process_ts}
use satip_client.Config.Header.{FrontendHeader}
use satip_client.Config.PidList.{Slot, collect_active, update_slots, commit, pid_changed}
use satip_client.Config.PidList.Update.{holds, contains-collect}
use satip_client.Config.PidList.{is_active}
use satip_client.Config.PidList.Sent.{
  is_sent, active-sent, sent-commit, pid_changed-commit, sent-update_slots,
}
use satip_client.Config.State.{
  Config, ChannelStatus, PidListStatus, pid_list_changed, pid_stationary, wakeup, set_ca_pids,
  apply_reports, take_psi, with_psi, update_pid_status, notify_pid_list, update_pid_list,
  receive_ts, get_pid_status,
}
use satip_client.Config.Frame.{SameTuning, with_psi-SameTuning}
use satip_client.Config.Request.{
  is_channel_changed, is_pid_changed, request_pids, commit_request, play_diff, setup_tuning,
  play_tuning, get_play_data,
}
use satip_client.Config.Reading.{read_play}
use satip_client.Config.Request.Laws.{
  apply_diff, play_diff_applies, tuned_to, after_tuning, base_pids, play_end, setup_tuning_frame,
  play_tuning_frame, play_state, get_setup_data_commits, get_play_data_commits,
}

-- What happens to a tuned channel.
pub data ServerOp : Type 0 where
  change_pids : List ℕ → ServerOp
  hear_stream : ℕ → ℕ → List ℕ → ServerOp
  play_sent : ServerOp

module _ (k : FrontendHeader) where
  unfoldable pub client_step : ServerOp → Config → Config
  unfolding update_pid_list receive_ts get_play_data
  client_step (change_pids new) c = update_pid_list new c
  client_step (hear_stream first now buf) c = receive_ts first now buf c
  client_step play_sent c = (get_play_data k c).0

  -- The server hears the PLAY alone, and of it the pids to add and to delete.
  unfoldable pub server_step : ServerOp → Config → List ℕ → List ℕ
  unfolding get_play_data read_play
  server_step (change_pids new) c server = server
  server_step (hear_stream first now buf) c server = server
  server_step play_sent c server = apply_diff server (read_play (get_play_data k c).1)

  unfoldable pub run_both : List ServerOp → Config → List ℕ → Config × List ℕ
  unfolding client_step server_step
  run_both [] c server = (c, server)
  run_both (op ∷ ops) c server = run_both ops (client_step op c) (server_step op c server)
