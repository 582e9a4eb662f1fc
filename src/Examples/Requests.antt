-- ===== src/Examples/Requests.antt =====
-- The theorems on the requests, at a satellite tuner on its way to a channel.
use satip_client.Base.{List, ℕ, ◌≤◌, ◌<◌, ◌≡◌, refl, ◌≢◌, true, false, [], ◌∷◌}
use satip_client.Base.Sets.{contains}
use satip_client.Config.PidList.{empty_slots}
use satip_client.Config.State.{
  Config, Settings, sat, init_config, set_channel_changed, update_pid_list, get_pid_status,
}
use satip_client.Config.Tuning.{pls_root2gold}
use satip_client.Config.Tuning.Gold.{gold_state, pls_root2gold_least}
use satip_client.Config.Request.{is_pid_changed, request_pids, get_setup_data, get_play_data}
use satip_client.Config.Request.Laws.{IsCommitted, after_tuning}
use satip_client.Config.Reading.{read_setup}
use satip_client.Config.Reading.Setup.{setup_names_wanted}
use satip_client.Config.Server.{
  ServerOp, change_pids, play_sent, client_step, server_step, run_both,
}
use satip_client.Config.Server.Follows.{after_setup, server_has_wanted, nothing_due_means_served}
use satip_client.Examples.{linux_dvb}

abbrev pub settings : Settings
settings = record {
  tcpdata = false;
  fe_number = 1;
  force_plts = false;
  ca_pids = true;
  ca_emm = false;
  ca_caids = [];
}

abbrev pub tuned : Config
tuned = update_pid_list (0 ∷ 16 ∷ 110 ∷ []) (
    set_channel_changed (record (init_config linux_dvb sat settings) {
      frequency = 115380;
      msys = 5;
      symrate = 22000000;
    }))

requested : request_pids tuned ≡ 0 ∷ 16 ∷ 110 ∷ []
unfolding request_pids update_pid_list set_channel_changed init_config empty_slots
requested = refl

setup_names_wanted_example :
    let (c, text) = get_setup_data linux_dvb tuned in
    (read_setup text ≡ request_pids tuned)
    × IsCommitted tuned c
    × (c.status ≡ after_tuning tuned.status)
setup_names_wanted_example = setup_names_wanted linux_dvb tuned

pls_root2gold_least_example :
    (pls_root2gold 0x20000 ≤ 0x3ffff)
    × (pls_root2gold 0x20000 < 0x3ffff → gold_state (pls_root2gold 0x20000) 1 ≡ 0x20000)
    × ((i : ℕ) → i < pls_root2gold 0x20000 → gold_state i 1 ≢ 0x20000)
pls_root2gold_least_example = pls_root2gold_least 0x20000

-- One pid goes and another comes, with a PLAY between.
abbrev zapped : List ServerOp
zapped = change_pids (0 ∷ 110 ∷ 120 ∷ []) ∷ play_sent ∷ change_pids (0 ∷ 120 ∷ []) ∷ []

server_has_wanted_example :
    let (c, server) = after_setup linux_dvb tuned zapped in
    contains 110 (server_step linux_dvb play_sent c server)
    ≡ contains 110 (request_pids (get_play_data linux_dvb c).0)
server_has_wanted_example = server_has_wanted linux_dvb tuned zapped 110

-- A pid goes and comes back.
abbrev back : List ServerOp
back = change_pids (0 ∷ 16 ∷ []) ∷ change_pids (0 ∷ 16 ∷ 110 ∷ []) ∷ []

back_settled : is_pid_changed (get_pid_status (after_setup linux_dvb tuned back).0) ≡ false
unfolding run_both client_step update_pid_list get_setup_data get_pid_status set_channel_changed
    init_config empty_slots
back_settled = refl

nothing_due_means_served_example :
    let (c, server) = after_setup linux_dvb tuned back in
    contains 110 server ≡ contains 110 (request_pids c)
nothing_due_means_served_example = nothing_due_means_served linux_dvb tuned back 110 back_settled
