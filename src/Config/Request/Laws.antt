-- ===== src/Config/Request/Laws.antt =====
-- What the requests tell the server, and what they leave pending.
use satip_client.Base.{
  ℕ, ◌≡◌, refl, false, ◌&&◌, not, if◌then◌else◌, List, [], arith, Bool-cases, inl, inr,
}
use satip_client.Base.Sets.{contains, insert_all, keep_if, contains-insert_all, contains-keep_if}
use satip_client.Config.Header.{FrontendHeader}
use satip_client.Config.PidList.Sent.{commit_settles}
use satip_client.Config.State.{
  Config, ChannelStatus, channel_invalid, channel_changed, channel_stable, pid_stationary,
  update_pid_status, get_pid_status,
}
use satip_client.Config.Tuning.Frame.{tuning_data_frame}
use satip_client.Config.Request.{
  is_channel_changed, is_pid_changed, request_pids, commit_request, play_diff, get_setup_data,
  setup_tuning, play_tuning, get_play_data,
}

-- A server that adds the `addpids` and then deletes the `delpids` of a PLAY request.
abbrev pub apply_diff : List ℕ → List ℕ × List ℕ → List ℕ
apply_diff server (addpids, delpids) =
    keep_if (λ p. not (contains p delpids)) (insert_all addpids server)

-- The two sets take a server from what it was asked for to what is wanted, pid by pid; neither
-- names a pid in vain: what is added was not requested, what is deleted was and is not wanted.
pub play_diff_applies :
    (pids requested : List ℕ) (p : ℕ)
    → let (addpids, delpids) = play_diff pids requested in
      (contains p (apply_diff requested (addpids, delpids)) ≡ contains p pids)
      × (contains p addpids ≡ (contains p pids && not (contains p requested)))
      × (contains p delpids ≡ (contains p requested && not (contains p pids)))
unfolding play_diff
play_diff_applies pids requested p =
    let addpids = keep_if (λ p. not (contains p requested)) pids in
    let delpids = keep_if (λ p. not (contains p pids)) requested in
    let added = contains-keep_if (λ p. not (contains p requested)) p pids in
    let deleted = contains-keep_if (λ p. not (contains p pids)) p requested in
    (
      ground (
        arith,
        contains-keep_if (λ p. not (contains p delpids)) p (insert_all addpids requested),
        contains-insert_all p addpids requested,
        added,
        deleted,
      ),
      added,
      deleted,
    )

-- A request that commits leaves nothing pending, and the kernel's and the parser's pids requested.
pub record IsCommitted (before after : Config) : Type 0 where
  pub nothing_pending : get_pid_status after ≡ pid_stationary
  pub requested : after.requested_pids ≡ request_pids before
  pub still_wanted : request_pids after ≡ request_pids before

commit_request-IsCommitted : (c : Config) → IsCommitted c (commit_request c)
unfolding commit_request update_pid_status get_pid_status request_pids
commit_request-IsCommitted c =
    let (settled, same, _) = commit_settles c.slots in
    record { nothing_pending = rw settled refl; requested = refl; still_wanted = rw same refl }

-- The tuning of a request touches the pilot and the status, and in a PLAY the requested pids.
abbrev pub tuned_to : Config → ℕ → ChannelStatus → List ℕ → Config
tuned_to c pilot status requested = record c {
  pilot = pilot;
  status = status;
  requested_pids = requested;
}

abbrev pub after_tuning : ChannelStatus → ChannelStatus
after_tuning channel_changed = channel_stable
after_tuning channel_invalid = channel_invalid
after_tuning channel_stable = channel_stable

-- What a new channel leaves of the requested pids.
abbrev pub base_pids : Config → List ℕ
base_pids c = if is_channel_changed c.status then [] else c.requested_pids

not_pending :
    (c : Config) → is_pid_changed (get_pid_status c) ≡ false → get_pid_status c ≡ pid_stationary
not_pending c h = ground arith

-- The end of `getPlayData`, from the configuration that its tuning part leaves.
abbrev pub play_end : Config → Config
play_end c = if is_pid_changed (get_pid_status c) then commit_request c else c

play_end_commits :
    (c : Config)
    → let c' = play_end c in
      (c'.status ≡ c.status)
      × (get_pid_status c' ≡ pid_stationary)
      × (request_pids c' ≡ request_pids c)
      × (c'.requested_pids
          ≡ (if is_pid_changed (get_pid_status c) then request_pids c else c.requested_pids))
play_end_commits c = elim (Bool-cases (is_pid_changed (get_pid_status c))) [
  | inl e ↦
      let done = commit_request-IsCommitted c in
      rw e (
        unfold commit_request update_pid_status in refl,
        done.nothing_pending,
        done.still_wanted,
        done.requested,
      )
  | inr n ↦ rw n (refl, not_pending c n, refl, refl)
]

module _ (k : FrontendHeader) where
  pub setup_tuning_frame :
      (c : Config)
      → let c' = (setup_tuning k c).0 in
        c' ≡ tuned_to c c'.pilot (after_tuning c.status) c.requested_pids
  unfolding setup_tuning
  setup_tuning_frame c = ground (arith, tuning_data_frame k c)

  pub play_tuning_frame :
      (c : Config)
      → let c' = (play_tuning k c).0 in
        c' ≡ tuned_to c c'.pilot (after_tuning c.status) (base_pids c)
  unfolding play_tuning
  play_tuning_frame c = ground (arith, tuning_data_frame k c)

  -- What a SETUP request commits.
  pub get_setup_data_commits :
      (c : Config)
      → let c' = (get_setup_data k c).0 in IsCommitted c c' × (c'.status ≡ after_tuning c.status)
  unfolding get_setup_data commit_request update_pid_status request_pids
  get_setup_data_commits c =
      let start = (setup_tuning k c).0 in
      let done =
        commit_request-IsCommitted
          (tuned_to c start.pilot (after_tuning c.status) c.requested_pids) in
      (
        rw (setup_tuning_frame c) (record {
          nothing_pending = done.nothing_pending;
          requested = done.requested;
          still_wanted = done.still_wanted;
        }),
        rw (setup_tuning_frame c) refl,
      )

  pub play_state : (c : Config) → (get_play_data k c).0 ≡ play_end (play_tuning k c).0
  unfolding get_play_data
  play_state c = ground arith

  -- What a PLAY request commits.
  pub get_play_data_commits :
      (c : Config)
      → let c' = (get_play_data k c).0 in
        (c'.status ≡ after_tuning c.status)
        × (get_pid_status c' ≡ pid_stationary)
        × (request_pids c' ≡ request_pids c)
        × (c'.requested_pids
            ≡ (if is_pid_changed (get_pid_status c) then request_pids c else base_pids c))
  get_play_data_commits c =
      let start = (play_tuning k c).0 in
      rw (play_state c, play_tuning_frame c)
        (unfold get_pid_status request_pids in
          play_end_commits (tuned_to c start.pilot (after_tuning c.status) (base_pids c)))
