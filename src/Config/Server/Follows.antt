-- ===== src/Config/Server/Follows.antt =====
-- The pids that the server has, after a SETUP and any operations since, beside those that are wanted.
use satip_client.Base.{
  ℕ, ◌≡◌, refl, sym, ap, ◌∙◌, subst, Bool, true, false, not, if◌then◌else◌, List, [], ◌∷◌, arith,
  Bool-cases, inl, inr,
}
use satip_client.Base.Sets.{contains, insert_all, keep_if, contains-keep_if, contains-insert_all}
use satip_client.Psi.Stream.{process_ts}
use satip_client.Config.Header.{FrontendHeader}
use satip_client.Config.PidList.{collect_active, pid_changed}
use satip_client.Config.PidList.Update.{contains-collect}
use satip_client.Config.PidList.Sent.{active-sent}
use satip_client.Config.State.{
  Config, ChannelStatus, pid_list_changed, pid_stationary, with_psi, receive_ts, get_pid_status,
}
use satip_client.Config.Frame.{with_psi-SameTuning}
use satip_client.Config.Request.{
  is_channel_changed, is_pid_changed, request_pids, commit_request, play_diff, setup_tuning,
  play_tuning, get_setup_data, get_play_data,
}
use satip_client.Config.Request.Laws.{
  apply_diff, play_diff_applies, tuned_to, after_tuning, base_pids, play_end, setup_tuning_frame,
  play_tuning_frame, play_state, get_play_data_commits,
}
use satip_client.Config.Reading.{read_setup}
use satip_client.Config.Reading.RoundTrip.{read_play-get_play_data}
use satip_client.Config.Reading.Setup.{setup_names_wanted}
use satip_client.Config.Server.{
  ServerOp, change_pids, hear_stream, play_sent, client_step, server_step, run_both,
}
use satip_client.Config.Server.Synced.{
  IsSynced, parser-IsSynced, update_pid_list-IsSynced, commit_request-IsSynced, with_psi-NotesCa,
}

not_pending_clean :
    (c : Config)
    → is_pid_changed (get_pid_status c) ≡ false
    → (c.pid_status ≡ pid_stationary) × (c.ca_dirty ≡ false)
unfolding get_pid_status
not_pending_clean c h = (ground (arith, h), ground (arith, h))

not_changed :
    (b : Bool) → pid_stationary ≡ (if b then pid_list_changed else pid_stationary) → b ≡ false
not_changed true h = cc
not_changed false h = refl

-- With nothing pending the server has what is wanted.
settled_server :
    (c : Config) (server : List ℕ) (p : ℕ)
    → IsSynced c server
    → is_pid_changed (get_pid_status c) ≡ false
    → contains p server ≡ contains p (request_pids c)
unfolding request_pids contains
settled_server c server p v h =
    let (stationary, clean) = not_pending_clean c h in
    let same = not_changed (pid_changed c.slots) (sym stationary ∙ v.flag) in
    ground (
      arith,
      v.served p,
      v.remembered clean p,
      active-sent p c.slots same,
      contains-insert_all p c.ca_pids (collect_active c.slots []),
      contains-collect p c.slots [],
    )

-- A set that the server holds in another order of operations takes the same difference.
apply_diff-same :
    (a b : List ℕ) (d : List ℕ × List ℕ) (p : ℕ)
    → contains p a ≡ contains p b
    → contains p (apply_diff a d) ≡ contains p (apply_diff b d)
apply_diff-same a b (addpids, delpids) p h = ground (
  arith,
  h,
  contains-keep_if (λ q. not (contains q delpids)) p (insert_all addpids a),
  contains-keep_if (λ q. not (contains q delpids)) p (insert_all addpids b),
  contains-insert_all p addpids a,
  contains-insert_all p addpids b,
)

-- What a PLAY of a tuned channel does to the server.
unfoldable heard : Config → List ℕ → List ℕ
unfolding play_diff request_pids get_pid_status
heard c server = apply_diff server (
    if is_pid_changed (get_pid_status c)
    then play_diff (request_pids c) c.requested_pids
    else ([], []))

keep_all : (xs : List ℕ) → keep_if (λ q. not (contains q [])) xs ≡ xs
unfolding keep_if contains
keep_all [] = refl
keep_all (x ∷ xs) = ap (λ ys. x ∷ ys) (keep_all xs)

heard_nothing :
    (c : Config) (server : List ℕ)
    → is_pid_changed (get_pid_status c) ≡ false
    → heard c server ≡ server
unfolding heard insert_all
heard_nothing c server n = rw n (keep_all server)

-- The server after a PLAY has what is wanted, whether or not a change was pending.
play_served :
    (c : Config) (server : List ℕ) (p : ℕ)
    → IsSynced c server
    → contains p (heard c server) ≡ contains p (request_pids c)
play_served c server p v = elim (Bool-cases (is_pid_changed (get_pid_status c))) [
  | inl e ↦
      unfold heard in
      let d = play_diff (request_pids c) c.requested_pids in
      rw e (
        apply_diff-same server c.requested_pids d p (v.served p)
        ∙ (play_diff_applies (request_pids c) c.requested_pids p).0)
  | inr n ↦ ap (contains p) (heard_nothing c server n) ∙ settled_server c server p v n
]

tuned_base : (c : Config) → is_channel_changed c.status ≡ false → base_pids c ≡ c.requested_pids
tuned_base c h = rw h refl

tuned_by_request : (s : ChannelStatus) → is_channel_changed (after_tuning s) ≡ false
tuned_by_request s = ground arith

-- The tuning part of a PLAY leaves a tuned channel synchronised.
tuned_to-IsSynced :
    (c : Config) (pilot : ℕ) (server : List ℕ)
    → IsSynced c server
    → IsSynced (tuned_to c pilot (after_tuning c.status) c.requested_pids) server
tuned_to-IsSynced c pilot server v = record {
  tuned = tuned_by_request c.status;
  flag = v.flag;
  remembered = v.remembered;
  served = v.served;
}

play_end-IsSynced :
    (c : Config) (server : List ℕ) → IsSynced c server → IsSynced (play_end c) (heard c server)
play_end-IsSynced c server v = elim (Bool-cases (is_pid_changed (get_pid_status c))) [
  | inl e ↦
      rw e (commit_request-IsSynced c (heard c server) v.tuned (λ p. play_served c server p v))
  | inr n ↦ rw n (subst (IsSynced c) (sym (heard_nothing c server n)) v)
]

-- Reading the pids alone, the server does the same at the pilot and the status that a PLAY leaves.
heard-tuned :
    (c : Config) (pilot : ℕ) (status : ChannelStatus) (server : List ℕ)
    → heard (tuned_to c pilot status c.requested_pids) server ≡ heard c server
unfolding heard request_pids get_pid_status
heard-tuned c pilot status server = refl

module _ (k : FrontendHeader) where
  get_play_data-IsSynced :
      (c : Config) (server : List ℕ)
      → IsSynced c server
      → IsSynced (get_play_data k c).0 (heard c server)
  get_play_data-IsSynced c server v =
      let pilot = (play_tuning k c).0.pilot in
      let start = tuned_to c pilot (after_tuning c.status) c.requested_pids in
      let frame : (play_tuning k c).0 ≡ start =
        play_tuning_frame k c
        ∙ ap (λ pids. tuned_to c pilot (after_tuning c.status) pids) (tuned_base c v.tuned) in
      let done = play_end-IsSynced start server (tuned_to-IsSynced c pilot server v) in
      subst (λ (c' : Config). IsSynced c' (heard c server))
        (sym (play_state k c ∙ ap play_end frame))
        (subst (IsSynced (play_end start)) (heard-tuned c pilot (after_tuning c.status) server)
          done)

  server_step-heard :
      (c : Config) (server : List ℕ)
      → is_channel_changed c.status ≡ false
      → server_step k play_sent c server ≡ heard c server
  unfolding server_step heard
  server_step-heard c server h = ap (apply_diff server) (read_play-get_play_data k c h)

  client_step-IsSynced :
      (op : ServerOp) (c : Config) (server : List ℕ)
      → IsSynced c server
      → IsSynced (client_step k op c) (server_step k op c server)
  unfolding client_step
  client_step-IsSynced (change_pids new) c server v =
      unfold server_step in update_pid_list-IsSynced new c server v
  client_step-IsSynced (hear_stream first now buf) c server v =
      unfold server_step receive_ts in
      parser-IsSynced c (with_psi (process_ts first now buf) c) server
        (with_psi-SameTuning (process_ts first now buf) c)
        (with_psi-NotesCa (process_ts first now buf) c) v
  client_step-IsSynced play_sent c server v =
      subst (IsSynced (get_play_data k c).0) (sym (server_step-heard c server v.tuned))
        (get_play_data-IsSynced c server v)

  run_both-IsSynced :
      (ops : List ServerOp) (c : Config) (server : List ℕ)
      → IsSynced c server
      → let (c', server') = run_both k ops c server in IsSynced c' server'
  unfolding run_both
  run_both-IsSynced [] c server v = v
  run_both-IsSynced (op ∷ ops) c server v =
      run_both-IsSynced ops (client_step k op c) (server_step k op c server)
        (client_step-IsSynced op c server v)

  -- The SETUP that `setup` sends, and then some operations: the configuration, and the server, which
  -- starts with the pids that the text of the SETUP names.
  abbrev pub after_setup : Config → List ServerOp → Config × List ℕ
  after_setup setup ops =
      let (c, text) = get_setup_data k setup in run_both k ops c (read_setup text)

  get_setup_data-IsSynced :
      (c : Config) → IsSynced (get_setup_data k c).0 (read_setup (get_setup_data k c).1)
  get_setup_data-IsSynced c =
      let pilot = (setup_tuning k c).0.pilot in
      let start = tuned_to c pilot (after_tuning c.status) c.requested_pids in
      let done : IsSynced (commit_request start) (request_pids c) =
        commit_request-IsSynced start (request_pids c) (tuned_by_request c.status)
          (λ p. unfold request_pids in refl) in
      let named : request_pids c ≡ read_setup (get_setup_data k c).1 =
        sym (setup_names_wanted k c).0 in
      let synced : IsSynced (get_setup_data k c).0 (request_pids c) =
        unfold get_setup_data in
        subst (λ (c' : Config). IsSynced (commit_request c') (request_pids c))
          (sym (setup_tuning_frame k c)) done in
      subst (IsSynced (get_setup_data k c).0) named synced

  after_setup-IsSynced :
      (setup : Config) (ops : List ServerOp)
      → IsSynced (after_setup setup ops).0 (after_setup setup ops).1
  after_setup-IsSynced setup ops =
      let (c, text) = get_setup_data k setup in
      run_both-IsSynced ops c (read_setup text) (get_setup_data-IsSynced setup)

  -- A server that starts with the pids that the text of a SETUP names and from then on reads the text
  -- of each PLAY, and adds and deletes what its `addpids` and `delpids` list, has, after each PLAY,
  -- exactly the pids that the kernel and the parser want: through any sequence of pid lists, of stream
  -- bytes and of PLAYs on the channel that the SETUP tuned.
  pub server_has_wanted :
      (setup : Config) (ops : List ServerOp) (p : ℕ)
      → let (c, server) = after_setup setup ops in
        contains p (server_step k play_sent c server)
        ≡ contains p (request_pids (get_play_data k c).0)
  server_has_wanted setup ops p =
      let (c, server) = after_setup setup ops in
      let v = after_setup-IsSynced setup ops in
      ap (contains p) (server_step-heard c server v.tuned)
      ∙ play_served c server p v
      ∙ ap (contains p) (sym (get_play_data_commits k c).2)

  -- Whenever `getPidStatus` has no change to report, so that no PLAY is due, a server that has read
  -- the texts of the SETUP and of the PLAYs since has exactly the pids that the kernel and the parser
  -- want: through any sequence of pid lists, also ones that are changed back, of stream bytes and of
  -- PLAYs on the channel that the SETUP tuned.
  pub nothing_due_means_served :
      (setup : Config) (ops : List ServerOp) (p : ℕ)
      → is_pid_changed (get_pid_status (after_setup setup ops).0) ≡ false
      → let (c, server) = after_setup setup ops in contains p server ≡ contains p (request_pids c)
  nothing_due_means_served setup ops p h =
      let (c, server) = after_setup setup ops in
      settled_server c server p (after_setup-IsSynced setup ops) h
