-- ===== src/Config/Server/Synced.antt =====
-- What the configuration remembers of the server, and what the parser and the kernel keep of it.
use satip_client.Base.{
  ℕ, ◌≡◌, refl, sym, ap, ◌∙◌, false, ◌||◌, if◌then◌else◌, none, some, List, [], ◌∷◌, arith,
}
use satip_client.Base.Sets.{contains, contains-insert_all}
use satip_client.Psi.State.{Psi, Reports}
use satip_client.Psi.Recompute.{set_joined_pids}
use satip_client.Config.PidList.{collect_active, update_slots, pid_changed}
use satip_client.Config.PidList.Update.{holds, contains-collect}
use satip_client.Config.PidList.Sent.{is_sent, sent-commit, sent-update_slots}
use satip_client.Config.State.{
  Config, pid_list_changed, pid_stationary, wakeup, set_ca_pids, apply_reports, take_psi, with_psi,
  update_pid_status, notify_pid_list, update_pid_list,
}
use satip_client.Config.Frame.{SameTuning, with_psi-SameTuning}
use satip_client.Config.Request.{is_channel_changed, request_pids, commit_request}

-- The CA pids are untouched, or the change is noted.
pub record NotesCa (c c' : Config) : Type 0 where
  pub before : c'.ca_dirty ≡ false → c.ca_dirty ≡ false
  pub same : c'.ca_dirty ≡ false → c'.ca_pids ≡ c.ca_pids

NotesCa-trans : (a b c : Config) → NotesCa a b → NotesCa b c → NotesCa a c
NotesCa-trans a b c p q = record {
  before = λ h. p.before (q.before h);
  same = λ h. q.same h ∙ p.same (q.before h);
}

set_ca_pids-NotesCa : (pids : List ℕ) (c : Config) → NotesCa c (set_ca_pids pids c)
unfolding set_ca_pids wakeup
set_ca_pids-NotesCa pids c = record {
  before = λ h. ground (arith, h);
  same = λ h. ground (arith, h);
}

apply_reports-NotesCa : (rs : Reports) (c : Config) → NotesCa c (apply_reports rs c)
unfolding apply_reports
apply_reports-NotesCa [] c = record { before = λ h. h; same = λ h. refl }
apply_reports-NotesCa (r ∷ rs) c =
    NotesCa-trans c (set_ca_pids r c) (apply_reports rs (set_ca_pids r c)) (set_ca_pids-NotesCa r c)
      (apply_reports-NotesCa rs (set_ca_pids r c))

pub with_psi-NotesCa : (f : Psi → Psi × Reports) (c : Config) → NotesCa c (with_psi f c)
unfolding with_psi take_psi
with_psi-NotesCa f c =
    elim c.psi as (λ o. NotesCa c (elim o [ none ↦ c | some psi ↦ take_psi (f psi) c ])) [
      | none ↦ record { before = λ h. h; same = λ h. refl }
      | some psi ↦
          NotesCa-trans c (record c { psi = some (f psi).0 }) _
            (record { before = λ h. h; same = λ h. refl })
            (apply_reports-NotesCa (f psi).1 (record c { psi = some (f psi).0 }))
    ]

-- What the client remembers of the server: the pids requested are those that the slots say were
-- sent, with the CA pids if no change of them is noted; and the server has what was requested.
pub record IsSynced (c : Config) (server : List ℕ) : Type 0 where
  pub tuned : is_channel_changed c.status ≡ false
  pub flag : c.pid_status ≡ (if pid_changed c.slots then pid_list_changed else pid_stationary)
  pub remembered :
      c.ca_dirty ≡ false
      → (p : ℕ) → contains p c.requested_pids ≡ (contains p c.ca_pids || holds is_sent p c.slots)
  pub served : (p : ℕ) → contains p server ≡ contains p c.requested_pids

-- An operation of the parser.
pub parser-IsSynced :
    (c c' : Config) (server : List ℕ)
    → SameTuning c c'
    → NotesCa c c'
    → IsSynced c server
    → IsSynced c' server
parser-IsSynced c c' server t n v = record {
  tuned = rw t.status v.tuned;
  flag = rw (t.pid_status, t.slots) v.flag;
  remembered = λ h p. rw (t.requested, t.slots, n.same h) (v.remembered (n.before h) p);
  served = λ p. rw t.requested (v.served p);
}

pub update_pid_list-IsSynced :
    (new : List ℕ) (c : Config) (server : List ℕ)
    → IsSynced c server
    → IsSynced (update_pid_list new c) server
unfolding update_pid_list notify_pid_list update_pid_status
update_pid_list-IsSynced new c server v =
    let slots = update_slots new c.slots in
    let start : Config = record c {
      slots = slots;
      pid_status = if pid_changed slots then pid_list_changed else pid_stationary;
    } in
    parser-IsSynced start _ server
      (with_psi-SameTuning (set_joined_pids (collect_active slots [])) start)
      (with_psi-NotesCa (set_joined_pids (collect_active slots [])) start)
      (record {
        tuned = v.tuned;
        flag = refl;
        remembered = λ h p.
            v.remembered h p
            ∙ ap (λ b. contains p c.ca_pids || b) (sym (sent-update_slots p new c.slots));
        served = v.served;
      })

-- What a request that commits remembers.
pub commit_request-IsSynced :
    (c : Config) (server : List ℕ)
    → is_channel_changed c.status ≡ false
    → ((p : ℕ) → contains p server ≡ contains p (request_pids c))
    → IsSynced (commit_request c) server
unfolding commit_request update_pid_status request_pids contains
commit_request-IsSynced c server t s = record {
  tuned = t;
  flag = refl;
  remembered = λ h p. ground (
    arith,
    contains-insert_all p c.ca_pids (collect_active c.slots []),
    contains-collect p c.slots [],
    sent-commit p c.slots,
  );
  served = s;
}
