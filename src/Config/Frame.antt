-- ===== src/Config/Frame.antt =====
-- What the reports of the parser leave alone in the configuration.
use satip_client.Base.{ℕ, ◌≡◌, refl, ap, ◌∙◌, none, some, List, [], ◌∷◌, arith}
use satip_client.Base.Sets.{set_eq_iff}
use satip_client.Psi.State.{Psi, Reports}
use satip_client.Psi.Recompute.Spec.{last_report}
use satip_client.Config.State.{Config, wakeup, set_ca_pids, apply_reports, take_psi, with_psi}

-- A configuration that differs from another in its parser, its CA pids and the wakeup only.
pub record SameTuning (c c' : Config) : Type 0 where
  pub slots : c'.slots ≡ c.slots
  pub status : c'.status ≡ c.status
  pub generation : c'.tune_generation ≡ c.tune_generation
  pub requested : c'.requested_pids ≡ c.requested_pids
  pub pid_status : c'.pid_status ≡ c.pid_status
  pub settings : c'.settings ≡ c.settings
  pub has_wakeup : c'.has_wakeup ≡ c.has_wakeup

pub SameTuning-refl : (c : Config) → SameTuning c c
SameTuning-refl c = record {
  slots = refl;
  status = refl;
  generation = refl;
  requested = refl;
  pid_status = refl;
  settings = refl;
  has_wakeup = refl;
}

pub SameTuning-trans : (a b c : Config) → SameTuning a b → SameTuning b c → SameTuning a c
SameTuning-trans a b c p q = record {
  slots = q.slots ∙ p.slots;
  status = q.status ∙ p.status;
  generation = q.generation ∙ p.generation;
  requested = q.requested ∙ p.requested;
  pid_status = q.pid_status ∙ p.pid_status;
  settings = q.settings ∙ p.settings;
  has_wakeup = q.has_wakeup ∙ p.has_wakeup;
}

set_ca_pids-SameTuning : (pids : List ℕ) (c : Config) → SameTuning c (set_ca_pids pids c)
unfolding set_ca_pids wakeup
set_ca_pids-SameTuning pids c = record {
  slots = ground arith;
  status = ground arith;
  generation = ground arith;
  requested = ground arith;
  pid_status = ground arith;
  settings = ground arith;
  has_wakeup = ground arith;
}

pub ca_pids-set_ca_pids : (pids : List ℕ) (c : Config) → (set_ca_pids pids c).ca_pids ≡ pids
unfolding set_ca_pids wakeup
ca_pids-set_ca_pids pids c = ground (arith, set_eq_iff pids c.ca_pids)

psi-set_ca_pids : (pids : List ℕ) (c : Config) → (set_ca_pids pids c).psi ≡ c.psi
unfolding set_ca_pids wakeup
psi-set_ca_pids pids c = ground arith

pub apply_reports-SameTuning : (rs : Reports) (c : Config) → SameTuning c (apply_reports rs c)
unfolding apply_reports
apply_reports-SameTuning [] c = SameTuning-refl c
apply_reports-SameTuning (r ∷ rs) c =
    SameTuning-trans c (set_ca_pids r c) (apply_reports rs (set_ca_pids r c))
      (set_ca_pids-SameTuning r c) (apply_reports-SameTuning rs (set_ca_pids r c))

pub ca_pids-apply_reports :
    (rs : Reports) (c : Config) → (apply_reports rs c).ca_pids ≡ last_report c.ca_pids rs
unfolding apply_reports
ca_pids-apply_reports [] c = refl
ca_pids-apply_reports (r ∷ rs) c =
    ca_pids-apply_reports rs (set_ca_pids r c)
    ∙ ap (λ (pids : List ℕ). last_report pids rs) (ca_pids-set_ca_pids r c)

pub psi-apply_reports : (rs : Reports) (c : Config) → (apply_reports rs c).psi ≡ c.psi
unfolding apply_reports
psi-apply_reports [] c = refl
psi-apply_reports (r ∷ rs) c = psi-apply_reports rs (set_ca_pids r c) ∙ psi-set_ca_pids r c

pub with_psi-SameTuning : (f : Psi → Psi × Reports) (c : Config) → SameTuning c (with_psi f c)
unfolding with_psi take_psi
with_psi-SameTuning f c =
    elim c.psi as (λ o. SameTuning c (elim o [ none ↦ c | some psi ↦ take_psi (f psi) c ])) [
      | none ↦ SameTuning-refl c
      | some psi ↦
          SameTuning-trans c (record c { psi = some (f psi).0 }) _
            (record {
              slots = refl;
              status = refl;
              generation = refl;
              requested = refl;
              pid_status = refl;
              settings = refl;
              has_wakeup = refl;
            })
            (apply_reports-SameTuning (f psi).1 (record c { psi = some (f psi).0 }))
    ]
