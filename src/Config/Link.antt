-- ===== src/Config/Link.antt =====
-- The configuration and its parser together: what every operation of either keeps.
use satip_client.Base.{ℕ, ◌≡◌, refl, sym, ◌∙◌, subst, Option, none, some, List, [], if-both}
use satip_client.Psi.State.{Psi, Reports}
use satip_client.Psi.Recompute.{init_psi, reset, set_joined_pids}
use satip_client.Psi.Stream.{process_ts}
use satip_client.Psi.Invariant.{
  IsPsi, IsStep, reset_op, joined_op, ts_op, perform, perform-IsStep, init_psi-IsStep,
}
use satip_client.Config.Header.{FrontendHeader}
use satip_client.Config.PidList.{collect_active, update_slots}
use satip_client.Config.PidList.Laws.{
  IsPidList, empty_slots-IsPidList, update_slots-IsPidList, clear_pid_list-IsPidList,
}
use satip_client.Config.State.{
  Config, Settings, FeType, take_psi, with_psi, apply_reports, notify_pid_list, update_pid_list,
  update_pid_status, receive_ts, blank, clear_property, init_config,
}
use satip_client.Config.Frame.{apply_reports-SameTuning, ca_pids-apply_reports, psi-apply_reports}

-- The parser is valid, and the CA pids are those that it derived.
abbrev pub IsLinked : Option Psi → List ℕ → Type 0
IsLinked none ca_pids = Unit {0}
IsLinked (some psi) ca_pids = IsPsi psi × (ca_pids ≡ psi.derived_pids)

pub record IsConfig (c : Config) : Type 0 where
  pub pid_list : IsPidList c.slots
  pub linked : IsLinked c.psi c.ca_pids

-- A change of other members.
pub same-IsConfig :
    (c c' : Config)
    → c'.slots ≡ c.slots
    → c'.psi ≡ c.psi
    → c'.ca_pids ≡ c.ca_pids
    → IsConfig c
    → IsConfig c'
same-IsConfig c c' s p a v = record {
  pid_list = subst IsPidList (sym s) v.pid_list;
  linked =
      subst (λ (o : Option Psi). IsLinked o c'.ca_pids) (sym p)
        (subst (λ (pids : List ℕ). IsLinked c.psi pids) (sym a) v.linked);
}

-- Any operation of the parser that keeps it valid and reports what it derives.
take_psi-IsConfig :
    (r : Psi × Reports) (c : Config)
    → IsPidList c.slots
    → IsStep c.ca_pids r
    → IsConfig (take_psi r c)
unfolding take_psi
take_psi-IsConfig (psi, reports) c v step =
    let start = record c { psi = some psi } in
    record {
      pid_list = subst IsPidList (sym (apply_reports-SameTuning reports start).slots) v;
      linked =
          subst (λ (o : Option Psi). IsLinked o (apply_reports reports start).ca_pids)
            (sym (psi-apply_reports reports start))
            (step.valid, ca_pids-apply_reports reports start ∙ step.reported);
    }

with_psi-IsConfig :
    (f : Psi → Psi × Reports) (c : Config)
    → ((psi : Psi) → IsPsi psi → IsStep psi.derived_pids (f psi))
    → IsConfig c
    → IsConfig (with_psi f c)
unfolding with_psi
with_psi-IsConfig f c steps v = go c.psi refl
  where
    go :
        (o : Option Psi)
        → c.psi ≡ o
        → IsConfig (elim o [ none ↦ c | some psi ↦ take_psi (f psi) c ])
    go none e = v
    go (some psi) e =
        let linked = subst (λ (o : Option Psi). IsLinked o c.ca_pids) e v.linked in
        take_psi-IsConfig (f psi) c v.pid_list
          (subst (λ (pids : List ℕ). IsStep pids (f psi)) (sym linked.1) (steps psi linked.0))

reset-keeps : (psi : Psi) → IsPsi psi → IsStep psi.derived_pids (reset psi)
reset-keeps psi v = unfold perform in perform-IsStep reset_op psi v

joined-keeps :
    (pids : List ℕ) (psi : Psi) → IsPsi psi → IsStep psi.derived_pids (set_joined_pids pids psi)
joined-keeps pids psi v = unfold perform in perform-IsStep (joined_op pids) psi v

ts-keeps :
    (first now : ℕ) (buf : List ℕ) (psi : Psi)
    → IsPsi psi
    → IsStep psi.derived_pids (process_ts first now buf psi)
ts-keeps first now buf psi v = unfold perform in perform-IsStep (ts_op first now buf) psi v

pub receive_ts-IsConfig :
    (first now : ℕ) (buf : List ℕ) (c : Config) → IsConfig c → IsConfig (receive_ts first now buf c)
unfolding receive_ts
receive_ts-IsConfig first now buf c v =
    with_psi-IsConfig (process_ts first now buf) c (ts-keeps first now buf) v

pub update_pid_list-IsConfig :
    (new : List ℕ) (c : Config) → IsConfig c → IsConfig (update_pid_list new c)
unfolding update_pid_list notify_pid_list update_pid_status
update_pid_list-IsConfig new c v =
    let slots = update_slots new c.slots in
    with_psi-IsConfig (set_joined_pids (collect_active slots [])) _
      (joined-keeps (collect_active slots []))
      (record { pid_list = update_slots-IsPidList new c.slots v.pid_list; linked = v.linked })

module _ (k : FrontendHeader) where
  pub clear_property-IsConfig : (c : Config) → IsConfig c → IsConfig (clear_property k c)
  unfolding clear_property
  clear_property-IsConfig c v =
      with_psi-IsConfig reset _ reset-keeps
        (record { pid_list = clear_pid_list-IsPidList c.slots v.pid_list; linked = v.linked })

  pub init_config-IsConfig :
      (fe_type : FeType) (settings : Settings) → IsConfig (init_config k fe_type settings)
  unfolding init_config
  init_config-IsConfig fe_type settings =
      let start : IsConfig (blank fe_type settings) = record {
        pid_list = empty_slots-IsPidList;
        linked = tt;
      } in
      let c = clear_property k (blank fe_type settings) in
      let v = clear_property-IsConfig (blank fe_type settings) start in
      if-both IsConfig settings.ca_pids _ _
        (take_psi-IsConfig (init_psi settings.ca_emm settings.ca_caids) c v.pid_list
          (unfold clear_property with_psi in init_psi-IsStep settings.ca_emm settings.ca_caids))
        v
