-- ===== src/Config/State.antt =====
-- The state of `satipConfig` and the operations on it that build no request. `m_ca_lock` guards
-- `m_ca_pids` and `m_ca_dirty` in each operation whole, so each is one step.
use satip_client.Base.{
  ℕ, suc, ◌+◌, ◌%◌, ◌^◌, Bool, true, false, not, ◌==◌, if◌then◌else◌, Option, none, some, List, [],
  ◌∷◌,
}
use satip_client.Base.Sets.{set_eq}
use satip_client.Config.Header.{FrontendHeader}
use satip_client.Config.PidList.{
  Slot, empty_slots, clear_pid_list, update_slots, pid_changed, collect_active,
}
use satip_client.Psi.State.{Psi, Reports}
use satip_client.Psi.Recompute.{init_psi, reset, set_joined_pids}
use satip_client.Psi.Stream.{process_ts}

-- `t_channel_status`
pub data ChannelStatus : Type 0 where
  channel_invalid channel_changed channel_stable : ChannelStatus

-- `t_pid_status`
pub data PidListStatus : Type 0 where
  pid_stationary pid_list_changed : PidListStatus

-- `t_type_pol`
pub data Polarisation : Type 0 where
  horizontal vertical : Polarisation

-- `m_fe_type`; the source takes any other number for a terrestrial frontend here.
pub data FeType : Type 0 where
  sat cable terrestrial : FeType

-- What the configuration reads of `vtunerOpt`. Of `m_fe_number` only positive values are used.
pub record Settings : Type 0 where
  pub tcpdata : Bool
  pub fe_number : ℕ
  pub force_plts : Bool
  pub ca_pids : Bool
  pub ca_emm : Bool
  pub ca_caids : List ℕ

-- 32-bit fields hold their bit pattern. A wakeup descriptor of -1 is `has_wakeup = false`;
-- `wakeups` counts the bytes written to it.
pub record Config : Type 0 where
  pub fe_type : FeType
  pub settings : Settings
  pub signal_source : ℕ
  pub frequency : ℕ
  pub pol : Polarisation
  pub rolloff : ℕ
  pub msys : ℕ
  pub mtype : ℕ
  pub pilot : ℕ
  pub symrate : ℕ
  pub fec : ℕ
  pub transmode : ℕ
  pub guard_interval : ℕ
  pub bandwidth : ℕ
  pub plpid : ℕ
  pub pls_code : ℕ
  pub status : ChannelStatus
  pub pid_status : PidListStatus
  pub tune_generation : ℕ  -- unsigned long
  pub lnb_on : Bool
  pub slots : List Slot
  pub requested_pids : List ℕ
  pub psi : Option Psi
  pub ca_pids : List ℕ
  pub ca_dirty : Bool
  pub has_wakeup : Bool
  pub wakeups : ℕ

-- `wakeup`
unfoldable pub wakeup : Config → Config
wakeup c = if c.has_wakeup then record c { wakeups = suc c.wakeups } else c

-- `setCaPids`
unfoldable pub set_ca_pids : List ℕ → Config → Config
unfolding set_eq wakeup
set_ca_pids pids c =
    if not (set_eq pids c.ca_pids) then wakeup (record c { ca_pids = pids; ca_dirty = true }) else c

-- The calls of `setCaPids` that an operation of the parser makes.
unfoldable pub apply_reports : Reports → Config → Config
unfolding set_ca_pids
apply_reports [] c = c
apply_reports (r ∷ rs) c = apply_reports rs (set_ca_pids r c)

-- The parser after one of its operations, and its reports.
unfoldable pub take_psi : Psi × Reports → Config → Config
unfolding apply_reports
take_psi (psi, reports) c = apply_reports reports (record c { psi = some psi })

-- `if (m_psi) m_psi->...`
unfoldable pub with_psi : (Psi → Psi × Reports) → Config → Config
unfolding take_psi
with_psi f c = elim c.psi [ none ↦ c | some psi ↦ take_psi (f psi) c ]

-- `updatePidStatus`
unfoldable pub update_pid_status : Config → Config
unfolding pid_changed
update_pid_status c = record c {
  pid_status = if pid_changed c.slots then pid_list_changed else pid_stationary;
}

-- `notifyPidList`
unfoldable pub notify_pid_list : Config → Config
unfolding with_psi set_joined_pids collect_active
notify_pid_list c = with_psi (set_joined_pids (collect_active c.slots [])) c

-- `updatePidList`
unfoldable pub update_pid_list : List ℕ → Config → Config
unfolding update_slots update_pid_status notify_pid_list
update_pid_list new c =
    notify_pid_list (update_pid_status (record c { slots = update_slots new c.slots }))

-- `getPidStatus`
unfoldable pub get_pid_status : Config → PidListStatus
get_pid_status c = elim c.pid_status [
  | pid_list_changed ↦ pid_list_changed
  | pid_stationary ↦ if c.ca_dirty then pid_list_changed else pid_stationary
]

-- `setChannelChanged`, `setChannelRetry`, `clearChannelChanged`
unfoldable pub set_channel_changed : Config → Config
set_channel_changed c = record c {
  tune_generation = (c.tune_generation + 1) % 2 ^ 64;
  status = channel_changed;
}

unfoldable pub set_channel_retry : Config → Config
set_channel_retry c = record c { status = channel_changed }

abbrev pub cleared : ChannelStatus → ChannelStatus
cleared channel_changed = channel_stable
cleared channel_invalid = channel_invalid
cleared channel_stable = channel_stable

unfoldable pub clear_channel_changed : Config → Config
clear_channel_changed c = record c { status = cleared c.status }

-- The call of `processTS` by the RTP thread (or by the session thread, over TCP).
unfoldable pub receive_ts : ℕ → ℕ → List ℕ → Config → Config
unfolding with_psi process_ts
receive_ts first now buf c = with_psi (process_ts first now buf) c

-- The members before the body of the constructor runs, `clearProperty` included for those it sets.
abbrev pub blank : FeType → Settings → Config
blank fe_type settings = record {
  fe_type = fe_type;
  settings = settings;
  signal_source = 1;
  frequency = 0;
  pol = horizontal;
  rolloff = 0;
  msys = 0;
  mtype = 0;
  pilot = 0;
  symrate = 0;
  fec = 0;
  transmode = 0;
  guard_interval = 0;
  bandwidth = 0;
  plpid = 0;
  pls_code = 0;
  status = channel_invalid;
  pid_status = pid_stationary;
  tune_generation = 0;
  lnb_on = false;
  slots = empty_slots;
  requested_pids = [];
  psi = none;
  ca_pids = [];
  ca_dirty = false;
  has_wakeup = false;
  wakeups = 0;
}

module _ (k : FrontendHeader) where
  -- `clearProperty`: the members that it sets, then the parser.
  abbrev pub clear_members : Config → Config
  clear_members c = record c {
    frequency = 0;
    symrate = 0;
    msys = k.sys_undefined;
    mtype = k.qpsk;
    fec = k.fec_auto;
    rolloff = k.rolloff_auto;
    pilot = k.pilot_auto;
    transmode = k.transmission_mode_auto;
    guard_interval = k.guard_interval_auto;
    bandwidth = 0;
    plpid = 0;
    pls_code = 0;
    slots = clear_pid_list c.slots;
    requested_pids = [];
  }

  unfoldable pub clear_property : Config → Config
  unfolding with_psi reset clear_pid_list
  clear_property c = with_psi reset (clear_members c)

  -- `setVoltage`
  unfoldable pub set_voltage : ℕ → Config → Config
  set_voltage voltage c =
      if voltage == k.sec_voltage_13
      then record c { lnb_on = true; pol = vertical }
      else if voltage == k.sec_voltage_18
      then record c { lnb_on = true; pol = horizontal }
      else record c { lnb_on = false; status = channel_invalid }

  -- The constructor.
  unfoldable pub init_config : FeType → Settings → Config
  unfolding clear_property take_psi init_psi
  init_config fe_type settings =
      let c = clear_property (blank fe_type settings) in
      if settings.ca_pids then take_psi (init_psi settings.ca_emm settings.ca_caids) c else c
