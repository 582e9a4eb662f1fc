-- ===== src/Vtuner/Opening.antt =====
-- `AllocateVtuner` and `openVtuner` of vtuner.cpp: the search for a device, and the calls that make
-- a virtual tuner of it. The driver is a parameter: it answers a call of `ioctl` by what it was asked
-- before. The names of the header's constants are data types in place of their numbers.
pub mod Outcome
pub mod Interface
use satip_client.Base.{
  ℕ, ◌+◌, ◌-◌, ◌*◌, ◌/◌, Bool, true, false, ◌||◌, if◌then◌else◌, Option, none, some, List, [], ◌∷◌,
  ◌++◌,
}
use satip_client.Base.Text.{Text, codes}
use satip_client.Config.State.{FeType, sat, cable, terrestrial}

pub data FeKind : Type 0 where
  fe_qpsk fe_qam fe_ofdm : FeKind

-- The flags of `fe_caps_t`.
pub data Capability : Type 0 where
  inversion_auto can_fec_1_2 can_fec_2_3 can_fec_3_4 can_fec_4_5 can_fec_5_6 can_fec_7_8 :
      Capability
  can_fec_8_9 can_fec_auto can_qpsk can_qam_16 can_qam_32 can_qam_64 can_qam_128 : Capability
  can_qam_256 mode_auto guard_auto hierarchy_auto recover modulation_2g multistream : Capability

pub data DeliverySystem : Type 0 where
  dvb_s dvb_s2 dvb_c_annex_a dvb_t dvb_t2 : DeliverySystem

-- `struct dvb_frontend_info`
pub record FeInfo : Type 0 where
  pub name : Text
  pub kind : FeKind
  pub frequency_min : ℕ
  pub frequency_max : ℕ
  pub frequency_stepsize : ℕ
  pub frequency_tolerance : ℕ
  pub symbol_rate_min : ℕ
  pub symbol_rate_max : ℕ
  pub symbol_rate_tolerance : ℕ
  pub notifier_delay : ℕ
  pub caps : List Capability

-- What `openVtuner` tells the driver of a front end: `fe_info` and `fe_type_str`.
abbrev pub fe_info_of : FeType → FeInfo
fe_info_of sat = record {
  name = codes "SAT>IP DVB-S2 VTUNER";
  kind = fe_qpsk;
  frequency_min = 925000;
  frequency_max = 2175000;
  frequency_stepsize = 125000;
  frequency_tolerance = 0;
  symbol_rate_min = 1000000;
  symbol_rate_max = 45000000;
  symbol_rate_tolerance = 0;
  notifier_delay = 0;
  caps =
      inversion_auto ∷ can_fec_1_2 ∷ can_fec_2_3 ∷ can_fec_3_4 ∷ can_fec_4_5 ∷ can_fec_5_6
      ∷ can_fec_7_8 ∷ can_fec_8_9 ∷ can_qpsk ∷ recover ∷ modulation_2g ∷ multistream ∷ [];
}
fe_info_of cable = record {
  name = codes "SAT>IP DVB-C VTUNER";
  kind = fe_qam;
  frequency_min = 51000000;
  frequency_max = 858000000;
  frequency_stepsize = 62500;
  frequency_tolerance = 0;
  symbol_rate_min = 57840000 / 2 / 64;
  symbol_rate_max = 57840000 / 2 / 4;
  symbol_rate_tolerance = 0;
  notifier_delay = 0;
  caps =
      inversion_auto ∷ can_qam_16 ∷ can_qam_32 ∷ can_qam_64 ∷ can_qam_128 ∷ can_qam_256 ∷ recover
      ∷ can_fec_auto ∷ [];
}
fe_info_of terrestrial = record {
  name = codes "SAT>IP DVB-T VTUNER";
  kind = fe_ofdm;
  frequency_min = 0;
  frequency_max = 863250000;
  frequency_stepsize = 62500;
  frequency_tolerance = 0;
  symbol_rate_min = 0;
  symbol_rate_max = 0;
  symbol_rate_tolerance = 0;
  notifier_delay = 0;
  caps =
      inversion_auto ∷ can_fec_1_2 ∷ can_fec_2_3 ∷ can_fec_3_4 ∷ can_fec_5_6 ∷ can_fec_7_8
      ∷ can_fec_auto ∷ can_qam_16 ∷ can_qam_64 ∷ can_qpsk ∷ mode_auto ∷ guard_auto ∷ hierarchy_auto
      ∷ recover ∷ modulation_2g ∷ [];
}

abbrev pub fe_type_text : FeType → Text
fe_type_text sat = codes "DVB-S2"
fe_type_text cable = codes "DVB-C"
fe_type_text terrestrial = codes "DVB-T"

-- `fe_info.caps & FE_CAN_2G_MODULATION`
abbrev pub can_2g : List Capability → Bool
can_2g [] = false
can_2g (modulation_2g ∷ caps) = true
can_2g (_ ∷ caps) = can_2g caps

abbrev pub delivery_systems : FeType → List DeliverySystem
delivery_systems sat = dvb_s ∷ (if can_2g (fe_info_of sat).caps then dvb_s2 ∷ [] else [])
delivery_systems cable = dvb_c_annex_a ∷ []
delivery_systems terrestrial =
    dvb_t ∷ (if can_2g (fe_info_of terrestrial).caps then dvb_t2 ∷ [] else [])

-- A call of `ioctl` on the device: its number and what it passes.
pub data Payload : Type 0 where
  name_is type_is outputs_are : Text → Payload
  fe_info_is : FeInfo → Payload
  delsys_is : List DeliverySystem → Payload

pub record Call : Type 0 where
  pub number : ℕ
  pub payload : Payload

-- What `ioctl` returns: at least 0, or -1 with an `errno`.
pub data Answer : Type 0 where
  returned : ℕ → Answer
  einval enotty other_error : Answer

abbrev pub is_refused : Answer → Bool
is_refused (returned n) = false
is_refused _ = true

-- `errno == EINVAL || errno == ENOTTY`
abbrev pub is_unknown : Answer → Bool
is_unknown einval = true
is_unknown enotty = true
is_unknown _ = false

-- The answer to a call, from the calls before it, the last one first.
abbrev pub Driver : Type 0
Driver = List Call → Call → Answer

-- `m_ioctl_offset`
pub data Offset : Type 0 where
  no_offset minus_ten plus_ten : Offset

abbrev pub plus_offset : ℕ → Offset → ℕ
plus_offset n no_offset = n
plus_offset n minus_ten = n - 10
plus_offset n plus_ten = n + 10

-- How the program is built: with the numbers from 11 on or from 1 on, and for which version of DVB.
pub record Build : Type 0 where
  pub high_numbers : Bool
  pub has_delsys : Bool

-- The numbers of vtuner.h.
abbrev pub numbered : Build → ℕ → ℕ
numbered build n = if build.high_numbers then n + 10 else n

abbrev pub get_message : Build → ℕ
get_message build = numbered build 1

abbrev pub set_response : Build → ℕ
set_response build = numbered build 2

abbrev pub set_name : Build → ℕ
set_name build = numbered build 3

abbrev pub set_type : Build → ℕ
set_type build = numbered build 4

abbrev pub set_has_outputs : Build → ℕ
set_has_outputs build = numbered build 5

abbrev pub set_fe_info : Build → ℕ
set_fe_info build = numbered build 6

abbrev pub set_delsys : Build → ℕ
set_delsys build = numbered build 7

-- The members that `openVtuner` sets, the calls that the driver had, the last one first, and the file
-- descriptors that were closed.
pub record Opening : Type 0 where
  pub fd : Option ℕ
  pub offset : Offset
  pub calls : List Call
  pub closed_fds : List ℕ

-- `AllocateVtuner`: what `open` gives for the nodes vtuner0, vtuner1 and so on, up to the first that
-- `access` misses.
unfoldable pub allocate_vtuner : List (Option ℕ) → Option ℕ
allocate_vtuner [] = none
allocate_vtuner (none ∷ nodes) = allocate_vtuner nodes
allocate_vtuner (some fd ∷ nodes) = some fd

-- The label `error`.
unfoldable pub close_vtuner : Opening → Opening × Bool
close_vtuner o = elim o.fd [
  | none ↦ (o, false)
  | some fd ↦ (record o { fd = none; closed_fds = fd ∷ o.closed_fds }, false)
]

module _ (driver : Driver) (build : Build) where
  -- A call of `ioctl` with the number of this build and the offset.
  unfoldable pub ioctl : ℕ → Payload → Opening → Opening × Answer
  ioctl number payload o =
      let call : Call = record { number = plus_offset number o.offset; payload = payload } in
      (record o { calls = call ∷ o.calls }, driver o.calls call)

  -- `VTUNER_SET_DELSYS`, whose failure is a warning, and `VTUNER_SET_HAS_OUTPUTS`, whose failure is
  -- logged.
  unfoldable pub set_outputs : FeType → Opening → Opening × Bool
  unfolding ioctl
  set_outputs fe_type o =
      let systems : Opening =
        if build.has_delsys
        then (ioctl (set_delsys build) (delsys_is (delivery_systems fe_type)) o).0
        else o in
      ((ioctl (set_has_outputs build) (outputs_are (codes "no")) systems).0, true)

  unfoldable pub set_front_end : FeType → Opening → Opening × Bool
  unfolding ioctl set_outputs close_vtuner
  set_front_end fe_type o =
      let (typed, type_answer) = ioctl (set_type build) (type_is (fe_type_text fe_type)) o in
      let (told, info_answer) = ioctl (set_fe_info build) (fe_info_is (fe_info_of fe_type)) typed in
      if is_refused type_answer
      then close_vtuner typed
      else if is_refused info_answer
      then close_vtuner told
      else set_outputs fe_type told

  -- `VTUNER_SET_NAME`, and once more in the other interface if this one is unknown.
  unfoldable pub probe_name : FeType → Opening → Opening × Answer
  unfolding ioctl
  probe_name fe_type o =
      let named : Payload = name_is (fe_info_of fe_type).name in
      let (asked, answer) = ioctl (set_name build) named o in
      if is_unknown answer
      then ioctl (set_name build) named
          (record asked { offset = if build.high_numbers then minus_ten else plus_ten })
      else (asked, answer)

  -- `openVtuner` from the device that `AllocateVtuner` gives on. A front end that is none of the three
  -- is none.
  unfoldable pub open_found : Option ℕ → Option FeType → Opening → Opening × Bool
  unfolding close_vtuner probe_name set_front_end
  open_found none fe_type o = close_vtuner o
  open_found (some fd) none o = close_vtuner (record o { fd = some fd })
  open_found (some fd) (some t) o =
      let (probed, answer) = probe_name t (record o { fd = some fd }) in
      if is_refused answer then close_vtuner probed else set_front_end t probed

  -- `openVtuner`: whether it returns 0.
  unfoldable pub open_vtuner : List (Option ℕ) → Option FeType → Opening → Opening × Bool
  unfolding allocate_vtuner open_found
  open_vtuner nodes fe_type o = open_found (allocate_vtuner nodes) fe_type o

  -- The constructor: nothing is open, and `m_openok` says whether `openVtuner` returns 0.
  unfoldable pub open_new : List (Option ℕ) → Option FeType → Opening × Bool
  unfolding open_vtuner
  open_new nodes fe_type =
      open_vtuner nodes fe_type
        (record { fd = none; offset = no_offset; calls = []; closed_fds = [] })
