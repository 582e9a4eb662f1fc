-- ===== src/Vtuner.antt =====
-- vtuner.cpp and vtuner.h: the messages of the kernel's virtual tuner. The commands and the messages
-- are data types in place of their numbers; the opening of a tuner is in Opening.
pub mod Opening
pub mod Properties
pub mod Diseqc
pub mod Messages
use Prim.Native.Nat.{bit_or}
use satip_client.Base.{
  ℕ, ◌+◌, ◌-◌, ◌*◌, ◌/◌, ◌%◌, ◌^◌, ◌≤◌, Bool, true, false, ◌&&◌, ◌||◌, not, ltb, leb, ◌==◌,
  if◌then◌else◌, Option, none, some, List, [], ◌∷◌,
}
use satip_client.Psi.Bytes.{byte_at}
use satip_client.Timer.{Timespec, after_msec}
use satip_client.Rtp.{Rtp, unset}
use satip_client.Config.Header.{FrontendHeader}
use satip_client.Config.State.{
  Config, FeType, sat, cable, terrestrial, set_channel_changed, clear_property, set_voltage,
  update_pid_list,
}
use satip_client.Config.Setters.{
  set_position, set_frequency, set_modsys, set_modtype, set_symrate, set_fec, set_rolloff,
  set_pilots, set_transmode, set_guard_interval, set_bandwidth, set_plp, set_pls_code,
}

-- The commands that `setProperty` tells apart.
pub data DtvCommand : Type 0 where
  dtv_frequency dtv_delivery_system dtv_modulation dtv_symbol_rate dtv_inner_fec : DtvCommand
  dtv_rolloff dtv_pilot dtv_tune dtv_clear dtv_code_rate_lp dtv_code_rate_hp : DtvCommand
  dtv_transmission_mode dtv_guard_interval dtv_hierarchy dtv_bandwidth_hz : DtvCommand
  dtv_stream_id dtv_inversion dtv_scrambling_sequence_index dtv_other : DtvCommand

-- `struct dtv_property`, its command and the 32 bits of its `data`
pub record DtvProperty : Type 0 where
  pub cmd : DtvCommand
  pub value : ℕ

-- `satipVtuner`, with the configuration and the RTP part that it points to. The constructor sets
-- neither `tune_tries` nor `timeout`.
pub record Vtuner : Type 0 where
  pub tone : ℕ
  pub tune_tries : ℕ
  pub timeout : Timespec
  pub config : Config
  pub rtp : Rtp

-- The frequency in units of 100 kHz: of the satellite, from the band's oscillator on.
unfoldable pub tuned_frequency : FeType → Bool → ℕ → ℕ
tuned_frequency sat high value = (value / 100 + (if high then 106000 else 97500)) % 2 ^ 32
tuned_frequency cable high value = value / 100000
tuned_frequency terrestrial high value = value / 100000

module _ (k : FrontendHeader) where
  -- `setProperty`
  unfoldable pub apply_command : DtvCommand → ℕ → ℕ → Config → Config
  unfolding tuned_frequency set_channel_changed clear_property
  apply_command dtv_frequency tone value c =
      set_frequency (tuned_frequency c.fe_type (tone == k.sec_tone_on) value) c
  apply_command dtv_delivery_system tone value c = set_modsys value c
  apply_command dtv_modulation tone value c = set_modtype value c
  apply_command dtv_symbol_rate tone value c = set_symrate (value / 1000) c
  apply_command dtv_inner_fec tone value c =
      if leb (value % 32) k.fec_9_10 then set_fec (value % 32) c else c
  apply_command dtv_rolloff tone value c = set_rolloff value c
  apply_command dtv_pilot tone value c = set_pilots value c
  apply_command dtv_tune tone value c = set_channel_changed c
  apply_command dtv_clear tone value c = clear_property k c
  apply_command dtv_code_rate_lp tone value c = set_fec k.fec_auto c
  apply_command dtv_code_rate_hp tone value c = set_fec k.fec_auto c
  apply_command dtv_transmission_mode tone value c = set_transmode value c
  apply_command dtv_guard_interval tone value c = set_guard_interval value c
  apply_command dtv_hierarchy tone value c = c
  apply_command dtv_bandwidth_hz tone value c = set_bandwidth value c
  apply_command dtv_stream_id tone value c = set_plp value c
  apply_command dtv_inversion tone value c = c
  apply_command dtv_scrambling_sequence_index tone value c = set_pls_code value c
  apply_command dtv_other tone value c = c

  unfoldable pub set_property : DtvProperty → Vtuner → Vtuner
  unfolding apply_command
  set_property prop v = record v { config = apply_command prop.cmd v.tone prop.value v.config }

  -- The committed switch of `setDiseqc`: band, polarisation and position.
  unfoldable pub committed_switch : ℕ → Vtuner → Vtuner
  unfolding set_voltage
  committed_switch byte v =
      let tone =
        if byte % 2 == 1
        then k.sec_tone_on
        else if byte / 16 % 2 == 1
        then k.sec_tone_off
        else v.tone in
      let config : Config =
        if byte / 2 % 2 == 1
        then set_voltage k k.sec_voltage_18 v.config
        else if byte / 32 % 2 == 1
        then set_voltage k k.sec_voltage_13 v.config
        else v.config in
      record v { tone = tone; config = set_position (byte / 4 % 4 + 1) config }

  -- `setDiseqc`, with the six bytes of the command and its length
  unfoldable pub set_diseqc : List ℕ → ℕ → Vtuner → Vtuner
  unfolding committed_switch
  set_diseqc msg msg_len v =
      if (byte_at msg 0 == 0xe0 && byte_at msg 1 == 0x10) && (byte_at msg 2 == 0x38 && msg_len == 4)
      then committed_switch (byte_at msg 3) v
      else if (byte_at msg 0 == 0xe0 && byte_at msg 1 == 0x10)
          && (byte_at msg 2 == 0x39 && msg_len == 4)
      then record v { config = set_position (byte_at msg 3 % 16 + 1) v.config }
      else v

-- `setPidList`
unfoldable pub set_pid_list : List ℕ → Vtuner → Vtuner
unfolding update_pid_list
set_pid_list pid_list v = record v { config = update_pid_list pid_list v.config }

-- `timeout_msec(timeout) < 0`: the difference of the times, with its borrow, in milliseconds
unfoldable pub is_past : Timespec → Timespec → Bool
is_past timeout now =
    let borrow = if ltb timeout.nsec now.nsec then 1 else 0 in
    let nsec = timeout.nsec + borrow * 1000000000 - now.nsec in
    ltb (timeout.sec * 1000 + nsec / 1000000) ((now.sec + borrow) * 1000)

-- The value of `MSG_READ_SNR`; the product of the two 16-bit values is an `int`, which is undefined
-- when it overflows.
unfoldable pub read_snr : Rtp → Option ℕ
read_snr rtp =
    let product = rtp.signal_strength % 2 ^ 16 * (rtp.signal_quality % 2 ^ 16) in
    if ltb product (2 ^ 31) then some (product / 65535) else none

-- The messages that `vtunerEvent` tells apart, with what it reads of their bodies.
pub data Message : Type 0 where
  msg_set_frontend msg_set_property : DtvProperty → Message
  msg_get_frontend msg_read_status msg_read_ber msg_read_signal_strength msg_read_snr : Message
  msg_read_ucblocks msg_get_property msg_get_tune_settings msg_unknown : Message
  msg_set_tone msg_set_voltage msg_send_diseqc_burst : ℕ → Message
  msg_pidlist : List ℕ → Message
  msg_send_diseqc_msg : List ℕ → ℕ → Message

-- What the response holds: one of the values that the kernel asked for, or what the message held.
-- `undefined_value` is a value that C does not define.
pub data Response : Type 0 where
  no_response as_received undefined_value : Response
  status_is ber_is strength_is snr_is ucblocks_is : ℕ → Response
  tune_settings : ℕ → ℕ → ℕ → Response

module _ (k : FrontendHeader) where
  -- `MSG_READ_STATUS`
  unfoldable pub read_status : Timespec → Vtuner → ℕ
  unfolding is_past
  read_status now v =
      if v.rtp.has_lock
      then k.fe_has_lock
      else bit_or (if is_past v.timeout now then k.fe_timedout else 0)
          (if v.tune_tries / 4 % 2 == 1 then k.fe_has_signal else 0)

  unfoldable pub snr_response : Option ℕ → Response
  snr_response none = undefined_value
  snr_response (some n) = snr_is n

  -- `vtunerEvent`, for a message that was read at `now`; `old_mode` is the build's `HAVE_NO_MSG16`.
  unfoldable pub vtuner_event : Bool → Timespec → Message → Vtuner → Vtuner × Response
  unfolding set_property set_diseqc set_pid_list read_status read_snr snr_response set_voltage unset
      after_msec
  vtuner_event old_mode now (msg_set_frontend prop) v =
      let set : Vtuner = if old_mode then set_property k prop v else v in
      (record set { tune_tries = (v.tune_tries + 1) % 2 ^ 32 }, as_received)
  vtuner_event old_mode now (msg_set_property prop) v = (set_property k prop v, as_received)
  vtuner_event old_mode now msg_get_frontend v = (v, as_received)
  vtuner_event old_mode now msg_read_status v = (v, status_is (read_status now v))
  vtuner_event old_mode now msg_read_ber v = (v, ber_is 0)
  vtuner_event old_mode now msg_read_signal_strength v =
      (v, strength_is (v.rtp.signal_strength % 2 ^ 16))
  vtuner_event old_mode now msg_read_snr v = (v, snr_response (read_snr v.rtp))
  vtuner_event old_mode now msg_read_ucblocks v = (v, ucblocks_is 0)
  vtuner_event old_mode now msg_get_property v = (v, as_received)
  vtuner_event old_mode now msg_get_tune_settings v = (
    record v { rtp = unset v.rtp; tune_tries = 0; timeout = after_msec now 3000 },
    tune_settings 50 0 0,
  )
  vtuner_event old_mode now msg_unknown v = (v, as_received)
  vtuner_event old_mode now (msg_set_tone tone) v = (record v { tone = tone }, as_received)
  vtuner_event old_mode now (msg_set_voltage voltage) v =
      (record v { config = set_voltage k voltage v.config }, as_received)
  vtuner_event old_mode now (msg_send_diseqc_burst burst) v =
      let config : Config =
        if burst == k.sec_mini_a
        then set_position 1 v.config
        else if burst == k.sec_mini_b
        then set_position 2 v.config
        else v.config in
      (record v { config = config }, as_received)
  vtuner_event old_mode now (msg_pidlist pid_list) v = (set_pid_list pid_list v, no_response)
  vtuner_event old_mode now (msg_send_diseqc_msg msg msg_len) v =
      (set_diseqc k msg msg_len v, as_received)
