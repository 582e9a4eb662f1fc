-- ===== src/Vtuner/Messages.antt =====
-- What the messages of the kernel keep, and the time after which it hears of a missing signal.
use satip_client.Base.{
  ℕ, ◌+◌, ◌/◌, ◌%◌, ◌<◌, ◌≡◌, ◌↔◌, Bool, true, false, ◌&&◌, if-both, List, arith, leb, ◌==◌,
}
use satip_client.Psi.Bytes.{byte_at}
use satip_client.Timer.{Timespec, after_msec}
use satip_client.Timer.Deadline.{total, IsTimespec, after_msec-total}
use satip_client.Rtp.Signal.{IsSignal, unset-IsSignal}
use satip_client.Config.Header.{FrontendHeader}
use satip_client.Config.State.{Config, set_voltage, set_channel_changed}
use satip_client.Config.Link.{IsConfig, clear_property-IsConfig, update_pid_list-IsConfig}
use satip_client.Vtuner.{
  DtvCommand, DtvProperty, Vtuner, apply_command, set_property, committed_switch, set_diseqc,
  set_pid_list, is_past, Message, vtuner_event, dtv_inner_fec, dtv_clear, dtv_hierarchy,
  dtv_inversion, dtv_other, msg_set_frontend, msg_set_property, msg_get_tune_settings,
  msg_set_voltage, msg_send_diseqc_burst, msg_pidlist, msg_send_diseqc_msg,
}

-- The tuner's difference of times is the order of the times.
is_past_iff :
    (timeout now : Timespec)
    → IsTimespec timeout
    → IsTimespec now
    → (is_past timeout now ≡ true) ↔ (total timeout < total now)
unfolding is_past
is_past_iff timeout now v w = ground arith

-- A tuner that was asked for its settings at `start` reports no timeout until three seconds have
-- passed, and reports it from then on: the time that it keeps is past exactly if more than 3000
-- milliseconds lie between the two readings of the clock.
timeout_after_settings :
    (k : FrontendHeader) (old_mode : Bool) (start now : Timespec) (v : Vtuner)
    → IsTimespec start
    → IsTimespec now
    → (is_past (vtuner_event k old_mode start msg_get_tune_settings v).0.timeout now ≡ true)
      ↔ (total start + 3000000000 < total now)
unfolding vtuner_event
timeout_after_settings k old_mode start now v a b =
    let (valid, sum) = after_msec-total start 3000 a in
    ground (arith, is_past_iff (after_msec start 3000) now valid b)

set_voltage-IsConfig :
    (k : FrontendHeader) (voltage : ℕ) (c : Config)
    → IsConfig c
    → IsConfig (set_voltage k voltage c)
unfolding set_voltage
set_voltage-IsConfig k voltage c v =
    if-both IsConfig (voltage == k.sec_voltage_13) _ _
      (record { pid_list = v.pid_list; linked = v.linked })
      (if-both IsConfig (voltage == k.sec_voltage_18) _ _
        (record { pid_list = v.pid_list; linked = v.linked })
        (record { pid_list = v.pid_list; linked = v.linked }))

module _ (k : FrontendHeader) where
  apply_command-IsConfig :
      (cmd : DtvCommand) (tone value : ℕ) (c : Config)
      → IsConfig c
      → IsConfig (apply_command k cmd tone value c)
  unfolding apply_command set_channel_changed
  apply_command-IsConfig dtv_clear tone value c v = clear_property-IsConfig k c v
  apply_command-IsConfig dtv_inner_fec tone value c v =
      if-both IsConfig (leb (value % 32) k.fec_9_10) _ _
        (record { pid_list = v.pid_list; linked = v.linked }) v
  apply_command-IsConfig dtv_hierarchy tone value c v = v
  apply_command-IsConfig dtv_inversion tone value c v = v
  apply_command-IsConfig dtv_other tone value c v = v
  apply_command-IsConfig _ tone value c v = record { pid_list = v.pid_list; linked = v.linked }

  set_property-IsConfig :
      (prop : DtvProperty) (v : Vtuner)
      → IsConfig v.config
      → IsConfig (set_property k prop v).config
  unfolding set_property
  set_property-IsConfig prop v c = apply_command-IsConfig prop.cmd v.tone prop.value v.config c

  committed_switch-IsConfig :
      (byte : ℕ) (v : Vtuner) → IsConfig v.config → IsConfig (committed_switch k byte v).config
  unfolding committed_switch
  committed_switch-IsConfig byte v c =
      let kept =
        if-both IsConfig (byte / 2 % 2 == 1) _ _
          (set_voltage-IsConfig k k.sec_voltage_18 v.config c)
          (if-both IsConfig (byte / 32 % 2 == 1) _ _
            (set_voltage-IsConfig k k.sec_voltage_13 v.config c) c) in
      record { pid_list = kept.pid_list; linked = kept.linked }

  set_diseqc-IsConfig :
      (msg : List ℕ) (msg_len : ℕ) (v : Vtuner)
      → IsConfig v.config
      → IsConfig (set_diseqc k msg msg_len v).config
  unfolding set_diseqc
  set_diseqc-IsConfig msg msg_len v c =
      if-both (λ (w : Vtuner). IsConfig w.config)
        ((byte_at msg 0 == 0xe0 && byte_at msg 1 == 0x10)
          && (byte_at msg 2 == 0x38 && msg_len == 4))
        _ _ (committed_switch-IsConfig (byte_at msg 3) v c)
        (if-both (λ (w : Vtuner). IsConfig w.config)
          ((byte_at msg 0 == 0xe0 && byte_at msg 1 == 0x10)
            && (byte_at msg 2 == 0x39 && msg_len == 4))
          _ _ (record { pid_list = c.pid_list; linked = c.linked }) c)

  -- No message of the kernel breaks the configuration: its pid list stays well formed, its parser
  -- valid, and its CA pids those that the parser derived.
  pub vtuner_event-IsConfig :
      (old_mode : Bool) (now : Timespec) (msg : Message) (v : Vtuner)
      → IsConfig v.config
      → IsConfig (vtuner_event k old_mode now msg v).0.config
  unfolding vtuner_event set_pid_list
  vtuner_event-IsConfig true now (msg_set_frontend prop) v c = set_property-IsConfig prop v c
  vtuner_event-IsConfig false now (msg_set_frontend prop) v c = c
  vtuner_event-IsConfig old_mode now (msg_set_property prop) v c = set_property-IsConfig prop v c
  vtuner_event-IsConfig old_mode now (msg_set_voltage voltage) v c =
      set_voltage-IsConfig k voltage v.config c
  vtuner_event-IsConfig old_mode now (msg_send_diseqc_burst burst) v c =
      if-both IsConfig (burst == k.sec_mini_a) _ _
        (record { pid_list = c.pid_list; linked = c.linked })
        (if-both IsConfig (burst == k.sec_mini_b) _ _
          (record { pid_list = c.pid_list; linked = c.linked }) c)
  vtuner_event-IsConfig old_mode now (msg_pidlist pid_list) v c =
      update_pid_list-IsConfig pid_list v.config c
  vtuner_event-IsConfig old_mode now (msg_send_diseqc_msg msg msg_len) v c =
      set_diseqc-IsConfig msg msg_len v c
  vtuner_event-IsConfig old_mode now _ v c = c

  pub vtuner_event-IsSignal :
      (old_mode : Bool) (now : Timespec) (msg : Message) (v : Vtuner)
      → IsSignal v.rtp
      → IsSignal (vtuner_event k old_mode now msg v).0.rtp
  unfolding vtuner_event set_pid_list set_property set_diseqc committed_switch
  vtuner_event-IsSignal true now (msg_set_frontend prop) v h = h
  vtuner_event-IsSignal false now (msg_set_frontend prop) v h = h
  vtuner_event-IsSignal old_mode now msg_get_tune_settings v h = unset-IsSignal v.rtp
  vtuner_event-IsSignal old_mode now (msg_send_diseqc_msg msg msg_len) v h =
      if-both (λ (w : Vtuner). IsSignal w.rtp)
        ((byte_at msg 0 == 0xe0 && byte_at msg 1 == 0x10)
          && (byte_at msg 2 == 0x38 && msg_len == 4))
        _ _ h
        (if-both (λ (w : Vtuner). IsSignal w.rtp)
          ((byte_at msg 0 == 0xe0 && byte_at msg 1 == 0x10)
            && (byte_at msg 2 == 0x39 && msg_len == 4))
          _ _ h h)
  vtuner_event-IsSignal old_mode now _ v h = h
