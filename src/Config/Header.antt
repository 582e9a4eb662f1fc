-- ===== src/Config/Header.antt =====
-- The constants of <linux/dvb/frontend.h> that the program uses: not part of the repository, so a
-- parameter of the definitions that test them.
use satip_client.Base.{ℕ}

pub record FrontendHeader : Type 0 where
  pub sys_undefined : ℕ
  pub sys_dvbs : ℕ
  pub sys_dvbs2 : ℕ
  pub sys_dvbt : ℕ
  pub sys_dvbt2 : ℕ
  pub qpsk : ℕ
  pub psk_8 : ℕ
  pub qam_16 : ℕ
  pub qam_32 : ℕ
  pub qam_64 : ℕ
  pub qam_128 : ℕ
  pub qam_256 : ℕ
  pub fec_1_2 : ℕ
  pub fec_2_3 : ℕ
  pub fec_3_4 : ℕ
  pub fec_4_5 : ℕ
  pub fec_5_6 : ℕ
  pub fec_7_8 : ℕ
  pub fec_8_9 : ℕ
  pub fec_3_5 : ℕ
  pub fec_9_10 : ℕ
  pub fec_auto : ℕ
  pub rolloff_35 : ℕ
  pub rolloff_20 : ℕ
  pub rolloff_25 : ℕ
  pub rolloff_auto : ℕ
  pub pilot_on : ℕ
  pub pilot_off : ℕ
  pub pilot_auto : ℕ
  pub transmission_mode_2k : ℕ
  pub transmission_mode_8k : ℕ
  pub transmission_mode_4k : ℕ
  pub transmission_mode_1k : ℕ
  pub transmission_mode_16k : ℕ
  pub transmission_mode_32k : ℕ
  pub transmission_mode_auto : ℕ
  pub guard_interval_1_4 : ℕ
  pub guard_interval_1_8 : ℕ
  pub guard_interval_1_16 : ℕ
  pub guard_interval_1_32 : ℕ
  pub guard_interval_1_128 : ℕ
  pub guard_interval_19_128 : ℕ
  pub guard_interval_19_256 : ℕ
  pub guard_interval_auto : ℕ
  pub sec_voltage_13 : ℕ
  pub sec_voltage_18 : ℕ
  pub no_stream_id_filter : ℕ
  pub sec_tone_on : ℕ
  pub sec_tone_off : ℕ
  pub sec_mini_a : ℕ
  pub sec_mini_b : ℕ
  pub fe_has_lock : ℕ
  pub fe_timedout : ℕ
  pub fe_has_signal : ℕ
