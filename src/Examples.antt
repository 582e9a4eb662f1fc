-- ===== src/Examples.antt =====
-- The theorems at concrete inputs, and the constants of the kernel header that they use.
pub mod PidLists
pub mod Requests
pub mod Sections
pub mod Sessions
pub mod Timers
pub mod Signals
pub mod Tuners
pub mod Threads
pub mod Programs
pub mod Answers
pub mod Devices
pub mod Files
use satip_client.Base.{ℕ}
use satip_client.Config.Header.{FrontendHeader}

-- The values of the Linux header.
abbrev pub linux_dvb : FrontendHeader
linux_dvb = record {
  sys_undefined = 0;
  sys_dvbs = 5;
  sys_dvbs2 = 6;
  sys_dvbt = 3;
  sys_dvbt2 = 16;
  qpsk = 0;
  psk_8 = 9;
  qam_16 = 1;
  qam_32 = 2;
  qam_64 = 3;
  qam_128 = 4;
  qam_256 = 5;
  fec_1_2 = 1;
  fec_2_3 = 2;
  fec_3_4 = 3;
  fec_4_5 = 4;
  fec_5_6 = 5;
  fec_7_8 = 7;
  fec_8_9 = 8;
  fec_3_5 = 10;
  fec_9_10 = 11;
  fec_auto = 9;
  rolloff_35 = 0;
  rolloff_20 = 1;
  rolloff_25 = 2;
  rolloff_auto = 3;
  pilot_on = 0;
  pilot_off = 1;
  pilot_auto = 2;
  transmission_mode_2k = 0;
  transmission_mode_8k = 1;
  transmission_mode_4k = 3;
  transmission_mode_1k = 4;
  transmission_mode_16k = 5;
  transmission_mode_32k = 6;
  transmission_mode_auto = 2;
  guard_interval_1_4 = 3;
  guard_interval_1_8 = 2;
  guard_interval_1_16 = 1;
  guard_interval_1_32 = 0;
  guard_interval_1_128 = 5;
  guard_interval_19_128 = 6;
  guard_interval_19_256 = 7;
  guard_interval_auto = 4;
  sec_voltage_13 = 0;
  sec_voltage_18 = 1;
  no_stream_id_filter = 4294967295;
  sec_tone_on = 0;
  sec_tone_off = 1;
  sec_mini_a = 0;
  sec_mini_b = 1;
  fe_has_lock = 0x10;
  fe_timedout = 0x20;
  fe_has_signal = 0x01;
}
