-- ===== src/Examples/Tuners.antt =====
-- The theorems on the tuner's messages, at a new tuner.
use satip_client.Base.{◌+◌, ◌≡◌, true, false, List, [], ◌∷◌, arith, ◌≢◌}
use satip_client.Config.State.{horizontal}
use satip_client.Timer.{Timespec}
use satip_client.Vtuner.{
  Vtuner, DtvProperty, dtv_clear, dtv_frequency, dtv_symbol_rate, dtv_tune, set_diseqc,
}
use satip_client.Vtuner.Properties.{TunedBy, tune_count, set_all, set_all-counts_tunes}
use satip_client.Vtuner.Diseqc.{switch_byte, set_diseqc-committed}
use satip_client.Examples.{linux_dvb}
use satip_client.Examples.Requests.{tuned}

abbrev pub tuner : Vtuner
tuner = record {
  tone = 1;
  tune_tries = 0;
  timeout = record { sec = 0; nsec = 0 };
  config = record tuned { tune_generation = 6 };
  rtp = record { has_lock = false; signal_strength = 0; signal_quality = 0 };
}

abbrev started : Timespec
started = record { sec = 10; nsec = 500000000 }

abbrev pub asked : Timespec
asked = record { sec = 13; nsec = 500000001 }

abbrev satellite : List DtvProperty
satellite =
    record { cmd = dtv_clear; value = 0 }
    ∷ record { cmd = dtv_frequency; value = 1938000 }
    ∷ record { cmd = dtv_symbol_rate; value = 22000000 }
    ∷ record { cmd = dtv_tune; value = 0 }
    ∷ []

set_all-counts_tunes_example :
    TunedBy (tune_count satellite) tuner.config (set_all linux_dvb satellite tuner).config
set_all-counts_tunes_example = set_all-counts_tunes linux_dvb satellite tuner (omega arith)

voltages_differ : linux_dvb.sec_voltage_18 ≢ linux_dvb.sec_voltage_13
voltages_differ h = omega arith

set_diseqc-committed_example :
    let w = set_diseqc linux_dvb (0xe0 ∷ 0x10 ∷ 0x38 ∷ switch_byte 2 true true ∷ []) 4 tuner in
    (w.tone ≡ 0)
    × (w.config.pol ≡ horizontal)
    × (w.config.lnb_on ≡ true)
    × (w.config.signal_source ≡ 2 + 1)
set_diseqc-committed_example =
    set_diseqc-committed linux_dvb 2 true true tuner (omega arith) voltages_differ
