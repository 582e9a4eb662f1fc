-- ===== src/Config/Setters.antt =====
-- The setters of config.h. An `int` argument is given as its bit pattern.
use satip_client.Base.{ℕ}
use satip_client.Config.State.{Config}

abbrev pub set_position : ℕ → Config → Config
set_position pos c = record c { signal_source = pos }

abbrev pub set_frequency : ℕ → Config → Config
set_frequency freq c = record c { frequency = freq }

abbrev pub set_modsys : ℕ → Config → Config
set_modsys system c = record c { msys = system }

abbrev pub set_modtype : ℕ → Config → Config
set_modtype modulation c = record c { mtype = modulation }

abbrev pub set_symrate : ℕ → Config → Config
set_symrate symrate c = record c { symrate = symrate }

abbrev pub set_fec : ℕ → Config → Config
set_fec fec c = record c { fec = fec }

abbrev pub set_rolloff : ℕ → Config → Config
set_rolloff rolloff c = record c { rolloff = rolloff }

abbrev pub set_pilots : ℕ → Config → Config
set_pilots pilots c = record c { pilot = pilots }

abbrev pub set_transmode : ℕ → Config → Config
set_transmode transmode c = record c { transmode = transmode }

abbrev pub set_guard_interval : ℕ → Config → Config
set_guard_interval gi c = record c { guard_interval = gi }

abbrev pub set_bandwidth : ℕ → Config → Config
set_bandwidth bandwidth c = record c { bandwidth = bandwidth }

abbrev pub set_plp : ℕ → Config → Config
set_plp plpid c = record c { plpid = plpid }

abbrev pub set_pls_code : ℕ → Config → Config
set_pls_code pls_code c = record c { pls_code = pls_code }
