-- ===== src/Vtuner/Diseqc.antt =====
-- The committed switch: what a command of the DiSEqC specification selects.
use satip_client.Base.{ℕ, ◌+◌, ◌*◌, ◌<◌, ◌≡◌, ◌≢◌, Bool, true, false, if◌then◌else◌, [], ◌∷◌, arith}
use satip_client.Config.Header.{FrontendHeader}
use satip_client.Config.State.{horizontal, vertical, set_voltage}
use satip_client.Vtuner.{Vtuner, set_diseqc, committed_switch}

-- The command byte of the committed switch: all four bits are given.
abbrev pub switch_byte : ℕ → Bool → Bool → ℕ
switch_byte position horizontal_on high =
    240 + 4 * position + (if horizontal_on then 2 else 0) + (if high then 1 else 0)

-- A command of four bytes to the committed switch that gives all four bits, for one of the four
-- positions, a polarisation and a band, sets the tone of the band, the voltage of the polarisation
-- with the LNB on, and that position, counted from 1, if the voltages of the header differ.
pub set_diseqc-committed :
    (k : FrontendHeader) (position : ℕ) (horizontal_on high : Bool) (v : Vtuner)
    → position < 4
    → k.sec_voltage_18 ≢ k.sec_voltage_13
    → let w =
        set_diseqc k (0xe0 ∷ 0x10 ∷ 0x38 ∷ switch_byte position horizontal_on high ∷ []) 4 v in
      (w.tone ≡ (if high then k.sec_tone_on else k.sec_tone_off))
      × (w.config.pol ≡ (if horizontal_on then horizontal else vertical))
      × (w.config.lnb_on ≡ true)
      × (w.config.signal_source ≡ position + 1)
unfolding set_diseqc committed_switch set_voltage
set_diseqc-committed k position true true v p d =
    (ground arith, ground arith, ground arith, ground arith)
set_diseqc-committed k position true false v p d =
    (ground arith, ground arith, ground arith, ground arith)
set_diseqc-committed k position false true v p d =
    (ground arith, ground arith, ground arith, ground arith)
set_diseqc-committed k position false false v p d =
    (ground arith, ground arith, ground arith, ground arith)
