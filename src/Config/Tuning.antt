-- ===== src/Config/Tuning.antt =====
-- `getTuningData` of config.cpp and `pls_root2gold`: the tuning as the parameters of a request.
pub mod Gold
pub mod Frame
use Prim.Native.Nat.{bit_xor}
use satip_client.Base.{
  ℕ, zero, suc, ◌+◌, ◌-◌, ◌*◌, ◌/◌, ◌%◌, ◌^◌, ◌≡◌, Bool, true, false, ◌||◌, ◌&&◌, not, ltb, leb,
  ◌==◌, if◌then◌else◌, List, [], ◌∷◌, ◌++◌,
}
use satip_client.Base.Text.{Text, codes, decimal}
use satip_client.Config.Header.{FrontendHeader}
use satip_client.Config.State.{
  Config, FeType, sat, cable, terrestrial, Polarisation, horizontal, vertical,
}

-- One step of the shift register; `x` has 18 bits, so the `|` joins disjoint ones.
unfoldable pub gold_step : ℕ → ℕ
gold_step x = bit_xor x (x / 2 ^ 7) % 2 * 2 ^ 17 + x / 2

-- The loop, for the rounds that are left.
unfoldable pub gold_loop : ℕ → ℕ → ℕ → ℕ → ℕ
unfolding gold_step
gold_loop zero root g x = g
gold_loop (suc n) root g x = elim (root == x) [
  | true ↦ g
  | false ↦ gold_loop n root (suc g) (gold_step x)
]

unfoldable pub pls_root2gold : ℕ → ℕ
unfolding gold_loop
pls_root2gold root = gold_loop 0x3ffff root 0 1

-- `<<` of an `int` field that holds a bit pattern.
unfoldable pub signed_decimal : ℕ → Text
unfolding decimal
signed_decimal n = if ltb n (2 ^ 31) then decimal n else codes "-" ++ decimal (2 ^ 32 - n)

-- A `switch` that prints: the first case that fits, or nothing.
unfoldable pub select : ℕ → List (ℕ × Text) → Text → Text
select n [] other = other
select n ((m, text) ∷ cases) other = if n == m then text else select n cases other

-- `m_frequency / 10`, with one decimal place where there is one.
unfoldable pub freq_text : ℕ → Text
unfolding decimal
freq_text f =
    codes "&freq="
    ++ (decimal (f / 10) ++ (if not (f % 10 == 0) then codes "." ++ decimal (f % 10) else []))

abbrev pub pol_text : Polarisation → Text
pol_text horizontal = codes "&pol=h"
pol_text vertical = codes "&pol=v"

module _ (k : FrontendHeader) where
  -- The stream id and the scrambling code of DVB-S2. A stream id that does not fit a byte carries
  -- the code and its mode in the old format.
  unfoldable pub old_pls_code : ℕ → ℕ
  unfolding pls_root2gold
  old_pls_code plpid =
      let code = plpid / 2 ^ 8 % 2 ^ 18 in
      if plpid / 2 ^ 26 % 4 == 0 then pls_root2gold code else code

  -- `m_plpid > 0 && (unsigned int)m_plpid != NO_STREAM_ID_FILTER`
  abbrev pub has_isi : ℕ → Bool
  has_isi plpid = (ltb 0 plpid && ltb plpid (2 ^ 31)) && not (plpid == k.no_stream_id_filter)

  unfoldable pub isi_text : Config → Text
  unfolding old_pls_code decimal
  isi_text c =
      let pls_code =
        if has_isi c.plpid && ltb 255 c.plpid then old_pls_code c.plpid else c.pls_code in
      (if has_isi c.plpid then codes "&isi=" ++ decimal (c.plpid % 2 ^ 8) else [])
      ++ (if ltb 0 pls_code then codes "&plsc=" ++ decimal pls_code else [])

  unfoldable sat_fec_text : ℕ → Text
  unfolding select
  sat_fec_text fec =
      select fec
        ((k.fec_1_2, codes "&fec=12")
          ∷ (k.fec_2_3, codes "&fec=23")
          ∷ (k.fec_3_4, codes "&fec=34")
          ∷ (k.fec_5_6, codes "&fec=56")
          ∷ (k.fec_7_8, codes "&fec=78")
          ∷ (k.fec_8_9, codes "&fec=89")
          ∷ (k.fec_3_5, codes "&fec=35")
          ∷ (k.fec_4_5, codes "&fec=45")
          ∷ (k.fec_9_10, codes "&fec=910")
          ∷ [])
        []

  unfoldable sat_modulation_text : Config → Text
  unfolding select sat_fec_text signed_decimal
  sat_modulation_text c =
      select c.msys ((k.sys_dvbs, codes "&msys=dvbs") ∷ (k.sys_dvbs2, codes "&msys=dvbs2") ∷ [])
        (codes "&msys=dvbs")
      ++ (codes "&sr="
          ++ (signed_decimal c.symrate
              ++ (sat_fec_text c.fec
                  ++ (select c.rolloff
                        ((k.rolloff_35, codes "&ro=0.35")
                          ∷ (k.rolloff_20, codes "&ro=0.20")
                          ∷ (k.rolloff_25, codes "&ro=0.25")
                          ∷ [])
                        (codes "&ro=0.35")
                      ++ select c.mtype
                          ((k.qpsk, codes "&mtype=qpsk") ∷ (k.psk_8, codes "&mtype=8psk") ∷ [])
                          (codes "&mtype=qpsk")))))

  -- The pilots are set from the settings before they are printed.
  unfoldable pub sat_data : Config → Config × Text
  unfolding sat_modulation_text isi_text freq_text decimal
  sat_data c =
      let plts = c.settings.force_plts in
      (
        record c { pilot = if plts then k.pilot_on else k.pilot_off },
        codes "&src="
            ++ (decimal c.signal_source
                ++ (freq_text c.frequency
                    ++ (pol_text c.pol
                        ++ (sat_modulation_text c
                            ++ ((if plts then codes "&plts=on" else codes "&plts=off")
                                ++ (if c.msys == k.sys_dvbs2 then isi_text c else [])))))),
      )

  unfoldable pub cable_data : Config → Text
  unfolding select freq_text signed_decimal
  cable_data c =
      freq_text c.frequency
      ++ (codes "&msys=dvbc"
          ++ (select c.mtype
                ((k.qam_16, codes "&mtype=16qam")
                  ∷ (k.qam_32, codes "&mtype=32qam")
                  ∷ (k.qam_64, codes "&mtype=64qam")
                  ∷ (k.qam_128, codes "&mtype=128qam")
                  ∷ (k.qam_256, codes "&mtype=256qam")
                  ∷ [])
                []
              ++ (codes "&sr=" ++ signed_decimal c.symrate)))

  unfoldable terrestrial_channel_text : Config → Text
  unfolding select freq_text
  terrestrial_channel_text c =
      freq_text c.frequency
      ++ (select c.bandwidth
            ((5000000, codes "&bw=5")
              ∷ (6000000, codes "&bw=6")
              ∷ (7000000, codes "&bw=7")
              ∷ (8000000, codes "&bw=8")
              ∷ (10000000, codes "&bw=10")
              ∷ (1712000, codes "&bw=1.712")
              ∷ [])
            []
          ++ select c.msys
              ((k.sys_dvbt, codes "&msys=dvbt") ∷ (k.sys_dvbt2, codes "&msys=dvbt2") ∷ [])
              (codes "&msys=dvbt"))

  unfoldable terrestrial_mode_text : Config → Text
  unfolding select
  terrestrial_mode_text c =
      select c.transmode
        ((k.transmission_mode_2k, codes "&tmode=2k")
          ∷ (k.transmission_mode_8k, codes "&tmode=8k")
          ∷ (k.transmission_mode_4k, codes "&tmode=4k")
          ∷ (k.transmission_mode_1k, codes "&tmode=1k")
          ∷ (k.transmission_mode_16k, codes "&tmode=16k")
          ∷ (k.transmission_mode_32k, codes "&tmode=32k")
          ∷ [])
        []
      ++ (select c.mtype
            ((k.qpsk, codes "&mtype=qpsk")
              ∷ (k.qam_16, codes "&mtype=16qam")
              ∷ (k.qam_64, codes "&mtype=64qam")
              ∷ (k.qam_256, codes "&mtype=256qam")
              ∷ [])
            []
          ++ select c.guard_interval
              ((k.guard_interval_1_4, codes "&gi=14")
                ∷ (k.guard_interval_1_8, codes "&gi=18")
                ∷ (k.guard_interval_1_16, codes "&gi=116")
                ∷ (k.guard_interval_1_32, codes "&gi=132")
                ∷ (k.guard_interval_1_128, codes "&gi=1128")
                ∷ (k.guard_interval_19_128, codes "&gi=19128")
                ∷ (k.guard_interval_19_256, codes "&gi=19256")
                ∷ [])
              [])

  unfoldable pub terrestrial_data : Config → Text
  unfolding select terrestrial_channel_text terrestrial_mode_text signed_decimal
  terrestrial_data c =
      terrestrial_channel_text c
      ++ (terrestrial_mode_text c
          ++ (select c.fec
                ((k.fec_1_2, codes "&fec=12")
                  ∷ (k.fec_3_5, codes "&fec=35")
                  ∷ (k.fec_2_3, codes "&fec=23")
                  ∷ (k.fec_3_4, codes "&fec=34")
                  ∷ (k.fec_4_5, codes "&fec=45")
                  ∷ (k.fec_5_6, codes "&fec=56")
                  ∷ (k.fec_7_8, codes "&fec=78")
                  ∷ [])
                []
              ++ (if c.msys == k.sys_dvbt2 && not (c.plpid == k.no_stream_id_filter)
                  then codes "&plp=" ++ signed_decimal c.plpid
                  else [])))

  unfoldable fe_text : Config → Text
  unfolding decimal
  fe_text c =
      if ltb 0 c.settings.fe_number then codes "&fe=" ++ decimal c.settings.fe_number else []

  unfoldable frontend_data : FeType → Config → Config × Text
  unfolding sat_data cable_data terrestrial_data
  frontend_data sat c = sat_data c
  frontend_data cable c = (c, cable_data c)
  frontend_data terrestrial c = (c, terrestrial_data c)

  -- `getTuningData`
  unfoldable pub tuning_data : Config → Config × Text
  unfolding fe_text frontend_data
  tuning_data c = let (c', text) = frontend_data c.fe_type c in (c', fe_text c ++ text)
