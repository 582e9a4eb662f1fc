-- ===== src/Examples/Files.antt =====
-- The theorems on the configuration file, at a file of one line.
use satip_client.Base.{[], ◌∷◌, ◌≢◌, ◌≡◌, refl, true, none, some, List, arith, All}
use satip_client.Base.Text.{Text, codes}
use satip_client.Base.Int.{ℤ, pos}
use satip_client.Base.Maps.{or_default}
use satip_client.Options.{
  NumberReaders, VtunerOpt, new_opt, change_at, load_line, load, SessionStart, satip_start,
  start_all, load_lines, load_parts, split, split_from,
}
use satip_client.Options.Lines.{IsAttr, show_line}
use satip_client.Options.Fields.{IsSetTo}
use satip_client.Options.Keys.{find_opt, load_line_sets}
use satip_client.Options.Valid.{IsSettings, load-IsSettings}
use satip_client.Options.Starts.{IsStart, satip_start-IsStart}

-- Readers that see a zero in every text.
abbrev readers : NumberReaders
readers = record { atoi = λ text. pos 0; strtol16 = λ text. pos 0x1833 }

abbrev client : Text × Text
client = (codes "vtuner_type", codes "satip_client")

abbrev host : Text × Text
host = (codes "ipaddr", codes "1.2.3.4")

client-IsAttr : IsAttr client
client-IsAttr = record {
  name_colon = omega arith;
  name_comma = omega arith;
  name_equals = omega arith;
  value_colon = omega arith;
  value_comma = omega arith;
  value_equals = omega arith;
  value_there = λ e. cc;
}

host-IsAttr : IsAttr host
host-IsAttr = record {
  name_colon = omega arith;
  name_comma = omega arith;
  name_equals = omega arith;
  value_colon = omega arith;
  value_comma = omega arith;
  value_equals = omega arith;
  value_there = λ e. cc;
}

abbrev file : Text
file = codes "0=vtuner_type:satip_client,ipaddr:1.2.3.4,tuner_type:DVB-C"

load-IsSettings_example : IsSettings none (load readers (some file))
load-IsSettings_example = load-IsSettings readers (some file)

abbrev starts : List SessionStart
starts = start_all (λ s. true) (load readers (some file))

satip_start-file : satip_start (λ s. true) (load readers (some file)) ≡ some starts
unfolding satip_start load load_lines load_line load_parts split split_from change_at
satip_start-file = refl

satip_start-IsStart_example : All IsStart starts
satip_start-IsStart_example =
    satip_start-IsStart readers (λ s. true) (some file) starts satip_start-file

-- A second line for the same index.
load_line_sets_example :
    let m = load readers (some file) in
    let m' = load_line readers (show_line (codes "0") (host ∷ client ∷ [])) m in
    ((o : VtunerOpt) × (find_opt (pos 0) m' ≡ some o)
      × IsSetTo readers (host ∷ client ∷ []) (or_default new_opt (find_opt (pos 0) m)) o)
    × ((other : ℤ) → other ≢ pos 0 → find_opt other m' ≡ find_opt other m)
load_line_sets_example =
    load_line_sets readers (codes "0") host (client ∷ []) (load readers (some file)) (omega arith)
      (host-IsAttr, (client-IsAttr, tt)) (load-IsSettings readers (some file))
