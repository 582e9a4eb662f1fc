-- ===== src/Options.antt =====
-- option.cpp, option.h and manager.cpp: the configuration file, and the sessions started from it.
-- `atoi` and `strtol` are parameters, and the file's text is an argument.
pub mod Lines
pub mod Valid
pub mod Starts
pub mod Fields
pub mod Keys
use satip_client.Base.{
  ℕ, ◌≡◌, Bool, true, false, ◌&&◌, ◌||◌, not, leb, ltb, ◌==◌, if◌then◌else◌, Option, none, some,
  List, [], ◌∷◌, ◌++◌,
}
use satip_client.Base.Text.{Text, codes}
use satip_client.Base.Sets.{insert}
use satip_client.Base.Int.{ℤ, pos, negsuc}

-- What the C library makes of a number's text: `atoi`, and `strtol` with base 16.
pub record NumberReaders : Type 0 where
  pub atoi : Text → ℤ
  pub strtol16 : Text → ℤ

-- `vtunerOpt`; a front end of `none` is -1.
pub record VtunerOpt : Type 0 where
  pub vtuner_type : Text
  pub ipaddr : Text
  pub tcpdata : Bool
  pub fe_type : Option ℕ
  pub fe_number : ℤ
  pub force_plts : Bool
  pub port : Text
  pub ca_pids : Bool
  pub ca_emm : Bool
  pub ca_caids : List ℕ

-- The constructor.
abbrev pub new_opt : VtunerOpt
new_opt = record {
  vtuner_type = [];
  ipaddr = [];
  tcpdata = false;
  fe_type = none;
  fe_number = pos 0;
  force_plts = false;
  port = [];
  ca_pids = false;
  ca_emm = true;
  ca_caids = [];
}

unfoldable pub text_eq : Text → Text → Bool
text_eq [] [] = true
text_eq [] (_ ∷ _) = false
text_eq (_ ∷ _) [] = false
text_eq (a ∷ s) (b ∷ t) = a == b && text_eq s t

abbrev pub is_no_text : Text → Bool
is_no_text [] = true
is_no_text (_ ∷ _) = false

-- `isAvailable`
unfoldable pub is_available : VtunerOpt → Bool
unfolding text_eq
is_available o =
    text_eq o.vtuner_type (codes "satip_client")
    && ((elim o.fe_type [ none ↦ false | some _ ↦ true ]) && not (is_no_text o.ipaddr))

-- `split`, from the item read so far on: `getline` gives no empty item at the end.
unfoldable pub split_from : ℕ → Text → Text → List Text
split_from delim item [] = if is_no_text item then [] else item ∷ []
split_from delim item (c ∷ rest) =
    if c == delim then item ∷ split_from delim [] rest else split_from delim (item ++ c ∷ []) rest

unfoldable pub split : ℕ → Text → List Text
unfolding split_from
split delim line = split_from delim [] line

-- `tuner_type_table[..]`: a name that is not in the table is added with the value 0.
unfoldable pub tuner_type_of : Text → ℕ
unfolding text_eq
tuner_type_of name =
    if text_eq name (codes "DVB-S")
    then 0
    else if text_eq name (codes "DVB-C")
    then 1
    else if text_eq name (codes "DVB-T")
    then 2
    else 0

abbrev pub caid_of : ℤ → Option ℕ
caid_of (pos n) = if ltb 0 n && leb n 65535 then some n else none
caid_of (negsuc n) = none

module _ (readers : NumberReaders) where
  -- The loop over the texts of `ca_caids`
  unfoldable pub add_caids : List Text → List ℕ → List ℕ
  unfolding insert
  add_caids [] caids = caids
  add_caids (t ∷ ts) caids = add_caids ts (
      if is_no_text t
      then caids
      else elim (caid_of (readers.strtol16 t)) [ none ↦ caids | some caid ↦ insert caid caids ])

  -- The chain of tests on the name of an attribute.
  unfoldable pub set_attr : Text → Text → VtunerOpt → VtunerOpt
  unfolding text_eq tuner_type_of add_caids split
  set_attr name value o =
      if text_eq name (codes "vtuner_type")
      then record o { vtuner_type = value }
      else if text_eq name (codes "ipaddr")
      then record o { ipaddr = value }
      else if text_eq name (codes "tcpdata") && text_eq value (codes "1")
      then record o { tcpdata = true }
      else if text_eq name (codes "tuner_type")
      then record o { fe_type = some (tuner_type_of value) }
      else if text_eq name (codes "force_plts") && text_eq value (codes "1")
      then record o { force_plts = true }
      else if text_eq name (codes "fe")
      then record o { fe_number = readers.atoi value }
      else if text_eq name (codes "port")
      then record o { port = value }
      else if text_eq name (codes "ca_pids")
      then record o { ca_pids = text_eq value (codes "1") }
      else if text_eq name (codes "ca_emm")
      then record o { ca_emm = text_eq value (codes "1") }
      else if text_eq name (codes "ca_caids")
      then record o { ca_caids = add_caids (split b';' value) o.ca_caids }
      else o

  -- An attribute with fewer than two parts is skipped; what follows the second is not read.
  unfoldable pub set_parts : List Text → VtunerOpt → VtunerOpt
  unfolding set_attr
  set_parts [] o = o
  set_parts (name ∷ []) o = o
  set_parts (name ∷ value ∷ _) o = set_attr name value o

  -- The loop over the attributes of a line.
  unfoldable pub set_items : List Text → VtunerOpt → VtunerOpt
  unfolding set_parts split
  set_items [] o = o
  set_items (item ∷ items) o = set_items items (set_parts (split b':' item) o)

-- `std::map<int, vtunerOpt>`, by its keys
abbrev pub Settings : Type 0
Settings = List (ℤ × VtunerOpt)

abbrev pub is_less : ℤ → ℤ → Bool
is_less (pos m) (pos n) = ltb m n
is_less (pos m) (negsuc n) = false
is_less (negsuc m) (pos n) = true
is_less (negsuc m) (negsuc n) = ltb n m

-- The setting at a key, made if it is not there.
unfoldable pub change_at : ℤ → (VtunerOpt → VtunerOpt) → Settings → Settings
change_at key f [] = (key, f new_opt) ∷ []
change_at key f ((k, o) ∷ m) =
    let rest = change_at key f m in
    if is_less key k
    then (key, f new_opt) ∷ (k, o) ∷ m
    else if is_less k key
    then (k, o) ∷ rest
    else (key, f o) ∷ m

module _ (readers : NumberReaders) where
  unfoldable pub load_parts : List Text → Settings → Settings
  unfolding change_at set_items split
  load_parts (index ∷ items ∷ []) m =
      change_at (readers.atoi index) (set_items readers (split b',' items)) m
  load_parts _ m = m

  -- One round of the loop of `load`
  unfoldable pub load_line : Text → Settings → Settings
  unfolding load_parts split
  load_line line m = load_parts (split b'=' line) m

  unfoldable pub load_lines : List Text → Settings → Settings
  unfolding load_line
  load_lines [] m = m
  load_lines (line ∷ lines) m = load_lines lines (load_line line m)

  -- `load`; the lines end at a code of 10. Without the file there are no settings.
  unfoldable pub load : Option Text → Settings
  unfolding load_lines split
  load none = []
  load (some text) = load_lines (split 10 text) []

-- What `satipSessionCreate` gives to a session: host, port, front end and settings.
pub record SessionStart : Type 0 where
  pub host : Text
  pub port : Text
  pub fe_type : Option ℕ
  pub settings : VtunerOpt

-- `satipSessionCreate`; whether the session's parts could be opened is the answer of `ok`.
unfoldable pub session_start : VtunerOpt → SessionStart
session_start o = record {
  host = o.ipaddr;
  port = if is_no_text o.port then codes "554" else o.port;
  fe_type = o.fe_type;
  settings = o;
}

unfoldable pub start_all : (SessionStart → Bool) → Settings → List SessionStart
unfolding is_available session_start
start_all ok [] = []
start_all ok ((k, o) ∷ m) =
    let rest = start_all ok m in
    if is_available o && ok (session_start o) then session_start o ∷ rest else rest

-- `satipStart`; `none` is -1
unfoldable pub satip_start : (SessionStart → Bool) → Settings → Option (List SessionStart)
unfolding start_all
satip_start ok [] = none
satip_start ok (s ∷ m) = some (start_all ok (s ∷ m))
