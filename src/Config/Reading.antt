-- ===== src/Config/Reading.antt =====
-- A server's reading of a request: the parameters behind the question mark, and their pids. It is
-- no code of the program, but what the program's texts are to mean.
pub mod RoundTrip
pub mod Setup
use satip_client.Base.{
  ℕ, zero, suc, ◌+◌, ◌-◌, ◌*◌, ◌/◌, ◌%◌, ◌<◌, ◌≤◌, ◌≡◌, ◌≢◌, refl, ap, ◌∙◌, Bool, true, false, not,
  ◌&&◌, ◌==◌, if◌then◌else◌, Option, none, some, List, [], ◌∷◌, ◌++◌, All, Bool-cases, inl, inr,
  arith, drop,
}
use satip_client.Base.Text.{Text, codes, digits_before, decimal, join_rest, join_numbers}
use satip_client.Config.Request.{query, pids_text}

-- The parts of a text between the delimiters.
abbrev pub put_before : ℕ → List Text → List Text
put_before c [] = (c ∷ []) ∷ []
put_before c (part ∷ parts) = (c ∷ part) ∷ parts

unfoldable pub cut : ℕ → Text → List Text
cut delim [] = [] ∷ []
cut delim (c ∷ text) = if c == delim then [] ∷ cut delim text else put_before c (cut delim text)

unfoldable pub number_from : ℕ → Text → ℕ
number_from n [] = n
number_from n (c ∷ text) = number_from (n * 10 + (c - b'0')) text

unfoldable pub read_each : List Text → List ℕ
unfolding number_from
read_each [] = []
read_each (part ∷ parts) = number_from 0 part ∷ read_each parts

unfoldable pub read_numbers : Text → List ℕ
unfolding cut read_each
read_numbers text = read_each (cut b',' text)

-- What follows a text that starts with the name.
unfoldable pub behind : Text → Text → Option Text
behind [] text = some text
behind (c ∷ name) [] = none
behind (c ∷ name) (b ∷ text) = if c == b then behind name text else none

-- The numbers of the first parameter of a name, or none.
unfoldable pub find_numbers : Text → List Text → List ℕ
unfolding behind read_numbers
find_numbers name [] = []
find_numbers name (part ∷ parts) = elim (behind name part) [
  | none ↦ find_numbers name parts
  | some value ↦ read_numbers value
]

unfoldable pub read_parameter : Text → Text → List ℕ
unfolding find_numbers cut
read_parameter name text = find_numbers name (cut b'&' (drop 1 text))

-- The `addpids` and the `delpids` of a PLAY.
unfoldable pub read_play : Text → List ℕ × List ℕ
unfolding read_parameter
read_play text = (read_parameter (codes "addpids=") text, read_parameter (codes "delpids=") text)

-- The value of the last parameter of a name.
unfoldable pub last_value : Text → List Text → Option Text
unfolding behind
last_value name [] = none
last_value name (part ∷ parts) = elim (last_value name parts) [
  | none ↦ behind name part
  | some value ↦ some value
]

-- The pids of a value: `none`, or numbers.
unfoldable pub read_pids : Text → List ℕ
unfolding behind read_numbers
read_pids value = elim (behind (codes "none") value) [ none ↦ read_numbers value | some rest ↦ [] ]

-- The `pids` of a SETUP.
unfoldable pub read_setup : Text → List ℕ
unfolding last_value cut read_pids
read_setup text = elim (last_value (codes "pids=") (cut b'&' (drop 1 text))) [
  | none ↦ []
  | some value ↦ read_pids value
]
