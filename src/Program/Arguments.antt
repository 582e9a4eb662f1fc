-- ===== src/Program/Arguments.antt =====
-- The command line of main.cpp: the options that `getopt` gives, one after the other. `atoi` and
-- `fopen` are arguments.
use satip_client.Base.{
  ℕ, ◌-◌, ◌%◌, ◌^◌, ◌≡◌, refl, sym, ap, ◌∙◌, true, Option, none, some, List, [], ◌∷◌, ◌++◌, ◌>>=◌,
  >>=-eq-some,
}
use mathlib.Core.List.{append-nil, append_assoc}
use satip_client.Base.Int.{ℤ, pos, negsuc}
use satip_client.Base.Text.{Text}
use satip_client.Program.Log.{Log}

-- An option with its argument; `flag_other` is one that `getopt` does not know.
pub data Flag : Type 0 where
  flag_m flag_l flag_f : Text → Flag
  flag_y flag_h flag_other : Flag

-- The options of the log, `log_file`, and the files that were closed.
pub record Arguments : Type 0 where
  pub log : Log
  pub log_file : Option ℕ
  pub closed_files : List ℕ

-- An `int` as `unsigned int`
abbrev pub to_unsigned : ℤ → ℕ
to_unsigned (pos n) = n % 2 ^ 32
to_unsigned (negsuc n) = 2 ^ 32 - 1 - n % 2 ^ 32

abbrev pub held_file : Option ℕ → List ℕ
held_file none = []
held_file (some file) = file ∷ []

abbrev pub with_file : Arguments → ℕ → Arguments
with_file a file = record {
  log = record a.log { has_file = true };
  log_file = some file;
  closed_files = a.closed_files ++ held_file a.log_file;
}

module _ (atoi : Text → ℤ) (fopen : Text → Option ℕ) where
  -- `case 'f'`: a file that does not open ends the program.
  unfoldable pub log_to : Text → Arguments → Option Arguments
  log_to name a = fopen name >>= λ file. some (with_file a file)

  -- The `switch`; none is `exit(1)`.
  unfoldable pub read_flag : Flag → Arguments → Option Arguments
  unfolding log_to
  read_flag (flag_m text) a =
      some (record a { log = record a.log { dbg_mask = to_unsigned (atoi text) } })
  read_flag (flag_l text) a = some (record a { log = record a.log { dbg_level = atoi text } })
  read_flag flag_y a = some (record a { log = record a.log { use_syslog = true } })
  read_flag (flag_f name) a = log_to name a
  read_flag flag_h a = none
  read_flag flag_other a = none

  unfoldable pub read_flags : List Flag → Arguments → Option Arguments
  unfolding read_flag
  read_flags [] a = some a
  read_flags (flag ∷ flags) a = read_flag flag a >>= λ next. read_flags flags next

  -- The files that the options open.
  unfoldable opened_by : Flag → List ℕ
  opened_by (flag_f name) = held_file (fopen name)
  opened_by _ = []

  unfoldable opened_files : List Flag → List ℕ
  unfolding opened_by
  opened_files [] = []
  opened_files (flag ∷ flags) = opened_by flag ++ opened_files flags

  -- The files that were opened, in order: those that were closed, and the log file.
  abbrev files_of : Arguments → List ℕ
  files_of a = a.closed_files ++ held_file a.log_file

  same_files : {a b : Arguments} → some a ≡ some b → files_of b ≡ files_of a ++ []
  same_files {a} {b} h = let e : a ≡ b = cc h in sym (ap files_of e) ∙ sym (append-nil (files_of a))

  log_to-files :
      (name : Text) (file : Option ℕ) (a b : Arguments)
      → fopen name ≡ file
      → log_to name a ≡ some b
      → files_of b ≡ files_of a ++ held_file file
  unfolding log_to
  log_to-files name file a b e h =
      let (n, opened, same) = >>=-eq-some (fopen name) (λ file. some (with_file a file)) h in
      let f : file ≡ some n = sym e ∙ opened in
      let g : with_file a n ≡ b = cc same in rw f (sym (ap files_of g))

  read_flag-files :
      (flag : Flag) (a b : Arguments)
      → read_flag flag a ≡ some b
      → files_of b ≡ files_of a ++ opened_by flag
  unfolding read_flag opened_by
  read_flag-files (flag_m text) a b h = same_files h
  read_flag-files (flag_l text) a b h = same_files h
  read_flag-files flag_y a b h = same_files h
  read_flag-files (flag_f name) a b h = log_to-files name (fopen name) a b refl h
  read_flag-files flag_h a b h = absurd (cc)
  read_flag-files flag_other a b h = absurd (cc)

  -- If the options do not end the program, it keeps the file that they open last for the log, and has
  -- closed every other one.
  read_flags-files :
      (flags : List Flag) (a b : Arguments)
      → read_flags flags a ≡ some b
      → files_of b ≡ files_of a ++ opened_files flags
  unfolding read_flags opened_files
  read_flags-files [] a b h = same_files h
  read_flags-files (flag ∷ flags) a b h =
      let (mid, first, rest) = >>=-eq-some (read_flag flag a) (λ next. read_flags flags next) h in
      read_flags-files flags mid b rest
      ∙ ap (λ (l : List ℕ). l ++ opened_files flags) (read_flag-files flag a mid first)
      ∙ append_assoc (files_of a) (opened_by flag) (opened_files flags)
