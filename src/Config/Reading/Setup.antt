-- ===== src/Config/Reading/Setup.antt =====
-- What a SETUP request prints is read as the pids that it is about, whatever tuning stands before.
use satip_client.Base.{
  ℕ, ◌≡◌, ◌≢◌, refl, ap, ◌∙◌, ◌==◌, none, some, List, [], ◌∷◌, ◌++◌, All, Bool-cases, inl, inr,
  arith, drop,
}
use satip_client.Base.Text.{Text, codes, join_numbers}
use satip_client.Config.Request.{query, setup_pids_text, request_pids, setup_tuning, get_setup_data}
use satip_client.Config.Request.Laws.{
  IsCommitted, after_tuning, setup_tuning_frame, get_setup_data_commits,
}
use satip_client.Config.Header.{FrontendHeader}
use satip_client.Config.State.{Config}
use satip_client.Config.Reading.{put_before, cut, behind, last_value, read_pids, read_setup}
use satip_client.Config.Reading.RoundTrip.{
  Lacks, lacks, lacks-Lacks, cut-Lacks, join_numbers-All, parameter-Lacks,
  read_numbers-join_numbers,
}

-- Of the parts, one behind the first has the value, and is the last that has the name.
abbrev EndsWith : Text → Text → List Text → Type 0
EndsWith name value parts =
    (first : Text) × (rest : List Text) × (parts ≡ first ∷ rest)
    × (last_value name rest ≡ some value)

last_value-EndsWith :
    (name value : Text) (parts : List Text)
    → EndsWith name value parts
    → last_value name parts ≡ some value
unfolding last_value
last_value-EndsWith name value parts (first, rest, e, v) = rw (e, v) refl

put_before-EndsWith :
    (name value : Text) (c : ℕ) (parts : List Text)
    → EndsWith name value parts
    → EndsWith name value (put_before c parts)
put_before-EndsWith name value c parts (first, rest, e, v) = (c ∷ first, rest, rw e refl, v)

cut-EndsWith :
    (name value text last : Text)
    → Lacks b'&' last
    → behind name last ≡ some value
    → EndsWith name value (cut b'&' (text ++ b'&' ∷ last))
unfolding cut last_value
cut-EndsWith name value [] last h e = ([], last ∷ [], rw (cut-Lacks b'&' last h) refl, rw e refl)
cut-EndsWith name value (c ∷ text) last h e =
    let parts = cut b'&' (text ++ b'&' ∷ last) in
    let ends = cut-EndsWith name value text last h e in
    elim (Bool-cases (c == b'&')) [
      | inl same ↦ rw same ([], parts, refl, last_value-EndsWith name value parts ends)
      | inr other ↦ rw other (put_before-EndsWith name value c parts ends)
    ]

-- The last parameter of a query is found behind any text.
last_value-query :
    (name value text last : Text)
    → Lacks b'&' last
    → behind name last ≡ some value
    → last_value name (cut b'&' (drop 1 (query (text ++ b'&' ∷ last)))) ≡ some value
unfolding query
last_value-query name value [] last h e = unfold last_value in rw (cut-Lacks b'&' last h, e) refl
last_value-query name value (c ∷ text) last h e = elim (Bool-cases (c == b'&')) [
  | inl same ↦ rw same (last_value-EndsWith name value _ (cut-EndsWith name value text last h e))
  | inr other ↦
      rw other (last_value-EndsWith name value _ (cut-EndsWith name value (c ∷ text) last h e))
]

behind-none : (text : Text) → All (λ c. c ≢ b'n') text → behind (codes "none") text ≡ none
unfolding behind
behind-none [] h = refl
behind-none (c ∷ text) (hc, ht) = ground (arith, hc)

read_setup-last_value :
    (text value : Text)
    → last_value (codes "pids=") (cut b'&' (drop 1 text)) ≡ some value
    → read_setup text ≡ read_pids value
unfolding read_setup
read_setup-last_value text value e = rw (e, read_setup) refl

-- The pids of a SETUP are read whatever its tuning is.
read_setup-query :
    (tuning : Text) (pids : List ℕ) → read_setup (query (tuning ++ setup_pids_text pids)) ≡ pids
unfolding lacks read_pids
read_setup-query tuning [] =
    read_setup-last_value _ (codes "none") (
      last_value-query (codes "pids=") (codes "none") tuning (codes "pids=none")
        (lacks-Lacks b'&' (codes "pids=none") refl) (unfold behind in refl))
    ∙ (unfold read_pids behind in refl)
read_setup-query tuning (p ∷ pids) =
    let numbers = join_numbers (p ∷ pids) in
    let no_n : All (λ c. c ≢ b'n') numbers =
      join_numbers-All (λ c. c ≢ b'n') (λ c d e. omega (arith, d, e)) (λ e. omega (arith, e))
        (p ∷ pids) in
    let read : read_pids numbers ≡ p ∷ pids =
      rw (behind-none numbers no_n, read_pids) (read_numbers-join_numbers p pids) in
    read_setup-last_value _ numbers (
      last_value-query (codes "pids=") numbers tuning (codes "pids=" ++ numbers)
        (parameter-Lacks (codes "pids=") (p ∷ pids) refl) (unfold behind in refl))
    ∙ read

module _ (k : FrontendHeader) where
  pub read_setup-get_setup_data :
      (c : Config) → read_setup (get_setup_data k c).1 ≡ request_pids (setup_tuning k c).0
  unfolding get_setup_data
  read_setup-get_setup_data c =
      let (start, tuning) = setup_tuning k c in read_setup-query tuning (request_pids start)

  setup_tuning-pids : (c : Config) → request_pids (setup_tuning k c).0 ≡ request_pids c
  setup_tuning-pids c = ap request_pids (setup_tuning_frame k c) ∙ (unfold request_pids in refl)

  -- The text of a SETUP request names exactly the kernel's active pids and the parser's pids, as read
  -- by a server that takes the numbers of its last parameter `pids`, whatever tuning stands before it.
  -- The same pids become the requested ones and stay wanted, nothing is left pending, and a new
  -- channel is taken for tuned.
  pub setup_names_wanted :
      (c : Config)
      → let (c', text) = get_setup_data k c in
        (read_setup text ≡ request_pids c) × IsCommitted c c' × (c'.status ≡ after_tuning c.status)
  setup_names_wanted c =
      let (committed, status) = get_setup_data_commits k c in
      (read_setup-get_setup_data c ∙ setup_tuning-pids c, committed, status)
