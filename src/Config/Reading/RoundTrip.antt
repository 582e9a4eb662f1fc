-- ===== src/Config/Reading/RoundTrip.antt =====
-- What a PLAY request prints is read as the pids that it is about.
use satip_client.Base.{
  ℕ, zero, suc, ◌+◌, ◌/◌, ◌%◌, ◌<◌, ◌≡◌, ◌≢◌, refl, Bool, true, false, not, ◌&&◌, ◌==◌,
  if◌then◌else◌, List, [], ◌∷◌, ◌++◌, All, All-append, Bool-cases, inl, inr, arith,
}
use satip_client.Base.Digits.{IsDigit, decimal-IsDigit}
use satip_client.Base.Text.{Text, codes, digits_before, decimal, join_rest, join_numbers}
use satip_client.Config.Request.{query, pids_text}
use satip_client.Config.Header.{FrontendHeader}
use satip_client.Config.State.{Config, get_pid_status}
use satip_client.Config.Request.{
  is_channel_changed, is_pid_changed, request_pids, play_diff, play_tuning, get_play_data,
}
use satip_client.Config.Reading.{
  cut, number_from, read_each, read_numbers, behind, find_numbers, read_parameter, read_play,
}

abbrev pub Lacks : ℕ → Text → Type 0
Lacks delim = All (λ c. c ≢ delim)

pub cut-Lacks : (delim : ℕ) (p : Text) → Lacks delim p → cut delim p ≡ p ∷ []
unfolding cut
cut-Lacks delim [] h = refl
cut-Lacks delim (c ∷ p) (hc, hp) = ground (arith, cut-Lacks delim p hp)

cut-append :
    (delim : ℕ) (p rest : Text) → Lacks delim p → cut delim (p ++ delim ∷ rest) ≡ p ∷ cut delim rest
unfolding cut
cut-append delim [] rest h = ground arith
cut-append delim (c ∷ p) rest (hc, hp) = ground (arith, cut-append delim p rest hp)

number_from-digits :
    (fuel n : ℕ) (rest : Text)
    → n < fuel
    → number_from 0 (digits_before fuel n rest) ≡ number_from n rest
unfolding digits_before number_from
number_from-digits zero n rest h = absurd (omega (arith, h))
number_from-digits (suc fuel) n rest h =
    ground (arith, number_from-digits fuel (n / 10) ((b'0' + n % 10) ∷ rest))

pub number_from-decimal : (n : ℕ) → number_from 0 (decimal n) ≡ n
unfolding decimal number_from
number_from-decimal n = number_from-digits (suc n) n [] (omega arith)

digits-All :
    (P : ℕ → Type 0) → ((c : ℕ) → IsDigit c → P c) → (text : Text) → All IsDigit text → All P text
digits-All P digit [] d = tt
digits-All P digit (c ∷ text) (dc, dt) = (digit c dc, digits-All P digit text dt)

decimal-Lacks : (delim n : ℕ) → delim < b'0' → Lacks delim (decimal n)
decimal-Lacks delim n h =
    digits-All (λ c. c ≢ delim) (λ c d e. omega (arith, h, d, e)) (decimal n) (decimal-IsDigit n)

-- What holds of digits and commas holds of joined numbers.
join_rest-All :
    (P : ℕ → Type 0) → ((c : ℕ) → IsDigit c → P c) → P b',' → (ns : List ℕ) → All P (join_rest ns)
unfolding join_rest
join_rest-All P digit comma [] = tt
join_rest-All P digit comma (n ∷ ns) = (
  comma,
  All-append P (decimal n) (join_rest ns) (digits-All P digit (decimal n) (decimal-IsDigit n))
      (join_rest-All P digit comma ns),
)

pub join_numbers-All :
    (P : ℕ → Type 0)
    → ((c : ℕ) → IsDigit c → P c)
    → P b','
    → (ns : List ℕ) → All P (join_numbers ns)
unfolding join_numbers
join_numbers-All P digit comma [] = tt
join_numbers-All P digit comma (n ∷ ns) =
    All-append P (decimal n) (join_rest ns) (digits-All P digit (decimal n) (decimal-IsDigit n))
      (join_rest-All P digit comma ns)

join_numbers-Lacks : (ns : List ℕ) → Lacks b'&' (join_numbers ns)
join_numbers-Lacks ns =
    join_numbers-All (λ c. c ≢ b'&') (λ c d e. omega (arith, d, e)) (λ e. omega (arith, e)) ns

cut-last : (delim : ℕ) (p : Text) → Lacks delim p → cut delim (p ++ []) ≡ p ∷ []
unfolding cut
cut-last delim [] h = refl
cut-last delim (c ∷ p) (hc, hp) = ground (arith, cut-last delim p hp)

read_each-joined : (n : ℕ) (ns : List ℕ) → read_each (cut b',' (decimal n ++ join_rest ns)) ≡ n ∷ ns
unfolding join_rest read_each
read_each-joined n [] =
    rw (cut-last b',' (decimal n) (decimal-Lacks b',' n (omega arith)), number_from-decimal n) refl
read_each-joined n (m ∷ ms) =
    rw
      (
        cut-append b',' (decimal n) (decimal m ++ join_rest ms)
            (decimal-Lacks b',' n (omega arith)),
        number_from-decimal n,
        read_each-joined m ms,
      )
      refl

-- What `joinNumbers` prints is read as the same numbers.
pub read_numbers-join_numbers :
    (n : ℕ) (ns : List ℕ) → read_numbers (join_numbers (n ∷ ns)) ≡ n ∷ ns
unfolding read_numbers join_numbers
read_numbers-join_numbers n ns = read_each-joined n ns

unfoldable pub lacks : ℕ → Text → Bool
lacks delim [] = true
lacks delim (c ∷ text) = not (c == delim) && lacks delim text

pub lacks-Lacks : (delim : ℕ) (text : Text) → lacks delim text ≡ true → Lacks delim text
unfolding lacks
lacks-Lacks delim [] h = tt
lacks-Lacks delim (c ∷ text) h = (ground (arith, h), lacks-Lacks delim text (ground (arith, h)))

pub parameter-Lacks :
    (name : Text) (ns : List ℕ) → lacks b'&' name ≡ true → Lacks b'&' (name ++ join_numbers ns)
parameter-Lacks name ns h =
    All-append (λ c. c ≢ b'&') name (join_numbers ns) (lacks-Lacks b'&' name h)
      (join_numbers-Lacks ns)

-- What a PLAY says of the pids is read as the same pids.
pub read_play-pids :
    (add del : List ℕ)
    → read_play (query (pids_text (codes "&addpids=") add ++ pids_text (codes "&delpids=") del))
      ≡ (add, del)
unfolding read_play read_parameter find_numbers behind query lacks
read_play-pids [] [] = unfold cut in refl
read_play-pids (a ∷ add) [] =
    rw
      (
        cut-last b'&' (codes "addpids=" ++ join_numbers (a ∷ add))
            (parameter-Lacks (codes "addpids=") (a ∷ add) refl),
        read_numbers-join_numbers a add,
      )
      refl
read_play-pids [] (d ∷ del) =
    rw
      (
        cut-Lacks b'&' (codes "delpids=" ++ join_numbers (d ∷ del))
            (parameter-Lacks (codes "delpids=") (d ∷ del) refl),
        read_numbers-join_numbers d del,
      )
      refl
read_play-pids (a ∷ add) (d ∷ del) =
    rw
      (
        cut-append b'&' (codes "addpids=" ++ join_numbers (a ∷ add))
            (codes "delpids=" ++ join_numbers (d ∷ del))
            (parameter-Lacks (codes "addpids=") (a ∷ add) refl),
        cut-Lacks b'&' (codes "delpids=" ++ join_numbers (d ∷ del))
            (parameter-Lacks (codes "delpids=") (d ∷ del) refl),
        read_numbers-join_numbers a add,
        read_numbers-join_numbers d del,
      )
      refl

module _ (k : FrontendHeader) where
  -- The PLAY of a tuned channel names the pids of the difference, and no pid if none is pending.
  pub read_play-get_play_data :
      (c : Config)
      → is_channel_changed c.status ≡ false
      → read_play (get_play_data k c).1 ≡ (
          if is_pid_changed (get_pid_status c)
          then play_diff (request_pids c) c.requested_pids
          else ([], []))
  unfolding get_play_data play_tuning
  read_play-get_play_data c h =
      let (add, del) = play_diff (request_pids c) c.requested_pids in
      elim (Bool-cases (is_pid_changed (get_pid_status c))) [
        | inl e ↦ rw (h, e) (read_play-pids add del)
        | inr e ↦ rw (h, e) (read_play-pids [] [])
      ]
