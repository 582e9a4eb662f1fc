-- ===== src/Rtsp/Heard.antt =====
-- The answer to a SETUP in the form that rtsp.cpp shows, and what the searches find in it.
pub mod Playing
use satip_client.Base.{
  ℕ, suc, ◌+◌, ◌-◌, ◌^◌, ◌≤◌, ◌<◌, ◌≡◌, ◌≢◌, refl, sym, ap, ◌∙◌, subst, Bool, true, false, ◌&&◌,
  ◌||◌, ltb, leb, ◌==◌, if◌then◌else◌, Option, none, some, List, [], ◌∷◌, ◌++◌, All, All-append,
  length, drop, arith,
}
use satip_client.Base.Text.{Text, codes, decimal}
use satip_client.Base.Digits.{IsDigit, decimal-IsDigit}
use satip_client.Base.Search.{c_string, starts_with, find_text}
use satip_client.Rtsp.Parse.{CLibrary, is_space, skip_spaces, until_end, strip_end, value_after}

-- The characters of the fields of an answer: from the digits on, before `t`, and no semicolon.
abbrev pub IsField : ℕ → Type 0
IsField b = (b'0' ≤ b) × (b < b't') × (b ≢ b';')

abbrev pub crlf : Text
crlf = 13 ∷ 10 ∷ []

-- The fields of an answer: its number, the session's name, the timeout, the transport, and the
-- number of the stream.
pub record Reply : Type 0 where
  pub cseq : ℕ
  pub session : Text
  pub seconds : ℕ
  pub transport : Text
  pub stream : ℕ

abbrev pub end_text : Text
end_text = crlf ++ crlf

abbrev pub after_transport : Reply → Text
after_transport a = crlf ++ (codes "com.ses.streamID: " ++ (decimal a.stream ++ end_text))

abbrev pub after_timeout : Reply → Text
after_timeout a = crlf ++ (codes "Transport: " ++ (a.transport ++ after_transport a))

abbrev pub after_session : Reply → Text
after_session a = codes ";timeout=" ++ (decimal a.seconds ++ after_timeout a)

abbrev pub after_cseq : Reply → Text
after_cseq a = crlf ++ (codes "Session: " ++ (a.session ++ after_session a))

-- The answer, as the source shows it before `handleResponseSetup`.
abbrev pub setup_answer : Reply → Text
setup_answer a =
    codes "RTSP/1.0 200 OK" ++ (crlf ++ (codes "CSeq: " ++ (decimal a.cseq ++ after_cseq a)))

-- A `c` is followed by an `o` somewhere.
unfoldable pub has_co : Text → Bool
has_co [] = false
has_co (c ∷ []) = false
has_co (c ∷ d ∷ text) = (c == b'c' && d == b'o') || has_co (d ∷ text)

-- The session's name has the characters of a field, and the transport is on its line; neither has a
-- place where `com` could start.
pub record IsReply (a : Reply) : Type 0 where
  pub name : All IsField a.session
  pub line : All (λ b. b' ' ≤ b) a.transport
  pub no_co : (has_co a.session ≡ false) × (has_co a.transport ≡ false)
  pub small : a.stream < 2 ^ 31
  pub short : a.seconds < 2 ^ 31

All-map {ℓ κ μ} :
    {A : Type ℓ} {P : A → Type κ} {Q : A → Type μ} (xs : List A)
    → ((x : A) → P x → Q x)
    → All P xs
    → All Q xs
All-map [] f h = tt
All-map (x ∷ xs) f (hx, h) = (f x hx, All-map xs f h)

-- A search passes over a text without its first character.
find_text-skips :
    (c : ℕ) (needle field rest : Text)
    → All (λ b. b ≢ c) field
    → find_text (c ∷ needle) (field ++ rest) ≡ find_text (c ∷ needle) rest
unfolding find_text starts_with
find_text-skips c needle [] rest h = refl
find_text-skips c needle (b ∷ field) rest (hb, h) =
    ground (arith, find_text-skips c needle field rest h)

field-Lacks :
    (c : ℕ) (field : Text)
    → (leb b'0' c && ltb c b't') ≡ false
    → All IsField field
    → All (λ b. b ≢ c) field
field-Lacks c field h f =
    All-map field (λ b (low, high, other) e. absurd (ground (arith, h, low, high, e))) f

-- An answer is a text without a zero.
c_string-append : (a b : Text) → All (λ c. c ≢ 0) a → c_string (a ++ b) ≡ a ++ c_string b
unfolding c_string
c_string-append [] b h = refl
c_string-append (c ∷ a) b (hc, h) = ground (arith, c_string-append a b h)

pub digits-IsField : (text : Text) → All IsDigit text → All IsField text
digits-IsField text d =
    All-map text (λ b (low, high). (low, omega (arith, high), λ e. omega (arith, high, e))) d

not_space : (b : ℕ) → IsField b → is_space b ≡ false
unfolding is_space
not_space b (low, high, other) = ground (arith, low)

-- The session's name is found between the blank before it and the semicolon behind it.
until_end-field : (field rest : Text) → All IsField field → until_end (field ++ b';' ∷ rest) ≡ field
unfolding until_end
until_end-field [] rest h = refl
until_end-field (b ∷ field) rest ((low, high, other), h) =
    ground (arith, low, other, until_end-field field rest h)

strip_end-field : (field : Text) → All IsField field → strip_end field ≡ field
unfolding strip_end
strip_end-field [] h = refl
strip_end-field (b ∷ []) (hb, h) = rw (not_space b hb) refl
strip_end-field (b ∷ c ∷ field) (hb, h) = rw (strip_end-field (c ∷ field) h, strip_end) refl

pub name_found :
    (name rest : Text)
    → All IsField name
    → strip_end (until_end (skip_spaces (b' ' ∷ (name ++ b';' ∷ rest)))) ≡ name
unfolding skip_spaces is_space
name_found [] rest h = unfold until_end strip_end in refl
name_found (b ∷ name) rest (hb, h) =
    rw (not_space b hb)
      (ap strip_end (until_end-field (b ∷ name) rest (hb, h)) ∙ strip_end-field (b ∷ name) (hb, h))

-- A search for a text that starts with `co` passes over one without these.
find_text-passes :
    (needle field rest : Text) (d : ℕ)
    → (d == b'o') ≡ false
    → has_co field ≡ false
    → find_text (b'c' ∷ b'o' ∷ needle) (field ++ d ∷ rest)
      ≡ find_text (b'c' ∷ b'o' ∷ needle) (d ∷ rest)
unfolding find_text starts_with has_co
find_text-passes needle [] rest d n h = refl
find_text-passes needle (b ∷ []) rest d n h = ground (arith, n)
find_text-passes needle (b ∷ c ∷ field) rest d n h =
    ground (arith, h, find_text-passes needle (c ∷ field) rest d n)

decimal-IsField : (n : ℕ) → All IsField (decimal n)
decimal-IsField n = digits-IsField (decimal n) (decimal-IsDigit n)

-- A search passes over a number if it starts with no digit.
over_number :
    (c : ℕ) (needle rest : Text) (n : ℕ)
    → (leb b'0' c && leb c b'9') ≡ false
    → find_text (c ∷ needle) (decimal n ++ rest) ≡ find_text (c ∷ needle) rest
over_number c needle rest n h = find_text-skips c needle (decimal n) rest (
    All-map (decimal n) (λ b (low, high) e. absurd (ground (arith, h, low, high, e)))
      (decimal-IsDigit n))

module _ (a : Reply) (v : IsReply a) where
  pub whole : c_string (setup_answer a) ≡ setup_answer a
  unfolding c_string
  whole =
      rw
        (
          c_string-append (decimal a.cseq) (after_cseq a)
              (field-Lacks 0 (decimal a.cseq) refl (decimal-IsField a.cseq)),
          c_string-append a.session (after_session a) (field-Lacks 0 a.session refl v.name),
          c_string-append (decimal a.seconds) (after_timeout a)
              (field-Lacks 0 (decimal a.seconds) refl (decimal-IsField a.seconds)),
          c_string-append a.transport (after_transport a)
              (All-map a.transport (λ b low e. omega (arith, low, e)) v.line),
          c_string-append (decimal a.stream) end_text
              (field-Lacks 0 (decimal a.stream) refl (decimal-IsField a.stream)),
        )
        refl

  pub ended : find_text (13 ∷ 10 ∷ 13 ∷ 10 ∷ []) (setup_answer a) ≡ some end_text
  unfolding find_text starts_with
  ended =
      rw
        (
          over_number 13 (10 ∷ 13 ∷ 10 ∷ []) (after_cseq a) a.cseq refl,
          find_text-skips 13 (10 ∷ 13 ∷ 10 ∷ []) a.session (after_session a)
              (field-Lacks 13 a.session refl v.name),
          over_number 13 (10 ∷ 13 ∷ 10 ∷ []) (after_timeout a) a.seconds refl,
          find_text-skips 13 (10 ∷ 13 ∷ 10 ∷ []) a.transport (after_transport a)
              (All-map a.transport (λ b low e. omega (arith, low, e)) v.line),
          over_number 13 (10 ∷ 13 ∷ 10 ∷ []) end_text a.stream refl,
        )
        refl

  pub at_stream :
      value_after (codes "com.ses.streamID") b':' (setup_answer a)
      ≡ some (b' ' ∷ (decimal a.stream ++ end_text))
  unfolding value_after find_text starts_with
  at_stream =
      let needle = codes "m.ses.streamID" in
      rw
        (
          over_number b'c' (b'o' ∷ needle) (after_cseq a) a.cseq refl,
          find_text-passes needle a.session _ b';' refl v.no_co.0,
          over_number b'c' (b'o' ∷ needle) (after_timeout a) a.seconds refl,
          find_text-passes needle a.transport _ 13 refl v.no_co.1,
        )
        refl

  pub at_timeout :
      value_after (codes "timeout") b'=' (setup_answer a)
      ≡ some (decimal a.seconds ++ after_timeout a)
  unfolding value_after find_text starts_with
  at_timeout =
      rw
        (
          over_number b't' (codes "imeout") (after_cseq a) a.cseq refl,
          find_text-skips b't' (codes "imeout") a.session (after_session a)
              (field-Lacks b't' a.session refl v.name),
        )
        refl

  pub at_session :
      value_after (codes "Session") b':' (setup_answer a)
      ≡ some (b' ' ∷ (a.session ++ after_session a))
  unfolding value_after find_text starts_with
  at_session = rw (over_number b'S' (codes "ession") (after_cseq a) a.cseq refl) refl
