-- ===== src/Examples/Answers.antt =====
-- The theorem on the answer to a SETUP, with a C library that reads digits.
use satip_client.Base.{
  ℕ, Bool, ◌≤◌, ◌==◌, ◌+◌, ◌*◌, ◌-◌, ◌≡◌, refl, ◌∙◌, true, false, ◌&&◌, leb, if◌then◌else◌, none,
  some, [], ◌∷◌, ◌++◌, All, arith,
}
use satip_client.Base.Text.{Text, codes, decimal}
use satip_client.Base.Digits.{IsDigit, decimal-IsDigit}
use satip_client.Config.Reading.{number_from}
use satip_client.Config.Reading.RoundTrip.{number_from-decimal}
use satip_client.Rtsp.State.{Rtsp, session_playing, request_none}
use satip_client.Rtsp.Parse.{CLibrary}
use satip_client.Rtsp.Receive.{Clock, bytes_read}
use satip_client.Rtsp.Machine.{Events, handle_poll_events, init_rtsp, new_rtsp}
use satip_client.Rtsp.Heard.{IsField, Reply, IsReply, has_co, setup_answer}
use satip_client.Rtsp.Heard.Playing.{ReadsAnswers, awaiting, setup_answer_plays}
use satip_client.Examples.Requests.{tuned}

-- The digits at the start of a text.
digits_value : ℕ → Text → ℕ
digits_value n [] = n
digits_value n (c ∷ text) =
    let rest = digits_value (n * 10 + (c - b'0')) text in
    if leb b'0' c && leb c b'9' then rest else n

digits_value-number_from :
    (n : ℕ) (digits rest : Text)
    → All IsDigit digits
    → digits_value n (digits ++ 13 ∷ rest) ≡ number_from n digits
unfolding digits_value number_from
digits_value-number_from n [] rest h = refl
digits_value-number_from n (c ∷ digits) rest ((low, high), h) =
    ground (arith, low, high, digits_value-number_from (n * 10 + (c - b'0')) digits rest h)

-- The number behind any blanks.
blank_value : Text → ℕ
blank_value [] = 0
blank_value (c ∷ text) =
    let rest = blank_value text in if c == b' ' then rest else digits_value 0 (c ∷ text)

blank_value-digits :
    (digits rest : Text)
    → All IsDigit digits
    → blank_value (digits ++ 13 ∷ rest) ≡ digits_value 0 (digits ++ 13 ∷ rest)
unfolding blank_value digits_value
blank_value-digits [] rest h = refl
blank_value-digits (c ∷ digits) rest ((low, high), h) = ground (arith, low)

abbrev reading_libc : CLibrary
reading_libc = record { strtol = λ text. blank_value text; response_code = λ text. some 200 }

reading_libc-ReadsAnswers : ReadsAnswers reading_libc
reading_libc-ReadsAnswers = record {
  skips_blank = λ rest. unfold blank_value in refl;
  number = λ n h rest.
      blank_value-digits (decimal n) rest (decimal-IsDigit n)
      ∙ digits_value-number_from 0 (decimal n) rest (decimal-IsDigit n)
      ∙ number_from-decimal n;
  code = λ rest. refl;
}

abbrev asked : Rtsp
asked = init_rtsp (codes "192.168.0.2") (codes "554") 46000 tuned

abbrev clock : Clock
clock = record { first = 0; now = 0 }

abbrev readable_events : Events
readable_events = record { broken = false; readable = true; writable = false }

-- The session `2f`.
name_fields : All IsField (b'2' ∷ b'f' ∷ [])
name_fields = (
  (omega arith, omega arith, λ e. omega (arith, e)),
  ((omega arith, omega arith, λ e. omega (arith, e)), tt),
)

-- The answer that rtsp.cpp shows, with a shorter name.
abbrev shown : Reply
shown = record {
  cseq = 1;
  session = b'2' ∷ b'f' ∷ [];
  seconds = 60;
  transport = codes "RTP/AVP;unicast;client_port=46938-46939;server_port=8000-8001";
  stream = 1;
}

all_printed : Text → Bool
all_printed [] = true
all_printed (b ∷ text) = leb b' ' b && all_printed text

printed : (text : Text) → all_printed text ≡ true → All (λ b. b' ' ≤ b) text
unfolding all_printed
printed [] h = tt
printed (b ∷ text) h = (ground (arith, h), printed text (ground (arith, h)))

shown-IsReply : IsReply shown
shown-IsReply = record {
  name = name_fields;
  line = printed shown.transport (unfold all_printed in refl);
  no_co = unfold has_co in (refl, refl);
  small = omega arith;
  short = omega arith;
}

setup_answer_plays_example :
    handle_poll_events reading_libc clock
      (bytes_read (setup_answer shown))
      readable_events
      (awaiting asked)
    ≡ record asked {
      status = session_playing;
      request = request_none;
      rx = [];
      wait_response = false;
      timer_reset_connect = none;
      session_id = b'2' ∷ b'f' ∷ [];
      timeout = 60;
      stream_id = 1;
    }
setup_answer_plays_example =
    setup_answer_plays reading_libc reading_libc-ReadsAnswers shown shown-IsReply clock
      readable_events asked (unfold init_rtsp new_rtsp decimal in grind arith)
      (unfold decimal in omega arith) refl refl
