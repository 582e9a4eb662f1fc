-- ===== src/Rtsp/Heard/Playing.antt =====
-- What `handlePollEvents` makes of the answer to a SETUP.
use satip_client.Base.{
  ℕ, suc, ◌+◌, ◌-◌, ◌^◌, ◌≤◌, ◌<◌, ◌≡◌, refl, ap, ◌∙◌, true, false, leb, none, some, List, [], ◌∷◌,
  ◌++◌, length, drop, arith,
}
use satip_client.Base.Text.{Text, codes, decimal}
use satip_client.Base.Search.{c_string, find_text}
use satip_client.Rtsp.State.{
  Rtsp, RtspResult, rtsp_error, response_complete, session_establishing, session_playing,
  request_none, request_setup,
}
use satip_client.Rtsp.Timers.{stop_timer_reset_connect}
use satip_client.Rtsp.Parse.{
  CLibrary, value_after, skip_spaces, until_end, strip_end, handle_response_setup, with_timeout,
  with_stream_id,
}
use satip_client.Rtsp.Receive.{
  Clock, bytes_read, returns, answer, accept, conclude, complete, text_pass, pass, passes,
  handle_response, blank_line,
}
use satip_client.Rtsp.Machine.{Events, handle_input, event_case, handle_poll_events}
use satip_client.Rtsp.Heard.{
  Reply, IsReply, setup_answer, end_text, name_found, whole, ended, at_stream, at_timeout,
  at_session,
}

-- What the C library documents of its conversions: `strtol` passes over a blank and reads the digits
-- of an `int` up to the end of their line, and `sscanf` reads the code of an answer.
pub record ReadsAnswers (libc : CLibrary) : Type 0 where
  pub skips_blank : (rest : Text) → libc.strtol (b' ' ∷ rest) ≡ libc.strtol rest
  pub number : (n : ℕ) → n < 2 ^ 31 → (rest : Text) → libc.strtol (decimal n ++ 13 ∷ rest) ≡ n
  pub code : (rest : Text) → libc.response_code (codes "RTSP/1.0 200 OK" ++ 13 ∷ rest) ≡ some 200

-- What `handleResponseSetup` takes from the places that its searches find.
finds :
    (libc : CLibrary) (s : Rtsp) (session timeout stream : Text)
    → value_after (codes "Session") b':' (c_string s.rx) ≡ some session
    → value_after (codes "timeout") b'=' (c_string s.rx) ≡ some timeout
    → value_after (codes "com.ses.streamID") b':' (c_string s.rx) ≡ some stream
    → handle_response_setup libc s ≡ (
      record s {
        session_id = strip_end (until_end (skip_spaces session));
        timeout = libc.strtol timeout;
        stream_id = libc.strtol stream;
      },
      response_complete,
    )
unfolding handle_response_setup with_timeout with_stream_id
finds libc s session timeout stream e1 e2 e3 =
    rw (e1, handle_response_setup) (rw (e2, with_timeout) (rw (e3, with_stream_id) refl))

same_fields :
    (s : Rtsp) {a a' : Text} {t t' n n' : ℕ}
    → a ≡ a'
    → t ≡ t'
    → n ≡ n'
    → ◌≡◌ {A = Rtsp × RtspResult}
        (record s { session_id = a; timeout = t; stream_id = n }, response_complete)
        (record s { session_id = a'; timeout = t'; stream_id = n' }, response_complete)
same_fields s e f g = rw (e, f, g) refl

-- The session that has sent its SETUP and awaits the answer.
abbrev pub awaiting : Rtsp → Rtsp
awaiting s = record s { status = session_establishing; request = request_setup; rx = [] }

drop_all : (xs : List ℕ) → drop (length xs) xs ≡ []
drop_all [] = refl
drop_all (x ∷ xs) = drop_all xs

module _ (libc : CLibrary) (reads : ReadsAnswers libc) (a : Reply) (v : IsReply a) where
  abbrev text : Text
  text = setup_answer a

  -- The session that the answer names.
  abbrev named : Rtsp → Rtsp
  named s = record s { session_id = a.session; timeout = a.seconds; stream_id = a.stream }

  text_whole : c_string text ≡ text
  text_whole = whole a v

  handle_response_setup-named :
      (s : Rtsp)
      → handle_response_setup libc (record s { rx = text })
        ≡ (named (record s { rx = text }), response_complete)
  handle_response_setup-named s =
      finds libc (record s { rx = text }) _ _ _
        (ap (value_after (codes "Session") b':') text_whole ∙ at_session a v)
        (ap (value_after (codes "timeout") b'=') text_whole ∙ at_timeout a v)
        (ap (value_after (codes "com.ses.streamID") b':') text_whole ∙ at_stream a v)
      ∙ same_fields (record s { rx = text }) (name_found a.session _ v.name)
          (reads.number a.seconds v.short _) (reads.skips_blank _ ∙ reads.number a.stream v.small _)

  -- The session that awaits the answer, with the answer in its buffer.
  abbrev with_answer : Rtsp → Rtsp
  with_answer s = record s { status = session_establishing; request = request_setup; rx = text }

  -- What the answer leaves.
  abbrev heard : Rtsp → Rtsp
  heard s = record s {
    status = session_establishing;
    request = request_none;
    rx = [];
    wait_response = false;
    timer_reset_connect = none;
    session_id = a.session;
    timeout = a.seconds;
    stream_id = a.stream;
  }

  answer-heard :
      (s : Rtsp) → answer libc [] rtsp_error 0 (with_answer s) ≡ returns (heard s) response_complete
  unfolding answer accept conclude complete stop_timer_reset_connect
  answer-heard s =
      let code : libc.response_code (c_string text) ≡ some 200 =
        ap libc.response_code text_whole ∙ reads.code _ in
      rw (code, handle_response_setup-named (record (with_answer s) { wait_response = false })) refl

  rest_empty : drop (length (c_string text) - length end_text + 4) text ≡ []
  rest_empty = rw text_whole (
      let enough : 4 ≤ length text = omega arith in
      let all : length text - 4 + 4 ≡ length text = omega (arith, enough) in rw all (drop_all text))

  text_pass-heard :
      (s : Rtsp) → text_pass libc rtsp_error 0 (with_answer s) ≡ returns (heard s) response_complete
  unfolding text_pass
  text_pass-heard s =
      let found : find_text blank_line (c_string text) ≡ some end_text =
        ap (find_text blank_line) text_whole ∙ ended a v in
      rw (found, text_pass)
        (ap (λ (rest : List ℕ). answer libc rest rtsp_error 0 (with_answer s)) rest_empty
          ∙ answer-heard s)

  pass-heard :
      (clock : Clock) (s : Rtsp)
      → pass libc clock rtsp_error 0 (with_answer s) ≡ returns (heard s) response_complete
  unfolding pass
  pass-heard clock s =
      let filled : leb 1 (length text) ≡ true = ground arith in rw filled (text_pass-heard s)

  passes-heard :
      (fuel : ℕ) (clock : Clock) (s : Rtsp)
      → passes libc (suc fuel) clock rtsp_error 0 (with_answer s) ≡ (heard s, response_complete)
  unfolding passes
  passes-heard fuel clock s = rw (pass-heard clock s, passes) refl

  handle_response-heard :
      (clock : Clock) (s : Rtsp)
      → 2 ≤ s.rx_data_len
      → handle_response libc clock (bytes_read text) (awaiting s) ≡ (heard s, response_complete)
  unfolding handle_response
  handle_response-heard clock s room =
      let fits : leb (s.rx_data_len - 1) 0 ≡ false = ground (arith, room) in
      rw fits (passes-heard (length text) clock s)

  -- With a C library that reads the numbers and the code of an answer as documented: a session that
  -- awaits the answer to its SETUP and gets one in the form that rtsp.cpp shows, with `CSeq`, the
  -- session's name and timeout, the transport and the number of the stream, in a text that fits the
  -- buffers of the session, goes on to PLAY with these: the name without the blank before it and the
  -- timeout behind it, the request over, and the watchdog stopped. The name has characters from `0` to
  -- `s` other than the semicolon, the transport none below the blank, in neither is a `c` followed by
  -- an `o`, and the timeout and the stream are those of an `int`.
  pub setup_answer_plays :
      (clock : Clock) (events : Events) (s : Rtsp)
      → length (setup_answer a) < s.rx_data_len
      → length (setup_answer a) < 1024
      → events.broken ≡ false
      → events.readable ≡ true
      → handle_poll_events libc clock (bytes_read (setup_answer a)) events (awaiting s) ≡ record s {
        status = session_playing;
        request = request_none;
        rx = [];
        wait_response = false;
        timer_reset_connect = none;
        session_id = a.session;
        timeout = a.seconds;
        stream_id = a.stream;
      }
  unfolding handle_poll_events event_case handle_input
  setup_answer_plays clock events s room short unbroken readable =
      rw (unbroken, readable, handle_response-heard clock s (omega (arith, room))) refl
