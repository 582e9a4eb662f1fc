-- ===== src/Rtsp/Answers.antt =====
-- `handleResponse` and `handlePollEvents` keep a session well formed, whatever the server sends.
use satip_client.Base.{
  ℕ, zero, suc, ◌-◌, ◌≡◌, refl, ◌∙◌, subst, ◌⊎◌, true, false, ◌||◌, not, ltb, leb, ◌==◌, none, List,
  [], ◌∷◌, ◌++◌, arith, Option-cases, if-both, inl, inr, length,
}
use satip_client.Psi.Bytes.{byte_at}
use satip_client.Rtsp.State.{
  Rtsp, RtspStatus, config_waiting, server_connecting, session_establishing, session_playing,
  session_transmitting, session_teardowning, RtspRequest, request_none, request_option,
  request_setup, request_play, request_teardown, request_describe, RtspResult, rtsp_failed, rtsp_ok,
  rtsp_error, response_complete,
}
use satip_client.Rtsp.Timers.{
  reset_connect, start_timer_reset_connect, stop_timer_reset_connect, stop_timer_reconnect,
  reset_reconnect_backoff,
}
use satip_client.Base.Search.{c_string, find_text}
use satip_client.Rtsp.Parse.{CLibrary, handle_response_setup, with_timeout, with_stream_id}
use satip_client.Rtsp.Receive.{
  frame_len, Clock, Received, end_of_stream, bytes_read, Pass, returns, again, complete, accept,
  conclude, answer, text_pass, blank_line, take_frame, pass, passes, handle_response,
}
use satip_client.Rtsp.Machine.{
  event_case, Events, handle_poll_events, handle_input, move_if_complete,
}
use satip_client.Rtsp.Invariant.{IsRtsp, may_wait, reset_connect-IsRtsp}

-- A session well formed that has stayed in its status, one of those in which answers come.
record IsSame (st : RtspStatus) (s : Rtsp) : Type 0 where
  valid : IsRtsp s
  same : s.status ≡ st

-- What a pass comes to: with no error, the same status.
unfoldable PassOk : RtspStatus → Pass → Type 0
PassOk st (returns s res) = IsRtsp s × (res ≡ response_complete → s.status ≡ st)
PassOk st (again res code s) = IsSame st s

-- The answer is no longer awaited; the watchdog may stop.
settled :
    (st : RtspStatus) (s t : Rtsp)
    → IsSame st s
    → may_wait st ≡ true
    → t.is_open ≡ s.is_open
    → t.status ≡ s.status
    → t.wait_response ≡ false
    → t.timer_keep_alive ≡ s.timer_keep_alive
    → t.reconnect_attempts ≡ s.reconnect_attempts
    → IsSame st t
settled st s t v m a b c d e = record {
  valid = record {
    socket = ground (arith, v.valid.socket);
    connecting = ground (arith, v.same);
    watched = ground arith;
    waits = ground arith;
    keep_alive = ground (arith, v.valid.keep_alive);
    attempts = ground (arith, v.valid.attempts);
  };
  same = ground (arith, v.same);
}

returns-PassOk :
    (st : RtspStatus) (s : Rtsp) (res : RtspResult) → IsSame st s → PassOk st (returns s res)
unfolding PassOk
returns-PassOk st s res v = (v.valid, λ e. v.same)

again-PassOk :
    (st : RtspStatus) (res : RtspResult) (code : ℕ) (s : Rtsp)
    → IsSame st s
    → PassOk st (again res code s)
unfolding PassOk
again-PassOk st res code s v = v

complete-PassOk :
    (rest : List ℕ) (res : RtspResult) (code : ℕ) (st : RtspStatus) (s : Rtsp)
    → IsSame st s
    → may_wait st ≡ true
    → s.wait_response ≡ false
    → PassOk st (complete rest res code s)
unfolding complete PassOk
complete-PassOk [] res code st s v m w =
    let after = record s { rx = []; request = request_none } in
    let ok = settled st s after v m refl refl w refl refl in (ok.valid, λ e. ok.same)
complete-PassOk (b ∷ rest) res code st s v m w =
    settled st s (record s { rx = b ∷ rest; request = request_none }) v m refl refl w refl refl

conclude-PassOk :
    (rest : List ℕ) (code : ℕ) (st : RtspStatus) (s : Rtsp) (res : RtspResult)
    → IsSame st s
    → may_wait st ≡ true
    → s.wait_response ≡ false
    → PassOk st (conclude rest code (s, res))
unfolding conclude stop_timer_reset_connect PassOk
conclude-PassOk rest code st s rtsp_error v m w =
    (reset_connect-IsRtsp true s v.valid.attempts, λ e. ground (arith, e))
conclude-PassOk rest code st s response_complete v m w =
    let stopped = record s { timer_reset_connect = none } in
    complete-PassOk rest response_complete code st stopped
      (settled st s stopped v m refl refl w refl refl) m w
conclude-PassOk rest code st s rtsp_ok v m w = complete-PassOk rest rtsp_ok code st s v m w
conclude-PassOk rest code st s rtsp_failed v m w = complete-PassOk rest rtsp_failed code st s v m w

module _ (libc : CLibrary) where
  -- What an accepted answer leaves alone.
  accept_frame :
      (request : RtspRequest) (res : RtspResult) (s : Rtsp)
      → let t = (accept libc request res s).0 in
        (t.is_open ≡ s.is_open)
        × (t.status ≡ s.status)
        × (t.wait_response ≡ s.wait_response)
        × (t.timer_keep_alive ≡ s.timer_keep_alive)
        × (t.reconnect_attempts ≡ s.reconnect_attempts)
  unfolding accept handle_response_setup with_timeout with_stream_id
  accept_frame request_none res s = (refl, refl, refl, refl, refl)
  accept_frame request_option res s = (refl, refl, refl, refl, refl)
  accept_frame request_setup res s = ground arith
  accept_frame request_play res s = (refl, refl, refl, refl, refl)
  accept_frame request_teardown res s = (refl, refl, refl, refl, refl)
  accept_frame request_describe res s = (refl, refl, refl, refl, refl)

  accepted-PassOk :
      (rest : List ℕ) (request : RtspRequest) (res : RtspResult) (code : ℕ) (st : RtspStatus)
      (s : Rtsp)
      → IsSame st s
      → may_wait st ≡ true
      → s.wait_response ≡ false
      → PassOk st (conclude rest code (accept libc request res s))
  accepted-PassOk rest request res code st s v m w =
      let (a, b, c, d, e) = accept_frame request res s in
      let t = (accept libc request res s).0 in
      conclude-PassOk rest code st t (accept libc request res s).1
        (settled st s t v m a b (c ∙ w) d e) m (c ∙ w)

  refused-PassOk :
      (st : RtspStatus) (s : Rtsp)
      → IsSame st s
      → PassOk st
          (returns (reset_connect true (record s { wait_response = false; rx = [] })) rtsp_error)
  unfolding PassOk
  refused-PassOk st s v = (
    reset_connect-IsRtsp true (record s { wait_response = false; rx = [] }) v.valid.attempts,
    λ e. ground (arith, e),
  )

  answer-PassOk :
      (rest : List ℕ) (res : RtspResult) (code : ℕ) (st : RtspStatus) (s : Rtsp)
      → IsSame st s
      → may_wait st ≡ true
      → PassOk st (answer libc rest res code s)
  unfolding answer stop_timer_reset_connect
  answer-PassOk rest res code st s v m =
      let heard = record s { wait_response = false } in
      let ok = settled st s heard v m refl refl refl refl refl in
      let stopped = record heard { timer_reset_connect = none } in
      if-both (PassOk st) _ _ _
        (complete-PassOk rest response_complete code st stopped
          (settled st s stopped v m refl refl refl refl refl) m refl)
        (if-both (PassOk st) _ _ _ (accepted-PassOk rest s.request res _ st heard ok m refl)
          (refused-PassOk st s v))

  text_pass-PassOk :
      (res : RtspResult) (code : ℕ) (st : RtspStatus) (s : Rtsp)
      → IsSame st s
      → may_wait st ≡ true
      → PassOk st (text_pass libc res code s)
  unfolding text_pass PassOk
  text_pass-PassOk res code st s v m = elim (Option-cases (find_text blank_line (c_string s.rx))) [
    | inl e ↦ rw (e, text_pass) (returns-PassOk st s rtsp_ok v)
    | inr (found, e) ↦ rw (e, text_pass) (answer-PassOk _ res code st s v m)
  ]

  take_frame-IsSame :
      (clock : Clock) (st : RtspStatus) (s : Rtsp) → IsSame st s → IsSame st (take_frame clock s)
  unfolding take_frame start_timer_reset_connect
  take_frame-IsSame clock st s v = record {
    valid = record {
      socket = v.valid.socket;
      connecting = λ h. refl;
      watched = λ h. refl;
      waits = v.valid.waits;
      keep_alive = v.valid.keep_alive;
      attempts = v.valid.attempts;
    };
    same = v.same;
  }

  pass-PassOk :
      (clock : Clock) (res : RtspResult) (code : ℕ) (st : RtspStatus) (s : Rtsp)
      → IsSame st s
      → may_wait st ≡ true
      → PassOk st (pass libc clock res code s)
  unfolding pass
  pass-PassOk clock res code st s v m =
      let no_room = ltb (length s.rx) 4 || ltb (length s.rx) (frame_len s.rx) in
      if-both (PassOk st) (not (leb 1 (length s.rx))) _ _ (returns-PassOk st s rtsp_ok v) (
        if-both (PassOk st) (byte_at s.rx 0 == b'$') _ _
          (if-both (PassOk st) (not s.config.settings.tcpdata) _ _
            (returns-PassOk st s rtsp_error v)
            (if-both (PassOk st) no_room _ _ (returns-PassOk st s rtsp_ok v)
              (again-PassOk st res code _ (take_frame-IsSame clock st s v))))
          (text_pass-PassOk res code st s v m))

  pub Pass-cases :
      (x : Pass)
      → ((s : Rtsp) × (res : RtspResult) × (x ≡ returns s res))
        ⊎ ((res : RtspResult) × (code : ℕ) × (s : Rtsp) × (x ≡ again res code s))
  Pass-cases (returns s res) = inl (s, res, refl)
  Pass-cases (again res code s) = inr (res, code, s, refl)

  passes-PassOk :
      (fuel : ℕ) (clock : Clock) (res : RtspResult) (code : ℕ) (st : RtspStatus) (s : Rtsp)
      → IsSame st s
      → may_wait st ≡ true
      → let r = passes libc fuel clock res code s in
        IsRtsp r.0 × (r.1 ≡ response_complete → r.0.status ≡ st)
  unfolding passes
  passes-PassOk zero clock res code st s v m = (v.valid, λ e. v.same)
  passes-PassOk (suc fuel) clock res code st s v m =
      let ok = pass-PassOk clock res code st s v m in
      elim (Pass-cases (pass libc clock res code s)) [
        | inl (t, r, e) ↦ rw (e, passes) (unfold PassOk in subst (PassOk st) e ok)
        | inr (r, n, t, e) ↦
            rw (e, passes)
              (passes-PassOk fuel clock r n st t (unfold PassOk in subst (PassOk st) e ok) m)
      ]

  -- A read that the buffer has no room for, or that empties it, keeps what the session is.
  emptied-IsSame :
      (st : RtspStatus) (rx : List ℕ) (s : Rtsp) → IsSame st s → IsSame st (record s { rx = rx })
  emptied-IsSame st rx s v = record {
    valid = record {
      socket = v.valid.socket;
      connecting = v.valid.connecting;
      watched = v.valid.watched;
      waits = v.valid.waits;
      keep_alive = v.valid.keep_alive;
      attempts = v.valid.attempts;
    };
    same = v.same;
  }

  -- What `handleResponse` gives: a valid session, in its status if an answer is complete.
  abbrev Answered : RtspStatus → Rtsp × RtspResult → Type 0
  Answered st r = IsRtsp r.0 × (r.1 ≡ response_complete → r.0.status ≡ st)

  handle_response-Answered :
      (clock : Clock) (received : Received) (s : Rtsp)
      → IsRtsp s
      → may_wait s.status ≡ true
      → Answered s.status (handle_response libc clock received s)
  unfolding handle_response
  handle_response-Answered clock end_of_stream s v m =
      let here : IsSame s.status s = record { valid = v; same = refl } in
      if-both (Answered s.status) (leb (s.rx_data_len - 1) (length s.rx)) _ _
        ((emptied-IsSame s.status [] s here).valid, λ e. refl) (v, λ e. refl)
  handle_response-Answered clock (bytes_read bytes) s v m =
      let here : IsSame s.status s = record { valid = v; same = refl } in
      if-both (Answered s.status) (leb (s.rx_data_len - 1) (length s.rx)) _ _
        ((emptied-IsSame s.status [] s here).valid, λ e. refl)
        (passes-PassOk (suc (length (s.rx ++ bytes))) clock rtsp_error 0 s.status
          (record s { rx = s.rx ++ bytes }) (emptied-IsSame s.status (s.rx ++ bytes) s here) m)

  moved-IsRtsp :
      (move : Rtsp → Rtsp) (s : Rtsp) (st : RtspStatus) (res : RtspResult)
      → ((t : Rtsp) → IsRtsp t → t.status ≡ st → IsRtsp (move t))
      → Answered st (s, res)
      → IsRtsp (move_if_complete move (s, res))
  moved-IsRtsp move s st response_complete keeps a = keeps s a.0 (a.1 refl)
  moved-IsRtsp move s st rtsp_ok keeps a = a.0
  moved-IsRtsp move s st rtsp_failed keeps a = a.0
  moved-IsRtsp move s st rtsp_error keeps a = a.0

  handle_input-IsRtsp :
      (clock : Clock) (received : Received) (move : Rtsp → Rtsp) (events : Events) (s : Rtsp)
      → IsRtsp s
      → may_wait s.status ≡ true
      → ((t : Rtsp) → IsRtsp t → t.status ≡ s.status → IsRtsp (move t))
      → IsRtsp (handle_input libc clock received move events s)
  unfolding handle_input
  handle_input-IsRtsp clock received move events s v m keeps =
      let r = handle_response libc clock received s in
      if-both IsRtsp events.readable _ _
        (moved-IsRtsp move r.0 s.status r.1 keeps (handle_response-Answered clock received s v m)) v

  -- A session moves on when its answer is complete.
  moved_to_playing :
      (t : Rtsp)
      → IsRtsp t
      → t.status ≡ session_establishing
      → IsRtsp (record t { status = session_playing })
  moved_to_playing t v e = record {
    socket = ground (arith, v.socket, e);
    connecting = ground (arith, v.connecting, e);
    watched = ground (arith, v.watched, e);
    waits = ground (arith, v.waits, e);
    keep_alive = ground (arith, v.keep_alive, e);
    attempts = v.attempts;
  }

  moved_to_transmitting :
      (t : Rtsp)
      → IsRtsp t
      → t.status ≡ session_playing
      → IsRtsp (
          reset_reconnect_backoff
            (stop_timer_reconnect (record t { status = session_transmitting })))
  unfolding reset_reconnect_backoff stop_timer_reconnect
  moved_to_transmitting t v e = record {
    socket = ground (arith, v.socket, e);
    connecting = ground (arith, v.connecting, e);
    watched = ground (arith, v.watched, e);
    waits = ground (arith, v.waits, e);
    keep_alive = ground (arith, v.keep_alive, e);
    attempts = omega arith;
  }

  established-IsRtsp :
      (s : Rtsp)
      → IsRtsp s
      → s.status ≡ server_connecting
      → IsRtsp (record (stop_timer_reset_connect s) { status = session_establishing })
  unfolding stop_timer_reset_connect
  established-IsRtsp s v e = record {
    socket = ground (arith, v.socket, e);
    connecting = ground arith;
    watched = λ h. ground (arith, v.waits h, e);
    waits = λ h. refl;
    keep_alive = ground (arith, v.keep_alive, e);
    attempts = v.attempts;
  }

  event_case-IsRtsp :
      (st : RtspStatus) (clock : Clock) (received : Received) (events : Events) (s : Rtsp)
      → s.status ≡ st
      → IsRtsp s
      → IsRtsp (event_case libc st clock received events s)
  unfolding event_case
  event_case-IsRtsp config_waiting clock received events s e v = v
  event_case-IsRtsp server_connecting clock received events s e v =
      if-both IsRtsp events.writable _ _ (established-IsRtsp s v e) v
  event_case-IsRtsp session_establishing clock received events s e v =
      handle_input-IsRtsp clock received _ events s v (ground (arith, e))
        (λ t w same. moved_to_playing t w (same ∙ e))
  event_case-IsRtsp session_playing clock received events s e v =
      handle_input-IsRtsp clock received _ events s v (ground (arith, e))
        (λ t w same. moved_to_transmitting t w (same ∙ e))
  event_case-IsRtsp session_transmitting clock received events s e v =
      handle_input-IsRtsp clock received _ events s v (ground (arith, e)) (λ t w same. w)
  event_case-IsRtsp session_teardowning clock received events s e v =
      handle_input-IsRtsp clock received _ events s v (ground (arith, e))
        (λ t w same. reset_connect-IsRtsp false t w.attempts)

  -- `handlePollEvents` keeps a well-formed session well formed, whatever events the socket reports
  -- and whatever bytes are read.
  pub handle_poll_events-IsRtsp :
      (clock : Clock) (received : Received) (events : Events) (s : Rtsp)
      → IsRtsp s
      → IsRtsp (handle_poll_events libc clock received events s)
  unfolding handle_poll_events
  handle_poll_events-IsRtsp clock received events s v =
      if-both IsRtsp events.broken _ _ (reset_connect-IsRtsp true s v.attempts)
        (event_case-IsRtsp s.status clock received events s refl v)
