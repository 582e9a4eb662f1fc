-- ===== src/Rtsp/Linked/Answers.antt =====
-- What the server sends keeps the configuration well formed.
use satip_client.Base.{
  ℕ, zero, suc, ◌-◌, ◌≡◌, refl, subst, sym, true, false, ◌&&◌, ◌||◌, not, ltb, leb, ◌==◌, none,
  List, [], ◌∷◌, ◌++◌, length, drop, take, arith, Option-cases, if-both, inl, inr,
}
use satip_client.Psi.Bytes.{byte_at}
use satip_client.Config.Link.{IsConfig, receive_ts-IsConfig}
use satip_client.Base.Search.{c_string, find_text}
use satip_client.Rtsp.State.{
  Rtsp, RtspRequest, request_none, request_option, request_setup, request_play, request_teardown,
  request_describe, RtspResult, rtsp_failed, rtsp_ok, rtsp_error, response_complete,
}
use satip_client.Rtsp.Timers.{start_timer_reset_connect, stop_timer_reset_connect}
use satip_client.Rtsp.Parse.{CLibrary, handle_response_setup, with_timeout, with_stream_id}
use satip_client.Rtsp.Receive.{
  frame_len, Clock, Received, end_of_stream, bytes_read, Pass, returns, again, complete, accept,
  conclude, answer, text_pass, blank_line, take_frame, frame_len, pass, passes, handle_response,
  rtp_tcp_data,
}
use satip_client.Rtsp.Answers.{Pass-cases}
use satip_client.Rtsp.Linked.{Linked, LinkedResult, reset_connect-Linked}

unfoldable LinkedPass : Pass → Type 0
LinkedPass (returns s res) = Linked s
LinkedPass (again res code s) = Linked s

returns-Linked : (s : Rtsp) (res : RtspResult) → Linked s → LinkedPass (returns s res)
unfolding LinkedPass
returns-Linked s res v = v

again-Linked : (res : RtspResult) (code : ℕ) (s : Rtsp) → Linked s → LinkedPass (again res code s)
unfolding LinkedPass
again-Linked res code s v = v

complete-Linked :
    (rest : List ℕ) (res : RtspResult) (code : ℕ) (s : Rtsp)
    → Linked s
    → LinkedPass (complete rest res code s)
unfolding complete LinkedPass
complete-Linked [] res code s v = v
complete-Linked (b ∷ rest) res code s v = v

conclude-Linked :
    (rest : List ℕ) (code : ℕ) (s : Rtsp) (res : RtspResult)
    → Linked s
    → LinkedPass (conclude rest code (s, res))
unfolding conclude stop_timer_reset_connect LinkedPass
conclude-Linked rest code s rtsp_error v = reset_connect-Linked true s v
conclude-Linked rest code s response_complete v =
    complete-Linked rest response_complete code (record s { timer_reset_connect = none }) v
conclude-Linked rest code s rtsp_ok v = complete-Linked rest rtsp_ok code s v
conclude-Linked rest code s rtsp_failed v = complete-Linked rest rtsp_failed code s v

module _ (libc : CLibrary) where
  accept_config :
      (request : RtspRequest) (res : RtspResult) (s : Rtsp)
      → (accept libc request res s).0.config ≡ s.config
  unfolding accept handle_response_setup with_timeout with_stream_id
  accept_config request_none res s = refl
  accept_config request_option res s = refl
  accept_config request_setup res s = ground arith
  accept_config request_play res s = refl
  accept_config request_teardown res s = refl
  accept_config request_describe res s = refl

  answer-Linked :
      (rest : List ℕ) (res : RtspResult) (code : ℕ) (s : Rtsp)
      → Linked s
      → LinkedPass (answer libc rest res code s)
  unfolding answer stop_timer_reset_connect
  answer-Linked rest res code s v =
      let heard = record s { wait_response = false } in
      let r = accept libc s.request res heard in
      if-both LinkedPass _ _ _
        (complete-Linked rest response_complete code (record heard { timer_reset_connect = none })
          v)
        (if-both LinkedPass _ _ _
          (conclude-Linked rest _ r.0 r.1
            (subst IsConfig (sym (accept_config s.request res heard)) v))
          (returns-Linked _ rtsp_error (reset_connect-Linked true (record heard { rx = [] }) v)))

  text_pass-Linked :
      (res : RtspResult) (code : ℕ) (s : Rtsp) → Linked s → LinkedPass (text_pass libc res code s)
  unfolding text_pass
  text_pass-Linked res code s v = elim (Option-cases (find_text blank_line (c_string s.rx))) [
    | inl e ↦ rw (e, text_pass) (returns-Linked s rtsp_ok v)
    | inr (found, e) ↦ rw (e, text_pass) (answer-Linked _ res code s v)
  ]

  take_frame-Linked : (clock : Clock) (s : Rtsp) → Linked s → Linked (take_frame clock s)
  unfolding take_frame start_timer_reset_connect rtp_tcp_data
  take_frame-Linked clock s v =
      let frame = take (frame_len s.rx) s.rx in
      if-both IsConfig (not (leb (length frame) 16) && byte_at frame 1 == 0) _ _
        (receive_ts-IsConfig clock.first clock.now (drop 16 frame) s.config v) v

  pass-Linked :
      (clock : Clock) (res : RtspResult) (code : ℕ) (s : Rtsp)
      → Linked s
      → LinkedPass (pass libc clock res code s)
  unfolding pass
  pass-Linked clock res code s v =
      let no_room = ltb (length s.rx) 4 || ltb (length s.rx) (frame_len s.rx) in
      if-both LinkedPass (not (leb 1 (length s.rx))) _ _ (returns-Linked s rtsp_ok v) (
        if-both LinkedPass (byte_at s.rx 0 == b'$') _ _
          (if-both LinkedPass (not s.config.settings.tcpdata) _ _ (returns-Linked s rtsp_error v) (
            if-both LinkedPass no_room _ _ (returns-Linked s rtsp_ok v)
              (again-Linked res code _ (take_frame-Linked clock s v))))
          (text_pass-Linked res code s v))

  passes-Linked :
      (fuel : ℕ) (clock : Clock) (res : RtspResult) (code : ℕ) (s : Rtsp)
      → Linked s
      → LinkedResult (passes libc fuel clock res code s)
  unfolding passes
  passes-Linked zero clock res code s v = v
  passes-Linked (suc fuel) clock res code s v =
      let ok = pass-Linked clock res code s v in
      elim (Pass-cases libc (pass libc clock res code s)) [
        | inl (t, r, e) ↦ rw (e, passes) (unfold LinkedPass in subst LinkedPass e ok)
        | inr (r, n, t, e) ↦
            rw (e, passes)
              (passes-Linked fuel clock r n t (unfold LinkedPass in subst LinkedPass e ok))
      ]

  pub handle_response-Linked :
      (clock : Clock) (received : Received) (s : Rtsp)
      → Linked s
      → LinkedResult (handle_response libc clock received s)
  unfolding handle_response
  handle_response-Linked clock end_of_stream s v =
      if-both LinkedResult (leb (s.rx_data_len - 1) (length s.rx)) _ _ v v
  handle_response-Linked clock (bytes_read bytes) s v =
      if-both LinkedResult (leb (s.rx_data_len - 1) (length s.rx)) _ _ v (
        passes-Linked (suc (length (s.rx ++ bytes))) clock rtsp_error 0
          (record s { rx = s.rx ++ bytes }) v)
