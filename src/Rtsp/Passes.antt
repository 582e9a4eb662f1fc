-- ===== src/Rtsp/Passes.antt =====
-- The passes of `handleResponse` over the buffer end by themselves.
use satip_client.Base.{
  ℕ, zero, suc, ◌+◌, ◌-◌, ◌≤◌, ◌<◌, ◌≡◌, refl, subst, true, false, ◌||◌, not, ltb, leb, ◌==◌, List,
  [], ◌∷◌, arith, Option-cases, Bool-cases, if-both, inl, inr, length, drop, length-drop,
}
use satip_client.Psi.Bytes.{byte_at}
use satip_client.Base.Search.{c_string, find_text}
use satip_client.Rtsp.State.{Rtsp, RtspResult, rtsp_failed, rtsp_ok, rtsp_error, response_complete}
use satip_client.Rtsp.Timers.{reset_connect, start_timer_reset_connect, stop_timer_reset_connect}
use satip_client.Rtsp.Parse.{CLibrary}
use satip_client.Rtsp.Receive.{
  frame_len, Clock, Pass, returns, again, complete, accept, conclude, answer, text_pass, blank_line,
  take_frame, pass, passes,
}
use satip_client.Rtsp.Answers.{Pass-cases}

-- A pass that asks for another one leaves fewer bytes than `n`.
unfoldable Shorter : ℕ → Pass → Type 0
Shorter n (returns s res) = Unit {0}
Shorter n (again res code s) = length s.rx < n

returns-Shorter : (n : ℕ) (s : Rtsp) (res : RtspResult) → Shorter n (returns s res)
unfolding Shorter
returns-Shorter n s res = tt

-- What is dropped is gone.
dropped_less : (m : ℕ) (xs : List ℕ) → 1 ≤ m → 1 ≤ length xs → length (drop m xs) < length xs
dropped_less m xs h k = omega (arith, length-drop m xs, h, k)

complete-Shorter :
    (n : ℕ) (rest : List ℕ) (res : RtspResult) (code : ℕ) (s : Rtsp)
    → length rest < n
    → Shorter n (complete rest res code s)
unfolding complete Shorter
complete-Shorter n [] res code s h = tt
complete-Shorter n (b ∷ rest) res code s h = h

conclude-Shorter :
    (n : ℕ) (rest : List ℕ) (code : ℕ) (s : Rtsp) (res : RtspResult)
    → length rest < n
    → Shorter n (conclude rest code (s, res))
unfolding conclude
conclude-Shorter n rest code s rtsp_error h = returns-Shorter n (reset_connect true s) rtsp_error
conclude-Shorter n rest code s response_complete h =
    complete-Shorter n rest response_complete code (stop_timer_reset_connect s) h
conclude-Shorter n rest code s rtsp_ok h = complete-Shorter n rest rtsp_ok code s h
conclude-Shorter n rest code s rtsp_failed h = complete-Shorter n rest rtsp_failed code s h

module _ (libc : CLibrary) where
  answer-Shorter :
      (n : ℕ) (rest : List ℕ) (res : RtspResult) (code : ℕ) (s : Rtsp)
      → length rest < n
      → Shorter n (answer libc rest res code s)
  unfolding answer
  answer-Shorter n rest res code s h =
      let heard = record s { wait_response = false } in
      let r = accept libc s.request res heard in
      if-both (Shorter n) _ _ _
        (complete-Shorter n rest response_complete code (stop_timer_reset_connect heard) h)
        (if-both (Shorter n) _ _ _ (conclude-Shorter n rest _ r.0 r.1 h)
          (returns-Shorter n (reset_connect true (record heard { rx = [] })) rtsp_error))

  text_pass-Shorter :
      (res : RtspResult) (code : ℕ) (s : Rtsp)
      → 1 ≤ length s.rx
      → Shorter (length s.rx) (text_pass libc res code s)
  unfolding text_pass
  text_pass-Shorter res code s h = elim (Option-cases (find_text blank_line (c_string s.rx))) [
    | inl e ↦ rw (e, text_pass) (returns-Shorter (length s.rx) s rtsp_ok)
    | inr (found, e) ↦
        rw (e, text_pass)
          (answer-Shorter (length s.rx) _ res code s
            (dropped_less (length (c_string s.rx) - length found + 4) s.rx (omega arith) h))
  ]

  frame-Shorter :
      (clock : Clock) (res : RtspResult) (code : ℕ) (s : Rtsp)
      → 1 ≤ length s.rx
      → Shorter (length s.rx) (again res code (take_frame clock s))
  unfolding Shorter take_frame start_timer_reset_connect
  frame-Shorter clock res code s h = dropped_less (frame_len s.rx) s.rx (omega arith) h

  pass-Shorter :
      (clock : Clock) (res : RtspResult) (code : ℕ) (s : Rtsp)
      → Shorter (length s.rx) (pass libc clock res code s)
  unfolding pass
  pass-Shorter clock res code s = elim (Bool-cases (not (leb 1 (length s.rx)))) [
    | inl e ↦ rw e (returns-Shorter (length s.rx) s rtsp_ok)
    | inr e ↦
        let some_left : 1 ≤ length s.rx = ground (arith, e) in
        let no_room = ltb (length s.rx) 4 || ltb (length s.rx) (frame_len s.rx) in
        rw e (
          if-both (Shorter (length s.rx)) (byte_at s.rx 0 == b'$') _ _
            (if-both (Shorter (length s.rx)) (not s.config.settings.tcpdata) _ _
              (returns-Shorter (length s.rx) s rtsp_error)
              (if-both (Shorter (length s.rx)) no_room _ _ (returns-Shorter (length s.rx) s rtsp_ok)
                (frame-Shorter clock res code s some_left)))
            (text_pass-Shorter res code s some_left))
  ]

  -- The passes over the received bytes end by their own tests: any number of passes greater than the
  -- number of bytes gives the same session and result.
  pub passes_fuel :
      (m n : ℕ) (clock : Clock) (res : RtspResult) (code : ℕ) (s : Rtsp)
      → length s.rx < m
      → length s.rx < n
      → passes libc m clock res code s ≡ passes libc n clock res code s
  unfolding passes
  passes_fuel zero n clock res code s h k = absurd (omega (arith, h))
  passes_fuel (suc m) zero clock res code s h k = absurd (omega (arith, k))
  passes_fuel (suc m) (suc n) clock res code s h k =
      let short = pass-Shorter clock res code s in
      elim (Pass-cases libc (pass libc clock res code s)) [
        | inl (t, r, e) ↦ rw (e, passes) refl
        | inr (r, c, t, e) ↦
            let less : length t.rx < length s.rx =
              unfold Shorter in subst (Shorter (length s.rx)) e short in
            rw (e, passes)
              (passes_fuel m n clock r c t (omega (arith, less, h)) (omega (arith, less, k)))
      ]
