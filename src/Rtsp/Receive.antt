-- ===== src/Rtsp/Receive.antt =====
-- `handleResponse` of rtsp.cpp and `rtpTcpData` of rtp.cpp: the bytes that a read brings, as
-- interleaved frames and answers. A `recv` that fails (-1) is not modelled: the source then moves
-- its position back by one.
use satip_client.Base.{
  Bool, true, false, ℕ, zero, suc, ◌+◌, ◌-◌, true, false, ◌||◌, ◌&&◌, not, ltb, leb, ◌==◌,
  if◌then◌else◌, none, some, List, [], ◌∷◌, ◌++◌, drop, take, length,
}
use satip_client.Base.Text.{Text}
use satip_client.Psi.Bytes.{byte_at, word16}
use satip_client.Config.State.{Config, receive_ts}
use satip_client.Rtsp.State.{
  Rtsp, RtspRequest, request_none, request_option, request_setup, request_play, request_teardown,
  request_describe, RtspResult, rtsp_ok, rtsp_error, response_complete, rtsp_failed,
}
use satip_client.Rtsp.Timers.{reset_connect, start_timer_reset_connect, stop_timer_reset_connect}
use satip_client.Base.Search.{c_string, find_text}
use satip_client.Rtsp.Parse.{CLibrary, handle_response_setup}

-- What `recv` gives: the end of the stream, or some bytes, at most as many as it was given room.
pub data Received : Type 0 where
  end_of_stream : Received
  bytes_read : List ℕ → Received

-- The two readings of the clock that `processTS` takes.
pub record Clock : Type 0 where
  pub first : ℕ
  pub now : ℕ

-- `rtpTcpData`, as far as it reaches the configuration. It always returns 0.
unfoldable pub rtp_tcp_data : Clock → List ℕ → Config → Config
unfolding receive_ts
rtp_tcp_data clock frame c =
    if not (leb (length frame) 16) && byte_at frame 1 == 0
    then receive_ts clock.first clock.now (drop 16 frame) c
    else c

-- The blank line that ends an answer.
abbrev pub blank_line : Text
blank_line = 13 ∷ 10 ∷ 13 ∷ 10 ∷ []

-- The length of the interleaved frame at the start of the buffer.
abbrev pub frame_len : List ℕ → ℕ
frame_len rx = 4 + word16 (byte_at rx 2) (byte_at rx 3)

-- One round of the `while` loop over the frames, for a frame that is complete.
unfoldable pub take_frame : Clock → Rtsp → Rtsp
unfolding start_timer_reset_connect rtp_tcp_data
take_frame clock s =
    let s' = start_timer_reset_connect 4000 s in
    record s' {
      config = rtp_tcp_data clock (take (frame_len s.rx) s.rx) s.config;
      rx = drop (frame_len s.rx) s.rx;
    }

-- What one pass from the label `again` comes to: a return, or another pass with the values of `res`
-- and `res_code` that it leaves.
pub data Pass : Type 0 where
  returns : Rtsp → RtspResult → Pass
  again : RtspResult → ℕ → Rtsp → Pass

-- From the label `complete`: the answer leaves the buffer and the request is over.
unfoldable pub complete : List ℕ → RtspResult → ℕ → Rtsp → Pass
complete [] res code s = returns (record s { rx = []; request = request_none }) res
complete (b ∷ rest) res code s = again res code (record s { rx = b ∷ rest; request = request_none })

-- After the `switch`: an error resets the connection.
unfoldable pub conclude : List ℕ → ℕ → Rtsp × RtspResult → Pass
unfolding reset_connect stop_timer_reset_connect complete
conclude rest code (s, rtsp_error) = returns (reset_connect true s) rtsp_error
conclude rest code (s, response_complete) =
    complete rest response_complete code (stop_timer_reset_connect s)
conclude rest code (s, rtsp_ok) = complete rest rtsp_ok code s
conclude rest code (s, rtsp_failed) = complete rest rtsp_failed code s

abbrev pub is_describe : RtspRequest → Bool
is_describe request_describe = true
is_describe _ = false

module _ (libc : CLibrary) where
  -- The `switch` over the request that an answer of 200 belongs to; without one `res` stays.
  unfoldable pub accept : RtspRequest → RtspResult → Rtsp → Rtsp × RtspResult
  unfolding handle_response_setup
  accept request_none res s = (s, res)
  accept request_option res s = (s, response_complete)
  accept request_setup res s = handle_response_setup libc s
  accept request_play res s = (s, response_complete)
  accept request_teardown res s = (s, response_complete)
  accept request_describe res s = (s, response_complete)

  -- An answer of which the blank line has come; `rest` follows it.
  unfoldable pub answer : List ℕ → RtspResult → ℕ → Rtsp → Pass
  unfolding accept conclude complete stop_timer_reset_connect reset_connect c_string
  answer rest res code s =
      let heard = record s { wait_response = false } in
      let code' : ℕ = elim (libc.response_code (c_string s.rx)) [ none ↦ code | some n ↦ n ] in
      if is_describe s.request
      then complete rest response_complete code (stop_timer_reset_connect heard)
      else if code' == 200
      then conclude rest code' (accept s.request res heard)
      else returns (reset_connect true (record heard { rx = [] })) rtsp_error

  -- A pass that finds no frame at the start of the buffer.
  unfoldable pub text_pass : RtspResult → ℕ → Rtsp → Pass
  unfolding answer c_string find_text
  text_pass res code s =
      let text = c_string s.rx in
      elim (find_text blank_line text) [
        | none ↦ returns s rtsp_ok
        | some found ↦ answer (drop (length text - length found + 4) s.rx) res code s
      ]

  -- A pass that takes one frame or one answer.
  unfoldable pub pass : Clock → RtspResult → ℕ → Rtsp → Pass
  unfolding take_frame text_pass
  pass clock res code s =
      if not (leb 1 (length s.rx))
      then returns s rtsp_ok
      else if byte_at s.rx 0 == b'$'
      then (if not s.config.settings.tcpdata
          then returns s rtsp_error
          else if ltb (length s.rx) 4 || ltb (length s.rx) (frame_len s.rx)
          then returns s rtsp_ok
          else again res code (take_frame clock s))
      else text_pass res code s

  -- The passes, on fuel: each one shortens the buffer.
  unfoldable pub passes : ℕ → Clock → RtspResult → ℕ → Rtsp → Rtsp × RtspResult
  unfolding pass
  passes zero clock res code s = (s, rtsp_ok)
  passes (suc fuel) clock res code s = elim (pass clock res code s) [
    | returns s' res' ↦ (s', res')
    | again res' code' s' ↦ passes fuel clock res' code' s'
  ]

  -- `handleResponse`; a read that the buffer has no room for forgets what it holds.
  unfoldable pub handle_response : Clock → Received → Rtsp → Rtsp × RtspResult
  unfolding passes
  handle_response clock received s =
      if leb (s.rx_data_len - 1) (length s.rx)
      then (record s { rx = [] }, rtsp_error)
      else elim received [
        | end_of_stream ↦ (s, rtsp_error)
        | bytes_read bytes ↦
            let rx = s.rx ++ bytes in
            passes (suc (length rx)) clock rtsp_error 0 (record s { rx = rx })
      ]
