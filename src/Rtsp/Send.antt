-- ===== src/Rtsp/Send.antt =====
-- `sendRequest` and the five requests of rtsp.cpp. The outcome of `send` on the socket is an
-- argument: whether it took the text.
use satip_client.Base.{◌+◌, ◌%◌, ◌^◌, Bool, true, not, ◌==◌, if◌then◌else◌, [], ◌∷◌, ◌++◌}
use satip_client.Base.Text.{Text, codes, decimal}
use satip_client.Config.Header.{FrontendHeader}
use satip_client.Config.Request.{get_setup_data, get_play_data}
use satip_client.Config.Tuning.{signed_decimal}
use satip_client.Rtsp.State.{
  Rtsp, RtspRequest, request_none, request_option, request_setup, request_play, request_teardown,
  request_describe, RtspResult, rtsp_failed, rtsp_ok, rtsp_error, response_complete, minus_one,
  is_empty_text, lacks_session,
}
use satip_client.Rtsp.Timers.{reset_connect, start_timer_reset_connect, stop_timer_keep_alive}

abbrev crlf : Text
crlf = 13 ∷ 10 ∷ []

-- `"rtsp://" << m_host << ":" << m_port << "/"`
unfoldable pub server_url : Rtsp → Text
server_url s = codes "rtsp://" ++ (s.host ++ (codes ":" ++ (s.port ++ codes "/")))

unfoldable pub stream_path : Rtsp → Text
unfolding signed_decimal
stream_path s = codes "stream=" ++ signed_decimal s.stream_id

-- The stream, where there is one.
unfoldable pub stream_if_any : Rtsp → Text
unfolding stream_path
stream_if_any s = if not (s.stream_id == minus_one) then stream_path s else []

-- The end of the request line, and the line of the sequence number.
unfoldable pub version_and_cseq : Rtsp → Text
unfolding signed_decimal
version_and_cseq s =
    codes " RTSP/1.0" ++ (crlf ++ (codes "CSeq: " ++ (signed_decimal s.cseq ++ crlf)))

unfoldable pub session_line : Rtsp → Text
session_line s = codes "Session: " ++ (s.session_id ++ crlf)

-- `m_rtsp_cseq++` and `send`
unfoldable pub transmit : Bool → Text → Rtsp → Rtsp × RtspResult
transmit send_ok text s =
    let numbered = record s { cseq = (s.cseq + 1) % 2 ^ 32 } in
    if send_ok then (record numbered { sent = text ∷ s.sent }, rtsp_ok) else (numbered, rtsp_error)

unfoldable pub transport_line : Rtsp → Text
unfolding decimal
transport_line s =
    if s.config.settings.tcpdata
    then codes "Transport: RTP/AVP/TCP;interleaved=0-1" ++ crlf
    else codes "Transport: RTP/AVP;unicast;client_port="
      ++ (decimal s.rtp_port ++ (codes "-" ++ (decimal (s.rtp_port + 1) ++ crlf)))

module _ (k : FrontendHeader) where
  -- `sendSetup`
  unfoldable pub send_setup : Bool → Rtsp → Rtsp × RtspResult
  unfolding server_url stream_if_any version_and_cseq session_line transport_line transmit
      get_setup_data
  send_setup send_ok s =
      let (config, data_text) = get_setup_data k s.config in
      let text =
        codes "SETUP "
        ++ (server_url s
            ++ (stream_if_any s
                ++ (data_text
                    ++ (version_and_cseq s
                        ++ ((if not (is_empty_text s.session_id) then session_line s else [])
                            ++ (transport_line s ++ crlf)))))) in
      transmit send_ok text (record s { config = config })

  -- `sendPlay`
  unfoldable pub send_play : Bool → Rtsp → Rtsp × RtspResult
  unfolding server_url stream_path version_and_cseq session_line transmit get_play_data
      lacks_session
  send_play send_ok s =
      let (config, data_text) = get_play_data k s.config in
      let text =
        codes "PLAY "
        ++ (server_url s
            ++ (stream_path s
                ++ (data_text ++ (version_and_cseq s ++ (session_line s ++ crlf))))) in
      if lacks_session s
      then (s, rtsp_error)
      else transmit send_ok text (record s { config = config })

-- `sendOption`
unfoldable pub send_option : Bool → Rtsp → Rtsp × RtspResult
unfolding server_url version_and_cseq session_line transmit lacks_session
send_option send_ok s =
    let text =
      codes "OPTIONS " ++ (server_url s ++ (version_and_cseq s ++ (session_line s ++ crlf))) in
    if lacks_session s then (s, rtsp_error) else transmit send_ok text s

-- `sendTearDown`
unfoldable pub send_teardown : Bool → Rtsp → Rtsp × RtspResult
unfolding server_url stream_path version_and_cseq session_line transmit lacks_session
send_teardown send_ok s =
    let text =
      codes "TEARDOWN "
      ++ (server_url s ++ (stream_path s ++ (version_and_cseq s ++ (session_line s ++ crlf)))) in
    if lacks_session s then (s, rtsp_error) else transmit send_ok text s

-- `sendDescribe`
unfoldable pub send_describe : Bool → Rtsp → Rtsp × RtspResult
unfolding server_url stream_if_any version_and_cseq transmit
send_describe send_ok s =
    let text =
      codes "DESCRIBE "
      ++ (server_url s
          ++ (stream_if_any s
              ++ (version_and_cseq s ++ (codes "Accept: application/sdp" ++ (crlf ++ crlf))))) in
    transmit send_ok text s

-- What `sendRequest` does with the result of its `switch`.
unfoldable pub after_send : RtspRequest → Rtsp × RtspResult → Rtsp × RtspResult
unfolding reset_connect start_timer_reset_connect
after_send request (s, rtsp_ok) =
    (start_timer_reset_connect 4000 (record s { wait_response = true; request = request }), rtsp_ok)
after_send request (s, rtsp_failed) = (reset_connect true s, rtsp_failed)
after_send request (s, rtsp_error) = (reset_connect true s, rtsp_error)
after_send request (s, response_complete) = (reset_connect true s, response_complete)

module _ (k : FrontendHeader) where
  -- The `switch` of `sendRequest`
  unfoldable pub send_text : RtspRequest → Bool → Rtsp → Rtsp × RtspResult
  unfolding send_setup send_play send_option send_teardown send_describe
  send_text request_option send_ok s = send_option send_ok s
  send_text request_setup send_ok s = send_setup k send_ok s
  send_text request_play send_ok s = send_play k send_ok s
  send_text request_teardown send_ok s = send_teardown send_ok s
  send_text request_describe send_ok s = send_describe send_ok s
  send_text request_none send_ok s = (s, rtsp_error)

  -- `sendRequest`
  unfoldable pub send_request : RtspRequest → Bool → Rtsp → Rtsp × RtspResult
  unfolding send_text after_send stop_timer_keep_alive
  send_request request send_ok s =
      if s.wait_response
      then (s, rtsp_failed)
      else after_send request (send_text request send_ok (stop_timer_keep_alive s))
