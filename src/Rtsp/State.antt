-- ===== src/Rtsp/State.antt =====
-- The state of `satipRTSP`.
use satip_client.Base.{
  ℕ, ◌-◌, ◌^◌, Bool, true, false, ◌||◌, ◌==◌, Option, none, some, List, [], ◌∷◌,
}
use satip_client.Base.Text.{Text}
use satip_client.Config.State.{Config}

-- `RTSP_STATUS_*`
pub data RtspStatus : Type 0 where
  config_waiting server_connecting session_establishing session_playing : RtspStatus
  session_transmitting session_teardowning : RtspStatus

-- `RTSP_REQUEST_*`
pub data RtspRequest : Type 0 where
  request_none request_option request_setup request_play request_teardown request_describe :
      RtspRequest

-- `RTSP_FAILED`, `RTSP_OK`, `RTSP_ERROR`, `RTSP_RESPONSE_COMPLETE`
pub data RtspResult : Type 0 where
  rtsp_failed rtsp_ok rtsp_error response_complete : RtspResult

-- An `int` of -1
abbrev pub minus_one : ℕ
minus_one = 2 ^ 32 - 1

-- A timer is `none` when it is not active, or runs with the interval of its last start. Fields of
-- type `int` hold their bit pattern. `rx` are the first `m_rx_data_pos` bytes of the buffer, and
-- `sent` the texts given to `send`, the last one first.
pub record Rtsp : Type 0 where
  pub host : Text
  pub port : Text
  pub rtp_port : ℕ
  pub config : Config
  pub timer_reset_connect : Option ℕ
  pub timer_keep_alive : Option ℕ
  pub timer_reconnect : Option ℕ
  pub reconnect_attempts : ℕ
  pub attempted_generation : ℕ
  pub is_open : Bool
  pub rx_data_len : ℕ
  pub rx : List ℕ
  pub status : RtspStatus
  pub request : RtspRequest
  pub session_id : Text
  pub stream_id : ℕ
  pub timeout : ℕ
  pub cseq : ℕ
  pub wait_response : Bool
  pub sent : List Text

abbrev pub is_active : Option ℕ → Bool
is_active none = false
is_active (some _) = true

abbrev pub is_empty_text : Text → Bool
is_empty_text [] = true
is_empty_text (_ ∷ _) = false

-- `m_rtsp_stream_id == -1 || m_rtsp_session_id.empty()`
unfoldable pub lacks_session : Rtsp → Bool
lacks_session s = s.stream_id == minus_one || is_empty_text s.session_id
