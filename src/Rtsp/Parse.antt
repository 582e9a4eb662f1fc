-- ===== src/Rtsp/Parse.antt =====
-- The searches in the received text: `strstr`, `strchr`, `strcspn` and `isspace` as the handlers of
-- the responses use them, and `handleResponseSetup`. A text ends before its first zero byte.
use satip_client.Base.{
  ℕ, Bool, ◌&&◌, ◌||◌, leb, ◌==◌, if◌then◌else◌, Option, none, some, [], ◌∷◌, drop, ◌>>=◌,
}
use satip_client.Base.Search.{c_string, find_text}
use satip_client.Base.Text.{Text, codes}
use satip_client.Rtsp.State.{Rtsp, RtspResult, rtsp_error, response_complete}

-- The C library's conversions: `strtol(text, 0, 0)` as the bit pattern of the `int` it is stored
-- in, and the number that `sscanf(text, "RTSP/%*s %d", ..)` stores, if it stores one.
pub record CLibrary : Type 0 where
  pub strtol : Text → ℕ
  pub response_code : Text → Option ℕ

-- `isspace`
unfoldable pub is_space : ℕ → Bool
is_space b = b == b' ' || (leb 9 b && leb b 13)

-- `do { ptr++; } while (isspace(*ptr))` from the first character on
unfoldable pub skip_spaces : Text → Text
unfolding is_space
skip_spaces [] = []
skip_spaces (b ∷ text) = let later = skip_spaces text in if is_space b then later else b ∷ text

-- The text before the first `;` or newline: `strcspn(text, ";\n")` characters.
unfoldable pub until_end : Text → Text
until_end [] = []
until_end (b ∷ text) = let later = until_end text in if b == b';' || b == 10 then [] else b ∷ later

-- The loop that walks back over white space.
unfoldable pub strip_end : Text → Text
unfolding is_space
strip_end [] = []
strip_end (b ∷ text) =
    let later = strip_end text in
    elim later [ [] ↦ if is_space b then [] else b ∷ [] | (c ∷ rest) ↦ b ∷ c ∷ rest ]

-- What follows `name` and then `sep`.
unfoldable pub value_after : Text → ℕ → Text → Option Text
unfolding find_text
value_after name sep text = do
  at_name ← find_text name text
  at_sep ← find_text (sep ∷ []) at_name
  some (drop 1 at_sep)

module _ (libc : CLibrary) where
  -- `m_rtsp_timeout`, after the answer
  unfoldable pub with_timeout : Text → Rtsp → Rtsp
  unfolding value_after
  with_timeout text s = elim (value_after (codes "timeout") b'=' text) [
    | none ↦ s
    | some value ↦ record s { timeout = libc.strtol value }
  ]

  unfoldable pub with_stream_id : Text → Rtsp → Rtsp × RtspResult
  unfolding value_after
  with_stream_id text s = elim (value_after (codes "com.ses.streamID") b':' text) [
    | none ↦ (s, rtsp_error)
    | some value ↦ (record s { stream_id = libc.strtol value }, response_complete)
  ]

  -- `handleResponseSetup`. The source copies the session's text into 1024 bytes without a test of
  -- its length, which the model does not bound.
  unfoldable pub handle_response_setup : Rtsp → Rtsp × RtspResult
  unfolding value_after with_timeout with_stream_id c_string skip_spaces until_end strip_end
  handle_response_setup s =
      let text = c_string s.rx in
      elim (value_after (codes "Session") b':' text) [
        | none ↦ (s, rtsp_error)
        | some value ↦ with_stream_id text (
            with_timeout text (record s { session_id = strip_end (until_end (skip_spaces value)) }))
      ]
