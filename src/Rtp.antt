-- ===== src/Rtp.antt =====
-- rtp.cpp and rtp.h: the signal reported by RTCP, the ports, and the way of the stream to the tuner.
-- What the source leaves undefined is `none`: a null pointer, a value never set, an `int` that
-- overflows, and a read past the bytes of a packet.
pub mod Packets
pub mod Signal
pub mod Ports
pub mod Writing
use satip_client.Base.{
  ℕ, zero, suc, ◌+◌, ◌-◌, ◌*◌, ◌/◌, ◌^◌, Bool, true, false, ◌&&◌, ◌||◌, not, ltb, leb, ◌==◌,
  if◌then◌else◌, Option, none, some, List, [], ◌∷◌, length, take, drop, ◌>>=◌,
}
use satip_client.Base.Text.{Text, codes}
use satip_client.Base.Search.{c_string, find_text}
use satip_client.Base.Int.{ℤ, pos, negsuc}
use satip_client.Psi.Bytes.{byte_at, word16}

-- The members that RTCP sets.
pub record Rtp : Type 0 where
  pub has_lock : Bool
  pub signal_strength : ℕ
  pub signal_quality : ℕ

-- `unset`; the constructor sets the same values
unfoldable pub unset : Rtp → Rtp
unset rtp = record { has_lock = false; signal_strength = 0; signal_quality = 0 }

-- `value * 65535 / max`, and 0 for a negative value
unfoldable pub scaled : ℕ → ℤ → Option ℕ
scaled max (pos n) = if ltb (n * 65535) (2 ^ 31) then some (n * 65535 / max) else none
scaled max (negsuc n) = some 0

-- `!!lock`
unfoldable pub is_locked : ℤ → Bool
is_locked (pos n) = not (n == 0)
is_locked (negsuc n) = true

unfoldable pub set_signal : ℤ × ℤ × ℤ → Rtp → Option Rtp
unfolding scaled is_locked
set_signal (level, lock, quality) rtp = do
  strength ← scaled 255 level
  scaled_quality ← (if is_locked lock then scaled 15 quality else some 0)
  some (record {
    has_lock = is_locked lock;
    signal_strength = strength;
    signal_quality = scaled_quality;
  })

-- The numbers that `sscanf(text, ",%d,%d,%d,%*s", ..)` stores, if it stores all three.
abbrev pub Scan : Type 0
Scan = Text → Option (ℤ × ℤ × ℤ)

module _ (scan : Scan) where
  -- `parseRtcpAppPayload`
  unfoldable pub parse_rtcp_app_payload : List ℕ → Rtp → Option Rtp
  unfolding unset set_signal c_string find_text
  parse_rtcp_app_payload payload rtp = elim (find_text (codes ";tuner=") (c_string payload)) [
    | none ↦ some (unset rtp)
    | some tuner ↦ do
      fields ← find_text (codes ",") tuner
      numbers ← scan fields
      set_signal numbers (unset rtp)
  ]

  -- The case of an application defined packet: `p` are the bytes from its header on. The length of
  -- the string stands in the fourth word, the string behind it.
  unfoldable pub app_packet : List ℕ → Rtp → Option Rtp
  unfolding parse_rtcp_app_payload
  app_packet p rtp =
      let string_length = word16 (byte_at p 14) (byte_at p 15) in
      if ltb (length p) 16
      then none
      else if string_length == 0
      then some rtp
      else if ltb (length p) (16 + string_length)
      then none
      else parse_rtcp_app_payload (take string_length (drop 16 p)) rtp

  -- The `switch` on the packet type
  unfoldable pub rtcp_packet : List ℕ → Rtp → Option Rtp
  unfolding app_packet
  rtcp_packet p rtp =
      if byte_at p 1 == 204 && ltb 1 (word16 (byte_at p 2) (byte_at p 3))
      then app_packet p rtp
      else some rtp

  -- The bytes from the next packet on.
  abbrev pub after_packet : List ℕ → List ℕ
  after_packet p = drop ((word16 (byte_at p 2) (byte_at p 3) + 1) * 4) p

  -- The loop; each round leaves at least four bytes behind.
  unfoldable pub rtcp_loop : ℕ → List ℕ → Rtp → Option Rtp
  unfolding rtcp_packet
  rtcp_loop zero p rtp = some rtp
  rtcp_loop (suc fuel) [] rtp = some rtp
  rtcp_loop (suc fuel) (b ∷ p) rtp =
      (if ltb (length (b ∷ p)) 4 then none else rtcp_packet (b ∷ p) rtp) >>= λ rtp'.
      rtcp_loop fuel (after_packet (b ∷ p)) rtp'

  -- `rtcpData`
  unfoldable pub rtcp_data : List ℕ → Rtp → Option Rtp
  unfolding rtcp_loop
  rtcp_data p rtp = rtcp_loop (length p) p rtp

  -- `rtpTcpData`, as far as it reaches the members: the frames of the second channel.
  unfoldable pub rtcp_frame : List ℕ → Rtp → Option Rtp
  unfolding rtcp_data
  rtcp_frame frame rtp =
      if not (leb (length frame) 16) && byte_at frame 1 == 1
      then rtcp_data (drop 4 frame) rtp
      else some rtp
