-- ===== src/Rtp/Packets.antt =====
-- Compound RTCP packets: what is encoded is what `rtcpData` hears, and nothing past it is read.
use satip_client.Base.{
  ℕ, ◌+◌, ◌*◌, ◌/◌, ◌%◌, ◌^◌, ◌≤◌, ◌<◌, ◌≡◌, Bool, true, ◌&&◌, not, ltb, ◌==◌, if◌then◌else◌,
  Option, some, List, [], ◌∷◌, ◌++◌, length, take, drop, ◌>>=◌,
}
use satip_client.Psi.Bytes.{byte_at, word16}
use satip_client.Rtp.{Rtp, Scan, parse_rtcp_app_payload}

-- A packet: the first byte and the type of its header, and its body in words of four bytes.
pub record Packet : Type 0 where
  pub first : ℕ
  pub kind : ℕ
  pub words : ℕ
  pub body : List ℕ

abbrev pub encode_packet : Packet → List ℕ → List ℕ
encode_packet k rest = k.first ∷ k.kind ∷ k.words / 256 ∷ k.words % 256 ∷ (k.body ++ rest)

abbrev pub encode_packets : List Packet → List ℕ
encode_packets [] = []
encode_packets (k ∷ ks) = encode_packet k (encode_packets ks)

abbrev pub string_length : Packet → ℕ
string_length k = word16 (byte_at k.body 10) (byte_at k.body 11)

-- An application defined packet with a name and some data.
abbrev pub is_app : Packet → Bool
is_app k = k.kind == 204 && ltb 1 k.words

-- The body has the announced words; an application defined one has a string within them.
pub record IsPacket (k : Packet) : Type 0 where
  pub counted : length k.body ≡ k.words * 4
  pub fits : k.words < 2 ^ 16
  pub has_string : is_app k ≡ true → (12 ≤ length k.body) × (12 + string_length k ≤ length k.body)

module _ (scan : Scan) where
  -- What a packet says of the signal.
  unfoldable pub hear : Packet → Rtp → Option Rtp
  hear k rtp =
      if is_app k && not (string_length k == 0)
      then parse_rtcp_app_payload scan (take (string_length k) (drop 12 k.body)) rtp
      else some rtp

  unfoldable pub hear_all : List Packet → Rtp → Option Rtp
  unfolding hear
  hear_all [] rtp = some rtp
  hear_all (k ∷ ks) rtp = hear k rtp >>= hear_all ks
