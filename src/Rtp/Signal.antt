-- ===== src/Rtp/Signal.antt =====
-- The lock and the quality of the signal that the tuner is told.
use satip_client.Base.{
  ℕ, Bool, zero, suc, ◌+◌, ◌≡◌, refl, true, false, ◌&&◌, ltb, ◌==◌, if◌then◌else◌, Option, none,
  some, List, [], ◌∷◌, drop, Option-cases, inl, inr, length, ◌>>=◌, if-both, take, subst,
  >>=-eq-some,
}
use satip_client.Base.Text.{codes}
use satip_client.Base.Search.{c_string, find_text}
use satip_client.Base.Int.{ℤ}
use satip_client.Psi.Bytes.{byte_at, word16}
use satip_client.Rtp.{
  Rtp, Scan, unset, scaled, is_locked, set_signal, parse_rtcp_app_payload, app_packet, rtcp_packet,
  rtcp_loop, rtcp_data, after_packet,
}

-- No quality without a lock.
pub record IsSignal (rtp : Rtp) : Type 0 where
  pub unlocked : rtp.has_lock ≡ false → rtp.signal_quality ≡ 0

-- Where there is a result, it is as good as what was before.
abbrev KeepsSignal : Option Rtp → Type 0
KeepsSignal r = (rtp : Rtp) → r ≡ some rtp → IsSignal rtp

some_injective : {a b : Rtp} → some a ≡ some b → a ≡ b
some_injective h = cc

same_quality : {m n : ℕ} → some m ≡ some n → n ≡ m
same_quality h = cc

no_quality :
    (locked : Bool) (o : Option ℕ) (q : ℕ)
    → (if locked then o else some 0) ≡ some q
    → locked ≡ false
    → q ≡ 0
no_quality true o q h u = absurd (cc)
no_quality false o q h u = same_quality h

-- Whatever numbers a report has, no quality is taken over without a lock.
set_signal-IsSignal : (numbers : ℤ × ℤ × ℤ) (rtp : Rtp) → KeepsSignal (set_signal numbers rtp)
unfolding set_signal
set_signal-IsSignal (level, lock, quality) rtp rtp' h =
    let (s, es, rest) = >>=-eq-some (scaled 255 level) _ h in
    let (q, eq, last) = >>=-eq-some (if is_locked lock then scaled 15 quality else some 0) _ rest in
    subst IsSignal (some_injective last)
      (record { unlocked = no_quality (is_locked lock) (scaled 15 quality) q eq })

pub unset-IsSignal : (rtp : Rtp) → IsSignal (unset rtp)
unfolding unset
unset-IsSignal rtp = record { unlocked = λ u. refl }

module _ (scan : Scan) where
  report-IsSignal :
      (o : Option (ℤ × ℤ × ℤ)) (rtp : Rtp) → KeepsSignal (o >>= λ numbers. set_signal numbers rtp)
  report-IsSignal none rtp rtp' h = cc
  report-IsSignal (some numbers) rtp rtp' h = set_signal-IsSignal numbers rtp rtp' h

  parse_rtcp_app_payload-IsSignal :
      (payload : List ℕ) (rtp : Rtp) → KeepsSignal (parse_rtcp_app_payload scan payload rtp)
  unfolding parse_rtcp_app_payload
  parse_rtcp_app_payload-IsSignal payload rtp =
      elim (Option-cases (find_text (codes ";tuner=") (c_string payload))) [
        | inl e ↦
            rw (e, parse_rtcp_app_payload)
              (λ r h. subst IsSignal (some_injective h) (unset-IsSignal rtp))
        | inr (tuner, e) ↦
            rw (e, parse_rtcp_app_payload)
              (elim (Option-cases (find_text (codes ",") tuner)) [
                | inl n ↦ rw n (λ r h. cc)
                | inr (fields, f) ↦ rw f (report-IsSignal (scan fields) (unset rtp))
              ])
      ]

  rtcp_packet-IsSignal :
      (p : List ℕ) (rtp : Rtp) → IsSignal rtp → KeepsSignal (rtcp_packet scan p rtp)
  unfolding rtcp_packet app_packet
  rtcp_packet-IsSignal p rtp v =
      let stays : KeepsSignal (some rtp) = λ r h. subst IsSignal (some_injective h) v in
      let fails : KeepsSignal none = λ r h. cc in
      let string_length = word16 (byte_at p 14) (byte_at p 15) in
      if-both KeepsSignal (byte_at p 1 == 204 && ltb 1 (word16 (byte_at p 2) (byte_at p 3))) _ _
        (if-both KeepsSignal (ltb (length p) 16) _ _ fails (
          if-both KeepsSignal (string_length == 0) _ _ stays (
            if-both KeepsSignal (ltb (length p) (16 + string_length)) _ _ fails
              (parse_rtcp_app_payload-IsSignal (take string_length (drop 16 p)) rtp))))
        stays

  rtcp_loop-IsSignal :
      (fuel : ℕ) (p : List ℕ) (rtp : Rtp) → IsSignal rtp → KeepsSignal (rtcp_loop scan fuel p rtp)
  unfolding rtcp_loop
  rtcp_loop-IsSignal zero p rtp v r h = subst IsSignal (some_injective h) v
  rtcp_loop-IsSignal (suc fuel) [] rtp v r h = subst IsSignal (some_injective h) v
  rtcp_loop-IsSignal (suc fuel) (b ∷ p) rtp v r h =
      let first : Option Rtp =
        if ltb (length (b ∷ p)) 4 then none else rtcp_packet scan (b ∷ p) rtp in
      let good : KeepsSignal first =
        if-both KeepsSignal (ltb (length (b ∷ p)) 4) _ _ (λ r h. cc)
          (rtcp_packet-IsSignal (b ∷ p) rtp v) in
      let (rtp', e, rest) =
        >>=-eq-some first (λ rtp'. rtcp_loop scan fuel (after_packet scan (b ∷ p)) rtp') h in
      rtcp_loop-IsSignal fuel (after_packet scan (b ∷ p)) rtp' (good rtp' e) r rest

  -- Whatever bytes arrive and whatever numbers `sscanf` reads, `rtcpData` leaves no quality without a
  -- lock, where it is defined at all.
  pub rtcp_data-IsSignal :
      (p : List ℕ) (rtp rtp' : Rtp)
      → IsSignal rtp
      → rtcp_data scan p rtp ≡ some rtp'
      → IsSignal rtp'
  unfolding rtcp_data
  rtcp_data-IsSignal p rtp rtp' v h = rtcp_loop-IsSignal (length p) p rtp v rtp' h
