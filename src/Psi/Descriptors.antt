-- ===== src/Psi/Descriptors.antt =====
-- `collectCaDescriptors` and `caidAllowed` of psi.cpp: the CA pids that a list of descriptors names.
pub mod Roundtrip
use satip_client.Base.{
  ℕ, zero, suc, ◌+◌, ◌-◌, ◌≤◌, ◌<◌, ◌≡◌, Bool, true, false, ◌||◌, ◌&&◌, not, ltb, leb, ◌==◌,
  if◌then◌else◌, List, [], ◌∷◌, ◌++◌, length, take, drop,
}
use satip_client.Base.Sets.{contains, insert}
use satip_client.Psi.Bytes.{byte_at, pid13, word16, pid_null}

-- `m_caid_filter.empty()`
abbrev pub is_empty : List ℕ → Bool
is_empty [] = true
is_empty (_ ∷ _) = false

-- `caidAllowed`
unfoldable pub caid_allowed : List ℕ → ℕ → Bool
unfolding contains
caid_allowed filter caid = is_empty filter || contains caid filter

-- One descriptor: its tag, and its body of `dlen` bytes.
unfoldable pub ca_descriptor : List ℕ → ℕ → List ℕ → List ℕ → List ℕ
unfolding caid_allowed insert
ca_descriptor filter tag body out =
    let caid = word16 (byte_at body 0) (byte_at body 1) in
    let ca_pid = pid13 (byte_at body 2) (byte_at body 3) in
    if tag == 0x09
      && leb 4 (length body)
      && (ltb 0 ca_pid && ltb ca_pid pid_null)
      && caid_allowed filter caid
    then insert ca_pid out
    else out

-- The loop, with the bytes from `pos` on. A round takes two bytes or more.
unfoldable pub collect_loop : ℕ → List ℕ → List ℕ → List ℕ → List ℕ
collect_loop zero filter p out = out
collect_loop (suc fuel) filter [] out = out
collect_loop (suc fuel) filter (tag ∷ []) out = out
collect_loop (suc fuel) filter (tag ∷ dlen ∷ p) out = elim (ltb (length p) dlen) [
  | true ↦ out
  | false ↦ collect_loop fuel filter (drop dlen p) (ca_descriptor filter tag (take dlen p) out)
]

-- `collectCaDescriptors(p, len, out, what)`
unfoldable pub collect_ca_descriptors : List ℕ → List ℕ → List ℕ → List ℕ
unfolding collect_loop ca_descriptor
collect_ca_descriptors filter p out = collect_loop (length p) filter p out
