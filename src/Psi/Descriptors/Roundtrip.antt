-- ===== src/Psi/Descriptors/Roundtrip.antt =====
-- The descriptors as a list of values: what is encoded is what `collectCaDescriptors` finds.
use satip_client.Base.{
  ℕ, zero, suc, ◌≤◌, ◌≡◌, refl, Bool, true, false, ◌||◌, ◌&&◌, ltb, leb, ◌==◌, List, [], ◌∷◌, ◌++◌,
  length, take, drop, arith, length-append, take-append, drop-append, length-drop, inl, inr,
  Bool-cases,
}
use satip_client.Base.Sets.{contains, contains-insert, IsOrdered, insert-IsOrdered}
use satip_client.Psi.Bytes.{byte_at, pid13, word16, pid_null}
use satip_client.Psi.Descriptors.{caid_allowed, ca_descriptor, collect_loop, collect_ca_descriptors}

-- A descriptor: tag, and body.
pub record Descriptor : Type 0 where
  pub tag : ℕ
  pub body : List ℕ

abbrev pub encode : List Descriptor → List ℕ
encode [] = []
encode (d ∷ ds) = d.tag ∷ length d.body ∷ (d.body ++ encode ds)

-- What one descriptor says: the CA pid, if it is a CA descriptor with a pid in range whose CA
-- system passes the filter.
abbrev pub announces : List ℕ → ℕ → Descriptor → Bool
announces filter pid d =
    d.tag == 0x09
    && leb 4 (length d.body)
    && (pid13 (byte_at d.body 2) (byte_at d.body 3) == pid)
    && (ltb 0 pid && ltb pid pid_null)
    && caid_allowed filter (word16 (byte_at d.body 0) (byte_at d.body 1))

unfoldable pub any_announces : List ℕ → ℕ → List Descriptor → Bool
any_announces filter pid [] = false
any_announces filter pid (d ∷ ds) = announces filter pid d || any_announces filter pid ds

contains-ca_descriptor :
    (filter : List ℕ) (pid : ℕ) (d : Descriptor) (out : List ℕ)
    → contains pid (ca_descriptor filter d.tag d.body out)
      ≡ (announces filter pid d || contains pid out)
unfolding ca_descriptor
contains-ca_descriptor filter pid d out =
    let ca_pid = pid13 (byte_at d.body 2) (byte_at d.body 3) in
    ground (arith, contains-insert pid ca_pid out)

ca_descriptor-IsOrdered :
    (filter : List ℕ) (tag : ℕ) (body out : List ℕ)
    → IsOrdered out
    → IsOrdered (ca_descriptor filter tag body out)
unfolding ca_descriptor
ca_descriptor-IsOrdered filter tag body out h =
    ground (arith, insert-IsOrdered (pid13 (byte_at body 2) (byte_at body 3)) out h)

-- A round of the loop: its two ways out and its way on.
collect_loop_cut :
    (fuel : ℕ) (filter : List ℕ) (tag dlen : ℕ) (p out : List ℕ)
    → ltb (length p) dlen ≡ true
    → collect_loop (suc fuel) filter (tag ∷ dlen ∷ p) out ≡ out
unfolding collect_loop
collect_loop_cut fuel filter tag dlen p out h = rw (h, collect_loop)

collect_loop_next :
    (fuel : ℕ) (filter : List ℕ) (tag dlen : ℕ) (p out : List ℕ)
    → ltb (length p) dlen ≡ false
    → collect_loop (suc fuel) filter (tag ∷ dlen ∷ p) out
      ≡ collect_loop fuel filter (drop dlen p) (ca_descriptor filter tag (take dlen p) out)
unfolding collect_loop
collect_loop_next fuel filter tag dlen p out h = rw (h, collect_loop)

-- The set stays in order, whatever the bytes are.
pub collect_loop-IsOrdered :
    (fuel : ℕ) (filter p out : List ℕ) → IsOrdered out → IsOrdered (collect_loop fuel filter p out)
collect_loop-IsOrdered zero filter p out h = unfold collect_loop in h
collect_loop-IsOrdered (suc fuel) filter [] out h = unfold collect_loop in h
collect_loop-IsOrdered (suc fuel) filter (tag ∷ []) out h = unfold collect_loop in h
collect_loop-IsOrdered (suc fuel) filter (tag ∷ dlen ∷ p) out h =
    elim (Bool-cases (ltb (length p) dlen)) [
      | inl cut ↦ rw (collect_loop_cut fuel filter tag dlen p out cut) h
      | inr whole ↦ rw (collect_loop_next fuel filter tag dlen p out whole) (
          collect_loop-IsOrdered fuel filter (drop dlen p)
            (ca_descriptor filter tag (take dlen p) out)
            (ca_descriptor-IsOrdered filter tag (take dlen p) out h))
    ]

-- The loop over the descriptors ends by its own tests: every bound on the rounds that is not less
-- than the number of bytes gives the same result.
collect_loop_fuel :
    (f g : ℕ) (filter p out : List ℕ)
    → length p ≤ f
    → length p ≤ g
    → collect_loop f filter p out ≡ collect_loop g filter p out
collect_loop_fuel zero zero filter [] out h k = refl
collect_loop_fuel zero (suc g) filter [] out h k = unfold collect_loop in refl
collect_loop_fuel (suc f) zero filter [] out h k = unfold collect_loop in refl
collect_loop_fuel (suc f) (suc g) filter [] out h k = unfold collect_loop in refl
collect_loop_fuel zero g filter (tag ∷ p) out h k = absurd (omega arith)
collect_loop_fuel (suc f) zero filter (tag ∷ p) out h k = absurd (omega arith)
collect_loop_fuel (suc f) (suc g) filter (tag ∷ []) out h k = unfold collect_loop in refl
collect_loop_fuel (suc f) (suc g) filter (tag ∷ dlen ∷ p) out h k =
    elim (Bool-cases (ltb (length p) dlen)) [
      | inl cut ↦
          rw
            (
              collect_loop_cut f filter tag dlen p out cut,
              collect_loop_cut g filter tag dlen p out cut,
            )
            refl
      | inr whole ↦
          rw
            (
              collect_loop_next f filter tag dlen p out whole,
              collect_loop_next g filter tag dlen p out whole,
            )
            (collect_loop_fuel f g filter (drop dlen p) (ca_descriptor filter tag (take dlen p) out)
              (omega (arith, length-drop dlen p)) (omega (arith, length-drop dlen p)))
    ]

collect_loop-encode :
    (fuel : ℕ) (filter : List ℕ) (pid : ℕ) (ds : List Descriptor) (out : List ℕ)
    → length (encode ds) ≤ fuel
    → contains pid (collect_loop fuel filter (encode ds) out)
      ≡ (any_announces filter pid ds || contains pid out)
unfolding any_announces
collect_loop-encode zero filter pid [] out h = unfold collect_loop in refl
collect_loop-encode (suc fuel) filter pid [] out h = unfold collect_loop in refl
collect_loop-encode zero filter pid (d ∷ ds) out h = absurd (omega arith)
collect_loop-encode (suc fuel) filter pid (d ∷ ds) out h =
    let fits : ltb (length (d.body ++ encode ds)) (length d.body) ≡ false =
      ground (arith, length-append d.body (encode ds)) in
    let out' = ca_descriptor filter d.tag d.body out in
    rw
      (
        collect_loop_next fuel filter d.tag (length d.body) (d.body ++ encode ds) out fits,
        take-append d.body (encode ds),
        drop-append d.body (encode ds),
      )
      (ground (
        arith,
        collect_loop-encode fuel filter pid ds out'
            (omega (arith, length-append d.body (encode ds))),
        contains-ca_descriptor filter pid d out,
      ))

-- From encoded descriptors `collectCaDescriptors` adds to the set exactly the pids of the CA
-- descriptors that lie in 1 to 0x1ffe and whose CA system passes the filter.
pub collect-encode :
    (filter : List ℕ) (pid : ℕ) (ds : List Descriptor) (out : List ℕ)
    → contains pid (collect_ca_descriptors filter (encode ds) out)
      ≡ (any_announces filter pid ds || contains pid out)
unfolding collect_ca_descriptors
collect-encode filter pid ds out =
    collect_loop-encode (length (encode ds)) filter pid ds out (omega arith)
