-- ===== src/Psi/Tables/Programs.antt =====
-- The tables as lists of values: what `parsePAT` and `parsePMT` read from encoded entries.
use satip_client.Base.{
  ℕ, zero, suc, ◌+◌, ◌*◌, ◌/◌, ◌%◌, ◌^◌, ◌≤◌, ◌<◌, ◌≡◌, refl, Bool, false, ◌||◌, ◌&&◌, not, ltb,
  ◌==◌, List, [], ◌∷◌, ◌++◌, length, take, drop, All, arith, length-append, take-append,
  drop-append,
}
use satip_client.Base.Sets.{contains, contains-insert}
use satip_client.Psi.Bytes.{length12, pid13, word16, pid_null}
use satip_client.Psi.Descriptors.{collect_ca_descriptors}
use satip_client.Psi.Descriptors.Roundtrip.{Descriptor, encode, any_announces, collect-encode}
use satip_client.Psi.Tables.{pat_entry, pat_loop, add_es_pid, es_loop}

-- An entry of the PAT: a program number, and the pid of its PMT.
pub record Program : Type 0 where
  pub number : ℕ
  pub pmt_pid : ℕ

abbrev pub IsProgram : Program → Type 0
IsProgram g = (g.number < 2 ^ 16) × (g.pmt_pid < 2 ^ 13)

-- Four bytes, with the three reserved bits set.
abbrev pub encode_pat : List Program → List ℕ
encode_pat [] = []
encode_pat (g ∷ gs) =
    g.number / 256 ∷ g.number % 256 ∷ (7 * 32 + g.pmt_pid / 256) ∷ g.pmt_pid % 256 ∷ encode_pat gs

-- The program is a service (0 is the network table), with a pid in 1 to 0x1ffe.
abbrev pub names_pmt : ℕ → Program → Bool
names_pmt p g = not (g.number == 0) && (g.pmt_pid == p && (ltb 0 p && ltb p pid_null))

unfoldable pub any_names_pmt : ℕ → List Program → Bool
any_names_pmt p [] = false
any_names_pmt p (g ∷ gs) = names_pmt p g || any_names_pmt p gs

pat_entry-encode :
    (p : ℕ) (g : Program) (pids : List ℕ)
    → IsProgram g
    → contains p (
        pat_entry
          (g.number / 256)
          (g.number % 256)
          (7 * 32 + g.pmt_pid / 256)
          (g.pmt_pid % 256)
          pids)
      ≡ (names_pmt p g || contains p pids)
unfolding pat_entry
pat_entry-encode p g pids v =
    let number : word16 (g.number / 256) (g.number % 256) ≡ g.number = omega arith in
    let pid : pid13 (7 * 32 + g.pmt_pid / 256) (g.pmt_pid % 256) ≡ g.pmt_pid = omega arith in
    rw (number, pid) (ground (arith, contains-insert p g.pmt_pid pids))

-- From encoded programs the loop of `parsePAT` gathers exactly the PMT pids of the services.
pub pat_loop-encode :
    (p : ℕ) (gs : List Program) (pids : List ℕ)
    → All IsProgram gs
    → contains p (pat_loop (encode_pat gs) pids) ≡ (any_names_pmt p gs || contains p pids)
unfolding pat_loop any_names_pmt
pat_loop-encode p [] pids v = refl
pat_loop-encode p (g ∷ gs) pids v =
    let pids' =
      pat_entry (g.number / 256) (g.number % 256) (7 * 32 + g.pmt_pid / 256) (g.pmt_pid % 256)
        pids in
    ground (arith, pat_loop-encode p gs pids' v.1, pat_entry-encode p g pids v.0)

-- An elementary stream of a PMT, with its descriptors.
pub record Stream : Type 0 where
  pub stream_type : ℕ
  pub es_pid : ℕ
  pub descriptors : List Descriptor

abbrev pub IsStream : Stream → Type 0
IsStream t = (t.es_pid < 2 ^ 13) × (length (encode t.descriptors) < 2 ^ 12)

abbrev pub encode_pmt : List Stream → List ℕ
encode_pmt [] = []
encode_pmt (t ∷ ts) =
    let info = encode t.descriptors in
    t.stream_type
    ∷ (7 * 32 + t.es_pid / 256)
    ∷ t.es_pid % 256
    ∷ (15 * 16 + length info / 256)
    ∷ length info % 256
    ∷ (info ++ encode_pmt ts)

unfoldable pub any_ecm : List ℕ → ℕ → List Stream → Bool
unfolding any_announces
any_ecm filter p [] = false
any_ecm filter p (t ∷ ts) = any_announces filter p t.descriptors || any_ecm filter p ts

unfoldable pub any_es : ℕ → List Stream → Bool
any_es p [] = false
any_es p (t ∷ ts) = (t.es_pid == p && (ltb 0 p && ltb p pid_null)) || any_es p ts

es_loop_next :
    (fuel : ℕ) (filter : List ℕ) (t a b c d : ℕ) (p ecm es : List ℕ)
    → ltb (length p) (length12 c d) ≡ false
    → es_loop (suc fuel) filter (t ∷ a ∷ b ∷ c ∷ d ∷ p) ecm es
      ≡ es_loop fuel filter
          (drop (length12 c d) p)
          (collect_ca_descriptors filter (take (length12 c d) p) ecm)
          (add_es_pid (pid13 a b) es)
unfolding es_loop
es_loop_next fuel filter t a b c d p ecm es h = rw (h, es_loop)

contains-add_es_pid :
    (p q : ℕ) (es : List ℕ)
    → contains p (add_es_pid q es) ≡ ((q == p && (ltb 0 p && ltb p pid_null)) || contains p es)
unfolding add_es_pid
contains-add_es_pid p q es = ground (arith, contains-insert p q es)

-- From encoded streams the loop of `parsePMT` gathers exactly the pids of the streams that lie in
-- 1 to 0x1ffe, and the CA pids that their descriptors announce.
pub es_loop-encode :
    (fuel : ℕ) (filter : List ℕ) (p : ℕ) (ts : List Stream) (ecm es : List ℕ)
    → All IsStream ts
    → length (encode_pmt ts) ≤ fuel
    → let r = es_loop fuel filter (encode_pmt ts) ecm es in
      (contains p r.0 ≡ (any_ecm filter p ts || contains p ecm))
      × (contains p r.1 ≡ (any_es p ts || contains p es))
unfolding any_ecm any_es
es_loop-encode zero filter p [] ecm es v h = unfold es_loop in (refl, refl)
es_loop-encode (suc fuel) filter p [] ecm es v h = unfold es_loop in (refl, refl)
es_loop-encode zero filter p (t ∷ ts) ecm es v h = absurd (omega arith)
es_loop-encode (suc fuel) filter p (t ∷ ts) ecm es v h =
    let info = encode t.descriptors in
    let hi = 15 * 16 + length info / 256 in
    let lo = length info % 256 in
    let pid : pid13 (7 * 32 + t.es_pid / 256) (t.es_pid % 256) ≡ t.es_pid = omega arith in
    let size : length12 hi lo ≡ length info = omega arith in
    let fits : ltb (length (info ++ encode_pmt ts)) (length12 hi lo) ≡ false =
      ground (arith, size, length-append info (encode_pmt ts)) in
    let ecm' = collect_ca_descriptors filter info ecm in
    let es' = add_es_pid t.es_pid es in
    let rest =
      es_loop-encode fuel filter p ts ecm' es' v.1
        (omega (arith, length-append info (encode_pmt ts))) in
    rw
      (
        es_loop_next fuel filter t.stream_type (7 * 32 + t.es_pid / 256) (t.es_pid % 256) hi lo
            (info ++ encode_pmt ts) ecm es fits,
        pid,
        size,
        take-append info (encode_pmt ts),
        drop-append info (encode_pmt ts),
      )
      (
        ground (arith, rest.0, collect-encode filter p t.descriptors ecm),
        ground (arith, rest.1, contains-add_es_pid p t.es_pid es),
      )
