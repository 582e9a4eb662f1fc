-- ===== src/Psi/Recompute/Spec.antt =====
-- What `recompute` derives: which pids, how many, and what it reports.
use satip_client.Base.{
  ℕ, ◌≤◌, ◌<◌, ◌≡◌, refl, Bool, true, false, ◌||◌, ◌&&◌, ◌==◌, if◌then◌else◌, none, List, [], ◌∷◌,
  length, arith, length-take,
}
use satip_client.Base.Sets.{
  contains, insert, insert_all, set_eq_iff, contains-insert, contains-insert_all, IsOrdered,
  insert-IsOrdered, insert_all-IsOrdered, contains-take, take_smallest, zero-take,
}
use satip_client.Base.Maps.{find, find-erase_unlisted}
use satip_client.Psi.State.{Psi, Reports}
use satip_client.Psi.Recompute.{
  max_derived_pids, pat_pid, cat_pid, is_active_service, ecm_pids_of, service_loop, base_derived,
  base_watched, wanted_pids, truncate, recompute,
}

-- A service calls for a pid: it is active, and the pid is its PMT or one of its ECM pids.
abbrev pub calls_for : Psi → ℕ → ℕ → Bool
calls_for psi p pmt_pid =
    let pmt = find pmt_pid psi.pmt in
    is_active_service psi.joined_pids pmt && (p == pmt_pid || contains p (ecm_pids_of pmt))

unfoldable pub any_calls_for : Psi → ℕ → List ℕ → Bool
any_calls_for psi p [] = false
any_calls_for psi p (pmt_pid ∷ pmt_pids) = calls_for psi p pmt_pid || any_calls_for psi p pmt_pids

service_loop-derived :
    (psi : Psi) (p : ℕ) (pmt_pids derived watched : List ℕ)
    → contains p (service_loop psi pmt_pids derived watched).0
      ≡ (any_calls_for psi p pmt_pids || contains p derived)
unfolding service_loop any_calls_for
service_loop-derived psi p [] derived watched = refl
service_loop-derived psi p (m ∷ ms) derived watched =
    let pmt = find m psi.pmt in
    let active = is_active_service psi.joined_pids pmt in
    let derived' = if active then insert_all (ecm_pids_of pmt) (insert m derived) else derived in
    ground (
      arith,
      service_loop-derived psi p ms derived' (insert m watched),
      contains-insert_all p (ecm_pids_of pmt) (insert m derived),
      contains-insert p m derived,
    )

service_loop-watched :
    (psi : Psi) (p : ℕ) (pmt_pids derived watched : List ℕ)
    → contains p (service_loop psi pmt_pids derived watched).1
      ≡ (contains p pmt_pids || contains p watched)
unfolding service_loop contains
service_loop-watched psi p [] derived watched = refl
service_loop-watched psi p (m ∷ ms) derived watched =
    let pmt = find m psi.pmt in
    let active = is_active_service psi.joined_pids pmt in
    let derived' = if active then insert_all (ecm_pids_of pmt) (insert m derived) else derived in
    ground (
      arith,
      service_loop-watched psi p ms derived' (insert m watched),
      contains-insert p m watched,
    )

service_loop-IsOrdered :
    (psi : Psi) (pmt_pids derived watched : List ℕ)
    → IsOrdered derived
    → IsOrdered (service_loop psi pmt_pids derived watched).0
unfolding service_loop
service_loop-IsOrdered psi [] derived watched h = h
service_loop-IsOrdered psi (m ∷ ms) derived watched h =
    let pmt = find m psi.pmt in
    let active = is_active_service psi.joined_pids pmt in
    let derived' = if active then insert_all (ecm_pids_of pmt) (insert m derived) else derived in
    service_loop-IsOrdered psi ms derived' (insert m watched) (
      ground (
        arith,
        h,
        insert_all-IsOrdered (ecm_pids_of pmt) (insert m derived) (insert-IsOrdered m derived h),
      ))

base_derived-IsOrdered : (psi : Psi) → IsOrdered (base_derived psi)
unfolding base_derived
base_derived-IsOrdered psi =
    let pat = insert-IsOrdered pat_pid [] tt in
    let cat = insert-IsOrdered cat_pid (insert pat_pid []) pat in
    ground (arith, pat, insert_all-IsOrdered psi.emm_pids (insert cat_pid (insert pat_pid [])) cat)

pub wanted-IsOrdered : (psi : Psi) → IsOrdered (wanted_pids psi).0
unfolding wanted_pids
wanted-IsOrdered psi =
    service_loop-IsOrdered psi psi.pat_pmt_pids (base_derived psi) (base_watched psi)
      (base_derived-IsOrdered psi)

-- The pids that the code means to ask for: the PAT, with `ca_emm` the CAT and the EMM pids, and
-- of every active service the PMT and the ECM pids.
abbrev pub is_wanted_pid : Psi → ℕ → Bool
is_wanted_pid psi p =
    p == 0
    || (psi.emm_enabled && (p == 1 || contains p psi.emm_pids))
    || any_calls_for psi p psi.pat_pmt_pids

contains-base_derived :
    (psi : Psi) (p : ℕ)
    → contains p (base_derived psi)
      ≡ (p == 0 || (psi.emm_enabled && (p == 1 || contains p psi.emm_pids)))
unfolding base_derived contains
contains-base_derived psi p = ground (
  arith,
  contains-insert p 0 [],
  contains-insert p 1 (insert pat_pid []),
  contains-insert_all p psi.emm_pids (insert cat_pid (insert pat_pid [])),
)

contains-base_watched :
    (psi : Psi) (p : ℕ) → contains p (base_watched psi) ≡ (p == 0 || (psi.emm_enabled && p == 1))
unfolding base_watched contains
contains-base_watched psi p =
    ground (arith, contains-insert p 0 [], contains-insert p 1 (insert pat_pid []))

pub contains-wanted : (psi : Psi) (p : ℕ) → contains p (wanted_pids psi).0 ≡ is_wanted_pid psi p
unfolding wanted_pids
contains-wanted psi p = ground (
  arith,
  service_loop-derived psi p psi.pat_pmt_pids (base_derived psi) (base_watched psi),
  contains-base_derived psi p,
)

pub contains-watched :
    (psi : Psi) (p : ℕ)
    → contains p (wanted_pids psi).1
      ≡ (p == 0 || (psi.emm_enabled && p == 1) || contains p psi.pat_pmt_pids)
unfolding wanted_pids
contains-watched psi p = ground (
  arith,
  service_loop-watched psi p psi.pat_pmt_pids (base_derived psi) (base_watched psi),
  contains-base_watched psi p,
)

-- Both ways through `recompute` leave the same pids derived.
pub recompute-derived : (psi : Psi) → (recompute psi).0.derived_pids ≡ truncate (wanted_pids psi).0
unfolding recompute
recompute-derived psi = ground (arith, set_eq_iff (truncate (wanted_pids psi).0) psi.derived_pids)

-- After `recompute` the derived pids are at most 32, each of them wanted, the PAT among them. They
-- are all that is wanted if that is at most 32; else what was cut lies above all that was kept.
pub recompute_derives :
    (psi : Psi) (p q : ℕ)
    → let derived = (recompute psi).0.derived_pids in
      (length derived ≤ max_derived_pids)
      × (contains 0 derived ≡ true)
      × (contains p derived ≡ true → is_wanted_pid psi p ≡ true)
      × (length (wanted_pids psi).0 ≤ max_derived_pids → contains p derived ≡ is_wanted_pid psi p)
      × (is_wanted_pid psi p ≡ true
          → contains p derived ≡ false
          → contains q derived ≡ true
          → q < p)
unfolding truncate
recompute_derives psi p q =
    let all = (wanted_pids psi).0 in
    let shape = recompute-derived psi in
    let here = contains-wanted psi p in
    let sorted = wanted-IsOrdered psi in
    (
      rw shape (ground (arith, length-take max_derived_pids all)),
      rw shape (ground (arith, zero-take 31 all sorted, contains-wanted psi 0)),
      rw shape (ground (arith, here, contains-take max_derived_pids p all)),
      rw shape (ground (arith, here)),
      rw shape (ground (arith, here, take_smallest max_derived_pids 0 p q all sorted)),
    )

-- The parser watches the PAT, with `ca_emm` the CAT, and every PMT that the PAT names; it drops
-- what it had collected of other pids, and nothing of these.
pub recompute_watches :
    (psi : Psi) (p : ℕ)
    → let psi' = (recompute psi).0 in
      (contains p psi'.watched_pids
        ≡ (p == 0 || (psi.emm_enabled && p == 1) || contains p psi.pat_pmt_pids))
      × (find p psi'.assembler
          ≡ (if contains p psi'.watched_pids then find p psi.assembler else none))
unfolding recompute
recompute_watches psi p = (
  ground (arith, contains-watched psi p),
  ground (arith, find-erase_unlisted (wanted_pids psi).1 p psi.assembler),
)

-- The set last given to `setCaPids`, after some reports.
abbrev pub last_report : List ℕ → Reports → List ℕ
last_report pids [] = pids
last_report pids (r ∷ rs) = last_report r rs

pub recompute_reports :
    (psi : Psi) → last_report psi.derived_pids (recompute psi).1 ≡ (recompute psi).0.derived_pids
unfolding recompute
recompute_reports psi = ground arith
