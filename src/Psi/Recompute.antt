-- ===== src/Psi/Recompute.antt =====
-- `recompute`, `reset` and `setJoinedPids` of psi.cpp, and the constructor, which ends by `reset`.
pub mod Spec
use satip_client.Base.{
  ℕ, ◌+◌, ◌≤◌, ◌<◌, ◌≡◌, Bool, true, false, ◌||◌, ◌&&◌, not, ltb, if◌then◌else◌, Option, none, some,
  List, [], ◌∷◌, length, take,
}
use satip_client.Base.Sets.{contains, insert, insert_all, set_eq}
use satip_client.Base.Maps.{find, erase_unlisted}
use satip_client.Psi.State.{Psi, PmtInfo, Reports, new_psi, clear_state}

-- `PSI_MAX_DERIVED_PIDS`
abbrev pub max_derived_pids : ℕ
max_derived_pids = 32

-- `PSI_PID_PAT`, `PSI_PID_CAT`
abbrev pub pat_pid : ℕ
pat_pid = 0

abbrev pub cat_pid : ℕ
cat_pid = 1

-- Some elementary stream is joined.
unfoldable pub any_joined : List ℕ → List ℕ → Bool
unfolding contains
any_joined joined [] = false
any_joined joined (es ∷ es_pids) = contains es joined || any_joined joined es_pids

-- `is_active`, for what `m_pmt.find(pmt_pid)` gave.
abbrev pub is_active_service : List ℕ → Option PmtInfo → Bool
is_active_service joined none = false
is_active_service joined (some info) = any_joined joined info.es_pids

abbrev pub ecm_pids_of : Option PmtInfo → List ℕ
ecm_pids_of none = []
ecm_pids_of (some info) = info.ecm_pids

-- The loop over the services: the sets `derived` and `watched`. (`active` is only logged.)
unfoldable pub service_loop : Psi → List ℕ → List ℕ → List ℕ → List ℕ × List ℕ
unfolding any_joined find insert insert_all
service_loop psi [] derived watched = (derived, watched)
service_loop psi (pmt_pid ∷ pmt_pids) derived watched =
    let pmt = find pmt_pid psi.pmt in
    service_loop psi pmt_pids
      (if is_active_service psi.joined_pids pmt
        then insert_all (ecm_pids_of pmt) (insert pmt_pid derived)
        else derived)
      (insert pmt_pid watched)

-- The sets before the loop.
unfoldable pub base_derived : Psi → List ℕ
unfolding insert insert_all
base_derived psi =
    if psi.emm_enabled
    then insert_all psi.emm_pids (insert cat_pid (insert pat_pid []))
    else insert pat_pid []

unfoldable pub base_watched : Psi → List ℕ
unfolding insert
base_watched psi = if psi.emm_enabled then insert cat_pid (insert pat_pid []) else insert pat_pid []

-- All the pids that the services call for, before the cut.
unfoldable pub wanted_pids : Psi → List ℕ × List ℕ
unfolding service_loop base_derived base_watched
wanted_pids psi = service_loop psi psi.pat_pmt_pids (base_derived psi) (base_watched psi)

-- A set too large keeps its smallest pids.
unfoldable pub truncate : List ℕ → List ℕ
truncate derived =
    if ltb max_derived_pids (length derived) then take max_derived_pids derived else derived

unfoldable pub recompute : Psi → Psi × Reports
unfolding wanted_pids truncate set_eq erase_unlisted
recompute psi =
    let (all, watched) = wanted_pids psi in
    let derived = truncate all in
    let psi' = record psi {
      assembler = erase_unlisted watched psi.assembler;
      watched_pids = watched;
    } in
    if set_eq derived psi.derived_pids
    then (psi', [])
    else (record psi' { derived_pids = derived }, derived ∷ [])

unfoldable pub reset : Psi → Psi × Reports
unfolding clear_state recompute
reset psi = recompute (record (clear_state psi) { joined_pids = [] })

unfoldable pub set_joined_pids : List ℕ → Psi → Psi × Reports
unfolding set_eq recompute
set_joined_pids pids psi =
    if not (set_eq pids psi.joined_pids)
    then recompute (record psi { joined_pids = pids })
    else (psi, [])

-- The constructor.
unfoldable pub init_psi : Bool → List ℕ → Psi × Reports
unfolding new_psi reset
init_psi emm_enabled caid_filter = reset (new_psi emm_enabled caid_filter)
