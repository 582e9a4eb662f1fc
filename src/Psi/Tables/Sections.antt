-- ===== src/Psi/Tables/Sections.antt =====
-- `handleSection` and `parsePMT` around the tables: what is let through, and what marks the state
-- for a new computation.
use satip_client.Base.{
  ℕ, ◌+◌, ◌-◌, ◌≡◌, Bool, true, ◌||◌, ◌&&◌, not, leb, if◌then◌else◌, some, List, [], length, arith,
}
use satip_client.Base.Sets.{set_eq, set_eq_iff}
use satip_client.Base.Maps.{find, put, or_default, find-put}
use satip_client.Psi.Bytes.{byte_at}
use satip_client.Psi.Descriptors.{collect_ca_descriptors}
use satip_client.Psi.State.{Psi, PmtInfo, no_pmt, version_is}
use satip_client.Psi.Tables.{
  version_number, union_sections, parse_pat, parse_cat, parse_pmt, pmt_pids, program_info_length,
  handle_section, dispatch_section, pat_loop, table_body, count_up,
}

-- A PMT section that `parsePMT` reads to its end: a new version, and lengths that fit.
abbrev pub is_new_pmt : ℕ → List ℕ → Psi → Bool
is_new_pmt pid sec psi =
    not (version_is (or_default no_pmt (find pid psi.pmt)).version (version_number sec))
    && leb 12 (length sec - 4)
    && leb (12 + program_info_length sec) (length sec - 4)

-- `parsePMT` stores what a new PMT says, and marks the state dirty exactly if the ECM pids are
-- others than before. The elementary streams are not compared: a PMT whose ECM pids stay and whose
-- streams change leaves the state as clean as it was.
parse_pmt_marks :
    (pid : ℕ) (sec : List ℕ) (psi : Psi)
    → is_new_pmt pid sec psi ≡ true
    → let old = or_default no_pmt (find pid psi.pmt) in
      let psi' = parse_pmt pid sec psi in
      (find pid psi'.pmt
        ≡ some (record {
          version = some (version_number sec);
          ecm_pids = (pmt_pids psi.caid_filter sec).0;
          es_pids = (pmt_pids psi.caid_filter sec).1;
        }))
      × (psi'.dirty ≡ (psi.dirty || not (set_eq old.ecm_pids (pmt_pids psi.caid_filter sec).0)))
unfolding parse_pmt
parse_pmt_marks pid sec psi new =
    let parsed : PmtInfo = record {
      version = some (version_number sec);
      ecm_pids = (pmt_pids psi.caid_filter sec).0;
      es_pids = (pmt_pids psi.caid_filter sec).1;
    } in
    (ground (arith, find-put pid pid parsed psi.pmt), ground arith)

-- What a section may change: no parser touches the pids that were derived, that are watched or
-- that the kernel joined, the assemblers, or the settings.
pub record SameFrame (psi psi' : Psi) : Type 0 where
  pub same_derived : psi'.derived_pids ≡ psi.derived_pids
  pub same_watched : psi'.watched_pids ≡ psi.watched_pids
  pub same_joined : psi'.joined_pids ≡ psi.joined_pids
  pub same_assembler : psi'.assembler ≡ psi.assembler
  pub same_filter : psi'.caid_filter ≡ psi.caid_filter
  pub same_emm : psi'.emm_enabled ≡ psi.emm_enabled

parse_pat-SameFrame : (sec : List ℕ) (psi : Psi) → SameFrame psi (parse_pat sec psi)
unfolding parse_pat
parse_pat-SameFrame sec psi = ground arith

parse_cat-SameFrame : (sec : List ℕ) (psi : Psi) → SameFrame psi (parse_cat sec psi)
unfolding parse_cat
parse_cat-SameFrame sec psi = ground arith

parse_pmt-SameFrame : (pid : ℕ) (sec : List ℕ) (psi : Psi) → SameFrame psi (parse_pmt pid sec psi)
unfolding parse_pmt
parse_pmt-SameFrame pid sec psi = ground arith

-- The pids of the tables are those of the sections kept.
pub record TablesAgree (psi : Psi) : Type 0 where
  pub pat_agrees : psi.pat_pmt_pids ≡ union_sections psi.pat_sections []
  pub cat_agrees : psi.emm_pids ≡ union_sections psi.cat_sections []

parse_pat-TablesAgree :
    (sec : List ℕ) (psi : Psi) → TablesAgree psi → TablesAgree (parse_pat sec psi)
unfolding parse_pat
parse_pat-TablesAgree sec psi v =
    let known = if version_is psi.pat_version (version_number sec) then psi.pat_sections else [] in
    let kept = put (byte_at sec 6) (pat_loop (table_body sec) []) known in
    ground (arith, set_eq_iff (union_sections kept []) psi.pat_pmt_pids)

parse_cat-TablesAgree :
    (sec : List ℕ) (psi : Psi) → TablesAgree psi → TablesAgree (parse_cat sec psi)
unfolding parse_cat
parse_cat-TablesAgree sec psi v =
    let known = if version_is psi.cat_version (version_number sec) then psi.cat_sections else [] in
    let emm_pids = collect_ca_descriptors psi.caid_filter (table_body sec) [] in
    let kept = put (byte_at sec 6) emm_pids known in
    ground (arith, set_eq_iff (union_sections kept []) psi.emm_pids)

parse_pmt-TablesAgree :
    (pid : ℕ) (sec : List ℕ) (psi : Psi) → TablesAgree psi → TablesAgree (parse_pmt pid sec psi)
unfolding parse_pmt
parse_pmt-TablesAgree pid sec psi v = ground arith

dispatch_section-TablesAgree :
    (pid : ℕ) (sec : List ℕ) (psi : Psi)
    → TablesAgree psi
    → TablesAgree (dispatch_section pid sec psi)
unfolding dispatch_section
dispatch_section-TablesAgree pid sec psi v = ground (
  arith,
  parse_pat-TablesAgree sec psi v,
  parse_cat-TablesAgree sec psi v,
  parse_pmt-TablesAgree pid sec psi v,
)

dispatch_section-SameFrame :
    (pid : ℕ) (sec : List ℕ) (psi : Psi) → SameFrame psi (dispatch_section pid sec psi)
unfolding dispatch_section
dispatch_section-SameFrame pid sec psi = ground (
  arith,
  parse_pat-SameFrame sec psi,
  parse_cat-SameFrame sec psi,
  parse_pmt-SameFrame pid sec psi,
)

pub handle_section-TablesAgree :
    (pid : ℕ) (sec : List ℕ) (psi : Psi)
    → TablesAgree psi
    → TablesAgree (handle_section pid sec psi)
unfolding handle_section
handle_section-TablesAgree pid sec psi v =
    let counted = record psi { sections = count_up psi.sections } in
    ground (arith, dispatch_section-TablesAgree pid sec counted)

pub handle_section-SameFrame :
    (pid : ℕ) (sec : List ℕ) (psi : Psi) → SameFrame psi (handle_section pid sec psi)
unfolding handle_section
handle_section-SameFrame pid sec psi =
    let counted = record psi { sections = count_up psi.sections } in
    ground (arith, dispatch_section-SameFrame pid sec counted)
