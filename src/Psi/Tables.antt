-- ===== src/Psi/Tables.antt =====
-- `parsePAT`, `parseCAT`, `parsePMT` and `handleSection` of psi.cpp.
pub mod Programs
pub mod Sections
use satip_client.Base.{
  ℕ, zero, suc, ◌+◌, ◌-◌, ◌*◌, ◌/◌, ◌%◌, ◌^◌, ◌≤◌, ◌<◌, ◌≡◌, Bool, true, false, ◌||◌, ◌&&◌, not,
  ltb, leb, ◌==◌, if◌then◌else◌, Option, none, some, List, [], ◌∷◌, ◌++◌, length, take, drop,
}
use satip_client.Base.Sets.{insert, insert_all, set_eq}
use satip_client.Base.Maps.{find, put, or_default, erase_unlisted}
use satip_client.Psi.Bytes.{byte_at, has_bit, length12, pid13, word16, pid_null}
use satip_client.Psi.Crc.{crc32_calc}
use satip_client.Psi.Descriptors.{collect_ca_descriptors}
use satip_client.Psi.State.{Psi, PmtInfo, no_pmt, version_is}

-- `(sec[5] >> 1) & 0x1f`
abbrev pub version_number : List ℕ → ℕ
version_number sec = byte_at sec 5 / 2 % 32

-- The union over the sections seen, `all`.
unfoldable pub union_sections : List (ℕ × List ℕ) → List ℕ → List ℕ
unfolding insert_all
union_sections [] all = all
union_sections ((k, pids) ∷ m) all = union_sections m (insert_all pids all)

-- One entry of the PAT.
unfoldable pub pat_entry : ℕ → ℕ → ℕ → ℕ → List ℕ → List ℕ
unfolding insert
pat_entry a b c d pmt_pids =
    if word16 a b == 0
    then pmt_pids
    else if pid13 c d == 0 || leb pid_null (pid13 c d)
    then pmt_pids
    else insert (pid13 c d) pmt_pids

-- The loop over the entries, with the bytes between `i` and the CRC: rounds of four bytes.
unfoldable pub pat_loop : List ℕ → List ℕ → List ℕ
unfolding pat_entry
pat_loop (a ∷ b ∷ c ∷ d ∷ rest) pmt_pids = pat_loop rest (pat_entry a b c d pmt_pids)
pat_loop _ pmt_pids = pmt_pids

-- The bytes `sec[8 .. len - 4)`.
abbrev pub table_body : List ℕ → List ℕ
table_body sec = take (length sec - 4 - 8) (drop 8 sec)

unfoldable pub parse_pat : List ℕ → Psi → Psi
unfolding union_sections pat_loop put set_eq erase_unlisted
parse_pat sec psi =
    let version = version_number sec in
    let known = if version_is psi.pat_version version then psi.pat_sections else [] in
    let pat_sections = put (byte_at sec 6) (pat_loop (table_body sec) []) known in
    let all = union_sections pat_sections [] in
    let psi' = record psi { pat_version = some version; pat_sections = pat_sections } in
    if set_eq all psi.pat_pmt_pids
    then psi'
    else record psi' { pat_pmt_pids = all; pmt = erase_unlisted all psi.pmt; dirty = true }

unfoldable pub parse_cat : List ℕ → Psi → Psi
unfolding union_sections put set_eq
parse_cat sec psi =
    let version = version_number sec in
    let known = if version_is psi.cat_version version then psi.cat_sections else [] in
    let emm_pids = collect_ca_descriptors psi.caid_filter (table_body sec) [] in
    let cat_sections = put (byte_at sec 6) emm_pids known in
    let all = union_sections cat_sections [] in
    let psi' = record psi { cat_version = some version; cat_sections = cat_sections } in
    if set_eq all psi.emm_pids then psi' else record psi' { emm_pids = all; dirty = true }

-- `es_pids.insert(es_pid)` for a pid in range.
unfoldable pub add_es_pid : ℕ → List ℕ → List ℕ
unfolding insert
add_es_pid es_pid es_pids =
    if ltb 0 es_pid && ltb es_pid pid_null then insert es_pid es_pids else es_pids

-- The loop over the elementary streams, with the bytes from `pos` to the CRC: the sets `ecm_pids`
-- and `es_pids`. A round takes five bytes or more.
unfoldable pub es_loop : ℕ → List ℕ → List ℕ → List ℕ → List ℕ → List ℕ × List ℕ
unfolding add_es_pid
es_loop zero filter p ecm es = (ecm, es)
es_loop (suc fuel) filter (t ∷ a ∷ b ∷ c ∷ d ∷ p) ecm es =
    let es_pids = add_es_pid (pid13 a b) es in
    let es_info_length = length12 c d in
    elim (ltb (length p) es_info_length) [
      | true ↦ (ecm, es_pids)
      | false ↦
          es_loop fuel filter (drop es_info_length p)
            (collect_ca_descriptors filter (take es_info_length p) ecm) es_pids
    ]
es_loop (suc fuel) filter _ ecm es = (ecm, es)

-- The bytes `sec[12 .. len - 4)`.
abbrev pub pmt_body : List ℕ → List ℕ
pmt_body sec = take (length sec - 4 - 12) (drop 12 sec)

abbrev pub program_info_length : List ℕ → ℕ
program_info_length sec = length12 (byte_at sec 10) (byte_at sec 11)

-- The two levels of descriptors of a PMT: the sets `ecm_pids` and `es_pids`.
unfoldable pub pmt_pids : List ℕ → List ℕ → List ℕ × List ℕ
unfolding es_loop
pmt_pids filter sec =
    let body = pmt_body sec in
    let info = program_info_length sec in
    let streams = drop info body in
    es_loop (length streams) filter streams (collect_ca_descriptors filter (take info body) []) []

-- `m_pmt[pid]` makes an entry, also where the section is then found bad.
unfoldable pub parse_pmt : ℕ → List ℕ → Psi → Psi
unfolding pmt_pids put find set_eq
parse_pmt pid sec psi =
    let info = or_default no_pmt (find pid psi.pmt) in
    let touched = record psi { pmt = put pid info psi.pmt } in
    if version_is info.version (version_number sec)
    then touched
    else if ltb (length sec - 4) 12
    then touched
    else if ltb (length sec - 4) (12 + program_info_length sec)
    then touched
    else let (ecm_pids, es_pids) = pmt_pids psi.caid_filter sec in
      let parsed : PmtInfo = record {
        version = some (version_number sec);
        ecm_pids = ecm_pids;
        es_pids = es_pids;
      } in
      if set_eq info.ecm_pids ecm_pids
      then record psi { pmt = put pid parsed psi.pmt }
      else record psi { pmt = put pid parsed psi.pmt; dirty = true }

-- `unsigned long long` counters wrap.
abbrev pub count_up : ℕ → ℕ
count_up n = (n + 1) % 2 ^ 64

-- The choice of the parser, by pid and table id.
unfoldable pub dispatch_section : ℕ → List ℕ → Psi → Psi
unfolding parse_pat parse_cat parse_pmt
dispatch_section pid sec psi =
    if pid == 0
    then if byte_at sec 0 == 0x00 then parse_pat sec psi else psi
    else if pid == 1
    then if byte_at sec 0 == 0x01 then parse_cat sec psi else psi
    else if byte_at sec 0 == 0x02
    then parse_pmt pid sec psi
    else psi

unfoldable pub handle_section : ℕ → List ℕ → Psi → Psi
unfolding dispatch_section
handle_section pid sec psi =
    if not (has_bit 7 (byte_at sec 1))
    then psi
    else if not (crc32_calc sec == 0)
    then record psi { crc_errors = count_up psi.crc_errors }
    else let counted = record psi { sections = count_up psi.sections } in
      if not (has_bit 0 (byte_at sec 5)) then counted else dispatch_section pid sec counted
