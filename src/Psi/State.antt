-- ===== src/Psi/State.antt =====
-- The state of `satipPSI`. Its operations run under `m_lock`, so each is one step. The mutex, the
-- tuner number (for the log) and `m_cfg`, the configuration that owns the parser, are left out: a
-- call of `m_cfg->setCaPids` is a report, and an operation returns its reports in their order.
use satip_client.Base.{ℕ, Bool, false, Option, none, some, List, [], ◌==◌}
use satip_client.Psi.Assembler.{Assembler}

-- `pmt_info`; a version of -1 is `none`.
pub record PmtInfo : Type 0 where
  pub version : Option ℕ
  pub ecm_pids : List ℕ
  pub es_pids : List ℕ

abbrev pub no_pmt : PmtInfo
no_pmt = record { version = none; ecm_pids = []; es_pids = [] }

pub record Psi : Type 0 where
  pub emm_enabled : Bool
  pub caid_filter : List ℕ
  pub dirty : Bool
  pub joined_pids : List ℕ
  pub watched_pids : List ℕ
  pub derived_pids : List ℕ
  pub pat_version : Option ℕ
  pub cat_version : Option ℕ
  pub pat_sections : List (ℕ × List ℕ)
  pub cat_sections : List (ℕ × List ℕ)
  pub pat_pmt_pids : List ℕ
  pub emm_pids : List ℕ
  pub pmt : List (ℕ × PmtInfo)
  pub assembler : List (ℕ × Assembler)
  pub ts_packets : ℕ  -- unsigned long long
  pub sections : ℕ  -- unsigned long long
  pub crc_errors : ℕ  -- unsigned long long
  pub saw_data : Bool
  pub last_stats : ℕ

-- The sets given to `setCaPids`, oldest first.
abbrev pub Reports : Type 0
Reports = List (List ℕ)

-- The members before the body of the constructor runs.
unfoldable pub new_psi : Bool → List ℕ → Psi
new_psi emm_enabled caid_filter = record {
  emm_enabled = emm_enabled;
  caid_filter = caid_filter;
  dirty = false;
  joined_pids = [];
  watched_pids = [];
  derived_pids = [];
  pat_version = none;
  cat_version = none;
  pat_sections = [];
  cat_sections = [];
  pat_pmt_pids = [];
  emm_pids = [];
  pmt = [];
  assembler = [];
  ts_packets = 0;
  sections = 0;
  crc_errors = 0;
  saw_data = false;
  last_stats = 0;
}

-- `clearState`
unfoldable pub clear_state : Psi → Psi
clear_state psi = record psi {
  watched_pids = [];
  pat_version = none;
  cat_version = none;
  pat_sections = [];
  cat_sections = [];
  pat_pmt_pids = [];
  emm_pids = [];
  pmt = [];
  assembler = [];
  dirty = false;
}

-- A version against a member that starts as -1.
abbrev pub version_is : Option ℕ → ℕ → Bool
version_is none v = false
version_is (some w) v = w == v
