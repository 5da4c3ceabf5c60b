-- ===== src/AuditExport/Manifest.antt =====
-- The records of secureprompt-common/src/audit_export.rs, and its constants. An instant is a signed
-- number of nanoseconds; a page is the list of its bytes.
use secureprompt.Prelude.{
  ℕ, Option, none, some, List, [], ◌∷◌, if◌then◌else◌, ◌==◌, nat_keyed, list_keyed,
}
use secureprompt.Prelude.Int.{ℤ}
use secureprompt.Text.{Str, lit}
use secureprompt.Types.{Uuid}

pub data ExportFormat : Type 0 where
  csv : ExportFormat
  jsonl : ExportFormat

-- `ExportFormat::as_str`
unfoldable pub as_str : ExportFormat → Str
as_str csv = lit "csv"
as_str jsonl = lit "jsonl"

-- `ExportFormat::parse`
unfoldable pub parse_format : Str → Option ExportFormat
parse_format s = if s == lit "csv" then some csv else if s == lit "jsonl" then some jsonl else none

-- `ExportFormat::content_type`
unfoldable pub content_type : ExportFormat → Str
content_type csv = lit "text/csv; charset=utf-8"
content_type jsonl = lit "application/x-ndjson; charset=utf-8"

abbrev pub schema_version : ℕ
schema_version = 2

abbrev pub section_request_events : Str
section_request_events = lit "request_events"

abbrev pub section_control_plane : Str
section_control_plane = lit "control_plane_events"

abbrev pub required_sections : List Str
required_sections = section_request_events ∷ section_control_plane ∷ []

abbrev pub genesis_domain : Str
genesis_domain = lit "secureprompt.audit_export.v1"

pub record ColumnDoc : Type 0 where
  pub name : Str
  pub meaning : Str

pub record PageEntry : Type 0 where
  pub page : ℕ
  pub section : Str
  pub rows : ℕ
  pub sha256 : Str
  pub chain : Str

pub record SourceRetention : Type 0 where
  pub source_table : Str
  pub store : Str
  pub section : Str
  pub ttl_days : Option ℤ
  pub boundary : Option ℤ
  pub window_status : Str
  pub detail : Str
  pub excluded_rows : ℕ
  pub excluded_reason : Option Str

pub record SectionEntry : Type 0 where
  pub section : Str
  pub plane : Str
  pub description : Str
  pub first_page : ℕ
  pub last_page : ℕ
  pub pages : ℕ
  pub rows : ℕ
  pub columns : List ColumnDoc
  pub coverage : Str
  pub sources : List SourceRetention

pub record SectionInput : Type 0 where
  pub section : Str
  pub plane : Str
  pub description : Str
  pub columns : List (Str × Str)
  pub coverage : Str
  pub sources : List SourceRetention
  pub pages : List Str
  pub rows_per_page : List ℕ

pub record Window : Type 0 where
  pub from : ℤ
  pub to : ℤ
  pub interpretation : Str

pub record Manifest : Type 0 where
  pub schema_version : ℕ
  pub export_id : Uuid
  pub workspace_id : Uuid
  pub window : Window
  pub format : Str
  pub page_size : ℕ
  pub total_rows : ℕ
  pub total_pages : ℕ
  pub chain_genesis : Str
  pub chain_root : Str
  pub sections : List SectionEntry
  pub pages : List PageEntry
  pub coverage : Str
  pub signing_key_id : Str
  pub generated_at : ℤ
  pub verification : Str

-- The fixed prose that the manifest carries for its reader. No code reads it.
pub record Prose : Type 0 where
  pub window_interpretation : Str
  pub export_coverage : Str
  pub verification_recipe : Str
  pub no_expiry_detail : Str
  pub wholly_expired_detail : Str
  pub partially_expired_detail : Str
  pub within_retention_detail : Str

pub data BuildError : Type 0 where
  page_row_count_mismatch : BuildError
  empty_section : BuildError
  section_set_unexpected : BuildError
  manifest_serialization : BuildError
