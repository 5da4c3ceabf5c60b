-- ===== src/AuditExport/Verify.antt =====
-- `verify_export` of secureprompt-common/src/audit_export.rs: each of its checks in its order, the
-- first that fails giving the error. An access out of bounds is a panic.
use secureprompt.Prelude.{
  ℕ, zero, suc, ◌+◌, ◌-◌, ◌%◌, ◌^◌, min, Bool, true, false, not, ◌&&◌, Option, none, some, List, [],
  ◌∷◌, map, length, get_elem?, ltb, nat_beq, if◌then◌else◌, ◌==◌, nat_keyed, list_keyed,
}
use secureprompt.Text.{Str}
use secureprompt.AuditExport.Manifest.{
  Manifest, PageEntry, SectionEntry, parse_format, required_sections, schema_version,
}
use secureprompt.AuditExport.Library.{Library}
use secureprompt.AuditExport.Chain.{genesis, chain_step, to_hex, from_hex}

pub data VerifyError : Type 0 where
  public_key_malformed : VerifyError
  signature_malformed : VerifyError
  signature_invalid : VerifyError
  manifest_malformed : VerifyError
  unsupported_schema_version : (got : ℕ) → VerifyError
  manifest_internally_inconsistent : VerifyError
  section_set_unexpected : VerifyError
  section_pages_not_contiguous : (section_index : ℕ) → VerifyError
  section_row_count_mismatch : (section_index : ℕ) → VerifyError
  page_section_mismatch : (page : ℕ) → VerifyError
  genesis_mismatch : VerifyError
  page_count_mismatch : (expected got : ℕ) → VerifyError
  page_digest_mismatch : (page : ℕ) → VerifyError
  chain_broken : (page : ℕ) → VerifyError
  chain_root_mismatch : VerifyError
  row_count_mismatch : (declared summed : ℕ) → VerifyError

pub data Verdict (A : Type 0) : Type 0 where
  accepted : A → Verdict A
  rejected : VerifyError → Verdict A
  panicked : Verdict A

infixl 5 ◌>>=◌ ◌>>◌
abbrev pub ◌>>=◌ : {A B : Type 0} → Verdict A → (A → Verdict B) → Verdict B
accepted a >>= f = f a
rejected e >>= f = rejected e
panicked >>= f = panicked

abbrev pub ◌>>◌ : {B : Type 0} → Verdict (Unit {0}) → Verdict B → Verdict B
m >> k = m >>= λ _. k

abbrev pub ensure : Bool → VerifyError → Verdict (Unit {0})
ensure true e = accepted tt
ensure false e = rejected e

abbrev pub or_reject : {A : Type 0} → Option A → VerifyError → Verdict A
or_reject (some a) e = accepted a
or_reject none e = rejected e

abbrev pub or_panic : {A : Type 0} → Option A → Verdict A
or_panic (some a) = accepted a
or_panic none = panicked

-- `u64` addition, and `u32::saturating_add(1)`.
abbrev pub add_u64 : ℕ → ℕ → ℕ
add_u64 a b = (a + b) % 2 ^ 64

abbrev pub max_u32 : ℕ
max_u32 = 2 ^ 32 - 1

abbrev pub next_u32 : ℕ → ℕ
next_u32 n = min (n + 1) max_u32

-- `u32::try_from(n).unwrap_or(u32::MAX)`
abbrev pub to_u32 : ℕ → ℕ
to_u32 n = min n max_u32

-- `u32::try_from` on the version that the document declares.
abbrev pub declared_version : Option ℕ → Option ℕ
declared_version none = none
declared_version (some v) = if ltb v (2 ^ 32) then some v else none

-- The names are the required ones, in order.
abbrev pub zip_all : List Str → List Str → Bool
zip_all [] required = true
zip_all (x ∷ xs) [] = true
zip_all (x ∷ xs) (r ∷ required) = x == r && zip_all xs required

abbrev pub is_required_set : List Str → Bool
is_required_set names =
    nat_beq (length names) (length required_sections) && zip_all names required_sections

-- The pages of a section, from the one with this number on: `left` are still to be read.
unfoldable pub section_pages : List PageEntry → Str → (left page section_rows : ℕ) → Verdict ℕ
section_pages pages section zero page section_rows = accepted section_rows
section_pages pages section (suc left) page section_rows = do
  entry ← or_reject (get_elem? pages (page - 1)) manifest_internally_inconsistent
  ensure (entry.section == section) (page_section_mismatch entry.page)
  section_pages pages section left (page + 1) (add_u64 section_rows entry.rows)

-- The sections from the one at this index on, the first of them to start at `next_page`.
unfoldable pub check_sections : List PageEntry → ℕ → ℕ → List SectionEntry → Verdict ℕ
check_sections pages index next_page [] = accepted next_page
check_sections pages index next_page (s ∷ sections) = do
  ensure
      (nat_beq s.first_page next_page
        && (not (ltb s.last_page s.first_page) && nat_beq s.pages (s.last_page - s.first_page + 1)))
      (section_pages_not_contiguous (to_u32 index))
  section_rows ← section_pages pages s.section (s.last_page + 1 - s.first_page) s.first_page 0
  ensure (nat_beq section_rows s.rows) (section_row_count_mismatch (to_u32 index))
  check_sections pages (index + 1) (next_u32 s.last_page) sections

-- The sections and their partition of the pages.
unfoldable pub check_partition : Manifest → Verdict (Unit {0})
check_partition m = do
  ensure (is_required_set (map (λ (s : SectionEntry). s.section) m.sections)) section_set_unexpected
  next_page ← check_sections m.pages 0 1 m.sections
  ensure (nat_beq (next_page - 1) m.total_pages) manifest_internally_inconsistent

module _ (l : Library) where
  unfoldable pub check_signature : l.Json → Str → Str → Verdict (Unit {0})
  check_signature manifest_json signature_b64 public_key_b64 = do
    key_bytes ← or_reject (l.b64_decode public_key_b64) public_key_malformed
    ensure (nat_beq (length key_bytes) 32) public_key_malformed
    verifying ← or_reject (l.key_from_bytes key_bytes) public_key_malformed
    signature ← or_reject (l.b64_decode signature_b64) signature_malformed
    ensure (nat_beq (length signature) 64) signature_malformed
    ensure (l.verify verifying (l.as_bytes manifest_json) signature) signature_invalid

  unfoldable pub read_manifest : l.Json → Verdict Manifest
  read_manifest manifest_json = do
    raw ← or_reject (l.parse_value manifest_json) manifest_malformed
    version ← or_reject (declared_version (l.schema_version_u64 raw)) manifest_malformed
    ensure (nat_beq version schema_version) (unsupported_schema_version version)
    or_reject (l.parse_manifest manifest_json) manifest_malformed

  -- The manifest's own page list, its format and its seed, which is the result.
  unfoldable pub check_header : Manifest → Verdict Str
  check_header m = do
    ensure (nat_beq (length m.pages) m.total_pages) manifest_internally_inconsistent
    format ← or_reject (parse_format m.format) manifest_internally_inconsistent
    let seed = genesis l m.export_id m.workspace_id m.window.from m.window.to format m.page_size
    ensure (to_hex l seed == m.chain_genesis) genesis_mismatch
    accepted seed

  -- The digests of the pages from this index on.
  unfoldable pub check_digests : List PageEntry → ℕ → List Str → Verdict (Unit {0})
  check_digests entries index [] = accepted tt
  check_digests entries index (bytes ∷ pages) = do
    entry ← or_panic (get_elem? entries index)
    ensure (nat_beq entry.page (index + 1)) manifest_internally_inconsistent
    ensure (to_hex l (l.sha256 bytes) == entry.sha256) (page_digest_mismatch entry.page)
    check_digests entries (index + 1) pages

  -- The links from this one on, with the rows so far: the last link and all the rows.
  unfoldable pub check_links : Str → ℕ → List PageEntry → Verdict (Str × ℕ)
  check_links chain summed [] = accepted (chain, summed)
  check_links chain summed (entry ∷ entries) = do
    digest ← or_reject (from_hex l entry.sha256) manifest_malformed
    ensure (to_hex l (chain_step l chain digest) == entry.chain) (chain_broken entry.page)
    check_links (chain_step l chain digest) (add_u64 summed entry.rows) entries

  unfoldable pub check_chain : Manifest → Str → Verdict (Unit {0})
  check_chain m seed = do
    (chain, summed) ← check_links seed 0 m.pages
    ensure (to_hex l chain == m.chain_root) chain_root_mismatch
    ensure (nat_beq summed m.total_rows) (row_count_mismatch m.total_rows summed)

  -- What follows once the manifest has been read.
  unfoldable pub check_manifest : Manifest → List Str → Verdict Manifest
  check_manifest m pages = do
    seed ← check_header m
    ensure (nat_beq (to_u32 (length pages)) m.total_pages)
        (page_count_mismatch m.total_pages (to_u32 (length pages)))
    check_partition m
    check_digests m.pages 0 pages
    check_chain m seed
    accepted m

  unfoldable pub verify_export : l.Json → Str → Str → List Str → Verdict Manifest
  verify_export manifest_json signature_b64 public_key_b64 pages = do
    check_signature manifest_json signature_b64 public_key_b64
    m ← read_manifest manifest_json
    check_manifest m pages
