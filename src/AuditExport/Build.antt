-- ===== src/AuditExport/Build.antt =====
-- `build_manifest` of secureprompt-common/src/audit_export.rs: the checks of the sections offered, the
-- loops that digest and chain their pages, and the manifest that is signed.
use secureprompt.Prelude.{
  ℕ, ◌+◌, ◌-◌, Bool, true, false, not, Option, none, some, List, [], ◌∷◌, ◌++◌, map, length,
  is_empty, get_elem?, nat_beq,
}
use secureprompt.Prelude.Int.{ℤ}
use secureprompt.Text.{Str}
use secureprompt.Types.{Uuid}
use secureprompt.AuditExport.Manifest.{
  Manifest, PageEntry, SectionEntry, SectionInput, ColumnDoc, BuildError, page_row_count_mismatch,
  empty_section, section_set_unexpected, manifest_serialization, ExportFormat, as_str, Prose,
  schema_version,
}
use secureprompt.AuditExport.Library.{Library}
use secureprompt.AuditExport.Chain.{genesis, chain_step, to_hex, key_id}
use secureprompt.AuditExport.Verify.{add_u64, next_u32, to_u32, is_required_set}

pub data Built (A : Type 0) : Type 0 where
  built : A → Built A
  refused : BuildError → Built A
  panicked : Built A

infixl 5 ◌>>=◌ ◌>>◌
abbrev pub ◌>>=◌ : {A B : Type 0} → Built A → (A → Built B) → Built B
built a >>= f = f a
refused e >>= f = refused e
panicked >>= f = panicked

abbrev pub ◌>>◌ : {B : Type 0} → Built (Unit {0}) → Built B → Built B
m >> k = m >>= λ _. k

abbrev pub demand : Bool → BuildError → Built (Unit {0})
demand true e = built tt
demand false e = refused e

abbrev pub or_refuse : {A : Type 0} → Option A → BuildError → Built A
or_refuse (some a) e = built a
or_refuse none e = refused e

abbrev pub at : List ℕ → ℕ → Built ℕ
at xs i = elim (get_elem? xs i) [ none ↦ panicked | some x ↦ built x ]

pub record SignedExport (l : Library) : Type 0 where
  pub manifest_json : l.Json
  pub signature_b64 : Str
  pub public_key_b64 : Str
  pub signing_key_id : Str
  pub total_rows : ℕ
  pub total_pages : ℕ
  pub page_digests : List Str
  pub rows_per_page : List ℕ

-- The variables of the loops.
pub record Building : Type 0 where
  pub chain : Str
  pub entries : List PageEntry
  pub digests : List Str
  pub rows_per_page : List ℕ
  pub section_entries : List SectionEntry
  pub all_pages : List Str
  pub total_rows : ℕ

abbrev pub column_docs : List (Str × Str) → List ColumnDoc
column_docs [] = []
column_docs ((name, meaning) ∷ columns) =
    record { name = name; meaning = meaning } ∷ column_docs columns

-- The entry of a section whose pages are numbered from the first to the last.
abbrev pub section_entry : SectionInput → (first_page last_page rows : ℕ) → SectionEntry
section_entry input first_page last_page rows = record {
  section = input.section;
  plane = input.plane;
  description = input.description;
  first_page = first_page;
  last_page = last_page;
  pages = next_u32 (last_page - first_page);
  rows = rows;
  columns = column_docs input.columns;
  coverage = input.coverage;
  sources = input.sources;
}

-- Each section's lists fit one another, and none is empty.
unfoldable pub check_inputs : List SectionInput → Built (Unit {0})
check_inputs [] = built tt
check_inputs (input ∷ sections) = do
  demand (nat_beq (length input.pages) (length input.rows_per_page)) page_row_count_mismatch
  demand (not (is_empty input.pages)) empty_section
  check_inputs sections

module _ (l : Library) where
  -- One page and its count of rows.
  unfoldable pub add_page : Str → Str → ℕ → Building → Building
  add_page section bytes rows b =
      let digest = l.sha256 bytes in
      let chain = chain_step l b.chain digest in
      record b {
        chain = chain;
        total_rows = add_u64 b.total_rows rows;
        digests = b.digests ++ (to_hex l digest ∷ []);
        rows_per_page = b.rows_per_page ++ (rows ∷ []);
        all_pages = b.all_pages ++ (bytes ∷ []);
        entries =
            b.entries
            ++ (record {
              page = next_u32 (to_u32 (length b.entries));
              section = section;
              rows = rows;
              sha256 = to_hex l digest;
              chain = to_hex l chain;
            }
                ∷ []);
      }

  -- The pages from this index on, with the rows of the section so far.
  unfoldable pub add_pages : SectionInput → ℕ → List Str → ℕ → Building → Built (ℕ × Building)
  add_pages input index [] section_rows b = built (section_rows, b)
  add_pages input index (bytes ∷ pages) section_rows b = do
    rows ← at input.rows_per_page index
    add_pages input (index + 1) pages (add_u64 section_rows rows)
        (add_page input.section bytes rows b)

  unfoldable pub add_section : SectionInput → Building → Built Building
  add_section input b = do
    let first_page = next_u32 (to_u32 (length b.entries))
    (section_rows, b') ← add_pages input 0 input.pages 0 b
    let last_page = to_u32 (length b'.entries)
    built record b' {
      section_entries =
          b'.section_entries ++ (section_entry input first_page last_page section_rows ∷ []);
    }

  unfoldable pub add_sections : List SectionInput → Building → Built Building
  add_sections [] b = built b
  add_sections (input ∷ sections) b = do b' ← add_section input b; add_sections sections b'

  abbrev pub start_building : Str → Building
  start_building seed = record {
    chain = seed;
    entries = [];
    digests = [];
    rows_per_page = [];
    section_entries = [];
    all_pages = [];
    total_rows = 0;
  }

  module _ (prose : Prose) (export_id workspace_id : Uuid) (from to : ℤ) (format : ExportFormat)
      (page_size : ℕ) where
    -- The manifest over what the loops have made.
    unfoldable pub manifest_of : ℤ → l.VerifyingKey → Str → Building → Manifest
    manifest_of generated_at verifying seed b = record {
      schema_version = schema_version;
      export_id = export_id;
      workspace_id = workspace_id;
      window = record { from = from; to = to; interpretation = prose.window_interpretation };
      format = as_str format;
      page_size = page_size;
      total_rows = b.total_rows;
      total_pages = to_u32 (length b.all_pages);
      chain_genesis = to_hex l seed;
      chain_root = to_hex l b.chain;
      sections = b.section_entries;
      pages = b.entries;
      coverage = prose.export_coverage;
      signing_key_id = key_id l verifying;
      generated_at = generated_at;
      verification = prose.verification_recipe;
    }

    unfoldable pub sign_manifest : l.SigningKey → Building → Manifest → Built (SignedExport l)
    sign_manifest key b manifest = do
      manifest_json ← or_refuse (l.to_json manifest) manifest_serialization
      let verifying = l.verifying_key key
      built record {
        manifest_json = manifest_json;
        signature_b64 = l.b64_encode (l.sign key (l.as_bytes manifest_json));
        public_key_b64 = l.b64_encode (l.key_to_bytes verifying);
        signing_key_id = key_id l verifying;
        total_rows = manifest.total_rows;
        total_pages = manifest.total_pages;
        page_digests = b.digests;
        rows_per_page = b.rows_per_page;
      }

    unfoldable pub build_manifest : List SectionInput → ℤ → l.SigningKey → Built (SignedExport l)
    build_manifest sections generated_at key = do
      demand (is_required_set (map (λ (s : SectionInput). s.section) sections))
          section_set_unexpected
      check_inputs sections
      let seed = genesis l export_id workspace_id from to format page_size
      b ← add_sections sections (start_building seed)
      sign_manifest key b (manifest_of generated_at (l.verifying_key key) seed b)
