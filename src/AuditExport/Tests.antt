-- ===== src/AuditExport/Tests.antt =====
-- Exports of two small sections, with a toy library whose digest of a text is made of its length.
use secureprompt.Prelude.{
  ℕ, zero, suc, ◌%◌, ◌<◌, ◌≡◌, ◌⊎◌, ◌↔◌, refl, true, some, List, [], ◌∷◌, length, All, arith,
}
use secureprompt.Prelude.Int.{ℤ, pos}
use secureprompt.Text.{Str, lit, decimal}
use secureprompt.AuditExport.Manifest.{
  Manifest, SectionInput, ExportFormat, Prose, as_str, parse_format, section_request_events,
  section_control_plane,
}
use secureprompt.AuditExport.Library.{Library, HashLaws, SignLaws, JsonLaws}
use secureprompt.AuditExport.Chain.{
  genesis, header_text, manifest_instant, chain_step, from_hex, key_id,
}
use secureprompt.AuditExport.Verify.{
  accepted, verify_export, check_signature, read_manifest, check_manifest, check_header,
  check_partition, check_sections, section_pages, check_digests, check_links, check_chain,
}
use secureprompt.AuditExport.Build.{
  Building, Built, built, add_sections, add_section, add_pages, add_page, start_building,
  manifest_of,
}
use secureprompt.AuditExport.Retention.{
  retention_for, within_retention, wholly_expired, IsWithin, IsKept, retention_for_exact,
}
use secureprompt.AuditExport.Accepted.{IsSealed}
use secureprompt.AuditExport.Root.{header_of, ExportCollision, verify_export_commits}
use secureprompt.AuditExport.Runs.{IsCount, sum_rows}
use secureprompt.AuditExport.Sections.{IsPartitioned, verify_export-IsPartitioned}
use secureprompt.AuditExport.Signed.{IsSigned, verify_export-build_manifest}

abbrev fill : ℕ → ℕ → Str
fill zero b = []
fill (suc n) b = b ∷ fill n b

abbrev toy : Library
toy = record {
  sha256 = λ s. fill 32 (length s % 256);
  hex_encode = λ s. s;
  hex_decode = λ s. some s;
  b64_encode = λ s. s;
  b64_decode = λ s. some s;
  VerifyingKey = Unit;
  SigningKey = Unit;
  key_from_bytes = λ s. some tt;
  key_to_bytes = λ k. fill 32 1;
  verify = λ k m s. true;
  signing_from_bytes = λ s. tt;
  verifying_key = λ k. tt;
  sign = λ k m. fill 64 7;
  Json = Manifest;
  Value = ℕ;
  as_bytes = λ m. [];
  to_json = λ m. some m;
  parse_value = λ m. some m.schema_version;
  schema_version_u64 = λ v. some v;
  parse_manifest = λ m. some m;
  uuid_text = λ u. fill 36 48;
  instant_json = λ t. some (lit "\"2026-07-29T12:00:00Z\"");
  to_rfc3339 = λ t. [];
}

length-fill : (n b : ℕ) → length (fill n b) ≡ n
length-fill zero b = refl
length-fill (suc n) b = omega (arith, length-fill n b)

fill-bytes : (n b : ℕ) → b < 256 → All (λ c. c < 256) (fill n b)
fill-bytes zero b h = tt
fill-bytes (suc n) b h = (h, fill-bytes n b h)

toy-hash : HashLaws toy
toy-hash = record {
  sha256-IsDigest =
      λ s. (length-fill 32 (length s % 256), fill-bytes 32 (length s % 256) (omega arith));
  decode-encode = λ d h. refl;
  length-uuid_text = λ u. length-fill 36 48;
}

toy-sign : SignLaws toy
toy-sign = record {
  b64_round = λ s. refl;
  key_round = λ k. refl;
  length-key_to_bytes = λ k. length-fill 32 1;
  length-sign = λ k m. length-fill 64 7;
  verify-sign = λ k m. refl;
}

toy-json : JsonLaws toy
toy-json = record { rendered = λ m. (m, refl, refl, m.schema_version, refl, refl) }

abbrev no_prose : Prose
no_prose = record {
  window_interpretation = [];
  export_coverage = [];
  verification_recipe = [];
  no_expiry_detail = [];
  wholly_expired_detail = [];
  partially_expired_detail = [];
  within_retention_detail = [];
}

abbrev requests : Str → SectionInput
requests page = record {
  section = section_request_events;
  plane = lit "data";
  description = [];
  columns = [];
  coverage = [];
  sources = [];
  pages = page ∷ (1 ∷ 2 ∷ []) ∷ [];
  rows_per_page = 3 ∷ 1 ∷ [];
}

abbrev control : SectionInput
control = record {
  section = section_control_plane;
  plane = lit "control";
  description = [];
  columns = [];
  coverage = [];
  sources = [];
  pages = (9 ∷ []) ∷ [];
  rows_per_page = 2 ∷ [];
}

verify_export-build_manifest_example :
    IsSigned toy no_prose 1 2
      (pos 5)
      (pos 9)
      ExportFormat.csv
      100
      (requests (7 ∷ []))
      control
      (pos 10)
      tt
verify_export-build_manifest_example =
    verify_export-build_manifest toy no_prose 1 2 (pos 5) (pos 9) ExportFormat.csv 100 toy-hash
      toy-sign toy-json (requests (7 ∷ [])) control (pos 10) tt refl refl
      (record { paired = refl; inhabited = omega arith })
      (record { paired = refl; inhabited = omega arith }) (omega arith)

abbrev finished : Built Building → Building
finished (built b) = b
finished (Built.refused e) = start_building toy []
finished Built.panicked = start_building toy []

abbrev toy_seed : Str
toy_seed = genesis toy 1 2 (pos 5) (pos 9) ExportFormat.csv 100

abbrev exported : Str → Manifest
exported page =
    manifest_of toy no_prose 1 2 (pos 5) (pos 9) ExportFormat.csv 100 (pos 10) tt toy_seed
      (finished (add_sections toy (requests page ∷ control ∷ []) (start_building toy toy_seed)))

abbrev files : Str → List Str
files page = page ∷ (1 ∷ 2 ∷ []) ∷ (9 ∷ []) ∷ []

-- The verification of the export with this page, as its manifest states it.
abbrev Passes : Str → Type 0
Passes page =
    verify_export toy (exported page) (fill 64 7) (fill 32 1) (files page)
    ≡ accepted (exported page)

seven-Passes : Passes (7 ∷ [])
unfolding verify_export check_signature read_manifest check_manifest check_header check_partition
    check_sections section_pages check_digests check_links check_chain add_sections add_section
    add_pages add_page manifest_of genesis header_text manifest_instant chain_step from_hex
    parse_format as_str decimal key_id
seven-Passes = refl

eight-Passes : Passes (8 ∷ [])
unfolding verify_export check_signature read_manifest check_manifest check_header check_partition
    check_sections section_pages check_digests check_links check_chain add_sections add_section
    add_pages add_page manifest_of genesis header_text manifest_instant chain_step from_hex
    parse_format as_str decimal key_id
eight-Passes = refl

one_root : (exported (7 ∷ [])).chain_root ≡ (exported (8 ∷ [])).chain_root
unfolding add_sections add_section add_pages add_page manifest_of genesis header_text
    manifest_instant chain_step as_str decimal key_id
one_root = refl

-- The toy digest does not tell the two apart.
verify_export_commits_example :
    let m = exported (7 ∷ []) in
    let m' = exported (8 ∷ []) in
    (f : ExportFormat) × (f' : ExportFormat) × (parse_format m.format ≡ some f)
    × (parse_format m'.format ≡ some f')
    × (((header_of toy m f ≡ header_of toy m' f') × (files (7 ∷ []) ≡ files (8 ∷ [])))
        ⊎ ExportCollision toy
            (header_of toy m f)
            (header_of toy m' f')
            (files (7 ∷ []))
            (files (8 ∷ [])))
verify_export_commits_example =
    verify_export_commits toy toy-hash (exported (7 ∷ [])) (exported (8 ∷ [])) (fill 64 7)
      (fill 64 7) (fill 32 1) (fill 32 1) (files (7 ∷ [])) (files (8 ∷ [])) (exported (7 ∷ []))
      (exported (8 ∷ [])) seven-Passes eight-Passes one_root

exported-IsCount : All IsCount (exported (7 ∷ [])).pages
unfolding add_sections add_section add_pages add_page manifest_of genesis header_text
    manifest_instant chain_step as_str decimal key_id
exported-IsCount = (omega arith, (omega arith, (omega arith, tt)))

verify_export-IsPartitioned_example :
    IsPartitioned (exported (7 ∷ []))
    × ((exported (7 ∷ [])).total_rows ≡ sum_rows (exported (7 ∷ [])).pages)
    × (length (files (7 ∷ [])) ≡ (exported (7 ∷ [])).total_pages)
    × IsSealed toy 0 (exported (7 ∷ [])).pages (files (7 ∷ []))
verify_export-IsPartitioned_example =
    verify_export-IsPartitioned toy toy-hash (exported (7 ∷ [])) (fill 64 7) (fill 32 1)
      (files (7 ∷ [])) (exported (7 ∷ [])) exported-IsCount seven-Passes

retention_for_exact_example :
    (((retention_for no_prose (pos 5) (pos 9) (pos 10)).window_status ≡ within_retention)
      ↔ ((t : ℤ) → IsWithin (pos 5) (pos 9) t → IsKept (pos 10) t))
    × (((retention_for no_prose (pos 5) (pos 9) (pos 10)).window_status ≡ wholly_expired)
        ↔ ((t : ℤ) → IsWithin (pos 5) (pos 9) t → IsKept (pos 10) t → ⊥))
retention_for_exact_example = retention_for_exact no_prose (pos 5) (pos 9) (pos 10) refl
