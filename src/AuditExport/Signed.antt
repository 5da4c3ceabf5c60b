-- ===== src/AuditExport/Signed.antt =====
-- The round trip of an export: the product cannot sign what its own verifier refuses.
use secureprompt.Prelude.{
  ℕ, ◌+◌, ◌-◌, ◌^◌, ◌<◌, ◌≡◌, refl, ap, ◌∙◌, Bool, true, not, List, [], ◌∷◌, ◌++◌, length,
  length-append, is_empty, nat_beq, nat_beq_iff, subst, arith,
}
use secureprompt.Prelude.Int.{ℤ}
use secureprompt.Text.{Str}
use secureprompt.Types.{Uuid}
use secureprompt.AuditExport.Manifest.{
  Manifest, SectionInput, ExportFormat, Prose, section_request_events, section_control_plane,
  BuildError,
}
use secureprompt.AuditExport.Library.{Library, HashLaws, SignLaws, JsonLaws}
use secureprompt.AuditExport.Chain.{genesis, to_hex}
use secureprompt.AuditExport.Verify.{
  accepted, is_required_set, check_signature, read_manifest, verify_export,
}
use secureprompt.AuditExport.Build.{
  Building, Built, built, ◌>>◌, demand, SignedExport, check_inputs, add_sections, start_building,
  manifest_of, sign_manifest, build_manifest, or_refuse,
}
use secureprompt.AuditExport.Building.{IsBuilding, IsLinked, bind_built}
use secureprompt.AuditExport.Links.{seal}
use secureprompt.AuditExport.Accepting.{bind_accept}
use secureprompt.AuditExport.Parts.{Fits}
use secureprompt.AuditExport.Roundtrip.{
  Halves, IsMade, check_manifest-accept, check_signature-sign, read_manifest-json, add_both,
}

go_on : {B : Type 0} (t : Bool) (e : BuildError) (k : Built B) → t ≡ true → (demand t e >> k) ≡ k
go_on t e k h = ap (λ b. demand b e >> k) h

check_inputs-Fits : (a b : SectionInput) → Fits a → Fits b → check_inputs (a ∷ b ∷ []) ≡ built tt
unfolding check_inputs
check_inputs-Fits a b f g =
    go_on (nat_beq (length a.pages) (length a.rows_per_page)) _ _
      ((nat_beq_iff (length a.pages) (length a.rows_per_page)).1 f.paired)
    ∙ go_on (not (is_empty a.pages)) _ _ (occupied a.pages f.inhabited)
    ∙ go_on (nat_beq (length b.pages) (length b.rows_per_page)) _ _
        ((nat_beq_iff (length b.pages) (length b.rows_per_page)).1 g.paired)
    ∙ go_on (not (is_empty b.pages)) _ _ (occupied b.pages g.inhabited)
  where
    occupied : (pages : List Str) → 0 < length pages → not (is_empty pages) ≡ true
    occupied [] h = absurd (omega arith)
    occupied (p ∷ pages) h = refl

module _ (l : Library) (prose : Prose) (export_id workspace_id : Uuid) (from to : ℤ)
    (format : ExportFormat) (page_size : ℕ) where
  abbrev pub seed_of : Str
  seed_of = genesis l export_id workspace_id from to format page_size

  made :
      (generated_at : ℤ) (verifying : l.VerifyingKey) (requests control : SectionInput)
      (b : Building)
      → IsBuilding l seed_of b
      → b.all_pages ≡ requests.pages ++ control.pages
      → Halves b.entries b.section_entries
      → length requests.pages + length control.pages < 2 ^ 32 - 1
      → IsMade l
          (manifest_of l prose export_id workspace_id from to format page_size generated_at
            verifying seed_of b)
          format
          (requests.pages ++ control.pages)
  unfolding manifest_of
  made generated_at verifying requests control b h pages halves few =
      let long = length-append requests.pages control.pages in
      record {
        seed = seed_of;
        formatted = refl;
        seeded = refl;
        begun = refl;
        linked = subst (λ ps. IsLinked l seed_of 0 b.entries ps) pages h.linked;
        ended = ap (to_hex l) (h.chained ∙ ap (seal l seed_of) pages);
        summed = h.summed;
        total = omega (arith, ap length pages);
        few = omega (arith, ap length pages);
        halves = halves;
      }

  -- The build of an export and its verification.
  pub record IsSigned (requests control : SectionInput) (generated_at : ℤ) (key : l.SigningKey)
      : Type 0 where
    pub signed : SignedExport l
    pub manifest : Manifest
    pub issued :
        build_manifest l prose export_id workspace_id from to format page_size
          (requests ∷ control ∷ [])
          generated_at
          key
        ≡ built signed
    pub verified :
        verify_export l signed.manifest_json signed.signature_b64 signed.public_key_b64
          (requests.pages ++ control.pages)
        ≡ accepted manifest
    pub pages : signed.total_pages ≡ length requests.pages + length control.pages
    pub same_rows : signed.total_rows ≡ manifest.total_rows
    pub same_window : (manifest.window.from ≡ from) × (manifest.window.to ≡ to)
    pub same_workspace : manifest.workspace_id ≡ workspace_id

  -- Whatever the header, two sections whose lists of pages and of row counts have one length, neither
  -- empty, of fewer than 2^32 - 1 pages together, are built and signed, and `verify_export` accepts
  -- the result on exactly these pages; the manifest it returns is for the window and the workspace
  -- asked for, and its totals are those of the signed export. The laws are those documented of
  -- SHA-256, hex, base64, Ed25519 and JSON.
  pub verify_export-build_manifest :
      (hash : HashLaws l) (signing : SignLaws l) (json : JsonLaws l)
      (requests control : SectionInput) (generated_at : ℤ) (key : l.SigningKey)
      → requests.section ≡ section_request_events
      → control.section ≡ section_control_plane
      → Fits requests
      → Fits control
      → length requests.pages + length control.pages < 2 ^ 32 - 1
      → IsSigned requests control generated_at key
  unfolding build_manifest verify_export sign_manifest
  verify_export-build_manifest hash signing json requests control generated_at key named named' fits
        fits' few =
      let (b, done, good, pages, halves) =
        add_both l requests control seed_of named named' fits fits' few in
      let public = l.verifying_key key in
      let m =
        manifest_of l prose export_id workspace_id from to format page_size generated_at public
          seed_of b in
      let (text, written, parsed, value, raw, version) = json.rendered m in
      let whole = made generated_at public requests control b good pages halves few in
      let names : is_required_set (requests.section ∷ control.section ∷ []) ≡ true =
        ap (λ n. is_required_set (n ∷ control.section ∷ [])) named
        ∙ ap (λ n. is_required_set (section_request_events ∷ n ∷ [])) named' in
      record {
        signed = _;
        manifest = m;
        issued =
            go_on (is_required_set (requests.section ∷ control.section ∷ [])) _ _ names
            ∙ bind_built (check_inputs (requests ∷ control ∷ [])) _ tt
                (check_inputs-Fits requests control fits fits')
            ∙ bind_built (add_sections l (requests ∷ control ∷ []) (start_building l seed_of)) _ b
                done
            ∙ bind_built (or_refuse (l.to_json m) BuildError.manifest_serialization) _ text
                (ap (λ o. or_refuse o BuildError.manifest_serialization) written);
        verified =
            bind_accept (check_signature l text _ _) _ tt (check_signature-sign l signing key text)
            ∙ bind_accept (read_manifest l text) _ m
                (read_manifest-json l m text value (unfold manifest_of in refl) parsed raw version)
            ∙ check_manifest-accept l hash m format (requests.pages ++ control.pages) whole;
        pages = whole.total ∙ length-append requests.pages control.pages;
        same_rows = refl;
        same_window = (unfold manifest_of in (refl, refl));
        same_workspace = (unfold manifest_of in refl);
      }
