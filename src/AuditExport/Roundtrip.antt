-- ===== src/AuditExport/Roundtrip.antt =====
-- What `build_manifest` signs, `verify_export` accepts.
use secureprompt.Prelude.{
  ◌+◌, ◌-◌, ◌^◌, ◌<◌, ◌≡◌, refl, sym, ap, subst, ◌∙◌, some, List, [], ◌∷◌, ◌++◌, append-nil, map,
  length, length-append, drop, nat_beq, nat_beq_iff, ◌==◌, nat_keyed, list_keyed, arith,
}
use secureprompt.Text.{Str}
use secureprompt.AuditExport.Manifest.{
  Manifest, PageEntry, SectionEntry, SectionInput, ExportFormat, csv, jsonl, as_str, parse_format,
  section_request_events, section_control_plane, required_sections, schema_version,
}
use secureprompt.AuditExport.Library.{Library, HashLaws, SignLaws}
use secureprompt.AuditExport.Chain.{genesis, to_hex}
use secureprompt.AuditExport.Verify.{
  Verdict, accepted, next_u32, to_u32, is_required_set, check_sections, check_partition,
  check_header, check_digests, check_links, check_chain, check_manifest, declared_version,
  or_reject, VerifyError, check_signature, read_manifest,
}
use secureprompt.AuditExport.Build.{Building, built, add_section, add_sections, start_building}
use secureprompt.AuditExport.Links.{seal}
use secureprompt.AuditExport.Accepted.{rows_from}
use secureprompt.AuditExport.Building.{IsBuilding, IsLinked, length-IsLinked, bind_built}
use secureprompt.AuditExport.Accepting.{
  pass, pass_last, bind_accept, at_hand, same_beq, check_digests-accept, check_links-accept,
}
use secureprompt.AuditExport.Parts.{Fits, Describes, check_sections-accept, add_section-Joined}

pub parse_format-as_str : (f : ExportFormat) → parse_format (as_str f) ≡ some f
unfolding parse_format as_str
parse_format-as_str csv = refl
parse_format-as_str jsonl = refl

-- The two sections, each with its run of the entries.
pub record Halves (entries : List PageEntry) (sections : List SectionEntry) : Type 0 where
  pub run : List PageEntry
  pub run' : List PageEntry
  pub data_plane : SectionEntry
  pub control_plane : SectionEntry
  pub split : entries ≡ run ++ run'
  pub listed : sections ≡ data_plane ∷ control_plane ∷ []
  pub described : Describes data_plane section_request_events 0 run
  pub described' : Describes control_plane section_control_plane (length run) run'

drop-append {ℓ} : {A : Type ℓ} (xs ys : List A) → drop (length xs) (xs ++ ys) ≡ ys
drop-append [] ys = refl
drop-append (x ∷ xs) ys = drop-append xs ys

check_partition-accept :
    (m : Manifest)
    → Halves m.pages m.sections
    → m.total_pages ≡ length m.pages
    → m.total_pages < 2 ^ 32 - 1
    → check_partition m ≡ accepted tt
unfolding check_partition check_sections
check_partition-accept m h total few =
    let s = h.data_plane in
    let t = h.control_plane in
    let k = length h.run in
    let whole : length m.pages ≡ k + length h.run' =
      ap length h.split ∙ length-append h.run h.run' in
    let next : next_u32 s.last_page ≡ k + 1 = omega (arith, h.described.last) in
    let next' : next_u32 t.last_page ≡ m.total_pages + 1 = omega (arith, h.described'.last) in
    let end : next_u32 t.last_page - 1 ≡ m.total_pages = omega arith in
    let names : map (λ (e : SectionEntry). e.section) m.sections ≡ required_sections =
      ap (map (λ (e : SectionEntry). e.section)) h.listed
      ∙ ap (λ a. a ∷ t.section ∷ []) h.described.named
      ∙ ap (λ a. section_request_events ∷ a ∷ []) h.described'.named in
    let checked : check_sections m.pages 0 1 m.sections ≡ accepted (next_u32 t.last_page) =
      ap (check_sections m.pages 0 1) h.listed
      ∙ check_sections-accept m.pages 0 0 s section_request_events h.run h.run' (t ∷ []) h.described
          h.split
      ∙ ap (λ n. check_sections m.pages 1 n (t ∷ [])) next
      ∙ check_sections-accept m.pages 1 k t section_control_plane h.run' [] [] h.described'
          (ap (drop k) h.split ∙ drop-append h.run h.run' ∙ sym (append-nil h.run')) in
    pass (is_required_set (map (λ (e : SectionEntry). e.section) m.sections)) _ _
      (ap is_required_set names)
    ∙ bind_accept (check_sections m.pages 0 1 m.sections) _ (next_u32 t.last_page) checked
    ∙ pass_last _ _ ((nat_beq_iff (next_u32 t.last_page - 1) m.total_pages).1 end)

module _ (l : Library) where
  -- A manifest whose parts were made from these pages.
  pub record IsMade (m : Manifest) (format : ExportFormat) (pages : List Str) : Type 0 where
    pub seed : Str
    pub formatted : m.format ≡ as_str format
    pub seeded :
        seed ≡ genesis l m.export_id m.workspace_id m.window.from m.window.to format m.page_size
    pub begun : m.chain_genesis ≡ to_hex l seed
    pub linked : IsLinked l seed 0 m.pages pages
    pub ended : m.chain_root ≡ to_hex l (seal l seed pages)
    pub summed : m.total_rows ≡ rows_from 0 m.pages
    pub total : m.total_pages ≡ length pages
    pub few : m.total_pages < 2 ^ 32 - 1
    pub halves : Halves m.pages m.sections

  check_header-accept :
      (m : Manifest) (format : ExportFormat) (pages : List Str) (made : IsMade m format pages)
      → check_header l m ≡ accepted made.seed
  unfolding check_header
  check_header-accept m format pages made =
      let start =
        genesis l m.export_id m.workspace_id m.window.from m.window.to format m.page_size in
      let long = length-IsLinked l made.seed 0 m.pages pages made.linked in
      pass (nat_beq (length m.pages) m.total_pages) _ _
        ((nat_beq_iff (length m.pages) m.total_pages).1 (long ∙ sym made.total))
      ∙ at_hand (parse_format m.format) _ _ format
          (ap parse_format made.formatted ∙ parse_format-as_str format)
      ∙ pass (to_hex l start == m.chain_genesis) _ _ (
          same_beq (to_hex l start) m.chain_genesis
            (ap (to_hex l) (sym made.seeded) ∙ sym made.begun))
      ∙ ap Verdict.accepted (sym made.seeded)

  check_chain-accept :
      (laws : HashLaws l) (m : Manifest) (format : ExportFormat) (pages : List Str)
      (made : IsMade m format pages)
      → check_chain l m made.seed ≡ accepted tt
  unfolding check_chain
  check_chain-accept laws m format pages made =
      let last = seal l made.seed pages in
      let sum = rows_from 0 m.pages in
      bind_accept (check_links l made.seed 0 m.pages) _ (last, sum)
        (check_links-accept l laws 0 m.pages pages made.seed 0 made.linked)
      ∙ pass (to_hex l last == m.chain_root) _ _
          (same_beq (to_hex l last) m.chain_root (sym made.ended))
      ∙ pass_last _ _ ((nat_beq_iff sum m.total_rows).1 (sym made.summed))

  pub check_manifest-accept :
      (laws : HashLaws l) (m : Manifest) (format : ExportFormat) (pages : List Str)
      → IsMade m format pages
      → check_manifest l m pages ≡ accepted m
  unfolding check_manifest
  check_manifest-accept laws m format pages made =
      let long = length-IsLinked l made.seed 0 m.pages pages made.linked in
      bind_accept (check_header l m) _ made.seed (check_header-accept m format pages made)
      ∙ pass (nat_beq (to_u32 (length pages)) m.total_pages) _ _ (
          (nat_beq_iff (to_u32 (length pages)) m.total_pages).1
            (omega (arith, made.total, made.few)))
      ∙ bind_accept (check_partition m) _ tt
          (check_partition-accept m made.halves (made.total ∙ sym long) made.few)
      ∙ bind_accept (check_digests l m.pages 0 pages) _ tt
          (check_digests-accept l m.pages 0 m.pages pages made.seed refl made.linked)
      ∙ bind_accept (check_chain l m made.seed) _ tt (check_chain-accept laws m format pages made)

  pub check_signature-sign :
      (signing : SignLaws l) (key : l.SigningKey) (json : l.Json)
      → check_signature l json
          (l.b64_encode (l.sign key (l.as_bytes json)))
          (l.b64_encode (l.key_to_bytes (l.verifying_key key)))
        ≡ accepted tt
  unfolding check_signature
  check_signature-sign signing key json =
      let public = l.verifying_key key in
      let signature = l.sign key (l.as_bytes json) in
      at_hand (l.b64_decode (l.b64_encode (l.key_to_bytes public))) _ _ (l.key_to_bytes public)
        (signing.b64_round (l.key_to_bytes public))
      ∙ pass (nat_beq (length (l.key_to_bytes public)) 32) _ _
          ((nat_beq_iff (length (l.key_to_bytes public)) 32).1 (signing.length-key_to_bytes public))
      ∙ at_hand (l.key_from_bytes (l.key_to_bytes public)) _ _ public (signing.key_round public)
      ∙ at_hand (l.b64_decode (l.b64_encode signature)) _ _ signature (signing.b64_round signature)
      ∙ pass (nat_beq (length signature) 64) _ _
          ((nat_beq_iff (length signature) 64).1 (signing.length-sign key (l.as_bytes json)))
      ∙ pass_last _ _ (signing.verify-sign key (l.as_bytes json))

  pub read_manifest-json :
      (m : Manifest) (json : l.Json) (value : l.Value)
      → m.schema_version ≡ schema_version
      → l.parse_manifest json ≡ some m
      → l.parse_value json ≡ some value
      → l.schema_version_u64 value ≡ some m.schema_version
      → read_manifest l json ≡ accepted m
  unfolding read_manifest
  read_manifest-json m json value version parsed raw declared =
      at_hand (l.parse_value json) _ _ value raw
      ∙ at_hand (declared_version (l.schema_version_u64 value)) _ _ schema_version
          (ap declared_version (declared ∙ ap some version))
      ∙ ap (λ o. or_reject o VerifyError.manifest_malformed) parsed

  pub add_both :
      (requests control : SectionInput) (seed : Str)
      → requests.section ≡ section_request_events
      → control.section ≡ section_control_plane
      → Fits requests
      → Fits control
      → length requests.pages + length control.pages < 2 ^ 32 - 1
      → (b : Building) × (add_sections l (requests ∷ control ∷ []) (start_building l seed)
          ≡ built b)
        × IsBuilding l seed b
        × (b.all_pages ≡ requests.pages ++ control.pages)
        × Halves b.entries b.section_entries
  unfolding add_sections seal
  add_both requests control seed named named' fits fits' few =
      let start : IsBuilding l seed (start_building l seed) = record {
        chained = refl;
        linked = tt;
        summed = refl;
      } in
      let (b, done, j) =
        add_section-Joined l requests seed (start_building l seed) fits (omega arith) start in
      let pages : length b.all_pages ≡ length requests.pages = ap length j.kept in
      let (b', done', j') = add_section-Joined l control seed b fits' (omega arith) j.good in
      (
        b',
        bind_built (add_section l requests (start_building l seed)) _ b done
            ∙ bind_built (add_section l control b) _ b' done',
        j'.good,
        j'.kept ∙ ap (λ ps. ps ++ control.pages) j.kept,
        record {
          run = j.run;
          run' = j'.run;
          data_plane = j.entry;
          control_plane = j'.entry;
          split = j'.grown ∙ ap (λ es. es ++ j'.run) j.grown;
          listed = j'.listed ∙ ap (λ es. es ++ (j'.entry ∷ [])) j.listed;
          described = subst (λ n. Describes j.entry n 0 j.run) named j.described;
          described' =
              subst (λ n. Describes j'.entry section_control_plane n j'.run) (ap length j.grown)
                (subst (λ n. Describes j'.entry n (length b.entries) j'.run) named' j'.described);
        },
      )
