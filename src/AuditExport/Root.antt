-- ===== src/AuditExport/Root.antt =====
-- What the last link of an accepted export commits the auditor to: the pages and the header.
use secureprompt.Prelude.{
  ℕ, ◌<◌, ◌≡◌, ◌⊎◌, sym, ap, subst, ◌∙◌, some, List, [], ◌∷◌, ◌++◌, length, length-append, nat_beq,
  nat_beq_iff, ◌==◌, nat_keyed, list_keyed, list_beq_iff, arith,
}
use secureprompt.Text.{Str}
use secureprompt.AuditExport.Manifest.{Manifest, ExportFormat, parse_format, genesis_domain}
use secureprompt.AuditExport.Library.{Library, HashLaws, IsDigest}
use secureprompt.AuditExport.Chain.{genesis, chain_step, header_text, to_hex, from_hex}
use secureprompt.AuditExport.Verify.{
  accepted, to_u32, check_header, check_partition, check_digests, check_links, check_chain,
  check_manifest, read_manifest, check_signature, verify_export,
}
use secureprompt.AuditExport.Links.{seal, Collision, IsHashed, seal_commits}
use secureprompt.AuditExport.Accepted.{
  bind_accepted, ensured, ensured_last, present, rows_from, IsSealed, check_digests-le,
  check_digests-IsSealed, from_hex-to_hex, check_links-seal,
}

module _ (l : Library) where
  -- The header of a manifest in the format that it names.
  abbrev pub header_of : Manifest → ExportFormat → Str
  header_of m format =
      header_text l m.export_id m.workspace_id m.window.from m.window.to format m.page_size

  pub record IsAccepted (m : Manifest) (pages : List Str) : Type 0 where
    pub format : ExportFormat
    pub parsed : parse_format m.format ≡ some format
    pub begun : m.chain_genesis ≡ to_hex l (l.sha256 (header_of m format))
    pub counted : length m.pages ≡ m.total_pages
    pub held : length pages ≡ length m.pages
    pub parted : check_partition m ≡ accepted tt
    pub sealed : IsSealed l 0 m.pages pages
    pub ended : m.chain_root ≡ to_hex l (seal l (l.sha256 (header_of m format)) pages)
    pub summed : m.total_rows ≡ rows_from 0 m.pages

  check_header_parts :
      (m : Manifest) (seed : Str)
      → check_header l m ≡ accepted seed
      → (format : ExportFormat) × (length m.pages ≡ m.total_pages)
        × (parse_format m.format ≡ some format)
        × (m.chain_genesis ≡ to_hex l (l.sha256 (header_of m format)))
        × (l.sha256 (header_of m format) ≡ seed)
  unfolding check_header genesis
  check_header_parts m seed h =
      let (counted, rest) = ensured (nat_beq (length m.pages) m.total_pages) _ _ h in
      let (format, parsed, rest) = present (parse_format m.format) _ _ rest in
      let start : Str = l.sha256 (header_of m format) in
      let (begun, rest) = ensured (to_hex l start == m.chain_genesis) _ _ rest in
      (
        format,
        (nat_beq_iff (length m.pages) m.total_pages).0 counted,
        parsed,
        sym ((list_beq_iff (to_hex l start) m.chain_genesis).0 begun),
        cc,
      )

  check_chain_parts :
      (m : Manifest) (seed : Str)
      → check_chain l m seed ≡ accepted tt
      → (c : Str) × (t : ℕ) × (check_links l seed 0 m.pages ≡ accepted (c, t))
        × (m.chain_root ≡ to_hex l c)
        × (m.total_rows ≡ t)
  unfolding check_chain
  check_chain_parts m seed h =
      let ((c, t), links, rest) = bind_accepted (check_links l seed 0 m.pages) _ h in
      let (ended, rest) = ensured (to_hex l c == m.chain_root) _ _ rest in
      let summed = ensured_last (nat_beq t m.total_rows) _ rest in
      (
        c,
        t,
        links,
        sym ((list_beq_iff (to_hex l c) m.chain_root).0 ended),
        sym ((nat_beq_iff t m.total_rows).0 summed),
      )

  pub check_manifest-IsAccepted :
      (laws : HashLaws l) (m : Manifest) (pages : List Str) {got : Manifest}
      → check_manifest l m pages ≡ accepted got
      → (got ≡ m) × IsAccepted m pages
  unfolding check_manifest
  check_manifest-IsAccepted laws m pages {got} h =
      let (seed, header, rest) = bind_accepted (check_header l m) _ h in
      let (format, counted, parsed, begun, start) = check_header_parts m seed header in
      let (enough, rest) = ensured (nat_beq (to_u32 (length pages)) m.total_pages) _ _ rest in
      let (u, parted, rest) = bind_accepted (check_partition m) _ rest in
      let (v, digests, rest) = bind_accepted (check_digests l m.pages 0 pages) _ rest in
      let (w, chained, rest) = bind_accepted (check_chain l m seed) _ rest in
      let (c, t, links, ended, total) = check_chain_parts m seed chained in
      let few = check_digests-le l m.pages 0 pages (omega arith) digests in
      let enough = (nat_beq_iff (to_u32 (length pages)) m.total_pages).0 enough in
      let held : length pages ≡ length m.pages = omega arith in
      let sealed = check_digests-IsSealed l m.pages 0 pages (omega arith) digests in
      let (last, sum) = check_links-seal l laws m.pages 0 pages seed 0 sealed links in
      (
        cc,
        record {
          format = format;
          parsed = parsed;
          begun = begun;
          counted = counted;
          held = held;
          parted = parted;
          sealed = sealed;
          ended = ended ∙ ap (to_hex l) (last ∙ ap (λ s. seal l s pages) (sym start));
          summed = total ∙ sum;
        },
      )

  long_enough : (u rest : Str) → length u ≡ 36 → 64 < length (genesis_domain ++ (10 ∷ (u ++ rest)))
  long_enough u rest h = omega (arith, length-append u rest)

  header_of-long :
      (laws : HashLaws l) (m : Manifest) (format : ExportFormat) → 64 < length (header_of m format)
  unfolding header_text
  header_of-long laws m format =
      long_enough (l.uuid_text m.export_id) _ (laws.length-uuid_text m.export_id)

  pub verify_export-IsAccepted :
      (laws : HashLaws l) (json : l.Json) (sig key : Str) (pages : List Str) (m : Manifest)
      → verify_export l json sig key pages ≡ accepted m
      → IsAccepted m pages
  unfolding verify_export
  verify_export-IsAccepted laws json sig key pages m h =
      let (u, signed, rest) = bind_accepted (check_signature l json sig key) _ h in
      let (read, parsed, rest) = bind_accepted (read_manifest l json) _ rest in
      let (same, held) = check_manifest-IsAccepted laws read pages rest in
      subst (λ k. IsAccepted k pages) (sym same) held

  to_hex-inj :
      (laws : HashLaws l) (d e : Str) → IsDigest d → IsDigest e → to_hex l d ≡ to_hex l e → d ≡ e
  to_hex-inj laws d e hd he same =
      cc (from_hex-to_hex l d laws hd, from_hex-to_hex l e laws he, ap (from_hex l) same)

  seal-IsDigest :
      (laws : HashLaws l) (link : Str) (pages : List Str)
      → IsDigest link
      → IsDigest (seal l link pages)
  unfolding seal chain_step
  seal-IsDigest laws link [] h = h
  seal-IsDigest laws link (p ∷ pages) h =
      seal-IsDigest laws (chain_step l link (l.sha256 p)) pages
        (laws.sha256-IsDigest (link ++ l.sha256 p))

  -- Two different texts with one digest, one hashed for each of two exports.
  abbrev pub ExportCollision : (header header' : Str) (pages pages' : List Str) → Type 0
  ExportCollision header header' pages pages' =
      Collision l (IsHashed l header pages) (IsHashed l header' pages')

  -- Two accepted exports whose manifests state the same chain root have the same pages, and the same
  -- header: export id, workspace, window, format and page size, as the text that seeds the chain; or
  -- else there are two different texts with the same SHA-256 digest, one among the texts that are
  -- hashed for the first export and one among those for the second. These are the header, the
  -- pages, and each link of the chain with the digest of the next page. The manifests and signatures
  -- may differ.
  pub verify_export_commits :
      (laws : HashLaws l) (json json' : l.Json) (sig sig' key key' : Str) (pages pages' : List Str)
      (m m' : Manifest)
      → verify_export l json sig key pages ≡ accepted m
      → verify_export l json' sig' key' pages' ≡ accepted m'
      → m.chain_root ≡ m'.chain_root
      → (f : ExportFormat) × (f' : ExportFormat) × (parse_format m.format ≡ some f)
        × (parse_format m'.format ≡ some f')
        × (((header_of m f ≡ header_of m' f') × (pages ≡ pages'))
            ⊎ ExportCollision (header_of m f) (header_of m' f') pages pages')
  verify_export_commits laws json json' sig sig' key key' pages pages' m m' h h' root =
      let a = verify_export-IsAccepted laws json sig key pages m h in
      let b = verify_export-IsAccepted laws json' sig' key' pages' m' h' in
      let seed = λ (k : Manifest) (f : ExportFormat). l.sha256 (header_of k f) in
      let ends : seal l (seed m a.format) pages ≡ seal l (seed m' b.format) pages' =
        to_hex-inj laws _ _ (seal-IsDigest laws _ pages (laws.sha256-IsDigest _))
          (seal-IsDigest laws _ pages' (laws.sha256-IsDigest _)) (sym a.ended ∙ root ∙ b.ended) in
      (
        a.format,
        b.format,
        a.parsed,
        b.parsed,
        seal_commits l laws (header_of m a.format) (header_of m' b.format) pages pages'
            (header_of-long laws m a.format) (header_of-long laws m' b.format) ends,
      )
