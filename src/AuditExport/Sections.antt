-- ===== src/AuditExport/Sections.antt =====
-- What an accepted export says of its two sections: each is there, they split the pages in two runs,
-- and the rows add up.
use secureprompt.Prelude.{
  ℕ, ◌+◌, ◌-◌, ◌^◌, ◌≤◌, ◌<◌, ◌≡◌, refl, sym, ap, subst, ◌∙◌, true, List, [], ◌∷◌, map, length,
  take, drop, All, nat_beq, nat_beq_iff, and_true, ◌==◌, nat_keyed, list_keyed, list_beq_iff, arith,
}
use secureprompt.Text.{Str}
use secureprompt.AuditExport.Manifest.{
  Manifest, PageEntry, SectionEntry, section_request_events, section_control_plane,
}
use secureprompt.AuditExport.Library.{Library, HashLaws}
use secureprompt.AuditExport.Verify.{
  accepted, next_u32, is_required_set, check_sections, check_partition, verify_export,
}
use secureprompt.AuditExport.Accepted.{bind_accepted, ensured, ensured_last, IsSealed}
use secureprompt.AuditExport.Runs.{
  sum_rows, IsCount, rows_from-exact, IsRun, section_parts, length-drop, take_all, split_pages,
  run_rows,
}
use secureprompt.AuditExport.Root.{verify_export-IsAccepted}

required_pair :
    (ss : List SectionEntry)
    → is_required_set (map (λ (s : SectionEntry). s.section) ss) ≡ true
    → (s : SectionEntry) × (t : SectionEntry) × (ss ≡ s ∷ t ∷ [])
      × (s.section ≡ section_request_events)
      × (t.section ≡ section_control_plane)
required_pair [] h = cc
required_pair (s ∷ []) h = cc
required_pair (s ∷ t ∷ []) h =
    let (first, rest) = and_true (s.section == section_request_events) _ h in
    let (second, rest) = and_true (t.section == section_control_plane) _ rest in
    (
      s,
      t,
      refl,
      (list_beq_iff s.section section_request_events).0 first,
      (list_beq_iff t.section section_control_plane).0 second,
    )
required_pair (s ∷ t ∷ u ∷ ss) h = absurd (ground arith)

-- The two planes of an export, and how its pages and rows are split between them.
pub record IsPartitioned (m : Manifest) : Type 0 where
  pub data_plane : SectionEntry
  pub control_plane : SectionEntry
  pub listed : m.sections ≡ data_plane ∷ control_plane ∷ []
  pub data_named : data_plane.section ≡ section_request_events
  pub control_named : control_plane.section ≡ section_control_plane
  pub data_first : data_plane.first_page ≡ 1
  pub control_first : control_plane.first_page ≡ data_plane.last_page + 1
  pub control_last : control_plane.last_page ≡ m.total_pages
  pub data_pages : data_plane.pages ≡ data_plane.last_page
  pub control_pages : control_plane.pages + data_plane.last_page ≡ m.total_pages
  pub numbered : m.total_pages < 2 ^ 32 - 1
  pub neither_empty : (0 < data_plane.pages) × (0 < control_plane.pages)
  pub data_labelled :
      All
        (λ (e : PageEntry). e.section ≡ section_request_events)
        (take data_plane.last_page m.pages)
  pub control_labelled :
      All (λ (e : PageEntry). e.section ≡ section_control_plane) (drop data_plane.last_page m.pages)
  pub data_rows : data_plane.rows ≡ sum_rows (take data_plane.last_page m.pages)
  pub control_rows : control_plane.rows ≡ sum_rows (drop data_plane.last_page m.pages)

partitioned :
    (m : Manifest) (s t : SectionEntry) (k next : ℕ)
    → All IsCount m.pages
    → length m.pages ≡ m.total_pages
    → m.sections ≡ s ∷ t ∷ []
    → s.section ≡ section_request_events
    → t.section ≡ section_control_plane
    → s.first_page ≡ 1
    → s.first_page ≤ s.last_page
    → s.pages ≡ s.last_page - 0
    → IsRun m.pages s.section 0 (s.last_page - 0) 0 s.rows
    → k + 1 ≡ next_u32 s.last_page
    → t.first_page ≡ k + 1
    → t.first_page ≤ t.last_page
    → t.pages ≡ t.last_page - k
    → IsRun m.pages t.section k (t.last_page - k) 0 t.rows
    → next ≡ next_u32 t.last_page
    → next - 1 ≡ m.total_pages
    → IsPartitioned m
partitioned m s t k next counts long listed named named' first order size run joined first' order'
      size' run' last ended =
    let whole : s.last_page - 0 ≡ s.last_page = omega arith in
    let run = subst (λ n. IsRun m.pages s.section 0 n 0 s.rows) whole run in
    let (met, end, few) =
      split_pages m.pages s t k next (omega arith) run joined (omega arith) run' last
        (omega arith) in
    let run' = subst (λ n. IsRun m.pages t.section n (t.last_page - n) 0 t.rows) met run' in
    let tail : take (t.last_page - s.last_page) (drop s.last_page m.pages)
        ≡ drop s.last_page m.pages =
      take_all _ _ (omega (arith, length-drop s.last_page m.pages)) in
    record {
      data_plane = s;
      control_plane = t;
      listed = listed;
      data_named = named;
      control_named = named';
      data_first = first;
      control_first = omega arith;
      control_last = omega arith;
      data_pages = omega arith;
      control_pages = omega arith;
      numbered = omega arith;
      neither_empty = (omega arith, omega arith);
      data_labelled =
          subst (λ n. All (λ (e : PageEntry). e.section ≡ n) (take s.last_page m.pages)) named
            run.labelled;
      control_labelled =
          subst (λ es. All (λ (e : PageEntry). e.section ≡ section_control_plane) es) tail
            (subst
              (λ n.
                All (λ (e : PageEntry). e.section ≡ n)
                  (take (t.last_page - s.last_page) (drop s.last_page m.pages)))
              named' run'.labelled);
      data_rows = run_rows m.pages s.section 0 s.last_page s.rows counts (omega arith) run;
      control_rows =
          run_rows m.pages t.section s.last_page (t.last_page - s.last_page) t.rows counts
            (omega arith) run'
          ∙ ap sum_rows tail;
    }

check_partition-IsPartitioned :
    (m : Manifest)
    → All IsCount m.pages
    → length m.pages ≡ m.total_pages
    → check_partition m ≡ accepted tt
    → IsPartitioned m
unfolding check_partition check_sections
check_partition-IsPartitioned m counts long h =
    let (both, rest) =
      ensured (is_required_set (map (λ (s : SectionEntry). s.section) m.sections)) _ _ h in
    let (next, sections, rest) = bind_accepted (check_sections m.pages 0 1 m.sections) _ rest in
    let ended =
      (nat_beq_iff (next - 1) m.total_pages).0
        (ensured_last (nat_beq (next - 1) m.total_pages) _ rest) in
    let (s, t, listed, named, named') = required_pair m.sections both in
    let (first, order, size, run, more) =
      section_parts m.pages 0 0 s (t ∷ [])
        (subst (λ ss. check_sections m.pages 0 1 ss ≡ accepted next) listed sections) in
    let k : ℕ = next_u32 s.last_page - 1 in
    let joined : k + 1 ≡ next_u32 s.last_page = omega arith in
    let (first', order', size', run', more) =
      section_parts m.pages 1 k t []
        (subst (λ n. check_sections m.pages 1 n (t ∷ []) ≡ accepted next) (sym joined) more) in
    partitioned m s t k next counts long listed named named' first order size run joined first'
      order' size' run' (cc) ended

-- An accepted export whose row counts are `u32` values is complete: its sections are exactly the
-- data plane and the control plane, in this order; they split the pages in two runs that are not
-- empty, the first from page 1, the second up to the last page, every page named for the section it
-- falls in; each section's rows are the sum over its pages, and all the rows the sum over both; there
-- are as many page files as the manifest says, and the entry for each has its number and its digest.
pub verify_export-IsPartitioned :
    (l : Library) (laws : HashLaws l) (json : l.Json) (sig key : Str) (pages : List Str)
    (m : Manifest)
    → All IsCount m.pages
    → verify_export l json sig key pages ≡ accepted m
    → IsPartitioned m
      × (m.total_rows ≡ sum_rows m.pages)
      × (length pages ≡ m.total_pages)
      × IsSealed l 0 m.pages pages
verify_export-IsPartitioned l laws json sig key pages m counts h =
    let a = verify_export-IsAccepted l laws json sig key pages m h in
    let parted = check_partition-IsPartitioned m counts a.counted a.parted in
    let exact = rows_from-exact 0 m.pages counts (omega (arith, a.counted, parted.numbered)) in
    (parted, omega (arith, a.summed, exact), a.held ∙ a.counted, a.sealed)
