-- ===== src/AuditExport/Parts.antt =====
-- A section that `build_manifest` adds, and that `verify_export` accepts at its place.
use secureprompt.Prelude.{
  ℕ, ◌+◌, ◌-◌, ◌^◌, ◌<◌, ◌≡◌, refl, sym, ap, subst, ◌∙◌, true, not, ◌&&◌, List, [], ◌∷◌, ◌++◌,
  length, length-append, drop, All, ltb, nat_beq, nat_beq_iff, arith,
}
use secureprompt.Text.{Str}
use secureprompt.AuditExport.Manifest.{PageEntry, SectionEntry, SectionInput}
use secureprompt.AuditExport.Library.{Library}
use secureprompt.AuditExport.Verify.{Verdict, next_u32, to_u32, section_pages, check_sections}
use secureprompt.AuditExport.Build.{Building, built, add_section, section_entry}
use secureprompt.AuditExport.Accepted.{rows_from}
use secureprompt.AuditExport.Building.{IsBuilding, add_pages-Added, length-IsLinked, bind_built}
use secureprompt.AuditExport.Accepting.{pass, bind_accept, section_pages-accept}

-- The lists of a section fit one another, and it has a page.
pub record Fits (input : SectionInput) : Type 0 where
  pub paired : length input.pages ≡ length input.rows_per_page
  pub inhabited : 0 < length input.pages

-- A section's entry describes a run of pages after the first `k`.
pub record Describes (s : SectionEntry) (name : Str) (k : ℕ) (run : List PageEntry) : Type 0 where
  pub named : s.section ≡ name
  pub first : s.first_page ≡ k + 1
  pub last : s.last_page ≡ k + length run
  pub size : s.pages ≡ length run
  pub summed : s.rows ≡ rows_from 0 run
  pub labelled : All (λ (e : PageEntry). e.section ≡ name) run
  pub inhabited : 0 < length run

pub check_sections-accept :
    (pages : List PageEntry) (index k : ℕ) (s : SectionEntry) (name : Str)
    (run post : List PageEntry) (rest : List SectionEntry)
    → Describes s name k run
    → drop k pages ≡ run ++ post
    → check_sections pages index (k + 1) (s ∷ rest)
      ≡ check_sections pages (index + 1) (next_u32 s.last_page) rest
unfolding check_sections
check_sections-accept pages index k s name run post rest d held =
    let left : s.last_page + 1 - s.first_page ≡ length run = omega arith in
    pass
      (nat_beq s.first_page (k + 1)
        && (not (ltb s.last_page s.first_page) && nat_beq s.pages (s.last_page - s.first_page + 1)))
      _ _ (shape s.first_page s.last_page s.pages k (length run) d.first d.last d.size d.inhabited)
    ∙ bind_accept (section_pages pages s.section (s.last_page + 1 - s.first_page) s.first_page 0) _
        s.rows
        (subst (λ n. section_pages pages s.section n s.first_page 0 ≡ Verdict.accepted s.rows)
          (sym left)
          (section_pages-accept pages s.section run post s.first_page k 0 d.first held
              (subst (λ n. All (λ (e : PageEntry). e.section ≡ n) run) (sym d.named) d.labelled)
            ∙ ap Verdict.accepted (sym d.summed)))
    ∙ pass (nat_beq s.rows s.rows) _ _ ((nat_beq_iff s.rows s.rows).1 refl)
  where
    shape :
        (first last size k n : ℕ)
        → first ≡ k + 1
        → last ≡ k + n
        → size ≡ n
        → 0 < n
        → (nat_beq first (k + 1) && (not (ltb last first) && nat_beq size (last - first + 1)))
          ≡ true
    shape first last size k n a b c p = ground arith

module _ (l : Library) where
  -- What adding a section has done.
  pub record Joined (input : SectionInput) (seed : Str) (b b' : Building) : Type 0 where
    pub run : List PageEntry
    pub entry : SectionEntry
    pub grown : b'.entries ≡ b.entries ++ run
    pub kept : b'.all_pages ≡ b.all_pages ++ input.pages
    pub listed : b'.section_entries ≡ b.section_entries ++ (entry ∷ [])
    pub described : Describes entry input.section (length b.entries) run
    pub long : length run ≡ length input.pages
    pub good : IsBuilding l seed b'

  pub add_section-Joined :
      (input : SectionInput) (seed : Str) (b : Building)
      → Fits input
      → length b.all_pages + length input.pages < 2 ^ 32
      → IsBuilding l seed b
      → (b' : Building) × (add_section l input b ≡ built b') × Joined input seed b b'
  unfolding add_section
  add_section-Joined input seed b fits few h =
      let (total, b', done, a) =
        add_pages-Added l input seed 0 input.pages 0 b (omega arith) few h in
      let held = length-IsLinked l seed 0 b.entries b.all_pages h.linked in
      let longer : length b'.entries ≡ length b.entries + length a.run =
        ap length a.grown ∙ length-append b.entries a.run in
      let entry =
        section_entry input (next_u32 (to_u32 (length b.entries))) (to_u32 (length b'.entries))
          total in
      (
        _,
        bind_built _ _ (total, b') done,
        record {
          run = a.run;
          entry = entry;
          grown = a.grown;
          kept = a.kept;
          listed = ap (λ es. es ++ (entry ∷ [])) a.sections;
          described = record {
            named = refl;
            first = omega arith;
            last = omega arith;
            size = omega arith;
            summed = a.counted;
            labelled = a.labelled;
            inhabited = omega arith;
          };
          long = a.long;
          good = record {
            chained = a.good.chained;
            linked = a.good.linked;
            summed = a.good.summed;
          };
        },
      )
