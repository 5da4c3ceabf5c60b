-- ===== src/AuditExport/Runs.antt =====
-- A section's run of pages as `verify_export` reads it: its length, its labels and its rows.
use secureprompt.Prelude.{
  ℕ, zero, suc, ◌+◌, ◌-◌, ◌*◌, ◌^◌, ◌≤◌, ◌<◌, ◌≡◌, refl, ap, subst, ◌∙◌, true, some, List, [], ◌∷◌,
  ◌++◌, length, take, drop, get_elem?, All, All-take, All-drop, not, ◌&&◌, ltb, nat_beq,
  nat_beq_iff, and_true, ◌==◌, nat_keyed, list_keyed, list_beq_iff, arith,
}
use secureprompt.Text.{Str}
use secureprompt.AuditExport.Manifest.{PageEntry, SectionEntry}
use secureprompt.AuditExport.Verify.{accepted, add_u64, next_u32, section_pages, check_sections}
use secureprompt.AuditExport.Accepted.{bind_accepted, ensured, present, rows_from, drop-get_elem?}

abbrev pub sum_rows : List PageEntry → ℕ
sum_rows [] = 0
sum_rows (e ∷ entries) = e.rows + sum_rows entries

-- A page's count of rows is a `u32`.
abbrev pub IsCount : PageEntry → Type 0
IsCount e = e.rows < 2 ^ 32

pub rows_from-exact :
    (acc : ℕ) (entries : List PageEntry)
    → All IsCount entries
    → acc + length entries * 2 ^ 32 ≤ 2 ^ 64
    → rows_from acc entries ≡ acc + sum_rows entries
rows_from-exact acc [] h n = omega arith
rows_from-exact acc (e ∷ entries) h n =
    let sum : add_u64 acc e.rows ≡ acc + e.rows = omega arith in
    rw sum (rows_from-exact (acc + e.rows) entries h.1 (omega arith) ∙ omega arith)

pub sum_rows-append : (es fs : List PageEntry) → sum_rows (es ++ fs) ≡ sum_rows es + sum_rows fs
sum_rows-append [] fs = omega arith
sum_rows-append (e ∷ es) fs = omega (arith, sum_rows-append es fs)

-- The run of pages that a section has read.
pub record IsRun (pages : List PageEntry) (name : Str) (k left acc total : ℕ) : Type 0 where
  pub long : length (take left (drop k pages)) ≡ left
  pub labelled : All (λ (e : PageEntry). e.section ≡ name) (take left (drop k pages))
  pub counted : total ≡ rows_from acc (take left (drop k pages))

pub IsRun-cons :
    (pages : List PageEntry) (name : Str) (k left acc : ℕ) (entry : PageEntry) {total : ℕ}
    → get_elem? pages k ≡ some entry
    → entry.section ≡ name
    → IsRun pages name (k + 1) left (add_u64 acc entry.rows) total
    → IsRun pages name k (suc left) acc total
IsRun-cons pages name k left acc entry {total} got labelled more =
    let head = drop-get_elem? pages k entry got in
    record {
      long = rw head (omega (arith, more.long));
      labelled = rw head (labelled, more.labelled);
      counted = rw head more.counted;
    }

pub section_pages-IsRun :
    (pages : List PageEntry) (name : Str) (left page k acc : ℕ) {total : ℕ}
    → page ≡ k + 1
    → section_pages pages name left page acc ≡ accepted total
    → IsRun pages name k left acc total
unfolding section_pages
section_pages-IsRun pages name zero page k acc {total} e h = record {
  long = refl;
  labelled = tt;
  counted = cc;
}
section_pages-IsRun pages name (suc left) page k acc {total} e h =
    let at : page - 1 ≡ k = omega arith in
    let (entry, got, rest) = present (get_elem? pages (page - 1)) _ _ h in
    let (labelled, rest) = ensured (entry.section == name) _ _ rest in
    let more =
      section_pages-IsRun pages name left (page + 1) (k + 1) (add_u64 acc entry.rows) (omega arith)
        rest in
    IsRun-cons pages name k left acc entry (subst (λ i. get_elem? pages i ≡ some entry) at got)
      ((list_beq_iff entry.section name).0 labelled) more

-- A section that was checked as the one at this index, starting at page `k + 1`, and what its rows
-- and those after it came to.
pub section_parts :
    (pages : List PageEntry) (index k : ℕ) (s : SectionEntry) (rest : List SectionEntry) {next : ℕ}
    → check_sections pages index (k + 1) (s ∷ rest) ≡ accepted next
    → (s.first_page ≡ k + 1)
      × (s.first_page ≤ s.last_page)
      × (s.pages ≡ s.last_page - k)
      × IsRun pages s.section k (s.last_page - k) 0 s.rows
      × (check_sections pages (index + 1) (next_u32 s.last_page) rest ≡ accepted next)
unfolding check_sections
section_parts pages index k s rest h =
    let (shape, more) =
      ensured
        (nat_beq s.first_page (k + 1)
          && (not (ltb s.last_page s.first_page)
              && nat_beq s.pages (s.last_page - s.first_page + 1)))
        _ _ h in
    let (start, shape) = and_true (nat_beq s.first_page (k + 1)) _ shape in
    let (order, size) = and_true (not (ltb s.last_page s.first_page)) _ shape in
    let start = (nat_beq_iff s.first_page (k + 1)).0 start in
    let (total, run, more) =
      bind_accepted (section_pages pages s.section (s.last_page + 1 - s.first_page) s.first_page 0)
        _ more in
    let (counted, more) = ensured (nat_beq total s.rows) _ _ more in
    let counted = (nat_beq_iff total s.rows).0 counted in
    let order = ordered s.last_page s.first_page order in
    let size = (nat_beq_iff s.pages (s.last_page - s.first_page + 1)).0 size in
    let left : s.last_page + 1 - s.first_page ≡ s.last_page - k = omega arith in
    (
      start,
      order,
      omega arith,
      subst (λ n. IsRun pages s.section k n 0 s.rows) left
          (subst (λ n. IsRun pages s.section k (s.last_page + 1 - s.first_page) 0 n) counted
            (section_pages-IsRun pages s.section (s.last_page + 1 - s.first_page) s.first_page k 0
              start run)),
      more,
    )
  where
    ordered : (a b : ℕ) → not (ltb a b) ≡ true → b ≤ a
    ordered a b h = ground arith

pub length-drop {ℓ} : {A : Type ℓ} (k : ℕ) (xs : List A) → length (drop k xs) ≡ length xs - k
length-drop zero xs = omega arith
length-drop (suc k) [] = omega arith
length-drop (suc k) (x ∷ xs) = omega (arith, length-drop k xs)

pub length-take-le {ℓ} : {A : Type ℓ} (n : ℕ) (xs : List A) → length (take n xs) ≤ length xs
length-take-le zero xs = omega arith
length-take-le (suc n) [] = omega arith
length-take-le (suc n) (x ∷ xs) = omega (arith, length-take-le n xs)

pub take_all {ℓ} : {A : Type ℓ} (n : ℕ) (xs : List A) → length xs ≤ n → take n xs ≡ xs
take_all zero [] h = refl
take_all zero (x ∷ xs) h = absurd (omega arith)
take_all (suc n) [] h = refl
take_all (suc n) (x ∷ xs) h = ap (◌∷◌ x) (take_all n xs (omega arith))

-- Where two sections in sequence end on the last page, they split the pages between them.
pub split_pages :
    (pages : List PageEntry) (s t : SectionEntry) (k next : ℕ)
    → 0 < s.last_page
    → IsRun pages s.section 0 s.last_page 0 s.rows
    → k + 1 ≡ next_u32 s.last_page
    → k + 1 ≤ t.last_page
    → IsRun pages t.section k (t.last_page - k) 0 t.rows
    → next ≡ next_u32 t.last_page
    → next - 1 ≡ length pages
    → (k ≡ s.last_page) × (t.last_page ≡ length pages) × (length pages < 2 ^ 32 - 1)
split_pages pages s t k next ps first joined ordered second last ended = omega (
  arith,
  first.long,
  second.long,
  length-take-le s.last_page pages,
  length-take-le (t.last_page - k) (drop k pages),
  length-drop k pages,
)

pub run_rows :
    (pages : List PageEntry) (name : Str) (k left rows : ℕ)
    → All IsCount pages
    → length pages < 2 ^ 32
    → IsRun pages name k left 0 rows
    → rows ≡ sum_rows (take left (drop k pages))
run_rows pages name k left rows counts few run =
    let exact =
      rows_from-exact 0 (take left (drop k pages))
        (All-take IsCount left (drop k pages) (All-drop IsCount k pages counts))
        (omega (arith, run.long, length-take-le left (drop k pages), length-drop k pages)) in
    omega (arith, run.counted, exact)
