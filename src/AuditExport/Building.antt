-- ===== src/AuditExport/Building.antt =====
-- What the loops of `build_manifest` keep true of the variables: the entries number and digest the
-- pages so far, their chain ends in the current link, and their rows are summed.
use secureprompt.Prelude.{
  ℕ, zero, suc, ◌+◌, ◌-◌, ◌^◌, ◌<◌, ◌≡◌, refl, sym, ap, ◌∙◌, none, some, List, [], ◌∷◌, ◌++◌,
  length, length-append, get_elem?, All, append-nil, append_assoc, arith,
}
use secureprompt.Text.{Str}
use secureprompt.AuditExport.Manifest.{PageEntry, SectionInput}
use secureprompt.AuditExport.Library.{Library}
use secureprompt.AuditExport.Chain.{chain_step, to_hex}
use secureprompt.AuditExport.Verify.{add_u64}
use secureprompt.AuditExport.Build.{Building, Built, built, ◌>>=◌, at, add_page, add_pages}
use secureprompt.AuditExport.Links.{seal}
use secureprompt.AuditExport.Accepted.{rows_from}

pub rows_from-append :
    (acc : ℕ) (es fs : List PageEntry) → rows_from acc (es ++ fs) ≡ rows_from (rows_from acc es) fs
rows_from-append acc [] fs = refl
rows_from-append acc (e ∷ es) fs = rows_from-append (add_u64 acc e.rows) es fs

get_elem?-some {ℓ} :
    {A : Type ℓ} (xs : List A) (i : ℕ) → i < length xs → (x : A) × (get_elem? xs i ≡ some x)
get_elem?-some [] i h = absurd (omega arith)
get_elem?-some (x ∷ xs) zero h = (x, refl)
get_elem?-some (x ∷ xs) (suc i) h = get_elem?-some xs i (omega arith)

at-some : (xs : List ℕ) (i x : ℕ) → get_elem? xs i ≡ some x → at xs i ≡ built x
at-some xs i x h = ap (λ o. elim o [ none ↦ Built.panicked | some y ↦ built y ]) h

pub bind_built :
    {A B : Type 0} (m : Built A) (f : A → Built B) (a : A) → m ≡ built a → (m >>= f) ≡ f a
bind_built m f a h = ap (λ k. k >>= f) h

module _ (l : Library) where
  -- The entries number the pages from `n + 1`, with their digests and the links after `chain`.
  abbrev pub IsLinked : Str → ℕ → List PageEntry → List Str → Type 0
  IsLinked chain n [] [] = Unit
  IsLinked chain n [] (p ∷ pages) = ⊥
  IsLinked chain n (e ∷ entries) [] = ⊥
  IsLinked chain n (e ∷ entries) (p ∷ pages) =
      (e.page ≡ n + 1)
      × (e.sha256 ≡ to_hex l (l.sha256 p))
      × (e.chain ≡ to_hex l (chain_step l chain (l.sha256 p)))
      × IsLinked (chain_step l chain (l.sha256 p)) (n + 1) entries pages

  pub length-IsLinked :
      (chain : Str) (n : ℕ) (entries : List PageEntry) (pages : List Str)
      → IsLinked chain n entries pages
      → length entries ≡ length pages
  length-IsLinked chain n [] [] h = refl
  length-IsLinked chain n [] (p ∷ pages) h = absurd h
  length-IsLinked chain n (e ∷ entries) [] h = absurd h
  length-IsLinked chain n (e ∷ entries) (p ∷ pages) h =
      ap suc (length-IsLinked (chain_step l chain (l.sha256 p)) (n + 1) entries pages h.3)

  pub seal-append :
      (chain : Str) (ps qs : List Str) → seal l chain (ps ++ qs) ≡ seal l (seal l chain ps) qs
  unfolding seal
  seal-append chain [] qs = refl
  seal-append chain (p ∷ ps) qs = seal-append (chain_step l chain (l.sha256 p)) ps qs

  IsLinked-append :
      (chain : Str) (n : ℕ) (entries : List PageEntry) (pages : List Str) (e : PageEntry) (p : Str)
      → IsLinked chain n entries pages
      → e.page ≡ n + length pages + 1
      → e.sha256 ≡ to_hex l (l.sha256 p)
      → e.chain ≡ to_hex l (chain_step l (seal l chain pages) (l.sha256 p))
      → IsLinked chain n (entries ++ (e ∷ [])) (pages ++ (p ∷ []))
  unfolding seal
  IsLinked-append chain n [] [] e p h numbered hashed linked = (omega arith, hashed, linked, tt)
  IsLinked-append chain n [] (q ∷ pages) e p h numbered hashed linked = absurd h
  IsLinked-append chain n (f ∷ entries) [] e p h numbered hashed linked = absurd h
  IsLinked-append chain n (f ∷ entries) (q ∷ pages) e p h numbered hashed linked = (
    h.0,
    h.1,
    h.2,
    IsLinked-append (chain_step l chain (l.sha256 q)) (n + 1) entries pages e p h.3 (omega arith)
        hashed linked,
  )

  pub record IsBuilding (seed : Str) (b : Building) : Type 0 where
    pub chained : b.chain ≡ seal l seed b.all_pages
    pub linked : IsLinked seed 0 b.entries b.all_pages
    pub summed : b.total_rows ≡ rows_from 0 b.entries

  add_page-IsBuilding :
      (seed section bytes : Str) (rows : ℕ) (b : Building)
      → IsBuilding seed b
      → length b.all_pages < 2 ^ 32 - 1
      → IsBuilding seed (add_page l section bytes rows b)
  unfolding add_page seal
  add_page-IsBuilding seed section bytes rows b h few =
      let long = length-IsLinked seed 0 b.entries b.all_pages h.linked in
      record {
        chained =
            ap (λ c. chain_step l c (l.sha256 bytes)) h.chained
            ∙ sym (seal-append seed b.all_pages (bytes ∷ []));
        linked =
            IsLinked-append seed 0 b.entries b.all_pages _ bytes h.linked (omega arith) refl
              (ap (λ c. to_hex l (chain_step l c (l.sha256 bytes))) h.chained);
        summed = ap (λ t. add_u64 t rows) h.summed ∙ sym (rows_from-append 0 b.entries _);
      }

  length-add_page :
      (section bytes : Str) (rows : ℕ) (b : Building)
      → length (add_page l section bytes rows b).all_pages ≡ length b.all_pages + 1
  unfolding add_page
  length-add_page section bytes rows b = length-append b.all_pages (bytes ∷ [])

  -- What adding these pages to a section has done.
  pub record Added (section seed : Str) (b : Building) (pages : List Str) (acc total : ℕ)
      (b' : Building) : Type 0 where
    pub run : List PageEntry
    pub grown : b'.entries ≡ b.entries ++ run
    pub labelled : All (λ (e : PageEntry). e.section ≡ section) run
    pub long : length run ≡ length pages
    pub counted : total ≡ rows_from acc run
    pub good : IsBuilding seed b'
    pub kept : b'.all_pages ≡ b.all_pages ++ pages
    pub sections : b'.section_entries ≡ b.section_entries

  one_more :
      (section seed bytes : Str) (rows : ℕ) (b : Building) (pages : List Str) (acc total : ℕ)
      (b' : Building)
      → Added section seed (add_page l section bytes rows b) pages (add_u64 acc rows) total b'
      → Added section seed b (bytes ∷ pages) acc total b'
  unfolding add_page
  one_more section seed bytes rows b pages acc total b' more = record {
    run = _ ∷ more.run;
    grown = more.grown ∙ append_assoc b.entries _ more.run;
    labelled = (refl, more.labelled);
    long = ap suc more.long;
    counted = more.counted;
    good = more.good;
    kept = more.kept ∙ append_assoc b.all_pages (bytes ∷ []) pages;
    sections = more.sections;
  }

  pub add_pages-Added :
      (input : SectionInput) (seed : Str) (k : ℕ) (pages : List Str) (acc : ℕ) (b : Building)
      → k + length pages ≡ length input.rows_per_page
      → length b.all_pages + length pages < 2 ^ 32
      → IsBuilding seed b
      → (total : ℕ) × (b' : Building) × (add_pages l input k pages acc b ≡ built (total, b'))
        × Added input.section seed b pages acc total b'
  unfolding add_pages
  add_pages-Added input seed k [] acc b fits few h = (
    acc,
    b,
    refl,
    record {
      run = [];
      grown = sym (append-nil b.entries);
      labelled = tt;
      long = refl;
      counted = refl;
      good = h;
      kept = sym (append-nil b.all_pages);
      sections = refl;
    },
  )
  add_pages-Added input seed k (bytes ∷ pages) acc b fits few h =
      let (rows, got) = get_elem?-some input.rows_per_page k (omega arith) in
      let (total, b', done, more) =
        add_pages-Added input seed (k + 1) pages (add_u64 acc rows)
          (add_page l input.section bytes rows b) (omega arith)
          (omega (arith, length-add_page input.section bytes rows b))
          (add_page-IsBuilding seed input.section bytes rows b h (omega arith)) in
      (
        total,
        b',
        bind_built _ _ rows (at-some input.rows_per_page k rows got) ∙ done,
        one_more input.section seed bytes rows b pages acc total b' more,
      )
