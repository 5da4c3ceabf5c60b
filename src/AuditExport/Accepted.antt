-- ===== src/AuditExport/Accepted.antt =====
-- What an accepted manifest has passed: the checks of `check_manifest` taken apart, and the page
-- digests and links as facts about the lists.
use secureprompt.Prelude.{
  ℕ, zero, suc, ◌+◌, ◌≤◌, ◌≡◌, refl, sym, subst, Bool, true, false, Option, none, some, List, [],
  ◌∷◌, length, drop, get_elem?, nat_beq_iff, nat_keyed, list_keyed, list_beq_iff, arith,
}
use secureprompt.Text.{Str}
use secureprompt.AuditExport.Manifest.{PageEntry}
use secureprompt.AuditExport.Library.{Library, HashLaws, IsDigest}
use secureprompt.AuditExport.Chain.{chain_step, to_hex, from_hex}
use secureprompt.AuditExport.Verify.{
  Verdict, VerifyError, accepted, rejected, panicked, ◌>>=◌, ◌>>◌, ensure, or_reject, or_panic,
  add_u64, check_digests, check_links,
}
use secureprompt.AuditExport.Links.{seal}

pub bind_accepted :
    {A B : Type 0} (m : Verdict A) (f : A → Verdict B) {b : B}
    → (m >>= f) ≡ accepted b
    → (a : A) × (m ≡ accepted a) × (f a ≡ accepted b)
bind_accepted (accepted a) f h = (a, refl, h)
bind_accepted (rejected e) f h = cc
bind_accepted panicked f h = cc

pub ensured :
    {B : Type 0} (t : Bool) (e : VerifyError) (k : Verdict B) {b : B}
    → (ensure t e >> k) ≡ accepted b
    → (t ≡ true) × (k ≡ accepted b)
ensured true e k h = (refl, h)
ensured false e k h = cc

pub ensured_last : (t : Bool) (e : VerifyError) → ensure t e ≡ accepted tt → t ≡ true
ensured_last true e h = refl
ensured_last false e h = cc

pub present :
    {A B : Type 0} (o : Option A) (e : VerifyError) (f : A → Verdict B) {b : B}
    → (or_reject o e >>= f) ≡ accepted b
    → (a : A) × (o ≡ some a) × (f a ≡ accepted b)
present none e f h = cc
present (some a) e f h = (a, refl, h)

pub in_bounds :
    {A B : Type 0} (o : Option A) (f : A → Verdict B) {b : B}
    → (or_panic o >>= f) ≡ accepted b
    → (a : A) × (o ≡ some a) × (f a ≡ accepted b)
in_bounds none f h = cc
in_bounds (some a) f h = (a, refl, h)

-- The rows of these entries, added on as `u64`.
abbrev pub rows_from : ℕ → List PageEntry → ℕ
rows_from summed [] = summed
rows_from summed (e ∷ entries) = rows_from (add_u64 summed e.rows) entries

pub drop-get_elem? {ℓ} :
    {A : Type ℓ} (xs : List A) (i : ℕ) (y : A)
    → get_elem? xs i ≡ some y
    → drop i xs ≡ y ∷ drop (i + 1) xs
drop-get_elem? [] i y h = cc
drop-get_elem? (x ∷ xs) zero y h = ground arith
drop-get_elem? (x ∷ xs) (suc i) y h = ground (arith, drop-get_elem? xs i y)

get_elem?-lt {ℓ} :
    {A : Type ℓ} (xs : List A) (i : ℕ) (y : A) → get_elem? xs i ≡ some y → i + 1 ≤ length xs
get_elem?-lt [] i y h = cc
get_elem?-lt (x ∷ xs) zero y h = omega arith
get_elem?-lt (x ∷ xs) (suc i) y h = omega (arith, get_elem?-lt xs i y h)

module _ (l : Library) where
  -- The entries number the pages from `n + 1` and carry their digests.
  abbrev pub IsSealed : ℕ → List PageEntry → List Str → Type 0
  IsSealed n [] [] = Unit
  IsSealed n [] (p ∷ pages) = ⊥
  IsSealed n (e ∷ entries) [] = ⊥
  IsSealed n (e ∷ entries) (p ∷ pages) =
      (e.page ≡ n + 1) × (e.sha256 ≡ to_hex l (l.sha256 p)) × IsSealed (n + 1) entries pages

  drop_all {ℓ} : {A : Type ℓ} (xs : List A) → drop (length xs) xs ≡ []
  drop_all [] = refl
  drop_all (x ∷ xs) = drop_all xs

  digest_step :
      (entries : List PageEntry) (index : ℕ) (p : Str) (pages : List Str)
      → check_digests l entries index (p ∷ pages) ≡ accepted tt
      → (e : PageEntry) × (get_elem? entries index ≡ some e)
        × (e.page ≡ index + 1)
        × (e.sha256 ≡ to_hex l (l.sha256 p))
        × (check_digests l entries (index + 1) pages ≡ accepted tt)
  unfolding check_digests
  digest_step entries index p pages h =
      let (e, got, rest) = in_bounds (get_elem? entries index) _ h in
      let (numbered, rest) = ensured _ _ _ rest in
      let (hashed, rest) = ensured _ _ _ rest in
      (
        e,
        got,
        (nat_beq_iff e.page (index + 1)).0 numbered,
        sym ((list_beq_iff (to_hex l (l.sha256 p)) e.sha256).0 hashed),
        rest,
      )

  pub check_digests-le :
      (entries : List PageEntry) (index : ℕ) (pages : List Str)
      → index ≤ length entries
      → check_digests l entries index pages ≡ accepted tt
      → index + length pages ≤ length entries
  check_digests-le entries index [] n h = omega arith
  check_digests-le entries index (p ∷ pages) n h =
      let (e, got, numbered, hashed, rest) = digest_step entries index p pages h in
      omega (
        arith,
        check_digests-le entries (index + 1) pages (omega (arith, get_elem?-lt entries index e got))
            rest,
      )

  pub check_digests-IsSealed :
      (entries : List PageEntry) (index : ℕ) (pages : List Str)
      → length entries ≡ index + length pages
      → check_digests l entries index pages ≡ accepted tt
      → IsSealed index (drop index entries) pages
  check_digests-IsSealed entries index [] n h =
      let whole : index ≡ length entries = omega arith in
      rw whole (subst (λ rest. IsSealed (length entries) rest []) (sym (drop_all entries)) tt)
  check_digests-IsSealed entries index (p ∷ pages) n h =
      let (e, got, numbered, hashed, rest) = digest_step entries index p pages h in
      rw (drop-get_elem? entries index e got)
        (numbered, hashed, check_digests-IsSealed entries (index + 1) pages (omega arith) rest)

  pub from_hex-to_hex : (d : Str) → HashLaws l → IsDigest d → from_hex l (to_hex l d) ≡ some d
  unfolding from_hex
  from_hex-to_hex d laws h = rw (laws.decode-encode d h, from_hex) (ground arith)

  read_digest :
      (laws : HashLaws l) (text d p : Str)
      → text ≡ to_hex l (l.sha256 p)
      → from_hex l text ≡ some d
      → d ≡ l.sha256 p
  read_digest laws text d p written read =
      cc (from_hex-to_hex (l.sha256 p) laws (laws.sha256-IsDigest p))

  pub check_links-seal :
      (laws : HashLaws l) (entries : List PageEntry) (n : ℕ) (pages : List Str) (chain : Str)
      (summed : ℕ) {c : Str} {t : ℕ}
      → IsSealed n entries pages
      → check_links l chain summed entries ≡ accepted (c, t)
      → (c ≡ seal l chain pages) × (t ≡ rows_from summed entries)
  unfolding seal check_links
  check_links-seal laws [] n [] chain summed s h = (cc, cc)
  check_links-seal laws [] n (p ∷ pages) chain summed s h = absurd s
  check_links-seal laws (e ∷ entries) n [] chain summed s h = absurd s
  check_links-seal laws (e ∷ entries) n (p ∷ pages) chain summed s h =
      let (d, read, rest) = present (from_hex l e.sha256) _ _ h in
      let (linked, rest) = ensured _ _ _ rest in
      let same = read_digest laws e.sha256 d p s.1 read in
      check_links-seal laws entries (n + 1) pages (chain_step l chain (l.sha256 p))
        (add_u64 summed e.rows) s.2 (rw (← same) rest)
