-- ===== src/AuditExport/Accepting.antt =====
-- Lists of entries that `verify_export` accepts: the checks of the digests, of the links and of the
-- sections pass on entries that are linked and labelled.
use secureprompt.Prelude.{
  ℕ, zero, suc, ◌+◌, ◌-◌, ◌≡◌, refl, sym, ap, ◌∙◌, Bool, true, Option, some, List, [], ◌∷◌, ◌++◌,
  length, drop, get_elem?, All, nat_beq, nat_beq_iff, ◌==◌, nat_keyed, list_keyed, list_beq_iff,
  arith,
}
use secureprompt.Text.{Str}
use secureprompt.AuditExport.Manifest.{PageEntry}
use secureprompt.AuditExport.Library.{Library, HashLaws}
use secureprompt.AuditExport.Chain.{chain_step, to_hex, from_hex}
use secureprompt.AuditExport.Verify.{
  Verdict, VerifyError, accepted, ◌>>=◌, ◌>>◌, ensure, or_reject, or_panic, add_u64, section_pages,
  check_digests, check_links,
}
use secureprompt.AuditExport.Links.{seal}
use secureprompt.AuditExport.Accepted.{rows_from, from_hex-to_hex}
use secureprompt.AuditExport.Building.{IsLinked}

pub bind_accept :
    {A B : Type 0} (m : Verdict A) (f : A → Verdict B) (a : A) → m ≡ accepted a → (m >>= f) ≡ f a
bind_accept m f a h = ap (λ k. k >>= f) h

pub pass :
    {B : Type 0} (t : Bool) (e : VerifyError) (k : Verdict B) → t ≡ true → (ensure t e >> k) ≡ k
pass t e k h = ap (λ b. ensure b e >> k) h

pub pass_last : (t : Bool) (e : VerifyError) → t ≡ true → ensure t e ≡ accepted tt
pass_last t e h = ap (λ b. ensure b e) h

pub at_hand :
    {A B : Type 0} (o : Option A) (e : VerifyError) (f : A → Verdict B) (a : A)
    → o ≡ some a
    → (or_reject o e >>= f) ≡ f a
at_hand o e f a h = ap (λ k. or_reject k e >>= f) h

get_elem?-drop {ℓ} :
    {A : Type ℓ} (xs : List A) (k : ℕ) (x : A) (rest : List A)
    → drop k xs ≡ x ∷ rest
    → (get_elem? xs k ≡ some x) × (drop (k + 1) xs ≡ rest)
get_elem?-drop [] zero x rest h = cc
get_elem?-drop [] (suc k) x rest h = cc
get_elem?-drop (y ∷ xs) zero x rest h = ground arith
get_elem?-drop (y ∷ xs) (suc k) x rest h = ground (arith, get_elem?-drop xs k x rest)

pub same_beq : (a b : Str) → a ≡ b → (a == b) ≡ true
same_beq a b h = (list_beq_iff a b).1 h

pub section_pages-accept :
    (pages : List PageEntry) (name : Str) (run post : List PageEntry) (page k acc : ℕ)
    → page ≡ k + 1
    → drop k pages ≡ run ++ post
    → All (λ (e : PageEntry). e.section ≡ name) run
    → section_pages pages name (length run) page acc ≡ accepted (rows_from acc run)
unfolding section_pages
section_pages-accept pages name [] post page k acc at held labelled = refl
section_pages-accept pages name (e ∷ run) post page k acc at held labelled =
    let (got, rest) = get_elem?-drop pages k e (run ++ post) held in
    let here : page - 1 ≡ k = omega arith in
    at_hand (get_elem? pages (page - 1)) _ _ e (ap (get_elem? pages) here ∙ got)
    ∙ pass (e.section == name) _ _ (same_beq e.section name labelled.0)
    ∙ section_pages-accept pages name run post (page + 1) (k + 1) (add_u64 acc e.rows) (omega arith)
        rest labelled.1

module _ (l : Library) where
  pub check_digests-accept :
      (all_entries : List PageEntry) (k : ℕ) (entries : List PageEntry) (pages : List Str)
      (chain : Str)
      → drop k all_entries ≡ entries
      → IsLinked l chain k entries pages
      → check_digests l all_entries k pages ≡ accepted tt
  unfolding check_digests
  check_digests-accept all_entries k [] [] chain held h = refl
  check_digests-accept all_entries k [] (p ∷ pages) chain held h = absurd h
  check_digests-accept all_entries k (e ∷ entries) [] chain held h = absurd h
  check_digests-accept all_entries k (e ∷ entries) (p ∷ pages) chain held h =
      let (got, rest) = get_elem?-drop all_entries k e entries held in
      bind_accept (or_panic (get_elem? all_entries k)) _ e (ap or_panic got)
      ∙ pass (nat_beq e.page (k + 1)) _ _ ((nat_beq_iff e.page (k + 1)).1 h.0)
      ∙ pass (to_hex l (l.sha256 p) == e.sha256) _ _
          (same_beq (to_hex l (l.sha256 p)) e.sha256 (sym h.1))
      ∙ check_digests-accept all_entries (k + 1) entries pages (chain_step l chain (l.sha256 p))
          rest h.3

  pub check_links-accept :
      (laws : HashLaws l) (n : ℕ) (entries : List PageEntry) (pages : List Str) (chain : Str)
      (summed : ℕ)
      → IsLinked l chain n entries pages
      → check_links l chain summed entries ≡ accepted (seal l chain pages, rows_from summed entries)
  unfolding check_links seal
  check_links-accept laws n [] [] chain summed h = refl
  check_links-accept laws n [] (p ∷ pages) chain summed h = absurd h
  check_links-accept laws n (e ∷ entries) [] chain summed h = absurd h
  check_links-accept laws n (e ∷ entries) (p ∷ pages) chain summed h =
      let digest = l.sha256 p in
      at_hand (from_hex l e.sha256) _ _ digest
        (ap (from_hex l) h.1 ∙ from_hex-to_hex l digest laws (laws.sha256-IsDigest p))
      ∙ pass (to_hex l (chain_step l chain digest) == e.chain) _ _
          (same_beq (to_hex l (chain_step l chain digest)) e.chain (sym h.2))
      ∙ check_links-accept laws (n + 1) entries pages (chain_step l chain digest)
          (add_u64 summed e.rows) h.3
