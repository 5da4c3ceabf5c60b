-- ===== src/Vault/Placing.antt =====
-- What one call of `apply_redaction` writes, as pieces: text passed through and placeholders that
-- its vault resolves.
use secureprompt.Prelude.{
  ℕ, ◌-◌, ◌≤◌, ◌≡◌, ◌∙◌, refl, sym, ap, some, List, [], ◌∷◌, ◌++◌, All, arith, inl, inr, Bool-cases,
  list_keyed, nat_keyed, pair_keyed, list_beq, take, drop, take-slice, All-append, All-take,
  All-drop, All-imp, append_assoc, append-nil, beq_refl,
}
use secureprompt.Text.{Str, slice}
use secureprompt.Text.Replace.{NoOpen, NoBrace, placeholder}
use secureprompt.Map.{insert}
use secureprompt.Types.{Detection, TokenVault, resolve, vault_insert}
use secureprompt.Vault.{Casing}
use secureprompt.Vault.Spans.{IsTrueTo}
use secureprompt.Vault.Tokens.{IsTidyClass}
use secureprompt.Vault.Ledger.{Keeps, resolve-vault_insert}
use secureprompt.Vault.Pieces.{Piece, raw, held, render, original, IsTidyPiece, IsBacked, IsEntry}

-- A detection that is true to the text, and whose class keeps its identity in a placeholder.
pub record IsExact (u : Casing) (content : Str) (d : Detection) : Type 0 where
  pub tidy : IsTidyClass u (u.to_uppercase d.class)
  pub exact : IsTrueTo content d

pub record Core (content redacted : Str) (cursor : ℕ) (vault : TokenVault) (ps : List Piece)
    : Type 0 where
  pub written : redacted ≡ render ps
  pub covered : take cursor content ≡ original ps
  pub tidy : All IsTidyPiece ps
  pub backed : All (IsBacked vault) ps
  pub entries : All IsEntry vault

pub render-append : (ps qs : List Piece) → render (ps ++ qs) ≡ render ps ++ render qs
unfolding render
render-append [] qs = refl
render-append (raw x ∷ ps) qs =
    ap (◌++◌ x) (render-append ps qs) ∙ sym (append_assoc x (render ps) (render qs))
render-append (held b w ∷ ps) qs =
    ap (◌++◌ (placeholder b)) (render-append ps qs)
    ∙ sym (append_assoc (placeholder b) (render ps) (render qs))

pub original-append : (ps qs : List Piece) → original (ps ++ qs) ≡ original ps ++ original qs
unfolding original
original-append [] qs = refl
original-append (raw x ∷ ps) qs =
    ap (◌++◌ x) (original-append ps qs) ∙ sym (append_assoc x (original ps) (original qs))
original-append (held b w ∷ ps) qs =
    ap (◌++◌ w) (original-append ps qs) ∙ sym (append_assoc w (original ps) (original qs))

insert-IsEntry :
    (k v : Str) (m : TokenVault) → IsEntry (k, v) → All IsEntry m → All IsEntry (vault_insert k v m)
unfolding vault_insert insert
insert-IsEntry k v [] e h = (e, tt)
insert-IsEntry k v ((j, w) ∷ m) e h = elim (Bool-cases (list_beq j k)) [
  | inl same ↦
      rw same (record { body = h.0.body; key = h.0.key; clean = h.0.clean; plain = e.plain }, h.1)
  | inr other ↦ rw other (h.0, insert-IsEntry k v m e h.1)
]

Keeps-IsBacked :
    (t value : Str) (v : TokenVault) (p : Piece)
    → Keeps t value v
    → IsBacked v p
    → IsBacked (vault_insert t value v) p
Keeps-IsBacked t value v (raw x) k h = tt
Keeps-IsBacked t value v (held b w) k h = k (placeholder b) w h

abbrev pub placed : Str → ℕ → ℕ → Str → Str → List Piece
placed content cursor start body value = raw (slice content cursor start) ∷ held body value ∷ []

module _ (content : Str) (plain : NoOpen content) where
  pub Core-place :
      (redacted : Str) (cursor start stop : ℕ) (vault : TokenVault) (ps : List Piece)
      (body value : Str)
      → Core content redacted cursor vault ps
      → cursor ≤ start
      → start ≤ stop
      → value ≡ slice content start stop
      → NoBrace body
      → Keeps (placeholder body) value vault
      → Core content
          ((redacted ++ slice content cursor start) ++ placeholder body)
          stop
          (vault_insert (placeholder body) value vault)
          (ps ++ placed content cursor start body value)
  Core-place redacted cursor start stop vault ps body value core h k e clean keeps = record {
    written = rw (core.written, render-append) (unfold render in simp (append_assoc, append-nil));
    covered =
        take-slice start stop content k
        ∙ ap (λ s. s ++ slice content start stop) (take-slice cursor start content h)
        ∙ rw (core.covered, original-append, e)
            (unfold original in simp (append_assoc, append-nil));
    tidy = All-append _ ps (placed content cursor start body value) core.tidy (
      All-take _ (start - cursor) (drop cursor content) (All-drop _ cursor content plain),
      ((clean, value_plain), tt),
    );
    backed =
        All-append _ ps (placed content cursor start body value)
          (All-imp (λ p. Keeps-IsBacked (placeholder body) value vault p keeps) ps core.backed)
          (tt, (resolve-new, tt));
    entries =
        insert-IsEntry (placeholder body) value vault
          (record { body = body; key = refl; clean = clean; plain = value_plain }) core.entries;
  }
    where
      value_plain : NoOpen value
      value_plain =
          rw e (All-take _ (stop - start) (drop start content) (All-drop _ start content plain))

      resolve-new :
          resolve (placeholder body) (vault_insert (placeholder body) value vault) ≡ some value
      resolve-new = ground (
        arith,
        resolve-vault_insert (placeholder body) (placeholder body) value vault,
        beq_refl (placeholder body),
      )
