-- ===== src/Vault/Roundtrip.antt =====
-- The round trip of a request: what `apply_redaction` hides, `TokenVault::restore` brings back,
-- in whatever order the vault is iterated.
use secureprompt.Prelude.{
  ◌^◌, ◌<◌, ◌≡◌, ◌∙◌, refl, ap, some, List, [], ◌∷◌, ◌++◌, All, arith, inl, inr, Bool-cases,
  list_keyed, nat_keyed, list_beq, list_beq_iff, length, drop, take-append-drop, All-append,
  All-drop, All-imp, append-nil,
}
use secureprompt.Text.{Str}
use secureprompt.Text.Replace.{NoOpen, placeholder}
use secureprompt.Map.{lookup}
use secureprompt.Types.{Detection, TokenVault, resolve, restore}
use secureprompt.Vault.{
  Casing, Redactor, start_redactor, sort_detections, redact_all, apply_redaction,
}
use secureprompt.Vault.Order.{sort_detections-All, length-sort_detections}
use secureprompt.Vault.Ledger.{Ledger-start}
use secureprompt.Vault.Pieces.{
  Piece, raw, held, render, original, IsBacked, IsEntry, restore-render,
}
use secureprompt.Vault.Placing.{IsExact, Core, render-append, original-append}
use secureprompt.Vault.Loop.{redact_all-Core}

-- The same map: it resolves the same placeholders, and its entries are those of the other.
pub record IsReordered (w v : TokenVault) : Type 0 where
  pub resolves : (p : Str) → resolve p w ≡ resolve p v
  pub from : All (λ e. resolve e.0 v ≡ some e.1) w

resolve-IsEntry :
    (v : TokenVault) (p value : Str) → All IsEntry v → resolve p v ≡ some value → IsEntry (p, value)
unfolding resolve lookup
resolve-IsEntry [] p value h e = absurd (cc)
resolve-IsEntry ((k, w) ∷ v) p value h e = elim (Bool-cases (list_beq k p)) [
  | inl same ↦
      let key : k ≡ p = (list_beq_iff k p).0 same in
      let found : w ≡ value = ground (arith, same, e) in rw (← key, ← found) h.0
  | inr other ↦ resolve-IsEntry v p value h.1 (ground (arith, other, e))
]

reordered-IsBacked :
    (w v : TokenVault) → IsReordered w v → (p : Piece) → IsBacked v p → IsBacked w p
reordered-IsBacked w v h (raw x) b = tt
reordered-IsBacked w v h (held body value) b = h.resolves (placeholder body) ∙ b

Core-start : (content : Str) → Core content [] 0 [] []
unfolding render original
Core-start content = record { written = refl; covered = refl; tidy = tt; backed = tt; entries = tt }

-- With the rest of the text behind it, what is written restores to the text.
Core-restore :
    (content : Str) (r : Redactor) (ps : List Piece) (order : TokenVault)
    → NoOpen content
    → Core content r.redacted r.cursor r.vault ps
    → IsReordered order r.vault
    → restore order (r.redacted ++ drop r.cursor content) ≡ content
Core-restore content r ps order plain core same =
    ap (restore order) written
    ∙ restore-render order all_pieces
        (All-imp (λ e. resolve-IsEntry r.vault e.0 e.1 core.entries) order same.from)
        (All-append _ ps (raw rest ∷ []) core.tidy (All-drop _ r.cursor content plain, tt))
        (All-append _ ps (raw rest ∷ [])
          (All-imp (reordered-IsBacked order r.vault same) ps core.backed) (tt, tt))
    ∙ covered
  where
    rest : Str
    rest = drop r.cursor content

    all_pieces : List Piece
    all_pieces = ps ++ raw rest ∷ []

    written : r.redacted ++ drop r.cursor content ≡ render all_pieces
    written = rw (core.written, render-append) (unfold render in rw append-nil)

    covered : original all_pieces ≡ content
    covered =
        rw (original-append, ← core.covered)
          (unfold original in rw append-nil (take-append-drop r.cursor content))

-- Let a text hold no `{`, and let every detection be true to it: its value is the text in its
-- span, and its class keeps its identity when it is spelled in title case, and holds no brace then.
-- Then redacting the text with an empty vault and restoring the result gives the text back, in whatever order the map is
-- iterated, also where detections overlap or repeat. (Fewer than 2^32 detections, so that no
-- counter wraps.)
pub restore-apply_redaction :
    (u : Casing) (content : Str) (ds : List Detection) (order : TokenVault)
    → NoOpen content
    → All (IsExact u content) ds
    → length ds < 2 ^ 32
    → IsReordered order (apply_redaction u content ds [] []).vault
    → restore order (apply_redaction u content ds [] []).content ≡ content
unfolding apply_redaction
restore-apply_redaction u content ds order plain exact few same =
    let sorted = sort_detections ds in
    let (ps, core) =
      redact_all-Core plain sorted 0 (start_redactor [] []) []
        (sort_detections-All (IsExact u content) ds exact) (Core-start content, Ledger-start u)
        (omega (arith, length-sort_detections ds)) in
    Core-restore content (redact_all u content sorted (start_redactor [] [])) ps order plain core
      same
