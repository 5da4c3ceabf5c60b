-- ===== src/Vault/Idle.antt =====
-- secureprompt-api/src/vault/redaction.rs: a redaction that leaves no entry in the redaction map has
-- changed nothing.
use secureprompt.Prelude.{
  ℕ, inl, inr, ◌≡◌, ◌∙◌, refl, sym, ap, true, false, List, [], ◌∷◌, arith, Bool-cases, Option-cases,
  inl, inr, is_empty, nat_keyed, list_keyed,
}
use secureprompt.Text.{Str}
use secureprompt.Map.{Map, insert}
use secureprompt.Types.{Detection, TokenVault}
use secureprompt.Vault.{
  Casing, Redactor, accepts, emit, redact_one, redact_all, start_redactor, sort_detections,
  apply_redaction,
}

insert-some : (key value : Str) (m : Map Str Str) → is_empty (insert key value m) ≡ false
unfolding insert
insert-some key value [] = refl
insert-some key value (e ∷ m) = ground arith

emit-some :
    (u : Casing) (content : Str) (d : Detection) (start stop : ℕ) (r : Redactor)
    → is_empty ((emit u content d (start, stop) r).redaction_map) ≡ false
unfolding emit
emit-some u content d start stop r = insert-some _ (d.value) _

redact_one-idle :
    (u : Casing) (content : Str) (d : Detection) (r : Redactor)
    → is_empty ((redact_one u content d r).redaction_map) ≡ true
    → redact_one u content d r ≡ r
unfolding redact_one
redact_one-idle u content d r h = elim (Option-cases (d.span)) [
  | inl e ↦ rw e refl
  | inr (span, e) ↦ elim (Bool-cases (accepts content (r.cursor) span)) [
    | inl so ↦ ground (arith, e, so, emit-some u content d (span.0) (span.1) r, h)
    | inr nay ↦ rw (e, nay) refl
  ]
]

redact_all-idle :
    (u : Casing) (content : Str) (ds : List Detection) (r : Redactor)
    → is_empty ((redact_all u content ds r).redaction_map) ≡ true
    → redact_all u content ds r ≡ r
unfolding redact_all
redact_all-idle u content [] r h = refl
redact_all-idle u content (d ∷ ds) r h =
    let rest = redact_all-idle u content ds (redact_one u content d r) h in
    let one =
      redact_one-idle u content d r
        (ap (λ (x : Redactor). is_empty (x.redaction_map)) (sym rest) ∙ h) in
    rest ∙ one

pub apply_redaction-idle :
    (u : Casing) (content : Str) (ds : List Detection) (vault : TokenVault) (m : Map Str Str)
    → is_empty ((apply_redaction u content ds vault m).redaction_map) ≡ true
    → apply_redaction u content ds vault m
      ≡ record { content = content; vault = vault; redaction_map = m }
unfolding apply_redaction
apply_redaction-idle u content ds vault m h =
    let same = redact_all-idle u content (sort_detections ds) (start_redactor vault m) h in
    rw same refl

-- Without a detection there is nothing to change.
pub apply_redaction-nil :
    (u : Casing) (content : Str) (vault : TokenVault) (m : Map Str Str)
    → apply_redaction u content [] vault m
      ≡ record { content = content; vault = vault; redaction_map = m }
unfolding apply_redaction sort_detections redact_all
apply_redaction-nil u content vault m = refl
