-- ===== src/Vault/Loop.antt =====
-- The loop of `apply_redaction`: each detection that it accepts adds a placeholder that the vault
-- resolves to the text it stands for.
use secureprompt.Prelude.{
  ℕ, suc, ◌+◌, ◌^◌, ◌≤◌, ◌<◌, ◌≡◌, ◌∙◌, sym, subst, true, none, some, List, [], ◌∷◌, ◌++◌, All,
  arith, ◌⊎◌, inl, inr, Bool-cases, Option-cases, list_keyed, nat_keyed, pair_keyed, length,
}
use secureprompt.Text.{Str, slice}
use secureprompt.Text.Replace.{NoOpen, NoBrace, placeholder}
use secureprompt.Map.{lookup, insert}
use secureprompt.Types.{Detection, vault_insert}
use secureprompt.Vault.{
  Casing, Redactor, token, next_count, assign, accepts, emit, redact_one, redact_all,
}
use secureprompt.Vault.Spans.{accepts_bounds}
use secureprompt.Vault.Tokens.{body_of, body_of-NoBrace, token-placeholder}
use secureprompt.Vault.Ledger.{
  Ledger, Keeps, count, next_count-count, Ledger-weaken, Ledger-existing, Ledger-fresh,
  Keeps-existing, Keeps-fresh,
}
use secureprompt.Vault.Pieces.{Piece}
use secureprompt.Vault.Placing.{IsExact, Core, Core-place, placed}

abbrev IsFaithful : Casing → Str → ℕ → Redactor → List Piece → Type 0
IsFaithful u content n r ps =
    Core content r.redacted r.cursor r.vault ps × Ledger u n r.vault r.assigned r.counters

-- The detection's record is written over `r'`, with this placeholder.
abbrev written : Str → Detection → ℕ × ℕ → Redactor → Str → Redactor → Redactor
written content d (start, stop) r t r' = record r' {
  redacted = (r.redacted ++ slice content r.cursor start) ++ t;
  vault = vault_insert t d.value r'.vault;
  redaction_map = insert t d.value r'.redaction_map;
  cursor = stop;
}

module _ (u : Casing) (content : Str) (d : Detection) (start stop : ℕ) (r : Redactor) where
  emit-existing :
      (t : Str)
      → lookup (u.to_uppercase d.class, d.value) r.assigned ≡ some t
      → emit u content d (start, stop) r ≡ written content d (start, stop) r t r
  unfolding emit
  emit-existing t h = rw (h, assign)

  emit-fresh :
      lookup (u.to_uppercase d.class, d.value) r.assigned ≡ none
      → let c = u.to_uppercase d.class in
        let n = next_count c r.counters in
        emit u content d (start, stop) r
        ≡ written content d
            (start, stop)
            r
            (token u c n)
            (record r {
              counters = insert c n r.counters;
              assigned = insert (c, d.value) (token u c n) r.assigned;
            })
  unfolding emit
  emit-fresh h = rw (h, assign)

module _ {u : Casing} {content : Str} (plain : NoOpen content) (d : Detection)
    (exact : IsExact u content d) {n : ℕ} (r : Redactor) {ps : List Piece}
    (faithful : IsFaithful u content n r ps) (room : suc n < 2 ^ 32) where
  -- A text placed over the cursor, whichever placeholder is taken.
  Core-written :
      (start stop : ℕ)
      → d.span ≡ some (start, stop)
      → r.cursor ≤ start
      → (t body : Str) → t ≡ placeholder body
      → NoBrace body
      → Keeps t d.value r.vault
      → (qs : List Piece) × Core content
          ((r.redacted ++ slice content r.cursor start) ++ t)
          stop
          (vault_insert t d.value r.vault)
          qs
  Core-written start stop spans h t body key clean keeps =
      let (core, ledger) = faithful in
      let (ordered, value) = exact.exact start stop spans in
      let keeps' : Keeps (placeholder body) d.value r.vault =
        subst (λ s. Keeps s d.value r.vault) key keeps in
      (
        ps ++ placed content r.cursor start body d.value,
        rw key (
            Core-place content plain r.redacted r.cursor start stop r.vault ps body d.value core h
              ordered value clean keeps'),
      )

  emit-IsFaithful :
      (start stop : ℕ)
      → d.span ≡ some (start, stop)
      → r.cursor ≤ start
      → (qs : List Piece) × IsFaithful u content (suc n) (emit u content d (start, stop) r) qs
  emit-IsFaithful start stop spans h =
      let (core, ledger) = faithful in
      let c : Str = u.to_uppercase d.class in
      elim (Option-cases (lookup (c, d.value) r.assigned)) [
        | inr (t, e) ↦
            let there = ledger.known c d.value t e in
            let i = ledger.issued t d.value there in
            let (qs, core') =
              Core-written start stop spans h t (body_of u i.class i.number)
                (i.is_token ∙ token-placeholder u i.class i.number)
                (body_of-NoBrace u i.class i.number i.tidy)
                (Keeps-existing ledger t d.value there) in
            subst Kept (sym (emit-existing u content d start stop r t e))
              (qs, (core', Ledger-existing ledger t d.value there))
        | inl e ↦
            let number : next_count c r.counters ≡ count c r.counters + 1 =
              next_count-count c r.counters (omega (arith, ledger.counts c)) in
            let k : ℕ = count c r.counters + 1 in
            let (qs, core') =
              Core-written start stop spans h (token u c k) (body_of u c k)
                (token-placeholder u c k) (body_of-NoBrace u c k exact.tidy)
                (Keeps-fresh ledger c d.value exact.tidy) in
            subst Kept (sym (emit-fresh u content d start stop r e))
              (rw number (qs, (core', Ledger-fresh ledger c d.value exact.tidy)))
      ]
    where
      Kept : Redactor → Type 0
      Kept q = (qs : List Piece) × IsFaithful u content (suc n) q qs

module _ (u : Casing) (content : Str) (d : Detection) (r : Redactor) where
  redact_one_cases :
      (redact_one u content d r ≡ r)
      ⊎ ((start stop : ℕ) × (d.span ≡ some (start, stop))
          × (accepts content r.cursor (start, stop) ≡ true)
          × (redact_one u content d r ≡ emit u content d (start, stop) r))
  unfolding redact_one
  redact_one_cases = elim (Option-cases d.span) [
    | inl e ↦ inl (ground (arith, e))
    | inr ((start, stop), e) ↦ elim (Bool-cases (accepts content r.cursor (start, stop))) [
      | inl guards ↦ inr (start, stop, e, guards, ground (arith, e, guards))
      | inr guards ↦ inl (ground (arith, e, guards))
    ]
  ]

module _ {u : Casing} {content : Str} (plain : NoOpen content) where
  redact_one-IsFaithful :
      (d : Detection)
      → IsExact u content d
      → (n : ℕ) (r : Redactor) (ps : List Piece) → IsFaithful u content n r ps
      → suc n < 2 ^ 32
      → (qs : List Piece) × IsFaithful u content (suc n) (redact_one u content d r) qs
  redact_one-IsFaithful d exact n r ps f room = elim (redact_one_cases u content d r) [
    | inl e ↦ subst Kept (sym e) (ps, (f.0, Ledger-weaken f.1))
    | inr (start, stop, spans, guards, e) ↦ subst Kept (sym e) (
        emit-IsFaithful plain d exact r f room start stop spans
          (accepts_bounds content r.cursor start stop guards).0)
  ]
    where
      Kept : Redactor → Type 0
      Kept q = (qs : List Piece) × IsFaithful u content (suc n) q qs

  pub redact_all-Core :
      (ds : List Detection) (n : ℕ) (r : Redactor) (ps : List Piece)
      → All (IsExact u content) ds
      → IsFaithful u content n r ps
      → n + length ds < 2 ^ 32
      → (qs : List Piece) × let q = redact_all u content ds r in
          Core content q.redacted q.cursor q.vault qs
  unfolding redact_all
  redact_all-Core [] n r ps h f room = (ps, f.0)
  redact_all-Core (d ∷ ds) n r ps h f room =
      let (qs, g) = redact_one-IsFaithful d h.0 n r ps f (omega arith) in
      redact_all-Core ds (suc n) (redact_one u content d r) qs h.1 g (omega arith)
