-- ===== src/Vault/Ledger.antt =====
-- The books that one call of `apply_redaction` keeps: the placeholders given out, their numbers and
-- the vault agree, so a placeholder never stands for two values.
use secureprompt.Prelude.{
  ℕ, suc, ◌+◌, ◌^◌, ◌≤◌, ◌<◌, ◌≡◌, ◌∙◌, sym, ap, false, none, some, [], arith, inl, inr,
  if◌then◌else◌, Bool-cases, list_keyed, nat_keyed, pair_keyed, list_beq_iff, pair_beq_iff,
  list_beq, pair_beq, beq_refl,
}
use secureprompt.Text.{Str}
use secureprompt.Map.{Map, lookup, insert, lookup-insert}
use secureprompt.Types.{TokenVault, resolve, vault_insert}
use secureprompt.Vault.{Casing, token, next_count}
use secureprompt.Vault.Tokens.{IsTidyClass, token_injective}

pub count : Str → Map Str ℕ → ℕ
count c counters = elim (lookup c counters) [ none ↦ 0 | some n ↦ n ]

pub next_count-count :
    (c : Str) (counters : Map Str ℕ)
    → count c counters + 1 < 2 ^ 32
    → next_count c counters ≡ count c counters + 1
unfolding count next_count
next_count-count c counters h = ground arith

pub count-insert :
    (c d : Str) (n : ℕ) (counters : Map Str ℕ)
    → count d (insert c n counters) ≡ (if list_beq c d then n else count d counters)
unfolding count
count-insert c d n counters = ground (arith, lookup-insert c d n counters)

pub resolve-vault_insert :
    (t p value : Str) (v : TokenVault)
    → resolve p (vault_insert t value v) ≡ (if list_beq t p then some value else resolve p v)
unfolding resolve vault_insert
resolve-vault_insert t p value v = lookup-insert t p value v

-- A placeholder that this call gave out.
pub record IsIssued (u : Casing) (counters : Map Str ℕ) (p : Str) : Type 0 where
  pub class : Str
  pub number : ℕ
  pub is_token : p ≡ token u class number
  pub tidy : IsTidyClass u class
  pub bound : number ≤ count class counters

pub record Ledger (u : Casing) (N : ℕ) (vault : TokenVault) (assigned : Map (Str × Str) Str)
    (counters : Map Str ℕ) : Type 0 where
  pub issued : (p value : Str) → resolve p vault ≡ some value → IsIssued u counters p
  pub known :
      (class value t : Str) → lookup (class, value) assigned ≡ some t → resolve t vault ≡ some value
  pub counts : (class : Str) → count class counters ≤ N

-- The vault keeps what it resolves when this entry is added.
abbrev pub Keeps : Str → Str → TokenVault → Type 0
Keeps t value v = (p w : Str) → resolve p v ≡ some w → resolve p (vault_insert t value v) ≡ some w

pub Ledger-start : (u : Casing) → Ledger u 0 [] [] []
unfolding resolve lookup count
Ledger-start u = record {
  issued = λ p value h. cc;
  known = λ class value t h. cc;
  counts = λ class. omega arith;
}

module _ {u : Casing} {N : ℕ} {vault : TokenVault} {assigned : Map (Str × Str) Str}
    {counters : Map Str ℕ} (ledger : Ledger u N vault assigned counters) where
  pub Ledger-weaken : Ledger u (suc N) vault assigned counters
  Ledger-weaken = record {
    issued = ledger.issued;
    known = ledger.known;
    counts = λ class. omega (arith, ledger.counts class);
  }

  module _ (t value : Str) (there : resolve t vault ≡ some value) where
    same_resolve : (p : Str) → resolve p (vault_insert t value vault) ≡ resolve p vault
    same_resolve p = ground (arith, resolve-vault_insert t p value vault, list_beq_iff t p, there)

    pub Keeps-existing : Keeps t value vault
    Keeps-existing p w h = same_resolve p ∙ h

    pub Ledger-existing : Ledger u (suc N) (vault_insert t value vault) assigned counters
    Ledger-existing = record {
      issued = λ p w h. ledger.issued p w (sym (same_resolve p) ∙ h);
      known = λ class w s h. same_resolve s ∙ ledger.known class w s h;
      counts = λ class. omega (arith, ledger.counts class);
    }

  module _ (c value : Str) (tidy : IsTidyClass u c) where
    fresh : ℕ
    fresh = count c counters + 1

    fresh-ne : (p w : Str) → resolve p vault ≡ some w → list_beq (token u c fresh) p ≡ false
    unfolding fresh
    fresh-ne p w h = elim (Bool-cases (list_beq (token u c (count c counters + 1)) p)) [
      | inr no_match ↦ no_match
      | inl e ↦
          let i = ledger.issued p w h in
          let (classes, numbers) =
            token_injective u c i.class _ i.number tidy i.tidy
              ((list_beq_iff _ p).0 e ∙ i.is_token) in
          absurd (ground (arith, classes, numbers, i.bound))
    ]

    pub Keeps-fresh : Keeps (token u c (count c counters + 1)) value vault
    unfolding fresh
    Keeps-fresh p w h = ground (
      arith,
      resolve-vault_insert (token u c (count c counters + 1)) p value vault,
      fresh-ne p w h,
      h,
    )

    pub Ledger-fresh :
        Ledger u
          (suc N)
          (vault_insert (token u c (count c counters + 1)) value vault)
          (insert (c, value) (token u c (count c counters + 1)) assigned)
          (insert c (count c counters + 1) counters)
    Ledger-fresh = record {
      issued = λ p w h. elim (Bool-cases (list_beq (token u c (count c counters + 1)) p)) [
        | inl e ↦ record {
          class = c;
          number = count c counters + 1;
          is_token = sym ((list_beq_iff _ p).0 e);
          tidy = tidy;
          bound = ground (arith, count-insert c c (count c counters + 1) counters, beq_refl c);
        }
        | inr e ↦
            let i = ledger.issued p w (
              ground (
                arith,
                resolve-vault_insert (token u c (count c counters + 1)) p value vault,
                e,
                h,
              )) in
            record {
              class = i.class;
              number = i.number;
              is_token = i.is_token;
              tidy = i.tidy;
              bound = ground (
                arith,
                count-insert c i.class (count c counters + 1) counters,
                list_beq_iff c i.class,
                i.bound,
              );
            }
      ];
      known = λ class w s h. elim (Bool-cases (pair_beq (c, value) (class, w))) [
        | inl e ↦
            let same = (pair_beq_iff (c, value) (class, w)).0 e in
            ground (
              arith,
              e,
              h,
              ap (λ (q : Str × Str). q.1) same,
              lookup-insert (c, value) (class, w) (token u c (count c counters + 1)) assigned,
              resolve-vault_insert (token u c (count c counters + 1)) s value vault,
              list_beq_iff (token u c (count c counters + 1)) s,
            )
        | inr e ↦ Keeps-fresh s w (
            ledger.known class w s (
              ground (
                arith,
                e,
                h,
                lookup-insert (c, value) (class, w) (token u c (count c counters + 1)) assigned,
              )))
      ];
      counts = λ class. ground (
        arith,
        count-insert c class (count c counters + 1) counters,
        ledger.counts class,
        ledger.counts c,
      );
    }
