-- ===== src/Vault/Tokens.antt =====
-- The placeholders that `apply_redaction` gives out: a placeholder tells its class and its number.
use secureprompt.Prelude.{ℕ, ◌≡◌, ◌∙◌, refl, sym, ap, [], ◌∷◌, ◌++◌, All, arith, append_assoc}
use mathlib.Core.List.{append_cancel_right}
use secureprompt.Text.{Str, decimal}
use secureprompt.Text.Decimal.{IsDigit, decimal-IsDigit, decimal_injective}
use secureprompt.Text.Replace.{NoBrace, placeholder, close}
use secureprompt.Vault.{Casing, title_case, token}

-- The class survives the spelling of its placeholder, which adds no brace.
pub record IsTidyClass (u : Casing) (class_upper : Str) : Type 0 where
  pub restores : u.to_uppercase (title_case u class_upper) ≡ class_upper
  pub clean : NoBrace (title_case u class_upper)

abbrev pub body_of : Casing → Str → ℕ → Str
body_of u class_upper n = title_case u class_upper ++ (95 ∷ decimal n)

pub token-placeholder : (u : Casing) (c : Str) (n : ℕ) → token u c n ≡ placeholder (body_of u c n)
unfolding token
token-placeholder u c n =
    ap (λ s. 123 ∷ 123 ∷ s) (sym (append_assoc (title_case u c) (95 ∷ decimal n) close))

digits-NoBrace : (s : Str) → All IsDigit s → NoBrace s
digits-NoBrace [] h = tt
digits-NoBrace (b ∷ s) h = ((omega arith, omega arith), digits-NoBrace s h.1)

pub NoBrace-append : (s t : Str) → NoBrace s → NoBrace t → NoBrace (s ++ t)
NoBrace-append [] t hs ht = ht
NoBrace-append (b ∷ s) t hs ht = (hs.0, NoBrace-append s t hs.1 ht)

pub body_of-NoBrace : (u : Casing) (c : Str) (n : ℕ) → IsTidyClass u c → NoBrace (body_of u c n)
body_of-NoBrace u c n h =
    NoBrace-append (title_case u c) (95 ∷ decimal n) h.clean
      ((omega arith, omega arith), digits-NoBrace (decimal n) (decimal-IsDigit n))

-- An underscore cannot stand among the digits.
underscore_in_digits : (d t e : Str) → All IsDigit d → d ≡ t ++ (95 ∷ e) → ⊥
underscore_in_digits [] [] e h p = cc
underscore_in_digits [] (x ∷ t) e h p = cc
underscore_in_digits (b ∷ d) [] e h p = ground (arith, h.0)
underscore_in_digits (b ∷ d) (x ∷ t) e h p = underscore_in_digits d t e h.1 (ground arith)

split_last :
    (s t d e : Str)
    → All IsDigit d
    → All IsDigit e
    → s ++ (95 ∷ d) ≡ t ++ (95 ∷ e)
    → (s ≡ t) × (d ≡ e)
split_last [] [] d e hd he p = (refl, ground arith)
split_last [] (x ∷ t) d e hd he p = absurd (underscore_in_digits d t e hd (ground arith))
split_last (x ∷ s) [] d e hd he p = absurd (underscore_in_digits e s d he (ground arith))
split_last (x ∷ s) (y ∷ t) d e hd he p =
    let (a, b) = split_last s t d e hd he (ground arith) in (ground arith, b)

-- Two placeholders are one only if they have the class and the number in common.
pub token_injective :
    (u : Casing) (c d : Str) (m n : ℕ)
    → IsTidyClass u c
    → IsTidyClass u d
    → token u c m ≡ token u d n
    → (c ≡ d) × (m ≡ n)
token_injective u c d m n hc hd e =
    let bodies : body_of u c m ≡ body_of u d n =
      append_cancel_right _ _ close
        (ground (arith, token-placeholder u c m, token-placeholder u d n)) in
    let (titles, digits) = split_last _ _ _ _ (decimal-IsDigit m) (decimal-IsDigit n) bodies in
    (sym hc.restores ∙ ap u.to_uppercase titles ∙ hd.restores, decimal_injective m n digits)
