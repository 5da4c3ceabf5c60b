-- ===== src/Text/Decimal.antt =====
-- The decimal digits that `format!` writes: they are digits, and they can be read back.
use secureprompt.Prelude.{
  ℕ, zero, suc, ◌+◌, ◌-◌, ◌*◌, ◌/◌, ◌%◌, ◌≤◌, ◌<◌, ◌≡◌, ◌∙◌, ap, [], ◌∷◌, ltb, All, arith, inl, inr,
  Bool-cases,
}
use secureprompt.Text.{Str, decimal, digits_on}

abbrev pub IsDigit : ℕ → Type 0
IsDigit b = (48 ≤ b) × (b < 58)

read_decimal : ℕ → Str → ℕ
read_decimal acc [] = acc
read_decimal acc (b ∷ s) = read_decimal (acc * 10 + (b - 48)) s

read-digits_on :
    (fuel n : ℕ) (acc : Str) → n < fuel → read_decimal 0 (digits_on fuel n acc) ≡ read_decimal n acc
unfolding read_decimal digits_on
read-digits_on zero n acc h = elim h [ ]
read-digits_on (suc fuel) n acc h = elim (Bool-cases (ltb n 10)) [
  | inl small ↦ rw small (ap (λ k. read_decimal k acc) (omega arith))
  | inr large ↦ rw large (
      read-digits_on fuel (n / 10) ((48 + n % 10) ∷ acc) (ground arith)
      ∙ ap (λ k. read_decimal k acc) (omega arith))
]

read-decimal : (n : ℕ) → read_decimal 0 (decimal n) ≡ n
unfolding decimal read_decimal
read-decimal n = read-digits_on (suc n) n [] (omega arith)

pub decimal_injective : (m n : ℕ) → decimal m ≡ decimal n → m ≡ n
decimal_injective m n e = omega (arith, ap (read_decimal 0) e, read-decimal m, read-decimal n)

digits_on-IsDigit : (fuel n : ℕ) (acc : Str) → All IsDigit acc → All IsDigit (digits_on fuel n acc)
unfolding digits_on
digits_on-IsDigit zero n acc h = h
digits_on-IsDigit (suc fuel) n acc h = elim (Bool-cases (ltb n 10)) [
  | inl small ↦ rw small (ground arith)
  | inr large ↦
      rw large
        (digits_on-IsDigit fuel (n / 10) ((48 + n % 10) ∷ acc) ((omega arith, omega arith), h))
]

pub decimal-IsDigit : (n : ℕ) → All IsDigit (decimal n)
unfolding decimal
decimal-IsDigit n = digits_on-IsDigit (suc n) n [] tt
