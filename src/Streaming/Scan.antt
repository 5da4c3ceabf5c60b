-- ===== src/Streaming/Scan.antt =====
-- Where a placeholder begins and ends in a text that has `{` nowhere else.
use secureprompt.Prelude.{
  ℕ, suc, ◌+◌, ◌≡◌, ◌≢◌, ◌∙◌, refl, sym, ap, true, Option, none, some, List, [], ◌∷◌, ◌++◌, All,
  arith, length, nat_keyed, take, drop,
}
use mathlib.Core.Option
use secureprompt.Text.{Str, find, starts_with}
use secureprompt.Text.Replace.{NoOpen, NoBrace, close}
use secureprompt.Streaming.{find_placeholder_start, is_ascii_uppercase, ends_with}

find_placeholder_start-cons :
    (b : ℕ) (s : Str)
    → b ≢ 123
    → find_placeholder_start (b ∷ s) ≡ Option.map (λ i. suc i) (find_placeholder_start s)
unfolding find_placeholder_start
find_placeholder_start-cons b [] h = refl
find_placeholder_start-cons b (c ∷ []) h = refl
find_placeholder_start-cons b (c ∷ d ∷ s) h = ground arith

shift_suc :
    (n : ℕ) (o : Option ℕ)
    → Option.map (λ i. suc i) (Option.map (λ i. n + i) o) ≡ Option.map (λ i. suc n + i) o
shift_suc n none = refl
shift_suc n (some i) = ap some (omega arith)

shift_zero : (o : Option ℕ) → Option.map (λ i. 0 + i) o ≡ o
shift_zero none = refl
shift_zero (some i) = ap some (omega arith)

-- Text without `{` is passed over.
pub find_placeholder_start-NoOpen :
    (x s : Str)
    → NoOpen x
    → find_placeholder_start (x ++ s) ≡ Option.map (λ i. length x + i) (find_placeholder_start s)
find_placeholder_start-NoOpen [] s h = sym (shift_zero (find_placeholder_start s))
find_placeholder_start-NoOpen (b ∷ x) s h =
    find_placeholder_start-cons b (x ++ s) h.0
    ∙ ap (Option.map (λ i. suc i)) (find_placeholder_start-NoOpen x s h.1)
    ∙ shift_suc (length x) (find_placeholder_start s)

pub find_placeholder_start-open :
    (c : ℕ) (s : Str)
    → is_ascii_uppercase c ≡ true
    → find_placeholder_start (123 ∷ 123 ∷ c ∷ s) ≡ some 0
unfolding find_placeholder_start
find_placeholder_start-open c s h = rw h

abbrev pub NoClose : Str → Type 0
NoClose = All (λ b. b ≢ 125)

pub NoBrace-NoClose : (s : Str) → NoBrace s → NoClose s
NoBrace-NoClose [] h = tt
NoBrace-NoClose (b ∷ s) h = (h.0.1, NoBrace-NoClose s h.1)

pub find-close : (b s : Str) → NoClose b → find close (b ++ (close ++ s)) ≡ some (length b)
unfolding find starts_with
find-close [] s h = refl
find-close (x ∷ b) s h = ground (arith, find-close b s h.1, h.0)

pub find-NoClose : (b : Str) → NoClose b → find close b ≡ none
unfolding find starts_with
find-NoClose [] h = refl
find-NoClose (x ∷ b) h = ground (arith, find-NoClose b h.1, h.0)

pub find-half_close : (b : Str) → NoClose b → find close (b ++ 125 ∷ []) ≡ none
unfolding find starts_with
find-half_close [] h = refl
find-half_close (x ∷ b) h = ground (arith, find-half_close b h.1, h.0)

-- Text without `{` does not change how a text ends in braces.
pub ends_with-NoOpen :
    (ps x t : Str) → NoOpen x → ends_with (123 ∷ ps) (x ++ t) ≡ ends_with (123 ∷ ps) t
unfolding ends_with
ends_with-NoOpen ps [] t h = refl
ends_with-NoOpen ps (b ∷ x) t h = ground (arith, ends_with-NoOpen ps x t h.1, h.0)

module _ {ℓ} {A : Type ℓ} where
  pub take-length_append : (xs ys : List A) → take (length xs) (xs ++ ys) ≡ xs
  take-length_append [] ys = take_zero ys
    where
      take_zero : (zs : List A) → take 0 zs ≡ []
      take_zero zs = refl
  take-length_append (x ∷ xs) ys = ap (◌∷◌ x) (take-length_append xs ys)

  pub drop-length_append : (xs ys : List A) → drop (length xs) (xs ++ ys) ≡ ys
  drop-length_append [] ys = refl
  drop-length_append (x ∷ xs) ys = drop-length_append xs ys
