-- ===== src/Text/Replace.antt =====
-- `replace` of a placeholder `{{…}}` in text that has `{` nowhere but in placeholders.
use secureprompt.Prelude.{
  ◌≡◌, ◌≢◌, refl, false, [], ◌∷◌, ◌++◌, length, All, arith, list_beq, beq_refl, list_keyed,
  append_assoc, nat_keyed,
}
use secureprompt.Text.{Str, starts_with, replace_from}

-- Text with no opening brace, and text with no brace at all.
abbrev pub NoOpen : Str → Type 0
NoOpen = All (λ b. b ≢ 123)

abbrev pub NoBrace : Str → Type 0
NoBrace = All (λ b. (b ≢ 123) × (b ≢ 125))

abbrev pub close : Str
close = 125 ∷ 125 ∷ []

abbrev pub placeholder : Str → Str
placeholder body = 123 ∷ 123 ∷ (body ++ close)

pub NoBrace-NoOpen : (s : Str) → NoBrace s → NoOpen s
NoBrace-NoOpen [] h = tt
NoBrace-NoOpen (b ∷ s) h = (h.0.0, NoBrace-NoOpen s h.1)

-- What is left of an occurrence is passed over.
replace_from-skip :
    (pat to x s : Str) → replace_from (length x) pat to (x ++ s) ≡ replace_from 0 pat to s
unfolding replace_from
replace_from-skip pat to [] s = refl
replace_from-skip pat to (b ∷ x) s = replace_from-skip pat to x s

pub replace_from-NoOpen :
    (ps to x s : Str)
    → NoOpen x
    → replace_from 0 (123 ∷ ps) to (x ++ s) ≡ x ++ replace_from 0 (123 ∷ ps) to s
unfolding replace_from starts_with
replace_from-NoOpen ps to [] s h = refl
replace_from-NoOpen ps to (b ∷ x) s h = ground (arith, replace_from-NoOpen ps to x s h.1, h.0)

-- The end of the body is where the braces close.
starts_with-close :
    (a b s : Str)
    → NoBrace a
    → NoBrace b
    → starts_with (a ++ close) (b ++ (close ++ s)) ≡ list_beq a b
unfolding starts_with
starts_with-close [] [] s ha hb = refl
starts_with-close [] (y ∷ b) s ha hb = ground (arith, hb.0.1)
starts_with-close (x ∷ a) [] s ha hb = ground (arith, ha.0.1)
starts_with-close (x ∷ a) (y ∷ b) s ha hb = ground (arith, starts_with-close a b s ha.1 hb.1)

NoOpen-body-close : (b : Str) → NoBrace b → NoOpen (b ++ close)
NoOpen-body-close [] h = omega arith
NoOpen-body-close (x ∷ b) h = (h.0.0, NoOpen-body-close b h.1)

-- The opening braces of another placeholder are no occurrence, and its body holds none.
replace_from-other :
    (ps to b s : Str)
    → NoBrace b
    → replace_from 0 (123 ∷ 123 ∷ ps) to (123 ∷ (b ++ (close ++ s)))
      ≡ 123 ∷ (b ++ (close ++ replace_from 0 (123 ∷ 123 ∷ ps) to s))
unfolding replace_from starts_with
replace_from-other ps to [] s h = refl
replace_from-other ps to (x ∷ b) s h = ground (
  arith,
  h.0.0,
  append_assoc b close s,
  append_assoc b close (replace_from 0 (123 ∷ 123 ∷ ps) to s),
  replace_from-NoOpen (123 ∷ ps) to (b ++ close) s (NoOpen-body-close b h.1),
)

starts_with-placeholder :
    (a b s : Str)
    → NoBrace a
    → NoBrace b
    → starts_with (placeholder a) (placeholder b ++ s) ≡ list_beq a b
unfolding starts_with
starts_with-placeholder a b s ha hb = rw (append_assoc b close s) (starts_with-close a b s ha hb)

-- The placeholder that is looked for is replaced where it stands.
pub replace_from-placeholder_self :
    (a to s : Str)
    → NoBrace a
    → replace_from 0 (placeholder a) to (placeholder a ++ s)
      ≡ to ++ replace_from 0 (placeholder a) to s
unfolding replace_from
replace_from-placeholder_self a to s ha = ground (
  arith,
  starts_with-placeholder a a s ha ha,
  beq_refl a,
  replace_from-skip (placeholder a) to (123 ∷ (a ++ close)) s,
)

-- Any other placeholder stays.
pub replace_from-placeholder_ne :
    (a b to s : Str)
    → NoBrace a
    → NoBrace b
    → list_beq a b ≡ false
    → replace_from 0 (placeholder a) to (placeholder b ++ s)
      ≡ placeholder b ++ replace_from 0 (placeholder a) to s
unfolding replace_from
replace_from-placeholder_ne a b to s ha hb e = ground (
  arith,
  starts_with-placeholder a b s ha hb,
  append_assoc b close s,
  append_assoc b close (replace_from 0 (placeholder a) to s),
  replace_from-other (a ++ close) to b s hb,
)

pub placeholder_beq :
    (a b : Str) → NoBrace a → NoBrace b → list_beq (placeholder a) (placeholder b) ≡ list_beq a b
placeholder_beq a b ha hb = list_beq-close a b ha hb
  where
    list_beq-close :
        (a b : Str) → NoBrace a → NoBrace b → list_beq (a ++ close) (b ++ close) ≡ list_beq a b
    list_beq-close [] [] ha hb = refl
    list_beq-close [] (y ∷ b) ha hb = ground (arith, hb.0.1)
    list_beq-close (x ∷ a) [] ha hb = ground (arith, ha.0.1)
    list_beq-close (x ∷ a) (y ∷ b) ha hb = ground (arith, list_beq-close a b ha.1 hb.1)
