-- ===== src/Sidecar/Split.antt =====
-- `split_for_ner` of secureprompt-api/src/ml_sidecar/client.rs, on a text as the list of its
-- characters, each the list of its UTF-8 bytes; the chunks lie end to end and cover the text.
use secureprompt.Prelude.{
  ℕ, zero, suc, ◌+◌, ◌-◌, ◌≤◌, ◌<◌, ◌≡◌, min, max, refl, ap, ◌∙◌, inl, inr, Bool, List, [], ◌∷◌,
  ◌++◌, none, some, length, take, drop, take-append-drop, get_elem?, any, All, ltb, leb, ◌==◌,
  nat_keyed, list_keyed, if◌then◌else◌, Bool-cases, append-nil, arith,
}
use secureprompt.Text.{Str}
use secureprompt.Text.Trim.{spaces}

-- `char::is_whitespace`
abbrev pub is_whitespace : Str → Bool
is_whitespace c = any (λ s. s == c) spaces

abbrev pub blank_at : List Str → ℕ → Bool
blank_at chars i = elim (get_elem? chars i) [ none ↦ Bool.false | some c ↦ is_whitespace c ]

-- The bytes of these characters.
abbrev pub bytes : List Str → Str
bytes [] = []
bytes (c ∷ chars) = c ++ bytes chars

-- From this place back to just after a character of white space, or to the start.
unfoldable pub walk_back : List Str → ℕ → ℕ
walk_back rest zero = zero
walk_back rest (suc j) = if blank_at rest j then suc j else walk_back rest j

-- How many of the characters that remain go into the next chunk.
unfoldable pub cut_of : ℕ → List Str → ℕ
cut_of max_chars rest =
    let hard_end = min max_chars (length rest) in
    let j = walk_back rest hard_end in
    if ltb hard_end (length rest) then (if ltb 0 j then j else hard_end) else hard_end

-- The loop, from the byte offset where the characters that remain begin.
unfoldable pub split_chunks : ℕ → ℕ → ℕ → List Str → List (ℕ × Str)
split_chunks zero max_chars start_byte rest = []
split_chunks (suc fuel) max_chars start_byte [] = []
split_chunks (suc fuel) max_chars start_byte (c ∷ rest) =
    let cut = cut_of max_chars (c ∷ rest) in
    let chunk = bytes (take cut (c ∷ rest)) in
    (start_byte, chunk)
    ∷ split_chunks fuel max_chars (start_byte + length chunk) (drop cut (c ∷ rest))

unfoldable pub split_for_ner : List Str → ℕ → List (ℕ × Str)
split_for_ner chars limit =
    let max_chars = max limit 1 in
    if leb (length chars) max_chars
    then (0, bytes chars) ∷ []
    else split_chunks (length chars) max_chars 0 chars

-- These pieces end to end, each with the offset of its first byte.
abbrev pub placed : ℕ → List (List Str) → List (ℕ × Str)
placed start [] = []
placed start (piece ∷ pieces) = (start, bytes piece) ∷ placed (start + length (bytes piece)) pieces

abbrev pub flat : List (List Str) → List Str
flat [] = []
flat (piece ∷ pieces) = piece ++ flat pieces

walk_back-le : (rest : List Str) (j : ℕ) → walk_back rest j ≤ j
unfolding walk_back
walk_back-le rest zero = omega arith
walk_back-le rest (suc j) = elim (Bool-cases (blank_at rest j)) [
  | inl blank ↦ rw blank (omega arith)
  | inr more ↦ rw more (omega (arith, walk_back-le rest j))
]

cut_of_bounds :
    (max_chars : ℕ) (rest : List Str)
    → 0 < max_chars
    → 0 < length rest
    → (0 < cut_of max_chars rest)
      × (cut_of max_chars rest ≤ max_chars)
      × (cut_of max_chars rest ≤ length rest)
unfolding cut_of
cut_of_bounds max_chars rest p q = ground (arith, walk_back-le rest (min max_chars (length rest)))

length-take-of_le {ℓ} : {A : Type ℓ} (n : ℕ) (xs : List A) → n ≤ length xs → length (take n xs) ≡ n
length-take-of_le zero xs h = refl
length-take-of_le (suc n) [] h = absurd (omega arith)
length-take-of_le (suc n) (x ∷ xs) h = ap suc (length-take-of_le n xs (omega arith))

length-drop {ℓ} : {A : Type ℓ} (n : ℕ) (xs : List A) → length (drop n xs) ≡ length xs - n
length-drop zero xs = omega arith
length-drop (suc n) [] = omega arith
length-drop (suc n) (x ∷ xs) = omega (arith, length-drop n xs)

-- A piece of the text: not empty, and of at most so many characters.
abbrev pub IsPiece : ℕ → List Str → Type 0
IsPiece max_chars piece = (0 < length piece) × (length piece ≤ max_chars)

abbrev pub Tiling : ℕ → ℕ → List Str → List (ℕ × Str) → Type 0
Tiling max_chars start chars chunks =
    (pieces : List (List Str)) × (chunks ≡ placed start pieces)
    × (flat pieces ≡ chars)
    × All (λ (piece : List Str). IsPiece max_chars piece) pieces

split_chunks-tiles :
    (fuel max_chars start : ℕ) (rest : List Str)
    → 0 < max_chars
    → length rest ≤ fuel
    → Tiling max_chars start rest (split_chunks fuel max_chars start rest)
unfolding split_chunks
split_chunks-tiles zero max_chars start [] p h = ([], refl, refl, tt)
split_chunks-tiles zero max_chars start (c ∷ rest) p h = absurd (omega arith)
split_chunks-tiles (suc fuel) max_chars start [] p h = ([], refl, refl, tt)
split_chunks-tiles (suc fuel) max_chars start (c ∷ rest) p h =
    let cut = cut_of max_chars (c ∷ rest) in
    let bounds = cut_of_bounds max_chars (c ∷ rest) p (omega arith) in
    let size = length-take-of_le cut (c ∷ rest) bounds.2 in
    let (pieces, chunks, whole, sized) =
      split_chunks-tiles fuel max_chars (start + length (bytes (take cut (c ∷ rest))))
        (drop cut (c ∷ rest)) p (omega (arith, length-drop cut (c ∷ rest))) in
    (
      take cut (c ∷ rest) ∷ pieces,
      ap (◌∷◌ (start, bytes (take cut (c ∷ rest)))) chunks,
      ap (λ r. take cut (c ∷ rest) ++ r) whole ∙ take-append-drop cut (c ∷ rest),
      ((omega arith, omega arith), sized),
    )

-- Whatever the limit, the chunks of a text that is not empty lie end to end in its order, each with
-- the byte offset at which it begins; they are made of whole characters, together the whole text; each
-- has at least one character, and no more than the limit, which counts as one where it is zero.
pub split_for_ner-tiles :
    (chars : List Str) (limit : ℕ)
    → 0 < length chars
    → Tiling (max limit 1) 0 chars (split_for_ner chars limit)
unfolding split_for_ner
split_for_ner-tiles chars limit h = elim (Bool-cases (leb (length chars) (max limit 1))) [
  | inl short ↦ rw short (chars ∷ [], refl, append-nil chars, ((h, ground arith), tt))
  | inr long ↦
      rw long (split_chunks-tiles (length chars) (max limit 1) 0 chars (omega arith) (omega arith))
]
