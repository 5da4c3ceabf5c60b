-- ===== src/Pipeline/Stripping.antt =====
-- secureprompt-api/src/pipeline/service.rs, `strip_file_vault_markers`: what the loop computes, as one
-- pass over the text.
use secureprompt.Prelude.{
  ℕ, zero, suc, ◌+◌, ◌-◌, ◌≤◌, ◌≡◌, ◌∙◌, refl, sym, ap, true, false, none, some, List, [], ◌∷◌,
  ◌++◌, append-nil, append_assoc, arith, inl, inr, Option-cases, length, take, drop, is_empty,
  if◌then◌else◌,
}
use secureprompt.Text.{Str, find, starts_with}
use secureprompt.Pipeline.Markers.{
  marker_open, marker_close, push_ref, strip_on, strip_file_vault_markers,
}

abbrev pub add_ref : Str → List Str → List Str
add_ref vref refs = if is_empty vref then refs else vref ∷ refs

-- The text without its markers, and their references: `skip` bytes of a marker are still to be
-- passed over. A marker without an end stays, with all that follows it.
unfoldable pub strip_from : ℕ → Str → Str × List Str
strip_from skip [] = ([], [])
strip_from (suc k) (b ∷ s) = strip_from k s
strip_from zero (b ∷ s) = elim (starts_with marker_open (b ∷ s)) [
  | true ↦ elim (find marker_close (drop 7 (b ∷ s))) [
    | none ↦ (b ∷ s, [])
    | some stop ↦
        let rest = strip_from (6 + (stop + 2)) s in
        (rest.0, add_ref (take stop (drop 7 (b ∷ s))) (rest.1))
  ]
  | false ↦ let rest = strip_from 0 s in (b ∷ rest.0, rest.1)
]

pub strip_from-drop : (k : ℕ) (s : Str) → strip_from k s ≡ strip_from 0 (drop k s)
unfolding strip_from
strip_from-drop zero s = refl
strip_from-drop (suc k) [] = refl
strip_from-drop (suc k) (b ∷ s) = strip_from-drop k s

find-none :
    (b : ℕ) (s : Str)
    → find marker_open (b ∷ s) ≡ none
    → (starts_with marker_open (b ∷ s) ≡ false) × (find marker_open s ≡ none)
unfolding find
find-none b s h = ground (arith, h)

strip_from-none : (s : Str) → find marker_open s ≡ none → strip_from 0 s ≡ (s, [])
unfolding strip_from
strip_from-none [] h = refl
strip_from-none (b ∷ s) h =
    let (off, rest) = find-none b s h in
    rw (strip_from, off) (ap (λ (p : Str × List Str). (b ∷ p.0, p.1)) (strip_from-none s rest))

zero_add : (b : ℕ) → 0 + b ≡ b
zero_add b = omega arith

suc_add : (a b : ℕ) → suc a + b ≡ suc (a + b)
suc_add a b = omega arith

drop_nil {ℓ} : {A : Type ℓ} (n : ℕ) → drop {A = A} n [] ≡ []
drop_nil zero = refl
drop_nil (suc n) = refl

pub drop_add {ℓ} : {A : Type ℓ} (a b : ℕ) (xs : List A) → drop (a + b) xs ≡ drop b (drop a xs)
drop_add zero b xs = ap (λ n. drop n xs) (zero_add b)
drop_add (suc a) b [] = drop_nil (suc a + b) ∙ sym (drop_nil b)
drop_add (suc a) b (x ∷ xs) = ap (λ n. drop n (x ∷ xs)) (suc_add a b) ∙ drop_add a b xs

find-some :
    (b : ℕ) (s : Str) (i : ℕ)
    → find marker_open (b ∷ s) ≡ some (suc i)
    → (starts_with marker_open (b ∷ s) ≡ false) × (find marker_open s ≡ some i)
unfolding find
find-some b s i h = ground (arith, h)

pub find-zero : (pat s : Str) → find pat s ≡ some 0 → starts_with pat s ≡ true
unfolding find
find-zero pat [] h = ground (arith, h)
find-zero pat (b ∷ s) h = ground (arith, h)

find-nil : (i : ℕ) → find marker_open [] ≡ some (suc i) → ⊥
unfolding find starts_with
find-nil i h = cc h

strip_from-some :
    (s : Str) (i : ℕ)
    → find marker_open s ≡ some i
    → (starts_with marker_open (drop i s) ≡ true)
      × (strip_from 0 s ≡ (take i s ++ (strip_from 0 (drop i s)).0, (strip_from 0 (drop i s)).1))
unfolding strip_from
strip_from-some s zero h = (find-zero marker_open s h, refl)
strip_from-some [] (suc i) h = absurd (find-nil i h)
strip_from-some (b ∷ s) (suc i) h =
    let (off, rest) = find-some b s i h in
    let (on, same) = strip_from-some s i rest in
    (on, rw (strip_from, off) (ap (λ (p : Str × List Str). (b ∷ p.0, p.1)) same))

open_nil : starts_with marker_open [] ≡ true → ⊥
unfolding starts_with
open_nil h = cc h

-- A text that a marker begins, where `after` is what follows the opening.
abbrev from_marker : Str → Str → Str × List Str
from_marker t after = elim (find marker_close after) [
  | none ↦ (t, [])
  | some stop ↦
      let more = strip_from 0 (drop (stop + 2) after) in
      (more.0, add_ref (take stop after) (more.1))
]

strip_from-open :
    (t : Str) → starts_with marker_open t ≡ true → strip_from 0 t ≡ from_marker t (drop 7 t)
unfolding strip_from
strip_from-open [] h = absurd (open_nil h)
strip_from-open (b ∷ s) h = elim (Option-cases (find marker_close (drop 7 (b ∷ s)))) [
  | inl e ↦ rw (strip_from, from_marker, h, e) refl
  | inr (stop, e) ↦
      rw (strip_from, from_marker, h, e)
        (ap (λ (p : Str × List Str). (p.0, add_ref (take stop (drop 7 (b ∷ s))) (p.1)))
          (strip_from-drop (6 + (stop + 2)) s ∙ ap (strip_from 0) (drop_add 6 (stop + 2) s)))
]

push_ref-append :
    (vref : Str) (refs more : List Str) → push_ref vref refs ++ more ≡ refs ++ add_ref vref more
push_ref-append [] refs more = refl
push_ref-append (b ∷ vref) refs more = append_assoc refs ((b ∷ vref) ∷ []) more

-- What the loop has yet to do, from its state.
abbrev onto : Str → List Str → Str × List Str → Str × List Str
onto cleaned refs p = (cleaned ++ p.0, refs ++ p.1)

pub length-drop-le {ℓ} : {A : Type ℓ} (n : ℕ) (xs : List A) → length (drop n xs) ≤ length xs - n
length-drop-le zero xs = omega arith
length-drop-le (suc n) [] = omega arith
length-drop-le (suc n) (x ∷ xs) = omega (arith, length-drop-le n xs)

pub find-length : (pat s : Str) (i : ℕ) → find pat s ≡ some i → i ≤ length s
unfolding find
find-length pat [] i h = ground (arith, h)
find-length pat (b ∷ s) zero h = omega arith
find-length pat (b ∷ s) (suc i) h = ground (arith, h, find-length pat s i)

-- The text from a marker on, with what comes after the marker.
opened :
    (rest : Str) (idx : ℕ)
    → starts_with marker_open (drop idx rest) ≡ true
    → strip_from 0 (drop idx rest) ≡ from_marker (drop idx rest) (drop (idx + 7) rest)
opened rest idx on =
    strip_from-open (drop idx rest) on
    ∙ ap (from_marker (drop idx rest)) (sym (drop_add idx 7 rest))

onto_none :
    (cleaned : Str) (refs : List Str) (rest : Str)
    → (cleaned ++ rest, refs) ≡ onto cleaned refs (rest, [])
onto_none cleaned refs rest = ap (λ l. (cleaned ++ rest, l)) (sym (append-nil refs))

onto_before :
    (cleaned before : Str) (refs : List Str) (p : Str × List Str)
    → (cleaned ++ (before ++ p.0), refs ++ p.1) ≡ onto (cleaned ++ before) refs p
onto_before cleaned before refs p =
    ap (λ l. (l, refs ++ p.1)) (sym (append_assoc cleaned before (p.0)))

onto_whole :
    (cleaned : Str) (refs : List Str) (rest : Str) (idx : ℕ) (p : Str × List Str)
    → strip_from 0 rest
      ≡ (take idx rest ++ (strip_from 0 (drop idx rest)).0, (strip_from 0 (drop idx rest)).1)
    → strip_from 0 (drop idx rest) ≡ p
    → onto (cleaned ++ take idx rest) refs p ≡ onto cleaned refs (strip_from 0 rest)
onto_whole cleaned refs rest idx p same whole =
    sym (onto_before cleaned (take idx rest) refs p)
    ∙ ap (λ (q : Str × List Str). (cleaned ++ (take idx rest ++ q.0), refs ++ q.1)) (sym whole)
    ∙ ap (onto cleaned refs) (sym same)

shorter :
    (fuel idx stop : ℕ) (rest : Str)
    → length rest ≤ suc fuel
    → idx ≤ length rest
    → length (drop (stop + 2) (drop (idx + 7) rest)) ≤ fuel
shorter fuel idx stop rest h k =
    omega (arith, length-drop-le (stop + 2) (drop (idx + 7) rest), length-drop-le (idx + 7) rest)

strip_on_lem :
    (fuel : ℕ) (cleaned : Str) (refs : List Str) (rest : Str)
    → length rest ≤ fuel
    → strip_on fuel cleaned refs rest ≡ onto cleaned refs (strip_from 0 rest)
unfolding strip_on strip_from
strip_on_lem zero cleaned refs [] h = onto_none cleaned refs []
strip_on_lem zero cleaned refs (b ∷ rest) h = absurd (omega (arith, h))
strip_on_lem (suc fuel) cleaned refs rest h = elim (Option-cases (find marker_open rest)) [
  | inl e ↦
      rw (strip_on, e)
        (onto_none cleaned refs rest ∙ ap (onto cleaned refs) (sym (strip_from-none rest e)))
  | inr (idx, e) ↦
      let (on, same) = strip_from-some rest idx e in
      let after = drop (idx + 7) rest in
      elim (Option-cases (find marker_close after)) [
        | inl e' ↦
            let whole : strip_from 0 (drop idx rest) ≡ (drop idx rest, []) =
              opened rest idx on ∙ rw (from_marker, e') refl in
            rw (strip_on, e, e')
              (onto_none (cleaned ++ take idx rest) refs (drop idx rest)
                ∙ onto_whole cleaned refs rest idx (drop idx rest, []) same whole)
        | inr (stop, e') ↦
            let more = strip_from 0 (drop (stop + 2) after) in
            let whole : strip_from 0 (drop idx rest)
                ≡ (more.0, add_ref (take stop after) (more.1)) =
              opened rest idx on ∙ rw (from_marker, e') refl in
            rw (strip_on, e, e')
              (strip_on_lem fuel (cleaned ++ take idx rest) (push_ref (take stop after) refs)
                  (drop (stop + 2) after)
                  (shorter fuel idx stop rest h (find-length marker_open rest idx e))
                ∙ ap (λ l. ((cleaned ++ take idx rest) ++ more.0, l))
                    (push_ref-append (take stop after) refs (more.1))
                ∙ onto_whole cleaned refs rest idx (more.0, add_ref (take stop after) (more.1)) same
                    whole)
      ]
]

-- The length of the text is fuel enough for the loop: it takes the text without its markers, and
-- their references, in order.
pub strip_file_vault_markers_lem : (text : Str) → strip_file_vault_markers text ≡ strip_from 0 text
unfolding strip_file_vault_markers
strip_file_vault_markers_lem text = strip_on_lem (length text) [] [] text (omega arith)
