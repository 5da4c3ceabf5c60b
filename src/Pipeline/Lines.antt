-- ===== src/Pipeline/Lines.antt =====
-- secureprompt-api/src/pipeline/service.rs, `strip_file_vault_markers`: a text of lines is stripped
-- line by line, since no marker's delimiter reaches over the end of a line.
use secureprompt.Prelude.{
  ℕ, zero, suc, ◌+◌, ◌≤◌, ◌≡◌, ◌≢◌, ◌∙◌, refl, sym, ap, Bool, true, false, none, some, List, [],
  ◌∷◌, ◌++◌, arith, inl, inr, Bool-cases, Option-cases, true_ne_false, length, take, drop, All,
}
use secureprompt.Text.{Str, find, starts_with}
use secureprompt.Types.{Message}
use secureprompt.Pipeline.Markers.{marker_open, marker_close}
use secureprompt.Pipeline.Stripping.{strip_from, add_ref, find-zero, find-length, length-drop-le}

-- Every marker of the text has an end.
unfoldable pub terminated : ℕ → Str → Bool
terminated skip [] = true
terminated (suc k) (b ∷ s) = terminated k s
terminated zero (b ∷ s) = elim (starts_with marker_open (b ∷ s)) [
  | true ↦ elim (find marker_close (drop 7 (b ∷ s))) [
    | none ↦ false
    | some stop ↦ terminated (6 + (stop + 2)) s
  ]
  | false ↦ terminated 0 s
]

abbrev pub IsTerminated : Message → Type 0
IsTerminated m = terminated 0 (m.content) ≡ true

-- A pattern that is within a line does not reach over the line's end.
starts_with-line :
    (ps t b : Str) → All (λ p. p ≢ 10) ps → starts_with ps (t ++ (10 ∷ b)) ≡ starts_with ps t
unfolding starts_with
starts_with-line [] t b h = refl
starts_with-line (p ∷ ps) [] b h = ground (arith, h.0)
starts_with-line (p ∷ ps) (x ∷ t) b h = ground (arith, starts_with-line ps t b h.1)

find_close-nil : (i : ℕ) → find marker_close [] ≡ some i → ⊥
unfolding find starts_with
find_close-nil i h = cc h

close_line : (t b : Str) → starts_with marker_close (t ++ (10 ∷ b)) ≡ starts_with marker_close t
close_line t b = starts_with-line marker_close t b ((λ e. cc e), ((λ e. cc e), tt))

open-line : (t b : Str) → starts_with marker_open (t ++ (10 ∷ b)) ≡ starts_with marker_open t
open-line t b = starts_with-line marker_open t b (ground arith)

find-line :
    (t b : Str) (i : ℕ) → find marker_close t ≡ some i → find marker_close (t ++ (10 ∷ b)) ≡ some i
unfolding find
find-line [] b i h = absurd (find_close-nil i h)
find-line (x ∷ t) b zero h = ground (arith, h, close_line (x ∷ t) b)
find-line (x ∷ t) b (suc i) h = ground (arith, h, close_line (x ∷ t) b, find-line t b i)

close-bound : (t : Str) → starts_with marker_close t ≡ true → 0 + 2 ≤ length t
unfolding starts_with
close-bound [] h = absurd (cc h)
close-bound (x ∷ []) h = ground (arith, h)
close-bound (x ∷ y ∷ t) h = omega arith

find_close-bound : (t : Str) (i : ℕ) → find marker_close t ≡ some i → i + 2 ≤ length t
unfolding find
find_close-bound [] i h = absurd (find_close-nil i h)
find_close-bound (x ∷ t) zero h = close-bound (x ∷ t) (find-zero marker_close (x ∷ t) h)
find_close-bound (x ∷ t) (suc i) h = ground (arith, h, find_close-bound t i)

drop-append-le {ℓ} :
    {A : Type ℓ} (n : ℕ) (xs ys : List A) → n ≤ length xs → drop n (xs ++ ys) ≡ drop n xs ++ ys
drop-append-le zero xs ys h = refl
drop-append-le (suc n) [] ys h = absurd (omega (arith, h))
drop-append-le (suc n) (x ∷ xs) ys h = drop-append-le n xs ys (omega (arith, h))

take-append-le {ℓ} :
    {A : Type ℓ} (n : ℕ) (xs ys : List A) → n ≤ length xs → take n (xs ++ ys) ≡ take n xs
take-append-le zero xs ys h = refl
take-append-le (suc n) [] ys h = absurd (omega (arith, h))
take-append-le (suc n) (x ∷ xs) ys h = ap (◌∷◌ x) (take-append-le n xs ys (omega (arith, h)))

-- A marker with its end lies in the line.
marker_fits :
    (a : Str) (stop : ℕ)
    → find marker_close (drop 6 a) ≡ some stop
    → (6 ≤ length a) × (6 + (stop + 2) ≤ length a)
marker_fits a stop e =
    let bound = find_close-bound (drop 6 a) stop e in
    (omega (arith, bound, length-drop-le 6 a), omega (arith, bound, length-drop-le 6 a))

-- What two lines come to.
abbrev pub beside : Str × List Str → Str × List Str → Str × List Str
beside p q = (p.0 ++ (10 ∷ q.0), p.1 ++ q.1)

add_ref-append :
    (vref : Str) (refs more : List Str) → add_ref vref (refs ++ more) ≡ add_ref vref refs ++ more
add_ref-append [] refs more = refl
add_ref-append (b ∷ vref) refs more = refl

open_line : (b : Str) → starts_with marker_open (10 ∷ b) ≡ false
unfolding starts_with
open_line b = refl

-- A marker whose end is found, with its reference.
unfoldable past_marker : Str → Str × List Str → Str × List Str
past_marker vref p = (p.0, add_ref vref (p.1))

past_marker-beside :
    (vref : Str) (p q : Str × List Str)
    → past_marker vref (beside p q) ≡ beside (past_marker vref p) q
unfolding past_marker
past_marker-beside vref p q = ap (λ l. (p.0 ++ (10 ∷ q.0), l)) (add_ref-append vref (p.1) (q.1))

strip_from-off :
    (x : ℕ) (s : Str)
    → starts_with marker_open (x ∷ s) ≡ false
    → strip_from 0 (x ∷ s) ≡ (x ∷ (strip_from 0 s).0, (strip_from 0 s).1)
unfolding strip_from
strip_from-off x s off = rw (strip_from, off) refl

strip_from-on :
    (x : ℕ) (s vref : Str) (stop : ℕ)
    → starts_with marker_open (x ∷ s) ≡ true
    → find marker_close (drop 6 s) ≡ some stop
    → take stop (drop 6 s) ≡ vref
    → strip_from 0 (x ∷ s) ≡ past_marker vref (strip_from (6 + (stop + 2)) s)
unfolding strip_from past_marker
strip_from-on x s vref stop on e v =
    rw (strip_from, on, e) (ap (λ w. past_marker w (strip_from (6 + (stop + 2)) s)) v)

terminated-off :
    (x : ℕ) (s : Str)
    → starts_with marker_open (x ∷ s) ≡ false
    → terminated 0 (x ∷ s) ≡ terminated 0 s
unfolding terminated
terminated-off x s off = rw (terminated, off) refl

terminated-on :
    (x : ℕ) (s : Str)
    → starts_with marker_open (x ∷ s) ≡ true
    → terminated 0 (x ∷ s) ≡ true
    → (stop : ℕ) × (find marker_close (drop 6 s) ≡ some stop)
      × (terminated (6 + (stop + 2)) s ≡ true)
unfolding terminated
terminated-on x s on t = elim (Option-cases (find marker_close (drop 6 s))) [
  | inl e ↦ absurd (true_ne_false t (rw (terminated, on, e) refl))
  | inr (stop, e) ↦ (stop, e, sym (rw (terminated, on, e) refl) ∙ t)
]

pub strip_from-line :
    (k : ℕ) (a b : Str)
    → k ≤ length a
    → terminated k a ≡ true
    → strip_from k (a ++ (10 ∷ b)) ≡ beside (strip_from k a) (strip_from 0 b)
unfolding strip_from terminated
strip_from-line zero [] b h t = strip_from-off 10 b (open_line b)
strip_from-line (suc k) [] b h t = absurd (omega (arith, h))
strip_from-line (suc k) (x ∷ a) b h t = strip_from-line k a b (omega (arith, h)) t
strip_from-line zero (x ∷ a) b h t = elim (Bool-cases (starts_with marker_open (x ∷ a))) [
  | inr off ↦
      strip_from-off x (a ++ (10 ∷ b)) (open-line (x ∷ a) b ∙ off)
      ∙ ap (λ (p : Str × List Str). (x ∷ p.0, p.1))
          (strip_from-line zero a b (omega arith) (sym (terminated-off x a off) ∙ t))
      ∙ ap (λ p. beside p (strip_from 0 b)) (sym (strip_from-off x a off))
  | inl on ↦
      let (stop, e, t') = terminated-on x a on t in
      let (long, whole) = marker_fits a stop e in
      let same = drop-append-le 6 a (10 ∷ b) long in
      strip_from-on x (a ++ (10 ∷ b)) (take stop (drop 6 a)) stop (open-line (x ∷ a) b ∙ on)
        (ap (find marker_close) same ∙ find-line (drop 6 a) b stop e)
        (ap (take stop) same
          ∙ take-append-le stop (drop 6 a) (10 ∷ b) (find-length marker_close (drop 6 a) stop e))
      ∙ ap (past_marker (take stop (drop 6 a))) (strip_from-line (6 + (stop + 2)) a b whole t')
      ∙ past_marker-beside (take stop (drop 6 a)) (strip_from (6 + (stop + 2)) a) (strip_from 0 b)
      ∙ ap (λ p. beside p (strip_from 0 b))
          (sym (strip_from-on x a (take stop (drop 6 a)) stop on e refl))
]
