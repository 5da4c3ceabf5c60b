-- ===== src/Streaming/Cut.antt =====
-- A text of pieces that is cut in two at any byte: whole pieces, the front of a placeholder, and the
-- pieces that the rest goes on with.
use secureprompt.Prelude.{
  ℕ, ◌≡◌, ◌≢◌, ◌∙◌, refl, sym, ap, ap₂, subst, ◌⊎◌, inl, inr, List, [], ◌∷◌, ◌++◌, All,
  append_assoc, append-nil, nat_keyed,
}
use secureprompt.Text.{Str}
use secureprompt.Text.Replace.{NoOpen, NoBrace, placeholder, close}
use secureprompt.Types.{TokenVault}
use secureprompt.Vault.Pieces.{Piece, raw, held, render, original, IsTidyPiece, IsBacked}
use secureprompt.Streaming.Drain.{
  IsTitled, IsTitledPiece, Front, nothing, one_brace, two_braces, in_body, half_closed, front,
  IsFront,
}

-- A piece that the streamer and the vault handle.
abbrev pub IsSound : TokenVault → Piece → Type 0
IsSound v p = IsTidyPiece p × (IsBacked v p × IsTitledPiece p)

cons-inj : {x y : ℕ} {xs ys : Str} → (x ∷ xs) ≡ (y ∷ ys) → (x ≡ y) × (xs ≡ ys)
cons-inj e = (cc e, cc e)

-- Two ways to write a text as two parts: one part of the first kind is the longer one.
split_append :
    (a b x y : Str)
    → a ++ b ≡ x ++ y
    → ((c : Str) × ((x ≡ a ++ c) × (c ++ y ≡ b))) ⊎ ((c : Str) × ((a ≡ x ++ c) × (c ++ b ≡ y)))
split_append [] b x y e = inl (x, (refl, sym e))
split_append (p ∷ a) b [] y e = inr (p ∷ a, (refl, e))
split_append (p ∷ a) b (q ∷ x) y e =
    let (heads, tails) = cons-inj e in
    elim (split_append a b x y tails) [
      | inl (c, (whole, rest)) ↦ inl (c, (ap₂ (λ u w. u ∷ w) (sym heads) whole, rest))
      | inr (c, (whole, rest)) ↦ inr (c, (ap₂ (λ u w. u ∷ w) heads whole, rest))
    ]

append-empty : (d c : Str) → d ++ c ≡ [] → c ≡ []
append-empty [] c e = e
append-empty (x ∷ d) c e = absurd (cc e)

module _ (P : ℕ → Type 0) where
  All-parts : (xs ys : Str) → All P (xs ++ ys) → All P xs × All P ys
  All-parts [] ys h = (tt, h)
  All-parts (x ∷ xs) ys h = let (left, right) = All-parts xs ys h.1 in ((h.0, left), right)

-- What is left of a text, where a first part of it is a front.
abbrev Fronted : Str → Str → Type 0
Fronted a c = (c ≡ []) ⊎ ((t : Front) × ((front t ≡ a) × IsFront t))

-- The part goes on past the body.
front_past_body :
    (b : ℕ) (body d c : Str)
    → IsTitled (b ∷ body)
    → NoBrace (b ∷ body)
    → d ++ c ≡ close
    → Fronted (123 ∷ 123 ∷ (b ∷ (body ++ d))) c
unfolding front
front_past_body b body [] c titled clean e =
    inr (in_body b body, (ap (λ u. 123 ∷ 123 ∷ (b ∷ u)) (sym (append-nil body)), (titled, clean)))
front_past_body b body (k ∷ []) c titled clean e = inr (
  half_closed b body,
  (ap (λ u. 123 ∷ 123 ∷ (b ∷ (body ++ u ∷ []))) (sym (cons-inj e).0), (titled, clean)),
)
front_past_body b body (k ∷ l ∷ d) c titled clean e =
    inl (append-empty d c (cons-inj (cons-inj e).1).1)

front_with_body :
    (b : ℕ) (body a c : Str)
    → IsTitled (b ∷ body)
    → NoBrace (b ∷ body)
    → a ++ c ≡ body ++ close
    → Fronted (123 ∷ 123 ∷ (b ∷ a)) c
unfolding front
front_with_body b body a c titled clean e = elim (split_append a c body close e) [
  | inl (d, (whole, rest)) ↦
      let parts : NoBrace a × NoBrace d =
        All-parts (λ b. (b ≢ 123) × (b ≢ 125)) a d (rw whole at clean.1) in
      inr (in_body b a, (refl, (titled, (clean.0, parts.0))))
  | inr (d, (whole, rest)) ↦ rw whole (front_past_body b body d c titled clean rest)
]

-- A part of a placeholder that ends before the placeholder does is a front.
front_of : (a c body : Str) → IsTitled body → NoBrace body → a ++ c ≡ placeholder body → Fronted a c
unfolding front
front_of [] c body titled clean e = inr (nothing, (refl, tt))
front_of (p ∷ []) c body titled clean e =
    inr (one_brace, (ap (λ u. u ∷ []) (sym (cons-inj e).0), tt))
front_of (p ∷ q ∷ []) c body titled clean e =
    let (first, more) = cons-inj e in
    inr (two_braces, (ap₂ (λ u w. u ∷ w ∷ []) (sym first) (sym (cons-inj more).0), tt))
front_of (p ∷ q ∷ r ∷ a) c [] titled clean e = absurd titled
front_of (p ∷ q ∷ r ∷ a) c (b ∷ body) titled clean e =
    let (first, more) = cons-inj e in
    let (second, most) = cons-inj more in
    let (third, tail) = cons-inj most in
    subst (λ u. Fronted u c)
      (ap₂ (λ u w. u ∷ w) (sym first)
        (ap₂ (λ u w. u ∷ w) (sym second) (ap (λ u. u ∷ a) (sym third))))
      (front_with_body b body a c titled clean tail)

-- A text of pieces that is cut in two: whole pieces, a front, and the pieces it goes on with.
pub record Cut (v : TokenVault) (rs : List Piece) (a b : Str) : Type 0 where
  pub before : List Piece
  pub after : List Piece
  pub left_over : Front
  pub IsFront_left_over : IsFront left_over
  pub first_part : render before ++ front left_over ≡ a
  pub second_part : render after ≡ front left_over ++ b
  pub same_original : original rs ≡ original before ++ original after
  pub before_sound : All (IsSound v) before
  pub after_sound : All (IsSound v) after

-- A piece that the first part holds whole.
Cut-whole :
    (v : TokenVault) (p : Piece) (rs : List Piece) (x y a b : Str)
    → IsSound v p
    → ((qs : List Piece) → render (p ∷ qs) ≡ x ++ render qs)
    → ((qs : List Piece) → original (p ∷ qs) ≡ y ++ original qs)
    → Cut v rs a b
    → Cut v (p ∷ rs) (x ++ a) b
Cut-whole v p rs x y a b sound shows means cut = record {
  before = p ∷ cut.before;
  after = cut.after;
  left_over = cut.left_over;
  IsFront_left_over = cut.IsFront_left_over;
  first_part =
      ap (λ u. u ++ front cut.left_over) (shows cut.before)
      ∙ append_assoc x (render cut.before) (front cut.left_over)
      ∙ ap (◌++◌ x) cut.first_part;
  second_part = cut.second_part;
  same_original =
      means rs
      ∙ ap (◌++◌ y) cut.same_original
      ∙ sym (append_assoc y (original cut.before) (original cut.after))
      ∙ ap (λ u. u ++ original cut.after) (sym (means cut.before));
  before_sound = (sound, cut.before_sound);
  after_sound = cut.after_sound;
}

-- The first part ends where a piece does.
Cut-end :
    (v : TokenVault) (rs : List Piece) (b : Str)
    → All (IsSound v) rs
    → render rs ≡ b
    → Cut v rs [] b
unfolding render original front
Cut-end v rs b sound e = record {
  before = [];
  after = rs;
  left_over = nothing;
  IsFront_left_over = tt;
  first_part = refl;
  second_part = e;
  same_original = refl;
  before_sound = tt;
  after_sound = sound;
}

-- The first part ends in plain text.
Cut-raw :
    (v : TokenVault) (rs : List Piece) (a c b : Str)
    → NoOpen (a ++ c)
    → All (IsSound v) rs
    → c ++ render rs ≡ b
    → Cut v (raw (a ++ c) ∷ rs) a b
unfolding render original front
Cut-raw v rs a c b plain sound e =
    let (left, right) : NoOpen a × NoOpen c = All-parts (λ b. b ≢ 123) a c plain in
    record {
      before = raw a ∷ [];
      after = raw c ∷ rs;
      left_over = nothing;
      IsFront_left_over = tt;
      first_part = append-nil (a ++ []) ∙ append-nil a;
      second_part = e;
      same_original =
          append_assoc a c (original rs) ∙ ap (λ u. u ++ (c ++ original rs)) (sym (append-nil a));
      before_sound = ((left, (tt, tt)), tt);
      after_sound = ((right, (tt, tt)), sound);
    }

-- The first part ends inside a placeholder.
Cut-front :
    (v : TokenVault) (rs : List Piece) (t : Front) (b : Str)
    → IsFront t
    → All (IsSound v) rs
    → render rs ≡ front t ++ b
    → Cut v rs (front t) b
unfolding render original
Cut-front v rs t b is_front sound e = record {
  before = [];
  after = rs;
  left_over = t;
  IsFront_left_over = is_front;
  first_part = refl;
  second_part = e;
  same_original = refl;
  before_sound = tt;
  after_sound = sound;
}

-- The first part ends inside a placeholder, or with it.
Cut-held :
    (v : TokenVault) (body w : Str) (rs : List Piece) (a c b : Str)
    → All (IsSound v) (held body w ∷ rs)
    → placeholder body ≡ a ++ c
    → c ++ render rs ≡ b
    → Cut v (held body w ∷ rs) a b
unfolding render original
Cut-held v body w rs a c b sound whole rest =
    elim (front_of a c body sound.0.1.1 sound.0.0.0 (sym whole)) [
      | inl finished ↦
          subst (λ u. Cut v (held body w ∷ rs) u b)
            (append-nil (placeholder body) ∙ whole ∙ ap (◌++◌ a) finished ∙ append-nil a)
            (Cut-whole v (held body w) rs (placeholder body) w [] b sound.0 (λ qs. refl)
              (λ qs. refl)
              (Cut-end v rs b sound.1 (ap (λ u. u ++ render rs) (sym finished) ∙ rest)))
      | inr (t, (shown, is_front)) ↦
          subst (λ u. Cut v (held body w ∷ rs) u b) shown
            (Cut-front v (held body w ∷ rs) t b is_front sound (
              ap (λ u. u ++ render rs) whole
              ∙ append_assoc a c (render rs)
              ∙ ap₂ (λ u z. u ++ z) (sym shown) rest))
    ]

pub Cut-pieces :
    (v : TokenVault) (rs : List Piece) (a b : Str)
    → All (IsSound v) rs
    → a ++ b ≡ render rs
    → Cut v rs a b
unfolding render original
Cut-pieces v [] [] b sound e = Cut-end v [] b tt (sym e)
Cut-pieces v [] (x ∷ a) b sound e = absurd (cc e)
Cut-pieces v (raw x ∷ rs) a b sound e = elim (split_append a b x (render rs) e) [
  | inl (c, (whole, rest)) ↦ rw whole (Cut-raw v rs a c b (rw whole at sound.0.0) sound.1 rest)
  | inr (c, (whole, rest)) ↦ rw whole (
      Cut-whole v (raw x) rs x x c b sound.0 (λ qs. refl) (λ qs. refl)
        (Cut-pieces v rs c b sound.1 rest))
]
Cut-pieces v (held body w ∷ rs) a b sound e =
    elim (split_append a b (placeholder body) (render rs) e) [
      | inl (c, (whole, rest)) ↦ Cut-held v body w rs a c b sound whole rest
      | inr (c, (whole, rest)) ↦ rw whole (
          Cut-whole v (held body w) rs (placeholder body) w c b sound.0 (λ qs. refl) (λ qs. refl)
            (Cut-pieces v rs c b sound.1 rest))
    ]
