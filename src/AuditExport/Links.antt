-- ===== src/AuditExport/Links.antt =====
-- What a link of the digest chain commits to: two chains that end in one value run over the same
-- pages from the same header, unless two different texts, one hashed along each chain, have one SHA-256 digest.
use secureprompt.Prelude.{
  ◌+◌, ◌<◌, ◌≡◌, ◌≢◌, ◌⊎◌, inl, inr, refl, sym, ap, ap₂, ◌∙◌, List, [], ◌∷◌, ◌++◌, length,
  length-append, ◌==◌, nat_keyed, list_keyed, list_beq_iff, Bool-cases, true_ne_false, nat_beq,
  nat_beq_iff, ltb, arith,
}
use secureprompt.Text.{Str}
use secureprompt.AuditExport.Library.{Library, HashLaws, IsDigest}
use secureprompt.AuditExport.Chain.{chain_step}

append_inj {ℓ} :
    {A : Type ℓ} (xs ys us vs : List A)
    → length xs ≡ length ys
    → xs ++ us ≡ ys ++ vs
    → (xs ≡ ys) × (us ≡ vs)
append_inj [] [] us vs h e = (refl, e)
append_inj [] (y ∷ ys) us vs h e = absurd (omega arith)
append_inj (x ∷ xs) [] us vs h e = absurd (omega arith)
append_inj (x ∷ xs) (y ∷ ys) us vs h e = ground (arith, append_inj xs ys us vs)

same_or : (x y : Str) → (x ≡ y) ⊎ (x ≢ y)
same_or x y = elim (Bool-cases (x == y)) [
  | inl same ↦ inl ((list_beq_iff x y).0 same)
  | inr differ ↦ inr (λ e. true_ne_false ((list_beq_iff x y).1 e) differ)
]

module _ (l : Library) where
  -- Two different texts with one digest, the one that this holds of and the other.
  pub record Collision (P Q : Str → Type 0) : Type 0 where
    pub left : Str
    pub right : Str
    pub differ : left ≢ right
    pub meet : l.sha256 left ≡ l.sha256 right
    pub on_left : P left
    pub on_right : Q right

  -- The last link of the chain over these pages.
  unfoldable pub seal : Str → List Str → Str
  seal link [] = link
  seal link (p ∷ pages) = seal (chain_step l link (l.sha256 p)) pages

  -- The text is hashed along the chain: it is a page, or a link with the digest of the next page.
  abbrev pub IsChained : Str → Str → List Str → Type 0
  IsChained x link [] = ⊥
  IsChained x link (p ∷ pages) =
      (x ≡ p) ⊎ ((x ≡ link ++ l.sha256 p) ⊎ IsChained x (chain_step l link (l.sha256 p)) pages)

  -- The text is hashed for the export: it is the header, or hashed along the chain that starts there.
  abbrev pub IsHashed : Str → List Str → Str → Type 0
  IsHashed header pages x = (x ≡ header) ⊎ IsChained x (l.sha256 header) pages

  swap : {P Q : Str → Type 0} → Collision P Q → Collision Q P
  swap c = record {
    left = c.right;
    right = c.left;
    differ = λ e. c.differ (sym e);
    meet = sym c.meet;
    on_left = c.on_right;
    on_right = c.on_left;
  }

  module _ {P Q : Str → Type 0} where
    or_collision {ℓ κ} :
        {A : Type ℓ} {B : Type κ} → A ⊎ Collision P Q → (A → B ⊎ Collision P Q) → B ⊎ Collision P Q
    or_collision (inl a) f = f a
    or_collision (inr c) f = inr c

    settle : ⊥ ⊎ Collision P Q → Collision P Q
    settle (inl bad) = absurd bad
    settle (inr c) = c

    sha256-inj : (x y : Str) → P x → Q y → l.sha256 x ≡ l.sha256 y → (x ≡ y) ⊎ Collision P Q
    sha256-inj x y hx hy e = elim (same_or x y) [
      | inl same ↦ inl same
      | inr differ ↦
          inr
            (record { left = x; right = y; differ = differ; meet = e; on_left = hx; on_right = hy })
    ]

  module _ (h : HashLaws l) where
    chain_step-IsDigest : (s d : Str) → IsDigest (chain_step l s d)
    unfolding chain_step
    chain_step-IsDigest s d = h.sha256-IsDigest (s ++ d)

    module _ {P Q : Str → Type 0} where
      chain_step-inj :
          (s t p q : Str)
          → IsDigest s
          → IsDigest t
          → P p
          → P (s ++ l.sha256 p)
          → Q q
          → Q (t ++ l.sha256 q)
          → chain_step l s (l.sha256 p) ≡ chain_step l t (l.sha256 q)
          → ((s ≡ t) × (p ≡ q)) ⊎ Collision P Q
      unfolding chain_step
      chain_step-inj s t p q hs ht page link page' link' e =
          or_collision (sha256-inj (s ++ l.sha256 p) (t ++ l.sha256 q) link link' e) (λ same.
            let parts = append_inj s t (l.sha256 p) (l.sha256 q) (hs.0 ∙ sym ht.0) same in
            or_collision (sha256-inj p q page page' parts.1) (λ pages. inl (parts.0, pages)))

      seal-inj :
          (s t : Str) (ps qs : List Str)
          → IsDigest s
          → IsDigest t
          → ((x : Str) → IsChained x s ps → P x)
          → ((x : Str) → IsChained x t qs → Q x)
          → length ps ≡ length qs
          → seal s ps ≡ seal t qs
          → ((s ≡ t) × (ps ≡ qs)) ⊎ Collision P Q
      unfolding seal
      seal-inj s t [] [] hs ht cover cover' n e = inl (e, refl)
      seal-inj s t [] (q ∷ qs) hs ht cover cover' n e = absurd (omega arith)
      seal-inj s t (p ∷ ps) [] hs ht cover cover' n e = absurd (omega arith)
      seal-inj s t (p ∷ ps) (q ∷ qs) hs ht cover cover' n e =
          or_collision
            (seal-inj (chain_step l s (l.sha256 p)) (chain_step l t (l.sha256 q)) ps qs
              (chain_step-IsDigest s (l.sha256 p)) (chain_step-IsDigest t (l.sha256 q))
              (λ x c. cover x (inr (inr c))) (λ x c. cover' x (inr (inr c))) (omega arith) e)
            (λ rest.
              or_collision
                (chain_step-inj s t p q hs ht (cover p (inl refl)) (cover _ (inr (inl refl)))
                  (cover' q (inl refl)) (cover' _ (inr (inl refl))) rest.0)
                (λ here. inl (here.0, ap₂ (λ a b. a ∷ b) here.1 rest.1)))

      -- The longer of two chains reaches the start of the other by a link, which hashes 64 bytes.
      seal_longer :
          (s t : Str) (ps qs : List Str)
          → IsDigest s
          → IsDigest t
          → ((x : Str) → IsChained x s ps → P x)
          → ((x : Str) → IsChained x t qs → Q x)
          → length qs < length ps
          → seal s ps ≡ seal t qs
          → ((x : Str) × P x × (length x ≡ 64) × (l.sha256 x ≡ t)) ⊎ Collision P Q
      unfolding seal
      seal_longer s t [] qs hs ht cover cover' n e = absurd (omega arith)
      seal_longer s t (p ∷ ps) qs hs ht cover cover' n e =
          let next = chain_step-IsDigest s (l.sha256 p) in
          elim (Bool-cases (nat_beq (length ps) (length qs))) [
            | inl same ↦
                or_collision
                  (seal-inj (chain_step l s (l.sha256 p)) t ps qs next ht
                    (λ x c. cover x (inr (inr c))) cover'
                    ((nat_beq_iff (length ps) (length qs)).0 same) e)
                  (λ met. inl (
                    s ++ l.sha256 p,
                    cover _ (inr (inl refl)),
                    length-append s (l.sha256 p) ∙ ap₂ ◌+◌ hs.0 (h.sha256-IsDigest p).0,
                    (unfold chain_step in met.0),
                  ))
            | inr more ↦
                seal_longer (chain_step l s (l.sha256 p)) t ps qs next ht
                  (λ x c. cover x (inr (inr c))) cover' (ground arith) e
          ]

      no_link :
          (a b : Str) (ps qs : List Str)
          → 64 < length b
          → ((x : Str) → IsHashed a ps x → P x)
          → ((x : Str) → IsHashed b qs x → Q x)
          → length qs < length ps
          → seal (l.sha256 a) ps ≡ seal (l.sha256 b) qs
          → Collision P Q
      no_link a b ps qs hb cover cover' n e = settle (
          or_collision
            (seal_longer (l.sha256 a) (l.sha256 b) ps qs (h.sha256-IsDigest a) (h.sha256-IsDigest b)
              (λ x c. cover x (inr c)) (λ x c. cover' x (inr c)) n e)
            (λ link.
              or_collision (sha256-inj link.0 b link.1 (cover' b (inl refl)) link.3)
                (λ same. inl (absurd (omega (arith, link.2, ap length same))))))

    -- From headers longer than a link's input.
    pub seal_commits :
        (a b : Str) (ps qs : List Str)
        → 64 < length a
        → 64 < length b
        → seal (l.sha256 a) ps ≡ seal (l.sha256 b) qs
        → ((a ≡ b) × (ps ≡ qs)) ⊎ Collision (IsHashed a ps) (IsHashed b qs)
    seal_commits a b ps qs ha hb e = elim (Bool-cases (ltb (length qs) (length ps))) [
      | inl longer ↦ inr (no_link a b ps qs hb (λ x c. c) (λ x c. c) (ground arith) e)
      | inr rest ↦ elim (Bool-cases (ltb (length ps) (length qs))) [
        | inl shorter ↦
            inr (swap (no_link b a qs ps ha (λ x c. c) (λ x c. c) (ground arith) (sym e)))
        | inr same ↦
            or_collision
              (seal-inj (l.sha256 a) (l.sha256 b) ps qs (h.sha256-IsDigest a) (h.sha256-IsDigest b)
                (λ x c. inr c) (λ x c. inr c) (ground arith) e)
              (λ met.
                or_collision (sha256-inj a b (inl refl) (inl refl) met.0)
                  (λ header. inl (header, met.1)))
      ]
    ]
