-- ===== src/Vault/Pieces.antt =====
-- A redacted text as its pieces: text that went through, and placeholders with the value that each
-- stands for. `TokenVault::restore` puts every value back.
use secureprompt.Prelude.{
  ◌≡◌, ◌∙◌, refl, ap, some, List, [], ◌∷◌, ◌++◌, inl, inr, Bool-cases, if◌then◌else◌, All, arith,
  list_beq, list_beq_iff, list_keyed, nat_keyed,
}
use secureprompt.Text.{Str, replace, replace_from}
use secureprompt.Text.Replace.{
  NoOpen, NoBrace, placeholder, close, replace_from-NoOpen, replace_from-placeholder_self,
  replace_from-placeholder_ne, placeholder_beq,
}
use secureprompt.Types.{TokenVault, restore, resolve}

pub data Piece : Type 0 where
  raw : Str → Piece
  held : (body value : Str) → Piece

unfoldable pub render : List Piece → Str
render [] = []
render (raw x ∷ ps) = x ++ render ps
render (held body value ∷ ps) = placeholder body ++ render ps

unfoldable pub original : List Piece → Str
original [] = []
original (raw x ∷ ps) = x ++ original ps
original (held body value ∷ ps) = value ++ original ps

abbrev pub IsTidyPiece : Piece → Type 0
IsTidyPiece (raw x) = NoOpen x
IsTidyPiece (held body value) = NoBrace body × NoOpen value

-- The vault resolves the placeholder to the value.
abbrev pub IsBacked : TokenVault → Piece → Type 0
IsBacked v (raw x) = Unit
IsBacked v (held body value) = resolve (placeholder body) v ≡ some value

-- An entry of the vault: a placeholder without further braces, and a value with no opening brace.
pub record IsEntry (e : Str × Str) : Type 0 where
  pub body : Str
  pub key : e.0 ≡ placeholder body
  pub clean : NoBrace body
  pub plain : NoOpen e.1

settle : Str → Str → Piece → Piece
settle body value (raw x) = raw x
settle body value (held b w) = if list_beq body b then raw value else held b w

settle_all : Str → Str → List Piece → List Piece
settle_all body value [] = []
settle_all body value (p ∷ ps) = settle body value p ∷ settle_all body value ps

replace-render :
    (body value : Str) (ps : List Piece)
    → NoBrace body
    → All IsTidyPiece ps
    → replace_from 0 (placeholder body) value (render ps) ≡ render (settle_all body value ps)
unfolding render settle_all settle
replace-render body value [] hb h = unfold replace_from in refl
replace-render body value (raw x ∷ ps) hb h =
    replace_from-NoOpen (123 ∷ (body ++ close)) value x (render ps) h.0
    ∙ ap (◌++◌ x) (replace-render body value ps hb h.1)
replace-render body value (held b w ∷ ps) hb h = elim (Bool-cases (list_beq body b)) [
  | inl same ↦ ground (
    arith,
    same,
    (list_beq_iff body b).0 same,
    replace_from-placeholder_self body value (render ps) hb,
    replace-render body value ps hb h.1,
  )
  | inr other ↦ ground (
    arith,
    other,
    replace_from-placeholder_ne body b value (render ps) hb h.0.0 other,
    replace-render body value ps hb h.1,
  )
]

settle_all-IsTidy :
    (body value : Str) (ps : List Piece)
    → NoOpen value
    → All IsTidyPiece ps
    → All IsTidyPiece (settle_all body value ps)
unfolding settle_all settle
settle_all-IsTidy body value [] hv h = tt
settle_all-IsTidy body value (raw x ∷ ps) hv h = (h.0, settle_all-IsTidy body value ps hv h.1)
settle_all-IsTidy body value (held b w ∷ ps) hv h = elim (Bool-cases (list_beq body b)) [
  | inl same ↦ rw same (hv, settle_all-IsTidy body value ps hv h.1)
  | inr other ↦ rw other (h.0, settle_all-IsTidy body value ps hv h.1)
]

-- What is settled had the value that the first entry holds; the others are backed by the rest.
settle_all-IsBacked :
    (body value : Str) (v : TokenVault) (ps : List Piece)
    → NoBrace body
    → All IsTidyPiece ps
    → All (IsBacked ((placeholder body, value) ∷ v)) ps
    → All (IsBacked v) (settle_all body value ps)
      × (original (settle_all body value ps) ≡ original ps)
unfolding settle_all settle original resolve
settle_all-IsBacked body value v [] hb h k = (tt, refl)
settle_all-IsBacked body value v (raw x ∷ ps) hb h k =
    let (backed, same) = settle_all-IsBacked body value v ps hb h.1 k.1 in
    ((tt, backed), ap (◌++◌ x) same)
settle_all-IsBacked body value v (held b w ∷ ps) hb h k =
    let (backed, same) = settle_all-IsBacked body value v ps hb h.1 k.1 in
    let keys : list_beq (placeholder body) (placeholder b) ≡ list_beq body b =
      placeholder_beq body b hb h.0.0 in
    let found = k.0 in
    elim (Bool-cases (list_beq body b)) [
      | inl e ↦
          let value_eq : value ≡ w = ground (arith, keys, e, found) in
          rw e ((tt, backed), cc (value_eq, same))
      | inr e ↦ rw e ((ground (arith, keys, e, found), backed), ap (◌++◌ w) same)
    ]

render-unbacked : (ps : List Piece) → All (IsBacked []) ps → render ps ≡ original ps
unfolding render original resolve
render-unbacked [] k = refl
render-unbacked (raw x ∷ ps) k = ap (◌++◌ x) (render-unbacked ps k.1)
render-unbacked (held b w ∷ ps) k = cc (k.0)

replace-nonempty :
    (a to s : Str) → replace (placeholder a) to s ≡ replace_from 0 (placeholder a) to s
unfolding replace
replace-nonempty a to s = refl

-- Every placeholder that the vault backs is put back, whatever the order of the entries.
pub restore-render :
    (v : TokenVault) (ps : List Piece)
    → All IsEntry v
    → All IsTidyPiece ps
    → All (IsBacked v) ps
    → restore v (render ps) ≡ original ps
unfolding restore
restore-render [] ps hv h k = render-unbacked ps k
restore-render ((key, value) ∷ v) ps hv h k =
    let (e, rest) = hv in
    let k' : All (IsBacked ((placeholder e.body, value) ∷ v)) ps = rw (e.key) at k in
    let (backed, same) = settle_all-IsBacked e.body value v ps e.clean h k' in
    rw (e.key, replace-nonempty)
      (rw (replace-render e.body value ps e.clean h) (
        restore-render v (settle_all e.body value ps) rest
          (settle_all-IsTidy e.body value ps e.plain h) backed
        ∙ same))
