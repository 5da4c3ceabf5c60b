-- ===== src/Vault/Order.antt =====
-- The order in which detections are taken: the same detections, by start, and at equal starts the
-- longer first.
use mathlib.Core.List.{Perm}
use mathlib.Core.List.Perm
use secureprompt.Prelude.{
  suc, ◌≡◌, refl, true, false, List, [], ◌∷◌, All, arith, inl, inr, Bool-cases, length,
}
use secureprompt.Types.{Detection}
use secureprompt.Vault.{sorts_before, sort_insert, sort_detections}

module _ {ℓ} (P : Detection → Type ℓ) where
  sort_insert-All :
      (d : Detection) (ds : List Detection) → P d → All P ds → All P (sort_insert d ds)
  unfolding sort_insert
  sort_insert-All d [] h k = (h, tt)
  sort_insert-All d (x ∷ xs) h k = elim (Bool-cases (sorts_before d x)) [
    | inl before ↦ rw before (h, k)
    | inr after ↦ rw after (k.0, sort_insert-All d xs h k.1)
  ]

  pub sort_detections-All : (ds : List Detection) → All P ds → All P (sort_detections ds)
  unfolding sort_detections
  sort_detections-All [] h = tt
  sort_detections-All (d ∷ ds) h =
      sort_insert-All d (sort_detections ds) h.0 (sort_detections-All ds h.1)

length-sort_insert :
    (d : Detection) (ds : List Detection) → length (sort_insert d ds) ≡ suc (length ds)
unfolding sort_insert
length-sort_insert d [] = refl
length-sort_insert d (x ∷ xs) = ground (arith, length-sort_insert d xs)

pub length-sort_detections : (ds : List Detection) → length (sort_detections ds) ≡ length ds
unfolding sort_detections
length-sort_detections [] = refl
length-sort_detections (d ∷ ds) =
    omega (arith, length-sort_insert d (sort_detections ds), length-sort_detections ds)

sort_insert-perm : (d : Detection) (ds : List Detection) → Perm (sort_insert d ds) (d ∷ ds)
unfolding sort_insert
sort_insert-perm d [] = Perm.refl _
sort_insert-perm d (x ∷ xs) = elim (Bool-cases (sorts_before d x)) [
  | inl before ↦ rw before (Perm.refl _)
  | inr after ↦ rw after (Perm.trans (Perm.cons x (sort_insert-perm d xs)) (Perm.swap d x xs))
]

-- No detection is lost or repeated.
pub sort_detections-perm : (ds : List Detection) → Perm (sort_detections ds) ds
unfolding sort_detections
sort_detections-perm [] = Perm.refl []
sort_detections-perm (d ∷ ds) =
    Perm.trans (sort_insert-perm d (sort_detections ds)) (Perm.cons d (sort_detections-perm ds))

-- `a` may stand before `b`.
abbrev pub IsBefore : Detection → Detection → Type 0
IsBefore a b = sorts_before a b ≡ true

abbrev pub IsOrdered : List Detection → Type 0
IsOrdered [] = Unit
IsOrdered (d ∷ ds) = All (IsBefore d) ds × IsOrdered ds

sorts_before_total : (a b : Detection) → sorts_before a b ≡ false → IsBefore b a
unfolding sorts_before
sorts_before_total a b h = ground arith

IsBefore-trans : (a b c : Detection) → IsBefore a b → IsBefore b c → IsBefore a c
unfolding sorts_before
IsBefore-trans a b c h k = ground arith

IsBefore-All :
    (a b : Detection) (ds : List Detection)
    → IsBefore a b
    → All (IsBefore b) ds
    → All (IsBefore a) ds
IsBefore-All a b [] h k = tt
IsBefore-All a b (x ∷ xs) h k = (IsBefore-trans a b x h k.0, IsBefore-All a b xs h k.1)

sort_insert-IsOrdered :
    (d : Detection) (ds : List Detection) → IsOrdered ds → IsOrdered (sort_insert d ds)
unfolding sort_insert
sort_insert-IsOrdered d [] h = (tt, tt)
sort_insert-IsOrdered d (x ∷ xs) h = elim (Bool-cases (sorts_before d x)) [
  | inl before ↦ rw before ((before, IsBefore-All d x xs before h.0), h)
  | inr after ↦ rw after (
    sort_insert-All (IsBefore x) d xs (sorts_before_total d x after) h.0,
    sort_insert-IsOrdered d xs h.1,
  )
]

pub sort_detections-IsOrdered : (ds : List Detection) → IsOrdered (sort_detections ds)
unfolding sort_detections
sort_detections-IsOrdered [] = tt
sort_detections-IsOrdered (d ∷ ds) =
    sort_insert-IsOrdered d (sort_detections ds) (sort_detections-IsOrdered ds)

-- Sorting keeps the same detections, each before all that must follow it.
pub sort_detections_lem :
    (ds : List Detection) → Perm (sort_detections ds) ds × IsOrdered (sort_detections ds)
sort_detections_lem ds = (sort_detections-perm ds, sort_detections-IsOrdered ds)
