-- ===== src/License/Paths.antt =====
-- Which paths the recovery list covers, and what the gate makes of the others.
use secureprompt.Prelude.{
  ◌≡◌, ◌∙◌, ◌↔◌, refl, sym, ap, ◌⊎◌, inl, inr, Bool, true, false, Bool-cases, Option, none, some,
  List, [], ◌∷◌, ◌++◌, append-nil, any, arith, nat_beq, length, drop,
}
use secureprompt.Text.{Str, starts_with}
use secureprompt.License.Gate.{
  strip_prefix, trim_slashes, is_under, is_allowlisted, recovery_allowlist,
}

-- The path is the entry, or continues it with a slash.
abbrev pub IsBelow : Str → Str → Type 0
IsBelow path base = (path ≡ base) ⊎ ((rest : Str) × (path ≡ base ++ 47 ∷ rest))

starts_with-append : (pat s : Str) → starts_with pat (pat ++ s) ≡ true
unfolding starts_with
starts_with-append [] s = refl
starts_with-append (p ∷ pat) s = ground (arith, starts_with-append pat s)

starts_with-drop : (pat s : Str) → starts_with pat s ≡ true → s ≡ pat ++ drop (length pat) s
unfolding starts_with
starts_with-drop [] s h = refl
starts_with-drop (p ∷ pat) [] h = absurd (cc h)
starts_with-drop (p ∷ pat) (b ∷ s) h = ground (arith, h, starts_with-drop pat s)

drop-append : (pat s : Str) → drop (length pat) (pat ++ s) ≡ s
drop-append [] s = refl
drop-append (p ∷ pat) s = drop-append pat s

after_prefix : Option Str → Bool
after_prefix none = false
after_prefix (some []) = true
after_prefix (some (b ∷ rest)) = nat_beq b 47

is_under-after_prefix :
    (path entry : Str) → is_under path entry ≡ after_prefix (strip_prefix path (trim_slashes entry))
unfolding is_under after_prefix
is_under-after_prefix path entry = go (strip_prefix path (trim_slashes entry))
  where
    go :
        (o : Option Str)
        → (elim o [ none ↦ false | some [] ↦ true | some (b ∷ rest) ↦ nat_beq b 47 ])
          ≡ after_prefix o
    go none = refl
    go (some []) = refl
    go (some (b ∷ rest)) = refl

tail-IsBelow :
    (path base tail : Str)
    → path ≡ base ++ tail
    → after_prefix (some tail) ≡ true
    → IsBelow path base
unfolding after_prefix
tail-IsBelow path base [] e h = inl (e ∙ append-nil base)
tail-IsBelow path base (b ∷ rest) e h =
    inr (rest, e ∙ ap (λ c. base ++ c ∷ rest) (ground (arith, h)))

IsBelow-after_prefix :
    (path base : Str) → IsBelow path base → after_prefix (strip_prefix path base) ≡ true
unfolding after_prefix strip_prefix
IsBelow-after_prefix path base (inl e) =
    let same : path ≡ base ++ [] = e ∙ sym (append-nil base) in
    rw same (rw (starts_with-append base [], drop-append base []) refl)
IsBelow-after_prefix path base (inr (rest, e)) =
    rw e (rw (starts_with-append base (47 ∷ rest), drop-append base (47 ∷ rest)) refl)

under-IsBelow : (path base : Str) → after_prefix (strip_prefix path base) ≡ true → IsBelow path base
unfolding strip_prefix after_prefix
under-IsBelow path base h = elim (Bool-cases (starts_with base path)) [
  | inl yes_it ↦
      tail-IsBelow path base (drop (length base) path) (starts_with-drop base path yes_it)
        (ground (arith, h, yes_it))
  | inr no_it ↦ absurd (ground (arith, h, no_it))
]

abbrev pub AnyOf : (Str → Type 0) → List Str → Type 0
AnyOf P [] = ⊥
AnyOf P (x ∷ xs) = P x ⊎ AnyOf P xs

any-AnyOf :
    (p : Str → Bool) (P : Str → Type 0) (xs : List Str)
    → ((x : Str) → (p x ≡ true) ↔ P x)
    → (any p xs ≡ true) ↔ AnyOf P xs
any-AnyOf p P [] h = (λ e. cc e, λ z. absurd z)
any-AnyOf p P (x ∷ xs) h =
    let later = any-AnyOf p P xs h in
    (
      λ e. elim (Bool-cases (p x)) [
        | inl here ↦ inl ((h x).0 here)
        | inr not_here ↦ inr (later.0 (ground (arith, e, not_here)))
      ],
      λ z. elim z [
        | inl here ↦ ground (arith, (h x).1 here)
        | inr there ↦ ground (arith, later.1 there)
      ],
    )

-- A path is on the recovery list exactly if, for some entry without its trailing slashes, it is the
-- entry or continues it with a slash.
pub is_allowlisted_lem :
    (path : Str)
    → (is_allowlisted path ≡ true)
      ↔ AnyOf (λ entry. IsBelow path (trim_slashes entry)) recovery_allowlist
unfolding is_allowlisted
is_allowlisted_lem path =
    any-AnyOf (λ entry. is_under path entry) (λ entry. IsBelow path (trim_slashes entry))
      recovery_allowlist
      λ entry. (
        λ e. under-IsBelow path (trim_slashes entry) (sym (is_under-after_prefix path entry) ∙ e),
        λ b. is_under-after_prefix path entry ∙ IsBelow-after_prefix path (trim_slashes entry) b,
      )
