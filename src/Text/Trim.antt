-- ===== src/Text/Trim.antt =====
-- `str::trim` and ASCII case. The white space of Unicode stands as its encodings in UTF-8.
use secureprompt.Prelude.{ℕ, zero, suc, ◌+◌, ◌&&◌, List, [], ◌∷◌, leb, if◌then◌else◌, length, map}
use mathlib.Core.List.{reverse}
use secureprompt.Text.{Str, starts_with}

-- U+0009 to U+000D, the space, U+0085, U+00A0, U+1680, U+2000 to U+200A, U+2028, U+2029, U+202F,
-- U+205F and U+3000.
abbrev pub spaces : List Str
spaces =
    (9 ∷ [])
    ∷ (10 ∷ [])
    ∷ (11 ∷ [])
    ∷ (12 ∷ [])
    ∷ (13 ∷ [])
    ∷ (32 ∷ [])
    ∷ (194 ∷ 133 ∷ [])
    ∷ (194 ∷ 160 ∷ [])
    ∷ (225 ∷ 154 ∷ 128 ∷ [])
    ∷ (226 ∷ 128 ∷ 128 ∷ [])
    ∷ (226 ∷ 128 ∷ 129 ∷ [])
    ∷ (226 ∷ 128 ∷ 130 ∷ [])
    ∷ (226 ∷ 128 ∷ 131 ∷ [])
    ∷ (226 ∷ 128 ∷ 132 ∷ [])
    ∷ (226 ∷ 128 ∷ 133 ∷ [])
    ∷ (226 ∷ 128 ∷ 134 ∷ [])
    ∷ (226 ∷ 128 ∷ 135 ∷ [])
    ∷ (226 ∷ 128 ∷ 136 ∷ [])
    ∷ (226 ∷ 128 ∷ 137 ∷ [])
    ∷ (226 ∷ 128 ∷ 138 ∷ [])
    ∷ (226 ∷ 128 ∷ 168 ∷ [])
    ∷ (226 ∷ 128 ∷ 169 ∷ [])
    ∷ (226 ∷ 128 ∷ 175 ∷ [])
    ∷ (226 ∷ 129 ∷ 159 ∷ [])
    ∷ (227 ∷ 128 ∷ 128 ∷ [])
    ∷ []

-- The length of the first of these that the text begins with, or zero.
unfoldable pub width : List Str → Str → ℕ
width [] s = 0
width (pat ∷ pats) s = if starts_with pat s then length pat else width pats s

unfoldable pub trim_with : List Str → ℕ → Str → Str
trim_with pats skip [] = []
trim_with pats (suc k) (b ∷ s) = trim_with pats k s
trim_with pats zero (b ∷ s) = elim (width pats (b ∷ s)) [
  | zero ↦ b ∷ s
  | suc k ↦ trim_with pats k s
]

unfoldable pub trim : Str → Str
unfolding trim_with width starts_with
trim s = reverse (trim_with (map reverse spaces) 0 (reverse (trim_with spaces 0 s)))

-- `str::to_ascii_lowercase`
abbrev pub to_ascii_lowercase : Str → Str
to_ascii_lowercase = map (λ b. if leb 65 b && leb b 90 then b + 32 else b)
