-- ===== src/Text.antt =====
-- Rust strings as the lists of their UTF-8 bytes, and the operations of `str` that the program
-- calls: slices, searches, `replace`, character boundaries, decimal numbers. Each module of the
-- library that handles text (secureprompt-api/src/vault, http, policy, pipeline) uses these.
pub mod Replace
pub mod Decimal
pub mod Trim
use Prim.Native.Char.{code}
use Prim.Native.String
use secureprompt.Prelude.{
  ℕ, zero, suc, ◌+◌, ◌-◌, ◌*◌, ◌/◌, ◌%◌, String, Bool, true, false, not, ◌&&◌, ◌||◌, Option, none,
  some, List, [], ◌∷◌, ◌++◌, ltb, leb, nat_beq, if◌then◌else◌, length, take, drop,
}

abbrev pub Str : Type 0
Str = List ℕ

-- The bytes of an ASCII literal.
abbrev pub lit : String → Str
lit String.[] = []
lit (String.◌∷◌ c s) = code c ∷ lit s

-- `&s[start..end]`
abbrev pub slice : Str → ℕ → ℕ → Str
slice s start stop = take (stop - start) (drop start s)

abbrev pub is_continuation : ℕ → Bool
is_continuation b = leb 128 b && ltb b 192

-- `str::is_char_boundary`: 0 and the length are boundaries, and else the byte there starts a
-- character; past the end there is none.
unfoldable pub is_char_boundary : Str → ℕ → Bool
is_char_boundary s zero = true
is_char_boundary [] (suc i) = false
is_char_boundary (b ∷ []) (suc zero) = true
is_char_boundary (b ∷ c ∷ s) (suc zero) = not (is_continuation c)
is_char_boundary (b ∷ s) (suc (suc i)) = is_char_boundary s (suc i)

unfoldable pub starts_with : Str → Str → Bool
starts_with [] s = true
starts_with (p ∷ ps) [] = false
starts_with (p ∷ ps) (b ∷ s) = nat_beq p b && starts_with ps s

-- `str::find`: the first offset at which the pattern stands.
unfoldable pub find : Str → Str → Option ℕ
find pat [] = if starts_with pat [] then some 0 else none
find pat (b ∷ s) =
    let rest = find pat s in
    if starts_with pat (b ∷ s) then some 0 else elim rest [ none ↦ none | some i ↦ some (suc i) ]

-- `replace` with an empty pattern puts the text at every character boundary.
unfoldable pub replace_empty : Str → Str → Str
replace_empty to [] = to
replace_empty to (b ∷ s) =
    let rest = replace_empty to s in if is_continuation b then b ∷ rest else to ++ (b ∷ rest)

-- The occurrences from the left, none overlapping the one before: `skip` bytes of the last one
-- are still to be passed over.
unfoldable pub replace_from : ℕ → Str → Str → Str → Str
replace_from skip pat to [] = []
replace_from (suc k) pat to (b ∷ s) = replace_from k pat to s
replace_from zero pat to (b ∷ s) = elim (starts_with pat (b ∷ s)) [
  | true ↦ to ++ replace_from (length pat - 1) pat to s
  | false ↦ b ∷ replace_from zero pat to s
]

unfoldable pub replace : Str → Str → Str → Str
unfolding replace_empty
replace [] to s = replace_empty to s
replace (p ∷ ps) to s = replace_from 0 (p ∷ ps) to s

-- The digits of a number in base ten, as `format!` writes them. `fuel` above the number suffices.
unfoldable pub digits_on : ℕ → ℕ → Str → Str
digits_on zero n acc = acc
digits_on (suc fuel) n acc =
    let more = digits_on fuel (n / 10) ((48 + n % 10) ∷ acc) in
    if ltb n 10 then (48 + n) ∷ acc else more

unfoldable pub decimal : ℕ → Str
unfolding digits_on
decimal n = digits_on (suc n) n []
