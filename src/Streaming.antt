-- ===== src/Streaming.antt =====
-- secureprompt-api/src/http/streaming.rs: placeholders that the provider's stream cuts in two are
-- held back until they are whole. The loop of `push` takes fuel; `none` means that it ran out.
pub mod Scan
pub mod Turns
pub mod Drain
pub mod Cut
pub mod Batch
pub mod Total
pub mod Chunks
mod Tests
use secureprompt.Prelude.{
  ℕ, zero, suc, ◌+◌, ◌-◌, Bool, true, false, ◌&&◌, ◌||◌, Option, none, some, List, [], ◌∷◌, ◌++◌,
  ltb, leb, nat_beq, if◌then◌else◌, length, take, drop, is_empty, list_beq, nat_keyed,
}
use mathlib.Core.Option
use secureprompt.Text.{Str, lit, find}
use secureprompt.Types.{TokenVault, restore}

abbrev pub is_ascii_uppercase : ℕ → Bool
is_ascii_uppercase b = leb 65 b && leb b 90

-- The offset of the first `{{` before an upper-case letter.
unfoldable pub find_placeholder_start : Str → Option ℕ
find_placeholder_start (a ∷ b ∷ c ∷ s) =
    let rest = find_placeholder_start (b ∷ c ∷ s) in
    if nat_beq a 123 && nat_beq b 123 && is_ascii_uppercase c
    then some 0
    else Option.map (λ i. suc i) rest
find_placeholder_start s = none

-- `str::ends_with`
unfoldable pub ends_with : Str → Str → Bool
ends_with pat [] = list_beq pat []
ends_with pat (b ∷ s) = list_beq pat (b ∷ s) || ends_with pat s

-- What is held back where no placeholder begins.
unfoldable pub hold_back : Str → ℕ
hold_back pending =
    if ends_with (lit "{{") pending then 2 else if ends_with (lit "{") pending then 1 else 0

-- `if !safe.is_empty() { out.push_str(&vault.restore(&safe)) }`
unfoldable pub emit_safe : TokenVault → Str → Str → Str
emit_safe v out safe = if is_empty safe then out else out ++ restore v safe

-- The loop of `push`: the text that is safe to emit, and what is left pending.
unfoldable pub drain : ℕ → TokenVault → Str → Str → Option (Str × Str)
drain zero v out pending = none
drain (suc fuel) v out pending = elim (find_placeholder_start pending) [
  | some start ↦ elim (find (lit "}}") (drop start pending)) [
    | some end_offset ↦
        drain fuel v (emit_safe v out (take (start + end_offset + 2) pending))
          (drop (start + end_offset + 2) pending)
    | none ↦
        if ltb 0 start
        then some (emit_safe v out (take start pending), drop start pending)
        else some (out, pending)
  ]
  | none ↦
      let emit_len = length pending - hold_back pending in
      if ltb 0 emit_len
      then some (out ++ restore v (take emit_len pending), drop emit_len pending)
      else some (out, pending)
]

-- `PlaceholderStreamer::push`
unfoldable pub push : TokenVault → Str → Str → Option (Str × Str)
push v pending delta = drain (suc (length (pending ++ delta))) v [] (pending ++ delta)

-- `PlaceholderStreamer::flush`
unfoldable pub flush : TokenVault → Str → Str
flush v pending = if is_empty pending then [] else restore v pending

-- The driver of a stream: every delta pushed in turn, then a flush.
unfoldable pub stream : TokenVault → Str → List Str → Option Str
stream v pending [] = some (flush v pending)
stream v pending (delta ∷ deltas) = elim (push v pending delta) [
  | none ↦ none
  | some (out, pending') ↦ Option.map (λ rest. out ++ rest) (stream v pending' deltas)
]
