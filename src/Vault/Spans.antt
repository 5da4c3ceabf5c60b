-- ===== src/Vault/Spans.antt =====
-- Detections and their spans in the text.
use secureprompt.Prelude.{ℕ, ◌≤◌, ◌≡◌, true, some, arith, length}
use secureprompt.Text.{Str, slice}
use secureprompt.Types.{Detection}
use secureprompt.Vault.{accepts}

-- A detection that is true to the text: its value is what stands in its span.
abbrev pub IsTrueTo : Str → Detection → Type 0
IsTrueTo content d =
    (start stop : ℕ)
    → d.span ≡ some (start, stop)
    → (start ≤ stop) × (d.value ≡ slice content start stop)

-- The guards bound the span.
pub accepts_bounds :
    (content : Str) (cursor start stop : ℕ)
    → accepts content cursor (start, stop) ≡ true
    → (cursor ≤ start) × (stop ≤ length content)
unfolding accepts
accepts_bounds content cursor start stop h = ground arith
