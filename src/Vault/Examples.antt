-- ===== src/Vault/Examples.antt =====
-- ASCII case mapping and detections, for the tests.
use secureprompt.Prelude.{ℕ, false, ◌+◌, ◌-◌, some, map, leb, ◌&&◌, if◌then◌else◌}
use secureprompt.Text.{Str}
use secureprompt.Types.{Float, finite, Detection}
use secureprompt.Vault.{Casing}

abbrev ascii_up : ℕ → ℕ
ascii_up b = if leb 97 b && leb b 122 then b - 32 else b

abbrev ascii_down : ℕ → ℕ
ascii_down b = if leb 65 b && leb b 90 then b + 32 else b

-- Case mapping on ASCII text.
abbrev pub ascii : Casing
ascii = record { to_uppercase = map ascii_up; to_lowercase = map ascii_down }

abbrev pub certain : Float
certain = finite false 1

abbrev pub detected : Str → ℕ → ℕ → Str → Detection
detected class start stop value = record {
  class = class;
  confidence = certain;
  span = some (start, stop);
  value = value;
}
