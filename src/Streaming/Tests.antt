-- ===== src/Streaming/Tests.antt =====
-- A stream whose deltas cut a placeholder in three.
use secureprompt.Prelude.{◌≡◌, refl, some, List, [], ◌∷◌, arith, list_keyed, nat_keyed}
use secureprompt.Text.{Str, lit, replace, replace_from, starts_with}
use secureprompt.Map.{lookup}
use secureprompt.Types.{TokenVault, restore, resolve}
use secureprompt.Vault.Pieces.{Piece, raw, held, render, original}
use secureprompt.Streaming.{stream, drain, find_placeholder_start, hold_back, ends_with}
use secureprompt.Streaming.Chunks.{stream-restore}
use secureprompt.Streaming.Batch.{joined, placeholder_safe_chunks}
use secureprompt.Streaming.Total.{placeholder_safe_chunks-stream}

abbrev vault : TokenVault
vault = (lit "{{Person_1}}", lit "Ada") ∷ []

abbrev deltas : List Str
deltas = lit "Hi {{Per" ∷ lit "son_1}" ∷ lit "}!" ∷ []

abbrev pieces : List Piece
pieces = raw (lit "Hi ") ∷ held (lit "Person_1") (lit "Ada") ∷ raw (lit "!") ∷ []

stream-restore_example :
    (stream vault [] deltas ≡ some (original pieces))
    × (restore vault (joined deltas) ≡ original pieces)
unfolding render resolve lookup
stream-restore_example =
    stream-restore vault pieces deltas
      (record { body = lit "Person_1"; key = refl; clean = omega arith; plain = omega arith }, tt)
      (
        (omega arith, (tt, tt)),
        ((((omega arith), (omega arith)), (refl, refl)), ((omega arith, (tt, tt)), tt)),
      )
      refl

-- A lone pair of braces waits for the letter after it.
waits : drain 5 vault [] (lit "ab{{") ≡ some (lit "ab", lit "{{")
unfolding drain find_placeholder_start hold_back ends_with restore replace replace_from starts_with
waits = refl

placeholder_safe_chunks-stream_example :
    (safe_chunks : List Str) × ((placeholder_safe_chunks deltas vault ≡ some safe_chunks)
      × (stream vault [] deltas ≡ some (joined safe_chunks)))
placeholder_safe_chunks-stream_example = placeholder_safe_chunks-stream vault deltas
