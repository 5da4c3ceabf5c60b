-- ===== src/Pipeline/Markers.antt =====
-- secureprompt-api/src/pipeline/service.rs, `prompt_from_messages`, `strip_file_vault_markers` and
-- `preload_file_vault`: the markers `[[sp:v=<ref>]]` of scanned files. The loop takes fuel, of
-- which the length of the text is enough, since every turn shortens it.
use secureprompt.Prelude.{
  ℕ, zero, suc, ◌+◌, Option, none, some, List, [], ◌∷◌, ◌++◌, length, take, drop, map,
  if◌then◌else◌, is_empty,
}
use secureprompt.Text.{Str, lit, find}
use secureprompt.Map.{Map}
use secureprompt.Types.{Message, TokenVault, vault_insert}
use secureprompt.Vault.{join}

abbrev pub marker_open : Str
marker_open = lit "[[sp:v="

abbrev pub marker_close : Str
marker_close = lit "]]"

unfoldable pub prompt_from_messages : List Message → Str
unfolding join
prompt_from_messages messages = join (lit "\n") (map (λ (m : Message). m.content) messages)

-- `if !vref.is_empty() { refs.push(vref) }`
abbrev pub push_ref : Str → List Str → List Str
push_ref vref refs = if is_empty vref then refs else refs ++ vref ∷ []

-- The loop, with what it has cleaned, the references found and the rest of the text.
unfoldable pub strip_on : ℕ → Str → List Str → Str → Str × List Str
strip_on zero cleaned refs rest = (cleaned ++ rest, refs)
strip_on (suc fuel) cleaned refs rest = elim (find marker_open rest) [
  | none ↦ (cleaned ++ rest, refs)
  | some idx ↦
      let pushed = cleaned ++ take idx rest in
      let after = drop (idx + length marker_open) rest in
      elim (find marker_close after) [
        | none ↦ (pushed ++ drop idx rest, refs)
        | some stop ↦
            strip_on fuel pushed (push_ref (take stop after) refs)
              (drop (stop + length marker_close) after)
      ]
]

unfoldable pub strip_file_vault_markers : Str → Str × List Str
unfolding strip_on
strip_file_vault_markers text = strip_on (length text) [] [] text

-- Every entry of a stashed map goes into the vault.
unfoldable pub load_entries : Map Str Str → TokenVault → TokenVault
load_entries [] vault = vault
load_entries ((placeholder, value) ∷ entries) vault =
    load_entries entries (vault_insert placeholder value vault)

-- `load_file_vault`, which reads Redis and decrypts, followed by `serde_json`: the map behind a
-- reference, if it is there and is one.
unfoldable pub load_refs : (Str → Option (Map Str Str)) → List Str → TokenVault → TokenVault
unfolding load_entries
load_refs load [] vault = vault
load_refs load (vref ∷ vrefs) vault = elim (load vref) [
  | none ↦ load_refs load vrefs vault
  | some entries ↦ load_refs load vrefs (load_entries entries vault)
]

-- The prompt and the vault as they are left.
unfoldable pub preload_file_vault :
    (Str → Option (Map Str Str)) → Str → TokenVault → Str × TokenVault
unfolding load_refs strip_file_vault_markers
preload_file_vault load prompt vault = elim (find marker_open prompt) [
  | none ↦ (prompt, vault)
  | some idx ↦
      let (cleaned, refs) = strip_file_vault_markers prompt in (cleaned, load_refs load refs vault)
]
