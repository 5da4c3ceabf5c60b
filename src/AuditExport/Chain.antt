-- ===== src/AuditExport/Chain.antt =====
-- The digest chain of secureprompt-common/src/audit_export.rs: `genesis`, `chain_step`, the hex
-- texts of digests, `key_id` and `parse_signing_key`.
use secureprompt.Prelude.{
  ℕ, Option, none, some, List, [], ◌∷◌, ◌++◌, length, take, is_empty, nat_beq, if◌then◌else◌,
}
use secureprompt.Prelude.Int.{ℤ}
use secureprompt.Text.{Str, lit, decimal}
use secureprompt.Text.Trim.{trim}
use secureprompt.Types.{Uuid}
use secureprompt.AuditExport.Manifest.{ExportFormat, as_str, genesis_domain}
use secureprompt.AuditExport.Library.{Library}

-- `trim_matches('"')`: the quotation marks at both ends.
abbrev pub drop_quotes : Str → Str
drop_quotes [] = []
drop_quotes (b ∷ s) = let rest = drop_quotes s in if nat_beq b b'"' then rest else b ∷ s

abbrev pub drop_last_quotes : Str → Str
drop_last_quotes [] = []
drop_last_quotes (b ∷ s) =
    let rest = drop_last_quotes s in
    if is_empty rest then (if nat_beq b b'"' then [] else b ∷ []) else b ∷ rest

-- The texts, each ended by a line feed.
abbrev pub lines : List Str → Str
lines [] = []
lines (s ∷ rest) = s ++ (10 ∷ lines rest)

-- A key that could not be loaded.
pub data KeyError : Type 0 where
  not_configured : KeyError
  malformed : KeyError

pub data Loaded (A : Type 0) : Type 0 where
  loaded : A → Loaded A
  failed : KeyError → Loaded A

module _ (l : Library) where
  -- An instant as the manifest's JSON spells it.
  unfoldable pub manifest_instant : ℤ → Str
  manifest_instant instant = elim (l.instant_json instant) [
    | none ↦ l.to_rfc3339 instant
    | some quoted ↦ drop_last_quotes (drop_quotes quoted)
  ]

  -- The text that seeds the chain: a line for each part of the export's identity.
  unfoldable pub header_text : Uuid → Uuid → ℤ → ℤ → ExportFormat → ℕ → Str
  header_text export_id workspace_id from to format page_size = lines (
      genesis_domain
      ∷ l.uuid_text export_id
      ∷ l.uuid_text workspace_id
      ∷ manifest_instant from
      ∷ manifest_instant to
      ∷ as_str format
      ∷ decimal page_size
      ∷ [])

  unfoldable pub genesis : Uuid → Uuid → ℤ → ℤ → ExportFormat → ℕ → Str
  genesis export_id workspace_id from to format page_size =
      l.sha256 (header_text export_id workspace_id from to format page_size)

  -- The digests as raw bytes, the previous link first.
  unfoldable pub chain_step : Str → Str → Str
  chain_step prev digest = l.sha256 (prev ++ digest)

  abbrev pub to_hex : Str → Str
  to_hex bytes = l.hex_encode bytes

  unfoldable pub from_hex : Str → Option Str
  from_hex s = elim (l.hex_decode s) [
    | none ↦ none
    | some raw ↦ if nat_beq (length raw) 32 then some raw else none
  ]

  unfoldable pub key_id : l.VerifyingKey → Str
  key_id key = lit "sha256:" ++ l.hex_encode (take 8 (l.sha256 (l.key_to_bytes key)))

  abbrev pub seed_of_b64 : Option Str → Loaded l.SigningKey
  seed_of_b64 none = failed malformed
  seed_of_b64 (some bytes) =
      if nat_beq (length bytes) 32 then loaded (l.signing_from_bytes bytes) else failed malformed

  abbrev pub hex_seed : Str → Option Str
  hex_seed trimmed = if nat_beq (length trimmed) 64 then from_hex trimmed else none

  -- `parse_signing_key`
  unfoldable pub parse_signing_key : Str → Loaded l.SigningKey
  parse_signing_key configured =
      let trimmed = trim configured in
      if is_empty trimmed then failed not_configured else elim (hex_seed trimmed) [
        | some bytes ↦ loaded (l.signing_from_bytes bytes)
        | none ↦ seed_of_b64 (l.b64_decode trimmed)
      ]
