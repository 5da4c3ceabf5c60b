-- ===== src/Pipeline/Audit.antt =====
-- secureprompt-api/src/pipeline/service.rs: the last message of the user, as the audit row records it,
-- from detections whose spans lie in the whole prompt.
use secureprompt.Prelude.{
  ℕ, zero, suc, ◌+◌, ◌-◌, Bool, false, not, ◌&&◌, ◌||◌, Option, none, some, List, [], ◌∷◌, ◌==◌,
  ltb, length, is_empty, nat_keyed, list_keyed, if◌then◌else◌,
}
use secureprompt.Text.{Str, lit, slice, is_char_boundary}
use secureprompt.Text.Trim.{to_ascii_lowercase}
use secureprompt.Types.{Detection, Message}
use secureprompt.Vault.{Casing, apply_redaction}
use secureprompt.Pipeline.Coverage.{CoverageLoss}
use secureprompt.Pipeline.Markers.{strip_file_vault_markers}

pub data RedactedPrompt : Type 0 where
  redacted : Str → RedactedPrompt
  coverage_lost : RedactedPrompt

-- `m.role.eq_ignore_ascii_case("user")`
abbrev pub is_user : Message → Bool
is_user m = to_ascii_lowercase m.role == lit "user"

-- `Iterator::rposition`
unfoldable pub rposition : List Message → Option ℕ
rposition [] = none
rposition (m ∷ ms) =
    let rest = rposition ms in
    elim rest [ some i ↦ some (suc i) | none ↦ if is_user m then some 0 else none ]

-- The index of the message: the last of the user, or else the last.
unfoldable pub audited_index : List Message → Option ℕ
unfolding rposition
audited_index messages = elim (rposition messages) [
  | some i ↦ some i
  | none ↦ elim messages [ [] ↦ none | m ∷ ms ↦ some (length ms) ]
]

-- The content of a message as it stands in the prompt.
unfoldable pub cleaned : Message → Str
unfolding strip_file_vault_markers
cleaned m = (strip_file_vault_markers m.content).0

-- The loop over the messages, up to the index.
unfoldable pub span_at : ℕ → ℕ → List Message → Option (ℕ × ℕ × Str)
unfolding cleaned
span_at idx offset [] = none
span_at zero offset (m ∷ ms) = some (offset, offset + length (cleaned m), cleaned m)
span_at (suc idx) offset (m ∷ ms) = span_at idx (offset + (length (cleaned m) + 1)) ms

unfoldable pub last_user_message_span : List Message → Option (ℕ × ℕ × Str)
unfolding audited_index span_at
last_user_message_span messages = elim (audited_index messages) [
  | none ↦ none
  | some idx ↦ span_at idx 0 messages
]

-- The content of that message as it came, unless it is empty.
unfoldable pub last_user_message_raw : List Message → Option Str
last_user_message_raw messages = elim (audited_index messages) [
  | none ↦ none
  | some idx ↦ elim (content_at idx messages) [
    | none ↦ none
    | some content ↦ if is_empty content then none else some content
  ]
]
  where
    content_at : ℕ → List Message → Option Str
    content_at idx [] = none
    content_at zero (m ∷ ms) = some (m.content)
    content_at (suc idx) (m ∷ ms) = content_at idx ms

-- `content.get(start..stop)`
abbrev pub get_range : Str → ℕ → ℕ → Option Str
get_range content start stop =
    if not (ltb stop start) && (is_char_boundary content start && is_char_boundary content stop)
    then some (slice content start stop)
    else none

-- The bytes are there, and are what the detection says.
unfoldable pub bytes_match : Str → Str → ℕ → ℕ → Bool
bytes_match content value start stop = elim (get_range content start stop) [
  | none ↦ false
  | some actual ↦ not (is_empty actual) && actual == value
]

-- A detection in terms of the message, if it lies in it.
unfoldable pub scope_one : ℕ → ℕ → Str → Detection → Option Detection
unfolding bytes_match
scope_one start stop content d = elim d.span [
  | none ↦ none
  | some (s, e) ↦
      if ltb s start || ltb stop e
      then none
      else if bytes_match content d.value (s - start) (e - start)
      then some (record d { span = some (s - start, e - start) })
      else none
]

unfoldable pub scoped : ℕ → ℕ → Str → List Detection → List Detection
unfolding scope_one
scoped start stop content [] = []
scoped start stop content (d ∷ ds) =
    let rest = scoped start stop content ds in
    elim (scope_one start stop content d) [ none ↦ rest | some local ↦ local ∷ rest ]

unfoldable pub redact_last_user_message_with : Casing → List Message → List Detection → Str
unfolding last_user_message_span scoped
redact_last_user_message_with u messages detections = elim (last_user_message_span messages) [
  | none ↦ []
  | some (start, stop, content) ↦
      let local = scoped start stop content detections in
      if is_empty content
      then []
      else if is_empty local
      then content
      else (apply_redaction u content local [] []).content
]

unfoldable pub audit_prompt_with :
    Casing → List Message → List Detection → Option CoverageLoss → RedactedPrompt
unfolding redact_last_user_message_with
audit_prompt_with u messages detections (some loss) = RedactedPrompt.coverage_lost
audit_prompt_with u messages detections none =
    RedactedPrompt.redacted (redact_last_user_message_with u messages detections)
