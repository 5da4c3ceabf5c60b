-- ===== src/Vault.antt =====
-- secureprompt-api/src/vault/redaction.rs: placeholders for detected values. `apply_redaction`
-- walks the detections by start and keeps, beside the output, the placeholders given out in this
-- call and a counter per class. Unicode case mapping is a parameter.
mod Tests
pub mod Examples
pub mod Order
pub mod Spans
pub mod Loop
pub mod Placing
pub mod Roundtrip
pub mod Ledger
pub mod Idle
pub mod Tokens
pub mod Pieces
pub mod Transform
use secureprompt.Prelude.{
  ℕ, zero, suc, ◌+◌, ◌-◌, ◌*◌, ◌%◌, ◌^◌, Bool, true, false, not, ◌&&◌, ◌||◌, Option, none, some,
  List, [], ◌∷◌, ◌++◌, ltb, leb, nat_beq, if◌then◌else◌, length, drop, nat_keyed, list_keyed,
  pair_keyed,
}
use secureprompt.Text.{Str, lit, slice, is_continuation, is_char_boundary, decimal}
use secureprompt.Map.{Map, lookup, insert}
use secureprompt.Types.{Detection, TokenVault, vault_insert}

-- The case mappings of Rust's `str`, which rest on the Unicode tables.
pub record Casing : Type 0 where
  pub to_uppercase : Str → Str
  pub to_lowercase : Str → Str

abbrev pub usize_max : ℕ
usize_max = 2 ^ 64 - 1

-- `span.unwrap_or((usize::MAX, usize::MAX))`
abbrev pub span_key : Detection → ℕ × ℕ
span_key d = elim d.span [ none ↦ (usize_max, usize_max) | some s ↦ s ]

-- The comparison of `sort_by`: by start, and at equal starts the longer span first.
unfoldable pub sorts_before : Detection → Detection → Bool
sorts_before a b =
    let a_span = span_key a in
    let b_span = span_key b in
    if nat_beq a_span.0 b_span.0
    then leb (b_span.1 - b_span.0) (a_span.1 - a_span.0)
    else ltb a_span.0 b_span.0

unfoldable pub sort_insert : Detection → List Detection → List Detection
sort_insert d [] = d ∷ []
sort_insert d (x ∷ xs) =
    let rest = sort_insert d xs in if sorts_before d x then d ∷ x ∷ xs else x ∷ rest

-- A stable sort.
unfoldable pub sort_detections : List Detection → List Detection
sort_detections [] = []
sort_detections (d ∷ ds) = sort_insert d (sort_detections ds)

-- `split('_')`
unfoldable pub split_on : ℕ → Str → Str → List Str
split_on sep word [] = word ∷ []
split_on sep word (b ∷ s) =
    let next = split_on sep [] s in
    let same = split_on sep (word ++ b ∷ []) s in if nat_beq b sep then word ∷ next else same

unfoldable pub join : Str → List Str → Str
join sep [] = []
join sep (w ∷ []) = w
join sep (w ∷ v ∷ ws) = w ++ sep ++ join sep (v ∷ ws)

-- The bytes of the first character that follow its first byte, and the rest of the text.
unfoldable pub split_continuation : Str → Str × Str
split_continuation [] = ([], [])
split_continuation (b ∷ s) =
    let more = split_continuation s in
    if is_continuation b then (b ∷ more.0, more.1) else ([], b ∷ s)

unfoldable pub title_word : Casing → Str → Str
unfolding split_continuation
title_word u [] = []
title_word u (b ∷ s) =
    let (first, chars) = split_continuation s in u.to_uppercase (b ∷ first) ++ u.to_lowercase chars

unfoldable pub map_words : (Str → Str) → List Str → List Str
map_words f [] = []
map_words f (w ∷ ws) = f w ∷ map_words f ws

unfoldable pub title_case : Casing → Str → Str
unfolding split_on join title_word map_words
title_case u class = join (lit "_") (map_words (title_word u) (split_on 95 [] class))

-- What one call of `apply_redaction` keeps.
pub record Redactor : Type 0 where
  pub assigned : Map (Str × Str) Str
  pub counters : Map Str ℕ
  pub cursor : ℕ
  pub redacted : Str
  pub vault : TokenVault
  pub redaction_map : Map Str Str

-- `*counters.entry(class).or_insert(0) += 1`, on a `u32`
unfoldable pub next_count : Str → Map Str ℕ → ℕ
next_count class counters = elim (lookup class counters) [ none ↦ 1 | some n ↦ (n + 1) % 2 ^ 32 ]

unfoldable pub token : Casing → Str → ℕ → Str
token u class_upper n =
    lit "{{" ++ (title_case u class_upper ++ (lit "_" ++ (decimal n ++ lit "}}")))

unfoldable pub assign : Casing → Str → Str → Redactor → Str × Redactor
assign u class_upper value r = elim (lookup (class_upper, value) r.assigned) [
  | some existing ↦ (existing, r)
  | none ↦
      let n = next_count class_upper r.counters in
      let placeholder = token u class_upper n in
      (
        placeholder,
        record r {
          counters = insert class_upper n r.counters;
          assigned = insert (class_upper, value) placeholder r.assigned;
        },
      )
]

-- The guards of the loop body: the span lies behind the cursor and in the text, at boundaries.
unfoldable pub accepts : Str → ℕ → ℕ × ℕ → Bool
accepts content cursor (start, stop) =
    not (ltb start cursor || ltb (length content) stop)
    && not (not (is_char_boundary content start) || not (is_char_boundary content stop))

unfoldable pub emit : Casing → Str → Detection → ℕ × ℕ → Redactor → Redactor
unfolding assign
emit u content d (start, stop) r =
    let before = r.redacted ++ slice content r.cursor start in
    let (placeholder, r') = assign u (u.to_uppercase d.class) d.value r in
    record r' {
      redacted = before ++ placeholder;
      vault = vault_insert placeholder d.value r'.vault;
      redaction_map = insert placeholder d.value r'.redaction_map;
      cursor = stop;
    }

unfoldable pub redact_one : Casing → Str → Detection → Redactor → Redactor
redact_one u content d r = elim d.span [
  | none ↦ r
  | some span ↦ if accepts content r.cursor span then emit u content d span r else r
]

unfoldable pub redact_all : Casing → Str → List Detection → Redactor → Redactor
redact_all u content [] r = r
redact_all u content (d ∷ ds) r = redact_all u content ds (redact_one u content d r)

abbrev pub start_redactor : TokenVault → Map Str Str → Redactor
start_redactor vault redaction_map = record {
  assigned = [];
  counters = [];
  cursor = 0;
  redacted = [];
  vault = vault;
  redaction_map = redaction_map;
}

-- The text that goes on, the vault and the redaction map.
pub record Redaction : Type 0 where
  pub content : Str
  pub vault : TokenVault
  pub redaction_map : Map Str Str

unfoldable pub apply_redaction :
    Casing → Str → List Detection → TokenVault → Map Str Str → Redaction
apply_redaction u content detections vault redaction_map =
    let r =
      redact_all u content (sort_detections detections) (start_redactor vault redaction_map) in
    record {
      content = r.redacted ++ drop r.cursor content;
      vault = r.vault;
      redaction_map = r.redaction_map;
    }
