-- ===== src/Vault/Transform.antt =====
-- secureprompt-api/src/vault/redaction.rs, `apply_transform` and `render_template`: each detection
-- is replaced by a template in which the value, or its last four bytes, are put in. A slice off a
-- character boundary panics.
pub mod Panics
pub mod Verbatim
use secureprompt.Prelude.{
  ℕ, suc, ◌+◌, ◌-◌, ◌≤◌, ◌<◌, ◌≡◌, ◌≢◌, ◌∙◌, ◌⊎◌, refl, sym, ap, Bool, true, false, Option, none,
  some, List, [], ◌∷◌, ◌++◌, All, arith, inl, inr, if◌then◌else◌, Bool-cases, Option-cases, ltb,
  length, drop, take, append-nil, append_assoc, take-slice, take-append-drop,
}
use secureprompt.Text.{Str, lit, slice, is_char_boundary, replace}
use secureprompt.Types.{Detection, Result, ok, err, panic, ◌>>=◌}
use secureprompt.Vault.{Casing, accepts, sort_detections}
use secureprompt.Vault.Order.{sort_detections-All}

-- `&value[value.len() - 4..]` where the value is longer than four bytes
unfoldable pub value_tail : Str → Result Str
value_tail value =
    if ltb 4 (length value)
    then (if is_char_boundary value (length value - 4)
        then ok (drop (length value - 4) value)
        else panic)
    else ok value

unfoldable pub render_template : Str → Str → Result Str
render_template template value = do
  tail ← value_tail value
  ok (replace (lit "{value}") value (replace (lit "{value[-4:]}") tail template))

-- The cursor and the text written so far.
pub record Transformer : Type 0 where
  pub cursor : ℕ
  pub transformed : Str

unfoldable pub transform_one : Str → Str → Detection → Transformer → Result Transformer
transform_one template content d r = elim d.span [
  | none ↦ ok r
  | some (start, stop) ↦
      if accepts content r.cursor (start, stop)
      then (do
        rendered ← render_template template d.value
        ok (record {
          cursor = stop;
          transformed = (r.transformed ++ slice content r.cursor start) ++ rendered;
        }))
      else ok r
]

unfoldable pub transform_all : Str → Str → List Detection → Transformer → Result Transformer
transform_all template content [] r = ok r
transform_all template content (d ∷ ds) r = do
  r' ← transform_one template content d r
  transform_all template content ds r'

unfoldable pub apply_transform : Str → List Detection → Str → Result Str
apply_transform content detections template = do
  r ←
      transform_all template content (sort_detections detections)
        (record { cursor = 0; transformed = [] })
  ok (r.transformed ++ drop r.cursor content)
