-- ===== src/Vault/Transform/Verbatim.antt =====
-- The default template of a `transform` rule, `{value}`, writes the value itself.
use secureprompt.Prelude.{
  ◌≡◌, ◌∙◌, refl, sym, ap, List, [], ◌∷◌, ◌++◌, All, arith, inl, inr, Bool-cases, Option-cases,
  take, append-nil, take-slice, take-append-drop,
}
use secureprompt.Text.{Str, lit, slice, replace, replace_from, starts_with}
use secureprompt.Types.{Detection, ok}
use secureprompt.Vault.{accepts, sort_detections}
use secureprompt.Vault.Order.{sort_detections-All}
use secureprompt.Vault.Transform.{
  Transformer, render_template, transform_one, transform_all, apply_transform,
}
use secureprompt.Vault.Spans.{IsTrueTo, accepts_bounds}
use secureprompt.Vault.Transform.Panics.{HasTail, value_tail-total}

-- Replacing the whole of a text gives what it is replaced by.
replace_value : (value : Str) → replace (lit "{value}") value (lit "{value}") ≡ value
unfolding replace replace_from starts_with
replace_value value = append-nil value

replace_tail : (tail : Str) → replace (lit "{value[-4:]}") tail (lit "{value}") ≡ lit "{value}"
unfolding replace replace_from starts_with
replace_tail tail = refl

render_template-value :
    (value : Str) → HasTail value → render_template (lit "{value}") value ≡ ok value
unfolding render_template
render_template-value value h =
    let (t, e) = value_tail-total value h in
    rw e (ap ok (ap (replace (lit "{value}") value) (replace_tail t) ∙ replace_value value))

-- What is written is the text up to the cursor.
abbrev IsVerbatim : Str → Transformer → Type 0
IsVerbatim content r = r.transformed ≡ take r.cursor content

transform_one-IsVerbatim :
    (content : Str) (d : Detection) (r : Transformer)
    → IsTrueTo content d
    → HasTail d.value
    → IsVerbatim content r
    → (q : Transformer) × (transform_one (lit "{value}") content d r ≡ ok q) × IsVerbatim content q
unfolding transform_one
transform_one-IsVerbatim content d r true_ tail h = elim (Option-cases d.span) [
  | inl e ↦ (r, ground (arith, e), h)
  | inr ((start, stop), e) ↦ elim (Bool-cases (accepts content r.cursor (start, stop))) [
    | inr guards ↦ (r, ground (arith, e, guards), h)
    | inl guards ↦ (
      record {
        cursor = stop;
        transformed = (r.transformed ++ slice content r.cursor start) ++ d.value;
      },
      ground (arith, e, guards, render_template-value d.value tail),
      rw (h, (true_ start stop e).1)
          (sym (
            take-slice start stop content (true_ start stop e).0
            ∙ ap (λ s. s ++ slice content start stop)
                (take-slice r.cursor start content
                  (accepts_bounds content r.cursor start stop guards).0))),
    )
  ]
]

transform_all-IsVerbatim :
    (content : Str) (ds : List Detection) (r : Transformer)
    → All (λ d. IsTrueTo content d × HasTail d.value) ds
    → IsVerbatim content r
    → (q : Transformer) × (transform_all (lit "{value}") content ds r ≡ ok q) × IsVerbatim content q
unfolding transform_all
transform_all-IsVerbatim content [] r h v = (r, refl, v)
transform_all-IsVerbatim content (d ∷ ds) r h v =
    let (r', e, v') = transform_one-IsVerbatim content d r h.0.0 h.0.1 v in
    let (q, e', w) = transform_all-IsVerbatim content ds r' h.1 v' in (q, rw e e', w)

-- With the template `{value}` the text goes on as it came in, for detections that are true to it
-- and whose last four bytes begin at a character: a `transform` rule without a template of its own
-- hides nothing.
pub apply_transform-value :
    (content : Str) (ds : List Detection)
    → All (λ d. IsTrueTo content d × HasTail d.value) ds
    → apply_transform content ds (lit "{value}") ≡ ok content
unfolding apply_transform
apply_transform-value content ds h =
    let (q, e, v) =
      transform_all-IsVerbatim content (sort_detections ds)
        (record { cursor = 0; transformed = [] })
        (sort_detections-All (λ d. IsTrueTo content d × HasTail d.value) ds h) refl in
    rw (e, v) (ap ok (take-append-drop q.cursor content))
