-- ===== src/Vault/Transform/Panics.antt =====
-- When `apply_transform` panics.
use secureprompt.Prelude.{
  ℕ, ◌-◌, ◌≤◌, ◌<◌, ◌≡◌, ◌⊎◌, refl, true, false, some, List, [], ◌∷◌, ◌++◌, All, arith, inl, inr,
  Bool-cases, Option-cases, ltb, length, drop,
}
use secureprompt.Text.{Str, slice, is_char_boundary}
use secureprompt.Types.{Detection, Result, ok, panic, ◌>>=◌}
use secureprompt.Vault.{accepts, sort_detections, sort_insert}
use secureprompt.Vault.Order.{sort_detections-All}
use secureprompt.Vault.Transform.{
  Transformer, value_tail, render_template, transform_one, transform_all, apply_transform,
}

-- The last four bytes of the value begin at a character, or the value is no longer than four.
abbrev pub HasTail : Str → Type 0
HasTail value = (length value ≤ 4) ⊎ (is_char_boundary value (length value - 4) ≡ true)

pub value_tail-total : (value : Str) → HasTail value → (t : Str) × (value_tail value ≡ ok t)
unfolding value_tail
value_tail-total value (inl short) = (value, ground arith)
value_tail-total value (inr h) = elim (Bool-cases (ltb 4 (length value))) [
  | inl long ↦ (drop (length value - 4) value, ground (arith, long))
  | inr short ↦ (value, ground (arith, short))
]

value_tail-panic :
    (value : Str)
    → 4 < length value
    → is_char_boundary value (length value - 4) ≡ false
    → value_tail value ≡ panic
unfolding value_tail
value_tail-panic value long h = ground arith

abbrev Returns {ℓ} : {A : Type ℓ} → Result A → Type ℓ
Returns {A = A} r = (a : A) × (r ≡ ok a)

>>=-Returns {ℓ κ} :
    {A : Type ℓ} {B : Type κ} (m : Result A) (f : A → Result B)
    → Returns m
    → ((a : A) → Returns (f a))
    → Returns (m >>= f)
>>=-Returns m f (a, e) h = let (b, e') = h a in (b, rw e e')

render_template-total :
    (template value : Str) → HasTail value → Returns (render_template template value)
unfolding render_template
render_template-total template value h =
    >>=-Returns (value_tail value) _ (value_tail-total value h) (λ t. (_, refl))

transform_one-total :
    (template content : Str) (d : Detection) (r : Transformer)
    → HasTail d.value
    → Returns (transform_one template content d r)
unfolding transform_one
transform_one-total template content d r h = elim (Option-cases d.span) [
  | inl e ↦ (r, ground (arith, e))
  | inr ((start, stop), e) ↦ elim (Bool-cases (accepts content r.cursor (start, stop))) [
    | inr guards ↦ (r, ground (arith, e, guards))
    | inl guards ↦
        let (s, rendered) = render_template-total template d.value h in
        (
          record {
            cursor = stop;
            transformed = (r.transformed ++ slice content r.cursor start) ++ s;
          },
          ground (arith, e, guards, rendered),
        )
  ]
]

transform_all-total :
    (template content : Str) (ds : List Detection) (r : Transformer)
    → All (λ d. HasTail d.value) ds
    → Returns (transform_all template content ds r)
unfolding transform_all
transform_all-total template content [] r h = (r, refl)
transform_all-total template content (d ∷ ds) r h =
    >>=-Returns (transform_one template content d r) _
      (transform_one-total template content d r h.0)
      (λ r'. transform_all-total template content ds r' h.1)

-- If every value is at most four bytes long, or its last four bytes begin at a character, then
-- `apply_transform` returns a text, for every template.
pub apply_transform-total :
    (content template : Str) (ds : List Detection)
    → All (λ d. HasTail d.value) ds
    → (s : Str) × (apply_transform content ds template ≡ ok s)
unfolding apply_transform
apply_transform-total content template ds h =
    >>=-Returns (transform_all template content (sort_detections ds) _) _
      (transform_all-total template content (sort_detections ds) _
        (sort_detections-All (λ d. HasTail d.value) ds h))
      (λ r. (_, refl))

-- Whatever the template, one detection whose span is taken and whose value is longer than four
-- bytes, with the last four beginning inside a character, makes `apply_transform` panic.
pub apply_transform-panic :
    (content template : Str) (d : Detection) (start stop : ℕ)
    → d.span ≡ some (start, stop)
    → accepts content 0 (start, stop) ≡ true
    → 4 < length d.value
    → is_char_boundary d.value (length d.value - 4) ≡ false
    → apply_transform content (d ∷ []) template ≡ panic
unfolding apply_transform transform_all transform_one render_template sort_detections sort_insert
apply_transform-panic content template d start stop spans guards long h =
    ground (arith, spans, guards, value_tail-panic d.value long h)
