-- ===== src/Streaming/Total.antt =====
-- Streams end, and the batch of all chunks gives the text of the stream.
use secureprompt.Prelude.{
  ℕ, zero, suc, ◌+◌, ◌-◌, ◌≡◌, ◌∙◌, refl, sym, ap, inl, inr, Bool-cases, Option-cases, ◌≤◌, ◌<◌,
  Option, none, some, List, [], ◌∷◌, ◌++◌, arith, ltb, length, take, drop, nat_keyed,
}
use mathlib.Core.Option
use secureprompt.Text.{Str, lit, find}
use secureprompt.Types.{TokenVault, restore}
use secureprompt.Streaming.{
  find_placeholder_start, hold_back, emit_safe, drain, push, flush, stream,
}
use secureprompt.Streaming.Batch.{joined, placeholder_safe_chunks, joined-placeholder_safe_chunks}

length-drop-le : (n : ℕ) (s : Str) → length (drop n s) ≤ length s
length-drop-le zero s = omega arith
length-drop-le (suc n) [] = omega arith
length-drop-le (suc n) (b ∷ s) = omega (arith, length-drop-le n s)

drop-shorter :
    (n : ℕ) (pending : Str) (start : ℕ)
    → 0 < n
    → find_placeholder_start pending ≡ some start
    → length (drop n pending) < length pending
unfolding find_placeholder_start
drop-shorter zero pending start h e = absurd (omega arith)
drop-shorter (suc n) [] start h e = absurd (cc e)
drop-shorter (suc n) (b ∷ pending) start h e = omega (arith, length-drop-le n pending)

-- The loop ends where its fuel is above the length of the pending text.
drain-total :
    (fuel : ℕ) (v : TokenVault) (out pending : Str)
    → length pending < fuel
    → (left : Str × Str) × (drain fuel v out pending ≡ some left)
unfolding drain
drain-total zero v out pending h = absurd (omega arith)
drain-total (suc fuel) v out pending h = elim (Option-cases (find_placeholder_start pending)) [
  | inl e ↦ elim (Bool-cases (ltb 0 (length pending - hold_back pending))) [
    | inl some_text ↦ (
      (
        out ++ restore v (take (length pending - hold_back pending) pending),
        drop (length pending - hold_back pending) pending,
      ),
      ground (arith, e, some_text),
    )
    | inr none_text ↦ ((out, pending), ground (arith, e, none_text))
  ]
  | inr (start, e) ↦ elim (Option-cases (find (lit "}}") (drop start pending))) [
    | inl f ↦ elim (Bool-cases (ltb 0 start)) [
      | inl before ↦
          ((emit_safe v out (take start pending), drop start pending), ground (arith, e, f, before))
      | inr at_start ↦ ((out, pending), ground (arith, e, f, at_start))
    ]
    | inr (end_offset, f) ↦
        let (left, ends) =
          drain-total fuel v (emit_safe v out (take (start + end_offset + 2) pending))
            (drop (start + end_offset + 2) pending)
            (omega (arith, drop-shorter (start + end_offset + 2) pending start (omega arith) e)) in
        (left, ground (arith, e, f, ends))
  ]
]

stream-total :
    (v : TokenVault) (pending : Str) (chunks : List Str)
    → (text : Str) × (stream v pending chunks ≡ some text)
unfolding stream push
stream-total v pending [] = (flush v pending, refl)
stream-total v pending (chunk ∷ chunks) =
    let text = pending ++ chunk in
    let (left, now) = drain-total (suc (length text)) v [] text (omega arith) in
    let (rest, later) = stream-total v left.1 chunks in (left.0 ++ rest, ground (arith, now, later))

map-some :
    {A B : Type 0} (f : A → B) (o : Option A) (b : B)
    → Option.map f o ≡ some b
    → (a : A) × ((o ≡ some a) × (f a ≡ b))
map-some f none b e = absurd (cc e)
map-some f (some a) b e = (a, (refl, cc e))

-- For every vault and every list of chunks, `placeholder_safe_chunks` and the streamer that is given
-- the same chunks one by one both end, and the joined chunks of the first are the text that the
-- second writes, its flush included.
pub placeholder_safe_chunks-stream :
    (v : TokenVault) (chunks : List Str)
    → (safe_chunks : List Str) × ((placeholder_safe_chunks chunks v ≡ some safe_chunks)
        × (stream v [] chunks ≡ some (joined safe_chunks)))
placeholder_safe_chunks-stream v chunks =
    let (text, ends) = stream-total v [] chunks in
    let (safe_chunks, (batch, same)) =
      map-some joined (placeholder_safe_chunks chunks v) text
        (joined-placeholder_safe_chunks v chunks ∙ ends) in
    (safe_chunks, (batch, ends ∙ ap some (sym same)))
