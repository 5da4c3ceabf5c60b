-- ===== src/Streaming/Batch.antt =====
-- secureprompt-api/src/http/streaming.rs: `placeholder_safe_chunks`, which has all the chunks at
-- once, beside the streamer that takes them one by one.
use secureprompt.Prelude.{
  ℕ, zero, suc, ◌+◌, ◌-◌, ◌≡◌, ◌∙◌, refl, sym, ap, inl, inr, Option-cases, Option, none, some, List,
  [], ◌∷◌, ◌++◌, arith, ltb, if◌then◌else◌, length, take, drop, is_empty, append-nil, append_assoc,
  nat_keyed,
}
use mathlib.Core.Option
use secureprompt.Text.{Str, lit, find}
use secureprompt.Types.{TokenVault, restore}
use secureprompt.Streaming.{
  find_placeholder_start, hold_back, emit_safe, drain, push, flush, stream,
}

abbrev pub joined : List Str → Str
joined [] = []
joined (delta ∷ deltas) = delta ++ joined deltas

-- `if !safe.is_empty() { safe_chunks.push(vault.restore(&safe)) }`
unfoldable pub emit_chunk : TokenVault → List Str → Str → List Str
emit_chunk v safe_chunks safe =
    if is_empty safe then safe_chunks else safe_chunks ++ restore v safe ∷ []

-- The loop over the pending text.
unfoldable pub drain_chunks : ℕ → TokenVault → List Str → Str → Option (List Str × Str)
drain_chunks zero v safe_chunks pending = none
drain_chunks (suc fuel) v safe_chunks pending = elim (find_placeholder_start pending) [
  | some start ↦ elim (find (lit "}}") (drop start pending)) [
    | some end_offset ↦
        drain_chunks fuel v (emit_chunk v safe_chunks (take (start + end_offset + 2) pending))
          (drop (start + end_offset + 2) pending)
    | none ↦
        if ltb 0 start
        then some (emit_chunk v safe_chunks (take start pending), drop start pending)
        else some (safe_chunks, pending)
  ]
  | none ↦
      let emit_len = length pending - hold_back pending in
      if ltb 0 emit_len
      then some (safe_chunks ++ restore v (take emit_len pending) ∷ [], drop emit_len pending)
      else some (safe_chunks, pending)
]

-- The loop over the chunks, and what is left at the end.
unfoldable pub feed : TokenVault → Str → List Str → List Str → Option (List Str)
feed v pending safe_chunks [] = some (emit_chunk v safe_chunks pending)
feed v pending safe_chunks (chunk ∷ chunks) =
    elim (drain_chunks (suc (length (pending ++ chunk))) v safe_chunks (pending ++ chunk)) [
      | none ↦ none
      | some (safe_chunks', pending') ↦ feed v pending' safe_chunks' chunks
    ]

unfoldable pub placeholder_safe_chunks : List Str → TokenVault → Option (List Str)
placeholder_safe_chunks chunks v = feed v [] [] chunks

joined-snoc : (xs : List Str) (x : Str) → joined (xs ++ x ∷ []) ≡ joined xs ++ x
joined-snoc [] x = append-nil x
joined-snoc (y ∷ xs) x = ap (◌++◌ y) (joined-snoc xs x) ∙ sym (append_assoc y (joined xs) x)

join_chunks : Option (List Str × Str) → Option (Str × Str)
join_chunks none = none
join_chunks (some (safe_chunks, pending)) = some (joined safe_chunks, pending)

joined-emit_chunk :
    (v : TokenVault) (xs : List Str) (safe : Str)
    → joined (emit_chunk v xs safe) ≡ emit_safe v (joined xs) safe
unfolding emit_chunk emit_safe
joined-emit_chunk v xs [] = refl
joined-emit_chunk v xs (b ∷ safe) = joined-snoc xs (restore v (b ∷ safe))

join-drain_chunks :
    (fuel : ℕ) (v : TokenVault) (xs : List Str) (pending : Str)
    → join_chunks (drain_chunks fuel v xs pending) ≡ drain fuel v (joined xs) pending
unfolding drain_chunks drain join_chunks
join-drain_chunks zero v xs pending = refl
join-drain_chunks (suc fuel) v xs pending = elim (Option-cases (find_placeholder_start pending)) [
  | inl e ↦
      ground
        (arith, e, joined-snoc xs (restore v (take (length pending - hold_back pending) pending)))
  | inr (start, e) ↦ elim (Option-cases (find (lit "}}") (drop start pending))) [
    | inl f ↦ ground (arith, e, f, joined-emit_chunk v xs (take start pending))
    | inr (end_offset, f) ↦ ground (
      arith,
      e,
      f,
      joined-emit_chunk v xs (take (start + end_offset + 2) pending),
      join-drain_chunks fuel v (emit_chunk v xs (take (start + end_offset + 2) pending))
          (drop (start + end_offset + 2) pending),
    )
  ]
]

prepend : Str → Option (Str × Str) → Option (Str × Str)
prepend s none = none
prepend s (some (out, pending)) = some (s ++ out, pending)

emit_safe-append :
    (v : TokenVault) (s out safe : Str) → emit_safe v (s ++ out) safe ≡ s ++ emit_safe v out safe
unfolding emit_safe
emit_safe-append v s out [] = refl
emit_safe-append v s out (b ∷ safe) = append_assoc s out (restore v (b ∷ safe))

-- What was written before stays in front.
drain-append :
    (fuel : ℕ) (v : TokenVault) (s out pending : Str)
    → drain fuel v (s ++ out) pending ≡ prepend s (drain fuel v out pending)
unfolding drain prepend
drain-append zero v s out pending = refl
drain-append (suc fuel) v s out pending = elim (Option-cases (find_placeholder_start pending)) [
  | inl e ↦
      ground (
        arith,
        e,
        append_assoc s out (restore v (take (length pending - hold_back pending) pending)),
      )
  | inr (start, e) ↦ elim (Option-cases (find (lit "}}") (drop start pending))) [
    | inl f ↦ ground (arith, e, f, emit_safe-append v s out (take start pending))
    | inr (end_offset, f) ↦ ground (
      arith,
      e,
      f,
      emit_safe-append v s out (take (start + end_offset + 2) pending),
      drain-append fuel v s (emit_safe v out (take (start + end_offset + 2) pending))
          (drop (start + end_offset + 2) pending),
    )
  ]
]

continue_feed : TokenVault → List Str → Option (List Str × Str) → Option (List Str)
continue_feed v chunks none = none
continue_feed v chunks (some (safe_chunks, pending)) = feed v pending safe_chunks chunks

continue_stream : TokenVault → List Str → Option (Str × Str) → Option Str
continue_stream v chunks none = none
continue_stream v chunks (some (out, pending)) =
    Option.map (λ rest. out ++ rest) (stream v pending chunks)

append_twice :
    (a b c : Str) (o : Option Str)
    → c ≡ a ++ b
    → Option.map (λ rest. c ++ rest) o
      ≡ Option.map (λ rest. a ++ rest) (Option.map (λ rest. b ++ rest) o)
append_twice a b c none e = refl
append_twice a b c (some x) e = ap some (ap (λ u. u ++ x) e ∙ append_assoc a b x)

continue_same :
    (v : TokenVault) (xs chunks : List Str) (batch : Option (List Str × Str))
    (single : Option (Str × Str))
    → ((pending : Str) (ys : List Str)
        → Option.map joined (feed v pending ys chunks)
          ≡ Option.map (λ rest. joined ys ++ rest) (stream v pending chunks))
    → join_chunks batch ≡ prepend (joined xs) single
    → Option.map joined (continue_feed v chunks batch)
      ≡ Option.map (λ rest. joined xs ++ rest) (continue_stream v chunks single)
unfolding join_chunks prepend continue_feed continue_stream
continue_same v xs chunks none none later e = refl
continue_same v xs chunks none (some (out, pending)) later e = absurd (cc e)
continue_same v xs chunks (some (ys, pending)) none later e = absurd (cc e)
continue_same v xs chunks (some (ys, pending)) (some (out, left)) later e =
    let same_text : joined ys ≡ joined xs ++ out = cc e in
    let same_rest : pending ≡ left = cc e in
    later pending ys
    ∙ append_twice (joined xs) out (joined ys) (stream v pending chunks) same_text
    ∙ ap
        (λ p.
          Option.map (λ rest. joined xs ++ rest)
            (Option.map (λ rest. out ++ rest) (stream v p chunks)))
        same_rest

joined-feed :
    (v : TokenVault) (pending : Str) (xs chunks : List Str)
    → Option.map joined (feed v pending xs chunks)
      ≡ Option.map (λ rest. joined xs ++ rest) (stream v pending chunks)
unfolding feed stream flush push continue_feed continue_stream emit_chunk
joined-feed v [] xs [] = ap some (sym (append-nil (joined xs)))
joined-feed v (b ∷ pending) xs [] = ap some (joined-snoc xs (restore v (b ∷ pending)))
joined-feed v pending xs (chunk ∷ chunks) =
    let text = pending ++ chunk in
    let fuel = suc (length text) in
    continue_same v xs chunks (drain_chunks fuel v xs text) (drain fuel v [] text)
      (λ p ys. joined-feed v p ys chunks)
      (join-drain_chunks fuel v xs text
        ∙ ap (λ u. drain fuel v u text) (sym (append-nil (joined xs)))
        ∙ drain-append fuel v (joined xs) [] text)

pub joined-placeholder_safe_chunks :
    (v : TokenVault) (chunks : List Str)
    → Option.map joined (placeholder_safe_chunks chunks v) ≡ stream v [] chunks
unfolding placeholder_safe_chunks
joined-placeholder_safe_chunks v chunks = joined-feed v [] [] chunks ∙ map_same (stream v [] chunks)
  where
    map_same : (o : Option Str) → Option.map (λ rest. [] ++ rest) o ≡ o
    map_same none = refl
    map_same (some x) = refl
