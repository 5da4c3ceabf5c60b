-- ===== src/Pipeline/Offsets.antt =====
-- secureprompt-api/src/pipeline/service.rs, `last_user_message_span`: its offsets, measured message by
-- message, are those of the joined prompt without markers.
use secureprompt.Prelude.{
  ℕ, zero, suc, ◌+◌, ◌-◌, ◌≡◌, ◌∙◌, refl, sym, ap, ap₂, Option, none, some, List, [], ◌∷◌, ◌++◌,
  append-nil, append_assoc, arith, length, take, drop, All, length-append, map,
}
use secureprompt.Text.{Str, lit, slice}
use secureprompt.Types.{Message}
use secureprompt.Vault.{join}
use secureprompt.Streaming.Scan.{take-length_append, drop-length_append}
use secureprompt.Pipeline.Markers.{prompt_from_messages, strip_file_vault_markers}
use secureprompt.Pipeline.Stripping.{strip_from, strip_file_vault_markers_lem}
use secureprompt.Pipeline.Audit.{cleaned, span_at, audited_index, last_user_message_span}
use secureprompt.Pipeline.Lines.{IsTerminated, strip_from-line}

-- The messages as they stand in the prompt.
abbrev joined : List Message → Str
joined ms = join (lit "\n") (map cleaned ms)

join_line :
    (w v : Str) (ws : List Str)
    → join (lit "\n") (w ∷ v ∷ ws) ≡ w ++ (10 ∷ join (lit "\n") (v ∷ ws))
unfolding join
join_line w v ws = append_assoc w (10 ∷ []) (join (lit "\n") (v ∷ ws))

cleaned_lem : (m : Message) → cleaned m ≡ (strip_from 0 (m.content)).0
unfolding cleaned
cleaned_lem m = ap (λ (p : Str × List Str). p.0) (strip_file_vault_markers_lem (m.content))

strip_joined :
    (ms : List Message)
    → All IsTerminated ms
    → (strip_from 0 (prompt_from_messages ms)).0 ≡ joined ms
unfolding prompt_from_messages join strip_from
strip_joined [] h = refl
strip_joined (m ∷ []) h = sym (cleaned_lem m)
strip_joined (m ∷ n ∷ ms) h =
    ap (λ t. (strip_from 0 t).0) (join_line (m.content) (n.content) _)
    ∙ ap (λ (p : Str × List Str). p.0)
        (strip_from-line 0 (m.content) (prompt_from_messages (n ∷ ms)) (omega arith) h.0)
    ∙ ap₂ (λ l r. l ++ (10 ∷ r)) (sym (cleaned_lem m)) (strip_joined (n ∷ ms) h.1)
    ∙ sym (join_line (cleaned m) (cleaned n) _)

-- The prompt without markers is its messages without markers.
strip_prompt :
    (ms : List Message)
    → All IsTerminated ms
    → (strip_file_vault_markers (prompt_from_messages ms)).0 ≡ joined ms
strip_prompt ms h =
    ap (λ (p : Str × List Str). p.0) (strip_file_vault_markers_lem (prompt_from_messages ms))
    ∙ strip_joined ms h

take-joined :
    (m : Message) (ms : List Message) → take (length (cleaned m)) (joined (m ∷ ms)) ≡ cleaned m
unfolding join
take-joined m [] =
    ap (take (length (cleaned m))) (sym (append-nil (cleaned m)))
    ∙ take-length_append (cleaned m) []
take-joined m (n ∷ ms) =
    ap (take (length (cleaned m))) (join_line (cleaned m) (cleaned n) _)
    ∙ take-length_append (cleaned m) (10 ∷ joined (n ∷ ms))

slice-at :
    (before : Str) (m : Message) (ms : List Message)
    → slice (before ++ joined (m ∷ ms)) (length before) (length before + length (cleaned m))
      ≡ cleaned m
slice-at before m ms =
    ap (λ n. take n (drop (length before) (before ++ joined (m ∷ ms))))
      (width (length before) (length (cleaned m)))
    ∙ (ap (take (length (cleaned m))) (drop-length_append before (joined (m ∷ ms)))
        ∙ take-joined m ms)
  where
    width : (a b : ℕ) → a + b - a ≡ b
    width a b = omega arith

some_inj {ℓ} : {A : Type ℓ} (x y : A) → some x ≡ some y → y ≡ x
some_inj x y h = cc h

span_at-zero :
    (offset : ℕ) (m : Message) (ms : List Message) (start stop : ℕ) (content : Str)
    → span_at zero offset (m ∷ ms) ≡ some (start, stop, content)
    → (start ≡ offset) × (stop ≡ offset + length (cleaned m)) × (content ≡ cleaned m)
unfolding span_at
span_at-zero offset m ms start stop content h =
    let same = some_inj (offset, offset + length (cleaned m), cleaned m) (start, stop, content) h in
    (
      ap (λ (p : ℕ × ℕ × Str). p.0) same,
      ap (λ (p : ℕ × ℕ × Str). p.1) same,
      ap (λ (p : ℕ × ℕ × Str). p.2) same,
    )

span_at-slice :
    (idx : ℕ) (ms : List Message) (before : Str) (start stop : ℕ) (content : Str)
    → span_at idx (length before) ms ≡ some (start, stop, content)
    → slice (before ++ joined ms) start stop ≡ content
unfolding span_at
span_at-slice idx [] before start stop content h = absurd (cc h)
span_at-slice zero (m ∷ ms) before start stop content h =
    let (at, to, is) = span_at-zero (length before) m ms start stop content h in
    rw (at, to, is) (slice-at before m ms)
span_at-slice (suc idx) (m ∷ []) before start stop content h = absurd (cc h)
span_at-slice (suc idx) (m ∷ n ∷ ms) before start stop content h =
    ap (λ t. slice t start stop) (ap (before ++◌) (join_line (cleaned m) (cleaned n) _) ∙ regroup)
    ∙ span_at-slice idx (n ∷ ms) (before ++ (cleaned m ++ (10 ∷ []))) start stop content
        (ap (λ o. span_at idx o (n ∷ ms)) further ∙ h)
  where
    regroup :
        before ++ (cleaned m ++ (10 ∷ joined (n ∷ ms)))
        ≡ (before ++ (cleaned m ++ (10 ∷ []))) ++ joined (n ∷ ms)
    regroup =
        ap (before ++◌) (sym (append_assoc (cleaned m) (10 ∷ []) (joined (n ∷ ms))))
        ∙ sym (append_assoc before (cleaned m ++ (10 ∷ [])) (joined (n ∷ ms)))

    further : length (before ++ (cleaned m ++ (10 ∷ []))) ≡ length before + (length (cleaned m) + 1)
    further =
        omega (
          arith,
          length-append before (cleaned m ++ (10 ∷ [])),
          length-append (cleaned m) (10 ∷ []),
        )

-- If every marker in every message has an end, then the span that is reported for the audited
-- message, measured message by message, holds just that message's text in the prompt without
-- markers, in which the detections have their spans.
pub last_user_message_span-slice :
    (ms : List Message) (start stop : ℕ) (content : Str)
    → All IsTerminated ms
    → last_user_message_span ms ≡ some (start, stop, content)
    → slice ((strip_file_vault_markers (prompt_from_messages ms)).0) start stop ≡ content
unfolding last_user_message_span
last_user_message_span-slice ms start stop content closed h =
    let (idx, reached) = go (audited_index ms) h in
    ap (λ t. slice t start stop) (strip_prompt ms closed)
    ∙ span_at-slice idx ms [] start stop content reached
  where
    go :
        (o : Option ℕ)
        → ◌≡◌ {A = Option (ℕ × ℕ × Str)}
            (elim o [ none ↦ none | some idx ↦ span_at idx 0 ms ])
            (some (start, stop, content))
        → (idx : ℕ) × (span_at idx 0 ms ≡ some (start, stop, content))
    go none k = absurd (cc k)
    go (some idx) k = (idx, k)
