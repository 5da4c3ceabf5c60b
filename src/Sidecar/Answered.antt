-- ===== src/Sidecar/Answered.antt =====
-- What a complete outcome of `detect_if_available` means: the sidecar answered for every chunk of the
-- prompt.
use secureprompt.Prelude.{
  ℕ, suc, ◌+◌, ◌%◌, ◌^◌, ◌≤◌, ◌≡◌, refl, sym, ap, ◌∙◌, Bool, true, false, not, ◌&&◌, Option, none,
  some, List, [], ◌∷◌, ◌++◌, append-nil, append_assoc, map, length, ltb, leb, if◌then◌else◌, arith,
}
use secureprompt.Text.{Str}
use secureprompt.Pipeline.Coverage.{SidecarOutage, SidecarCoverage}
use secureprompt.Sidecar.Breaker.{is_open}
use secureprompt.Sidecar.Split.{split_for_ner}
use secureprompt.Sidecar.Detect.{
  NerEntity, MlDetection, MlDetectionOutcome, MlSidecarClient, Live, Answer, not_sent, responded,
  Turn, Tally, with_circuit, ended_chunk, detect_chunk, to_detection, rebased, tallied, start_tally,
  detect_on, classify_coverage, outcome_for, not_available, detect_if_available,
}

-- The entities of an answer whose status is not 4xx and whose body can be read.
abbrev pub heard : Answer (List NerEntity) → Option (List NerEntity)
heard not_sent = none
heard (responded status body) = if leb 400 status && ltb status 500 then none else body

-- What the sidecar found in the chunk at this offset, with its span moved to the prompt.
abbrev pub in_prompt : ℕ → NerEntity → MlDetection
in_prompt offset e = record {
  class = e.entity_type;
  confidence = e.score;
  span = some ((e.start + offset) % 2 ^ 64, (e.stop + offset) % 2 ^ 64);
  value = e.text;
  compliance_categories = e.compliance_categories;
}

in_prompt-rebased :
    (offset : ℕ) (entities : List NerEntity)
    → map (in_prompt offset) entities ≡ map (rebased offset) (map to_detection entities)
in_prompt-rebased offset [] = refl
in_prompt-rebased offset (e ∷ entities) =
    ap (λ rest. in_prompt offset e ∷ rest) (in_prompt-rebased offset entities)

-- The detections of these chunks, rebased to the prompt, if the sidecar answered for each.
abbrev pub heard_all : (ℕ → Turn (List NerEntity)) → ℕ → List (ℕ × Str) → Option (List MlDetection)
heard_all turns done [] = some []
heard_all turns done ((offset, chunk) ∷ chunks) =
    let turn = turns done in
    let rest = heard_all turns (suc done) chunks in
    elim (heard (turn.answer chunk)) [
      | none ↦ none
      | some entities ↦ elim rest [
        | none ↦ none
        | some found ↦ some (map (in_prompt offset) entities ++ found)
      ]
    ]

-- An answer counts as coverage exactly when it is heard.
ended_chunk-heard :
    (now : ℕ) (a : Answer (List NerEntity)) (live : Live)
    → (ended_chunk now a live).0
      ≡ elim (heard a) [ none ↦ none | some entities ↦ some (map to_detection entities) ]
unfolding ended_chunk
ended_chunk-heard now not_sent live = refl
ended_chunk-heard now (responded status none) live = ground arith
ended_chunk-heard now (responded status (some entities)) live = ground arith

pub detect_chunk-heard :
    (turn : Turn (List NerEntity)) (chunk : Str) (live : Live)
    → (detect_chunk turn chunk live).0 ≡ elim (heard (turn.answer chunk)) [
      | none ↦ none
      | some entities ↦ some (map to_detection entities)
    ]
unfolding detect_chunk
detect_chunk-heard turn chunk live =
    ended_chunk-heard turn.ended (turn.answer chunk) (with_circuit turn.during live)

-- What the loop has done from one tally to another: no more chunks counted than there were, and where
-- all were counted, all were heard.
record Looped (turns : ℕ → Turn (List NerEntity)) (done : ℕ) (chunks : List (ℕ × Str))
    (t t' : Tally) : Type 0 where
  few : t'.covered ≤ t.covered + length chunks
  bounded : t'.attempted ≤ t.attempted + length chunks
  whole :
      t'.covered ≡ t.covered + length chunks
      → (found : List MlDetection) × (heard_all turns done chunks ≡ some found)
        × (t'.all ≡ t.all ++ found)

stopped :
    (turns : ℕ → Turn (List NerEntity)) (done : ℕ) (piece : ℕ × Str) (chunks : List (ℕ × Str))
    (t : Tally) (live : Live)
    → Looped turns done (piece ∷ chunks) t (record t { live = live })
stopped turns done piece chunks t live = record {
  few = omega arith;
  bounded = omega arith;
  whole = λ all. absurd (omega arith);
}

-- A chunk that was heard, and then the rest.
went_on :
    (turns : ℕ → Turn (List NerEntity)) (done offset : ℕ) (chunk : Str) (chunks : List (ℕ × Str))
    (t t' : Tally) (found : Option (List MlDetection)) (live live' : Live)
    → found ≡ elim (heard ((turns done).answer chunk)) [
      | none ↦ none
      | some entities ↦ some (map to_detection entities)
    ]
    → Looped turns (suc done) chunks (tallied offset (found, live) (record t { live = live' })) t'
    → Looped turns done ((offset, chunk) ∷ chunks) t t'
went_on turns done offset chunk chunks t t' none live live' e l = record {
  few = omega (arith, l.few);
  bounded = omega (arith, l.bounded);
  whole = λ all. absurd (omega (arith, l.few));
}
went_on turns done offset chunk chunks t t' (some dets) live live' e l = record {
  few = omega (arith, l.few);
  bounded = omega (arith, l.bounded);
  whole = λ all.
      let (rest, gathered, kept) = l.whole (omega arith) in
      joined (heard ((turns done).answer chunk)) dets rest e gathered kept;
}
  where
    joined :
        (h : Option (List NerEntity)) (dets rest : List MlDetection)
        → some dets ≡ elim h [ none ↦ none | some entities ↦ some (map to_detection entities) ]
        → heard_all turns (suc done) chunks ≡ some rest
        → t'.all ≡ (t.all ++ map (rebased offset) dets) ++ rest
        → (all_found : List MlDetection) × (elim h [
          | none ↦ none
          | some entities ↦ elim (heard_all turns (suc done) chunks) [
            | none ↦ none
            | some found ↦ some (map (in_prompt offset) entities ++ found)
          ]
        ]
            ≡ some all_found)
          × (t'.all ≡ t.all ++ all_found)
    joined none dets rest e g k = absurd (cc)
    joined (some entities) dets rest e g k =
        let same : map to_detection entities ≡ dets = cc in
        (
          map (rebased offset) dets ++ rest,
          ap
                (λ o. elim o as (λ _. Option (List MlDetection)) [
                  | none ↦ none
                  | some found ↦ some (map (in_prompt offset) entities ++ found)
                ])
                g
              ∙ ap (λ d. some (d ++ rest)) (in_prompt-rebased offset entities)
              ∙ ap (λ d. some (map (rebased offset) d ++ rest)) same,
          k ∙ append_assoc t.all (map (rebased offset) dets) rest,
        )

choose {ℓ} : {A : Type 0} (P : A → Type ℓ) (b : Bool) (x y : A) → P x → P y → P (if b then x else y)
choose P true x y p q = p
choose P false x y p q = q

detect_on-Looped :
    (budget : ℕ) (turns : ℕ → Turn (List NerEntity)) (done : ℕ) (chunks : List (ℕ × Str))
    (t : Tally)
    → Looped turns done chunks t (detect_on budget turns done chunks t)
unfolding detect_on
detect_on-Looped budget turns done [] t = record {
  few = omega arith;
  bounded = omega arith;
  whole = λ _. ([], refl, sym (append-nil t.all));
}
detect_on-Looped budget turns done ((offset, chunk) ∷ chunks) t =
    let turn = turns done in
    let look = is_open (turns done).looked ((turns done).before t.live.circuit) in
    let live = record t.live { circuit = look.1 } in
    let call = detect_chunk (turns done) chunk (record t.live { circuit = look.1 }) in
    choose (Looped turns done ((offset, chunk) ∷ chunks) t) look.0 _ _
      (stopped turns done (offset, chunk) chunks t live)
      (choose (Looped turns done ((offset, chunk) ∷ chunks) t)
        (ltb 0 done && leb budget (turns done).elapsed) _ _
        (stopped turns done (offset, chunk) chunks t live)
        (went_on turns done offset chunk chunks t _ call.0 call.1 live
          (detect_chunk-heard (turns done) chunk live)
          (detect_on-Looped budget turns (suc done) chunks
            (tallied offset call (record t { live = live })))))

complete_all :
    (all : List MlDetection) (coverage : SidecarCoverage)
    → (outcome_for all coverage).coverage ≡ SidecarCoverage.complete
    → (coverage ≡ SidecarCoverage.complete) × ((outcome_for all coverage).detections ≡ all)
unfolding outcome_for
complete_all all SidecarCoverage.complete h = (refl, refl)
complete_all all (SidecarCoverage.partial covered total) h = absurd (ground arith)
complete_all all (SidecarCoverage.absent reason) h = absurd (ground arith)

classify_coverage-le :
    (attempted covered total : ℕ)
    → classify_coverage attempted covered total ≡ SidecarCoverage.complete
    → total ≤ covered
unfolding classify_coverage
classify_coverage-le attempted covered total h = ground arith

-- What holds of an outcome and the chunks of its prompt.
abbrev pub IsHeard :
    MlSidecarClient → (ℕ → Turn (List NerEntity)) → List Str → MlDetectionOutcome → Type 0
IsHeard client turns prompt outcome =
    outcome.coverage ≡ SidecarCoverage.complete
    → heard_all turns 0 (split_for_ner prompt client.ner_chunk_chars) ≡ some outcome.detections

unheard :
    (client : MlSidecarClient) (turns : ℕ → Turn (List NerEntity)) (prompt : List Str)
    (all : List MlDetection) (reason : SidecarOutage)
    → IsHeard client turns prompt (outcome_for all (SidecarCoverage.absent reason))
unfolding outcome_for
unheard client turns prompt all reason h = absurd (ground arith)

through_all :
    (client : MlSidecarClient) (turns : ℕ → Turn (List NerEntity)) (prompt : List Str) (live : Live)
    (t : Tally)
    → Looped turns 0 (split_for_ner prompt client.ner_chunk_chars) (start_tally live) t
    → IsHeard client turns prompt (
        outcome_for t.all (
          classify_coverage t.attempted t.covered
            (length (split_for_ner prompt client.ner_chunk_chars))))
through_all client turns prompt live t l h =
    let (full, same) = complete_all t.all _ h in
    let enough = classify_coverage-le t.attempted t.covered _ full in
    let (found, gathered, kept) = l.whole (omega (arith, l.few)) in
    gathered ∙ ap some (sym (same ∙ kept))

-- Where `detect_if_available` reports complete coverage, whatever the breaker, the clock, the budget
-- and the other tasks did: the sidecar answered for every chunk of the prompt, with no 4xx status and
-- a body that could be read, and the detections are all the entities of the answers, in order, each
-- with its class, score, text and categories, and with the offset of its chunk added to both ends
-- of its span, modulo 2 ^ 64.
pub detect_if_available-heard_all :
    (client : MlSidecarClient) (turns : ℕ → Turn (List NerEntity)) (now : ℕ) (prompt : List Str)
    (live : Live)
    → (detect_if_available client turns now prompt live).0.coverage ≡ SidecarCoverage.complete
    → heard_all turns 0 (split_for_ner prompt client.ner_chunk_chars)
      ≡ some (detect_if_available client turns now prompt live).0.detections
unfolding detect_if_available not_available
detect_if_available-heard_all client turns now prompt live =
    let look = is_open now live.circuit in
    let live' = record live { circuit = look.1 } in
    choose (λ (r : MlDetectionOutcome × Live). IsHeard client turns prompt r.0)
      (not (client.connected && client.enabled)) _ _ (unheard client turns prompt [] _)
      (choose (λ (r : MlDetectionOutcome × Live). IsHeard client turns prompt r.0) look.0 _ _
        (unheard client turns prompt [] SidecarOutage.circuit_open)
        (through_all client turns prompt live' _ (
          detect_on-Looped client.ner_total_budget turns 0
            (split_for_ner prompt client.ner_chunk_chars) (start_tally live'))))
