-- ===== src/Sidecar/Healthy.antt =====
-- A sidecar that answers gives complete coverage: nothing else in `detect_if_available` loses a chunk.
use secureprompt.Prelude.{
  ℕ, suc, ◌+◌, ◌<◌, ◌≡◌, inl, inr, refl, sym, ap, ◌∙◌, Bool, true, false, not, ◌&&◌, Option, none,
  some, List, [], ◌∷◌, map, length, max, ltb, leb, if◌then◌else◌, Bool-cases, arith,
}
use secureprompt.Text.{Str}
use secureprompt.Pipeline.Coverage.{SidecarCoverage}
use secureprompt.Sidecar.Breaker.{AtomicCircuit, is_open}
use secureprompt.Sidecar.Split.{split_for_ner, split_chunks}
use secureprompt.Sidecar.Detect.{
  NerEntity, MlDetection, MlDetectionOutcome, MlSidecarClient, Live, Turn, Tally, detect_chunk,
  to_detection, tallied, start_tally, detect_on, classify_coverage, outcome_for,
  detect_if_available,
}
use secureprompt.Sidecar.Answered.{
  heard, heard_all, detect_chunk-heard, detect_if_available-heard_all,
}

heard_all_on :
    (h : Option (List NerEntity)) (r : Option (List MlDetection))
    (join : List NerEntity → List MlDetection → List MlDetection) (found : List MlDetection)
    → elim h [
      | none ↦ none
      | some entities ↦ elim r [ none ↦ none | some rest ↦ some (join entities rest) ]
    ]
      ≡ some found
    → (entities : List NerEntity) × (rest : List MlDetection) × (h ≡ some entities)
      × (r ≡ some rest)
heard_all_on none r join found e = absurd (cc)
heard_all_on (some entities) none join found e = absurd (cc)
heard_all_on (some entities) (some rest) join found e = (entities, rest, refl, refl)

tallied-some :
    (offset : ℕ) (call : Option (List MlDetection) × Live) (t : Tally) (dets : List MlDetection)
    → call.0 ≡ some dets
    → ((tallied offset call t).attempted ≡ t.attempted + 1)
      × ((tallied offset call t).covered ≡ t.covered + 1)
tallied-some offset (none, live) t dets h = absurd (cc)
tallied-some offset (some found, live) t dets h = (refl, refl)

-- The breaker is found closed before each call, and the budget lasts.
pub record IsCalm (budget : ℕ) (turns : ℕ → Turn (List NerEntity)) : Type 0 where
  pub shut : (k : ℕ) (c : AtomicCircuit) → (is_open (turns k).looked ((turns k).before c)).0 ≡ false
  pub timely : (k : ℕ) → (turns k).elapsed < budget

detect_on-all :
    (budget : ℕ) (turns : ℕ → Turn (List NerEntity)) (calm : IsCalm budget turns) (done : ℕ)
    (chunks : List (ℕ × Str)) (t : Tally) (found : List MlDetection)
    → heard_all turns done chunks ≡ some found
    → ((detect_on budget turns done chunks t).attempted ≡ t.attempted + length chunks)
      × ((detect_on budget turns done chunks t).covered ≡ t.covered + length chunks)
unfolding detect_on
detect_on-all budget turns calm done [] t found g = (omega arith, omega arith)
detect_on-all budget turns calm done ((offset, chunk) ∷ chunks) t found g =
    let (entities, rest, answered, more) =
      heard_all_on (heard ((turns done).answer chunk)) (heard_all turns (suc done) chunks) _ found
        g in
    let look = is_open (turns done).looked ((turns done).before t.live.circuit) in
    let live = record t.live { circuit = look.1 } in
    let call = detect_chunk (turns done) chunk (record t.live { circuit = look.1 }) in
    let late = late_not (turns done).elapsed budget done (calm.timely done) in
    let heard_here =
      detect_chunk-heard (turns done) chunk live
      ∙ ap
          (λ o. elim o as (λ _. Option (List MlDetection)) [
            | none ↦ none
            | some es ↦ some (map to_detection es)
          ])
          answered in
    let counted =
      tallied-some offset call (record t { live = live }) (map to_detection entities) heard_here in
    let ih =
      detect_on-all budget turns calm (suc done) chunks
        (tallied offset call (record t { live = live })) rest more in
    let after =
      detect_on budget turns (suc done) chunks (tallied offset call (record t { live = live })) in
    let here =
      ap
        (λ b.
          if b
          then record t { live = live }
          else if ltb 0 done && leb budget (turns done).elapsed
          then record t { live = live }
          else after)
        (calm.shut done t.live.circuit)
      ∙ ap (λ b. if b then record t { live = live } else after) late in
    (
      ap (λ (k : Tally). k.attempted) here ∙ omega (arith, ih.0, counted.0),
      ap (λ (k : Tally). k.covered) here ∙ omega (arith, ih.1, counted.1),
    )
  where
    late_not : (e b k : ℕ) → e < b → (ltb 0 k && leb b e) ≡ false
    late_not e b k h = ground arith

third :
    {A B : Type 0} (f : A → B) (b c : Bool) (x y z : A)
    → b ≡ false
    → c ≡ false
    → f (if b then x else if c then y else z) ≡ f z
third f b c x y z p q =
    ap (λ k. f (if k then x else if c then y else z)) p ∙ ap (λ k. f (if k then y else z)) q

split_for_ner-pos : (chars : List Str) (limit : ℕ) → 0 < length (split_for_ner chars limit)
unfolding split_for_ner split_chunks
split_for_ner-pos [] limit = ground arith
split_for_ner-pos (c ∷ chars) limit = elim (Bool-cases (leb (length (c ∷ chars)) (max limit 1))) [
  | inl short ↦ rw short (omega arith)
  | inr long ↦ rw long (omega arith)
]

classify_coverage-complete :
    (attempted covered total : ℕ)
    → attempted ≡ total
    → covered ≡ total
    → 0 < total
    → classify_coverage attempted covered total ≡ SidecarCoverage.complete
unfolding classify_coverage
classify_coverage-complete attempted covered total a c p = ground arith

-- A client that is enabled and connected, whose breaker is closed at every look and whose calls stay
-- within the time budget, reports complete coverage when the sidecar answers for every chunk, and
-- then its detections are those of the answers.
pub detect_if_available-complete :
    (client : MlSidecarClient) (turns : ℕ → Turn (List NerEntity)) (now : ℕ) (prompt : List Str)
    (live : Live) (found : List MlDetection)
    → client.connected ≡ true
    → client.enabled ≡ true
    → (is_open now live.circuit).0 ≡ false
    → IsCalm client.ner_total_budget turns
    → heard_all turns 0 (split_for_ner prompt client.ner_chunk_chars) ≡ some found
    → ((detect_if_available client turns now prompt live).0.coverage ≡ SidecarCoverage.complete)
      × ((detect_if_available client turns now prompt live).0.detections ≡ found)
unfolding detect_if_available outcome_for
detect_if_available-complete client turns now prompt live found wired on shut calm g =
    let look = is_open now live.circuit in
    let live' = record live { circuit = look.1 } in
    let chunks = split_for_ner prompt client.ner_chunk_chars in
    let t =
      detect_on client.ner_total_budget turns 0 (split_for_ner prompt client.ner_chunk_chars)
        (start_tally (record live { circuit = look.1 })) in
    let counts =
      detect_on-all client.ner_total_budget turns calm 0
        (split_for_ner prompt client.ner_chunk_chars)
        (start_tally (record live { circuit = look.1 })) found g in
    let full =
      classify_coverage-complete t.attempted t.covered (length chunks) (omega (arith, counts.0))
        (omega (arith, counts.1)) (split_for_ner-pos prompt client.ner_chunk_chars) in
    let coverage =
      third (λ (r : MlDetectionOutcome × Live). r.0.coverage)
        (not (client.connected && client.enabled)) look.0 _ _ _
        (ap (λ b. not (b && client.enabled)) wired ∙ ap not on) shut
      ∙ ap (λ c. (outcome_for t.all c).coverage) full in
    (
      coverage,
      same_some (sym (detect_if_available-heard_all client turns now prompt live coverage) ∙ g),
    )
  where
    same_some : {xs ys : List MlDetection} → some xs ≡ some ys → xs ≡ ys
    same_some e = cc
