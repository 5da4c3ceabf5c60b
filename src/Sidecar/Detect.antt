-- ===== src/Sidecar/Detect.antt =====
-- `detect_if_available` of secureprompt-api/src/ml_sidecar/client.rs, with what the sidecar answers, the clock, and what other
-- tasks do to the circuit meanwhile as arguments.
use secureprompt.Prelude.{
  ℕ, suc, ◌+◌, ◌%◌, ◌^◌, max, Bool, not, ◌&&◌, ◌||◌, Option, none, some, List, [], ◌∷◌, ◌++◌, map,
  length, is_empty, ltb, leb, nat_beq, if◌then◌else◌,
}
use secureprompt.Text.{Str, lit, starts_with}
use secureprompt.Types.{Float}
use secureprompt.Pipeline.Coverage.{SidecarOutage, SidecarCoverage}
use secureprompt.Sidecar.Breaker.{AtomicCircuit, is_open, record_success, record_failure}
use secureprompt.Sidecar.Split.{split_for_ner}

pub record NerEntity : Type 0 where
  pub entity_type : Str
  pub score : Float
  pub start : ℕ
  pub stop : ℕ
  pub text : Str
  pub compliance_categories : List Str

pub record MlDetection : Type 0 where
  pub class : Str
  pub confidence : Float
  pub span : Option (ℕ × ℕ)
  pub value : Str
  pub compliance_categories : List Str

pub record MlDetectionOutcome : Type 0 where
  pub detections : List MlDetection
  pub coverage : SidecarCoverage

abbrev pub default_ner_chunk_chars : ℕ
default_ner_chunk_chars = 24000

abbrev pub default_ner_total_budget_ms : ℕ
default_ner_total_budget_ms = 30000

-- `MlSidecarClient`, less the HTTP client and the token. `connected` says that there are an HTTP
-- client and a circuit.
pub record MlSidecarClient : Type 0 where
  pub base_url : Str
  pub enabled : Bool
  pub connected : Bool
  pub ner_chunk_chars : ℕ
  pub ner_total_budget : ℕ

abbrev pub positive_or : Option ℕ → ℕ → ℕ
positive_or none default = default
positive_or (some v) default = if ltb 0 v then v else default

abbrev pub value_or : Option ℕ → ℕ → ℕ
value_or none default = default
value_or (some v) default = v

-- `MlSidecarClient::new`, by the two environment variables as numbers, where they are set to such.
unfoldable pub new_client :
    Str → (timeout_ms : ℕ) → (chunk_chars budget_ms : Option ℕ) → MlSidecarClient
new_client base_url timeout_ms chunk_chars budget_ms =
    let enabled =
      not (is_empty base_url)
      && (starts_with (lit "http://") base_url || starts_with (lit "https://") base_url) in
    record {
      base_url = base_url;
      enabled = enabled;
      connected = enabled;
      ner_chunk_chars = positive_or chunk_chars default_ner_chunk_chars;
      ner_total_budget = max (value_or budget_ms default_ner_total_budget_ms) timeout_ms;
    }

-- The circuit and the counters, which other tasks share.
pub record Live : Type 0 where
  pub circuit : AtomicCircuit
  pub calls_total : ℕ
  pub failures_total : ℕ
  pub circuit_open_count : ℕ
  pub saturated_total : ℕ

-- A request that was not answered, or an answer by its status and its body where it can be read.
pub data Answer (A : Type 0) : Type 0 where
  not_sent : Answer A
  responded : (status : ℕ) → (body : Option A) → Answer A

-- What the world does around the call for one chunk: what other tasks do to the circuit before, the
-- second at which it is looked at, the milliseconds since the start, the answer, what other tasks do
-- during the call, and the second at which it ends.
pub record Turn (A : Type 0) : Type 0 where
  pub before : AtomicCircuit → AtomicCircuit
  pub looked : ℕ
  pub elapsed : ℕ
  pub answer : Str → Answer A
  pub during : AtomicCircuit → AtomicCircuit
  pub ended : ℕ

abbrev pub bump : ℕ → ℕ
bump n = (n + 1) % 2 ^ 64

abbrev pub with_circuit : (AtomicCircuit → AtomicCircuit) → Live → Live
with_circuit f live = record live { circuit = f live.circuit }

abbrev pub is_client_error : ℕ → Bool
is_client_error status = leb 400 status && ltb status 500

abbrev pub is_server_error : ℕ → Bool
is_server_error status = leb 500 status && ltb status 600

-- A failed call, at this second.
unfoldable pub failure : ℕ → Live → Live
failure now live =
    let (opened, circuit) = record_failure now live.circuit in
    record live {
      circuit = circuit;
      circuit_open_count = if opened then bump live.circuit_open_count else live.circuit_open_count;
      failures_total = bump live.failures_total;
    }

unfoldable pub success : Live → Live
success live = record live {
  circuit = record_success live.circuit;
  calls_total = bump live.calls_total;
}

abbrev pub to_detection : NerEntity → MlDetection
to_detection e = record {
  class = e.entity_type;
  confidence = e.score;
  span = some (e.start, e.stop);
  value = e.text;
  compliance_categories = e.compliance_categories;
}

-- `detect_chunk`, by the answer.
unfoldable pub ended_chunk : ℕ → Answer (List NerEntity) → Live → Option (List MlDetection) × Live
ended_chunk now not_sent live = (none, failure now live)
ended_chunk now (responded status body) live =
    if nat_beq status 429
    then (none, record live { saturated_total = bump live.saturated_total })
    else if is_client_error status
    then (none, live)
    else elim body [
      | none ↦ (none, failure now live)
      | some entities ↦ (some (map to_detection entities), success live)
    ]

unfoldable pub detect_chunk : Turn (List NerEntity) → Str → Live → Option (List MlDetection) × Live
detect_chunk turn chunk live =
    ended_chunk turn.ended (turn.answer chunk) (with_circuit turn.during live)

-- The sum of two `usize` values, which wraps in a release build. (A debug build panics there.)
abbrev pub rebase_span : Option (ℕ × ℕ) → ℕ → Option (ℕ × ℕ)
rebase_span none offset = none
rebase_span (some (start, stop)) offset = some ((start + offset) % 2 ^ 64, (stop + offset) % 2 ^ 64)

abbrev pub rebased : ℕ → MlDetection → MlDetection
rebased offset d = record d { span = rebase_span d.span offset }

-- The variables of the loop.
pub record Tally : Type 0 where
  pub attempted : ℕ
  pub covered : ℕ
  pub all : List MlDetection
  pub live : Live

abbrev pub tallied : ℕ → Option (List MlDetection) × Live → Tally → Tally
tallied offset (none, live) t = record t { attempted = t.attempted + 1; live = live }
tallied offset (some dets, live) t = record t {
  attempted = t.attempted + 1;
  covered = t.covered + 1;
  all = t.all ++ map (rebased offset) dets;
  live = live;
}

-- The loop over the chunks, after so many of them.
unfoldable pub detect_on : ℕ → (ℕ → Turn (List NerEntity)) → ℕ → List (ℕ × Str) → Tally → Tally
detect_on budget turns done [] t = t
detect_on budget turns done ((offset, chunk) ∷ chunks) t =
    let turn = turns done in
    let (open_now, circuit) = is_open turn.looked (turn.before t.live.circuit) in
    let t' = record t { live = record t.live { circuit = circuit } } in
    let rest =
      detect_on budget turns (suc done) chunks
        (tallied offset (detect_chunk turn chunk t'.live) t') in
    if open_now then t' else if ltb 0 done && leb budget turn.elapsed then t' else rest

unfoldable pub classify_coverage : (attempted covered chunks_total : ℕ) → SidecarCoverage
classify_coverage attempted covered chunks_total =
    if nat_beq attempted 0
    then SidecarCoverage.absent SidecarOutage.circuit_open
    else if nat_beq covered 0
    then SidecarCoverage.absent SidecarOutage.all_calls_failed
    else if ltb covered chunks_total
    then SidecarCoverage.partial covered chunks_total
    else SidecarCoverage.complete

-- The constructors of `MlDetectionOutcome`, by the coverage.
unfoldable pub outcome_for : List MlDetection → SidecarCoverage → MlDetectionOutcome
outcome_for all SidecarCoverage.complete = record {
  detections = all;
  coverage = SidecarCoverage.complete;
}
outcome_for all (SidecarCoverage.partial covered total) = record {
  detections = all;
  coverage = SidecarCoverage.partial covered total;
}
outcome_for all (SidecarCoverage.absent reason) = record {
  detections = [];
  coverage = SidecarCoverage.absent reason;
}

unfoldable pub not_available : MlSidecarClient → SidecarCoverage
not_available client =
    SidecarCoverage.absent
      (if is_empty client.base_url then SidecarOutage.unconfigured else SidecarOutage.disabled)

abbrev pub start_tally : Live → Tally
start_tally live = record { attempted = 0; covered = 0; all = []; live = live }

-- `detect_if_available` on a prompt by its characters, from this second.
unfoldable pub detect_if_available :
    MlSidecarClient
    → (ℕ → Turn (List NerEntity))
    → (now : ℕ) → List Str
    → Live
    → MlDetectionOutcome × Live
detect_if_available client turns now prompt live =
    if not (client.connected && client.enabled)
    then (outcome_for [] (not_available client), live)
    else let (open_now, circuit) = is_open now live.circuit in
      let live' = record live { circuit = circuit } in
      let chunks = split_for_ner prompt client.ner_chunk_chars in
      let t = detect_on client.ner_total_budget turns 0 chunks (start_tally live') in
      if open_now
      then (outcome_for [] (SidecarCoverage.absent SidecarOutage.circuit_open), live')
      else (outcome_for t.all (classify_coverage t.attempted t.covered (length chunks)), t.live)
