-- ===== src/Sidecar/Tests.antt =====
-- The client on a prompt of three characters, in chunks of two, with a sidecar that finds one name.
use secureprompt.Prelude.{ℕ, ◌≡◌, refl, true, false, some, List, [], ◌∷◌, max, arith}
use secureprompt.Text.{Str, lit}
use secureprompt.Types.{Float}
use secureprompt.Pipeline.Coverage.{SidecarCoverage}
use secureprompt.Sidecar.Breaker.{
  new_circuit, Event, looks, succeeds, fails, run, closed, steps, is_blocking, is_open, torn,
  is_open-run, is_open-torn,
}
use secureprompt.Sidecar.Split.{
  Tiling, split_for_ner, split_chunks, cut_of, walk_back, split_for_ner-tiles,
}
use secureprompt.Sidecar.Detect.{
  NerEntity, MlDetection, MlSidecarClient, Live, Answer, Turn, detect_if_available, to_detection,
  rebased,
}
use secureprompt.Sidecar.Answered.{heard_all, detect_if_available-heard_all}
use secureprompt.Sidecar.Healthy.{IsCalm, detect_if_available-complete}

abbrev outage : List Event
outage = fails 10 ∷ succeeds ∷ fails 11 ∷ fails 12 ∷ fails 13 ∷ fails 14 ∷ fails 15 ∷ looks 20 ∷ []

is_open-run_example :
    (is_open 44 (run outage new_circuit)).0 ≡ is_blocking 44 (steps outage (closed 0))
is_open-run_example =
    is_open-run outage 44
      (
        omega arith,
        (tt, (omega arith, (omega arith, (omega arith, (omega arith, (omega arith, (tt, tt))))))),
      )
      (omega arith)

blocked_at_44 : is_blocking 44 (steps outage (closed 0)) ≡ true
blocked_at_44 = refl

lapsed_at_45 : is_blocking 45 (steps outage (closed 0)) ≡ false
lapsed_at_45 = refl

is_open-torn_example :
    (is_open 20 (run (fails 15 ∷ fails 16 ∷ looks 17 ∷ []) (torn 10 11 12 13 14 new_circuit))).0
    ≡ false
is_open-torn_example =
    is_open-torn 10 11 12 13 14 new_circuit (fails 15 ∷ fails 16 ∷ looks 17 ∷ []) 20 tt
      (omega arith)

-- "a é" with a space between, and an accent of two bytes.
abbrev prompt : List Str
prompt = lit "a" ∷ lit " " ∷ (195 ∷ 169 ∷ []) ∷ []

split_for_ner-tiles_example : Tiling (max 2 1) 0 prompt (split_for_ner prompt 2)
split_for_ner-tiles_example = split_for_ner-tiles prompt 2 (omega arith)

split_prompt : split_for_ner prompt 2 ≡ (0, lit "a ") ∷ (2, 195 ∷ 169 ∷ []) ∷ []
unfolding split_for_ner split_chunks cut_of walk_back
split_prompt = refl

abbrev entity : NerEntity
entity = record {
  entity_type = lit "PERSON";
  score = Float.finite false 0;
  start = 0;
  stop = 1;
  text = lit "a";
  compliance_categories = [];
}

abbrev turns : ℕ → Turn (List NerEntity)
turns k = record {
  before = λ c. new_circuit;
  looked = 100;
  elapsed = 5;
  answer = λ chunk. Answer.responded 200 (some (entity ∷ []));
  during = λ c. c;
  ended = 101;
}

abbrev client : MlSidecarClient
client = record {
  base_url = lit "http://ml";
  enabled = true;
  connected = true;
  ner_chunk_chars = 2;
  ner_total_budget = 30000;
}

abbrev idle : Live
idle = record {
  circuit = new_circuit;
  calls_total = 0;
  failures_total = 0;
  circuit_open_count = 0;
  saturated_total = 0;
}

abbrev found : List MlDetection
found = rebased 0 (to_detection entity) ∷ rebased 2 (to_detection entity) ∷ []

gathered : heard_all turns 0 (split_for_ner prompt 2) ≡ some found
unfolding split_for_ner split_chunks cut_of walk_back
gathered = refl

turns-IsCalm : IsCalm 30000 turns
unfolding is_open
turns-IsCalm = record { shut = λ k c. refl; timely = λ k. omega arith }

look_first : (is_open 100 new_circuit).0 ≡ false
unfolding is_open
look_first = refl

detect_if_available-complete_example :
    ((detect_if_available client turns 100 prompt idle).0.coverage ≡ SidecarCoverage.complete)
    × ((detect_if_available client turns 100 prompt idle).0.detections ≡ found)
detect_if_available-complete_example =
    detect_if_available-complete client turns 100 prompt idle found refl refl look_first
      turns-IsCalm gathered

detect_if_available-heard_all_example :
    heard_all turns 0 (split_for_ner prompt 2)
    ≡ some (detect_if_available client turns 100 prompt idle).0.detections
detect_if_available-heard_all_example =
    detect_if_available-heard_all client turns 100 prompt idle
      detect_if_available-complete_example.0
