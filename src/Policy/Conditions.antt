-- ===== src/Policy/Conditions.antt =====
-- secureprompt-api/src/policy/engine.rs: conditions, `rule_matches` and `matching_detections`.
use secureprompt.Prelude.{
  Bool, true, false, not, ◌&&◌, ◌||◌, Option, none, some, List, [], ◌∷◌, ◌++◌, if◌then◌else◌, any,
  all, retain, is_empty, ◌==◌, list_keyed, nat_keyed,
}
use mathlib.Core.Option
use secureprompt.Text.{Str, lit}
use secureprompt.Types.{Float, float_ge, Detection}
use secureprompt.Policy.{Json, Regex, PolicyRuleRow, PolicyEvaluationInput}

-- `GENERIC_CLASS_FOR`, as pairs (specific, generic)
abbrev pub generic_class_for : List (Str × Str)
generic_class_for = (lit "UZCARD", lit "CREDIT_CARD") ∷ (lit "HUMO", lit "CREDIT_CARD") ∷ []

unfoldable pub class_filter_matches : Str → Str → Bool
class_filter_matches filter detection_class =
    filter == detection_class
    || any (λ (p : Str × Str). p.0 == detection_class && p.1 == filter) generic_class_for

-- `is_some_and`
abbrev pub is_some_and {ℓ} : {A : Type ℓ} → Option A → (A → Bool) → Bool
is_some_and none p = false
is_some_and (some a) p = p a

-- `is_none_or`
abbrev pub is_none_or {ℓ} : {A : Type ℓ} → Option A → (A → Bool) → Bool
is_none_or none p = true
is_none_or (some a) p = p a

module _ (j : Json) where
  -- `condition.get(name).and_then(Value::as_str)`
  unfoldable pub get_str : j.Value → Str → Option Str
  get_str condition name = elim (j.get condition name) [ none ↦ none | some v ↦ j.as_str v ]

  -- `values.iter().filter_map(Value::as_str)`
  unfoldable pub strings : List j.Value → List Str
  strings [] = []
  strings (v ∷ vs) = let rest = strings vs in elim (j.as_str v) [ none ↦ rest | some s ↦ s ∷ rest ]

  unfoldable pub is_detection_scoped : j.Value → Bool
  is_detection_scoped condition =
      is_some_and (get_str condition (lit "field"))
        (λ field. field == lit "detection_class" || field == lit "confidence_gte")

  -- The arms of `matches_detection_condition`.
  unfoldable pub detection_test : Str → Str → j.Value → Detection → Bool
  detection_test field operator value d =
      if field == lit "detection_class" && operator == lit "eq"
      then is_some_and (j.as_str value) (λ filter. class_filter_matches filter d.class)
      else if field == lit "detection_class" && operator == lit "in"
      then is_some_and (j.as_array value)
          (λ values. any (λ candidate. class_filter_matches candidate d.class) (strings values))
      else if field == lit "confidence_gte" && operator == lit "gte"
      then is_some_and (j.as_f64 value) (λ threshold. float_ge d.confidence threshold)
      else if field == lit "confidence_gte" && operator == lit "lte"
      then is_some_and (j.as_f64 value) (λ threshold. float_ge threshold d.confidence)
      else false

  unfoldable pub matches_detection_condition : j.Value → Detection → Bool
  matches_detection_condition condition d = is_some_and (get_str condition (lit "field")) (λ field.
      is_some_and (get_str condition (lit "op")) (λ operator.
        is_some_and (j.get condition (lit "value"))
          (λ value. detection_test field operator value d)))

  -- The arms of `matches_condition`. A pattern that does not compile is not satisfied.
  unfoldable pub request_test : Regex → Str → Str → j.Value → PolicyEvaluationInput → Bool
  request_test r field operator value input =
      if field == lit "provider" && operator == lit "eq"
      then is_some_and (j.as_str value) (λ s. s == input.provider_name)
      else if field == lit "provider" && operator == lit "in"
      then is_some_and (j.as_array value)
          (λ values. any (λ candidate. candidate == input.provider_name) (strings values))
      else if field == lit "model" && operator == lit "eq"
      then is_some_and (j.as_str value) (λ s. s == input.model)
      else if field == lit "model" && operator == lit "in"
      then is_some_and (j.as_array value)
          (λ values. any (λ candidate. candidate == input.model) (strings values))
      else if field == lit "content_regex" && operator == lit "matches"
      then is_some_and (j.as_str value)
          (λ pattern. is_some_and (r.is_match pattern input.content) (λ found. found))
      else false

  unfoldable pub matches_condition : Regex → j.Value → PolicyEvaluationInput → Bool
  matches_condition r condition input = is_some_and (get_str condition (lit "field")) (λ field.
      is_some_and (get_str condition (lit "op")) (λ operator.
        is_some_and (j.get condition (lit "value"))
          (λ value. request_test r field operator value input)))

  -- The first loop of `rule_matches`: the detection-scoped conditions, or `none` at the first
  -- other condition that fails.
  unfoldable pub detection_conditions :
      Regex → PolicyEvaluationInput → List j.Value → Option (List j.Value)
  detection_conditions r input [] = some []
  detection_conditions r input (c ∷ cs) =
      let rest = detection_conditions r input cs in
      if is_detection_scoped c
      then Option.map (λ ds. c ∷ ds) rest
      else if not (matches_condition r c input)
      then none
      else rest

  unfoldable pub rule_matches : Regex → PolicyRuleRow j → PolicyEvaluationInput → Bool
  rule_matches r rule input = elim (j.as_array rule.conditions) [
    | none ↦ true
    | some conditions ↦ is_some_and (detection_conditions r input conditions) (λ ds.
        is_empty ds || any (λ d. all (λ c. matches_detection_condition c d) ds) input.detections)
  ]

  -- What the loop of `matching_detections` gathers.
  pub record Filters : Type 0 where
    pub classes : List Str
    pub confidence_gte : Option Float
    pub confidence_lte : Option Float

  unfoldable pub gather : Str → Str → j.Value → Filters → Filters
  gather field operator value f =
      if field == lit "detection_class" && operator == lit "eq"
      then elim (j.as_str value) [
        | none ↦ f
        | some class ↦ record f { classes = f.classes ++ class ∷ [] }
      ]
      else if field == lit "detection_class" && operator == lit "in"
      then elim (j.as_array value) [
        | none ↦ f
        | some values ↦ record f { classes = f.classes ++ strings values }
      ]
      else if field == lit "confidence_gte" && operator == lit "gte"
      then record f { confidence_gte = j.as_f64 value }
      else if field == lit "confidence_gte" && operator == lit "lte"
      then record f { confidence_lte = j.as_f64 value }
      else f

  -- One turn of that loop: a condition that lacks a part leaves the filters.
  unfoldable pub gather_one : j.Value → Filters → Filters
  gather_one condition f = elim (get_str condition (lit "field")) [
    | none ↦ f
    | some field ↦ elim (get_str condition (lit "op")) [
      | none ↦ f
      | some operator ↦ elim (j.get condition (lit "value")) [
        | none ↦ f
        | some value ↦ gather field operator value f
      ]
    ]
  ]

  unfoldable pub gather_all : List j.Value → Filters → Filters
  gather_all [] f = f
  gather_all (c ∷ cs) f = gather_all cs (gather_one c f)

  unfoldable pub passes : Filters → Detection → Bool
  passes f d =
      ((is_empty f.classes || any (λ class. class_filter_matches class d.class) f.classes)
        && is_none_or f.confidence_gte (λ threshold. float_ge d.confidence threshold))
      && is_none_or f.confidence_lte (λ threshold. float_ge threshold d.confidence)

  unfoldable pub filters_of : PolicyRuleRow j → Filters
  filters_of rule =
      let start : Filters = record { classes = []; confidence_gte = none; confidence_lte = none } in
      elim (j.as_array rule.conditions) [ none ↦ start | some cs ↦ gather_all cs start ]

  -- An empty selection falls back to every detection.
  unfoldable pub matching_detections : PolicyRuleRow j → List Detection → List Detection
  matching_detections rule detections =
      let filtered = retain (passes (filters_of rule)) detections in
      if is_empty filtered then detections else filtered
