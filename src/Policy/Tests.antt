-- ===== src/Policy/Tests.antt =====
-- The policy engine at concrete rules: JSON as a tree, and a regular expression that is a prefix.
use secureprompt.Prelude.{
  ◌≡◌, refl, true, false, Option, none, some, List, [], ◌∷◌, map, ◌==◌, list_keyed, nat_keyed,
  if◌then◌else◌, any, all, retain, length,
}
use secureprompt.Text.{Str, lit, starts_with}
use secureprompt.Types.{Float, Detection, ok}
use secureprompt.Vault.{apply_redaction}
use secureprompt.Vault.Examples.{ascii, detected}
use secureprompt.Policy.{Json, Regex, PolicyRuleRow, PolicyEvaluationInput}
use secureprompt.Policy.Conditions.{
  class_filter_matches, get_str, strings, is_detection_scoped, detection_test,
  matches_detection_condition, detection_conditions, rule_matches, passes, filters_of,
  matching_detections,
}
use secureprompt.Policy.Engine.{
  evaluate, list_enabled_rules, run_rules, fire, act, from_rule, PolicyEvaluationOutcome,
}
use secureprompt.Policy.Deciding.{deciding, visited}
use secureprompt.Policy.Matching.{matching_detections-rule_matches}
use secureprompt.Policy.Classes.{
  covers, Naming, none_left, is_class, in_classes, rule_matches_classes,
}
use secureprompt.Policy.Outcome.{
  evaluate_outcome, evaluate_fail_closed, denies, is_none, enabled_rules,
}

mutual
  data Tree : Type 0 where
    null : Tree
    string : Str → Tree
    number : Float → Tree
    array : Items → Tree
    object : Fields → Tree

  data Items : Type 0 where
    nil : Items
    cons : Tree → Items → Items

  data Fields : Type 0 where
    end : Fields
    field : Str → Tree → Fields → Fields

items : Items → List Tree
items nil = []
items (cons v vs) = v ∷ items vs

find_field : Str → Fields → Option Tree
find_field k end = none
find_field k (field n v fs) = if n == k then some v else find_field k fs

tree_get : Tree → Str → Option Tree
unfolding find_field
tree_get (object fs) k = find_field k fs
tree_get t k = none

tree_str : Tree → Option Str
tree_str (string s) = some s
tree_str t = none

tree_array : Tree → Option (List Tree)
unfolding items
tree_array (array vs) = some (items vs)
tree_array t = none

tree_f64 : Tree → Option Float
tree_f64 (number x) = some x
tree_f64 t = none

abbrev json : Json
json = record {
  Value = Tree;
  get = tree_get;
  as_str = tree_str;
  as_array = tree_array;
  as_f64 = tree_f64;
}

abbrev prefixes : Regex
prefixes = record { is_match = λ pattern text. some (starts_with pattern text) }

abbrev condition : Str → Str → Tree → Tree
condition f op v =
    object
      (field (lit "field") (string f) (field (lit "op") (string op) (field (lit "value") v end)))

abbrev class_is : Str → Tree
class_is c = condition (lit "detection_class") (lit "eq") (string c)

abbrev rule : Items → Str → PolicyRuleRow json
rule cs action = record {
  id = 7;
  name = lit "cards";
  conditions = array cs;
  action = action;
  action_params = null;
  enabled = true;
  dry_run = false;
}

abbrev card : Detection
card = detected (lit "UZCARD") 0 16 (lit "8600123412341234")

abbrev input : PolicyEvaluationInput
input = record {
  request_id = 1;
  workspace_id = 2;
  provider_name = lit "openai";
  model = lit "gpt";
  content = lit "8600123412341234";
  detections = card ∷ [];
  fail_closed = true;
}

abbrev classes_are : Items → Tree
classes_are cs = condition (lit "detection_class") (lit "in") (array cs)

abbrev local_cards : Items
local_cards = cons (string (lit "HUMO")) (cons (string (lit "UZCARD")) nil)

-- A `detection_class eq CREDIT_CARD` and a `detection_class in [HUMO, UZCARD]` condition.
abbrev two_classes : Items
two_classes = cons (class_is (lit "CREDIT_CARD")) (cons (classes_are local_cards) nil)

abbrev two_groups : List (List Str)
two_groups = (lit "CREDIT_CARD" ∷ []) ∷ (lit "HUMO" ∷ lit "UZCARD" ∷ []) ∷ []

two_classes-Naming :
    Naming json prefixes input (class_is (lit "CREDIT_CARD") ∷ classes_are local_cards ∷ []) (
      (lit "CREDIT_CARD" ∷ [])
      ∷ strings json (string (lit "HUMO") ∷ string (lit "UZCARD") ∷ [])
      ∷ [])
unfolding get_str tree_get tree_str tree_array
two_classes-Naming =
    is_class (class_is (lit "CREDIT_CARD")) (string (lit "CREDIT_CARD")) (lit "CREDIT_CARD")
      (classes_are local_cards ∷ [])
      (strings json (string (lit "HUMO") ∷ string (lit "UZCARD") ∷ []) ∷ []) refl refl refl refl
      (in_classes (classes_are local_cards) (array local_cards)
        (string (lit "HUMO") ∷ string (lit "UZCARD") ∷ []) [] [] refl refl refl refl none_left)

rule_matches_classes_example :
    rule_matches json prefixes (rule two_classes (lit "deny")) input
    ≡ any (λ (d : Detection). all (covers d.class) two_groups) input.detections
unfolding tree_array strings tree_str
rule_matches_classes_example =
    rule_matches_classes json prefixes (rule two_classes (lit "deny")) input
      (class_is (lit "CREDIT_CARD") ∷ classes_are local_cards ∷ []) two_groups refl
      two_classes-Naming

-- The rule matches the one card of the input.
two_classes_match : any (λ (d : Detection). all (covers d.class) two_groups) input.detections ≡ true
two_classes_match = refl

abbrev card_rule : Str → PolicyRuleRow json
card_rule action = rule (cons (class_is (lit "CREDIT_CARD")) nil) action

card_rule_matches : (action : Str) → rule_matches json prefixes (card_rule action) input ≡ true
unfolding rule_matches detection_conditions tree_array is_detection_scoped get_str tree_get tree_str
    matches_detection_condition detection_test class_filter_matches
card_rule_matches action = refl

matching_detections-rule_matches_example :
    (any (passes json (filters_of json (card_rule (lit "redact")))) input.detections ≡ true)
    × (matching_detections json (card_rule (lit "redact")) input.detections
        ≡ retain (passes json (filters_of json (card_rule (lit "redact")))) input.detections)
unfolding tree_array is_detection_scoped get_str tree_get tree_str matches_detection_condition
    detection_test class_filter_matches
matching_detections-rule_matches_example =
    matching_detections-rule_matches json prefixes (card_rule (lit "redact")) input
      (class_is (lit "CREDIT_CARD") ∷ []) refl refl (card_rule_matches (lit "redact"))

decides :
    deciding json ascii input prefixes (card_rule (lit "redact") ∷ [])
    ≡ some (card_rule (lit "redact"))
unfolding deciding
decides = rw (card_rule_matches (lit "redact")) refl

evaluate_fail_closed_example :
    let redaction = apply_redaction ascii input.content input.detections [] [] in
    (o : PolicyEvaluationOutcome) × (evaluate json ascii input prefixes
        (ok (card_rule (lit "redact") ∷ []))
        []
        []
      ≡ ok (o, redaction.vault, redaction.redaction_map))
    × (o.content ≡ redaction.content)
    × (o.denied ≡ false)
    × (o.unprotected ≡ false)
evaluate_fail_closed_example =
    evaluate_fail_closed json ascii input prefixes (card_rule (lit "redact") ∷ [])
      (card_rule (lit "redact")) [] [] refl decides refl

undecided : deciding json ascii input prefixes (card_rule (lit "redakt") ∷ []) ≡ none
unfolding deciding
undecided = rw (card_rule_matches (lit "redakt")) refl

abbrev refused : PolicyEvaluationOutcome
refused = record {
  content = input.content;
  result = record {
    final_action = lit "deny";
    events = from_rule json (card_rule (lit "deny")) ∷ [];
  };
  denied = true;
  rules_evaluated = 1;
  unprotected = false;
}

refuses :
    evaluate json ascii input prefixes (ok (card_rule (lit "deny") ∷ [])) [] []
    ≡ ok (refused, [], [])
unfolding evaluate list_enabled_rules run_rules fire act
refuses = rw (card_rule_matches (lit "deny")) refl

evaluate_outcome_example :
    let q =
      deciding json ascii input prefixes
        (enabled_rules json ascii input prefixes (card_rule (lit "deny") ∷ [])) in
    (refused.denied ≡ denies json ascii input prefixes q)
    × (refused.unprotected ≡ is_none q)
    × (refused.result.events
        ≡ map (from_rule json) (
            visited json ascii input prefixes
              (enabled_rules json ascii input prefixes (card_rule (lit "deny") ∷ []))))
    × (refused.rules_evaluated
        ≡ length (enabled_rules json ascii input prefixes (card_rule (lit "deny") ∷ [])))
evaluate_outcome_example =
    evaluate_outcome json ascii input prefixes (card_rule (lit "deny") ∷ []) [] [] [] [] refused
      refuses
