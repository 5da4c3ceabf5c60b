-- ===== src/Policy/Classes.antt =====
-- secureprompt-api/src/policy/engine.rs, `rule_matches` on rules whose conditions on detections are all
-- on the class.
use secureprompt.Prelude.{
  ◌≡◌, ◌∙◌, refl, ap₂, Bool, true, false, ◌&&◌, ◌||◌, some, List, [], ◌∷◌, arith, retain, any, all,
  is_empty, ◌==◌, list_keyed, nat_keyed,
}
use secureprompt.Text.{Str, lit}
use secureprompt.Types.{Detection}
use secureprompt.Policy.{Json, Regex, PolicyRuleRow, PolicyEvaluationInput}
use secureprompt.Policy.Conditions.{
  class_filter_matches, get_str, strings, is_detection_scoped, detection_test,
  matches_detection_condition, matches_condition, rule_matches,
}
use secureprompt.Policy.Matching.{rule_matches_lem}

-- One of these names is the class, or is CREDIT_CARD and the class is UZCARD or HUMO.
abbrev pub covers : Str → List Str → Bool
covers class names =
    any
      (λ name.
        name == class
        || (lit "CREDIT_CARD" == name && (lit "UZCARD" == class || lit "HUMO" == class)))
      names

shared : (a b c d : Bool) → (a || ((b && c) || ((d && c) || false))) ≡ (a || (c && (b || d)))
shared a b c d = ground arith

any-covers :
    (class : Str) (names : List Str)
    → any (λ name. class_filter_matches name class) names ≡ covers class names
unfolding class_filter_matches
any-covers class [] = refl
any-covers class (n ∷ names) =
    ap₂ ◌||◌
      (shared (n == class) (lit "UZCARD" == class) (lit "CREDIT_CARD" == n) (lit "HUMO" == class))
      (any-covers class names)

any_same : {A : Type 0} (f g : A → Bool) (xs : List A) → ((x : A) → f x ≡ g x) → any f xs ≡ any g xs
any_same f g [] same = refl
any_same f g (x ∷ xs) same = ap₂ ◌||◌ (same x) (any_same f g xs same)

module _ (j : Json) where
  -- Each condition is one on the request that holds, `detection_class eq` or `detection_class in`;
  -- with the names that each of the latter lists, in order.
  pub data Naming (r : Regex) (input : PolicyEvaluationInput)
      : List j.Value → List (List Str) → Type 0 where
    none_left : Naming r input [] []
    on_request :
        (c : j.Value) (cs : List j.Value) (groups : List (List Str))
        → is_detection_scoped j c ≡ false
        → matches_condition j r c input ≡ true
        → Naming r input cs groups
        → Naming r input (c ∷ cs) groups
    is_class :
        (c value : j.Value) (class : Str) (cs : List j.Value) (groups : List (List Str))
        → get_str j c (lit "field") ≡ some (lit "detection_class")
        → get_str j c (lit "op") ≡ some (lit "eq")
        → j.get c (lit "value") ≡ some value
        → j.as_str value ≡ some class
        → Naming r input cs groups
        → Naming r input (c ∷ cs) ((class ∷ []) ∷ groups)
    in_classes :
        (c value : j.Value) (values cs : List j.Value) (groups : List (List Str))
        → get_str j c (lit "field") ≡ some (lit "detection_class")
        → get_str j c (lit "op") ≡ some (lit "in")
        → j.get c (lit "value") ≡ some value
        → j.as_array value ≡ some values
        → Naming r input cs groups
        → Naming r input (c ∷ cs) (strings j values ∷ groups)

  scoped_class :
      (c : j.Value)
      → get_str j c (lit "field") ≡ some (lit "detection_class")
      → is_detection_scoped j c ≡ true
  unfolding is_detection_scoped
  scoped_class c f = rw f

  matches_eq :
      (c value : j.Value) (class : Str) (d : Detection)
      → get_str j c (lit "field") ≡ some (lit "detection_class")
      → get_str j c (lit "op") ≡ some (lit "eq")
      → j.get c (lit "value") ≡ some value
      → j.as_str value ≡ some class
      → matches_detection_condition j c d ≡ class_filter_matches class d.class
  unfolding matches_detection_condition detection_test
  matches_eq c value class d f o v s = rw (f, o, v, s)

  matches_in :
      (c value : j.Value) (values : List j.Value) (d : Detection)
      → get_str j c (lit "field") ≡ some (lit "detection_class")
      → get_str j c (lit "op") ≡ some (lit "in")
      → j.get c (lit "value") ≡ some value
      → j.as_array value ≡ some values
      → matches_detection_condition j c d
        ≡ any (λ candidate. class_filter_matches candidate d.class) (strings j values)
  unfolding matches_detection_condition detection_test
  matches_in c value values d f o v s = rw (f, o, v, s)

  Naming-holds :
      (r : Regex) (input : PolicyEvaluationInput) {cs : List j.Value} {groups : List (List Str)}
      → Naming r input cs groups
      → (all (λ c. is_detection_scoped j c || matches_condition j r c input) cs ≡ true)
        × (is_empty (retain (is_detection_scoped j) cs) ≡ is_empty groups)
  Naming-holds r input none_left = (refl, refl)
  Naming-holds r input (on_request c cs groups unscoped holds rest) =
      let (held, same) = Naming-holds r input rest in
      (ground (arith, unscoped, holds, held), ground (arith, unscoped, same))
  Naming-holds r input (is_class c value class cs rest_groups f o v s rest) =
      let (held, same) = Naming-holds r input rest in
      (ground (arith, scoped_class c f, held), ground (arith, scoped_class c f))
  Naming-holds r input (in_classes c value values cs rest_groups f o v s rest) =
      let (held, same) = Naming-holds r input rest in
      (ground (arith, scoped_class c f, held), ground (arith, scoped_class c f))

  Naming-covers :
      (r : Regex) (input : PolicyEvaluationInput) {cs : List j.Value} {groups : List (List Str)}
      (d : Detection)
      → Naming r input cs groups
      → all (λ c. matches_detection_condition j c d) (retain (is_detection_scoped j) cs)
        ≡ all (covers d.class) groups
  Naming-covers r input d none_left = refl
  Naming-covers r input d (on_request c cs groups unscoped holds rest) =
      rw unscoped (Naming-covers r input d rest)
  Naming-covers r input d (is_class c value class cs more f o v s rest) = rw (scoped_class c f) (
      ap₂ ◌&&◌
        (matches_eq c value class d f o v s
          ∙ one_name (class_filter_matches class d.class)
          ∙ any-covers d.class (class ∷ []))
        (Naming-covers r input d rest))
    where
      one_name : (b : Bool) → b ≡ (b || false)
      one_name b = ground arith
  Naming-covers r input d (in_classes c value values cs more f o v s rest) = rw (scoped_class c f) (
      ap₂ ◌&&◌ (matches_in c value values d f o v s ∙ any-covers d.class (strings j values))
        (Naming-covers r input d rest))

  -- A rule whose conditions on detections are all on the class, by `eq` or `in`, and whose conditions
  -- on the request hold, matches exactly if it has no condition on detections, or the class of one
  -- detection is covered by every one of these conditions, however many there are: the condition
  -- names the class, or it names CREDIT_CARD and the class is UZCARD or HUMO.
  pub rule_matches_classes :
      (r : Regex) (rule : PolicyRuleRow j) (input : PolicyEvaluationInput) (cs : List j.Value)
      (groups : List (List Str))
      → j.as_array rule.conditions ≡ some cs
      → Naming r input cs groups
      → rule_matches j r rule input
        ≡ (is_empty groups || any (λ d. all (covers d.class) groups) input.detections)
  rule_matches_classes r rule input cs groups e n =
      let (held, same) = Naming-holds r input n in
      rule_matches_lem j r rule input cs e
      ∙ ap₂ ◌&&◌ held
          (ap₂ ◌||◌ same (any_same _ _ input.detections (λ d. Naming-covers r input d n)))
