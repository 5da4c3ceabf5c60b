-- ===== src/Policy/Matching.antt =====
-- `rule_matches` and `matching_detections`: what a rule asks of one detection, and what it then
-- redacts.
use secureprompt.Prelude.{
  ◌≡◌, refl, Bool, true, false, ◌&&◌, ◌||◌, none, some, List, [], ◌∷◌, ◌++◌, arith, inl, inr,
  if◌then◌else◌, Bool-cases, Option-cases, retain, any, all, is_empty, ◌==◌, list_keyed, nat_keyed,
}
use secureprompt.Text.{Str, lit}
use secureprompt.Types.{Detection}
use secureprompt.Policy.{Json, Regex, PolicyRuleRow, PolicyEvaluationInput}
use secureprompt.Policy.Conditions.{
  class_filter_matches, get_str, strings, is_detection_scoped, detection_test,
  matches_detection_condition, matches_condition, detection_conditions, rule_matches, Filters,
  gather, gather_one, gather_all, passes, filters_of, matching_detections,
}

any-append : (p : Str → Bool) (xs ys : List Str) → any p (xs ++ ys) ≡ (any p xs || any p ys)
any-append p [] ys = refl
any-append p (x ∷ xs) ys = ground (arith, any-append p xs ys)

is_empty-append : (xs ys : List Str) → is_empty (xs ++ ys) ≡ (is_empty xs && is_empty ys)
is_empty-append [] ys = refl
is_empty-append (x ∷ xs) ys = refl

module _ (j : Json) where
  detection_conditions_lem :
      (r : Regex) (input : PolicyEvaluationInput) (cs : List j.Value)
      → detection_conditions j r input cs ≡ (
          if all (λ c. is_detection_scoped j c || matches_condition j r c input) cs
          then some (retain (is_detection_scoped j) cs)
          else none)
  unfolding detection_conditions
  detection_conditions_lem r input [] = refl
  detection_conditions_lem r input (c ∷ cs) = ground (arith, detection_conditions_lem r input cs)

  -- A rule whose conditions are a JSON array matches exactly if every condition on the request
  -- holds, and there are no conditions on detections or one detection meets all of these at once.
  pub rule_matches_lem :
      (r : Regex) (rule : PolicyRuleRow j) (input : PolicyEvaluationInput) (cs : List j.Value)
      → j.as_array rule.conditions ≡ some cs
      → let scoped = retain (is_detection_scoped j) cs in
        rule_matches j r rule input ≡ (
          all (λ c. is_detection_scoped j c || matches_condition j r c input) cs
          && (is_empty scoped
              || any (λ d. all (λ c. matches_detection_condition j c d) scoped) input.detections))
  unfolding rule_matches
  rule_matches_lem r rule input cs h = ground (arith, h, detection_conditions_lem r input cs)

  -- The detection meets what is gathered so far.
  abbrev IsMet : Filters j → Detection → Type 0
  IsMet f d = passes j f d ≡ true

  -- The class list that one condition adds, and the classes before it.
  abbrev selects : Detection → Str → Bool
  selects d class = class_filter_matches class d.class

  passes-classes :
      (f : Filters j) (d : Detection) (more : List Str)
      → any (selects d) more ≡ true
      → IsMet f d
      → IsMet (record f { classes = f.classes ++ more }) d
  unfolding passes
  passes-classes f d more h k =
      ground (arith, any-append (selects d) f.classes more, is_empty-append f.classes more)

  gather-IsMet :
      (field operator : Str) (value : j.Value) (f : Filters j) (d : Detection)
      → detection_test j field operator value d ≡ true
      → IsMet f d
      → IsMet (gather j field operator value f) d
  unfolding detection_test gather
  gather-IsMet field operator value f d h k =
      elim (Bool-cases (field == lit "detection_class" && operator == lit "eq")) [
        | inl a ↦ elim (Option-cases (j.as_str value)) [
          | inl e ↦ ground (arith, h, a, e)
          | inr (class, e) ↦
              rw (a, e, gather) (passes-classes f d (class ∷ []) (ground (arith, h, a, e)) k)
        ]
        | inr a ↦ elim (Bool-cases (field == lit "detection_class" && operator == lit "in")) [
          | inl b ↦ elim (Option-cases (j.as_array value)) [
            | inl e ↦ ground (arith, h, a, b, e)
            | inr (values, e) ↦
                rw (a, b, e, gather)
                  (passes-classes f d (strings j values) (ground (arith, h, a, b, e)) k)
          ]
          | inr b ↦ elim (Bool-cases (field == lit "confidence_gte" && operator == lit "gte")) [
            | inl c ↦ unfold passes in ground (arith, h, a, b, c, k)
            | inr c ↦ unfold passes in ground (arith, h, a, b, c, k)
          ]
        ]
      ]

  gather_one-IsMet :
      (c : j.Value) (f : Filters j) (d : Detection)
      → (is_detection_scoped j c ≡ true → matches_detection_condition j c d ≡ true)
      → IsMet f d
      → IsMet (gather_one j c f) d
  unfolding gather_one is_detection_scoped matches_detection_condition
  gather_one-IsMet c f d h k = elim (Option-cases (get_str j c (lit "field"))) [
    | inl e ↦ rw (e, gather_one) k
    | inr (field, e) ↦ elim (Option-cases (get_str j c (lit "op"))) [
      | inl e' ↦ rw (e, e', gather_one) k
      | inr (operator, e') ↦ elim (Option-cases (j.get c (lit "value"))) [
        | inl e'' ↦ rw (e, e', e'', gather_one) k
        | inr (value, e'') ↦
            rw (e, e', e'', gather_one)
              (elim (Bool-cases (field == lit "detection_class" || field == lit "confidence_gte")) [
                | inl scoped ↦
                    gather-IsMet field operator value f d
                      (ground (arith, h (ground (arith, e, scoped)), e, e', e'')) k
                | inr other ↦ unfold gather in ground (arith, other, k)
              ])
      ]
    ]
  ]

  gather_all-IsMet :
      (cs : List j.Value) (f : Filters j) (d : Detection)
      → all (λ c. matches_detection_condition j c d) (retain (is_detection_scoped j) cs) ≡ true
      → IsMet f d
      → IsMet (gather_all j cs f) d
  unfolding gather_all
  gather_all-IsMet [] f d h k = k
  gather_all-IsMet (c ∷ cs) f d h k =
      gather_all-IsMet cs (gather_one j c f) d (ground arith)
        (gather_one-IsMet c f d (λ scoped. ground (arith, scoped, h)) k)

  filters_of-IsMet :
      (rule : PolicyRuleRow j) (cs : List j.Value) (d : Detection)
      → j.as_array rule.conditions ≡ some cs
      → all (λ c. matches_detection_condition j c d) (retain (is_detection_scoped j) cs) ≡ true
      → IsMet (filters_of j rule) d
  unfolding filters_of
  filters_of-IsMet rule cs d e h =
      rw (e, filters_of) (gather_all-IsMet cs _ d h (unfold passes in refl))

  any-filters_of :
      (rule : PolicyRuleRow j) (cs : List j.Value) (ds : List Detection)
      → j.as_array rule.conditions ≡ some cs
      → any
          (λ d. all (λ c. matches_detection_condition j c d) (retain (is_detection_scoped j) cs))
          ds
        ≡ true
      → any (passes j (filters_of j rule)) ds ≡ true
  any-filters_of rule cs [] e h = cc
  any-filters_of rule cs (d ∷ ds) e h =
      ground (arith, filters_of-IsMet rule cs d e, any-filters_of rule cs ds e)

  retain-nonempty :
      (p : Detection → Bool) (ds : List Detection)
      → any p ds ≡ true
      → is_empty (retain p ds) ≡ false
  retain-nonempty p [] h = cc
  retain-nonempty p (d ∷ ds) h = ground (arith, retain-nonempty p ds)

  -- A rule that matches and has a condition on detections selects, in `matching_detections`, at
  -- least one detection by its filters, and selects exactly those that pass them: the fallback to
  -- every detection is not used.
  pub matching_detections-rule_matches :
      (r : Regex) (rule : PolicyRuleRow j) (input : PolicyEvaluationInput) (cs : List j.Value)
      → j.as_array rule.conditions ≡ some cs
      → is_empty (retain (is_detection_scoped j) cs) ≡ false
      → rule_matches j r rule input ≡ true
      → (any (passes j (filters_of j rule)) input.detections ≡ true)
        × (matching_detections j rule input.detections
            ≡ retain (passes j (filters_of j rule)) input.detections)
  unfolding matching_detections
  matching_detections-rule_matches r rule input cs e some_scoped h =
      let passing =
        any-filters_of rule cs input.detections e
          (ground (arith, rule_matches_lem r rule input cs e, some_scoped, h)) in
      (passing, rw (retain-nonempty (passes j (filters_of j rule)) input.detections passing))
