-- ===== src/Pipeline/Safety.antt =====
-- secureprompt-api/src/pipeline/service.rs, `prepare`: what holds of a request that is let through to
-- the provider.
use secureprompt.Prelude.{
  ◌≡◌, ◌∙◌, inl, inr, refl, sym, ap, ap₂, subst, true, Option, none, List, [], nat_keyed,
  list_keyed,
}
use secureprompt.Text.{Str}
use secureprompt.Types.{Float, ok}
use secureprompt.Vault.{Casing, apply_redaction}
use secureprompt.Policy.{Json, Regex, PolicyRuleRow}
use secureprompt.Policy.Engine.{PolicyEvaluationOutcome}
use secureprompt.Policy.Outcome.{evaluate_unprotected}
use secureprompt.Pipeline.{SecureModeRow}
use secureprompt.Pipeline.Coverage.{CoverageLoss, SidecarUnavailablePolicy}
use secureprompt.Pipeline.Secure.{Settled, apply_fallback_redaction}
use secureprompt.Pipeline.Net.{IsRedacted, fallback-IsRedacted}
use secureprompt.Pipeline.Levels.{override-IsRedacted}
use secureprompt.Pipeline.Prepare.{
  GatewayConfig, GatewayRequest, Calls, Prepared, evaluation_input, secured, concluded, prepare,
}
use secureprompt.Pipeline.Stages.{
  prepare-Passed, ok_inj, prompt, vault, fresh_state, decides, concluded-Through, secured-Cases,
  evaluated_lem, evaluation_input-content,
}

module _ (j : Json) (u : Casing) (show_score : Float → Str) (r : Regex) (config : GatewayConfig)
    (calls : Calls j) (request : GatewayRequest) where
  -- What `prepare` leaves of a prompt that no rule protects.
  module _ (rows : List (PolicyRuleRow j)) (listed : calls.rules ≡ ok rows)
      (net : config.redact_when_no_rules ≡ true) where
    after-IsRedacted :
        (p : Prepared) (mode : SecureModeRow) (policy : SidecarUnavailablePolicy)
        (degraded : Option CoverageLoss) (o : PolicyEvaluationOutcome)
        (q : Option CoverageLoss × Settled)
        → o.content ≡ (prompt j u show_score r config calls request)
        → o.unprotected ≡ true
        → secured j u show_score r config calls request mode policy degraded (
          o,
          fresh_state j u show_score r config calls request
              (vault j u show_score r config calls request)
              [],
        )
          ≡ ok q
        → concluded j u show_score r config calls request mode q ≡ ok p
        → IsRedacted u
            (prompt j u show_score r config calls request)
            (calls.detections (prompt j u show_score r config calls request))
            (vault j u show_score r config calls request)
            (p.policy_outcome, p.pipeline_state)
    after-IsRedacted p mode policy degraded o (reason, s) content_is unprotected over through =
        elim (secured-Cases j u show_score r config calls request mode policy degraded
          (
            o,
            fresh_state j u show_score r config calls request
                (vault j u show_score r config calls request) [],
          )
          (reason, s) over) [
            | inl (off, same) ↦
                carry
                  (
                    o,
                    fresh_state j u show_score r config calls request
                        (vault j u show_score r config calls request) [],
                  )
                  (ap (λ (x : Option CoverageLoss × Settled). x.1) same)
                  (fallback-IsRedacted u config.chat_debug_mode o
                    (fresh_state j u show_score r config calls request
                      (vault j u show_score r config calls request) [])
                    unprotected refl)
            | inr (so, gate, same) ↦ carry _ same (
                override-IsRedacted u config.chat_debug_mode show_score mode
                  (calls.injection (prompt j u show_score r config calls request)) o
                  (fresh_state j u show_score r config calls request
                    (vault j u show_score r config calls request) [])
                  unprotected refl)
          ]
      where
        carry :
            (s' : Settled)
            → s ≡ s'
            → IsRedacted u
                (o.content)
                (calls.detections (prompt j u show_score r config calls request))
                (vault j u show_score r config calls request)
                (apply_fallback_redaction u config.chat_debug_mode true s')
            → IsRedacted u
                (prompt j u show_score r config calls request)
                (calls.detections (prompt j u show_score r config calls request))
                (vault j u show_score r config calls request)
                (p.policy_outcome, p.pipeline_state)
        carry s' same h =
            let (low, outcome_is, state_is, reason_is) =
              concluded-Through j u show_score r config calls request mode reason s p through in
            let whole : ◌≡◌ {A = Settled} (p.policy_outcome, p.pipeline_state)
                (apply_fallback_redaction u config.chat_debug_mode config.redact_when_no_rules s) =
              λ i. (outcome_is i, state_is i) in
            let settled =
              ap₂ (λ b x. apply_fallback_redaction u config.chat_debug_mode b x) net same in
            subst
              (λ c.
                IsRedacted u c (calls.detections (prompt j u show_score r config calls request))
                  (vault j u show_score r config calls request)
                  (p.policy_outcome, p.pipeline_state))
              content_is
              (subst
                (IsRedacted u (o.content)
                  (calls.detections (prompt j u show_score r config calls request))
                  (vault j u show_score r config calls request))
                (sym (whole ∙ settled)) h)

    -- If no enabled rule that matches is live with a known action, and a request is let through
    -- where `redact_when_no_rules` is set, then what goes on to the provider is the prompt without
    -- markers, redacted once for every detection, whatever the secure mode is, and the vault and
    -- the map are those of that redaction.
    pub prepare_unprotected :
        (p : Prepared)
        → decides j u show_score r config calls request rows ≡ none
        → prepare j u show_score r config calls request ≡ ok p
        → let redaction =
            apply_redaction u
              (prompt j u show_score r config calls request)
              (calls.detections (prompt j u show_score r config calls request))
              (vault j u show_score r config calls request)
              [] in
          (p.policy_outcome.content ≡ redaction.content)
          × (p.pipeline_state.vault ≡ redaction.vault)
          × (p.pipeline_state.redaction_map ≡ redaction.redaction_map)
    prepare_unprotected p idle h =
        let passed = prepare-Passed j u show_score r config calls request p h in
        let (o, run, content, denied, unprotected) =
          evaluate_unprotected j u (evaluation_input j u show_score r config calls request) r rows
            (vault j u show_score r config calls request) [] idle in
        let same = ok_inj _ _ (
          sym (passed.rules_run)
          ∙ evaluated_lem j u show_score r config calls request rows o
              (vault j u show_score r config calls request) [] listed run) in
        let redacted =
          after-IsRedacted p passed.mode passed.policy passed.degraded o passed.overridden
            (content ∙ evaluation_input-content j u show_score r config calls request) unprotected
            (ap
                (λ s.
                  secured j u show_score r config calls request passed.mode passed.policy
                    passed.degraded s)
                same
              ∙ passed.mode_passed)
            passed.let_through in
        (redacted.content_is, redacted.vault_is, redacted.map_is)
