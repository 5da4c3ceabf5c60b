-- ===== src/Pipeline/Levels.antt =====
-- secureprompt-api/src/pipeline/service.rs: the safety net behind each level of the secure mode.
use secureprompt.Prelude.{
  inl, inr, ◌≡◌, ◌∙◌, sym, ap, subst, Bool, true, false, not, ◌&&◌, List, [], ◌==◌, arith,
  Bool-cases, is_empty, nat_keyed, list_keyed,
}
use secureprompt.Text.{Str, lit}
use secureprompt.Types.{Float, Detection}
use secureprompt.Vault.{Casing, Redaction}
use secureprompt.Vault.Idle.{apply_redaction-idle}
use secureprompt.Policy.Engine.{PolicyEvaluationOutcome}
use secureprompt.Pipeline.{PipelineState, SecureModeRow, InjectionResponse}
use secureprompt.Pipeline.Secure.{
  Settled, allow_to_redact, redact_with, permissive, strict, toggles, standard_net,
  apply_secure_mode_override, apply_fallback_redaction,
}
use secureprompt.Pipeline.Net.{
  IsRedacted-Keeps, Keeps_trans, IsRedacted, Keeps, allow_to_redact-Keeps, fallback-IsRedacted,
  permissive-Keeps, redact_with-IsRedacted, strict-Keeps, toggles-Keeps,
}

module _ (u : Casing) (debug : Bool) where
  fallback-Keeps :
      (o o' : PolicyEvaluationOutcome) (s : PipelineState)
      → Keeps o o'
      → o.unprotected ≡ true
      → s.redaction_map ≡ []
      → IsRedacted u
          (o.content)
          (s.detections)
          (s.vault)
          (apply_fallback_redaction u debug true (o', s))
  fallback-Keeps o o' s kept open_yet none_yet =
      subst
        (λ c.
          IsRedacted u c (s.detections) (s.vault) (apply_fallback_redaction u debug true (o', s)))
        (kept.content) (fallback-IsRedacted u debug o' s (kept.unprotected ∙ open_yet) none_yet)

  -- What is redacted already stays as it is.
  fallback-kept :
      (o : PolicyEvaluationOutcome) (s : PipelineState)
      → is_empty (s.redaction_map) ≡ false
      → apply_fallback_redaction u debug true (o, s) ≡ (o, s)
  unfolding apply_fallback_redaction
  fallback-kept o s h = ground (arith, h)

  redact_with-idle :
      (ds : List Detection) (o : PolicyEvaluationOutcome) (s : PipelineState)
      → is_empty ((redact_with u ds (o, s)).1.redaction_map) ≡ true
      → redact_with u ds (o, s) ≡ (allow_to_redact o, s)
  unfolding redact_with
  redact_with-idle ds o s h =
      let same = apply_redaction-idle u (o.content) ds (s.vault) (s.redaction_map) h in
      ap
        (λ (r : Redaction). (
          allow_to_redact (record o { content = r.content }),
          record s { vault = r.vault; redaction_map = r.redaction_map },
        ))
        same

  module _ (show_score : Float → Str) (config : SecureModeRow) (i : InjectionResponse) where
    unfoldable after_toggles : List Detection → Settled → Settled
    unfolding apply_fallback_redaction toggles
    after_toggles ds q =
        apply_fallback_redaction u debug true (toggles show_score config ds i (q.0), q.1)

    after_toggles-redact_with :
        (o : PolicyEvaluationOutcome) (s : PipelineState)
        → o.unprotected ≡ true
        → s.redaction_map ≡ []
        → IsRedacted u
            (o.content)
            (s.detections)
            (s.vault)
            (after_toggles (s.detections) (redact_with u (s.detections) (o, s)))
    unfolding after_toggles
    after_toggles-redact_with o s open_yet none_yet =
        let q = redact_with u (s.detections) (o, s) in
        elim (Bool-cases (is_empty (q.1.redaction_map))) [
          | inl so ↦
              subst
                (λ p.
                  IsRedacted u (o.content) (s.detections) (s.vault)
                    (after_toggles (s.detections) p))
                (sym (redact_with-idle (s.detections) o s so))
                (fallback-Keeps o (toggles show_score config (s.detections) i (allow_to_redact o)) s
                  (Keeps_trans (allow_to_redact-Keeps o)
                    (toggles-Keeps show_score config (s.detections) i (allow_to_redact o)))
                  open_yet none_yet)
          | inr nay ↦
              subst (IsRedacted u (o.content) (s.detections) (s.vault))
                (sym (fallback-kept (toggles show_score config (s.detections) i (q.0)) (q.1) nay))
                (IsRedacted-Keeps u (redact_with-IsRedacted u (s.detections) o s none_yet)
                  (toggles-Keeps show_score config (s.detections) i (q.0)))
        ]

    after_toggles-standard_net :
        (o : PolicyEvaluationOutcome) (s : PipelineState)
        → o.unprotected ≡ true
        → s.redaction_map ≡ []
        → IsRedacted u
            (o.content)
            (s.detections)
            (s.vault)
            (after_toggles (s.detections) (standard_net show_score u (s.detections) (o, s)))
    unfolding standard_net after_toggles
    after_toggles-standard_net o s open_yet none_yet =
        elim (Bool-cases (not (is_empty (s.detections)) && is_empty (s.redaction_map))) [
          | inl so ↦ rw so (after_toggles-redact_with o s open_yet none_yet)
          | inr nay ↦ rw nay (
              fallback-Keeps o (toggles show_score config (s.detections) i o) s
                (toggles-Keeps show_score config (s.detections) i o) open_yet none_yet)
        ]

    -- Whatever the level, what no rule has protected is redacted for every detection once.
    pub override-IsRedacted :
        (o : PolicyEvaluationOutcome) (s : PipelineState)
        → o.unprotected ≡ true
        → s.redaction_map ≡ []
        → IsRedacted u (o.content) (s.detections) (s.vault) (
            apply_fallback_redaction u debug true
              (apply_secure_mode_override show_score u config (s.detections) i (o, s)))
    unfolding apply_secure_mode_override after_toggles
    override-IsRedacted o s open_yet none_yet =
        elim (Bool-cases (config.level == lit "permissive")) [
          | inl so ↦ rw so (
              fallback-Keeps o (permissive show_score (s.detections) o) s
                (permissive-Keeps show_score (s.detections) o) open_yet none_yet)
          | inr nay ↦ elim (Bool-cases (config.level == lit "strict")) [
            | inl so ↦
                rw (nay, so)
                  (fallback-Keeps o (strict show_score (s.detections) i o) s
                    (strict-Keeps show_score (s.detections) i o) open_yet none_yet)
            | inr neither ↦ rw (nay, neither) (after_toggles-standard_net o s open_yet none_yet)
          ]
        ]
