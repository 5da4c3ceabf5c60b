-- ===== src/Pipeline/Enforced.antt =====
-- secureprompt-api/src/pipeline/service.rs, `prepare`: what the secure mode lets through, and what the
-- mark of a degraded request says.
use secureprompt.Prelude.{
  ◌≡◌, ◌≢◌, ◌∙◌, ◌⊎◌, ◌&&◌, ◌||◌, not, inl, inr, refl, sym, ap, subst, Bool, true, false, Option,
  none, some, List, [], ◌∷◌, ◌==◌, arith, Bool-cases, list_beq_iff, true_ne_false, is_empty,
  nat_keyed, list_keyed,
}
use secureprompt.Text.{Str, lit}
use secureprompt.Types.{Float, Detection, ok}
use secureprompt.Vault.{Casing}
use secureprompt.Policy.{Json, Regex}
use secureprompt.Policy.Engine.{PolicyEvaluationOutcome, evaluate}
use secureprompt.Pipeline.{SecureModeRow, InjectionResponse}
use secureprompt.Pipeline.Coverage.{SidecarCoverage, CoverageLoss, SidecarUnavailablePolicy}
use secureprompt.Pipeline.Secure.{
  Settled, apply_secure_mode_override, injection_blocking, standard_net, strict, toggles, deny_with,
  record_secure_mode_event,
}
use secureprompt.Pipeline.Prepare.{
  GatewayConfig, GatewayRequest, Calls, Prepared, evaluation_input, evaluated, read_secure_mode,
  injection_enforced, gate_injection, or_reason, prepare,
}
use secureprompt.Pipeline.Stages.{
  prepare-Passed, ok_inj, bind_ok, if_cases, prompt, vault, concluded-Through, secured-Cases,
}
use secureprompt.Pipeline.Closed.{gated-complete}

-- What the secure mode asks of a request, by its level and its toggles.
abbrev pub IsCleared : SecureModeRow → List Detection → InjectionResponse → Type 0
IsCleared mode ds i =
    (mode.level ≡ lit "strict" → (ds ≡ []) × (injection_blocking i ≡ false))
    × (mode.level ≢ lit "permissive"
        → (mode.block_on_pii_detection ≡ true → ds ≡ [])
          × (mode.block_on_injection_detection ≡ true → injection_blocking i ≡ false))

is_empty-nil {ℓ} : {A : Type ℓ} (xs : List A) → is_empty xs ≡ true → xs ≡ []
is_empty-nil [] h = refl
is_empty-nil (x ∷ xs) h = absurd (cc h)

abbrev denied_of : Settled → Bool
denied_of s = s.0.denied

module _ (show_score : Float → Str) where
  strict-cleared :
      (ds : List Detection) (i : InjectionResponse) (o : PolicyEvaluationOutcome)
      → (strict show_score ds i o).denied ≡ false
      → (is_empty ds ≡ true) × (injection_blocking i ≡ false)
  unfolding strict deny_with record_secure_mode_event
  strict-cleared ds i o h = ground arith

  toggles-cleared :
      (mode : SecureModeRow) (ds : List Detection) (i : InjectionResponse)
      (o : PolicyEvaluationOutcome)
      → (toggles show_score mode ds i o).denied ≡ false
      → (mode.block_on_pii_detection ≡ true → is_empty ds ≡ true)
        × (mode.block_on_injection_detection ≡ true → injection_blocking i ≡ false)
  unfolding toggles deny_with record_secure_mode_event
  toggles-cleared mode ds i o h = ground arith

  override-IsCleared :
      (u : Casing) (mode : SecureModeRow) (ds : List Detection) (i : InjectionResponse)
      (s : Settled)
      → (apply_secure_mode_override show_score u mode ds i s).0.denied ≡ false
      → IsCleared mode ds i
  unfolding apply_secure_mode_override
  override-IsCleared u mode ds i (o, s) h = elim (Bool-cases (mode.level == lit "permissive")) [
    | inl so ↦
        let level_is = (list_beq_iff (mode.level) (lit "permissive")).0 so in
        (λ strictly. absurd (cc (sym level_is ∙ strictly)), λ n. absurd (n level_is))
    | inr nay ↦ elim (Bool-cases (mode.level == lit "strict")) [
      | inl so ↦
          let branch : apply_secure_mode_override show_score u mode ds i (o, s)
              ≡ (strict show_score ds i o, s) =
            rw (nay, so) refl in
          let (idle, calm) = strict-cleared ds i o (ap denied_of (sym branch) ∙ h) in
          let nothing = is_empty-nil ds idle in
          (λ strictly. (nothing, calm), λ n. (λ on. nothing, λ on. calm))
      | inr neither ↦
          let net = standard_net show_score u ds (o, s) in
          let branch : apply_secure_mode_override show_score u mode ds i (o, s)
              ≡ (toggles show_score mode ds i (net.0), net.1) =
            rw (nay, neither) refl in
          let (idle, calm) = toggles-cleared mode ds i (net.0) (ap denied_of (sym branch) ∙ h) in
          (
            λ strictly.
                absurd
                  (true_ne_false ((list_beq_iff (mode.level) (lit "strict")).1 strictly) neither),
            λ n. (λ on. is_empty-nil ds (idle on), calm),
          )
    ]
  ]

read_secure_mode_lem : (row mode : SecureModeRow) → read_secure_mode (ok row) ≡ ok mode → mode ≡ row
unfolding read_secure_mode
read_secure_mode_lem row mode h = ok_inj row mode h

or_reason-none :
    (first reason : Option CoverageLoss)
    → or_reason first reason ≡ none
    → (first ≡ none) × (reason ≡ none)
or_reason-none none reason h = (refl, h)
or_reason-none (some loss) reason h = absurd (cc h)

gate_injection-none :
    (mode : SecureModeRow) (coverage : SidecarCoverage) (policy : SidecarUnavailablePolicy)
    (degraded : Option CoverageLoss)
    → gate_injection mode coverage policy degraded ≡ ok none
    → (degraded ≡ none) × (injection_enforced mode ≡ true → coverage ≡ SidecarCoverage.complete)
unfolding gate_injection
gate_injection-none mode coverage policy degraded h =
    elim (if_cases (injection_enforced mode) _ _ (ok none) h) [
      | inl (on, passed) ↦
          let (reason, gate, is) = bind_ok _ _ none passed in
          let (idle, scanned) = or_reason-none degraded reason (sym (ok_inj _ none is)) in
          (idle, λ on'. gated-complete coverage policy (gate ∙ ap ok scanned))
      | inr (off, is) ↦ (sym (ok_inj degraded none is), λ on. absurd (true_ne_false on off))
    ]

-- The level or the toggle makes the injection check decide.
abbrev pub IsEnforcing : SecureModeRow → Type 0
IsEnforcing mode =
    (mode.level ≡ lit "strict")
    ⊎ ((mode.level ≢ lit "permissive") × (mode.block_on_injection_detection ≡ true))

IsEnforcing-enforced : (mode : SecureModeRow) → IsEnforcing mode → injection_enforced mode ≡ true
unfolding injection_enforced
IsEnforcing-enforced mode (inl e) =
    ap (λ b. b || (not (mode.level == lit "permissive") && mode.block_on_injection_detection))
      ((list_beq_iff mode.level (lit "strict")).1 e)
IsEnforcing-enforced mode (inr (other, on)) = elim (Bool-cases (mode.level == lit "permissive")) [
  | inl same ↦ absurd (other ((list_beq_iff mode.level (lit "permissive")).0 same))
  | inr differ ↦ ground (arith, on, differ)
]

module _ (j : Json) (u : Casing) (show_score : Float → Str) (r : Regex) (config : GatewayConfig)
    (calls : Calls j) (request : GatewayRequest) where
  evaluated-detections :
      (s : Settled)
      → evaluated j u show_score r config calls request ≡ ok s
      → s.1.detections ≡ calls.detections (prompt j u show_score r config calls request)
  unfolding evaluated
  evaluated-detections s h =
      let (q, run, is) =
        bind_ok
          (evaluate j u (evaluation_input j u show_score r config calls request) r calls.rules
            (vault j u show_score r config calls request) [])
          _ s h in
      ap (λ (x : Settled). x.1.detections) (ok_inj _ s is)

  -- A request that is let through with an enabled secure mode has, at the level `strict`, neither a
  -- detection nor a prompt injection above the threshold; at any level but `permissive`, it has no
  -- detection where detections are blocked, and no such injection where injections are.
  pub prepare-IsCleared :
      (p : Prepared) (mode : SecureModeRow)
      → prepare j u show_score r config calls request ≡ ok p
      → calls.secure_mode ≡ ok mode
      → mode.enabled ≡ true
      → IsCleared mode
          (calls.detections (prompt j u show_score r config calls request))
          (calls.injection (prompt j u show_score r config calls request))
  prepare-IsCleared p mode h row on =
      let passed = prepare-Passed j u show_score r config calls request p h in
      let q = passed.overridden in
      let mode_is =
        read_secure_mode_lem mode passed.mode (ap read_secure_mode (sym row) ∙ passed.mode_read) in
      let (low, outcome_is, state_is, reason_is) =
        concluded-Through j u show_score r config calls request passed.mode (q.0) (q.1) p
          passed.let_through in
      elim (secured-Cases j u show_score r config calls request passed.mode passed.policy
        passed.degraded passed.settled q passed.mode_passed) [
          | inl (off, same) ↦
              absurd (true_ne_false (ap (λ (x : SecureModeRow). x.enabled) mode_is ∙ on) off)
          | inr (so, gate, same) ↦
              let cleared =
                override-IsCleared show_score u passed.mode _ _ passed.settled
                  (ap denied_of (sym same) ∙ low) in
              subst
                (λ m.
                  IsCleared m (calls.detections (prompt j u show_score r config calls request))
                    (calls.injection (prompt j u show_score r config calls request)))
                mode_is
                (subst
                  (λ ds.
                    IsCleared passed.mode ds
                      (calls.injection (prompt j u show_score r config calls request)))
                  (evaluated-detections passed.settled passed.rules_run) cleared)
        ]

  -- A request that goes on unmarked was scanned in full, and where the secure mode is enabled and
  -- enforces the injection check, by the level `strict` or by its toggle at another level than
  -- `permissive`, that check has answered.
  pub prepare-scanned :
      (p : Prepared) (mode : SecureModeRow)
      → prepare j u show_score r config calls request ≡ ok p
      → calls.secure_mode ≡ ok mode
      → p.degraded_reason ≡ none
      → (calls.coverage (prompt j u show_score r config calls request) ≡ SidecarCoverage.complete)
        × (mode.enabled ≡ true
            → IsEnforcing mode
            → calls.injection_coverage (prompt j u show_score r config calls request)
              ≡ SidecarCoverage.complete)
  prepare-scanned p mode h row unmarked =
      let passed = prepare-Passed j u show_score r config calls request p h in
      let q = passed.overridden in
      let mode_is =
        read_secure_mode_lem mode passed.mode (ap read_secure_mode (sym row) ∙ passed.mode_read) in
      let (low, outcome_is, state_is, reason_is) =
        concluded-Through j u show_score r config calls request passed.mode (q.0) (q.1) p
          passed.let_through in
      let idle = sym reason_is ∙ unmarked in
      elim (secured-Cases j u show_score r config calls request passed.mode passed.policy
        passed.degraded passed.settled q passed.mode_passed) [
          | inl (off, same) ↦ (
            gated-complete _ passed.policy (
                passed.gate_passed
                ∙ ap ok (sym (ap (λ (x : Option CoverageLoss × Settled). x.0) same) ∙ idle)),
            λ on enforced.
                absurd (true_ne_false (ap (λ (x : SecureModeRow). x.enabled) mode_is ∙ on) off),
          )
          | inr (so, gate, same) ↦
              let (first, scanned) =
                gate_injection-none passed.mode _ passed.policy passed.degraded
                  (gate ∙ ap ok idle) in
              (
                gated-complete _ passed.policy (passed.gate_passed ∙ ap ok first),
                λ on enforced.
                    scanned (ap injection_enforced mode_is ∙ IsEnforcing-enforced mode enforced),
              )
        ]
