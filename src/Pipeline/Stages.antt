-- ===== src/Pipeline/Stages.antt =====
-- secureprompt-api/src/pipeline/service.rs, `prepare`: the stages that a request which is let through
-- has passed.
use secureprompt.Prelude.{
  ◌≡◌, ◌∙◌, ◌⊎◌, inl, inr, refl, sym, ap, Bool, true, false, Option, List, [], arith, nat_keyed,
  list_keyed, if◌then◌else◌,
}
use secureprompt.Text.{Str}
use secureprompt.Map.{Map}
use secureprompt.Types.{Float, Result, ok, err, panic, ◌>>=◌, TokenVault, ApiError}
use secureprompt.Vault.{Casing}
use secureprompt.Policy.{Json, Regex, PolicyRuleRow}
use secureprompt.Policy.Engine.{PolicyEvaluationOutcome, evaluate}
use secureprompt.Policy.Deciding.{deciding}
use secureprompt.Policy.Outcome.{enabled_rules}
use secureprompt.Pipeline.{PipelineState, SecureModeRow}
use secureprompt.Pipeline.Coverage.{CoverageLoss, SidecarUnavailablePolicy, gated, effective_policy}
use secureprompt.Pipeline.Secure.{
  Settled, apply_secure_mode_override, apply_fallback_redaction, redact_with,
}
use secureprompt.Pipeline.Prepare.{
  GatewayConfig, GatewayRequest, Calls, Prepared, preloaded, evaluation_input, evaluated,
  read_secure_mode, gate_injection, secured, concluded, prepare,
}

pub bind_ok {ℓ κ} :
    {A : Type ℓ} {B : Type κ} (m : Result A) (f : A → Result B) (b : B)
    → (m >>= f) ≡ ok b
    → (a : A) × (m ≡ ok a) × (f a ≡ ok b)
bind_ok (ok a) f b h = (a, refl, h)
bind_ok (err e) f b h = absurd (cc h)
bind_ok panic f b h = absurd (cc h)

bind_to {ℓ κ} :
    {A : Type ℓ} {B : Type κ} (m : Result A) (f : A → Result B) {a : A} {b : Result B}
    → m ≡ ok a
    → f a ≡ b
    → (m >>= f) ≡ b
bind_to m f h k = rw h k

pub ok_inj {ℓ} : {A : Type ℓ} (x y : A) → ok x ≡ ok y → y ≡ x
ok_inj x y h = cc h

pub if_err {ℓ} :
    {A : Type ℓ} (b : Bool) (e : ApiError) (x y : A)
    → (if b then err e else ok x) ≡ ok y
    → (b ≡ false) × (y ≡ x)
if_err true e x y h = absurd (cc h)
if_err false e x y h = (refl, ok_inj x y h)

pub if_cases {ℓ} :
    {A : Type ℓ} (b : Bool) (m n k : A)
    → (if b then m else n) ≡ k
    → ((b ≡ true) × (m ≡ k)) ⊎ ((b ≡ false) × (n ≡ k))
if_cases true m n k h = inl (refl, h)
if_cases false m n k h = inr (refl, h)

fallback-denied :
    (u : Casing) (debug net : Bool) (s : Settled)
    → (apply_fallback_redaction u debug net s).0.denied ≡ s.0.denied
unfolding apply_fallback_redaction redact_with
fallback-denied u debug net (o, s) = ground arith

module _ (j : Json) (u : Casing) (show_score : Float → Str) (r : Regex) (config : GatewayConfig)
    (calls : Calls j) (request : GatewayRequest) where
  pub record Passed (p : Prepared) : Type 0 where
    pub policy : SidecarUnavailablePolicy
    pub degraded : Option CoverageLoss
    pub settled : Settled
    pub mode : SecureModeRow
    pub overridden : Option CoverageLoss × Settled
    pub policy_read :
        effective_policy calls.sidecar_policy config.sidecar_unavailable_default ≡ ok policy
    pub gate_passed :
        gated (calls.coverage ((preloaded j u show_score r config calls request).0)) policy
        ≡ ok degraded
    pub rules_run : evaluated j u show_score r config calls request ≡ ok settled
    pub mode_read : read_secure_mode calls.secure_mode ≡ ok mode
    pub mode_passed :
        secured j u show_score r config calls request mode policy degraded settled ≡ ok overridden
    pub let_through : concluded j u show_score r config calls request mode overridden ≡ ok p

  pub prepare-Passed :
      (p : Prepared) → prepare j u show_score r config calls request ≡ ok p → Passed p
  unfolding prepare
  prepare-Passed p h =
      let (policy, read, h1) = bind_ok _ _ p h in
      let (degraded, gate, h2) = bind_ok _ _ p h1 in
      let (s, run, h3) = bind_ok _ _ p h2 in
      let (mode, mode_is, h4) = bind_ok _ _ p h3 in
      let (q, over, h5) = bind_ok _ _ p h4 in
      record {
        policy = policy;
        degraded = degraded;
        settled = s;
        mode = mode;
        overridden = q;
        policy_read = read;
        gate_passed = gate;
        rules_run = run;
        mode_read = mode_is;
        mode_passed = over;
        let_through = h5;
      }

  pub Passed-prepare :
      (p : Prepared) → Passed p → prepare j u show_score r config calls request ≡ ok p
  unfolding prepare
  Passed-prepare p h = bind_to _ _ (h.policy_read) (
      bind_to _ _ (h.gate_passed) (
        bind_to _ _ (h.rules_run)
          (bind_to _ _ (h.mode_read) (bind_to _ _ (h.mode_passed) h.let_through))))

  abbrev pub prompt : Str
  prompt = (preloaded j u show_score r config calls request).0

  abbrev pub vault : TokenVault
  vault = (preloaded j u show_score r config calls request).1

  pub concluded-Through :
      (mode : SecureModeRow) (reason : Option CoverageLoss) (s : Settled) (p : Prepared)
      → concluded j u show_score r config calls request mode (reason, s) ≡ ok p
      → let f = apply_fallback_redaction u config.chat_debug_mode config.redact_when_no_rules s in
        (s.0.denied ≡ false)
        × (p.policy_outcome ≡ f.0)
        × (p.pipeline_state ≡ f.1)
        × (p.degraded_reason ≡ reason)
  unfolding concluded
  concluded-Through mode reason s p h =
      let f = apply_fallback_redaction u config.chat_debug_mode config.redact_when_no_rules s in
      let same = fallback-denied u config.chat_debug_mode config.redact_when_no_rules s in
      let (low, is) = if_err (f.0.denied) _ _ p h in
      (
        sym same ∙ low,
        ap (λ (x : Prepared). x.policy_outcome) is,
        ap (λ (x : Prepared). x.pipeline_state) is,
        ap (λ (x : Prepared). x.degraded_reason) is,
      )

  pub secured-Cases :
      (mode : SecureModeRow) (policy : SidecarUnavailablePolicy) (degraded : Option CoverageLoss)
      (s : Settled) (q : Option CoverageLoss × Settled)
      → secured j u show_score r config calls request mode policy degraded s ≡ ok q
      → ((mode.enabled ≡ false) × (q ≡ (degraded, s)))
        ⊎ ((mode.enabled ≡ true)
            × (gate_injection mode (calls.injection_coverage prompt) policy degraded ≡ ok (q.0))
            × (q.1
                ≡ apply_secure_mode_override show_score u mode
                    (s.1.detections)
                    (calls.injection prompt)
                    s))
  unfolding secured
  secured-Cases mode policy degraded s q h = elim (if_cases (mode.enabled) _ _ (ok q) h) [
    | inl (so, passed) ↦
        let (reason, gate, is) = bind_ok _ _ q passed in
        let same = ok_inj _ q is in
        inr (
          so,
          gate ∙ ap (λ (x : Option CoverageLoss × Settled). ok (x.0)) (sym same),
          ap (λ (x : Option CoverageLoss × Settled). x.1) same,
        )
    | inr (off, same) ↦ inl (off, ok_inj (degraded, s) q same)
  ]

  -- The state that the policy engine leaves.
  abbrev pub fresh_state : TokenVault → Map Str Str → PipelineState
  fresh_state v m = record {
    vault = v;
    detections = calls.detections prompt;
    policy_events = [];
    redaction_map = m;
  }

  abbrev pub decides : List (PolicyRuleRow j) → Option (PolicyRuleRow j)
  decides rows =
      deciding j u (evaluation_input j u show_score r config calls request) r
        (enabled_rules j u (evaluation_input j u show_score r config calls request) r rows)

  pub evaluated_lem :
      (rows : List (PolicyRuleRow j)) (o : PolicyEvaluationOutcome) (v : TokenVault)
      (m : Map Str Str)
      → calls.rules ≡ ok rows
      → evaluate j u (evaluation_input j u show_score r config calls request) r (ok rows) vault []
        ≡ ok (o, v, m)
      → evaluated j u show_score r config calls request ≡ ok (o, fresh_state v m)
  unfolding evaluated
  evaluated_lem rows o v m listed run = rw (listed, run) refl

  pub evaluation_input-content :
      (evaluation_input j u show_score r config calls request).content ≡ prompt
  unfolding evaluation_input
  evaluation_input-content = refl

  pub secured_lem :
      (mode : SecureModeRow) (policy : SidecarUnavailablePolicy)
      (degraded reason : Option CoverageLoss) (s q : Settled)
      → mode.enabled ≡ true
      → gate_injection mode (calls.injection_coverage prompt) policy degraded ≡ ok reason
      → apply_secure_mode_override show_score u mode (s.1.detections) (calls.injection prompt) s ≡ q
      → secured j u show_score r config calls request mode policy degraded s ≡ ok (reason, q)
  unfolding secured
  secured_lem mode policy degraded reason s q on gate over =
      rw on (bind_to _ _ gate (ap (λ x. ok (reason, x)) over))

  pub concluded_lem :
      (mode : SecureModeRow) (reason : Option CoverageLoss) (s f : Settled)
      → apply_fallback_redaction u config.chat_debug_mode config.redact_when_no_rules s ≡ f
      → f.0.denied ≡ false
      → concluded j u show_score r config calls request mode (reason, s)
        ≡ ok record {
          pipeline_state = f.1;
          policy_outcome = f.0;
          secure_mode = mode;
          degraded_reason = reason;
        }
  unfolding concluded
  concluded_lem mode reason s f same low = rw same (rw low refl)
