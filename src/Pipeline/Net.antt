-- ===== src/Pipeline/Net.antt =====
-- secureprompt-api/src/pipeline/service.rs: the safety net, below whatever the secure mode does.
use secureprompt.Prelude.{
  ◌≡◌, ◌∙◌, refl, sym, ap, subst, Bool, true, false, not, ◌&&◌, ◌||◌, List, [], ◌∷◌, arith,
  is_empty, nat_keyed, list_keyed, if◌then◌else◌,
}
use secureprompt.Text.{Str}
use secureprompt.Types.{Float, Detection, TokenVault}
use secureprompt.Vault.{Casing, Redaction, apply_redaction}
use secureprompt.Vault.Idle.{apply_redaction-nil}
use secureprompt.Policy.Engine.{PolicyEvaluationOutcome}
use secureprompt.Pipeline.{PipelineState, SecureModeRow, InjectionResponse}
use secureprompt.Pipeline.Secure.{
  Settled, allow_to_redact, redact_with, deny_with, permissive, strict, toggles,
  apply_fallback_redaction, injection_blocking,
}

-- The content and the flag of the policy engine stay.
pub record Keeps (o o' : PolicyEvaluationOutcome) : Type 0 where
  pub content : o'.content ≡ o.content
  pub unprotected : o'.unprotected ≡ o.unprotected

pub Keeps_trans : {o o' o'' : PolicyEvaluationOutcome} → Keeps o o' → Keeps o' o'' → Keeps o o''
Keeps_trans h k = record {
  content = k.content ∙ h.content;
  unprotected = k.unprotected ∙ h.unprotected;
}

abbrev keeps_all : (o : PolicyEvaluationOutcome) → Keeps o o
keeps_all o = record { content = refl; unprotected = refl }

if-Keeps :
    (b : Bool) (o x y : PolicyEvaluationOutcome)
    → Keeps o x
    → Keeps o y
    → Keeps o (if b then x else y)
if-Keeps true o x y h k = h
if-Keeps false o x y h k = k

pub allow_to_redact-Keeps : (o : PolicyEvaluationOutcome) → Keeps o (allow_to_redact o)
allow_to_redact-Keeps o =
    if-Keeps _ o _ o (record { content = refl; unprotected = refl }) (keeps_all o)

deny_with-Keeps : (reason : Str) (o : PolicyEvaluationOutcome) → Keeps o (deny_with reason o)
unfolding deny_with
deny_with-Keeps reason o = record { content = refl; unprotected = refl }

-- What a redaction of the text leaves of the request.
pub record IsRedacted (u : Casing) (content : Str) (ds : List Detection) (vault : TokenVault)
    (s : Settled) : Type 0 where
  pub content_is : s.0.content ≡ (apply_redaction u content ds vault []).content
  pub vault_is : s.1.vault ≡ (apply_redaction u content ds vault []).vault
  pub map_is : s.1.redaction_map ≡ (apply_redaction u content ds vault []).redaction_map

pub redact_with-IsRedacted :
    (u : Casing) (ds : List Detection) (o : PolicyEvaluationOutcome) (s : PipelineState)
    → s.redaction_map ≡ []
    → IsRedacted u (o.content) ds (s.vault) (redact_with u ds (o, s))
unfolding redact_with
redact_with-IsRedacted u ds o s none_yet =
    let r = apply_redaction u (o.content) ds (s.vault) (s.redaction_map) in
    let kept = allow_to_redact-Keeps (record o { content = r.content }) in
    let same = ap (λ m. apply_redaction u (o.content) ds (s.vault) m) none_yet in
    record {
      content_is = kept.content ∙ ap (λ (x : Redaction). x.content) same;
      vault_is = ap (λ (x : Redaction). x.vault) same;
      map_is = ap (λ (x : Redaction). x.redaction_map) same;
    }

pub IsRedacted-Keeps :
    (u : Casing) {content : Str} {ds : List Detection} {vault : TokenVault}
    {o o' : PolicyEvaluationOutcome} {s : PipelineState}
    → IsRedacted u content ds vault (o, s)
    → Keeps o o'
    → IsRedacted u content ds vault (o', s)
IsRedacted-Keeps u h kept = record {
  content_is = kept.content ∙ h.content_is;
  vault_is = h.vault_is;
  map_is = h.map_is;
}

idle-IsRedacted :
    (u : Casing) (o : PolicyEvaluationOutcome) (s : PipelineState)
    → s.redaction_map ≡ []
    → IsRedacted u (o.content) [] (s.vault) (o, s)
idle-IsRedacted u o s none_yet =
    let same = sym (apply_redaction-nil u (o.content) (s.vault) []) in
    record {
      content_is = ap (λ (x : Redaction). x.content) same;
      vault_is = ap (λ (x : Redaction). x.vault) same;
      map_is = none_yet ∙ ap (λ (x : Redaction). x.redaction_map) same;
    }

net_fires :
    (debug unprotected empty_map empty_detections : Bool)
    → unprotected ≡ true
    → empty_map ≡ true
    → ((debug || (true && unprotected)) && (empty_map && not empty_detections))
      ≡ not empty_detections
net_fires debug unprotected empty_map empty_detections h k = ground arith

-- The net redacts what no rule has protected and nothing has redacted yet.
pub fallback-IsRedacted :
    (u : Casing) (debug : Bool) (o : PolicyEvaluationOutcome) (s : PipelineState)
    → o.unprotected ≡ true
    → s.redaction_map ≡ []
    → IsRedacted u
        (o.content)
        (s.detections)
        (s.vault)
        (apply_fallback_redaction u debug true (o, s))
unfolding apply_fallback_redaction
fallback-IsRedacted u debug o s open_yet none_yet =
    subst
      (λ c.
        IsRedacted u (o.content) (s.detections) (s.vault)
          (if c then redact_with u (s.detections) (o, s) else (o, s)))
      (sym (
        net_fires debug (o.unprotected) (is_empty (s.redaction_map)) (is_empty (s.detections))
          open_yet (ap is_empty none_yet)))
      (by_list (s.detections))
  where
    by_list :
        (ds : List Detection)
        → IsRedacted u
            (o.content)
            ds
            (s.vault)
            (if not (is_empty ds) then redact_with u ds (o, s) else (o, s))
    by_list [] = idle-IsRedacted u o s none_yet
    by_list (d ∷ ds) = redact_with-IsRedacted u (d ∷ ds) o s none_yet

pub permissive-Keeps :
    (show_score : Float → Str) (ds : List Detection) (o : PolicyEvaluationOutcome)
    → Keeps o (permissive show_score ds o)
unfolding permissive
permissive-Keeps show_score ds o =
    if-Keeps (o.denied) o _ o (record { content = refl; unprotected = refl }) (keeps_all o)

pub strict-Keeps :
    (show_score : Float → Str) (ds : List Detection) (i : InjectionResponse)
    (o : PolicyEvaluationOutcome)
    → Keeps o (strict show_score ds i o)
unfolding strict
strict-Keeps show_score ds i o = if-Keeps _ o _ o (deny_with-Keeps _ o) (keeps_all o)

pub toggles-Keeps :
    (show_score : Float → Str) (config : SecureModeRow) (ds : List Detection)
    (i : InjectionResponse) (o : PolicyEvaluationOutcome)
    → Keeps o (toggles show_score config ds i o)
unfolding toggles
toggles-Keeps show_score config ds i o =
    if-Keeps (config.block_on_pii_detection && not (is_empty ds)) o _ _ (deny_with-Keeps _ o) (
      if-Keeps (config.block_on_injection_detection && injection_blocking i) o _ o
        (deny_with-Keeps _ o) (keeps_all o))
