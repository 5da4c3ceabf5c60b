-- ===== src/License/Polling.antt =====
-- What the vendor's answer may do: freshness credit, and marking a revocation.
use secureprompt.Prelude.{
  ◌≡◌, ◌∙◌, refl, sym, ap, inl, inr, true, false, ◌==◌, Bool-cases, Option-cases, none, some, arith,
  list_keyed, nat_keyed,
}
use secureprompt.Prelude.Int.{ℤ}
use secureprompt.Text.{Str, lit}
use secureprompt.Policy.{Json}
use secureprompt.License.State.{LicenseState, mark_revoked, observe_freshness}
use secureprompt.License.Revocation.{
  active, revoked, Reply, unreachable, non_success, unparseable, body, Assertions, issued_epoch,
  check_signed, check_unsigned, check_body, check, get_text, poll_tick, verdict_action, PollerDeps,
  begin_tick, observe_row, finish_tick, run_tick,
}

-- A reply with an assertion that the vendor signed, that is not `revoked`, and that was issued then.
pub record IsCredited (j : Json) (a : Assertions j) (vk : a.VerifyingKey) (reply : Reply j) (t : ℤ)
    : Type 0 where
  pub value : j.Value
  pub raw : j.Value
  pub sig : Str
  pub assertion : a.FreshnessAssertion
  pub replied : reply ≡ body value
  pub asserted : j.get value (lit "assertion") ≡ some raw
  pub signed : get_text j a value (lit "sig") ≡ some sig
  pub decoded : a.from_value raw ≡ some assertion
  pub verified : a.verify_assertion vk assertion sig ≡ true
  pub unrevoked : (a.status assertion == lit "revoked") ≡ false
  pub issued : issued_epoch j a assertion ≡ some t

module _ (j : Json) (a : Assertions j) (vk : a.VerifyingKey) where
  check_unsigned-none : (value : j.Value) → (check_unsigned j a value).1 ≡ none
  unfolding check_unsigned
  check_unsigned-none value = ground arith

  check_signed-some :
      (raw : j.Value) (sig : Str) (t : ℤ)
      → (check_signed j a vk raw sig).1 ≡ some t
      → (assertion : a.FreshnessAssertion) × (a.from_value raw ≡ some assertion)
        × (a.verify_assertion vk assertion sig ≡ true)
        × ((a.status assertion == lit "revoked") ≡ false)
        × (issued_epoch j a assertion ≡ some t)
        × ((check_signed j a vk raw sig).0 ≡ active)
  unfolding check_signed
  check_signed-some raw sig t h = elim (Option-cases (a.from_value raw)) [
    | inl e ↦ absurd (ground (arith, h, e))
    | inr (assertion, e) ↦ elim (Bool-cases (a.verify_assertion vk assertion sig)) [
      | inr bad ↦ absurd (ground (arith, h, e, bad))
      | inl good ↦ elim (Bool-cases (a.status assertion == lit "revoked")) [
        | inl rev ↦ absurd (ground (arith, h, e, good, rev))
        | inr fine ↦ elim (Option-cases (issued_epoch j a assertion)) [
          | inl q ↦ absurd (ground (arith, h, e, good, fine, q))
          | inr (epoch, q) ↦
              let same : epoch ≡ t = ground (arith, h, e, good, fine, q) in
              (assertion, e, good, fine, q ∙ ap some same, ground (arith, e, good, fine, q))
        ]
      ]
    ]
  ]

  -- A check of the revocation gives credit for freshness only where the reply carries an assertion
  -- that decodes, whose signature verifies under the vendor's key, whose status is not `revoked`,
  -- and whose time of issue is the credit; the verdict is then `Active`.
  pub check-IsCredited :
      (reply : Reply j) (t : ℤ)
      → (check j a vk reply).1 ≡ some t
      → ((check j a vk reply).0 ≡ active) × IsCredited j a vk reply t
  unfolding check check_body
  check-IsCredited unreachable t h = absurd (cc h)
  check-IsCredited non_success t h = absurd (cc h)
  check-IsCredited unparseable t h = absurd (cc h)
  check-IsCredited (body value) t h = elim (Option-cases (j.get value (lit "assertion"))) [
    | inl e ↦ absurd (ground (arith, h, e, check_unsigned-none value))
    | inr (raw, e) ↦ elim (Option-cases (get_text j a value (lit "sig"))) [
      | inl q ↦ absurd (ground (arith, h, e, q, check_unsigned-none value))
      | inr (sig, q) ↦
          let same : check_body j a vk value ≡ check_signed j a vk raw sig = ground (arith, e, q) in
          let (assertion, decoded, verified, unrevoked, issued, verdict) =
            check_signed-some raw sig t (ap (λ p. p.1) (sym same) ∙ h) in
          (
            ap (λ p. p.0) same ∙ verdict,
            record {
              value = value;
              raw = raw;
              sig = sig;
              assertion = assertion;
              replied = refl;
              asserted = e;
              signed = q;
              decoded = decoded;
              verified = verified;
              unrevoked = unrevoked;
              issued = issued;
            },
          )
    ]
  ]

-- A tick of the poller that sets the revoked flag has asked the vendor about the licence that the
-- snapshot names, was answered `Revoked`, and records that licence.
pub run_tick-marks :
    (d : PollerDeps) (now : ℤ) (state : LicenseState) (world : d.World)
    → state.is_revoked ≡ false
    → (run_tick d now state world).0.is_revoked ≡ true
    → (id : Str) × (state.inner.lic_id ≡ some id)
      × ((d.ask_status id world).0.0 ≡ revoked)
      × ((run_tick d now state world).0.revoked_lic_id ≡ some id)
unfolding run_tick begin_tick poll_tick finish_tick verdict_action observe_row mark_revoked
    observe_freshness
run_tick-marks d now state world before after = elim (Option-cases state.inner.lic_id) [
  | inl e ↦ absurd (ground (arith, before, after, e))
  | inr (id, e) ↦ (id, e, ground (arith, before, after, e), ground (arith, before, after, e))
]
