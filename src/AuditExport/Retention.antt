-- ===== src/AuditExport/Retention.antt =====
-- `retention_for` and `no_expiry_for` of secureprompt-common/src/audit_export.rs: what a window of
-- export can still hold of a source whose rows expire. Instants are in nanoseconds, within the range
-- where the subtraction of 90 days is exact.
use secureprompt.Prelude.{
  ℕ, ◌+◌, ◌*◌, ◌≤◌, ◌≡◌, ◌↔◌, ◌⊎◌, refl, inl, inr, true, not, none, some, Bool-cases, true_ne_false,
  false, sym, ◌∙◌, ◌==◌, nat_keyed, list_keyed, list_beq_iff, if◌then◌else◌, arith,
}
use secureprompt.Prelude.Int.{ℤ, pos, pos_part, neg_part, sub_ℕ, ltb_ℤ, ◌≤ℤ◌}
use secureprompt.Text.{Str, lit}
use secureprompt.AuditExport.Manifest.{
  SourceRetention, Prose, section_request_events, section_control_plane,
}

abbrev pub within_retention : Str
within_retention = lit "within_retention"

abbrev pub partially_expired : Str
partially_expired = lit "partially_expired"

abbrev pub wholly_expired : Str
wholly_expired = lit "wholly_expired"

abbrev pub no_expiry : Str
no_expiry = lit "no_expiry"

-- Ninety days.
abbrev pub source_ttl : ℕ
source_ttl = 90 * 86400 * 1000000000

unfoldable pub boundary_at : ℤ → ℤ
boundary_at generated_at = sub_ℕ (pos_part generated_at) (source_ttl + neg_part generated_at)

unfoldable pub status_of : (from to boundary : ℤ) → Str
status_of from to boundary =
    if not (ltb_ℤ boundary to)
    then wholly_expired
    else if ltb_ℤ from boundary
    then partially_expired
    else within_retention

abbrev pub detail_of : Prose → (from to boundary : ℤ) → Str
detail_of prose from to boundary =
    if not (ltb_ℤ boundary to)
    then prose.wholly_expired_detail
    else if ltb_ℤ from boundary
    then prose.partially_expired_detail
    else prose.within_retention_detail

unfoldable pub retention_for : Prose → (from to generated_at : ℤ) → SourceRetention
retention_for prose from to generated_at =
    let boundary = boundary_at generated_at in
    record {
      source_table = lit "request_events";
      store = lit "clickhouse";
      section = section_request_events;
      ttl_days = some (pos 90);
      boundary = some boundary;
      window_status = status_of from to boundary;
      detail = detail_of prose from to boundary;
      excluded_rows = 0;
      excluded_reason = none;
    }

unfoldable pub no_expiry_for : Prose → Str → SourceRetention
no_expiry_for prose source_table = record {
  source_table = source_table;
  store = lit "postgres";
  section = section_control_plane;
  ttl_days = none;
  boundary = none;
  window_status = no_expiry;
  detail = prose.no_expiry_detail;
  excluded_rows = 0;
  excluded_reason = none;
}

-- An instant of the window, whose end is excluded.
abbrev pub IsWithin : (from to t : ℤ) → Type 0
IsWithin from to t = (from ≤ℤ t) × (ltb_ℤ t to ≡ true)

-- The table has held the rows of this instant for 90 days at most when the export is made.
abbrev pub IsKept : (generated_at t : ℤ) → Type 0
IsKept generated_at t =
    pos_part generated_at + neg_part t ≤ pos_part t + neg_part generated_at + source_ttl

boundary-IsKept : (g t : ℤ) → boundary_at g ≤ℤ t ↔ IsKept g t
unfolding boundary_at
boundary-IsKept g t = ground arith

Verdicts : (from to boundary : ℤ) → Type 0
Verdicts from to boundary =
    ((status_of from to boundary ≡ within_retention)
      × (boundary ≤ℤ from)
      × (ltb_ℤ boundary to ≡ true))
    ⊎ ((status_of from to boundary ≡ partially_expired)
        × (from ≤ℤ boundary)
        × (ltb_ℤ boundary to ≡ true)
        × (ltb_ℤ from boundary ≡ true))
    ⊎ ((status_of from to boundary ≡ wholly_expired) × (to ≤ℤ boundary))

status_of-cases : (from to boundary : ℤ) → ltb_ℤ from to ≡ true → Verdicts from to boundary
unfolding Verdicts status_of
status_of-cases from to boundary forward = elim (Bool-cases (ltb_ℤ boundary to)) [
  | inl before ↦ elim (Bool-cases (ltb_ℤ from boundary)) [
    | inl partly ↦ inr (inl (rw (before, partly) refl, ground arith, before, partly))
    | inr within ↦ inl (rw (before, within) refl, ground arith, before)
  ]
  | inr gone ↦ inr (inr (rw gone refl, ground arith))
]

le_trans_ℤ : (a b c : ℤ) → a ≤ℤ b → b ≤ℤ c → a ≤ℤ c
le_trans_ℤ a b c h k = omega arith

not_before : (a b : ℤ) → ltb_ℤ a b ≡ true → b ≤ℤ a → ⊥
not_before a b h k = ground arith

apart : (a b : Str) → (a == b) ≡ false → a ≡ b → ⊥
apart a b differ same = true_ne_false ((list_beq_iff a b).1 same) differ

verdict_inside :
    (from to g : ℤ)
    → ltb_ℤ from to ≡ true
    → Verdicts from to (boundary_at g)
    → (status_of from to (boundary_at g) ≡ within_retention)
      ↔ ((t : ℤ) → IsWithin from to t → IsKept g t)
unfolding Verdicts
verdict_inside from to g forward (inl (e, held, before)) =
    ((λ _ t w. (boundary-IsKept g t).0 (le_trans_ℤ (boundary_at g) from t held w.0)), (λ _. e))
verdict_inside from to g forward (inr (inl (e, _, _, partly))) = (
  (λ h. absurd (apart partially_expired within_retention refl (sym e ∙ h))),
  (λ h. absurd (
      not_before from (boundary_at g) partly
        ((boundary-IsKept g from).1 (h from (omega arith, forward))))),
)
verdict_inside from to g forward (inr (inr (e, gone))) = (
  (λ h. absurd (apart wholly_expired within_retention refl (sym e ∙ h))),
  (λ h. absurd (
      not_before from to forward (
        le_trans_ℤ to (boundary_at g) from gone
          ((boundary-IsKept g from).1 (h from (omega arith, forward)))))),
)

verdict_gone :
    (from to g : ℤ)
    → ltb_ℤ from to ≡ true
    → Verdicts from to (boundary_at g)
    → (status_of from to (boundary_at g) ≡ wholly_expired)
      ↔ ((t : ℤ) → IsWithin from to t → IsKept g t → ⊥)
unfolding Verdicts
verdict_gone from to g forward (inl (e, held, before)) = (
  (λ h. absurd (apart within_retention wholly_expired refl (sym e ∙ h))),
  (λ h. absurd (h from (omega arith, forward) ((boundary-IsKept g from).0 held))),
)
verdict_gone from to g forward (inr (inl (e, partly, before, _))) = (
  (λ h. absurd (apart partially_expired wholly_expired refl (sym e ∙ h))),
  (λ h.
      absurd
        (h (boundary_at g) (partly, before) ((boundary-IsKept g (boundary_at g)).0 (omega arith)))),
)
verdict_gone from to g forward (inr (inr (e, gone))) = (
  (λ _ t w kept.
      not_before t to w.1 (le_trans_ℤ to (boundary_at g) t gone ((boundary-IsKept g t).1 kept))),
  (λ _. e),
)

module _ (prose : Prose) (from to generated_at : ℤ) (forward : ltb_ℤ from to ≡ true) where
  -- For a window that is not empty: the verdict is `within_retention` exactly when every instant of
  -- the window is at most 90 days before the making of the export, and `wholly_expired` exactly when
  -- none is.
  pub retention_for_exact :
      (((retention_for prose from to generated_at).window_status ≡ within_retention)
        ↔ ((t : ℤ) → IsWithin from to t → IsKept generated_at t))
      × (((retention_for prose from to generated_at).window_status ≡ wholly_expired)
          ↔ ((t : ℤ) → IsWithin from to t → IsKept generated_at t → ⊥))
  unfolding retention_for status_of boundary_at
  retention_for_exact =
      let cases = status_of-cases from to (boundary_at generated_at) forward in
      (
        verdict_inside from to generated_at forward cases,
        verdict_gone from to generated_at forward cases,
      )
