-- ===== src/License/Supersede.antt =====
-- What lifts a revocation, and what does not.
use secureprompt.Prelude.{
  false, ◌≡◌, ◌≢◌, ◌∙◌, refl, sym, ap, subst, ◌⊎◌, inl, inr, true, ◌==◌, Bool-cases, Option-cases,
  Option, none, some, arith, list_beq_iff, list_keyed, nat_keyed,
}
use secureprompt.Prelude.Int.{ℤ}
use secureprompt.Roles.{UserRole, owner, admin}
use secureprompt.Text.{Str}
use secureprompt.Text.Trim.{trim}
use secureprompt.License.State.{
  valid, LicenseSnapshot, LicenseState, set, mark_revoked, clear_revocation_if_superseded,
  observe_freshness,
}
use secureprompt.License.Token.{Vendor, load_and_verify_token}
use secureprompt.License.Revocation.{RevocationVerdict, PollerDeps, observe_row, finish_tick}
use secureprompt.License.Routes.{Gateway, Access, supersede, activated}
use secureprompt.License.Current.{IsCurrent, load_and_verify_token-lic_id}
use secureprompt.License.Cases.{
  activate_license_cases, activate_license_ok, delete_license_cases, recheck_lem, observed_lem,
}
use secureprompt.License.Steps.{
  Step, activates, deletes, rechecks, stores, installs, clears, renews, observes, answers,
}

supersede_revoked :
    (id : Option Str) (state : LicenseState)
    → state.is_revoked ≡ true
    → ((supersede id state).is_revoked ≡ true)
      ⊎ ((new : Str) × (old : Str) × (id ≡ some new)
          × (state.revoked_lic_id ≡ some old)
          × (old ≢ new)
          × ((supersede id state).is_revoked ≡ false))
unfolding supersede clear_revocation_if_superseded
supersede_revoked none state e = inl e
supersede_revoked (some new) state e = elim (Option-cases state.revoked_lic_id) [
  | inl q ↦ inl (ground (arith, e, q))
  | inr (old, q) ↦ elim (Bool-cases (old == new)) [
    | inl same ↦ inl (ground (arith, e, q, same))
    | inr other ↦ inr (
      new,
      old,
      refl,
      q,
      λ p. ground (arith, other, p, list_beq_iff old new),
      ground (arith, e, q, other),
    )
  ]
]

-- An owner or an admin activates, under the configured vendor key, a token of a licence other than
-- the revoked one, inside its window, and the write goes through: the snapshot names the licence and
-- is valid, and the revocation is lifted.
pub record IsActivated (w : Vendor) (g h : Gateway) (role : UserRole) (key : Option w.VerifyingKey)
    (token : Str) (now : ℤ) (access : Access) : Type 0 where
  pub old : Str
  pub new : Str
  pub vk : w.VerifyingKey
  pub shown : w.License
  pub lic : w.License
  pub entitled : (role ≡ owner) ⊎ (role ≡ admin)
  pub configured : key ≡ some vk
  pub checked : w.decode_verified_token (trim token) vk ≡ some shown
  pub written : access.write_error ≡ none
  pub signed : w.decode_verified_token (trim (trim token)) vk ≡ some lic
  pub names : w.lic_id lic ≡ new
  pub current : IsCurrent w lic now
  pub was_revoked : g.license.revoked_lic_id ≡ some old
  pub differs : old ≢ new
  pub named : h.license.inner.lic_id ≡ some new
  pub in_force : h.license.inner.status ≡ valid
  pub lifted : h.license.is_revoked ≡ false

-- The step is an activation that supersedes the revoked licence, or the second half of one.
abbrev pub IsSuperseded : (w : Vendor) (d : PollerDeps) (g h : Gateway) → Step w d g h → Type 0
IsSuperseded w d g h (activates role key token now access e) =
    IsActivated w g h role key token now access × (h.activation ≡ some (trim token))
IsSuperseded w d g h (installs role key vk token now access earlier passed k e) =
    IsActivated w g h role key token now access
IsSuperseded w d g h (deletes role key now access e) = ⊥
IsSuperseded w d g h (rechecks vk verified_at now access world e) = ⊥
IsSuperseded w d g h (stores role key token now access passed e) = ⊥
IsSuperseded w d g h (clears role key now access passed e) = ⊥
IsSuperseded w d g h (renews key token now e) = ⊥
IsSuperseded w d g h (observes row now e) = ⊥
IsSuperseded w d g h (answers lic_id answer now world e) = ⊥

inner-supersede :
    (id : Option Str) (state : LicenseState) → (supersede id state).inner ≡ state.inner
unfolding supersede clear_revocation_if_superseded
inner-supersede none state = refl
inner-supersede (some id) state = ground arith

finish_tick_revoked :
    (d : PollerDeps) (id : Str) (answer : RevocationVerdict × Option ℤ) (now : ℤ)
    (state : LicenseState) (world : d.World)
    → state.is_revoked ≡ true
    → (finish_tick d id answer now state world).0.is_revoked ≡ true
unfolding finish_tick observe_row mark_revoked observe_freshness
finish_tick_revoked d id (verdict, issued_at) now state world h = ground (arith, h)

-- What the checks of an activation give, once its licence is in memory.
installed-IsActivated :
    (w : Vendor) (g h : Gateway) (role : UserRole) (key : Option w.VerifyingKey) (token : Str)
    (now : ℤ) (access : Access) (vk : w.VerifyingKey) (shown : w.License)
    → (role ≡ owner) ⊎ (role ≡ admin)
    → key ≡ some vk
    → w.decode_verified_token (trim token) vk ≡ some shown
    → access.write_error ≡ none
    → h.license ≡ (activated w token vk now g).license
    → g.license.is_revoked ≡ true
    → (h.license.is_revoked ≡ true) ⊎ IsActivated w g h role key token now access
unfolding activated set
installed-IsActivated w g h role key token now access vk shown who k checked written e rev =
    let s = load_and_verify_token w (trim token) vk now in
    let inner = ap (λ (t : LicenseState). t.inner) e ∙ inner-supersede s.lic_id (set s g.license) in
    elim (supersede_revoked s.lic_id (set s g.license) rev) [
      | inl still ↦ inl (ap (λ (t : LicenseState). t.is_revoked) e ∙ still)
      | inr (new, old, named, was, differs, lifted) ↦
          let (lic, signed, names, current, in_force) =
            load_and_verify_token-lic_id w (trim token) vk now new named in
          inr (record {
            old = old;
            new = new;
            vk = vk;
            shown = shown;
            lic = lic;
            entitled = who;
            configured = k;
            checked = checked;
            written = written;
            signed = signed;
            names = names;
            current = current;
            was_revoked = was;
            differs = differs;
            named = ap (λ (t : LicenseSnapshot). t.lic_id) inner ∙ named;
            in_force = ap (λ (t : LicenseSnapshot). t.status) inner ∙ in_force;
            lifted = ap (λ (t : LicenseState). t.is_revoked) e ∙ lifted;
          })
    ]

map_right {ℓ κ μ} : {A : Type ℓ} {B : Type κ} {C : Type μ} → (B → C) → A ⊎ B → A ⊎ C
map_right f (inl a) = inl a
map_right f (inr b) = inr (f b)

some_inj : {A : Type 0} {a b : A} → some a ≡ some b → a ≡ b
some_inj e = cc e

module _ (w : Vendor) (d : PollerDeps) (g h : Gateway) where
  -- A step of the gateway leaves a revocation in force, unless the step is an activation or the second
  -- half of one: by an owner or an admin, whose token decodes under the configured vendor key to a
  -- licence that has another id than the revoked one and is inside its window, and whose write did
  -- not fail. The new snapshot then names that licence with the status `Valid`, and an activation at
  -- one stroke has stored the token. No deletion, no periodic check, no half of these and no answer
  -- to the poller lifts a revocation.
  pub Step-IsSuperseded :
      (step : Step w d g h)
      → g.license.is_revoked ≡ true
      → (h.license.is_revoked ≡ true) ⊎ IsSuperseded w d g h step
  unfolding activated set
  Step-IsSuperseded (activates role key token now access e) rev =
      elim (activate_license_cases w role key token now access g) [
        | inl same ↦ inl (ap (λ (k : Gateway). k.license.is_revoked) (e ∙ same.0) ∙ rev)
        | inr (vk, shown, who, configured, checked, written, installed) ↦
            let reached = e ∙ installed in
            map_right (λ a. (a, ap (λ (k : Gateway). k.activation) reached))
              (installed-IsActivated w g h role key token now access vk shown who configured checked
                written (ap (λ (k : Gateway). k.license) reached) rev)
      ]
  Step-IsSuperseded (installs role key vk token now access earlier passed k e) rev =
      let (vk', shown, who, configured, checked, written) =
        activate_license_ok w role key token now access earlier passed in
      let same = some_inj (sym configured ∙ k) in
      installed-IsActivated w g h role key token now access vk shown who k
        (subst (λ v. w.decode_verified_token (trim token) v ≡ some shown) same checked) written
        (ap (λ (k : Gateway). k.license) e) rev
  Step-IsSuperseded (stores role key token now access passed e) rev =
      inl (ap (λ (k : Gateway). k.license.is_revoked) e ∙ rev)
  Step-IsSuperseded (clears role key now access passed e) rev =
      inl (ap (λ (k : Gateway). k.license.is_revoked) e ∙ rev)
  Step-IsSuperseded (renews key token now e) rev =
      inl (ap (λ (k : Gateway). k.license.is_revoked) e ∙ rev)
  Step-IsSuperseded (observes row now e) rev =
      let (inner, flag, id) = observed_lem d row now g.license in
      inl (ap (λ (k : Gateway). k.license.is_revoked) e ∙ flag ∙ rev)
  Step-IsSuperseded (deletes role key now access e) rev =
      elim (delete_license_cases w role key now access g) [
        | inl same ↦ inl (ap (λ (k : Gateway). k.license.is_revoked) (e ∙ same) ∙ rev)
        | inr (token, new) ↦ inl (ap (λ (k : Gateway). k.license.is_revoked) (e ∙ new) ∙ rev)
      ]
  Step-IsSuperseded (rechecks vk verified_at now access world e) rev =
      let (inner, flag, id) = recheck_lem w d vk verified_at now access g world in
      inl (ap (λ (k : Gateway). k.license.is_revoked) e ∙ flag ∙ rev)
  Step-IsSuperseded (answers lic_id answer now world e) rev = inl (
      ap (λ (k : Gateway). k.license.is_revoked) e
      ∙ finish_tick_revoked d lic_id answer now g.license world rev)
