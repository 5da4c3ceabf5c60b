-- ===== src/License/Steps.antt =====
-- Everything that changes the licence in a running gateway, in any order: the handlers of
-- http/routes/license.rs, the periodic check of main.rs, and the poller's answers. A handler may run at
-- one stroke, or in the halves between which it awaits the database: then other steps may come
-- between its write and its change of the licence in memory, and likewise between the poller's
-- question and the answer.
use secureprompt.Prelude.{
  ◌≡◌, ◌∙◌, refl, sym, ap, subst, inl, inr, Option, none, some, list_keyed, nat_keyed,
  if◌then◌else◌,
}
use secureprompt.Prelude.Int.{ℤ}
use secureprompt.Text.{Str}
use secureprompt.Text.Trim.{trim}
use secureprompt.Types.{ok}
use secureprompt.Roles.{UserRole}
use secureprompt.License.State.{LicenseState, new_state, set, observe_clock}
use secureprompt.License.Token.{Vendor, load_and_verify_token, resolve_active_token}
use secureprompt.License.Revocation.{RevocationVerdict, PollerDeps, observe_row, finish_tick}
use secureprompt.License.Routes.{
  Gateway, Access, stored_token, activated, activate_license, delete_license, snapshot_of, recheck,
  start_license, seeded,
}
use secureprompt.License.Cases.{
  activate_license_cases, delete_license_cases, recheck_lem, observed_lem, seeded_lem,
}
use secureprompt.License.Lifecycle.{
  IsNamed, IsWellFormed, is_some, load_and_verify_token-IsNamed, set-IsWellFormed,
  supersede-IsWellFormed, finish_tick-IsWellFormed,
}

pub data Step (w : Vendor) (d : PollerDeps) (g h : Gateway) : Type 0 where
  activates :
      (role : UserRole) (key : Option w.VerifyingKey) (token : Str) (now : ℤ) (access : Access)
      → h ≡ (activate_license w role key token now access g).1
      → Step w d g h
  deletes :
      (role : UserRole) (key : Option w.VerifyingKey) (now : ℤ) (access : Access)
      → h ≡ (delete_license w role key now access g).1
      → Step w d g h
  rechecks :
      (vk : w.VerifyingKey) (verified_at now : ℤ) (access : Access) (world : d.World)
      → h ≡ (recheck w d vk verified_at now access g world).0
      → Step w d g h
  -- The write of an activation that goes through, and its change of the licence in memory, which
  -- reads neither the row nor the licence before: the handler may have begun in an earlier state.
  stores :
      (role : UserRole) (key : Option w.VerifyingKey) (token : Str) (now : ℤ) (access : Access)
      → (activate_license w role key token now access g).0 ≡ ok tt
      → h ≡ record g { activation = some (trim token) }
      → Step w d g h
  installs :
      (role : UserRole) (key : Option w.VerifyingKey) (vk : w.VerifyingKey) (token : Str) (now : ℤ)
      (access : Access) (earlier : Gateway)
      → (activate_license w role key token now access earlier).0 ≡ ok tt
      → key ≡ some vk
      → h ≡ record g { license = (activated w token vk now g).license }
      → Step w d g h
  -- The write of a deletion that goes through.
  clears :
      (role : UserRole) (key : Option w.VerifyingKey) (now : ℤ) (access : Access)
      → (delete_license w role key now access g).0 ≡ ok tt
      → h ≡ record g { activation = none }
      → Step w d g h
  -- The change of the snapshot by a deletion or by a check, for a token read in an earlier state.
  renews :
      (key : Option w.VerifyingKey) (token : Str) (now : ℤ)
      → h ≡ record g { license = set (snapshot_of w key token now) g.license }
      → Step w d g h
  -- The change of the clocks by a check, with the row that was loaded, if one was.
  observes :
      (row : Option (ℤ × ℤ)) (now : ℤ)
      → h ≡ record g { license = observe_clock now (observe_row d row g.license) }
      → Step w d g h
  answers :
      (lic_id : Str) (answer : RevocationVerdict × Option ℤ) (now : ℤ) (world : d.World)
      → h ≡ record g { license = (finish_tick d lic_id answer now g.license world).0 }
      → Step w d g h

pub data Reach (w : Vendor) (d : PollerDeps) (g : Gateway) : Gateway → Type 0 where
  here : Reach w d g g
  next : {h k : Gateway} → Reach w d g h → Step w d h k → Reach w d g k

module _ (w : Vendor) where
  snapshot_of-IsNamed :
      (key : Option w.VerifyingKey) (token : Str) (now : ℤ) → IsNamed (snapshot_of w key token now)
  snapshot_of-IsNamed none token now = refl
  snapshot_of-IsNamed (some vk) token now = load_and_verify_token-IsNamed w token vk now

  pub activated-IsWellFormed :
      (token : Str) (vk : w.VerifyingKey) (now : ℤ) (g : Gateway)
      → IsWellFormed g.license
      → IsWellFormed (activated w token vk now g).license
  unfolding activated
  activated-IsWellFormed token vk now g h =
      let s = load_and_verify_token w (trim token) vk now in
      supersede-IsWellFormed s.lic_id (set s g.license)
        (set-IsWellFormed s g.license (load_and_verify_token-IsNamed w (trim token) vk now) h)

IsWellFormed-same :
    (s t : LicenseState)
    → IsNamed t.inner
    → t.is_revoked ≡ s.is_revoked
    → t.revoked_lic_id ≡ s.revoked_lic_id
    → IsWellFormed s
    → IsWellFormed t
IsWellFormed-same s t n e f h = record {
  named = n;
  identified = ap is_some f ∙ h.identified ∙ sym e;
}

start_license-IsWellFormed :
    (w : Vendor) (key : Option w.VerifyingKey) (now : ℤ) (access : Access) (activation : Option Str)
    (load : Str → Option (ℤ × ℤ))
    → IsWellFormed (start_license w key now access activation load)
unfolding start_license
start_license-IsWellFormed w key now access activation load =
    let token =
      resolve_active_token (if access.read_fails then none else some activation) access.env_token in
    let state = new_state (snapshot_of w key token now) in
    let (inner, flag, id) = seeded_lem load (new_state (snapshot_of w key token now)) in
    let named = snapshot_of-IsNamed w key token now in
    IsWellFormed-same state (seeded load state) (subst IsNamed (sym inner) named) flag id
      (record { named = named; identified = refl })

module _ (w : Vendor) (d : PollerDeps) where
  Step-IsWellFormed :
      (g h : Gateway) → Step w d g h → IsWellFormed g.license → IsWellFormed h.license
  Step-IsWellFormed g h (activates role key token now access e) wf =
      elim (activate_license_cases w role key token now access g) [
        | inl same ↦ subst (λ (k : Gateway). IsWellFormed k.license) (sym (e ∙ same.0)) wf
        | inr (vk, lic, who, configured, checked, written, new) ↦
            subst (λ (k : Gateway). IsWellFormed k.license) (sym (e ∙ new))
              (activated-IsWellFormed w token vk now g wf)
      ]
  Step-IsWellFormed g h (deletes role key now access e) wf =
      elim (delete_license_cases w role key now access g) [
        | inl same ↦ subst (λ (k : Gateway). IsWellFormed k.license) (sym (e ∙ same)) wf
        | inr (token, new) ↦
            subst (λ (k : Gateway). IsWellFormed k.license) (sym (e ∙ new))
              (set-IsWellFormed (snapshot_of w key token now) g.license
                (snapshot_of-IsNamed w key token now) wf)
      ]
  Step-IsWellFormed g h (rechecks vk verified_at now access world e) wf =
      let (inner, flag, id) = recheck_lem w d vk verified_at now access g world in
      let token = resolve_active_token (stored_token access g) access.env_token in
      subst (λ (k : Gateway). IsWellFormed k.license) (sym e)
        (IsWellFormed-same g.license (recheck w d vk verified_at now access g world).0.license
          (subst IsNamed (sym inner) (load_and_verify_token-IsNamed w token vk verified_at)) flag id
          wf)
  Step-IsWellFormed g h (stores role key token now access passed e) wf =
      subst (λ (k : Gateway). IsWellFormed k.license) (sym e) wf
  Step-IsWellFormed g h (installs role key vk token now access earlier passed k e) wf =
      subst (λ (k : Gateway). IsWellFormed k.license) (sym e)
        (activated-IsWellFormed w token vk now g wf)
  Step-IsWellFormed g h (clears role key now access passed e) wf =
      subst (λ (k : Gateway). IsWellFormed k.license) (sym e) wf
  Step-IsWellFormed g h (renews key token now e) wf =
      subst (λ (k : Gateway). IsWellFormed k.license) (sym e)
        (set-IsWellFormed (snapshot_of w key token now) g.license
          (snapshot_of-IsNamed w key token now) wf)
  Step-IsWellFormed g h (observes row now e) wf =
      let (inner, flag, id) = observed_lem d row now g.license in
      subst (λ (k : Gateway). IsWellFormed k.license) (sym e)
        (IsWellFormed-same g.license (observe_clock now (observe_row d row g.license))
          (subst IsNamed (sym inner) wf.named) flag id wf)
  Step-IsWellFormed g h (answers lic_id answer now world e) wf =
      subst (λ (k : Gateway). IsWellFormed k.license) (sym e)
        (finish_tick-IsWellFormed d lic_id answer now g.license world wf)

  -- In every state that the handlers and background tasks of a gateway reach from its start, in any
  -- order, and with other steps between the halves of each, a snapshot names a licence exactly if its status is `Valid`, and the revoked flag is set
  -- exactly if a revoked licence is named.
  pub Reach-IsWellFormed :
      (key : Option w.VerifyingKey) (now : ℤ) (access : Access) (activation : Option Str)
      (load : Str → Option (ℤ × ℤ)) (h : Gateway)
      → Reach w d
          (record {
            license = start_license w key now access activation load;
            activation = activation;
          })
          h
      → IsWellFormed h.license
  Reach-IsWellFormed key now access activation load h here =
      start_license-IsWellFormed w key now access activation load
  Reach-IsWellFormed key now access activation load h (next {h = g} r s) =
      Step-IsWellFormed g h s (Reach-IsWellFormed key now access activation load g r)
