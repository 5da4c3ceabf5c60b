-- ===== src/UrlGuard/Branches.antt =====
-- secureprompt-api/src/security/url_guard.rs: what each part of `validate_outbound_url` has checked when
-- it does not refuse.
use secureprompt.Prelude.{
  ℕ, ◌≡◌, ◌≢◌, ◌∙◌, any, ◌==◌, Option-cases, ◌⊎◌, inl, inr, refl, sym, ap, Bool, true, false, not,
  ◌||◌, Option, none, some, List, [], ◌∷◌, All, is_empty, nat_keyed, list_keyed, arith,
  list_beq_iff, if◌then◌else◌,
}
use secureprompt.Text.{Str, lit}
use secureprompt.Text.Trim.{trim, to_ascii_lowercase}
use secureprompt.UrlGuard.{
  IpAddr, EgressPolicy, SsrfError, Net, Checked, and_then, ValidatedUrl, classify_ip, check_url,
  parse_and_check_url, is_denied_host, screen, screen_all, after_host, is_present,
  resolve_and_screen, port_of,
}

allowed_inj {ℓ} : {A : Type ℓ} (x y : A) → Checked.allowed x ≡ Checked.allowed y → y ≡ x
allowed_inj x y h = cc h

pub and_then-allowed {ℓ κ} :
    {A : Type ℓ} {B : Type κ} (m : Checked A) (f : A → Checked B) (b : B)
    → and_then m f ≡ Checked.allowed b
    → (a : A) × (m ≡ Checked.allowed a) × (f a ≡ Checked.allowed b)
and_then-allowed (Checked.allowed a) f b h = (a, refl, h)
and_then-allowed (Checked.refused e) f b h = absurd (cc h)

refused_or {ℓ} :
    {A : Type ℓ} (b : Bool) (e : SsrfError) (m : Checked A) (a : A)
    → (if b then Checked.refused e else m) ≡ Checked.allowed a
    → (b ≡ false) × (m ≡ Checked.allowed a)
refused_or true e m a h = absurd (cc h)
refused_or false e m a h = (refl, h)

allowed_or {ℓ} :
    {A : Type ℓ} (b : Bool) (e : SsrfError) (x a : A)
    → (if b then Checked.allowed x else Checked.refused e) ≡ Checked.allowed a
    → a ≡ x
allowed_or true e x a h = allowed_inj x a h
allowed_or false e x a h = absurd (cc h)

neither_test : (a b : Bool) → not (a || b) ≡ false → (a ≡ true) ⊎ (b ≡ true)
neither_test a b h = ground (arith, h)

nothing_given :
    (name : Str) (word : Option Str)
    → (not (is_empty name) || is_present word) ≡ false
    → (name ≡ []) × (word ≡ none)
nothing_given [] none h = (refl, refl)
nothing_given [] (some w) h = absurd (cc h)
nothing_given (b ∷ name) word h = absurd (cc h)

module _ (net : Net) where
  pub screen-unblocked :
      (host : Str) (allow_private : Bool) (addrs : List (IpAddr × ℕ))
      → screen net host allow_private addrs ≡ none
      → All (λ a. classify_ip (a.0) allow_private ≡ none) addrs
  unfolding screen
  screen-unblocked host allow_private [] h = tt
  screen-unblocked host allow_private ((addr, port) ∷ addrs) h =
      let (fine, rest) = go (classify_ip addr allow_private) h in
      (fine, screen-unblocked host allow_private addrs rest)
    where
      go :
          (judged : Option Str)
          → ◌≡◌ {A = Option SsrfError}
              (elim judged [
                | some reason ↦ some (SsrfError.blocked_address host addr reason)
                | none ↦ screen net host allow_private addrs
              ])
              none
          → (judged ≡ none) × (screen net host allow_private addrs ≡ none)
      go none k = (refl, k)
      go (some reason) k = absurd (cc k)

  pub check_url-allowed :
      (url found : net.Url)
      → check_url net url ≡ Checked.allowed found
      → (found ≡ url)
        × ((net.scheme url ≡ lit "http") ⊎ (net.scheme url ≡ lit "https"))
        × (net.username url ≡ [])
        × (net.password url ≡ none)
  unfolding check_url
  check_url-allowed url found h =
      let (scheme, h1) = refused_or _ _ _ found h in
      let (given, h2) = refused_or _ _ _ found h1 in
      let (no_name, no_word) = nothing_given (net.username url) (net.password url) given in
      (
        allowed_or _ _ url found h2,
        elim (neither_test _ _ scheme) [
          | inl plain ↦ inl ((list_beq_iff (net.scheme url) (lit "http")).0 plain)
          | inr secure ↦ inr ((list_beq_iff (net.scheme url) (lit "https")).0 secure)
        ],
        no_name,
        no_word,
      )

  pub parse_and_check_url-allowed :
      (raw : Str) (found : net.Url)
      → parse_and_check_url net raw ≡ Checked.allowed found
      → (net.parse (trim raw) ≡ some found) × (check_url net found ≡ Checked.allowed found)
  unfolding parse_and_check_url
  parse_and_check_url-allowed raw found h = go (net.parse (trim raw)) h
    where
      go :
          (o : Option net.Url)
          → ◌≡◌ {A = Checked net.Url}
              (elim o [
                | none ↦ Checked.refused (SsrfError.invalid_url (net.parse_error (trim raw)))
                | some url ↦ check_url net url
              ])
              (Checked.allowed found)
          → (o ≡ some found) × (check_url net found ≡ Checked.allowed found)
      go none k = absurd (cc k)
      go (some url) k =
          let same = (check_url-allowed url found k).0 in
          (ap some (sym same), ap (check_url net) same ∙ k)

  pub screen_all-allowed :
      (policy : EgressPolicy) (url : net.Url) (host : Str) (addrs : List (IpAddr × ℕ))
      (v : ValidatedUrl net)
      → screen_all net policy url host addrs ≡ Checked.allowed v
      → (v ≡ record { url = url; host = host; addrs = addrs })
        × (is_empty addrs ≡ false)
        × (screen net host policy.allow_private_ranges addrs ≡ none)
  unfolding screen_all
  screen_all-allowed policy url host addrs v h =
      let (some_address, h1) = refused_or _ _ _ v h in
      let (same, passed) = go (screen net host policy.allow_private_ranges addrs) h1 in
      (same, some_address, passed)
    where
      go :
          (o : Option SsrfError)
          → ◌≡◌ {A = Checked (ValidatedUrl net)}
              (elim o [
                | some e ↦ Checked.refused e
                | none ↦ Checked.allowed (record { url = url; host = host; addrs = addrs })
              ])
              (Checked.allowed v)
          → (v ≡ record { url = url; host = host; addrs = addrs }) × (o ≡ none)
      go none k = (allowed_inj _ v k, refl)
      go (some e) k = absurd (cc k)

  pub resolve_and_screen-allowed :
      (policy : EgressPolicy) (url : net.Url) (host : Str) (port : ℕ) (v : ValidatedUrl net)
      → resolve_and_screen net policy url host port ≡ Checked.allowed v
      → (addrs : List (IpAddr × ℕ)) × (net.lookup_host host port ≡ some addrs)
        × (screen_all net policy url host addrs ≡ Checked.allowed v)
  unfolding resolve_and_screen
  resolve_and_screen-allowed policy url host port v h = go (net.lookup_host host port) h
    where
      go :
          (o : Option (List (IpAddr × ℕ)))
          → ◌≡◌ {A = Checked (ValidatedUrl net)}
              (elim o [
                | none ↦ Checked.refused (SsrfError.dns_failure (net.lookup_error host port))
                | some addrs ↦ screen_all net policy url host addrs
              ])
              (Checked.allowed v)
          → (addrs : List (IpAddr × ℕ)) × (o ≡ some addrs)
            × (screen_all net policy url host addrs ≡ Checked.allowed v)
      go none k = absurd (cc k)
      go (some addrs) k = (addrs, refl, k)

  pub host-allowed :
      (policy : EgressPolicy) (url : net.Url) (v : ValidatedUrl net)
      → after_host net policy url ≡ Checked.allowed v
      → (name : Str) × (net.host_str url ≡ some name)
        × (is_denied_host net policy (to_ascii_lowercase name) ≡ false)
        × (resolve_and_screen net policy url (to_ascii_lowercase name) (port_of net url)
            ≡ Checked.allowed v)
  unfolding after_host
  host-allowed policy url v h = go (net.host_str url) h
    where
      go :
          (o : Option Str)
          → ◌≡◌ {A = Checked (ValidatedUrl net)}
              (elim o [
                | none ↦ Checked.refused SsrfError.missing_host
                | some name ↦
                    if is_denied_host net policy (to_ascii_lowercase name)
                    then Checked.refused (SsrfError.denied_host (to_ascii_lowercase name))
                    else resolve_and_screen net policy url
                        (to_ascii_lowercase name)
                        (port_of net url)
              ])
              (Checked.allowed v)
          → (name : Str) × (o ≡ some name)
            × (is_denied_host net policy (to_ascii_lowercase name) ≡ false)
            × (resolve_and_screen net policy url (to_ascii_lowercase name) (port_of net url)
                ≡ Checked.allowed v)
      go none k = absurd (cc k)
      go (some name) k = let (low, rest) = refused_or _ _ _ v k in (name, refl, low, rest)

  pub port_of-cases :
      (url : net.Url)
      → (net.port_or_known_default url ≡ some (port_of net url))
        ⊎ ((net.port_or_known_default url ≡ none) × (port_of net url ≡ 443))
  unfolding port_of
  port_of-cases url = elim (Option-cases (net.port_or_known_default url)) [
    | inl e ↦ inr (e, ground (arith, e))
    | inr (port, e) ↦ inl (ground (arith, e))
  ]

  none_listed :
      (f : Str → Str) (host : Str) (names : List Str)
      → any (λ h. f h == host) names ≡ false
      → All (λ h. host ≢ f h) names
  none_listed f host [] h = tt
  none_listed f host (n ∷ names) h = (
    λ e. ground (arith, h, e, list_beq_iff (f n) host),
    none_listed f host names (ground (arith, h)),
  )

  neither_of : (a b : Bool) → (a || b) ≡ false → (a ≡ false) × (b ≡ false)
  neither_of a b h = ground (arith, h)

  pub is_denied_host-false :
      (policy : EgressPolicy) (host : Str)
      → is_denied_host net policy host ≡ false
      → All
          (λ h. host ≢ h)
          (lit "metadata.google.internal" ∷ lit "metadata.goog" ∷ lit "instance-data" ∷ [])
        × All (λ h. host ≢ to_ascii_lowercase h) policy.extra_denied_hosts
  unfolding is_denied_host
  is_denied_host-false policy host h =
      let (fixed, extra) = neither_of _ _ h in
      (
        none_listed (λ s. s) host
            (lit "metadata.google.internal" ∷ lit "metadata.goog" ∷ lit "instance-data" ∷ []) fixed,
        none_listed to_ascii_lowercase host policy.extra_denied_hosts extra,
      )
