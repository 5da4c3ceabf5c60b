-- ===== src/UrlGuard/Validated.antt =====
-- secureprompt-api/src/security/url_guard.rs, `validate_outbound_url`: what holds of a URL that is
-- allowed.
use secureprompt.Prelude.{
  ℕ, ◌≡◌, ◌≢◌, ◌⊎◌, refl, sym, subst, false, none, some, [], ◌∷◌, All, is_empty, nat_keyed,
  list_keyed,
}
use secureprompt.Text.{Str, lit}
use secureprompt.Text.Trim.{trim, to_ascii_lowercase}
use secureprompt.UrlGuard.{
  EgressPolicy, Net, Checked, ValidatedUrl, classify_ip, port_of, validate_outbound_url,
}
use secureprompt.UrlGuard.Branches.{
  and_then-allowed, screen-unblocked, check_url-allowed, parse_and_check_url-allowed,
  screen_all-allowed, resolve_and_screen-allowed, host-allowed, port_of-cases, is_denied_host-false,
}

module _ (net : Net) where
  -- What the guard promises of the URL, the host and the addresses.
  pub record IsScreened (raw : Str) (policy : EgressPolicy) (v : ValidatedUrl net) : Type 0 where
    pub name : Str
    pub port : ℕ
    pub parsed : net.parse (trim raw) ≡ some v.url
    pub scheme_is : (net.scheme v.url ≡ lit "http") ⊎ (net.scheme v.url ≡ lit "https")
    pub no_username : net.username v.url ≡ []
    pub no_password : net.password v.url ≡ none
    pub named : net.host_str v.url ≡ some name
    pub lowered : v.host ≡ to_ascii_lowercase name
    pub not_metadata :
        All
          (λ h. v.host ≢ h)
          (lit "metadata.google.internal" ∷ lit "metadata.goog" ∷ lit "instance-data" ∷ [])
    pub not_listed : All (λ h. v.host ≢ to_ascii_lowercase h) policy.extra_denied_hosts
    pub ported :
        (net.port_or_known_default v.url ≡ some port)
        ⊎ ((net.port_or_known_default v.url ≡ none) × (port ≡ 443))
    pub resolved : net.lookup_host v.host port ≡ some v.addrs
    pub some_address : is_empty v.addrs ≡ false
    pub unblocked : All (λ a. classify_ip (a.0) policy.allow_private_ranges ≡ none) v.addrs

  -- A URL that is allowed is what the text parses to, and has the scheme http or https and no
  -- credentials. The host that is returned is the host of that URL in lower case; it is none of the
  -- three metadata names, and no name that the policy denies. The addresses that are returned are
  -- those that the resolver gives for this host and the port of the URL, or 443 where it has none;
  -- there is at least one, and each is unblocked under the policy.
  pub validate_outbound_url-IsScreened :
      (raw : Str) (policy : EgressPolicy) (v : ValidatedUrl net)
      → validate_outbound_url net raw policy ≡ Checked.allowed v
      → IsScreened raw policy v
  unfolding validate_outbound_url
  validate_outbound_url-IsScreened raw policy v h =
      let (url, checked, h1) = and_then-allowed _ _ v h in
      let (parsed, url_checked) = parse_and_check_url-allowed net raw url checked in
      let (same, scheme, no_name, no_word) = check_url-allowed net url url url_checked in
      let (name, named, low, h2) = host-allowed net policy url v h1 in
      let (addrs, found, h3) =
        resolve_and_screen-allowed net policy url (to_ascii_lowercase name) (port_of net url) v
          h2 in
      let (is, some_address, passed) =
        screen_all-allowed net policy url (to_ascii_lowercase name) addrs v h3 in
      let (fixed, listed) = is_denied_host-false net policy (to_ascii_lowercase name) low in
      subst (IsScreened raw policy) (sym is) record {
        name = name;
        port = port_of net url;
        parsed = parsed;
        scheme_is = scheme;
        no_username = no_name;
        no_password = no_word;
        named = named;
        lowered = refl;
        not_metadata = fixed;
        not_listed = listed;
        ported = port_of-cases net url;
        resolved = found;
        some_address = some_address;
        unblocked =
            screen-unblocked net (to_ascii_lowercase name) policy.allow_private_ranges addrs passed;
      }
