-- ===== src/UrlGuard.antt =====
-- secureprompt-api/src/security/url_guard.rs: which addresses a request to a provider may go to. The
-- URL parser and the resolver of names are parameters; the tests on addresses are those of `std::net`.
mod Tests
pub mod Addresses
pub mod Branches
pub mod Validated
use secureprompt.Prelude.{
  ℕ, ◌+◌, ◌-◌, ◌*◌, ◌/◌, ◌%◌, Bool, true, false, not, ◌&&◌, ◌||◌, Option, none, some, List, [], ◌∷◌,
  ◌++◌, leb, nat_beq, any, is_empty, ◌==◌, nat_keyed, list_keyed, if◌then◌else◌,
}
use secureprompt.Text.{Str, lit}
use secureprompt.Text.Trim.{trim, to_ascii_lowercase}

-- The octets of an address, and the segments of sixteen bits.
pub record Ipv4Addr : Type 0 where
  pub a : ℕ
  pub b : ℕ
  pub c : ℕ
  pub d : ℕ

pub record Ipv6Addr : Type 0 where
  pub s0 : ℕ
  pub s1 : ℕ
  pub s2 : ℕ
  pub s3 : ℕ
  pub s4 : ℕ
  pub s5 : ℕ
  pub s6 : ℕ
  pub s7 : ℕ

pub data IpAddr : Type 0 where
  v4 : Ipv4Addr → IpAddr
  v6 : Ipv6Addr → IpAddr

pub record EgressPolicy : Type 0 where
  pub allow_private_ranges : Bool
  pub extra_denied_hosts : List Str

-- `parse_flag`
unfoldable pub parse_flag : Option Str → Bool
unfolding trim
parse_flag none = false
parse_flag (some raw) =
    let v = to_ascii_lowercase (trim raw) in
    v == lit "1" || (v == lit "true" || (v == lit "yes" || v == lit "on"))

pub data SsrfError : Type 0 where
  invalid_url forbidden_scheme denied_host dns_failure : Str → SsrfError
  credentials_in_url missing_host : SsrfError
  blocked_address : (host : Str) → IpAddr → (reason : Str) → SsrfError

abbrev pub octets_are : Ipv4Addr → ℕ → ℕ → ℕ → ℕ → Bool
octets_are x a b c d = nat_beq x.a a && (nat_beq x.b b && (nat_beq x.c c && nat_beq x.d d))

abbrev pub between : ℕ → ℕ → ℕ → Bool
between low high n = leb low n && leb n high

unfoldable pub is_cgnat_v4 : Ipv4Addr → Bool
is_cgnat_v4 x = nat_beq x.a 100 && between 64 127 x.b

-- `Ipv4Addr::is_private`
unfoldable pub is_private : Ipv4Addr → Bool
is_private x =
    nat_beq x.a 10
    || ((nat_beq x.a 172 && between 16 31 x.b) || (nat_beq x.a 192 && nat_beq x.b 168))

unfoldable pub classify_v4 : Ipv4Addr → Bool → Option Str
unfolding is_cgnat_v4 is_private
classify_v4 x allow_private =
    if octets_are x 169 254 169 254
    then some (lit "cloud metadata endpoint")
    else if nat_beq x.a 127
    then some (lit "loopback")
    else if nat_beq x.a 169 && nat_beq x.b 254
    then some (lit "link-local")
    else if octets_are x 255 255 255 255
    then some (lit "broadcast")
    else if between 224 239 x.a
    then some (lit "multicast")
    else if octets_are x 0 0 0 0
    then some (lit "unspecified")
    else if nat_beq x.a 0
    then some (lit "this-network")
    else if is_cgnat_v4 x
    then some (lit "CGNAT")
    else if is_private x && not allow_private
    then some (lit "private range")
    else none

-- The address in the low 32 bits.
abbrev pub low_v4 : Ipv6Addr → Ipv4Addr
low_v4 x = record { a = x.s6 / 256; b = x.s6 % 256; c = x.s7 / 256; d = x.s7 % 256 }

abbrev pub first_five_are_zero : Ipv6Addr → Bool
first_five_are_zero x =
    nat_beq x.s0 0 && (nat_beq x.s1 0 && (nat_beq x.s2 0 && (nat_beq x.s3 0 && nat_beq x.s4 0)))

-- `Ipv6Addr::to_ipv4_mapped`
unfoldable pub to_ipv4_mapped : Ipv6Addr → Option Ipv4Addr
to_ipv4_mapped x = if first_five_are_zero x && nat_beq x.s5 65535 then some (low_v4 x) else none

-- `seg & mask == value` on sixteen bits, for a mask that clears the bits below `size`.
abbrev pub masked : ℕ → ℕ → ℕ
masked size segment = segment - segment % size

unfoldable pub is_v6_link_local : Ipv6Addr → Bool
is_v6_link_local x = nat_beq (masked 64 x.s0) 65152

unfoldable pub is_v6_unique_local : Ipv6Addr → Bool
is_v6_unique_local x = nat_beq (masked 512 x.s0) 64512

-- The forms of version 6 that stand for no address of version 4.
unfoldable pub classify_v6 : Ipv6Addr → Bool → Option Str
unfolding is_v6_link_local is_v6_unique_local
classify_v6 x allow_private =
    if nat_beq (masked 256 x.s0) 65280
    then some (lit "multicast")
    else if is_v6_link_local x
    then some (lit "link-local")
    else if is_v6_unique_local x && not allow_private
    then some (lit "unique-local")
    else none

abbrev pub low_is : Ipv6Addr → ℕ → Bool
low_is x n = first_five_are_zero x && (nat_beq x.s5 0 && (nat_beq x.s6 0 && nat_beq x.s7 n))

unfoldable pub classify_ip : IpAddr → Bool → Option Str
unfolding classify_v4 classify_v6 to_ipv4_mapped
classify_ip (IpAddr.v4 x) allow_private = classify_v4 x allow_private
classify_ip (IpAddr.v6 x) allow_private = elim (to_ipv4_mapped x) [
  | some mapped ↦ classify_v4 mapped allow_private
  | none ↦
      if low_is x 1
      then some (lit "loopback")
      else if low_is x 0
      then some (lit "unspecified")
      else if first_five_are_zero x && nat_beq x.s5 0
      then classify_v4 (low_v4 x) allow_private
      else classify_v6 x allow_private
]

-- `reqwest::Url` and `tokio::net::lookup_host`; an error is its text.
pub record Net : Type 1 where
  pub Url : Type 0
  pub parse : Str → Option Url
  pub parse_error : Str → Str
  pub scheme : Url → Str
  pub username : Url → Str
  pub password : Url → Option Str
  pub host_str : Url → Option Str
  pub port_or_known_default : Url → Option ℕ
  pub lookup_host : Str → ℕ → Option (List (IpAddr × ℕ))
  pub lookup_error : Str → ℕ → Str

pub data Checked {ℓ} (A : Type ℓ) : Type ℓ where
  allowed : A → Checked A
  refused : SsrfError → Checked A

abbrev pub and_then {ℓ κ} : {A : Type ℓ} {B : Type κ} → Checked A → (A → Checked B) → Checked B
and_then (Checked.allowed a) f = f a
and_then (Checked.refused e) f = Checked.refused e

abbrev pub always_denied_hosts : List Str
always_denied_hosts =
    lit "metadata.google.internal" ∷ lit "metadata.goog" ∷ lit "instance-data" ∷ []

abbrev pub is_present : Option Str → Bool
is_present none = false
is_present (some s) = true

module _ (net : Net) where
  pub record ValidatedUrl : Type 0 where
    pub url : net.Url
    pub host : Str
    pub addrs : List (IpAddr × ℕ)

  -- The checks on a URL that has been parsed.
  unfoldable pub check_url : net.Url → Checked net.Url
  check_url url =
      if not (net.scheme url == lit "http" || net.scheme url == lit "https")
      then Checked.refused (SsrfError.forbidden_scheme (net.scheme url))
      else if not (is_empty (net.username url)) || is_present (net.password url)
      then Checked.refused SsrfError.credentials_in_url
      else if is_present (net.host_str url)
      then Checked.allowed url
      else Checked.refused SsrfError.missing_host

  unfoldable pub parse_and_check_url : Str → Checked net.Url
  unfolding check_url trim
  parse_and_check_url raw = elim (net.parse (trim raw)) [
    | none ↦ Checked.refused (SsrfError.invalid_url (net.parse_error (trim raw)))
    | some url ↦ check_url url
  ]

  unfoldable pub is_denied_host : EgressPolicy → Str → Bool
  is_denied_host policy host =
      any (λ h. h == host) always_denied_hosts
      || any (λ h. to_ascii_lowercase h == host) policy.extra_denied_hosts

  -- The loop over the addresses: the error that it returns early.
  unfoldable pub screen : Str → Bool → List (IpAddr × ℕ) → Option SsrfError
  unfolding classify_ip
  screen host allow_private [] = none
  screen host allow_private ((addr, port) ∷ addrs) = elim (classify_ip addr allow_private) [
    | some reason ↦ some (SsrfError.blocked_address host addr reason)
    | none ↦ screen host allow_private addrs
  ]

  -- What is done with the addresses of a host.
  unfoldable pub screen_all :
      EgressPolicy → net.Url → Str → List (IpAddr × ℕ) → Checked ValidatedUrl
  unfolding screen
  screen_all policy url host addrs =
      if is_empty addrs
      then Checked.refused (SsrfError.dns_failure (host ++ lit " resolved to no addresses"))
      else elim (screen host policy.allow_private_ranges addrs) [
        | some e ↦ Checked.refused e
        | none ↦ Checked.allowed (record { url = url; host = host; addrs = addrs })
      ]

  unfoldable pub resolve_and_screen : EgressPolicy → net.Url → Str → ℕ → Checked ValidatedUrl
  unfolding screen_all
  resolve_and_screen policy url host port = elim (net.lookup_host host port) [
    | none ↦ Checked.refused (SsrfError.dns_failure (net.lookup_error host port))
    | some addrs ↦ screen_all policy url host addrs
  ]

  unfoldable pub port_of : net.Url → ℕ
  port_of url = elim (net.port_or_known_default url) [ none ↦ 443 | some port ↦ port ]

  unfoldable pub after_host : EgressPolicy → net.Url → Checked ValidatedUrl
  unfolding resolve_and_screen is_denied_host port_of
  after_host policy url = elim (net.host_str url) [
    | none ↦ Checked.refused SsrfError.missing_host
    | some name ↦
        let host = to_ascii_lowercase name in
        if is_denied_host policy host
        then Checked.refused (SsrfError.denied_host host)
        else resolve_and_screen policy url host (port_of url)
  ]

  unfoldable pub validate_outbound_url : Str → EgressPolicy → Checked ValidatedUrl
  unfolding parse_and_check_url after_host
  validate_outbound_url raw policy = and_then (parse_and_check_url raw) (after_host policy)
