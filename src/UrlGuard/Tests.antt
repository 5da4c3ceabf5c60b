-- ===== src/UrlGuard/Tests.antt =====
-- The guard at concrete addresses, with a resolver that knows one host.
use secureprompt.Prelude.{◌≡◌, refl, false, true, none, some, [], ◌∷◌, arith}
use secureprompt.Text.{lit}
use secureprompt.UrlGuard.{
  Ipv4Addr, IpAddr, EgressPolicy, Net, Checked, ValidatedUrl, classify_ip, validate_outbound_url,
}
use secureprompt.UrlGuard.Addresses.{
  embedded, is_blocked, IsKept, IsBytes, classify_ip-embedded, classify_ip-private,
}
use secureprompt.UrlGuard.Validated.{IsScreened, validate_outbound_url-IsScreened}

abbrev metadata : Ipv4Addr
metadata = record { a = 169; b = 254; c = 169; d = 254 }

abbrev lan : Ipv4Addr
lan = record { a = 10; b = 0; c = 0; d = 7 }

abbrev public : Ipv4Addr
public = record { a = 1; b = 2; c = 3; d = 4 }

abbrev one_host : Net
one_host = record {
  Url = Unit;
  parse = λ text. some tt;
  parse_error = λ text. [];
  scheme = λ url. lit "https";
  username = λ url. [];
  password = λ url. none;
  host_str = λ url. some (lit "API");
  port_or_known_default = λ url. none;
  lookup_host = λ host port. some ((IpAddr.v4 public, 443) ∷ []);
  lookup_error = λ host port. [];
}

abbrev strict_policy : EgressPolicy
strict_policy = record { allow_private_ranges = false; extra_denied_hosts = [] }

abbrev found : ValidatedUrl one_host
found = record { url = tt; host = lit "api"; addrs = (IpAddr.v4 public, 443) ∷ [] }

validate_found : validate_outbound_url one_host [] strict_policy ≡ Checked.allowed found
unfolding validate_outbound_url
validate_found = refl

validate_outbound_url-IsScreened_example : IsScreened one_host [] strict_policy found
validate_outbound_url-IsScreened_example =
    validate_outbound_url-IsScreened one_host [] strict_policy found validate_found

metadata-IsBytes : IsBytes metadata
metadata-IsBytes = (omega arith, omega arith, omega arith, omega arith)

classify_ip-embedded_example :
    (classify_ip (IpAddr.v6 (embedded 65535 metadata)) true ≡ classify_ip (IpAddr.v4 metadata) true)
    × (is_blocked (classify_ip (IpAddr.v6 (embedded 0 metadata)) true)
        ≡ is_blocked (classify_ip (IpAddr.v4 metadata) true))
classify_ip-embedded_example = classify_ip-embedded metadata true metadata-IsBytes

metadata_blocked : classify_ip (IpAddr.v4 metadata) true ≡ some (lit "cloud metadata endpoint")
unfolding classify_ip
metadata_blocked = refl

lan_blocked : classify_ip (IpAddr.v4 lan) false ≡ some (lit "private range")
unfolding classify_ip
lan_blocked = refl

classify_ip-private_example : IsKept (lit "private range") (classify_ip (IpAddr.v4 lan) true)
classify_ip-private_example = classify_ip-private (IpAddr.v4 lan) (lit "private range") lan_blocked
