-- ===== src/UrlGuard/Addresses.antt =====
-- secureprompt-api/src/security/url_guard.rs, `classify_ip`: an address is judged alike in every form,
-- and the leave for private ranges opens nothing else.
use secureprompt.Prelude.{
  ℕ, ◌+◌, ◌*◌, ◌/◌, ◌%◌, ◌<◌, ◌≡◌, ◌∙◌, ◌⊎◌, inl, inr, ap, Bool, true, false, ◌&&◌, Option, none,
  some, arith, if◌then◌else◌, nat_beq, nat_beq_iff,
}
use secureprompt.Text.{Str, lit}
use secureprompt.UrlGuard.{
  Ipv4Addr, Ipv6Addr, IpAddr, classify_ip, classify_v4, classify_v6, to_ipv4_mapped, low_v4, low_is,
  first_five_are_zero,
}

abbrev pub is_blocked : Option Str → Bool
is_blocked none = false
is_blocked (some reason) = true

-- The octets are bytes.
abbrev pub IsBytes : Ipv4Addr → Type 0
IsBytes x = (x.a < 256) × (x.b < 256) × (x.c < 256) × (x.d < 256)

-- `::ffff:a.b.c.d` and `::a.b.c.d`
abbrev pub embedded : ℕ → Ipv4Addr → Ipv6Addr
embedded s5 x = record {
  s0 = 0;
  s1 = 0;
  s2 = 0;
  s3 = 0;
  s4 = 0;
  s5 = s5;
  s6 = x.a * 256 + x.b;
  s7 = x.c * 256 + x.d;
}

high : (m n : ℕ) → n < 256 → (m * 256 + n) / 256 ≡ m
high m n h = omega (arith, h)

low : (m n : ℕ) → n < 256 → (m * 256 + n) % 256 ≡ n
low m n h = omega (arith, h)

low_v4-embedded : (s5 : ℕ) (x : Ipv4Addr) → IsBytes x → low_v4 (embedded s5 x) ≡ x
low_v4-embedded s5 x h = λ i. record {
  a = high (x.a) (x.b) h.1 i;
  b = low (x.a) (x.b) h.1 i;
  c = high (x.c) (x.d) h.3 i;
  d = low (x.c) (x.d) h.3 i;
}

mapped_lem :
    (x : Ipv4Addr) (allow_private : Bool)
    → IsBytes x
    → classify_ip (IpAddr.v6 (embedded 65535 x)) allow_private ≡ classify_v4 x allow_private
unfolding classify_ip to_ipv4_mapped
mapped_lem x allow_private h = ap (λ y. classify_v4 y allow_private) (low_v4-embedded 65535 x h)

this_network_blocked :
    (x : Ipv4Addr) (allow_private : Bool)
    → x.a ≡ 0
    → is_blocked (classify_v4 x allow_private) ≡ true
unfolding classify_v4
this_network_blocked x allow_private h = ground (arith, h)

special_forms :
    (zero_high one_low zero_low : Bool) (rest : Option Str) (a b : Str)
    → (zero_high ≡ true → is_blocked rest ≡ true)
    → is_blocked
        (if zero_high && one_low then some a else if zero_high && zero_low then some b else rest)
      ≡ is_blocked rest
special_forms zero_high one_low zero_low rest a b h = ground (arith, h)

first_octet : (a b : ℕ) → nat_beq (a * 256 + b) 0 ≡ true → a ≡ 0
first_octet a b h = omega (arith, (nat_beq_iff (a * 256 + b) 0).0 h)

compatible_lem :
    (x : Ipv4Addr) (allow_private : Bool)
    → IsBytes x
    → is_blocked (classify_ip (IpAddr.v6 (embedded 0 x)) allow_private)
      ≡ is_blocked (classify_v4 x allow_private)
unfolding classify_ip to_ipv4_mapped
compatible_lem x allow_private h =
    special_forms (nat_beq (x.a * 256 + x.b) 0) (nat_beq (x.c * 256 + x.d) 1)
      (nat_beq (x.c * 256 + x.d) 0) (classify_v4 (low_v4 (embedded 0 x)) allow_private) _ _
      (λ z.
        ap (λ y. is_blocked (classify_v4 y allow_private)) (low_v4-embedded 0 x h)
        ∙ this_network_blocked x allow_private (first_octet (x.a) (x.b) z))
    ∙ ap (λ y. is_blocked (classify_v4 y allow_private)) (low_v4-embedded 0 x h)

-- The leave for private ranges.
leave_v4 :
    (x : Ipv4Addr) (reason : Str)
    → classify_v4 x false ≡ some reason
    → (classify_v4 x true ≡ some reason) ⊎ (reason ≡ lit "private range")
unfolding classify_v4
leave_v4 x reason h = ground (arith, h)

leave_v6 :
    (x : Ipv6Addr) (reason : Str)
    → classify_v6 x false ≡ some reason
    → (classify_v6 x true ≡ some reason) ⊎ (reason ≡ lit "unique-local")
unfolding classify_v6
leave_v6 x reason h = ground (arith, h)

-- An address of version 4 and the two addresses of version 6 that stand for it are judged alike: the
-- mapped one for the same reason, the compatible one blocked or not with it.
pub classify_ip-embedded :
    (x : Ipv4Addr) (allow_private : Bool)
    → IsBytes x
    → (classify_ip (IpAddr.v6 (embedded 65535 x)) allow_private
        ≡ classify_ip (IpAddr.v4 x) allow_private)
      × (is_blocked (classify_ip (IpAddr.v6 (embedded 0 x)) allow_private)
          ≡ is_blocked (classify_ip (IpAddr.v4 x) allow_private))
unfolding classify_ip
classify_ip-embedded x allow_private h =
    (mapped_lem x allow_private h, compatible_lem x allow_private h)

-- Blocked for the same reason, or for one that the leave takes away.
abbrev pub IsKept : Str → Option Str → Type 0
IsKept reason judged =
    (judged ≡ some reason) ⊎ ((reason ≡ lit "private range") ⊎ (reason ≡ lit "unique-local"))

v4-IsKept :
    (x : Ipv4Addr) (reason : Str)
    → classify_v4 x false ≡ some reason
    → IsKept reason (classify_v4 x true)
v4-IsKept x reason h = elim (leave_v4 x reason h) [
  | inl same ↦ inl same
  | inr private ↦ inr (inl private)
]

v6-IsKept :
    (x : Ipv6Addr) (reason : Str)
    → classify_v6 x false ≡ some reason
    → IsKept reason (classify_v6 x true)
v6-IsKept x reason h = elim (leave_v6 x reason h) [
  | inl same ↦ inl same
  | inr local ↦ inr (inr local)
]

-- The branches of the judgement on an address of version 6.
abbrev branches : Option Ipv4Addr → Bool → Bool → Bool → Ipv6Addr → Bool → Option Str
branches mapped one nought compatible x allow_private = elim mapped [
  | some y ↦ classify_v4 y allow_private
  | none ↦
      if one
      then some (lit "loopback")
      else if nought
      then some (lit "unspecified")
      else if compatible
      then classify_v4 (low_v4 x) allow_private
      else classify_v6 x allow_private
]

branches-IsKept :
    (mapped : Option Ipv4Addr) (one nought compatible : Bool) (x : Ipv6Addr) (reason : Str)
    → branches mapped one nought compatible x false ≡ some reason
    → IsKept reason (branches mapped one nought compatible x true)
branches-IsKept (some y) one nought compatible x reason h = v4-IsKept y reason h
branches-IsKept none true nought compatible x reason h = inl h
branches-IsKept none false true compatible x reason h = inl h
branches-IsKept none false false true x reason h = v4-IsKept (low_v4 x) reason h
branches-IsKept none false false false x reason h = v6-IsKept x reason h

-- An address that is blocked stays blocked, for the same reason, where private ranges are allowed,
-- unless the reason is that it lies in a private range or is a unique local address.
pub classify_ip-private :
    (addr : IpAddr) (reason : Str)
    → classify_ip addr false ≡ some reason
    → IsKept reason (classify_ip addr true)
unfolding classify_ip
classify_ip-private (IpAddr.v4 x) reason h = v4-IsKept x reason h
classify_ip-private (IpAddr.v6 x) reason h =
    branches-IsKept (to_ipv4_mapped x) (low_is x 1) (low_is x 0)
      (first_five_are_zero x && nat_beq (x.s5) 0) x reason h
