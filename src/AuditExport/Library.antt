-- ===== src/AuditExport/Library.antt =====
-- What secureprompt-common/src/audit_export.rs calls of the libraries for SHA-256, hex, base64,
-- Ed25519, JSON, UUIDs and instants, with what is documented of them.
use secureprompt.Prelude.{ℕ, ◌<◌, ◌≡◌, Bool, true, Option, some, length, All}
use secureprompt.Prelude.Int.{ℤ}
use secureprompt.Text.{Str}
use secureprompt.Types.{Uuid}
use secureprompt.AuditExport.Manifest.{Manifest}

-- `Json` is a text in JSON, of which the program reads the bytes.
pub record Library : Type 1 where
  pub sha256 : Str → Str
  pub hex_encode : Str → Str
  pub hex_decode : Str → Option Str
  pub b64_encode : Str → Str
  pub b64_decode : Str → Option Str
  pub VerifyingKey : Type 0
  pub SigningKey : Type 0
  pub key_from_bytes : Str → Option VerifyingKey
  pub key_to_bytes : VerifyingKey → Str
  pub verify : VerifyingKey → (message signature : Str) → Bool
  pub signing_from_bytes : Str → SigningKey
  pub verifying_key : SigningKey → VerifyingKey
  pub sign : SigningKey → Str → Str
  pub Json : Type 0
  pub Value : Type 0
  pub as_bytes : Json → Str
  pub to_json : Manifest → Option Json
  pub parse_value : Json → Option Value
  pub schema_version_u64 : Value → Option ℕ
  pub parse_manifest : Json → Option Manifest
  pub uuid_text : Uuid → Str
  pub instant_json : ℤ → Option Str
  pub to_rfc3339 : ℤ → Str

-- Thirty-two bytes.
abbrev pub IsDigest : Str → Type 0
IsDigest d = (length d ≡ 32) × All (λ b. b < 256) d

-- A digest is thirty-two bytes, hexadecimal text reads back, and a UUID is printed in 36 characters.
pub record HashLaws (l : Library) : Type 0 where
  pub sha256-IsDigest : (s : Str) → IsDigest (l.sha256 s)
  pub decode-encode : (d : Str) → IsDigest d → l.hex_decode (l.hex_encode d) ≡ some d
  pub length-uuid_text : (u : Uuid) → length (l.uuid_text u) ≡ 36

-- Base64 reads back, a key too, and a key's own signature verifies.
pub record SignLaws (l : Library) : Type 0 where
  pub b64_round : (s : Str) → l.b64_decode (l.b64_encode s) ≡ some s
  pub key_round : (k : l.VerifyingKey) → l.key_from_bytes (l.key_to_bytes k) ≡ some k
  pub length-key_to_bytes : (k : l.VerifyingKey) → length (l.key_to_bytes k) ≡ 32
  pub length-sign : (k : l.SigningKey) (m : Str) → length (l.sign k m) ≡ 64
  pub verify-sign :
      (k : l.SigningKey) (m : Str) → l.verify (l.verifying_key k) m (l.sign k m) ≡ true

-- A manifest is rendered, and reads back, as a typed value and as a document.
pub record JsonLaws (l : Library) : Type 0 where
  pub rendered :
      (m : Manifest)
      → (json : l.Json) × (l.to_json m ≡ some json)
        × (l.parse_manifest json ≡ some m)
        × (value : l.Value) × (l.parse_value json ≡ some value)
        × (l.schema_version_u64 value ≡ some m.schema_version)
