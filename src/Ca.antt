-- ===== src/Ca.antt =====
-- flproto/ca.py: certificates and the revocation list. The cryptography library is the parameter
-- `X509`, the numbers that it draws are arguments, and times are milliseconds. A certificate keeps
-- its validity in whole seconds. On ℕ the minute before `now` stops at the epoch, which no
-- comparison with a later time can tell from the time before it.
pub mod Issued
pub mod Setup
use threat_hunting_platform.Prelude.{
  ℕ, ◌+◌, ◌-◌, ◌*◌, ◌/◌, String, Bytes, Bool, true, false, ◌||◌, Option, none, some, List, [], ◌∷◌,
  map, nat_eq, ltb, leb,
}
use threat_hunting_platform.Prelude.Table.{any}
use threat_hunting_platform.Store.Orgs.{nonempty}

-- A key of either half, by its type: Ed25519, elliptic curve, or any other.
pub data Key : Type 0 where
  ed25519 elliptic other_key : String → Key

pub data NameOid : Type 0 where
  common_name organization_name organizational_unit_name : NameOid

abbrev pub Name : Type 0
Name = List (NameOid × String)

-- `key_usage` names the usages that are set.
pub data Extension : Type 0 where
  basic_constraints : Bool → Option ℕ → Extension
  key_usage : List String → Extension
  extended_key_usage : String → Extension
  subject_key_identifier authority_key_identifier : Key → Extension
  subject_alternative_name : String → Extension

-- What is signed; each extension is critical or not.
pub record Contents : Type 0 where
  pub subject : Name
  pub issuer : Name
  pub public_key : Key
  pub serial_number : ℕ
  pub not_valid_before : ℕ
  pub not_valid_after : ℕ
  pub extensions : List (Extension × Bool)

pub record Certificate : Type 0 where
  pub contents : Contents
  pub tbs_certificate_bytes : Bytes
  pub signature : Bytes
  pub signature_hash_algorithm : Option String

-- An entry of a revocation list: the serial and the time of the revocation.
pub record Crl : Type 0 where
  pub issuer : Name
  pub last_update : ℕ
  pub next_update : ℕ
  pub revoked : List (ℕ × ℕ)

-- A `verify` that raises is false, a text that does not load is `none`. `sign` takes the hash.
pub record X509 : Type 0 where
  pub encode : Contents → Bytes
  pub sign : Key → Option String → Bytes → Bytes
  pub verify_ed25519 : String → Bytes → Bytes → Bool
  pub verify_ecdsa : String → Option String → Bytes → Bytes → Bool
  pub public_key : Key → Key
  pub load_der : Bytes → Option Certificate
  pub load_pem : Bytes → Option Certificate
  pub to_pem : Certificate → Bytes
  pub load_private_key : Bytes → Option Key
  pub private_key_to_pem : Key → Bytes
  pub public_key_to_pem : Key → Bytes
  pub crl_to_pem : Key → Option String → Crl → Bytes

abbrev pub minute : ℕ
minute = 60000

abbrev pub day : ℕ
day = 86400000

-- a time as a certificate keeps it
abbrev pub to_second : ℕ → ℕ
to_second t = t / 1000 * 1000

unfoldable pub ca_sign_algorithm : Key → Option String
ca_sign_algorithm (ed25519 k) = none
ca_sign_algorithm _ = some "sha256"

module _ (x : X509) where
  -- `.sign(private_key=ca_priv, algorithm=_ca_sign_algorithm(ca_priv))`
  unfoldable pub sign_certificate : Key → Contents → Certificate
  unfolding ca_sign_algorithm
  sign_certificate ca_priv c = record {
    contents = c;
    tbs_certificate_bytes = x.encode c;
    signature = x.sign ca_priv (ca_sign_algorithm ca_priv) (x.encode c);
    signature_hash_algorithm = ca_sign_algorithm ca_priv;
  }

  -- `serial` is `x509.random_serial_number()`.
  unfoldable pub issue_client_cert :
      Key → Certificate → String → String → Option String → ℕ → ℕ → ℕ → Certificate
  unfolding sign_certificate
  issue_client_cert ca_priv ca_cert client_pub org_id display_name validity_days serial now =
      sign_certificate ca_priv (record {
        subject =
            (common_name, org_id)
            ∷ (organization_name, elim (nonempty display_name) [ none ↦ org_id | some n ↦ n ])
            ∷ (organizational_unit_name, "fl-client")
            ∷ [];
        issuer = ca_cert.contents.subject;
        public_key = ed25519 client_pub;
        serial_number = serial;
        not_valid_before = to_second (now - minute);
        not_valid_after = to_second (now + validity_days * day);
        extensions =
            (basic_constraints false none, true)
            ∷ (key_usage ("digital_signature" ∷ []), true)
            ∷ (extended_key_usage "client_auth", false)
            ∷ (subject_key_identifier (ed25519 client_pub), false)
            ∷ (authority_key_identifier ca_cert.contents.public_key, false)
            ∷ [];
      })

  unfoldable pub issue_server_cert : Key → Certificate → Key → String → ℕ → ℕ → ℕ → Certificate
  unfolding sign_certificate
  issue_server_cert ca_priv ca_cert server_pub hostname validity_days serial now =
      sign_certificate ca_priv (record {
        subject = (common_name, hostname) ∷ (organizational_unit_name, "fl-coordinator") ∷ [];
        issuer = ca_cert.contents.subject;
        public_key = server_pub;
        serial_number = serial;
        not_valid_before = to_second (now - minute);
        not_valid_after = to_second (now + validity_days * day);
        extensions =
            (basic_constraints false none, true)
            ∷ (key_usage ("digital_signature" ∷ []), true)
            ∷ (extended_key_usage "server_auth", false)
            ∷ (subject_alternative_name hostname, false)
            ∷ (authority_key_identifier ca_cert.contents.public_key, false)
            ∷ [];
      })

  abbrev verify_by : Key → Certificate → Bool
  verify_by (ed25519 k) cert = x.verify_ed25519 k cert.signature cert.tbs_certificate_bytes
  verify_by (elliptic k) cert =
      x.verify_ecdsa k cert.signature_hash_algorithm cert.signature cert.tbs_certificate_bytes
  verify_by (other_key k) cert = false

  unfoldable pub verify_cert_signed_by_ca : Certificate → Certificate → Bool
  verify_cert_signed_by_ca cert ca_cert = verify_by ca_cert.contents.public_key cert

-- the first attribute of the type
unfoldable pub first_common_name : Name → Option String
first_common_name [] = none
first_common_name ((common_name, v) ∷ n) = some v
first_common_name ((_, v) ∷ n) = first_common_name n

unfoldable pub cert_org_id : Certificate → Option String
unfolding first_common_name
cert_org_id cert = first_common_name cert.contents.subject

unfoldable pub is_cert_expired : Certificate → ℕ → Bool
is_cert_expired cert now =
    leb cert.contents.not_valid_after now || ltb now cert.contents.not_valid_before

unfoldable pub build_crl : Certificate → List ℕ → ℕ → ℕ → Crl
build_crl ca_cert revoked_serials validity_days now = record {
  issuer = ca_cert.contents.subject;
  last_update = to_second (now - minute);
  next_update = to_second (now + validity_days * day);
  revoked = map (λ serial. (serial, to_second now)) revoked_serials;
}

unfoldable pub is_revoked : Crl → ℕ → Bool
is_revoked crl serial = any (λ (r : ℕ × ℕ). nat_eq r.0 serial) crl.revoked
