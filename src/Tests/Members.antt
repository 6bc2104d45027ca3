-- ===== src/Tests/Members.antt =====
-- coordinator/mtls_middleware.py with coordinator/api.py: a coordinator whose libraries read the
-- certificates and the token of a small federation.
mod Certificates
mod Enrolments
mod Removals
mod Messages
mod Boxes
mod Logins
use threat_hunting_platform.Prelude.{
  String, false, none, some, [], ◌∷◌, ◌==◌, string_Eq, if◌then◌else◌,
}
use threat_hunting_platform.Store.Rows.{Store, EnrollToken}
use threat_hunting_platform.Attestation.{text, Dict, Wire, object, invalid}
use threat_hunting_platform.Ca.{Certificate, X509, Contents, elliptic, ed25519, common_name}
use threat_hunting_platform.Api.{Env, World}
use threat_hunting_platform.Api.Enroll.{Drawn}
use threat_hunting_platform.Api.SelfEnroll.{EnrollWithTokenRequest}
use threat_hunting_platform.Mtls.{Connection, Texts, der, chain}
use threat_hunting_platform.Tests.Requests as Requests
use threat_hunting_platform.Tests.Requests.{store}

-- the certificate 77 of acme, valid for 1000 seconds
abbrev pub acme_cert : Certificate
acme_cert = record {
  contents = record {
    subject = (common_name, "acme") ∷ [];
    issuer = (common_name, "authority") ∷ [];
    public_key = ed25519 "acme_key";
    serial_number = 77;
    not_valid_before = 0;
    not_valid_after = 1000000;
    extensions = [];
  };
  tbs_certificate_bytes = "tbs";
  signature = "sealed";
  signature_hash_algorithm = some "sha256";
}

-- the token "token" is for beta, and "leave" is acme's wish to leave
abbrev pub beta_token : Dict
beta_token =
    ("type", text "fl.enroll_token.v1")
    ∷ ("org_id", text "beta")
    ∷ ("display_name", text "Beta")
    ∷ ("jti", text "jti")
    ∷ []

abbrev pub acme_leaves : Dict
acme_leaves = ("type", text "fl.leave_request.v1") ∷ ("org_id", text "acme") ∷ []

abbrev pub wire : Wire
wire = record Requests.wire {
  loads = λ b.
      if b == "token"
      then object beta_token
      else if b == "leave"
      then object acme_leaves
      else invalid;
}

-- "acme" loads as the certificate of acme
abbrev pub env : Env
env = record Requests.env {
  wire = wire;
  x509 = record Requests.x509 { load_der = λ b. if b == "acme" then some acme_cert else none };
}

abbrev pub texts : Texts
texts = record { upper = λ t. t; unquote = λ t. t }

-- a connection with a certificate of these bytes
abbrev pub connection : String → Connection
connection b = record {
  client_cert_chain = some (chain (der b ∷ []));
  peer_cert = none;
  transport_der = none;
  dev_mtls_org_id = none;
  ssl_client_verify = none;
  ssl_client_cert = none;
}

abbrev pub beta_row : EnrollToken
beta_row = record {
  jti = "jti";
  org_id = "beta";
  display_name = "Beta";
  issued_at = 0;
  expires_at = 9000;
  consumed = false;
  consumed_at = none;
}

-- a token for beta has been minted
abbrev pub world : World
world = record Requests.world { store = record store { enrollment_tokens = beta_row ∷ [] } }

abbrev pub beta : EnrollWithTokenRequest
beta = record {
  token = "token.signed";
  org_id = "beta";
  ed25519_pub_pem = "beta_key";
  x25519_pub_pem = "beta_box";
  pop_signature = "signed";
}

abbrev pub drawn : Drawn
drawn = record { serial = 78; api_key = "beta_api_key"; ephemeral = "ephemeral" }
