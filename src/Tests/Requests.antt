-- ===== src/Tests/Requests.antt =====
-- coordinator/api.py: a small coordinator with one organisation and one round, for requests.
mod Bootstrap
mod Starting
mod Intake
mod Status
mod Versions
use threat_hunting_platform.Security.{auth_manager}
use threat_hunting_platform.Aggregation.{Document, document, not_json}
use threat_hunting_platform.Prelude.{
  String, none, some, [], ◌∷◌, replicate, ◌<>◌, true, false, ◌==◌, string_Eq, nat_Eq, if◌then◌else◌,
}
use threat_hunting_platform.Trust.{default_manager}
use threat_hunting_platform.Store.Challenges.{new_challenge}
use threat_hunting_platform.Attestation.{text, int, Dict, invalid, object, Wire}
use threat_hunting_platform.Prelude.Int.{pos}
use threat_hunting_platform.Store.Rows.{Store, Org, RoundParams, empty, active}
use threat_hunting_platform.Store.Rounds.{new_round}
use threat_hunting_platform.Ca.{Certificate, X509, elliptic, common_name}
use threat_hunting_platform.SealBox.{Crypto, x25519}
use threat_hunting_platform.Api.{Env, World}

-- An attestation for round 1 with the challenge "nonce_a" or "nonce_b".
abbrev pub message : String → Dict
message challenge =
    ("type", text "fl.contribution.v1")
    ∷ ("round_id", int (pos 1))
    ∷ ("org_id", text "acme")
    ∷ ("model_sha256", text "model")
    ∷ ("num_examples", int (pos 10))
    ∷ ("challenge", text challenge)
    ∷ ("submitted_at", text "noon")
    ∷ []

-- Texts stand for their hashes and encodings; the signature of a text is "signed".
abbrev pub wire : Wire
wire = record {
  canonical = λ d. "canonical";
  dumps = λ d. "details";
  loads = λ b.
      if b == "att_a"
      then object (message "nonce_a")
      else if b == "att_b"
      then object (message "nonce_b")
      else invalid;
  isoformat = λ n. "noon";
  sorted_texts = λ ts. ts;
  sha256 = λ b. b;
  hex = λ b. b;
  unhex = λ t. some t;
  sign = λ k m. "signed";
  verify = λ k m s. s == "signed";
  public_of = λ k. k;
  public_key_to_pem = λ k. k;
  public_key_from_pem = λ t. some t;
  private_key_from_pem = λ t. some t;
}

abbrev pub model : Document
model = record {
  feature_names = "cpu" ∷ "net" ∷ [];
  num_feature = 2;
  trees = record { id = 0; body = "a" } ∷ [];
  tree_info = 0 ∷ [];
  iteration_indptr = 0 ∷ 1 ∷ [];
  num_trees = some 1;
  rest = "";
}

-- "sealed" is what an elliptic-curve key signs.
abbrev pub x509 : X509
x509 = record {
  encode = λ c. "tbs";
  sign = λ k h m. "sealed";
  verify_ed25519 = λ k s m. false;
  verify_ecdsa = λ k h s m. s == "sealed";
  public_key = λ k. k;
  load_der = λ b. none;
  load_pem = λ b. none;
  to_pem = λ c. "certificate";
  load_private_key = λ b. none;
  private_key_to_pem = λ k. "private key";
  public_key_to_pem = λ k. "public key";
  crl_to_pem = λ k h c. "crl";
}

-- A raw key is 32 sevens, an exchange gives no octets, and encryption changes nothing.
abbrev pub box : Crypto
box = record {
  load_pem_public_key = λ b. some (x25519 "box");
  load_pem_private_key = λ b. some (x25519 "box");
  public_key = λ k. "box";
  raw_public = λ k. replicate 32 7;
  from_public_bytes = λ b. some "box";
  exchange = λ a b. some [];
  hkdf = λ n s i k. [];
  encrypt = λ k n p a. p;
  decrypt = λ k n p a. some p;
  b64encode = λ b. "sealed";
  b64decode = λ t. none;
  encode = λ t. [];
}

abbrev pub ca_cert : Certificate
ca_cert = record {
  contents = record {
    subject = (common_name, "authority") ∷ [];
    issuer = (common_name, "authority") ∷ [];
    public_key = elliptic "ca";
    serial_number = 1;
    not_valid_before = 0;
    not_valid_after = 1000000;
    extensions = [];
  };
  tbs_certificate_bytes = "tbs";
  signature = "sealed";
  signature_hash_algorithm = some "sha256";
}

-- Every time text reads as 60 seconds; models of at most 100 bytes are taken, and each has 5.
abbrev pub env : Env
env = record {
  wire = wire;
  hash = record { sha256 = λ t. t; show_time = λ n. "t" };
  json = record {
    loads = λ b. if b == "model" then document model else not_json;
    dumps = λ d. "merged";
  };
  xgb = record { load_model = λ b. true; predict = λ b. none };
  tokens = record { encode = λ c s. ""; decode = λ t s n. none; sha256 = λ t. t };
  auth_manager = auth_manager "secret" [];
  coord_priv = some "coordinator";
  x509 = x509;
  ca_priv = some (elliptic "ca");
  ca_cert = some ca_cert;
  box = box;
  urlsafe_b64encode = λ b. b;
  urlsafe_b64decode = λ t. some t;
  b64encode = λ b. b;
  crl_path = "crl.pem";
  environ = λ t. none;
  trust_manager = some (default_manager none);
  require_mtls = false;
  default_observation_hours = 48000;
  max_model_bytes = 100;
  size_of = λ b. 5;
  parse_time = λ t. some 60000;
  show_round = λ n. "round";
  show_version = λ n. "version";
  show_org = λ t. "org:" <> t;
  show_number = λ n. "n";
  show_reason = λ r. "reason";
  short = λ t. t;
  str_of = λ v. "value";
  cut = λ t. t;
  parse_int = λ t. none;
  truncate = λ n. pos n;
  sqlite_text = λ v. none;
  other_status = λ b. 400;
  path_of_round = λ n. "round.json";
  path_of_contribution = λ n o h. "contribution.json";
}

abbrev pub acme : Org
acme = record {
  org_id = "acme";
  display_name = "Acme";
  api_key_hash = "key";
  public_key_pem = some "acme_key";
  cert_pem = none;
  cert_serial = some 77;
  enrolled_at = 0;
  enrolled_by = "root";
  status = active;
  trust_score = 90;
  last_seen_at = none;
  last_accuracy = none;
  notes = none;
  leave_requested_at = none;
  leave_attestation = none;
  leave_signature = none;
  removal_attestation = none;
  removal_signature = none;
}

abbrev pub params : RoundParams
params = record {
  epsilon = 1000;
  num_boost_rounds = 10;
  min_clients = 1;
  target_org_ids = none;
  observation_hours = 1;
}

-- round 1 runs since 1 second, with a window of 3.6 seconds and two challenges of acme
abbrev pub store : Store
store = record empty {
  orgs = acme ∷ [];
  rounds = new_round 1 "root" params 1 1000 ∷ [];
  challenges =
      new_challenge "acme" 1 "nonce_a" 600 2000 ∷ new_challenge "acme" 1 "nonce_b" 600 2000 ∷ [];
  next_round = 2;
}

abbrev pub world : World
world = record {
  store = store;
  audit = record { audit_log = []; prev_hash = "genesis" };
  crl = none;
  files = [];
}
