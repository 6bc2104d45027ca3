-- ===== src/Api.antt =====
-- coordinator/api.py: what the request handlers share. `World` is the part of `app.state` and of
-- the disk that handlers change, `Env` the part that they only read, with the libraries. A handler
-- is given the time that `time.time()` returns, in milliseconds: one reading for a request.
pub mod Auth
pub mod Orgs
pub mod Enroll
pub mod SelfEnroll
pub mod Leave
pub mod Serve
pub mod Models
pub mod Contribute
pub mod Aggregate
pub mod Rounds
use threat_hunting_platform.Prelude.{ℕ, ◌≡◌, String, Bytes, Option, List, Bool}
use threat_hunting_platform.Prelude.Int.{ℤ}
use threat_hunting_platform.Store.Rows.{Reason, Store}
use threat_hunting_platform.Audit.{Hash, AuditTrail, log}
use threat_hunting_platform.Attestation.{Value, Dict, Wire}
use threat_hunting_platform.Aggregation.{Json}
use threat_hunting_platform.Ca.{Key, Certificate, Crl, X509}
use threat_hunting_platform.SealBox.{Crypto}
use threat_hunting_platform.Trust.{TrustManager, Xgboost}
use threat_hunting_platform.Security.{Tokens, FlAuthManager}

-- A body, or the status of an HTTPException; an exception that is not caught has status 500.
pub data Reply {ℓ} (A : Type ℓ) : Type ℓ where
  ok : A → Reply A
  fail : ℕ → Reply A

pub ok_eq {ℓ} : {A : Type ℓ} (a b : A) → ok a ≡ ok b → a ≡ b
ok_eq a b e = cc

-- `crl` is the revocation list that the middleware holds, `files` what is on the disk.
pub record World : Type 0 where
  pub store : Store
  pub audit : AuditTrail
  pub crl : Option Crl
  pub files : List (String × Bytes)

-- `is_ed25519_pem` and `parse_time` stand for the parsers of keys and of ISO 8601 texts,
-- `path_of_contribution`, `path_of_round` and `crl_path` for the names of files, `show_round` and
-- `show_version` for "round_7" and "version_7", `short` for the slice `[:16]` of a text.
-- `str_of` is `str` on a JSON value, `cut` the slice `[:200]`. `show_reason` is the text of a reason with its figures. `parse_int` and `truncate` are `int` on
-- texts and floats, `sqlite_text` what SQLite compares a bound value with that is no text, and
-- `other_status` the failure, 400 or 500, on a JSON text that is no object.
pub record Env : Type 0 where
  pub wire : Wire
  pub hash : Hash
  pub json : Json
  pub xgb : Xgboost
  pub tokens : Tokens
  pub auth_manager : FlAuthManager
  pub coord_priv : Option String
  pub x509 : X509
  pub ca_priv : Option Key
  pub ca_cert : Option Certificate
  pub box : Crypto
  pub urlsafe_b64encode : Bytes → String
  pub urlsafe_b64decode : String → Option Bytes
  pub b64encode : Bytes → String
  pub crl_path : String
  pub environ : String → Option String
  pub trust_manager : Option TrustManager
  pub require_mtls : Bool
  pub default_observation_hours : ℕ
  pub max_model_bytes : ℕ
  pub size_of : Bytes → ℕ
  pub parse_time : String → Option ℕ
  pub show_round : ℕ → String
  pub show_version : ℕ → String
  pub short : String → String
  pub show_org : String → String
  pub show_number : ℕ → String
  pub show_reason : Reason → String
  pub str_of : Value → String
  pub cut : String → String
  pub parse_int : String → Option ℤ
  pub truncate : ℕ → ℤ
  pub sqlite_text : Value → Option String
  pub other_status : Bytes → ℕ
  pub path_of_round : ℕ → String
  pub path_of_contribution : ℕ → String → String → String

-- `_audit(request).log(...)`
unfoldable pub audit_log : Env → String → String → String → Dict → ℕ → World → World
unfolding log
audit_log env action actor target details now w = record w {
  audit = log env.hash action actor target (env.wire.dumps details) now w.audit;
}
