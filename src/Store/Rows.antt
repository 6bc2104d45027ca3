-- ===== src/Store/Rows.antt =====
-- The tables of coordinator/store.py: one record for each row type, with the columns as fields, and
-- `Store` for the database. REAL columns hold time in milliseconds, or a trust score in hundredths.
-- A key column that SQLite numbers itself (AUTOINCREMENT) has its next value in `Store`.
use threat_hunting_platform.Prelude.{ℕ, String, Bool, true, false, Option, List, []}
use threat_hunting_platform.Prelude.Int.{ℤ}

-- A quotient of two counts: `correct` of the `total` rows of the validation set.
pub record Fraction : Type 0 where
  pub correct : ℕ
  pub total : ℕ

-- The strings that `set_org_status` admits.
pub data OrgStatus : Type 0 where
  active blocked revoked leave_pending : OrgStatus

abbrev pub is_active : OrgStatus → Bool
is_active active = true
is_active _ = false

abbrev pub is_revoked : OrgStatus → Bool
is_revoked revoked = true
is_revoked _ = false

abbrev pub is_leave_pending : OrgStatus → Bool
is_leave_pending leave_pending = true
is_leave_pending _ = false

pub record Org : Type 0 where
  pub org_id : String
  pub display_name : String
  pub api_key_hash : String
  pub public_key_pem : Option String
  pub cert_pem : Option String
  pub cert_serial : Option ℕ
  pub enrolled_at : ℕ
  pub enrolled_by : String
  pub status : OrgStatus
  pub trust_score : ℕ
  pub last_seen_at : Option ℕ
  pub last_accuracy : Option Fraction
  pub notes : Option String
  pub leave_requested_at : Option ℕ
  pub leave_attestation : Option String
  pub leave_signature : Option String
  pub removal_attestation : Option String
  pub removal_signature : Option String

-- The body of a round's `params_json`; `observation_hours` is in thousandths of an hour, and
-- `epsilon` in thousandths.
pub record RoundParams : Type 0 where
  pub epsilon : ℕ
  pub num_boost_rounds : ℕ
  pub min_clients : ℕ
  pub target_org_ids : Option (List String)
  pub observation_hours : ℕ

pub data RoundStatus : Type 0 where
  running aggregated completed : RoundStatus

abbrev pub is_running : RoundStatus → Bool
is_running running = true
is_running _ = false

abbrev pub is_completed : RoundStatus → Bool
is_completed completed = true
is_completed _ = false

-- The `reason` texts of a contribution's outcome, without the figures that they quote.
pub data Reason : Type 0 where
  accepted_reason trust_below_minimum invalid_structure evaluation_failed : Reason
  below_accuracy accuracy_drop bytes_missing schema_mismatch : Reason

-- One entry of the `contributors` list in `eval_metrics_json`.
pub record Contributor : Type 0 where
  pub org_id : String
  pub accepted : Bool
  pub accuracy : Option Fraction
  pub trust : ℕ
  pub reason : Reason

-- `info` of a merge, and the contributors.
pub record EvalMetrics : Type 0 where
  pub num_models : ℕ
  pub total_trees : ℕ
  pub capped : Bool
  pub contributors : List Contributor

pub record Round : Type 0 where
  pub round_id : ℕ
  pub started_at : ℕ
  pub started_by : String
  pub completed_at : Option ℕ
  pub status : RoundStatus
  pub params : RoundParams
  pub num_clients_invited : ℕ
  pub num_clients_responded : ℕ
  pub num_clients_accepted : ℕ
  pub num_clients_rejected : ℕ
  pub global_model_hash : Option String
  pub eval_metrics : Option EvalMetrics
  pub announce_attestation : Option String
  pub announce_signature : Option String

pub record Challenge : Type 0 where
  pub challenge : String
  pub org_id : String
  pub round_id : ℕ
  pub issued_at : ℕ
  pub expires_at : ℕ
  pub consumed : Bool
  pub consumed_at : Option ℕ

pub record EnrollToken : Type 0 where
  pub jti : String
  pub org_id : String
  pub display_name : String
  pub issued_at : ℕ
  pub expires_at : ℕ
  pub consumed : Bool
  pub consumed_at : Option ℕ

pub record Contribution : Type 0 where
  pub contribution_id : ℕ
  pub round_id : ℕ
  pub org_id : String
  pub received_at : ℕ
  pub model_sha256 : String
  pub num_examples : ℤ
  pub model_path : Option String
  pub signed_attestation : String
  pub signature_hex : String
  pub challenge : String
  pub accepted : Bool
  pub rejection_reason : Option String

-- The strings 'staged', 'active' and 'archived'.
pub data ModelStatus : Type 0 where
  staged published archived : ModelStatus

abbrev pub is_staged : ModelStatus → Bool
is_staged staged = true
is_staged _ = false

abbrev pub is_active_model : ModelStatus → Bool
is_active_model published = true
is_active_model _ = false

pub record GlobalModel : Type 0 where
  pub version_id : ℕ
  pub round_id : ℕ
  pub created_at : ℕ
  pub staged_until : ℕ
  pub status : ModelStatus
  pub model_hash : String
  pub model_path : String
  pub promoted_at : Option ℕ
  pub promoted_by : Option String
  pub eval_metrics : Option EvalMetrics

pub record Store : Type 0 where
  pub orgs : List Org
  pub rounds : List Round
  pub challenges : List Challenge
  pub enrollment_tokens : List EnrollToken
  pub contributions : List Contribution
  pub global_models : List GlobalModel
  pub next_round : ℕ
  pub next_contribution : ℕ
  pub next_version : ℕ

abbrev pub empty : Store
empty = record {
  orgs = [];
  rounds = [];
  challenges = [];
  enrollment_tokens = [];
  contributions = [];
  global_models = [];
  next_round = 1;
  next_contribution = 1;
  next_version = 1;
}
