-- ===== src/Api/Aggregate/Validation.antt =====
-- coordinator/api.py: the trust validation of the accepted contributions in `aggregate_round`.
use threat_hunting_platform.Prelude.{
  ℕ, String, Bytes, false, Option, none, some, List, [], ◌∷◌, nat_Eq, if◌then◌else◌, ◌==◌,
  string_Eq,
}
use threat_hunting_platform.Store.Rows.{Store, Contributor, bytes_missing}
use threat_hunting_platform.Store.Contributions.{AcceptedModel}
use threat_hunting_platform.Trust.{TrustManager, Evaluation, evaluate}
use threat_hunting_platform.Attestation.{build_trust_notification_attestation}
use threat_hunting_platform.Api.{Env}

-- A model that trust validation accepted, with its weight.
pub record Survivor : Type 0 where
  pub org_id : String
  pub model : Bytes
  pub weight : ℕ

-- A signed notification.
pub record TrustUpdate : Type 0 where
  pub org_id : String
  pub signed_attestation : Bytes
  pub signature_hex : String

-- What the loop over the accepted contributions has gathered.
pub record Validated : Type 0 where
  pub store : Store
  pub results : List Contributor
  pub survivors : List Survivor
  pub trust_updates : List TrustUpdate

-- `read_bytes`, where a missing file raises OSError
unfoldable pub read_bytes : String → List (String × Bytes) → Option Bytes
read_bytes path [] = none
read_bytes path ((p, b) ∷ files) = if p == path then some b else read_bytes path files

module _ (env : Env) where
  -- the notification of one evaluation, if the coordinator has its key
  abbrev pub notify : ℕ → String → Evaluation → ℕ → List TrustUpdate → List TrustUpdate
  notify round_id org_id ev now rest = elim env.coord_priv [
    | none ↦ rest
    | some priv ↦
        let tu =
          build_trust_notification_attestation env.wire org_id round_id ev.trust
            (env.show_reason ev.reason) now in
        record {
          org_id = org_id;
          signed_attestation = tu;
          signature_hex = env.wire.hex (env.wire.sign priv tu);
        }
        ∷ rest
  ]

  abbrev pub missing : AcceptedModel → Contributor
  missing c = record {
    org_id = c.org_id;
    accepted = false;
    accuracy = none;
    trust = c.trust_score;
    reason = bytes_missing;
  }

  abbrev pub result_of : AcceptedModel → Evaluation → Contributor
  result_of c ev = record {
    org_id = c.org_id;
    accepted = ev.accepted;
    accuracy = ev.accuracy;
    trust = ev.trust;
    reason = ev.reason;
  }

  abbrev pub survive : AcceptedModel → Bytes → Evaluation → List Survivor → List Survivor
  survive c mb ev rest =
      if ev.accepted
      then record { org_id = c.org_id; model = mb; weight = ev.weight } ∷ rest
      else rest

  unfoldable pub evaluate_one :
      TrustManager → ℕ → AcceptedModel → Option Bytes → Store → Option (Bytes × Evaluation) × Store
  evaluate_one tm now c none s = (none, s)
  evaluate_one tm now c (some mb) s =
      let (ev, s') = evaluate tm env.xgb c.org_id mb c.num_examples now s in (some (mb, ev), s')

  abbrev pub gather : ℕ → ℕ → AcceptedModel → Option (Bytes × Evaluation) → Validated → Validated
  gather round_id now c none rest = record rest { results = missing c ∷ rest.results }
  gather round_id now c (some (mb, ev)) rest = record rest {
    results = result_of c ev ∷ rest.results;
    survivors = survive c mb ev rest.survivors;
    trust_updates = notify round_id c.org_id ev now rest.trust_updates;
  }

  -- the loop over the accepted contributions: the scores change as it runs
  unfoldable pub validate_all :
      TrustManager → ℕ → ℕ → List (String × Bytes) → List AcceptedModel → Store → Validated
  unfolding evaluate_one
  validate_all tm round_id now files [] s = record {
    store = s;
    results = [];
    survivors = [];
    trust_updates = [];
  }
  validate_all tm round_id now files (c ∷ cs) s =
      let (ev, s') = evaluate_one tm now c (read_bytes c.model_path files) s in
      gather round_id now c ev (validate_all tm round_id now files cs s')
