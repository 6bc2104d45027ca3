-- ===== src/Tests/Members/Messages.antt =====
-- client_ref/fl_client.py with coordinator/api.py: acme contributes to round 1, and fetches a model.
use threat_hunting_platform.Prelude.Sort.{sort_desc}
use threat_hunting_platform.Store.Contributions.{list_contributions, has_accepted_contribution}
use threat_hunting_platform.Api.Serve.{accepted_orgs, distinct, Served, get_round_global_model}
use threat_hunting_platform.Attestation.{build_contribution_attestation, text, texts, int, object}
use threat_hunting_platform.Store.Orgs.{get_org_public_key}
use threat_hunting_platform.Store.Challenges.{consume_challenge}
use threat_hunting_platform.Prelude.{ℕ, ◌≡◌, refl, none, some, [], ◌∷◌, true}
use threat_hunting_platform.Prelude.Int.{pos}
use threat_hunting_platform.Prelude.Table.{select, find}
use threat_hunting_platform.Store.Rows.{Round, completed}
use threat_hunting_platform.Store.Rounds.{get_round}
use threat_hunting_platform.Client.{build_signed_contribution}
use threat_hunting_platform.Client.Session.{FlClient, fetch_global_model}
use threat_hunting_platform.Client.Session.Fetched as Fetched
use threat_hunting_platform.Client.Session.Fetched.{fetch_global_model-get_round_global_model}
use threat_hunting_platform.Api.{Env, World, ok}
use threat_hunting_platform.Api.Aggregate.{read_bytes}
use threat_hunting_platform.Api.Contribute.{submit_contribution}
use threat_hunting_platform.Api.Contribute.Completes.{
  Carries, Awaits, submit_contribution-completes,
}
use threat_hunting_platform.Tests.Requests as Requests
use threat_hunting_platform.Tests.Requests.{store, params}

-- the libraries read every text as the message that acme signs
abbrev env : Env
env = record Requests.env {
  wire = record Requests.wire {
    loads = λ b. object (
        ("type", text "fl.contribution.v1")
        ∷ ("round_id", int (pos 1))
        ∷ ("org_id", text "acme")
        ∷ ("model_sha256", text "model")
        ∷ ("num_examples", int (pos 10))
        ∷ ("challenge", text "nonce_a")
        ∷ ("submitted_at", text "noon")
        ∷ []);
  };
}

carries : Carries env 1 "acme" "acme_key" "acme_key" "nonce_a" "model" (pos 10) 60000 61000
carries = record { loads = refl; unhex = refl; verifies = refl; parses = refl; loads_key = refl }

awaits : Awaits env 1 "acme" "acme_key" "acme_key" "nonce_a" "model" (pos 10) 60000 61000 store
unfolding get_round find has_accepted_contribution consume_challenge get_org_public_key
awaits = record {
  round = _;
  found = refl;
  is_open = refl;
  first = refl;
  fresh = refl;
  registered = refl;
  in_time = refl;
  small = refl;
}

built :
    build_signed_contribution env.wire "acme_key" 1 "acme" "model" (pos 10) "nonce_a" 60000
    ≡ some ("canonical", "signed")
unfolding build_signed_contribution build_contribution_attestation
built = refl

submit_contribution-completes_example :
    (cid : ℕ) × ((submit_contribution env
        (record {
          round_id = 1;
          org_id = "acme";
          attestation = "canonical";
          signature = "signed";
          model = "model";
        })
        61000
        Requests.world).0
      ≡ ok
          (record { contribution_id = cid; round_id = 1; org_id = "acme"; model_sha256 = "model" }))
submit_contribution-completes_example =
    submit_contribution-completes env 1 "acme" "acme_key" "acme_key" "nonce_a" "model" (pos 10)
      60000 61000 "acme_key" "canonical" "signed" Requests.world refl built carries awaits

-- round 1 is completed, and its model is on the disk
abbrev round : Round
round = record {
  round_id = 1;
  started_at = 1000;
  started_by = "root";
  completed_at = some 5000;
  status = completed;
  params = params;
  num_clients_invited = 1;
  num_clients_responded = 0;
  num_clients_accepted = 0;
  num_clients_rejected = 0;
  global_model_hash = some "merged";
  eval_metrics = none;
  announce_attestation = none;
  announce_signature = none;
}

abbrev world : World
world = record Requests.world {
  store = record store { rounds = round ∷ [] };
  files = ("round.json", "merged") ∷ [];
}

abbrev env_served : Env
env_served = record Requests.env {
  wire = record Requests.wire {
    loads = λ b. object (
        ("type", text "fl.global_model.v1")
        ∷ ("round_id", int (pos 1))
        ∷ ("model_sha256", text "merged")
        ∷ ("accepted_orgs", texts [])
        ∷ ("distributed_at", text "noon")
        ∷ []);
  };
}

abbrev client : FlClient
client = record {
  org_id = "acme";
  org_private_key_pem = "acme_key";
  client_cert = none;
  client_key = none;
  ca_cert = none;
  coord_pub_pem = some "coordinator";
  api_key = none;
}

served_carries :
    Fetched.Carries env_served (λ t. some t) 1 9000 "coordinator" "coordinator" "merged" world.store
unfolding distinct accepted_orgs select list_contributions sort_desc
served_carries = record {
  loads = refl;
  unhex = refl;
  verifies = refl;
  loads_key = refl;
  decodes = refl;
}

completed_round : get_round 1 world.store ≡ some round
unfolding get_round find
completed_round = refl

on_disk : read_bytes "round.json" world.files ≡ some "merged"
unfolding read_bytes
on_disk = refl

fetch_global_model-get_round_global_model_example :
    (p : Served) × (get_round_global_model env_served 1 9000 world ≡ ok p)
    × (fetch_global_model env_served.wire (λ t. some t) client true (some p) ≡ some "merged")
fetch_global_model-get_round_global_model_example =
    fetch_global_model-get_round_global_model env_served (λ t. some t) 1 9000 "coordinator"
      "coordinator" "merged" client world round refl completed_round refl on_disk refl
      served_carries
