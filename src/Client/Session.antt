-- ===== src/Client/Session.antt =====
-- client_ref/fl_client.py: the calls that `FLClient` makes. What the coordinator answers is an
-- argument: `none` where `raise_for_status` raises, as where a call itself raises.
pub mod Fetched
use threat_hunting_platform.Prelude.{ℕ, String, Bytes, Bool, true, false, Option, none, some}
use threat_hunting_platform.Prelude.Int.{ℤ}
use threat_hunting_platform.Store.Orgs.{nonempty}
use threat_hunting_platform.Attestation.{Wire}
use threat_hunting_platform.Client.{
  Verdict, ok, bad_signature, build_signed_contribution, verify_global_model,
}
use threat_hunting_platform.Api.Serve.{Served}

pub record FlClient : Type 0 where
  pub org_id : String
  pub org_private_key_pem : String
  pub client_cert : Option String
  pub client_key : Option String
  pub ca_cert : Option String
  pub coord_pub_pem : Option String
  pub api_key : Option String

-- What a session presents and trusts.
pub record Session : Type 0 where
  pub cert : Option (String × String)
  pub verify : Option String
  pub fl_api_key : Option String

abbrev both : Option String → Option String → Option (String × String)
both (some cert) (some key) = some (cert, key)
both _ _ = none

abbrev unless : Option String → Option String → Option String
unless none key = key
unless (some cert) key = none

unfoldable pub session : FlClient → Session
session c = record {
  cert = both (nonempty c.client_cert) (nonempty c.client_key);
  verify = nonempty c.ca_cert;
  fl_api_key = unless (nonempty c.client_cert) (nonempty c.api_key);
}

-- the form that is posted, with the model's bytes
pub record Form : Type 0 where
  pub round_id : ℕ
  pub attestation : Bytes
  pub signature : String
  pub model : Bytes

module _ (w : Wire) (b64decode : String → Option Bytes) (c : FlClient) where
  abbrev form : ℕ → Bytes → Option (Bytes × String) → Option Form
  form round_id model_bytes none = none
  form round_id model_bytes (some (att, sig_hex)) =
      some (record {
        round_id = round_id;
        attestation = att;
        signature = sig_hex;
        model = model_bytes;
      })

  -- given the challenge that the coordinator answers with
  unfoldable pub submit_contribution : ℕ → Bytes → ℤ → ℕ → Option String → Option Form
  submit_contribution round_id model_bytes num_examples now none = none
  submit_contribution round_id model_bytes num_examples now (some challenge) =
      form round_id model_bytes (
        build_signed_contribution w c.org_private_key_pem round_id c.org_id model_bytes num_examples
          challenge now)

  abbrev pub accept_model : Bytes → Verdict → Option Bytes
  accept_model model_bytes ok = some model_bytes
  accept_model model_bytes _ = none

  abbrev pub check_payload : Bool → Served → Option String → Option Bytes → Option Bytes
  check_payload verify_signature payload key none = none
  check_payload false payload key (some model_bytes) = some model_bytes
  check_payload true payload none (some model_bytes) = none
  check_payload true payload (some key) (some model_bytes) =
      accept_model model_bytes
        (verify_global_model w key model_bytes payload.signed_attestation payload.signature_hex)

  -- given the body that the coordinator answers with
  unfoldable pub fetch_global_model : Bool → Option Served → Option Bytes
  fetch_global_model verify_signature none = none
  fetch_global_model verify_signature (some payload) =
      check_payload verify_signature payload (nonempty c.coord_pub_pem)
        (b64decode payload.model_b64)
