-- ===== src/Api/Serve.antt =====
-- coordinator/api.py: the endpoints that hand a global model to an organisation, signed.
use threat_hunting_platform.Prelude.{
  ℕ, String, Bytes, not, Option, none, some, List, [], ◌∷◌, map, if◌then◌else◌,
}
use threat_hunting_platform.Prelude.Table.{select}
use threat_hunting_platform.Store.Rows.{Store, Round, GlobalModel, Contribution, is_completed}
use threat_hunting_platform.Store.Rounds.{get_round}
use threat_hunting_platform.Store.Contributions.{list_contributions}
use threat_hunting_platform.Store.Models.{get_active_global_model as active_model}
use threat_hunting_platform.Security.{contains}
use threat_hunting_platform.Attestation.{build_global_model_attestation}
use threat_hunting_platform.Api.{Env, World, Reply, ok, fail}
use threat_hunting_platform.Api.Aggregate.{read_bytes}

pub record Served : Type 0 where
  pub round_id : ℕ
  pub model_b64 : String
  pub signed_attestation : Bytes
  pub signature_hex : String

-- `set(...)`, in the order of the last occurrences: it is sorted next
unfoldable pub distinct : List String → List String
distinct [] = []
distinct (x ∷ xs) = let rest = distinct xs in if contains x rest then rest else x ∷ rest

-- who contributed to a round
unfoldable pub accepted_orgs : ℕ → Store → List String
accepted_orgs round_id s =
    map (λ (c : Contribution). c.org_id)
      (select (λ c. c.accepted) (list_contributions (some round_id) none s))

module _ (env : Env) where
  -- the exact bytes that are signed
  unfoldable pub attestation_of : ℕ → Bytes → ℕ → Store → Bytes
  unfolding accepted_orgs
  attestation_of round_id model_bytes now s =
      build_global_model_attestation env.wire round_id model_bytes
        (env.wire.sorted_texts (distinct (accepted_orgs round_id s))) now

  -- without its key the coordinator raises
  abbrev pub sign_model : Option String → ℕ → Bytes → ℕ → Store → Reply Served
  sign_model none round_id model_bytes now s = fail 500
  sign_model (some coord_priv) round_id model_bytes now s =
      let att = attestation_of round_id model_bytes now s in
      ok (record {
        round_id = round_id;
        model_b64 = env.b64encode model_bytes;
        signed_attestation = att;
        signature_hex = env.wire.hex (env.wire.sign coord_priv att);
      })

  unfoldable pub signed_model_response : ℕ → Bytes → ℕ → Store → Reply Served
  unfolding attestation_of
  signed_model_response round_id model_bytes now s =
      sign_model env.coord_priv round_id model_bytes now s

  abbrev pub with_version : ℕ → Reply Served → Reply (Served × ℕ)
  with_version version_id (fail c) = fail c
  with_version version_id (ok r) = ok (r, version_id)

  abbrev pub serve_file : ℕ → Option Bytes → ℕ → Store → Reply Served
  serve_file round_id none now s = fail 404
  serve_file round_id (some b) now s = signed_model_response round_id b now s

  abbrev pub serve_active : Option GlobalModel → ℕ → World → Reply (Served × ℕ)
  serve_active none now w = fail 404
  serve_active (some gm) now w =
      with_version gm.version_id
        (serve_file gm.round_id (read_bytes gm.model_path w.files) now w.store)

  -- the served model, with the number of its version
  unfoldable pub get_active_global_model : ℕ → World → Reply (Served × ℕ)
  unfolding signed_model_response
  get_active_global_model now w = serve_active (active_model w.store) now w

  abbrev pub serve_round : ℕ → Option Round → ℕ → World → Reply Served
  serve_round round_id none now w = fail 404
  serve_round round_id (some r) now w =
      if not (is_completed r.status)
      then fail 409
      else serve_file round_id (read_bytes (env.path_of_round round_id) w.files) now w.store

  unfoldable pub get_round_global_model : ℕ → ℕ → World → Reply Served
  unfolding signed_model_response
  get_round_global_model round_id now w = serve_round round_id (get_round round_id w.store) now w
