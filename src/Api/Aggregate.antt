-- ===== src/Api/Aggregate.antt =====
-- coordinator/api.py: `aggregate_round`, which merges the accepted contributions of a round into a
-- staged global model.
mod Validation
pub mod Staging
pub mod Outcome
use threat_hunting_platform.Prelude.{
  ℕ, ◌+◌, ◌-◌, ◌*◌, String, Bytes, Bool, true, false, not, Option, none, some, List, [], ◌∷◌, map,
  length, ltb, take, ◌<>◌, nat_Eq, Bool-cases, if◌then◌else◌, ◌==◌, string_Eq,
}
use threat_hunting_platform.Prelude.Int.{pos}
use threat_hunting_platform.Prelude.Table.{find, select}
use threat_hunting_platform.Prelude.Sort.{sort_desc}
use threat_hunting_platform.Store.Rows.{
  Store, Round, Reason, Contributor, EvalMetrics, bytes_missing, schema_mismatch, aggregated,
  is_running,
}
use threat_hunting_platform.Store.Rounds.{get_round, complete_round}
use threat_hunting_platform.Store.Contributions.{AcceptedModel, get_accepted_models}
use threat_hunting_platform.Store.Models.{stage_global_model}
use threat_hunting_platform.Trust.{TrustManager, Evaluation, evaluate}
use threat_hunting_platform.Aggregation.{
  Schema, names, dim, same_schema, Document, Info, Merge, no_usable_models, merged,
  model_feature_schema, merge_xgboost_models,
}
use threat_hunting_platform.Attestation.{
  Value, text, texts, int, build_trust_notification_attestation,
}
use threat_hunting_platform.Security.{contains}
use threat_hunting_platform.Api.{Env, World, Reply, ok, fail, audit_log}
unfoldable pub use Validation.*

pub record Aggregate : Type 0 where
  pub version_id : ℕ
  pub global_model_sha256 : String
  pub accepted_orgs : List String
  pub rejected : List Contributor
  pub staged_until : ℕ
  pub trust_updates : List TrustUpdate

-- `observation_hours * 3600`, in milliseconds
abbrev pub window : Round → ℕ
window r = r.params.observation_hours * 3600

abbrev pub demote : List String → List Contributor → List Contributor
demote excluded results =
    map
      (λ (x : Contributor).
        if contains x.org_id excluded
        then record x { accepted = false; reason = schema_mismatch }
        else x)
      results

unfoldable pub join : String → List String → String
join sep [] = ""
join sep (x ∷ []) = x
join sep (x ∷ y ∷ ys) = x <> sep <> join sep (y ∷ ys)

-- How the models after the heaviest one compare with its schema: `none` is an exception.
pub record Gate : Type 0 where
  pub weighted : List (Bytes × ℕ)
  pub excluded : List String

module _ (env : Env) where
  unfoldable pub describe_schema : Schema → String
  unfolding join
  describe_schema (names xs) =
      env.show_number (length xs)
      <> " features ["
      <> join ", " (take 6 xs)
      <> (if ltb 6 (length xs) then "…" else "")
      <> "]"
  describe_schema (dim n) = env.show_number n <> " features (unnamed)"

  -- the feature-schema gate; `none` is the exception on a text that is no JSON, or no object
  abbrev pass : Schema → Survivor → Option Schema → Option Gate → Option Gate
  pass canonical x none rest = none
  pass canonical x (some sc) none = none
  pass canonical x (some sc) (some g) = some (
      if same_schema sc canonical
      then record g { weighted = (x.model, x.weight) ∷ g.weighted }
      else record g { excluded = x.org_id ∷ g.excluded })

  unfoldable pub gate : Schema → List Survivor → Option Gate
  gate canonical [] = some (record { weighted = []; excluded = [] })
  gate canonical (x ∷ xs) =
      pass canonical x (model_feature_schema env.json x.model) (gate canonical xs)

  abbrev pub heaviest_gate : List Survivor → Option (Schema × Gate)
  heaviest_gate [] = none
  heaviest_gate (x ∷ xs) = elim (model_feature_schema env.json x.model) [
    | none ↦ none
    | some canonical ↦ elim (gate canonical (x ∷ xs)) [ none ↦ none | some g ↦ some (canonical, g) ]
  ]

  abbrev pub log_mismatch : ℕ → String → Schema → List String → ℕ → World → World
  log_mismatch round_id username canonical [] now w = w
  log_mismatch round_id username canonical (x ∷ xs) now w =
      audit_log env "fl.round.schema_mismatch" username (env.show_round round_id)
        (("canonical", text (describe_schema canonical)) ∷ ("excluded_orgs", texts (x ∷ xs)) ∷ [])
        now w

  abbrev accepted_ids : List Contributor → List String
  accepted_ids results = map (λ (x : Contributor). x.org_id) (select (λ x. x.accepted) results)

  abbrev pub metrics : Info → List Contributor → EvalMetrics
  metrics info results = record {
    num_models = info.num_models;
    total_trees = info.total_trees;
    capped = info.capped;
    contributors = results;
  }

  -- the merged model is written, staged, and the round is `aggregated`
  unfoldable pub stage :
      Round
      → ℕ
      → String
      → ℕ
      → List Contributor
      → List TrustUpdate
      → Merge
      → World
      → Reply Aggregate × World
  unfolding audit_log
  stage r responded username now results trust_updates (merged d info) w =
      let global_bytes = env.json.dumps d in
      let path = env.path_of_round r.round_id in
      let hash = env.wire.sha256 global_bytes in
      let survivors = accepted_ids results in
      let until = now + window r in
      let (v, s) =
        stage_global_model r.round_id hash path until (some (metrics info results)) now w.store in
      let s' =
        complete_round r.round_id aggregated responded (length survivors)
          (responded - length survivors) (some hash) (some (metrics info results)) now s in
      (
        ok (record {
          version_id = v;
          global_model_sha256 = hash;
          accepted_orgs = survivors;
          rejected = select (λ (x : Contributor). not x.accepted) results;
          staged_until = until;
          trust_updates = trust_updates;
        }),
        audit_log env "fl.round.aggregated" username (env.show_round r.round_id)
            (("version_id", int (pos v))
              ∷ ("global_model_sha256", text (env.short hash))
              ∷ ("accepted", texts survivors)
              ∷ ("total_trees", int (pos info.total_trees))
              ∷ [])
            now (record w { store = s'; files = (path, global_bytes) ∷ w.files }),
      )
  stage r responded username now results trust_updates _ w = (fail 500, w)

  unfoldable pub merge_gated :
      Round → ℕ → String → ℕ → Validated → Option (Schema × Gate) → World → Reply Aggregate × World
  unfolding stage
  merge_gated r responded username now v none w = (fail 500, w)
  merge_gated r responded username now v (some (canonical, g)) w =
      stage r responded username now (demote g.excluded v.results) v.trust_updates
        (merge_xgboost_models env.json g.weighted)
        (log_mismatch r.round_id username canonical g.excluded now w)

  unfoldable pub merge_validated :
      Round → ℕ → String → ℕ → Validated → List Survivor → World → Reply Aggregate × World
  unfolding merge_gated
  merge_validated r responded username now v [] w = (fail 422, w)
  merge_validated r responded username now v (x ∷ xs) w =
      merge_gated r responded username now v
        (heaviest_gate (sort_desc (λ (x : Survivor). x.weight) (x ∷ xs))) w

  unfoldable pub validate_and_merge :
      TrustManager → Round → String → ℕ → List AcceptedModel → World → Reply Aggregate × World
  unfolding merge_validated
  validate_and_merge tm r username now [] w = (fail 422, w)
  validate_and_merge tm r username now (c ∷ cs) w =
      let v = validate_all env tm r.round_id now w.files (c ∷ cs) w.store in
      merge_validated r (length (c ∷ cs)) username now v v.survivors (record w { store = v.store })

  unfoldable pub aggregate_open :
      Round → String → ℕ → Option TrustManager → World → Reply Aggregate × World
  unfolding validate_and_merge
  aggregate_open r username now none w = (fail 503, w)
  aggregate_open r username now (some tm) w =
      validate_and_merge tm r username now (get_accepted_models r.round_id w.store) w

  unfoldable pub aggregate_found : Option Round → String → ℕ → World → Reply Aggregate × World
  unfolding aggregate_open
  aggregate_found none username now w = (fail 404, w)
  aggregate_found (some r) username now w =
      if not (is_running r.status)
      then (fail 409, w)
      else if ltb now (r.started_at + window r)
      then (fail 409, w)
      else aggregate_open r username now env.trust_manager w

  unfoldable pub aggregate_round : ℕ → String → ℕ → World → Reply Aggregate × World
  unfolding aggregate_found
  aggregate_round round_id username now w =
      aggregate_found (get_round round_id w.store) username now w
