-- ===== src/Tests/Requests/Versions.antt =====
-- coordinator/api.py: aggregating, publishing and rolling back.
use threat_hunting_platform.Store.Orgs.{get_org}
use threat_hunting_platform.Aggregation.{
  all_same, bag_sorted, bag, parse_models, merge_all, merge_parsed, merge_xgboost_models,
  model_feature_schema,
}
use threat_hunting_platform.Prelude.{sum_by, ◌≡◌, refl, none, some, [], ◌∷◌, true, arith}
use threat_hunting_platform.Api.Aggregate.{
  merge_gated, stage, gate, read_bytes, validate_all, Aggregate, aggregate_round,
}
use threat_hunting_platform.Trust.{accept, validate, evaluate}
use threat_hunting_platform.Prelude.Sort.{sort_asc, sort_desc}
use threat_hunting_platform.Store.Contributions.{get_accepted_models, new_contribution}
use threat_hunting_platform.Store.Models.{
  promote_global_model, get_staged_model_for_round, new_version, get_global_model,
}
use threat_hunting_platform.Prelude.Int.{pos}
use threat_hunting_platform.Prelude.Table.{select, find, update, count}
use threat_hunting_platform.Store.Rows.{GlobalModel}
use threat_hunting_platform.Store.Rounds.{get_round}
use threat_hunting_platform.Store.Models.OneActive.{IsVersioned}
use threat_hunting_platform.Api.{World, Reply, ok, fail}
use threat_hunting_platform.Api.Models.{Published, publish_round_model, rollback_global_model}
use threat_hunting_platform.Api.Models.Publishing.{
  Publishes, publish_round_model-Publishes, publish_round_model-refused, RollsBack,
  rollback_global_model-RollsBack,
}
use threat_hunting_platform.Api.Aggregate.Staging.{SameServed, aggregate_round-SameServed}
use threat_hunting_platform.Api.Aggregate.Outcome.{Aggregates, aggregate_round-Aggregates}
use threat_hunting_platform.Tests.Requests.{env, store, world}

-- after the first upload, whose model is on the disk
abbrev contributed : World
contributed = record world {
  store = record store {
    contributions =
        new_contribution 1 1 "acme" "model" (pos 10) "att_a" "signed" "nonce_a" true
          (some "contribution.json") none 3000
        ∷ [];
  };
  files = ("contribution.json", "model") ∷ [];
}

abbrev aggregate : Reply Aggregate → Aggregate
aggregate (ok a) = a
aggregate (fail c) = record {
  version_id = 0;
  global_model_sha256 = "";
  accepted_orgs = [];
  rejected = [];
  staged_until = 0;
  trust_updates = [];
}

merged_ok : let r = aggregate_round env 1 "root" 70000 contributed in r.0 ≡ ok (aggregate r.0)
unfolding aggregate_round get_round find get_accepted_models sort_asc select validate_all read_bytes
    evaluate get_org validate accept sort_desc model_feature_schema gate merge_all
    merge_xgboost_models merge_parsed parse_models bag bag_sorted stage merge_gated sum_by all_same
merged_ok = refl

aggregate_round-Aggregates_example :
    let (r, w') = aggregate_round env 1 "root" 70000 contributed in
    Aggregates env (get_round 1 contributed.store) 70000 contributed (aggregate r) w'
aggregate_round-Aggregates_example =
    aggregate_round-Aggregates env 1 "root" 70000 contributed
      (aggregate (aggregate_round env 1 "root" 70000 contributed).0) merged_ok

aggregate_round-SameServed_example :
    SameServed contributed (aggregate_round env 1 "root" 70000 contributed)
aggregate_round-SameServed_example = aggregate_round-SameServed env 1 "root" 70000 contributed

abbrev version : GlobalModel
version = new_version 1 1 "merged" "round.json" 9000 none 5000

abbrev soaking : World
soaking = record world { store = record store { global_models = version ∷ []; next_version = 2 } }

soaking-IsVersioned : IsVersioned soaking.store
unfolding count
soaking-IsVersioned = record {
  fresh = (omega arith, tt);
  unique = λ v. ground arith;
  one_active = omega arith;
}

abbrev published : Published
published = record {
  version_id = 1;
  round_id = 1;
  model_sha256 = "merged";
  promoted_at = some 9000;
}

published-ok : (publish_round_model env 1 "root" 9000 soaking).0 ≡ ok published
unfolding publish_round_model get_round find get_staged_model_for_round sort_desc select
    promote_global_model update
published-ok = refl

publish_round_model-Publishes_example :
    Publishes env 1 "root" 9000 soaking (publish_round_model env 1 "root" 9000 soaking).1 published
publish_round_model-Publishes_example =
    publish_round_model-Publishes env 1 "root" 9000 soaking published soaking-IsVersioned
      published-ok

too_early : (publish_round_model env 1 "root" 8999 soaking).0 ≡ fail 409
unfolding publish_round_model get_round find get_staged_model_for_round sort_desc select
too_early = refl

-- One millisecond before the soak time is over.
publish_round_model-refused_example : (publish_round_model env 1 "root" 8999 soaking).1 ≡ soaking
publish_round_model-refused_example =
    publish_round_model-refused env 1 "root" 8999 409 soaking soaking-IsVersioned too_early

-- A staged version is refused.
rollback_global_model-RollsBack_example :
    RollsBack env 1 "root" 9000 soaking
      (get_global_model 1 soaking.store)
      (rollback_global_model env 1 "root" 9000 soaking)
rollback_global_model-RollsBack_example =
    rollback_global_model-RollsBack env 1 "root" 9000 soaking soaking-IsVersioned
