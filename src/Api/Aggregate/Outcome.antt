-- ===== src/Api/Aggregate/Outcome.antt =====
-- coordinator/api.py: what a successful aggregation has found and left.
use threat_hunting_platform.Prelude.{
  ℕ, ◌≤◌, ◌+◌, String, Bytes, ◌≡◌, refl, true, Option, none, some, List, [], ◌∷◌, ◌++◌, ltb,
  if◌then◌else◌, arith, Bool-cases, Option-cases, inl, inr, nat_Eq, string_Eq, eq_refl, subst,
  is_some,
}
use threat_hunting_platform.Prelude.Table.{find, update, find_fits, find-update}
use threat_hunting_platform.Store.Rows.{
  Store, Round, RoundStatus, GlobalModel, Contributor, aggregated, is_running,
}
use threat_hunting_platform.Store.Rounds.{get_round, complete_round, is_round, update_round}
use threat_hunting_platform.Store.Contributions.{AcceptedModel}
use threat_hunting_platform.Store.Models.{stage_global_model, new_version}
use threat_hunting_platform.Trust.{TrustManager}
use threat_hunting_platform.Aggregation.{
  Schema, Document, Info, Merge, no_usable_models, schema_mismatch, raised, merged,
  merge_xgboost_models,
}
use threat_hunting_platform.Api.{ok_eq, Env, World, ok, audit_log}
use threat_hunting_platform.Api.Aggregate.{
  Aggregate, Validated, Survivor, TrustUpdate, Gate, window, read_bytes, validate_all, stage,
  merge_gated, merge_validated, validate_and_merge, aggregate_open, aggregate_found,
  aggregate_round, demote, log_mismatch, metrics,
}
use threat_hunting_platform.Api.Aggregate.Staging.{validate_all-Keeps, log_mismatch-store}

abbrev status_of : Option Round → Option RoundStatus
status_of none = none
status_of (some q) = some q.status

-- Where the table had a round of this number, that round is now `aggregated`.
abbrev pub BecomesAggregated : ℕ → List Round → List Round → Type 0
BecomesAggregated i rows rows' =
    status_of (find (is_round i) rows')
    ≡ (if is_some (find (is_round i) rows) then some aggregated else none)

update_aggregated :
    (i : ℕ) (f : Round → Round) (rows : List Round)
    → ((q : Round) → (f q).round_id ≡ q.round_id)
    → ((q : Round) → (f q).status ≡ aggregated)
    → BecomesAggregated i rows (update (is_round i) f rows)
update_aggregated i f rows same h =
    let row = find-update (is_round i) (is_round i) f rows (λ x. rw (same x)) in
    elim (Option-cases (find (is_round i) rows)) [
      | inl e ↦ ground (arith, row, e)
      | inr (q, e) ↦ ground (arith, row, e, h q, find_fits (is_round i) rows q e)
    ]

module _ (env : Env) where
  -- What was staged for round `r`, beside the versions `models` and the rounds `rounds` that were
  -- there.
  pub record Stages (r : Round) (now : ℕ) (models : List GlobalModel) (rounds : List Round)
      (a : Aggregate) (w' : World) : Type 0 where
    pub weighted : List (Bytes × ℕ)
    pub model : Document
    pub info : Info
    pub merges : merge_xgboost_models env.json weighted ≡ merged model info
    pub hashed : a.global_model_sha256 ≡ env.wire.sha256 (env.json.dumps model)
    pub written : read_bytes (env.path_of_round r.round_id) w'.files ≡ some (env.json.dumps model)
    pub soak : a.staged_until ≡ now + window r
    pub results : List Contributor
    pub staged :
        w'.store.global_models
        ≡ models
          ++ new_version a.version_id r.round_id a.global_model_sha256
              (env.path_of_round r.round_id)
              a.staged_until
              (some (metrics env info results))
              now
            ∷ []
    pub done : BecomesAggregated r.round_id rounds w'.store.rounds

  stage-Stages :
      (r : Round) (k : ℕ) (username : String) (now : ℕ) (results : List Contributor)
      (tu : List TrustUpdate) (weighted : List (Bytes × ℕ)) (m : Merge) (w : World) (a : Aggregate)
      → merge_xgboost_models env.json weighted ≡ m
      → (stage env r k username now results tu m w).0 ≡ ok a
      → Stages r now w.store.global_models w.store.rounds a
          (stage env r k username now results tu m w).1
  unfolding stage audit_log read_bytes stage_global_model complete_round update_round
  stage-Stages r k username now results tu weighted no_usable_models w a g e = absurd (ground arith)
  stage-Stages r k username now results tu weighted schema_mismatch w a g e = absurd (ground arith)
  stage-Stages r k username now results tu weighted raised w a g e = absurd (ground arith)
  stage-Stages r k username now results tu weighted (merged d i) w a g e =
      let w' = (stage env r k username now results tu (merged d i) w).1 in
      subst (λ a. Stages r now w.store.global_models w.store.rounds a w') (ok_eq _ a e)
        (record {
          weighted = weighted;
          model = d;
          info = i;
          merges = g;
          hashed = refl;
          written = ground (arith, eq_refl (env.path_of_round r.round_id));
          soak = refl;
          results = results;
          staged = refl;
          done = update_aggregated r.round_id _ w.store.rounds (λ _. refl) (λ _. refl);
        })

  -- as `Stages`, for the tables of a store
  abbrev StagesIn : Round → ℕ → Store → Aggregate → World → Type 0
  StagesIn r now s a w' = Stages r now s.global_models s.rounds a w'

  merge_gated-Stages :
      (r : Round) (k : ℕ) (username : String) (now : ℕ) (v : Validated) (g : Option (Schema × Gate))
      (w : World) (a : Aggregate)
      → (merge_gated env r k username now v g w).0 ≡ ok a
      → StagesIn r now w.store a (merge_gated env r k username now v g w).1
  unfolding merge_gated
  merge_gated-Stages r k username now v none w a e = absurd (ground arith)
  merge_gated-Stages r k username now v (some (sc, g)) w a e =
      let w' = log_mismatch env r.round_id username sc g.excluded now w in
      subst (λ s. StagesIn r now s a (merge_gated env r k username now v (some (sc, g)) w).1)
        (log_mismatch-store env r.round_id username sc g.excluded now w)
        (stage-Stages r k username now (demote g.excluded v.results) v.trust_updates g.weighted
          (merge_xgboost_models env.json g.weighted) w' a refl e)

  merge_validated-Stages :
      (r : Round) (k : ℕ) (username : String) (now : ℕ) (v : Validated) (xs : List Survivor)
      (w : World) (a : Aggregate)
      → (merge_validated env r k username now v xs w).0 ≡ ok a
      → StagesIn r now w.store a (merge_validated env r k username now v xs w).1
  unfolding merge_validated
  merge_validated-Stages r k username now v [] w a e = absurd (ground arith)
  merge_validated-Stages r k username now v (x ∷ xs) w a e =
      merge_gated-Stages r k username now v _ w a e

  validate_and_merge-Stages :
      (tm : TrustManager) (r : Round) (username : String) (now : ℕ) (cs : List AcceptedModel)
      (w : World) (a : Aggregate)
      → (validate_and_merge env tm r username now cs w).0 ≡ ok a
      → StagesIn r now w.store a (validate_and_merge env tm r username now cs w).1
  unfolding validate_and_merge
  validate_and_merge-Stages tm r username now [] w a e = absurd (ground arith)
  validate_and_merge-Stages tm r username now (c ∷ cs) w a e =
      let v = validate_all env tm r.round_id now w.files (c ∷ cs) w.store in
      let (models, rounds) = validate_all-Keeps env tm r.round_id now w.files (c ∷ cs) w.store in
      let w' = (validate_and_merge env tm r username now (c ∷ cs) w).1 in
      subst (λ ms. Stages r now ms w.store.rounds a w') models
        (subst (λ rs. Stages r now v.store.global_models rs a w') rounds
          (merge_validated-Stages r _ username now v v.survivors (record w { store = v.store }) a
            e))

  open-Stages :
      (r : Round) (username : String) (now : ℕ) (o : Option TrustManager) (w : World)
      (a : Aggregate)
      → (aggregate_open env r username now o w).0 ≡ ok a
      → StagesIn r now w.store a (aggregate_open env r username now o w).1
  unfolding aggregate_open
  open-Stages r username now none w a e = absurd (ground arith)
  open-Stages r username now (some tm) w a e = validate_and_merge-Stages tm r username now _ w a e

  -- The round whose contributions were merged, and what was staged.
  abbrev pub Aggregates : Option Round → ℕ → World → Aggregate → World → Type 0
  Aggregates o now w a w' =
      (r : Round) × (o ≡ some r)
      × (is_running r.status ≡ true)
      × (r.started_at + window r ≤ now)
      × StagesIn r now w.store a w'

  found-Aggregates :
      (o : Option Round) (username : String) (now : ℕ) (w : World) (a : Aggregate)
      → (aggregate_found env o username now w).0 ≡ ok a
      → Aggregates o now w a (aggregate_found env o username now w).1
  unfolding aggregate_found
  found-Aggregates none username now w a e = absurd (ground arith)
  found-Aggregates (some r) username now w a e = elim (Bool-cases (is_running r.status)) [
    | inr n ↦ absurd (ground (arith, n))
    | inl y ↦ elim (Bool-cases (ltb now (r.started_at + window r))) [
      | inl early ↦ absurd (ground (arith, y, early))
      | inr late ↦
          rw (y, late)
            (
              r,
              refl,
              y,
              ground arith,
              open-Stages r username now env.trust_manager w a (rw (y, late) at e),
            )
    ]
  ]

  -- An aggregation that succeeds has found the round, running and with its intake window over. Some
  -- models were merged; the merged model is written under the round's path and staged, as one more
  -- version with its hash, until a second window is over; no other version changes, and the round
  -- becomes `aggregated`.
  pub aggregate_round-Aggregates :
      (i : ℕ) (username : String) (now : ℕ) (w : World) (a : Aggregate)
      → (aggregate_round env i username now w).0 ≡ ok a
      → Aggregates (get_round i w.store) now w a (aggregate_round env i username now w).1
  unfolding aggregate_round
  aggregate_round-Aggregates i username now w a e =
      found-Aggregates (get_round i w.store) username now w a e
