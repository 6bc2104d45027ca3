-- ===== src/Api/Aggregate/Staging.antt =====
-- coordinator/api.py: aggregation stages a model, and orgs are served the same one as before.
use threat_hunting_platform.Prelude.{
  ℕ, ◌+◌, String, Bytes, ◌≡◌, ◌∙◌, ap, refl, false, Option, none, some, List, [], ◌∷◌, ◌++◌, ltb,
  arith, Bool-cases, inl, inr, nat_Eq, string_Eq,
}
use threat_hunting_platform.Prelude.Int.{ℤ}
use threat_hunting_platform.Prelude.Table.{select}
use threat_hunting_platform.Store.Rows.{
  Store, Round, GlobalModel, Contributor, EvalMetrics, is_running,
}
use threat_hunting_platform.Store.Rounds.{get_round, complete_round}
use threat_hunting_platform.Store.Contributions.{AcceptedModel}
use threat_hunting_platform.Store.Models.{
  stage_global_model, get_active_global_model, served, new_version,
}
use threat_hunting_platform.Store.Orgs.{update_org, update_org_trust, set_org_last_accuracy}
use threat_hunting_platform.Trust.{
  TrustManager, Evaluation, evaluate, validate, score, reject, accept, bump,
}
use threat_hunting_platform.Aggregation.{
  Schema, Merge, no_usable_models, schema_mismatch, raised, merged,
}
use threat_hunting_platform.Api.{Env, World, Reply, audit_log}
use threat_hunting_platform.Api.Aggregate.{
  Aggregate, Validated, Survivor, TrustUpdate, Gate, window, read_bytes, evaluate_one, validate_all,
  stage, merge_gated, merge_validated, validate_and_merge, aggregate_open, aggregate_found,
  aggregate_round, log_mismatch, gather, metrics,
}

-- the tables of rounds and of models are as they were
abbrev pub Keeps : Store → Store → Type 0
Keeps s s' = (s'.global_models ≡ s.global_models) × (s'.rounds ≡ s.rounds)

-- What is served after a call is what was served before it.
abbrev pub SameServed : World → Reply Aggregate × World → Type 0
SameServed w (r, w') = get_active_global_model w'.store ≡ get_active_global_model w.store

served_kept :
    (s s' : Store)
    → s'.global_models ≡ s.global_models
    → get_active_global_model s' ≡ get_active_global_model s
unfolding get_active_global_model
served_kept s s' e = rw e

select_last :
    (t : List GlobalModel) (m : GlobalModel)
    → served m ≡ false
    → select served (t ++ m ∷ []) ≡ select served t
unfolding select
select_last [] m e = rw e
select_last (x ∷ t) m e = rw (select_last t m e)

staged_served :
    (i : ℕ) (hash path : String) (until : ℕ) (e : Option EvalMetrics) (now : ℕ) (s : Store)
    → get_active_global_model (stage_global_model i hash path until e now s).1
      ≡ get_active_global_model s
unfolding stage_global_model get_active_global_model
staged_served i hash path until e now s =
    rw (select_last s.global_models (new_version s.next_version i hash path until e now) refl)

module _ (env : Env) where
  evaluate-Keeps :
      (tm : TrustManager) (i : String) (b : Bytes) (n : ℤ) (now : ℕ) (s : Store)
      → Keeps s (evaluate tm env.xgb i b n now s).1
  unfolding evaluate validate score reject accept bump update_org_trust set_org_last_accuracy
      update_org
  evaluate-Keeps tm i b n now s = ground arith

  evaluate_one-Keeps :
      (tm : TrustManager) (now : ℕ) (c : AcceptedModel) (o : Option Bytes) (s : Store)
      → Keeps s (evaluate_one env tm now c o s).1
  unfolding evaluate_one
  evaluate_one-Keeps tm now c none s = (refl, refl)
  evaluate_one-Keeps tm now c (some mb) s = evaluate-Keeps tm c.org_id mb c.num_examples now s

  gather-store :
      (i now : ℕ) (c : AcceptedModel) (x : Option (Bytes × Evaluation)) (v : Validated)
      → (gather env i now c x v).store ≡ v.store
  gather-store i now c none v = refl
  gather-store i now c (some x) v = refl

  pub validate_all-Keeps :
      (tm : TrustManager) (i now : ℕ) (files : List (String × Bytes)) (cs : List AcceptedModel)
      (s : Store)
      → Keeps s (validate_all env tm i now files cs s).store
  unfolding validate_all
  validate_all-Keeps tm i now files [] s = (refl, refl)
  validate_all-Keeps tm i now files (c ∷ cs) s =
      let (x, s') = evaluate_one env tm now c (read_bytes c.model_path files) s in
      let one = evaluate_one-Keeps tm now c (read_bytes c.model_path files) s in
      let rest = validate_all-Keeps tm i now files cs s' in
      rw (gather-store i now c x (validate_all env tm i now files cs s'))
        (rest.0 ∙ one.0, rest.1 ∙ one.1)

  pub log_mismatch-store :
      (i : ℕ) (username : String) (sc : Schema) (xs : List String) (now : ℕ) (w : World)
      → (log_mismatch env i username sc xs now w).store ≡ w.store
  unfolding audit_log
  log_mismatch-store i username sc [] now w = refl
  log_mismatch-store i username sc (x ∷ xs) now w = refl

  stage-SameServed :
      (r : Round) (k : ℕ) (username : String) (now : ℕ) (results : List Contributor)
      (tu : List TrustUpdate) (m : Merge) (w : World)
      → SameServed w (stage env r k username now results tu m w)
  unfolding stage audit_log complete_round get_active_global_model
  stage-SameServed r k username now results tu (merged d i) w =
      staged_served r.round_id (env.wire.sha256 (env.json.dumps d)) (env.path_of_round r.round_id)
        (now + window r) (some (metrics env i results)) now w.store
  stage-SameServed r k username now results tu no_usable_models w = refl
  stage-SameServed r k username now results tu schema_mismatch w = refl
  stage-SameServed r k username now results tu raised w = refl

  merge_gated-SameServed :
      (r : Round) (k : ℕ) (username : String) (now : ℕ) (v : Validated) (g : Option (Schema × Gate))
      (w : World)
      → SameServed w (merge_gated env r k username now v g w)
  unfolding merge_gated
  merge_gated-SameServed r k username now v none w = refl
  merge_gated-SameServed r k username now v (some (sc, g)) w =
      stage-SameServed r k username now _ _ _ _
      ∙ ap get_active_global_model (log_mismatch-store r.round_id username sc g.excluded now w)

  merge_validated-SameServed :
      (r : Round) (k : ℕ) (username : String) (now : ℕ) (v : Validated) (xs : List Survivor)
      (w : World)
      → SameServed w (merge_validated env r k username now v xs w)
  unfolding merge_validated
  merge_validated-SameServed r k username now v [] w = refl
  merge_validated-SameServed r k username now v (x ∷ xs) w =
      merge_gated-SameServed r k username now v _ w

  validate_and_merge-SameServed :
      (tm : TrustManager) (r : Round) (username : String) (now : ℕ) (cs : List AcceptedModel)
      (w : World)
      → SameServed w (validate_and_merge env tm r username now cs w)
  unfolding validate_and_merge
  validate_and_merge-SameServed tm r username now [] w = refl
  validate_and_merge-SameServed tm r username now (c ∷ cs) w =
      let v = validate_all env tm r.round_id now w.files (c ∷ cs) w.store in
      merge_validated-SameServed r _ username now v v.survivors (record w { store = v.store })
      ∙ served_kept w.store v.store
          (validate_all-Keeps tm r.round_id now w.files (c ∷ cs) w.store).0

  open-SameServed :
      (r : Round) (username : String) (now : ℕ) (o : Option TrustManager) (w : World)
      → SameServed w (aggregate_open env r username now o w)
  unfolding aggregate_open
  open-SameServed r username now none w = refl
  open-SameServed r username now (some tm) w = validate_and_merge-SameServed tm r username now _ w

  found-SameServed :
      (o : Option Round) (username : String) (now : ℕ) (w : World)
      → SameServed w (aggregate_found env o username now w)
  unfolding aggregate_found
  found-SameServed none username now w = refl
  found-SameServed (some r) username now w = elim (Bool-cases (is_running r.status)) [
    | inr n ↦ rw n refl
    | inl y ↦ elim (Bool-cases (ltb now (r.started_at + window r))) [
      | inl early ↦ rw (y, early) refl
      | inr late ↦ rw (y, late) (open-SameServed r username now env.trust_manager w)
    ]
  ]

  -- Aggregating a round, whether it succeeds or fails at any point, leaves the model that is served
  -- to the organisations as it was.
  pub aggregate_round-SameServed :
      (i : ℕ) (username : String) (now : ℕ) (w : World)
      → SameServed w (aggregate_round env i username now w)
  unfolding aggregate_round
  aggregate_round-SameServed i username now w =
      found-SameServed (get_round i w.store) username now w
