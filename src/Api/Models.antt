-- ===== src/Api/Models.antt =====
-- coordinator/api.py: the handlers that publish a version of the global model and roll it back.
pub mod Publishing
use threat_hunting_platform.Prelude.{
  ℕ, String, Bytes, Bool, Option, none, some, List, [], ◌∷◌, ltb, if◌then◌else◌,
}
use threat_hunting_platform.Prelude.Int.{pos}
use threat_hunting_platform.Store.Rows.{Store, Round, GlobalModel, completed, is_staged}
use threat_hunting_platform.Store.Rounds.{get_round, set_round_status}
use threat_hunting_platform.Store.Models.{
  get_global_model, get_staged_model_for_round, promote_global_model,
}
use threat_hunting_platform.Attestation.{Dict, text, int}
use threat_hunting_platform.Api.{Env, World, Reply, ok, fail, audit_log}

-- the body of both replies; that of a rollback leaves out `promoted_at`
pub record Published : Type 0 where
  pub version_id : ℕ
  pub round_id : ℕ
  pub model_sha256 : String
  pub promoted_at : Option ℕ

abbrev body : ℕ → GlobalModel → Published
body round_id gm = record {
  version_id = gm.version_id;
  round_id = round_id;
  model_sha256 = gm.model_hash;
  promoted_at = gm.promoted_at;
}

module _ (env : Env) where
  -- the last steps of `publish`; a subscript of None raises
  unfoldable pub report_publish :
      ℕ → String → ℕ → Option GlobalModel → World → Reply Published × World
  unfolding audit_log
  report_publish round_id username now none w = (fail 500, w)
  report_publish round_id username now (some gm) w = (
    ok (body round_id gm),
    audit_log env "fl.global_model.publish" username (env.show_round round_id)
        (("version_id", int (pos gm.version_id))
          ∷ ("model_sha256", text (env.short gm.model_hash))
          ∷ [])
        now w,
  )

  unfoldable pub publish_staged :
      ℕ → String → ℕ → Option GlobalModel → World → Reply Published × World
  unfolding report_publish
  publish_staged round_id username now none w = (fail 409, w)
  publish_staged round_id username now (some staged) w =
      if ltb now staged.staged_until
      then (fail 409, w)
      else (let (gm, s) = promote_global_model staged.version_id username now w.store in
          report_publish round_id username now gm
            (record w { store = set_round_status round_id completed now s }))

  -- `publish_round_model`
  unfoldable pub publish_round : ℕ → String → ℕ → Option Round → World → Reply Published × World
  unfolding publish_staged
  publish_round round_id username now none w = (fail 404, w)
  publish_round round_id username now (some r) w =
      publish_staged round_id username now (get_staged_model_for_round round_id w.store) w

  unfoldable pub publish_round_model : ℕ → String → ℕ → World → Reply Published × World
  unfolding publish_round
  publish_round_model round_id username now w =
      publish_round round_id username now (get_round round_id w.store) w

  unfoldable pub report_rollback :
      ℕ → String → ℕ → Option GlobalModel → World → Reply Published × World
  unfolding audit_log
  report_rollback version_id username now none w = (fail 500, w)
  report_rollback version_id username now (some gm) w = (
    ok (body gm.round_id gm),
    audit_log env "fl.global_model.rollback" username (env.show_version version_id)
        (("version_id", int (pos version_id))
          ∷ ("round_id", int (pos gm.round_id))
          ∷ ("model_sha256", text (env.short gm.model_hash))
          ∷ [])
        now w,
  )

  unfoldable pub rollback_to : ℕ → String → ℕ → Option GlobalModel → World → Reply Published × World
  unfolding report_rollback
  rollback_to version_id username now none w = (fail 404, w)
  rollback_to version_id username now (some target) w =
      if is_staged target.status
      then (fail 409, w)
      else (let (gm, s) = promote_global_model version_id username now w.store in
          report_rollback version_id username now gm (record w { store = s }))

  unfoldable pub rollback_global_model : ℕ → String → ℕ → World → Reply Published × World
  unfolding rollback_to
  rollback_global_model version_id username now w =
      rollback_to version_id username now (get_global_model version_id w.store) w
