-- ===== src/Store/Models.antt =====
-- coordinator/store.py: the methods on the table `global_models`.
pub mod OneActive
pub mod Found
use threat_hunting_platform.Prelude.{
  ℕ, ◌+◌, String, Bool, true, false, ◌&&◌, Option, none, some, List, [], ◌∷◌, ◌++◌, ◌==◌, nat_Eq,
  take, if◌then◌else◌,
}
use threat_hunting_platform.Prelude.Table.{find, any, select, update}
use threat_hunting_platform.Prelude.Sort.{sort_desc}
use threat_hunting_platform.Store.Rows.{
  GlobalModel, staged, published, archived, is_staged, is_active_model, EvalMetrics, Store,
}

abbrev pub is_version : ℕ → GlobalModel → Bool
is_version version_id m = m.version_id == version_id

abbrev pub new_version : ℕ → ℕ → String → String → ℕ → Option EvalMetrics → ℕ → GlobalModel
new_version version_id round_id model_hash model_path staged_until eval_metrics now = record {
  version_id = version_id;
  round_id = round_id;
  created_at = now;
  staged_until = staged_until;
  status = staged;
  model_hash = model_hash;
  model_path = model_path;
  promoted_at = none;
  promoted_by = none;
  eval_metrics = eval_metrics;
}

-- Returns the number of the new version.
unfoldable pub stage_global_model :
    ℕ → String → String → ℕ → Option EvalMetrics → ℕ → Store → ℕ × Store
stage_global_model round_id model_hash model_path staged_until eval_metrics now s =
    let row =
      new_version s.next_version round_id model_hash model_path staged_until eval_metrics now in
    (
      s.next_version,
      record s { global_models = s.global_models ++ row ∷ []; next_version = s.next_version + 1 },
    )

unfoldable pub get_global_model : ℕ → Store → Option GlobalModel
get_global_model version_id s = find (is_version version_id) s.global_models

-- LIMIT 1
abbrev pub first : List GlobalModel → Option GlobalModel
first [] = none
first (m ∷ _) = some m

unfoldable pub get_staged_model_for_round : ℕ → Store → Option GlobalModel
get_staged_model_for_round round_id s = first (
    sort_desc (λ (m : GlobalModel). m.created_at)
      (select (λ m. m.round_id == round_id && is_staged m.status) s.global_models))

-- NULL sorts below every number.
abbrev promotion_key : GlobalModel → ℕ
promotion_key m = elim m.promoted_at [ none ↦ 0 | some t ↦ t + 1 ]

abbrev pub archive : GlobalModel → GlobalModel
archive m = record m { status = archived }

abbrev pub promote : String → ℕ → GlobalModel → GlobalModel
promote promoted_by now m = record m {
  status = published;
  promoted_at = some now;
  promoted_by = some promoted_by;
}

abbrev pub served : GlobalModel → Bool
served m = is_active_model m.status

unfoldable pub get_active_global_model : Store → Option GlobalModel
get_active_global_model s = first (sort_desc promotion_key (select served s.global_models))

-- the two UPDATEs of `promote_global_model`
unfoldable pub archive_active : Store → Store
archive_active s = record s { global_models = update served archive s.global_models }

unfoldable pub activate : ℕ → String → ℕ → Store → Store
activate version_id promoted_by now s = record s {
  global_models = update (is_version version_id) (promote promoted_by now) s.global_models;
}

-- `none` when the version does not exist, and then nothing changes.
unfoldable pub promote_global_model : ℕ → String → ℕ → Store → Option GlobalModel × Store
unfolding get_global_model archive_active activate
promote_global_model version_id promoted_by now s =
    if any (is_version version_id) s.global_models
    then (let s' = activate version_id promoted_by now (archive_active s) in
        (get_global_model version_id s', s'))
    else (none, s)

unfoldable pub list_global_models : ℕ → Store → List GlobalModel
list_global_models limit s =
    take limit (sort_desc (λ (m : GlobalModel). m.version_id) s.global_models)
