-- ===== src/Store/Models/OneActive.antt =====
-- coordinator/store.py: at most one global model is active, and it is the last one promoted.
use threat_hunting_platform.Prelude.{
  ℕ, ◌≤◌, ◌<◌, String, ◌≡◌, ◌≢◌, refl, true, Option, none, some, List, [], ◌∷◌, arith, nat_Eq, All,
  All-append, All-map, inl, inr, Option-cases,
}
use threat_hunting_platform.Prelude.Table.{
  find, update, count, count-append, count-update, count-zero, find-update, find_fits, any,
  All-update, touch,
}
use threat_hunting_platform.Prelude.Table.Keys.{
  select_one, find-update_made, find-update_gone, count-update-le,
}
use threat_hunting_platform.Prelude.Sort.{sort_desc}
use threat_hunting_platform.Store.Rows.{GlobalModel, EvalMetrics, Store}
use threat_hunting_platform.Store.Models.{
  is_version, served, archive, promote, new_version, stage_global_model, get_global_model,
  get_active_global_model, promote_global_model,
}

-- The numbers of the versions are those that SQLite gave, and at most one version is active.
pub record IsVersioned (s : Store) : Type 0 where
  pub fresh : All (λ (m : GlobalModel). m.version_id < s.next_version) s.global_models
  pub unique : (v : ℕ) → count (is_version v) s.global_models ≤ 1
  pub one_active : count served s.global_models ≤ 1

count_fresh :
    (v : ℕ) (t : List GlobalModel) → All (λ m. m.version_id < v) t → count (is_version v) t ≡ 0
unfolding count
count_fresh v [] h = refl
count_fresh v (m ∷ t) h = ground (arith, count_fresh v t h.1)

-- Staging a model keeps the invariant.
pub stage_global_model-IsVersioned :
    (r : ℕ) (hash path : String) (until : ℕ) (e : Option EvalMetrics) (now : ℕ) (s : Store)
    → IsVersioned s
    → IsVersioned (stage_global_model r hash path until e now s).1
unfolding stage_global_model
stage_global_model-IsVersioned r hash path until e now s h = record {
  fresh =
      All-append _ s.global_models _ (All-map (λ m q. omega arith) s.global_models h.fresh)
        (omega arith, tt);
  unique = λ v. ground (
    arith,
    h.unique v,
    count_fresh s.next_version s.global_models h.fresh,
    count-append (is_version v) s.global_models
        (new_version s.next_version r hash path until e now),
  );
  one_active = ground (
    arith,
    h.one_active,
    count-append served s.global_models (new_version s.next_version r hash path until e now),
  );
}

module _ (v : ℕ) (by : String) (now : ℕ) where
  abbrev archived_rows : Store → List GlobalModel
  archived_rows s = update served archive s.global_models

  abbrev promoted_rows : Store → List GlobalModel
  promoted_rows s = update (is_version v) (promote by now) (archived_rows s)

  none-served : (s : Store) → find served (archived_rows s) ≡ none
  none-served s = find-update_gone served archive (λ m. refl) s.global_models

  count_archived :
      (w : ℕ) (s : Store)
      → count (is_version w) (archived_rows s) ≡ count (is_version w) s.global_models
  count_archived w s = count-update (is_version w) served archive s.global_models (λ m _. refl)

  promoted-IsVersioned :
      (s : Store) → IsVersioned s → IsVersioned (record s { global_models = promoted_rows s })
  promoted-IsVersioned s h = record {
    fresh =
        All-update _ (is_version v) (promote by now) (archived_rows s) (λ m q. q)
          (All-update _ served archive s.global_models (λ m q. q) h.fresh);
    unique = λ w.
        rw
          (
            count-update (is_version w) (is_version v) (promote by now) (archived_rows s)
                (λ m _. refl),
            count_archived w s,
          )
          (h.unique w);
    one_active = omega (
      arith,
      count-update-le served (is_version v) (promote by now) (archived_rows s),
      count_archived v s,
      h.unique v,
      count-zero served (archived_rows s) (none-served s),
    );
  }

  find_promoted :
      (s : Store) (m : GlobalModel)
      → find (is_version v) s.global_models ≡ some m
      → (find (is_version v) (promoted_rows s) ≡ some (promote by now m))
        × (find served (promoted_rows s) ≡ some (promote by now m))
  find_promoted s m e =
      let archived_row = find-update (is_version v) served archive s.global_models (λ _. refl) in
      (
        ground (
          arith,
          archived_row,
          find-update (is_version v) (is_version v) (promote by now) (archived_rows s) (λ _. refl),
          find_fits (is_version v) s.global_models m e,
        ),
        ground (
          arith,
          archived_row,
          find-update_made served (is_version v) (promote by now) (λ _. refl) (archived_rows s)
              (none-served s),
        ),
      )

-- Promotion keeps the invariant, whether the version exists or not.
pub promote_global_model-IsVersioned :
    (v : ℕ) (by : String) (now : ℕ) (s : Store)
    → IsVersioned s
    → IsVersioned (promote_global_model v by now s).1
unfolding promote_global_model
promote_global_model-IsVersioned v by now s h =
    elim (Option-cases (find (is_version v) s.global_models)) [
      | inl missing ↦ rw missing h
      | inr (m, e) ↦ rw e (promoted-IsVersioned v by now s h)
    ]

one_served :
    (s : Store) (m : GlobalModel)
    → IsVersioned s
    → find served s.global_models ≡ some m
    → get_active_global_model s ≡ some m
unfolding get_active_global_model sort_desc
one_served s m h e = rw (select_one served s.global_models m h.one_active e)

-- Under the invariant, the promotion of a version that exists makes it the one that is served, with
-- its data unchanged but for the promotion, and keeps the invariant.
pub promote_global_model-active :
    (v : ℕ) (by : String) (now : ℕ) (s : Store) (m : GlobalModel)
    → IsVersioned s
    → get_global_model v s ≡ some m
    → let (r, s') = promote_global_model v by now s in
      (r ≡ some (promote by now m))
      × (get_active_global_model s' ≡ some (promote by now m))
      × IsVersioned s'
unfolding promote_global_model
promote_global_model-active v by now s m h e =
    let found = find_promoted v by now s m e in
    rw e (
      found.0,
      one_served _ (promote by now m) (promoted-IsVersioned v by now s h) found.1,
      promoted-IsVersioned v by now s h,
    )

-- The promotion of a version that exists archives another version if it was active, and else leaves
-- it as it was.
pub promote_global_model-others :
    (v w : ℕ) (by : String) (now : ℕ) (s : Store)
    → v ≢ w
    → any (is_version v) s.global_models ≡ true
    → get_global_model w (promote_global_model v by now s).1
      ≡ touch served archive (get_global_model w s)
unfolding promote_global_model
promote_global_model-others v w by now s ne there =
    let kept = find-update (is_version w) served archive s.global_models (λ _. refl) in
    let rows = archived_rows v by now s in
    let other = find-update (is_version w) (is_version v) (promote by now) rows (λ _. refl) in
    elim (Option-cases (find (is_version w) s.global_models)) [
      | inl e ↦ rw there (ground (arith, kept, other))
      | inr (m, e) ↦
          rw there (ground (arith, kept, other, find_fits (is_version w) s.global_models m e))
    ]
