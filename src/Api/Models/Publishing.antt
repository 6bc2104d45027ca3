-- ===== src/Api/Models/Publishing.antt =====
-- coordinator/api.py: what publishing and rolling back do to the model that is served.
use threat_hunting_platform.Prelude.{
  ℕ, ◌≤◌, String, ◌≡◌, ◌≢◌, ◌∙◌, refl, true, false, Option, none, some, arith, Bool-cases, inl, inr,
  ltb, if◌then◌else◌, nat_Eq,
}
use threat_hunting_platform.Prelude.Table.{find_fits}
use threat_hunting_platform.Store.Rows.{Store, Round, GlobalModel, completed, is_staged}
use threat_hunting_platform.Store.Rounds.{get_round, set_round_status, is_round}
use threat_hunting_platform.Store.Rounds.Lifecycle.{get_round-update_round}
use threat_hunting_platform.Store.Models.{
  promote, get_global_model, get_staged_model_for_round, get_active_global_model,
  promote_global_model,
}
use threat_hunting_platform.Store.Models.Found.{staged_found}
use threat_hunting_platform.Store.Models.OneActive.{IsVersioned, promote_global_model-active}
use threat_hunting_platform.Api.{Env, World, Reply, ok, fail, audit_log}
use threat_hunting_platform.Api.Models.{
  Published, publish_round_model, publish_round, publish_staged, report_publish,
  rollback_global_model, rollback_to, report_rollback,
}

get_round-is_round : (i : ℕ) (s : Store) (r : Round) → get_round i s ≡ some r → is_round i r ≡ true
unfolding get_round
get_round-is_round i s r e = find_fits (is_round i) s.rounds r e

module _ (env : Env) where
  -- What a successful call of `publish` has found and done.
  pub record Publishes (i : ℕ) (username : String) (now : ℕ) (w w' : World) (p : Published)
      : Type 0 where
    pub staged : GlobalModel
    pub found : get_staged_model_for_round i w.store ≡ some staged
    pub soaked : staged.staged_until ≤ now
    pub active : get_active_global_model w'.store ≡ some (promote username now staged)
    pub reported : p.version_id ≡ staged.version_id
    pub versioned : IsVersioned w'.store
    pub round : Round
    pub round_found : get_round i w.store ≡ some round
    pub done :
        get_round i w'.store ≡ some (record round { status = completed; completed_at = some now })

  -- A version that has soaked is promoted, and the round completed.
  publish_staged-late :
      (i : ℕ) (username : String) (now : ℕ) (w : World) (m : GlobalModel)
      → IsVersioned w.store
      → get_global_model m.version_id w.store ≡ some m
      → ltb now m.staged_until ≡ false
      → publish_staged env i username now (some m) w
        ≡ report_publish env i username now (some (promote username now m)) (record w {
          store =
              set_round_status i completed now
                (promote_global_model m.version_id username now w.store).1;
        })
  unfolding publish_staged
  publish_staged-late i username now w m h e late =
      rw (late, (promote_global_model-active m.version_id username now w.store m h e).0)

  promote_rounds :
      (v i : ℕ) (username : String) (now : ℕ) (s : Store)
      → get_round i (promote_global_model v username now s).1 ≡ get_round i s
  unfolding promote_global_model get_round
  promote_rounds v i username now s = ground arith

  completed_round :
      (i : ℕ) (now : ℕ) (s : Store) (r : Round)
      → get_round i s ≡ some r
      → get_round i (set_round_status i completed now s)
        ≡ some (record r { status = completed; completed_at = some now })
  unfolding set_round_status
  completed_round i now s r e = ground (
    arith,
    get_round-update_round i i (λ r. record r { status = completed; completed_at = some now }) s
        (λ r. refl),
    get_round-is_round i s r e,
  )

  -- what `publish` leaves, but for the audit trail
  abbrev published : ℕ → String → ℕ → World → GlobalModel → World
  published i username now w m = record w {
    store =
        set_round_status i completed now (promote_global_model m.version_id username now w.store).1;
  }

  reported-Publishes :
      (i : ℕ) (username : String) (now : ℕ) (w : World) (m : GlobalModel) (p : Published)
      (r : Round)
      → IsVersioned w.store
      → get_round i w.store ≡ some r
      → get_staged_model_for_round i w.store ≡ some m
      → m.staged_until ≤ now
      → (report_publish env i username now
          (some (promote username now m))
          (published i username now w m)).0
        ≡ ok p
      → Publishes i username now w
          (report_publish env i username now
            (some (promote username now m))
            (published i username now w m)).1
          p
  unfolding report_publish audit_log set_round_status get_active_global_model
  reported-Publishes i username now w m p r h q e soaked good =
      let there = staged_found i w.store m h e in
      let (_, active, versioned) =
        promote_global_model-active m.version_id username now w.store m h there in
      record {
        staged = m;
        found = e;
        soaked = soaked;
        active = active;
        reported = ground arith;
        versioned = record {
          fresh = versioned.fresh;
          unique = versioned.unique;
          one_active = versioned.one_active;
        };
        round = r;
        round_found = q;
        done = completed_round i now _ r (promote_rounds m.version_id i username now w.store ∙ q);
      }

  publish_staged-Publishes :
      (i : ℕ) (username : String) (now : ℕ) (w : World) (m : GlobalModel) (p : Published)
      (r : Round)
      → IsVersioned w.store
      → get_round i w.store ≡ some r
      → get_staged_model_for_round i w.store ≡ some m
      → (publish_staged env i username now (some m) w).0 ≡ ok p
      → Publishes i username now w (publish_staged env i username now (some m) w).1 p
  publish_staged-Publishes i username now w m p r h q e good =
      elim (Bool-cases (ltb now m.staged_until)) [
        | inl early ↦ absurd (unfold publish_staged in ground (arith, early))
        | inr late ↦
            let same =
              publish_staged-late i username now w m h (staged_found i w.store m h e) late in
            rw same
              (reported-Publishes i username now w m p r h q e (ground arith) (rw same at good))
      ]

  none_fails :
      (i : ℕ) (username : String) (now : ℕ) (w : World) (p : Published)
      → (publish_staged env i username now none w).0 ≢ ok p
  unfolding publish_staged
  none_fails i username now w p e = absurd (ground arith)

  some_succeeds :
      (i : ℕ) (username : String) (now code : ℕ) (m : GlobalModel) (w : World)
      → (report_publish env i username now (some m) w).0 ≢ fail code
  unfolding report_publish
  some_succeeds i username now code m w e = absurd (ground arith)

  found-Publishes :
      (i : ℕ) (username : String) (now : ℕ) (w : World) (o : Option GlobalModel) (p : Published)
      (r : Round)
      → IsVersioned w.store
      → get_round i w.store ≡ some r
      → get_staged_model_for_round i w.store ≡ o
      → (publish_staged env i username now o w).0 ≡ ok p
      → Publishes i username now w (publish_staged env i username now o w).1 p
  found-Publishes i username now w none p r h q e good = absurd (none_fails i username now w p good)
  found-Publishes i username now w (some m) p r h q e good =
      publish_staged-Publishes i username now w m p r h q e good

  round-Publishes :
      (i : ℕ) (username : String) (now : ℕ) (w : World) (o : Option Round) (p : Published)
      → IsVersioned w.store
      → get_round i w.store ≡ o
      → (publish_round env i username now o w).0 ≡ ok p
      → Publishes i username now w (publish_round env i username now o w).1 p
  unfolding publish_round
  round-Publishes i username now w none p h q good = absurd (ground arith)
  round-Publishes i username now w (some r) p h q good =
      found-Publishes i username now w _ p r h q refl good

  -- In a store with distinct versions of which at most one is active, a call of `publish` that
  -- succeeds has found a staged model of the round whose soak time is over; that model is then the
  -- one that is served, the reply names it, the round is completed, and the invariant holds.
  pub publish_round_model-Publishes :
      (i : ℕ) (username : String) (now : ℕ) (w : World) (p : Published)
      → IsVersioned w.store
      → (publish_round_model env i username now w).0 ≡ ok p
      → Publishes i username now w (publish_round_model env i username now w).1 p
  unfolding publish_round_model
  publish_round_model-Publishes i username now w p h good =
      round-Publishes i username now w (get_round i w.store) p h refl good

  staged-refused :
      (i : ℕ) (username : String) (now code : ℕ) (w : World) (o : Option GlobalModel)
      → IsVersioned w.store
      → get_staged_model_for_round i w.store ≡ o
      → (publish_staged env i username now o w).0 ≡ fail code
      → (publish_staged env i username now o w).1 ≡ w
  staged-refused i username now code w none h e bad = unfold publish_staged in refl
  staged-refused i username now code w (some m) h e bad =
      elim (Bool-cases (ltb now m.staged_until)) [
        | inl early ↦ unfold publish_staged in ground (arith, early)
        | inr late ↦
            let same =
              publish_staged-late i username now w m h (staged_found i w.store m h e) late in
            absurd (some_succeeds i username now code _ _ (rw same at bad))
      ]

  round-refused :
      (i : ℕ) (username : String) (now code : ℕ) (w : World) (o : Option Round)
      → IsVersioned w.store
      → (publish_round env i username now o w).0 ≡ fail code
      → (publish_round env i username now o w).1 ≡ w
  unfolding publish_round
  round-refused i username now code w none h bad = refl
  round-refused i username now code w (some r) h bad =
      staged-refused i username now code w _ h refl bad

  -- Under the same invariant a call of `publish` that does not succeed changes nothing, and writes
  -- nothing to the audit trail.
  pub publish_round_model-refused :
      (i : ℕ) (username : String) (now code : ℕ) (w : World)
      → IsVersioned w.store
      → (publish_round_model env i username now w).0 ≡ fail code
      → (publish_round_model env i username now w).1 ≡ w
  unfolding publish_round_model
  publish_round_model-refused i username now code w h bad =
      round-refused i username now code w (get_round i w.store) h bad

  -- What the reply to a rollback says of the world after it.
  pub RollsBack : ℕ → String → ℕ → World → Option GlobalModel → Reply Published × World → Type 0
  RollsBack v username now w none (r, w') = (r ≡ fail 404) × (w' ≡ w)
  RollsBack v username now w (some m) (r, w') =
      if is_staged m.status
      then (r ≡ fail 409) × (w' ≡ w)
      else (w'.store ≡ (promote_global_model v username now w.store).1)
        × (get_active_global_model w'.store ≡ some (promote username now m))

  rollback_to-RollsBack :
      (v : ℕ) (username : String) (now : ℕ) (w : World) (o : Option GlobalModel)
      → IsVersioned w.store
      → get_global_model v w.store ≡ o
      → RollsBack v username now w o (rollback_to env v username now o w)
  unfolding RollsBack rollback_to
  rollback_to-RollsBack v username now w none h e = (refl, refl)
  rollback_to-RollsBack v username now w (some m) h e =
      let (made, active, _) = promote_global_model-active v username now w.store m h e in
      elim (Bool-cases (is_staged m.status)) [
        | inl y ↦ rw y (refl, refl)
        | inr n ↦ rw (n, made) (unfold report_rollback in unfold audit_log in (refl, active))
      ]

  -- Under the same invariant a rollback to a version that does not exist fails with 404, and one to
  -- a staged version with 409, and neither changes anything; any other version is promoted and then
  -- served.
  pub rollback_global_model-RollsBack :
      (v : ℕ) (username : String) (now : ℕ) (w : World)
      → IsVersioned w.store
      → RollsBack v username now w
          (get_global_model v w.store)
          (rollback_global_model env v username now w)
  unfolding rollback_global_model
  rollback_global_model-RollsBack v username now w h =
      rollback_to-RollsBack v username now w (get_global_model v w.store) h refl
