-- ===== src/Tests/Versions.antt =====
-- coordinator/store.py: two versions of the global model.
use threat_hunting_platform.Prelude.{ℕ, ◌≡◌, ◌≢◌, refl, none, some, true, arith}
use threat_hunting_platform.Prelude.Table.{update, find, count, any}
use threat_hunting_platform.Store.Rows.{Store, empty, GlobalModel}
use threat_hunting_platform.Store.Models.{
  new_version, promote, is_version, stage_global_model, get_global_model, promote_global_model,
  get_active_global_model,
}
use threat_hunting_platform.Store.Models.OneActive.{
  IsVersioned, stage_global_model-IsVersioned, promote_global_model-IsVersioned,
  promote_global_model-active,
}

empty-IsVersioned : IsVersioned empty
unfolding count
empty-IsVersioned = record { fresh = tt; unique = λ v. omega arith; one_active = omega arith }

-- version 1, staged
abbrev one_staged : Store
one_staged = (stage_global_model 1 "hash_1" "round_1.json" 2000 none 1000 empty).1

one_staged-IsVersioned : IsVersioned one_staged
one_staged-IsVersioned =
    stage_global_model-IsVersioned 1 "hash_1" "round_1.json" 2000 none 1000 empty empty-IsVersioned

-- version 1 published
abbrev one_published : Store
one_published = (promote_global_model 1 "root" 3000 one_staged).1

one_published-IsVersioned : IsVersioned one_published
one_published-IsVersioned =
    promote_global_model-IsVersioned 1 "root" 3000 one_staged one_staged-IsVersioned

-- version 2 staged beside it
abbrev both : Store
both = (stage_global_model 2 "hash_2" "round_2.json" 6000 none 4000 one_published).1

both-IsVersioned : IsVersioned both
both-IsVersioned =
    stage_global_model-IsVersioned 2 "hash_2" "round_2.json" 6000 none 4000 one_published
      one_published-IsVersioned

abbrev second : GlobalModel
second = new_version 2 2 "hash_2" "round_2.json" 6000 none 4000

second_there : get_global_model 2 both ≡ some second
unfolding get_global_model stage_global_model promote_global_model find update
second_there = refl

promote_global_model-active_example :
    let (r, s') = promote_global_model 2 "root" 7000 both in
    (r ≡ some (promote "root" 7000 second))
    × (get_active_global_model s' ≡ some (promote "root" 7000 second))
    × IsVersioned s'
promote_global_model-active_example =
    promote_global_model-active 2 "root" 7000 both second both-IsVersioned second_there

second_any : any (is_version 2) both.global_models ≡ true
unfolding stage_global_model promote_global_model find update
second_any = refl

distinct : ◌≢◌ {A = ℕ} 2 1
distinct e = absurd (omega arith)
