-- ===== src/Store/Models/Found.antt =====
-- coordinator/store.py: the staged version of a round is the one that its number finds.
use threat_hunting_platform.Prelude.{
  ℕ, subst, ◌≤◌, ◌≡◌, Bool, ◌&&◌, some, List, [], ◌∷◌, arith, All, All-map, Bool-cases, inl, inr,
  ◌==◌, nat_Eq,
}
use threat_hunting_platform.Prelude.Table.{find, select, count, count-zero, find_of_count-zero}
use threat_hunting_platform.Prelude.Sort.{sort_desc, All-sort_desc}
use threat_hunting_platform.Store.Rows.{Store, GlobalModel, is_staged}
use threat_hunting_platform.Store.Models.{
  is_version, first, get_global_model, get_staged_model_for_round,
}
use threat_hunting_platform.Store.Models.OneActive.{IsVersioned}

-- With distinct numbers, a row is what a lookup of its number finds.
find_self :
    (t : List GlobalModel)
    → ((v : ℕ) → count (is_version v) t ≤ 1)
    → All (λ m. find (is_version m.version_id) t ≡ some m) t
unfolding find count
find_self [] h = tt
find_self (x ∷ t) h = (
  ground arith,
  All-map
      (λ m e. ground (
        arith,
        h m.version_id,
        count-zero (is_version m.version_id) t,
        find_of_count-zero (is_version m.version_id) t,
      ))
      t (find_self t (λ v. ground (arith, h v))),
)

All-select :
    (P : GlobalModel → Type 0) (p : GlobalModel → Bool) (t : List GlobalModel)
    → All P t
    → All P (select p t)
unfolding select
All-select P p [] h = tt
All-select P p (x ∷ t) h = elim (Bool-cases (p x)) [
  | inl y ↦ rw y (h.0, All-select P p t h.1)
  | inr n ↦ rw n (All-select P p t h.1)
]

first_holds :
    (P : GlobalModel → Type 0) (t : List GlobalModel) (m : GlobalModel)
    → All P t
    → first t ≡ some m
    → P m
first_holds P [] m h e = absurd (ground arith)
first_holds P (x ∷ t) m h e = subst P (ground arith) h.0

-- The version that a round has staged is the one that its number finds.
pub staged_found :
    (i : ℕ) (s : Store) (m : GlobalModel)
    → IsVersioned s
    → get_staged_model_for_round i s ≡ some m
    → get_global_model m.version_id s ≡ some m
unfolding get_staged_model_for_round get_global_model
staged_found i s m h e =
    let key : GlobalModel → ℕ = λ m. m.created_at in
    let rows = select (λ m. m.round_id == i && is_staged m.status) s.global_models in
    first_holds (λ m. find (is_version m.version_id) s.global_models ≡ some m) (sort_desc key rows)
      m
      (All-sort_desc key _ rows
        (All-select _ _ s.global_models (find_self s.global_models h.unique)))
      e
