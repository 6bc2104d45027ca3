-- ===== src/Aggregation/Loadable.antt =====
-- coordinator/aggregation.py: the merged document is consistent, whatever was merged.
use threat_hunting_platform.Prelude.{
  ℕ, suc, ◌≤◌, ◌≡◌, refl, Bool, true, false, Option, none, some, List, [], ◌∷◌, arith, length, take,
  length-take, replicate, map, ap, sym, if◌then◌else◌, Bytes, not,
}
use threat_hunting_platform.Prelude.Sort.{sort_desc}
use threat_hunting_platform.Aggregation.{
  Tree, Document, Json, Weighted, Info, Merge, merged, no_usable_models, schema_mismatch, raised,
  merge_all, renumber, range_from, numbered, set_trees, max_global_trees, extend, bag, bag_sorted,
  merge_parsed, all_same, document_schema, by_weight, merge_xgboost_models, parse_models,
}

-- The count is `n`, where there is one.
abbrev pub Counts : Option ℕ → ℕ → Type 0
Counts none n = Unit
Counts (some m) n = m ≡ n

-- A document that XGBoost loads: tree ids without a duplicate, parallel arrays as long as there are
-- trees, and `num_trees`, where the document has it, their number.
pub record IsConsistent (d : Document) : Type 0 where
  pub ids : map (λ (t : Tree). t.id) d.trees ≡ range_from 0 (length d.trees)
  pub groups : d.tree_info ≡ replicate (length d.trees) 0
  pub indptr : d.iteration_indptr ≡ range_from 0 (suc (length d.trees))
  pub count : Counts d.num_trees (length d.trees)

numbered-Counts : (o : Option ℕ) (n : ℕ) → Counts (numbered o n) n
numbered-Counts none n = tt
numbered-Counts (some m) n = refl

length-renumber : (i : ℕ) (ts : List Tree) → length (renumber i ts) ≡ length ts
unfolding renumber
length-renumber i [] = refl
length-renumber i (t ∷ ts) = ap suc (length-renumber (suc i) ts)

ids-renumber :
    (i : ℕ) (ts : List Tree) → map (λ (t : Tree). t.id) (renumber i ts) ≡ range_from i (length ts)
unfolding renumber
ids-renumber i [] = refl
ids-renumber i (t ∷ ts) = ap (λ r. i ∷ r) (ids-renumber (suc i) ts)

pub length-set_trees : (d : Document) (ts : List Tree) → length (set_trees d ts).trees ≡ length ts
unfolding set_trees
length-set_trees d ts = length-renumber 0 ts

pub set_trees-IsConsistent : (d : Document) (ts : List Tree) → IsConsistent (set_trees d ts)
unfolding set_trees
set_trees-IsConsistent d ts = record {
  ids = rw (length-renumber 0 ts) (ids-renumber 0 ts);
  groups = rw (length-renumber 0 ts);
  indptr = rw (length-renumber 0 ts);
  count = rw (length-renumber 0 ts) (numbered-Counts d.num_trees (length ts));
}

-- What holds of the result, if there is one.
abbrev pub Ensures : (Document → Info → Type 0) → Merge → Type 0
Ensures P (merged d i) = P d i
Ensures P _ = Unit

pub Ensures-merged :
    (P : Document → Info → Type 0) (m : Merge) {d : Document} {i : Info}
    → Ensures P m
    → m ≡ merged d i
    → P d i
Ensures-merged P m h e = rw e at h

pub Ensures-map :
    (P Q : Document → Info → Type 0) (m : Merge)
    → ((d : Document) (i : Info) → P d i → Q d i)
    → Ensures P m
    → Ensures Q m
Ensures-map P Q (merged d i) f h = f d i h
Ensures-map P Q no_usable_models f h = tt
Ensures-map P Q schema_mismatch f h = tt
Ensures-map P Q raised f h = tt

pub bag_sorted-Ensures :
    (P : Document → Info → Type 0) (total n : ℕ)
    → ((c : Weighted) (cs : List Weighted) → Ensures P (bag total n c cs))
    → (cs : List Weighted) → Ensures P (bag_sorted total n cs)
bag_sorted-Ensures P total n h [] = unfold bag_sorted in tt
bag_sorted-Ensures P total n h (c ∷ cs) = unfold bag_sorted in h c cs

abbrev IsLoadable : Document → Info → Type 0
IsLoadable d i =
    IsConsistent d × (i.total_trees ≡ length d.trees) × (length d.trees ≤ max_global_trees)

bag-IsLoadable :
    (total n : ℕ) (c : Weighted) (cs : List Weighted) → Ensures IsLoadable (bag total n c cs)
unfolding bag
bag-IsLoadable total n c cs =
    let all_trees = extend total c.model.trees cs in
    (
      set_trees-IsConsistent c.model (take 500 all_trees),
      sym (length-set_trees c.model (take 500 all_trees)),
      omega (arith, length-set_trees c.model (take 500 all_trees), length-take {0} 500 all_trees),
    )

pub if-Ensures :
    (P : Document → Info → Type 0) (b : Bool) (m : Merge)
    → (b ≡ true → Ensures P m)
    → Ensures P (if not b then schema_mismatch else m)
if-Ensures P true m h = h refl
if-Ensures P false m h = tt

merge_parsed-IsLoadable : (cs : List Weighted) → Ensures IsLoadable (merge_parsed cs)
unfolding merge_parsed
merge_parsed-IsLoadable [] = tt
merge_parsed-IsLoadable (c ∷ cs) =
    if-Ensures IsLoadable (all_same (document_schema c.model) cs) _
      λ _. bag_sorted-Ensures IsLoadable _ _ (bag-IsLoadable _ _) (sort_desc by_weight (c ∷ cs))

pub merge_all-Ensures :
    (P : Document → Info → Type 0)
    → ((cs : List Weighted) → Ensures P (merge_parsed cs))
    → (o : Option (List Weighted)) → Ensures P (merge_all o)
unfolding merge_all
merge_all-Ensures P h none = tt
merge_all-Ensures P h (some cs) = h cs

-- A merged model has consecutive tree ids from 0, parallel arrays that agree with its number of
-- trees, that number as `num_trees` where it has this count, and at most 500 trees; the reported
-- number is that of its trees.
pub merge_xgboost_models-IsLoadable :
    (json : Json) (ws : List (Bytes × ℕ)) (d : Document) (i : Info)
    → merge_xgboost_models json ws ≡ merged d i
    → IsConsistent d × (i.total_trees ≡ length d.trees) × (length d.trees ≤ 500)
unfolding merge_xgboost_models
merge_xgboost_models-IsLoadable json ws d i =
    Ensures-merged IsLoadable _
      (merge_all-Ensures IsLoadable merge_parsed-IsLoadable (parse_models json ws))
