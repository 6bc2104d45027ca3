-- ===== src/Aggregation/Shares.antt =====
-- coordinator/aggregation.py: what each contributor has in the result of a merge.
use threat_hunting_platform.Prelude.{
  ◌∙◌, sym, ℕ, ◌+◌, ◌≤◌, ◌<◌, ◌≡◌, refl, true, Option, none, some, List, [], ◌∷◌, ◌++◌, arith,
  length, take, length-take, length-append, sum_by, eq_iff, String, min, ap, Bool-cases, inl, inr,
  Bytes, All, All-map, Bool, false, ltb, if◌then◌else◌, string_Eq, nat_Eq,
}
use threat_hunting_platform.Prelude.Sort.{
  sort_desc, sum_by-sort_desc, length-sort_desc, All-sort_desc,
}
use threat_hunting_platform.Aggregation.{
  Tree, Document, Json, Weighted, Info, merged, set_trees, extend, n_include, bag, bag_sorted,
  merge_parsed, all_same, has_trees, is_usable, keep, merge_all, Parsed, not_json, misshapen,
  document, Schema, names, dim, same_names, same_schema, document_schema, by_weight,
  merge_xgboost_models, parse_models,
}
use threat_hunting_platform.Aggregation.Loadable.{
  length-set_trees, Ensures, Ensures-merged, Ensures-map, if-Ensures,
}

abbrev pub trees_of : Weighted → ℕ
trees_of c = length c.model.trees

-- the trees of all contributors together
abbrev pub tree_count : List Weighted → ℕ
tree_count = sum_by trees_of

-- A contributor with a tree gives at least one, and at most all of its own.
include_bounds :
    (total : ℕ) (c : Weighted)
    → 0 < length c.model.trees
    → (1 ≤ length (take (n_include total c) c.model.trees))
      × (length (take (n_include total c) c.model.trees) ≤ length c.model.trees)
include_bounds total c t = omega (arith, length-take {0} (n_include total c) c.model.trees)

length-extend :
    (total : ℕ) (base : List Tree) (cs : List Weighted)
    → All (λ c. 0 < length c.model.trees) cs
    → (length base + length cs ≤ length (extend total base cs))
      × (length (extend total base cs) ≤ length base + tree_count cs)
unfolding extend sum_by
length-extend total base [] h = omega arith
length-extend total base (c ∷ cs) h =
    let given = take (n_include total c) c.model.trees in
    omega (
      arith,
      length-extend total (base ++ given) cs h.1,
      length-append {0} base given,
      include_bounds total c h.0,
    )

-- Bounds on the number of trees in the result of merging `n` models.
abbrev SharesAll : ℕ → ℕ → Document → Info → Type 0
SharesAll n most d i = (i.num_models ≡ n) × (min 500 n ≤ length d.trees) × (length d.trees ≤ most)

nonempty : (ts : List Tree) → has_trees ts ≡ true → 0 < length ts
nonempty [] h = absurd (cc)
nonempty (t ∷ ts) h = omega arith

HasTrees : Weighted → Type 0
HasTrees c = 0 < length c.model.trees

bag-SharesAll :
    (total : ℕ) (c : Weighted) (cs : List Weighted)
    → All HasTrees (c ∷ cs)
    → Ensures (SharesAll (length (c ∷ cs)) (tree_count (c ∷ cs))) (bag total (length (c ∷ cs)) c cs)
unfolding bag sum_by HasTrees
bag-SharesAll total c cs h =
    let all_trees = extend total c.model.trees cs in
    let (least, most) = length-extend total c.model.trees cs h.1 in
    let n = length-set_trees c.model (take 500 all_trees) in
    let cut = length-take {0} 500 all_trees in (refl, omega arith, omega arith)

bag_sorted-SharesAll :
    (total : ℕ) (cs : List Weighted)
    → All HasTrees cs
    → Ensures (SharesAll (length cs) (tree_count cs)) (bag_sorted total (length cs) cs)
unfolding bag_sorted
bag_sorted-SharesAll total [] h = tt
bag_sorted-SharesAll total (c ∷ cs) h = bag-SharesAll total c cs h

merge_parsed-SharesAll :
    (cs : List Weighted)
    → All HasTrees cs
    → Ensures (SharesAll (length cs) (tree_count cs)) (merge_parsed cs)
unfolding merge_parsed
merge_parsed-SharesAll [] h = tt
merge_parsed-SharesAll (c ∷ cs) h =
    let sorted = sort_desc by_weight (c ∷ cs) in
    let at_sorted =
      bag_sorted-SharesAll (sum_by by_weight (c ∷ cs)) sorted
        (All-sort_desc by_weight HasTrees (c ∷ cs) h) in
    if-Ensures _ (all_same (document_schema c.model) cs) _ λ _.
      rw (length-sort_desc by_weight (c ∷ cs), sum_by-sort_desc by_weight trees_of (c ∷ cs)) at
        at_sorted

same_names-eq : (xs ys : List String) → same_names xs ys ≡ true → xs ≡ ys
same_names-eq [] [] h = refl
same_names-eq [] (y ∷ ys) h = absurd (cc)
same_names-eq (x ∷ xs) [] h = absurd (cc)
same_names-eq (x ∷ xs) (y ∷ ys) h = ground (arith, eq_iff x y, same_names-eq xs ys)

same_schema-eq : (a b : Schema) → same_schema a b ≡ true → a ≡ b
same_schema-eq (names xs) (names ys) h = ap names (same_names-eq xs ys h)
same_schema-eq (dim m) (dim n) h = ground arith
same_schema-eq (names xs) (dim n) h = absurd (cc)
same_schema-eq (dim m) (names ys) h = absurd (cc)

abbrev pub HasSchema : Schema → Weighted → Type 0
HasSchema sc c = document_schema c.model ≡ sc

all_same-eq : (sc : Schema) (cs : List Weighted) → all_same sc cs ≡ true → All (HasSchema sc) cs
unfolding all_same
all_same-eq sc [] h = tt
all_same-eq sc (c ∷ cs) h =
    (same_schema-eq (document_schema c.model) sc (ground arith), all_same-eq sc cs (ground arith))

bag_sorted-schema :
    (sc : Schema) (total n : ℕ) (cs : List Weighted)
    → All (HasSchema sc) cs
    → Ensures (λ d _. document_schema d ≡ sc) (bag_sorted total n cs)
unfolding bag_sorted bag document_schema set_trees
bag_sorted-schema sc total n [] h = tt
bag_sorted-schema sc total n (c ∷ cs) h = h.0

merge_parsed-schema :
    (cs : List Weighted) → Ensures (λ d _. All (HasSchema (document_schema d)) cs) (merge_parsed cs)
unfolding merge_parsed
merge_parsed-schema [] = tt
merge_parsed-schema (c ∷ cs) =
    let sc = document_schema c.model in
    if-Ensures _ (all_same sc cs) _ λ same.
      let all : All (HasSchema sc) (c ∷ cs) = (refl, all_same-eq sc cs same) in
      Ensures-map (λ d _. document_schema d ≡ sc) _ _
        (λ d i e. All-map (λ x q. q ∙ sym e) (c ∷ cs) all)
        (bag_sorted-schema sc _ _ (sort_desc by_weight (c ∷ cs))
          (All-sort_desc by_weight (HasSchema sc) (c ∷ cs) all))

-- What holds of the models that take part, if nothing raises.
abbrev AllKept : (Weighted → Type 0) → Option (List Weighted) → Type 0
AllKept P none = Unit
AllKept P (some cs) = All P cs

if-AllKept :
    (P : Weighted → Type 0) (b : Bool) (o : Option (List Weighted))
    → AllKept P o
    → AllKept P (if b then none else o)
if-AllKept P true o h = tt
if-AllKept P false o h = h

keep-HasTrees :
    (l : Parsed) (w : ℕ) (o : Option (List Weighted))
    → AllKept HasTrees o
    → AllKept HasTrees (keep l w o)
unfolding HasTrees
keep-HasTrees not_json w o h = h
keep-HasTrees (misshapen sc) w o h = if-AllKept HasTrees (ltb 0 w) o h
keep-HasTrees (document mj) w none h = tt
keep-HasTrees (document mj) w (some cs) h = elim (Bool-cases (is_usable mj w)) [
  | inl usable ↦ rw usable (nonempty mj.trees (ground arith), h)
  | inr useless ↦ rw useless h
]

parse_models-HasTrees :
    (json : Json) (ws : List (Bytes × ℕ)) → AllKept HasTrees (parse_models json ws)
unfolding parse_models
parse_models-HasTrees json [] = tt
parse_models-HasTrees json ((raw, w) ∷ ws) =
    keep-HasTrees (json.loads raw) w (parse_models json ws) (parse_models-HasTrees json ws)

-- What the result has of the models `cs` that took part.
pub record TakesPart (cs : List Weighted) (d : Document) (i : Info) : Type 0 where
  pub schema : All (λ c. document_schema c.model ≡ document_schema d) cs
  pub number : i.num_models ≡ length cs
  pub least : min 500 (length cs) ≤ length d.trees
  pub most : length d.trees ≤ tree_count cs

kept-TakesPart :
    (o : Option (List Weighted)) (d : Document) (i : Info)
    → AllKept HasTrees o
    → merge_all o ≡ merged d i
    → (cs : List Weighted) × (o ≡ some cs) × TakesPart cs d i
unfolding merge_all
kept-TakesPart none d i h e = absurd (ground arith)
kept-TakesPart (some cs) d i h e =
    let (n, least, most) =
      Ensures-merged (SharesAll (length cs) (tree_count cs)) _ (merge_parsed-SharesAll cs h) e in
    (
      cs,
      refl,
      record {
        schema =
            Ensures-merged (λ d _. All (HasSchema (document_schema d)) cs) _
              (merge_parsed-schema cs) e;
        number = n;
        least = least;
        most = most;
      },
    )

-- When models are merged, nothing has raised, and every model that parses, has a positive weight
-- and has trees takes part: it has the feature schema of the result, and the result has at least as
-- many trees as there are such models, or 500, and at most all of their trees.
pub merge_xgboost_models-shares :
    (json : Json) (ws : List (Bytes × ℕ)) (d : Document) (i : Info)
    → merge_xgboost_models json ws ≡ merged d i
    → (cs : List Weighted) × (parse_models json ws ≡ some cs) × TakesPart cs d i
unfolding merge_xgboost_models
merge_xgboost_models-shares json ws d i e =
    kept-TakesPart (parse_models json ws) d i (parse_models-HasTrees json ws) e
