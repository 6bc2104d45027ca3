-- ===== src/Aggregation.antt =====
-- coordinator/aggregation.py: federated bagging of XGBoost models. `Document` is what the code
-- reads and writes of a model's JSON text; `Json` stands for `json.loads` and `json.dumps`. Weights
-- are natural numbers, and the quotient of two of them is exact.
pub mod Loadable
pub mod Shares
pub mod Merging
pub mod Scaling
use threat_hunting_platform.Prelude.{
  ℕ, zero, suc, ◌+◌, ◌*◌, ◌/◌, max, String, Bytes, Bool, true, false, not, ◌&&◌, Option, none, some,
  List, [], ◌∷◌, ◌++◌, ◌==◌, string_Eq, nat_Eq, ltb, length, take, replicate, sum_by, if◌then◌else◌,
}
use threat_hunting_platform.Prelude.Sort.{sort_desc}

-- One tree; `body` is all of it that the merge leaves as it is.
pub record Tree : Type 0 where
  pub id : ℕ
  pub body : String

-- A model's JSON text, parsed. `num_feature` is 0 where the text has no such number, `num_trees` is
-- absent where there is no `gbtree_model_param`, and `rest` is everything else.
pub record Document : Type 0 where
  pub feature_names : List String
  pub num_feature : ℕ
  pub trees : List Tree
  pub tree_info : List ℕ
  pub iteration_indptr : List ℕ
  pub num_trees : Option ℕ
  pub rest : String

pub data Schema : Type 0 where
  names : List String → Schema
  dim : ℕ → Schema

abbrev pub same_names : List String → List String → Bool
same_names [] [] = true
same_names (x ∷ xs) (y ∷ ys) = x == y && same_names xs ys
same_names _ _ = false

abbrev pub same_schema : Schema → Schema → Bool
same_schema (names xs) (names ys) = same_names xs ys
same_schema (dim m) (dim n) = m == n
same_schema _ _ = false

abbrev schema_by_names : List String → ℕ → Schema
schema_by_names [] nfeat = dim nfeat
schema_by_names (x ∷ xs) nfeat = names (x ∷ xs)

-- What `json.loads` makes of a text: one of the two errors that the merge catches, a document, or a
-- value of another shape, on which `_get_trees` raises, with what `model_feature_schema` makes of
-- it. A tree list that is no list of objects, and feature names that are no list of texts, are not
-- modelled.
pub data Parsed : Type 0 where
  not_json : Parsed
  misshapen : Option Schema → Parsed
  document : Document → Parsed

pub record Json : Type 0 where
  pub loads : Bytes → Parsed
  pub dumps : Document → Bytes

unfoldable pub document_schema : Document → Schema
document_schema mj = schema_by_names mj.feature_names mj.num_feature

-- `enumerate(trees)` from `i` on
unfoldable pub renumber : ℕ → List Tree → List Tree
renumber i [] = []
renumber i (t ∷ ts) = record t { id = i } ∷ renumber (suc i) ts

-- `list(range(...))` from `i` on
abbrev pub range_from : ℕ → ℕ → List ℕ
range_from i zero = []
range_from i (suc n) = i ∷ range_from (suc i) n

abbrev pub numbered : Option ℕ → ℕ → Option ℕ
numbered none n = none
numbered (some _) n = some n

unfoldable pub set_trees : Document → List Tree → Document
unfolding renumber
set_trees mj trees =
    let n = length trees in
    record mj {
      trees = renumber 0 trees;
      tree_info = replicate n 0;
      iteration_indptr = range_from 0 (suc n);
      num_trees = numbered mj.num_trees n;
    }

abbrev pub max_global_trees : ℕ
max_global_trees = 500

pub record Weighted : Type 0 where
  pub model : Document
  pub weight : ℕ

abbrev pub has_trees : List Tree → Bool
has_trees [] = false
has_trees (t ∷ ts) = true

abbrev pub is_usable : Document → ℕ → Bool
is_usable mj w = ltb 0 w && has_trees mj.trees

-- `max(1, int(len(client_trees) * weight / total))`
abbrev pub n_include : ℕ → Weighted → ℕ
n_include total c = max 1 (length c.model.trees * c.weight / total)

-- the loop over `parsed[1:]`
unfoldable pub extend : ℕ → List Tree → List Weighted → List Tree
extend total base [] = base
extend total base (c ∷ cs) = extend total (base ++ take (n_include total c) c.model.trees) cs

unfoldable pub all_same : Schema → List Weighted → Bool
all_same sc [] = true
all_same sc (c ∷ cs) = same_schema (document_schema c.model) sc && all_same sc cs

pub record Info : Type 0 where
  pub num_models : ℕ
  pub total_trees : ℕ
  pub capped : Bool

-- A `ValueError` with either message, another exception, or the model with its figures.
pub data Merge : Type 0 where
  no_usable_models schema_mismatch raised : Merge
  merged : Document → Info → Merge

unfoldable pub bag : ℕ → ℕ → Weighted → List Weighted → Merge
bag total num_models base others =
    let all_trees = extend total base.model.trees others in
    let base_trees = take max_global_trees all_trees in
    merged (set_trees base.model base_trees) (record {
      num_models = num_models;
      total_trees = length base_trees;
      capped = ltb max_global_trees (length all_trees);
    })

-- `parsed` from the heaviest down; a list is not empty here
unfoldable pub bag_sorted : ℕ → ℕ → List Weighted → Merge
bag_sorted total num_models [] = no_usable_models
bag_sorted total num_models (base ∷ others) = bag total num_models base others

abbrev pub by_weight : Weighted → ℕ
by_weight c = c.weight

-- The merge of the models that parsed with a weight and trees.
unfoldable pub merge_parsed : List Weighted → Merge
merge_parsed [] = no_usable_models
merge_parsed (c ∷ cs) =
    if not (all_same (document_schema c.model) cs)
    then schema_mismatch
    else bag_sorted (sum_by by_weight (c ∷ cs)) (length (c ∷ cs)) (sort_desc by_weight (c ∷ cs))

abbrev pub keep_document : Document → ℕ → List Weighted → List Weighted
keep_document mj w parsed =
    if is_usable mj w then record { model = mj; weight = w } ∷ parsed else parsed

-- One round of the first loop: what does not parse, weighs nothing or has no trees is left out.
-- `none` is the exception of `_get_trees`, which is called on what has a weight.
abbrev pub keep : Parsed → ℕ → Option (List Weighted) → Option (List Weighted)
keep not_json w parsed = parsed
keep (misshapen sc) w parsed = if ltb 0 w then none else parsed
keep (document mj) w none = none
keep (document mj) w (some parsed) = some (keep_document mj w parsed)

unfoldable pub merge_all : Option (List Weighted) → Merge
unfolding merge_parsed
merge_all none = raised
merge_all (some parsed) = merge_parsed parsed

abbrev schema_of : Parsed → Option Schema
schema_of not_json = none
schema_of (misshapen sc) = sc
schema_of (document mj) = some (document_schema mj)

module _ (json : Json) where
  -- `model_feature_schema` of a text: `none` is an exception.
  unfoldable pub model_feature_schema : Bytes → Option Schema
  unfolding document_schema
  model_feature_schema raw = schema_of (json.loads raw)

  unfoldable pub parse_models : List (Bytes × ℕ) → Option (List Weighted)
  parse_models [] = some []
  parse_models ((raw, w) ∷ rest) = keep (json.loads raw) w (parse_models rest)

  unfoldable pub merge_xgboost_models : List (Bytes × ℕ) → Merge
  unfolding merge_all parse_models
  merge_xgboost_models weighted_models = merge_all (parse_models weighted_models)
