-- ===== src/Tests/Merges.antt =====
-- coordinator/aggregation.py: two models, the second with twice the weight.
use threat_hunting_platform.Prelude.{
  sum_by, ℕ, ◌≡◌, ◌≤◌, refl, false, Bytes, none, some, List, [], ◌∷◌, arith, ◌==◌, string_Eq,
  if◌then◌else◌, length, map, All,
}
use threat_hunting_platform.Aggregation.{
  extend, set_trees, bag, bag_sorted, merge_parsed, Tree, Document, Json, Info, merged, raised,
  misshapen, document, not_json, Weighted, merge_all, merge_xgboost_models, parse_models,
  document_schema, all_same,
}
use threat_hunting_platform.Prelude.Sort.{sort_desc}
use threat_hunting_platform.Aggregation.Loadable.{IsConsistent, merge_xgboost_models-IsLoadable}
use threat_hunting_platform.Aggregation.Shares.{TakesPart, merge_xgboost_models-shares}
use threat_hunting_platform.Aggregation.Merging.{usable, HasShape, merge_xgboost_models-merges}
use threat_hunting_platform.Aggregation.Scaling.{scale, merge_xgboost_models-scale}

abbrev model : List Tree → Document
model ts = record {
  feature_names = "cpu" ∷ "net" ∷ [];
  num_feature = 2;
  trees = ts;
  tree_info = [];
  iteration_indptr = [];
  num_trees = some 0;
  rest = "";
}

abbrev light : Document
light = model (record { id = 0; body = "a" } ∷ record { id = 1; body = "b" } ∷ [])

abbrev heavy : Document
heavy = model (record { id = 0; body = "c" } ∷ [])

abbrev json : Json
json = record {
  loads = λ b.
      if b == "light"
      then document light
      else if b == "heavy"
      then document heavy
      else if b == "[]"
      then misshapen none
      else not_json;
  dumps = λ d. "";
}

abbrev inputs : List (Bytes × ℕ)
inputs = ("light", 10) ∷ ("torn", 5) ∷ ("heavy", 20) ∷ []

-- The heavy model's tree, and one of the light one's two.
abbrev result : Document
result = record (model (record { id = 0; body = "c" } ∷ record { id = 1; body = "a" } ∷ [])) {
  tree_info = 0 ∷ 0 ∷ [];
  iteration_indptr = 0 ∷ 1 ∷ 2 ∷ [];
  num_trees = some 2;
}

abbrev figures : Info
figures = record { num_models = 2; total_trees = 2; capped = false }

result_is : merge_xgboost_models json inputs ≡ merged result figures
unfolding merge_xgboost_models merge_all merge_parsed parse_models all_same document_schema
    bag_sorted sort_desc bag set_trees extend sum_by
result_is = refl

merge_xgboost_models-IsLoadable_example :
    IsConsistent result × (figures.total_trees ≡ length result.trees) × (length result.trees ≤ 500)
merge_xgboost_models-IsLoadable_example =
    merge_xgboost_models-IsLoadable json inputs result figures result_is

merge_xgboost_models-shares_example :
    (cs : List Weighted) × (parse_models json inputs ≡ some cs) × TakesPart cs result figures
merge_xgboost_models-shares_example =
    merge_xgboost_models-shares json inputs result figures result_is

-- a list, which weighs nothing, is left out
abbrev weighed : List (Bytes × ℕ)
weighed = ("[]", 0) ∷ inputs

usable_is :
    usable json weighed
    ≡ record { model = light; weight = 10 } ∷ record { model = heavy; weight = 20 } ∷ []
unfolding usable
usable_is = refl

shaped : All (HasShape json) weighed
shaped = (refl, (tt, (tt, (tt, tt))))

same :
    All
      (λ (x : Weighted). document_schema x.model ≡ document_schema light)
      (record { model = heavy; weight = 20 } ∷ [])
unfolding document_schema
same = (refl, tt)

merge_xgboost_models-merges_example :
    (d : Document) × (i : Info) × (merge_xgboost_models json weighed ≡ merged d i)
merge_xgboost_models-merges_example =
    merge_xgboost_models-merges json weighed (record { model = light; weight = 10 })
      (record { model = heavy; weight = 20 } ∷ []) shaped usable_is same

-- with a weight it raises
list_raises : merge_xgboost_models json (("[]", 1) ∷ inputs) ≡ raised
unfolding merge_xgboost_models parse_models merge_all
list_raises = refl

merge_xgboost_models-scale_example :
    merge_xgboost_models json (map (scale 3 (omega arith)) inputs)
    ≡ merge_xgboost_models json inputs
merge_xgboost_models-scale_example = merge_xgboost_models-scale 3 (omega arith) json inputs
