-- ===== src/Aggregation/Merging.antt =====
-- coordinator/aggregation.py: when a merge succeeds.
use threat_hunting_platform.Prelude.{
  ℕ, ◌<◌, ◌≡◌, refl, true, some, List, [], ◌∷◌, ◌++◌, arith, length, String, Bool-cases, inl, inr,
  Bytes, All, eq_refl, string_Eq, nat_Eq,
}
use threat_hunting_platform.Prelude.Sort.{sort_desc, length-sort_desc}
use threat_hunting_platform.Aggregation.{
  Document, Json, Weighted, Info, merged, bag, bag_sorted, merge_parsed, all_same, is_usable, keep,
  keep_document, merge_all, Parsed, not_json, misshapen, document, Schema, names, dim, same_names,
  same_schema, document_schema, by_weight, merge_xgboost_models, parse_models,
}
use threat_hunting_platform.Aggregation.Shares.{HasSchema}

bag_sorted-merges :
    (total n : ℕ) (c : Weighted) (cs : List Weighted)
    → 0 < length cs
    → (d : Document) × (i : Info) × (bag_sorted total n cs ≡ merged d i)
unfolding bag_sorted bag
bag_sorted-merges total n c [] h = absurd (omega arith)
bag_sorted-merges total n c (x ∷ cs) h = (_, _, refl)

-- the models that take part
abbrev usable_in : Parsed → ℕ → List Weighted
usable_in (document mj) w = keep_document mj w []
usable_in _ w = []

unfoldable pub usable : Json → List (Bytes × ℕ) → List Weighted
usable json [] = []
usable json ((raw, w) ∷ ws) = usable_in (json.loads raw) w ++ usable json ws

abbrev ShapeOf : Parsed → ℕ → Type 0
ShapeOf (misshapen sc) w = w ≡ 0
ShapeOf _ w = Unit

abbrev pub HasShape : Json → Bytes × ℕ → Type 0
HasShape json (raw, w) = ShapeOf (json.loads raw) w

keep-usable :
    (l : Parsed) (w : ℕ) (cs : List Weighted)
    → ShapeOf l w
    → keep l w (some cs) ≡ some (usable_in l w ++ cs)
keep-usable not_json w cs h = refl
keep-usable (misshapen sc) w cs h = rw h refl
keep-usable (document mj) w cs h = elim (Bool-cases (is_usable mj w)) [
  | inl takes ↦ rw takes refl
  | inr leaves ↦ rw leaves refl
]

parse_models-usable :
    (json : Json) (ws : List (Bytes × ℕ))
    → All (HasShape json) ws
    → parse_models json ws ≡ some (usable json ws)
unfolding parse_models usable
parse_models-usable json [] h = refl
parse_models-usable json ((raw, w) ∷ ws) h =
    rw (parse_models-usable json ws h.1) (keep-usable (json.loads raw) w (usable json ws) h.0)

same_names_refl : (xs : List String) → same_names xs xs ≡ true
same_names_refl [] = refl
same_names_refl (x ∷ xs) = ground (arith, eq_refl x, same_names_refl xs)

same_schema_refl : (sc : Schema) → same_schema sc sc ≡ true
same_schema_refl (names xs) = same_names_refl xs
same_schema_refl (dim n) = ground arith

all_same_of : (sc : Schema) (cs : List Weighted) → All (HasSchema sc) cs → all_same sc cs ≡ true
unfolding all_same
all_same_of sc [] h = refl
all_same_of sc (c ∷ cs) h = rw (h.0, all_same_of sc cs h.1) (rw (same_schema_refl sc) refl)

-- Models merge, with no error, whenever each text of positive weight is no JSON or has the shape of
-- a model, one is usable, and all usable ones have its feature schema.
pub merge_xgboost_models-merges :
    (json : Json) (ws : List (Bytes × ℕ)) (c : Weighted) (cs : List Weighted)
    → All (HasShape json) ws
    → usable json ws ≡ c ∷ cs
    → All (λ x. document_schema x.model ≡ document_schema c.model) cs
    → (d : Document) × (i : Info) × (merge_xgboost_models json ws ≡ merged d i)
unfolding merge_xgboost_models merge_all merge_parsed
merge_xgboost_models-merges json ws c cs shaped e same =
    rw (parse_models-usable json ws shaped, e, all_same_of (document_schema c.model) cs same)
      (bag_sorted-merges _ _ c (sort_desc by_weight (c ∷ cs))
        (omega (arith, length-sort_desc by_weight (c ∷ cs))))
