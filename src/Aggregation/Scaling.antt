-- ===== src/Aggregation/Scaling.antt =====
-- coordinator/aggregation.py: only the relative size of the weights matters.
use native.Mathlib.Nat.{mul-div-mul_left, mul-le-mul_left, mul-lt-mul_of_pos_left}
use threat_hunting_platform.Prelude.{
  ℕ, zero, suc, ◌*◌, ◌/◌, ◌<◌, ◌≡◌, refl, Bytes, Option, none, some, List, [], ◌∷◌, ◌++◌, ◌∙◌, map,
  arith, length, take, sum_by, ltb, leb, length-map, Bool-cases, inl, inr, ap,
}
use threat_hunting_platform.Prelude.Sort.{map-sort_desc}
use threat_hunting_platform.Aggregation.{
  Json, Parsed, not_json, misshapen, document, merge_all, Tree, Schema, keep, Weighted, by_weight,
  is_usable, n_include, extend, bag, bag_sorted, all_same, merge_parsed, parse_models,
  merge_xgboost_models, document_schema,
}

module _ (k : ℕ) (pos : 0 < k) where
  abbrev pub scale : Bytes × ℕ → Bytes × ℕ
  scale (raw, w) = (raw, k * w)

  abbrev heavier : Weighted → Weighted
  heavier c = record c { weight = k * c.weight }

  quotient : (n w t : ℕ) → n * (k * w) / (k * t) ≡ n * w / t
  quotient n w t =
      let factor : n * (k * w) ≡ k * (n * w) = grind arith in
      rw factor (mul-div-mul_left (n * w) t pos)

  same_order : (x y : Weighted) → leb (k * x.weight) (k * y.weight) ≡ leb x.weight y.weight
  same_order x y = elim (Bool-cases (leb x.weight y.weight)) [
    | inl le ↦ ground (arith, mul-le-mul_left {m = x.weight} {n = y.weight} k)
    | inr gt ↦ ground (arith, mul-lt-mul_of_pos_left {m = y.weight} {n = x.weight} {k = k})
  ]

  sum_heavier : (cs : List Weighted) → sum_by by_weight (map heavier cs) ≡ k * sum_by by_weight cs
  unfolding sum_by
  sum_heavier [] = omega arith
  sum_heavier (c ∷ cs) = grind (arith, sum_heavier cs)

  n_include-heavier : (t : ℕ) (c : Weighted) → n_include (k * t) (heavier c) ≡ n_include t c
  n_include-heavier t c = rw (quotient (length c.model.trees) c.weight t)

  extend-heavier :
      (t : ℕ) (base : List Tree) (cs : List Weighted)
      → extend (k * t) base (map heavier cs) ≡ extend t base cs
  unfolding extend
  extend-heavier t base [] = refl
  extend-heavier t base (c ∷ cs) =
      ap (λ m. extend (k * t) (base ++ take m c.model.trees) (map heavier cs))
        (n_include-heavier t c)
      ∙ extend-heavier t (base ++ take (n_include t c) c.model.trees) cs

  bag_sorted-heavier :
      (t n : ℕ) (cs : List Weighted) → bag_sorted (k * t) n (map heavier cs) ≡ bag_sorted t n cs
  unfolding bag_sorted bag
  bag_sorted-heavier t n [] = refl
  bag_sorted-heavier t n (c ∷ cs) = rw (extend-heavier t c.model.trees cs)

  all_same-heavier :
      (sc : Schema) (cs : List Weighted) → all_same sc (map heavier cs) ≡ all_same sc cs
  unfolding all_same
  all_same-heavier sc [] = refl
  all_same-heavier sc (c ∷ cs) = rw (all_same-heavier sc cs)

  merge_parsed-heavier : (cs : List Weighted) → merge_parsed (map heavier cs) ≡ merge_parsed cs
  unfolding merge_parsed
  merge_parsed-heavier [] = refl
  merge_parsed-heavier (c ∷ cs) = rw (
    all_same-heavier (document_schema c.model) cs,
    map-sort_desc by_weight heavier same_order (c ∷ cs),
    sum_heavier (c ∷ cs),
    length-map heavier (c ∷ cs),
    bag_sorted-heavier,
  )

  pos_scale : (w : ℕ) → ltb 0 (k * w) ≡ ltb 0 w
  pos_scale zero = ground arith
  pos_scale (suc w) = ground (arith, mul-lt-mul_of_pos_left {m = 0} {n = suc w} {k = k})

  abbrev all_heavier : Option (List Weighted) → Option (List Weighted)
  all_heavier none = none
  all_heavier (some cs) = some (map heavier cs)

  keep-scale :
      (l : Parsed) (w : ℕ) (o : Option (List Weighted))
      → keep l (k * w) (all_heavier o) ≡ all_heavier (keep l w o)
  keep-scale not_json w o = refl
  keep-scale (misshapen sc) w o =
      rw (pos_scale w)
        (elim (Bool-cases (ltb 0 w)) [ inl weighs ↦ rw weighs | inr light ↦ rw light ])
  keep-scale (document mj) w none = refl
  keep-scale (document mj) w (some cs) =
      rw (pos_scale w)
        (elim (Bool-cases (is_usable mj w)) [ inl usable ↦ rw usable | inr useless ↦ rw useless ])

  parse_models-scale :
      (json : Json) (ws : List (Bytes × ℕ))
      → parse_models json (map scale ws) ≡ all_heavier (parse_models json ws)
  unfolding parse_models
  parse_models-scale json [] = refl
  parse_models-scale json ((raw, w) ∷ ws) =
      rw (parse_models-scale json ws) (keep-scale (json.loads raw) w _)

  merge_all-heavier : (o : Option (List Weighted)) → merge_all (all_heavier o) ≡ merge_all o
  unfolding merge_all
  merge_all-heavier none = refl
  merge_all-heavier (some cs) = merge_parsed-heavier cs

  -- Weights that are all multiplied by the same positive factor give the same model.
  pub merge_xgboost_models-scale :
      (json : Json) (ws : List (Bytes × ℕ))
      → merge_xgboost_models json (map scale ws) ≡ merge_xgboost_models json ws
  unfolding merge_xgboost_models
  merge_xgboost_models-scale json ws =
      rw (parse_models-scale json ws) (merge_all-heavier (parse_models json ws))
