-- ===== src/Dataset.antt =====
-- flproto/dataset.py: the reader of libsvm files. `Text` stands for Python's methods on strings and
-- the conversions `float` and `int`, which are `none` where they raise; a raise of the reader is
-- `none` too. Values are those of a type `Float`: numpy's rounding to 32 bits is not modelled.
pub mod Dense
use threat_hunting_platform.Prelude.{
  ℕ, zero, suc, ◌+◌, ◌-◌, String, Bool, false, ◌||◌, Option, none, some, List, [], ◌∷◌, map, ◌==◌,
  string_Eq, nat_Eq, ltb, replicate, if◌then◌else◌,
}
use threat_hunting_platform.Prelude.Int.{ℤ, pos, negsuc}

pub record Text (Float : Type 0) : Type 0 where
  pub strip : String → String
  pub is_comment : String → Bool
  pub split : String → List String
  pub split_colon : String → List String
  pub to_float : String → Option Float
  pub to_int : String → Option ℤ
  pub zero_value : Float

abbrev same_index : ℤ → ℤ → Bool
same_index (pos i) (pos j) = i == j
same_index (negsuc i) (negsuc j) = i == j
same_index _ _ = false

abbrev pub and_then : {A B : Type 0} → Option A → (A → Option B) → Option B
and_then none f = none
and_then (some a) f = f a

-- `if idx > max_index: max_index = idx`
abbrev pub grow : ℕ → ℤ → ℕ
grow max_index (pos i) = if ltb max_index i then i else max_index
grow max_index (negsuc i) = max_index

-- `X[r, idx - 1]` with numpy's negative indexes: the place in a row, `none` for an IndexError.
unfoldable pub cell : ℕ → ℤ → Option ℕ
cell width (pos zero) = if width == 0 then none else some (width - 1)
cell width (pos (suc i)) = if ltb i width then some i else none
cell width (negsuc i) = if ltb (suc i) width then some (width - (i + 2)) else none

module _ {Float : Type 0} where
  -- `feats[idx] = val`: an index that is there keeps its place.
  unfoldable pub assign : ℤ → Float → List (ℤ × Float) → List (ℤ × Float)
  assign idx val [] = (idx, val) ∷ []
  assign idx val ((i, v) ∷ feats) =
      let rest = assign idx val feats in
      if same_index idx i then (idx, val) ∷ feats else (i, v) ∷ rest

  unfoldable pub replace_at : ℕ → Float → List Float → List Float
  replace_at i val [] = []
  replace_at zero val (x ∷ xs) = val ∷ xs
  replace_at (suc i) val (x ∷ xs) = x ∷ replace_at i val xs

  unfoldable pub fill : ℕ → List (ℤ × Float) → List Float → Option (List Float)
  unfolding cell replace_at
  fill width [] row = some row
  fill width ((idx, val) ∷ feats) row =
      and_then (cell width idx) (λ i. fill width feats (replace_at i val row))

  module _ (t : Text Float) where
    abbrev pub parse_pair : List String → Option (ℤ × Float)
    parse_pair (idx_s ∷ val_s ∷ []) =
        and_then (t.to_int idx_s) (λ idx. and_then (t.to_float val_s) (λ val. some (idx, val)))
    parse_pair _ = none

    unfoldable pub read_features :
        List String → List (ℤ × Float) → ℕ → Option (List (ℤ × Float) × ℕ)
    unfolding assign
    read_features [] feats max_index = some (feats, max_index)
    read_features (tok ∷ parts) feats max_index =
        and_then (parse_pair (t.split_colon tok))
          (λ (idx, val). read_features parts (assign idx val feats) (grow max_index idx))

    abbrev pub read_row : List String → ℕ → Option ((Float × List (ℤ × Float)) × ℕ)
    read_row [] max_index = none
    read_row (label ∷ parts) max_index =
        and_then (t.to_float label)
          (λ y. and_then (read_features parts [] max_index) (λ (feats, m). some ((y, feats), m)))

    unfoldable pub read_lines : List String → ℕ → Option (List (Float × List (ℤ × Float)) × ℕ)
    unfolding read_features
    read_lines [] max_index = some ([], max_index)
    read_lines (raw ∷ lines) max_index =
        let line = t.strip raw in
        let skipped = read_lines lines max_index in
        if line == "" || t.is_comment line
        then skipped
        else and_then (read_row (t.split line) max_index)
            (λ (row, m). and_then (read_lines lines m) (λ (rows, width). some (row ∷ rows, width)))

    unfoldable pub fill_rows : ℕ → List (Float × List (ℤ × Float)) → Option (List (List Float))
    unfolding fill
    fill_rows width [] = some []
    fill_rows width ((y, feats) ∷ rows) =
        and_then (fill width feats (replicate width t.zero_value))
          (λ x. and_then (fill_rows width rows) (λ xs. some (x ∷ xs)))

    unfoldable pub load_libsvm : List String → Option (List (List Float) × List Float)
    unfolding read_lines fill_rows
    load_libsvm lines = and_then (read_lines lines 0) (λ (rows, width).
        and_then (fill_rows width rows)
          (λ x. some (x, map (λ (r : Float × List (ℤ × Float)). r.0) rows)))
