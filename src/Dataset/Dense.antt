-- ===== src/Dataset/Dense.antt =====
-- flproto/dataset.py: the shape of what the reader returns.
use threat_hunting_platform.Prelude.{
  All, subst, length-map, ℕ, zero, suc, String, ◌≡◌, refl, sym, ◌∙◌, some, List, [], ◌∷◌, map,
  arith, length, Option-cases, inl, inr, replicate, some-injective,
}
use threat_hunting_platform.Prelude.Int.{ℤ}
use threat_hunting_platform.Dataset.{
  Text, cell, replace_at, fill, fill_rows, read_lines, load_libsvm,
}

module _ {Float : Type 0} where
  length-replace_at :
      (i : ℕ) (val : Float) (row : List Float) → length (replace_at i val row) ≡ length row
  unfolding replace_at
  length-replace_at i val [] = refl
  length-replace_at zero val (x ∷ row) = refl
  length-replace_at (suc i) val (x ∷ row) = ground (arith, length-replace_at i val row)

  length-fill :
      (width : ℕ) (feats : List (ℤ × Float)) (row row' : List Float)
      → fill width feats row ≡ some row'
      → length row' ≡ length row
  unfolding fill
  length-fill width [] row row' e = ground arith
  length-fill width ((idx, val) ∷ feats) row row' e = elim (Option-cases (cell width idx)) [
    | inl out ↦ absurd (ground (arith, out, e))
    | inr (i, at) ↦
        length-fill width feats (replace_at i val row) row' (rw at at e)
        ∙ length-replace_at i val row
  ]

  length-replicate : (n : ℕ) (x : Float) → length (replicate n x) ≡ n
  length-replicate zero x = refl
  length-replicate (suc n) x = ground (arith, length-replicate n x)

  -- A matrix with a row for each of `n` labels, every row as wide as the others.
  pub record IsDense (width n : ℕ) (xs : List (List Float)) : Type 0 where
    pub rows : length xs ≡ n
    pub columns : All (λ x. length x ≡ width) xs

  module _ (t : Text Float) where
    fill_rows-IsDense :
        (width : ℕ) (rows : List (Float × List (ℤ × Float))) (xs : List (List Float))
        → fill_rows t width rows ≡ some xs
        → IsDense width (length rows) xs
    unfolding fill_rows
    fill_rows-IsDense width [] xs e =
        subst (IsDense width 0) (some-injective [] xs e) (record { rows = refl; columns = tt })
    fill_rows-IsDense width ((y, feats) ∷ rows) xs e =
        elim (Option-cases (fill width feats (replicate width t.zero_value))) [
          | inl out ↦ absurd (ground (arith, out, e))
          | inr (x, filled) ↦ elim (Option-cases (fill_rows t width rows)) [
            | inl out ↦ absurd (ground (arith, filled, out, e))
            | inr (xs', rest) ↦
                let d = fill_rows-IsDense width rows xs' rest in
                let wide =
                  length-fill width feats (replicate width t.zero_value) x filled
                  ∙ length-replicate width t.zero_value in
                subst (IsDense width (suc (length rows)))
                  (some-injective (x ∷ xs') xs (rw (filled, rest) at e))
                  (record { rows = ground (arith, d.rows); columns = (wide, d.columns) })
          ]
        ]

    -- What is read from a file has a row of features for each label, and the rows are all as wide as
    -- the greatest index of the file.
    pub load_libsvm-IsDense :
        (lines : List String) (rows : List (Float × List (ℤ × Float))) (width : ℕ)
        (xs : List (List Float)) (y : List Float)
        → read_lines t lines 0 ≡ some (rows, width)
        → load_libsvm t lines ≡ some (xs, y)
        → IsDense width (length y) xs
    unfolding load_libsvm
    load_libsvm-IsDense lines rows width xs y r e =
        let labels = map (λ (p : Float × List (ℤ × Float)). p.0) rows in
        elim (Option-cases (fill_rows t width rows)) [
          | inl out ↦ absurd (ground (arith, r, out, e))
          | inr (xs', filled) ↦
              subst (λ (p : List (List Float) × List Float). IsDense width (length p.1) p.0)
                (some-injective (xs', labels) (xs, y) (rw (r, filled) at e))
                (subst (λ n. IsDense width n xs')
                  (sym (length-map (λ (p : Float × List (ℤ × Float)). p.0) rows))
                  (fill_rows-IsDense width rows xs' filled))
        ]
