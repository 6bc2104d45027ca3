-- ===== src/Prelude/Sort.antt =====
-- Python's `sorted` and `list.sort` by a numeric key: insertion into a sorted list. It is stable,
-- with `reverse=True` too.
use Prim.Native.Nat.{ℕ, suc, ◌≤◌, ◌+◌}
use mathlib.Core.Path.{◌≡◌, refl}
use mathlib.Core.Logic.{inl, inr}
use native.Mathlib.Nat.{le_trans}
use mathlib.Core.List.{List, [], ◌∷◌, map, Perm}
use mathlib.Core.List.Perm
use native.Mathlib.Omega.{arith}
use threat_hunting_platform.Prelude.Tests.{if◌then◌else◌, leb, Bool-cases}
use threat_hunting_platform.Prelude.Lists.{All, All-map, length, sum_by}

module _ {A : Type 0} (key : A → ℕ) where
  insert_desc : A → List A → List A
  insert_desc x [] = x ∷ []
  insert_desc x (y ∷ ys) = if leb (key y) (key x) then x ∷ y ∷ ys else y ∷ insert_desc x ys

  -- `xs.sort(key=key, reverse=True)`
  unfoldable pub sort_desc : List A → List A
  unfolding insert_desc
  sort_desc [] = []
  sort_desc (x ∷ xs) = insert_desc x (sort_desc xs)

  insert_asc : A → List A → List A
  insert_asc x [] = x ∷ []
  insert_asc x (y ∷ ys) = if leb (key x) (key y) then x ∷ y ∷ ys else y ∷ insert_asc x ys

  -- `ORDER BY key`
  unfoldable pub sort_asc : List A → List A
  unfolding insert_asc
  sort_asc [] = []
  sort_asc (x ∷ xs) = insert_asc x (sort_asc xs)

  -- Each key is at least the ones behind it.
  abbrev pub IsDescending : List A → Type 0
  IsDescending [] = Unit
  IsDescending (x ∷ xs) = All (λ y. key y ≤ key x) xs × IsDescending xs

  All-insert_desc :
      (P : A → Type 0) (x : A) (ys : List A) → P x → All P ys → All P (insert_desc x ys)
  unfolding insert_desc
  All-insert_desc P x [] p h = (p, tt)
  All-insert_desc P x (y ∷ ys) p h = elim (Bool-cases (leb (key y) (key x))) [
    | inl le ↦ rw le (p, h)
    | inr gt ↦ rw gt (h.0, All-insert_desc P x ys p h.1)
  ]

  pub All-sort_desc : (P : A → Type 0) (xs : List A) → All P xs → All P (sort_desc xs)
  unfolding sort_desc
  All-sort_desc P [] h = tt
  All-sort_desc P (x ∷ xs) h = All-insert_desc P x (sort_desc xs) h.0 (All-sort_desc P xs h.1)

  All-insert_asc : (P : A → Type 0) (x : A) (ys : List A) → P x → All P ys → All P (insert_asc x ys)
  unfolding insert_asc
  All-insert_asc P x [] p h = (p, tt)
  All-insert_asc P x (y ∷ ys) p h = elim (Bool-cases (leb (key x) (key y))) [
    | inl le ↦ rw le (p, h)
    | inr gt ↦ rw gt (h.0, All-insert_asc P x ys p h.1)
  ]

  pub All-sort_asc : (P : A → Type 0) (xs : List A) → All P xs → All P (sort_asc xs)
  unfolding sort_asc
  All-sort_asc P [] h = tt
  All-sort_asc P (x ∷ xs) h = All-insert_asc P x (sort_asc xs) h.0 (All-sort_asc P xs h.1)

  insert_desc-IsDescending :
      (x : A) (ys : List A) → IsDescending ys → IsDescending (insert_desc x ys)
  unfolding insert_desc
  insert_desc-IsDescending x [] h = (tt, tt)
  insert_desc-IsDescending x (y ∷ ys) h = elim (Bool-cases (leb (key y) (key x))) [
    | inl le ↦ rw le ((ground arith, All-map (λ z q. le_trans q (ground arith)) ys h.0), h)
    | inr gt ↦ rw gt (
      All-insert_desc (λ z. key z ≤ key y) x ys (ground arith) h.0,
      insert_desc-IsDescending x ys h.1,
    )
  ]

  pub sort_desc-IsDescending : (xs : List A) → IsDescending (sort_desc xs)
  unfolding sort_desc
  sort_desc-IsDescending [] = tt
  sort_desc-IsDescending (x ∷ xs) =
      insert_desc-IsDescending x (sort_desc xs) (sort_desc-IsDescending xs)

  insert_desc-perm : (x : A) (ys : List A) → Perm (insert_desc x ys) (x ∷ ys)
  unfolding insert_desc
  insert_desc-perm x [] = Perm.refl (x ∷ [])
  insert_desc-perm x (y ∷ ys) = elim (Bool-cases (leb (key y) (key x))) [
    | inl le ↦ rw le (Perm.refl (x ∷ y ∷ ys))
    | inr gt ↦ rw gt (Perm.trans (Perm.cons y (insert_desc-perm x ys)) (Perm.swap x y ys))
  ]

  pub sort_desc-perm : (xs : List A) → Perm (sort_desc xs) xs
  unfolding sort_desc
  sort_desc-perm [] = Perm.refl []
  sort_desc-perm (x ∷ xs) =
      Perm.trans (insert_desc-perm x (sort_desc xs)) (Perm.cons x (sort_desc-perm xs))

  sum_by-insert_desc :
      (f : A → ℕ) (x : A) (ys : List A) → sum_by f (insert_desc x ys) ≡ f x + sum_by f ys
  unfolding insert_desc sum_by
  sum_by-insert_desc f x [] = refl
  sum_by-insert_desc f x (y ∷ ys) = ground (arith, sum_by-insert_desc f x ys)

  pub sum_by-sort_desc : (f : A → ℕ) (xs : List A) → sum_by f (sort_desc xs) ≡ sum_by f xs
  unfolding sort_desc sum_by
  sum_by-sort_desc f [] = refl
  sum_by-sort_desc f (x ∷ xs) =
      omega (arith, sum_by-insert_desc f x (sort_desc xs), sum_by-sort_desc f xs)

  length-insert_desc : (x : A) (ys : List A) → length (insert_desc x ys) ≡ suc (length ys)
  unfolding insert_desc
  length-insert_desc x [] = refl
  length-insert_desc x (y ∷ ys) = ground (arith, length-insert_desc x ys)

  pub length-sort_desc : (xs : List A) → length (sort_desc xs) ≡ length xs
  unfolding sort_desc
  length-sort_desc [] = refl
  length-sort_desc (x ∷ xs) =
      omega (arith, length-insert_desc x (sort_desc xs), length-sort_desc xs)

  -- Only the order of the keys counts, and mapping over the elements keeps it.
  module _ (g : A → A) (same : (x y : A) → leb (key (g x)) (key (g y)) ≡ leb (key x) (key y)) where
    map-insert_desc :
        (x : A) (ys : List A) → insert_desc (g x) (map g ys) ≡ map g (insert_desc x ys)
    unfolding insert_desc
    map-insert_desc x [] = refl
    map-insert_desc x (y ∷ ys) = ground (arith, same y x, map-insert_desc x ys)

    pub map-sort_desc : (xs : List A) → sort_desc (map g xs) ≡ map g (sort_desc xs)
    unfolding sort_desc
    map-sort_desc [] = refl
    map-sort_desc (x ∷ xs) = rw (map-sort_desc xs) (map-insert_desc x (sort_desc xs))
