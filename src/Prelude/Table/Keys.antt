-- ===== src/Prelude/Table/Keys.antt =====
-- Tables in which a key fits at most one row.
use Prim.Native.Nat.{◌≤◌, ◌+◌}
use mathlib.Core.Path.{◌≡◌, refl}
use mathlib.Core.Logic.{inl, inr}
use mathlib.Core.Bool.{Bool, true, false}
use mathlib.Core.Option.{Option, none, some}
use mathlib.Core.List.{List, [], ◌∷◌}
use native.Mathlib.Omega.{arith}
use threat_hunting_platform.Prelude.Tests.{Bool-cases}
use threat_hunting_platform.Prelude.Table.{
  find, select, update, any, count, find_of_count-zero, touch,
}

module _ {ℓ} {A : Type ℓ} (p k : A → Bool) (hp : (x : A) → p x ≡ true → k x ≡ true) where
  abbrev fits : Option A → Bool
  fits none = false
  fits (some x) = p x

  pub any-key_missing : (t : List A) → find k t ≡ none → any p t ≡ false
  unfolding find
  any-key_missing [] e = refl
  any-key_missing (y ∷ t) e = ground (arith, hp y, any-key_missing t)

  -- If the key is unique, a row fits `p` exactly when the row of the key does.
  pub any-find_key : (t : List A) → count k t ≤ 1 → any p t ≡ fits (find k t)
  unfolding find count
  any-find_key [] u = refl
  any-find_key (x ∷ t) u = elim (Bool-cases (k x)) [
    | inl key ↦ ground (arith, any-key_missing t, find_of_count-zero k t)
    | inr next ↦ ground (arith, hp x, any-find_key t)
  ]

  module _ (live : A → Bool) (f : A → A) (hl : (x : A) → live x ≡ true → k x ≡ true)
      (hf : (x : A) → live (f x) ≡ false) where
    none-live : (t : List A) → count k t ≡ 0 → find live (update p f t) ≡ none
    unfolding find update count
    none-live [] c = refl
    none-live (y ∷ t) c = ground (arith, hl y, hf y, none-live t)

    -- After an UPDATE that ends the life of a row with a unique key, no row of that key lives.
    pub find-live-update :
        (t : List A) → count k t ≤ 1 → any p t ≡ true → find live (update p f t) ≡ none
    unfolding find update count
    find-live-update [] u a = ground arith
    find-live-update (x ∷ t) u a = elim (Bool-cases (k x)) [
      | inl key ↦ ground (arith, hf x, none-live t, any-key_missing t, find_of_count-zero k t)
      | inr next ↦ ground (arith, hl x, hp x, find-live-update t)
    ]

-- An UPDATE that cannot revive a row keeps the rows dead.
pub find_dead-update {ℓ} :
    {A : Type ℓ} (p live : A → Bool) (f : A → A)
    → ((x : A) → live x ≡ false → live (f x) ≡ false)
    → (t : List A) → find live t ≡ none
    → find live (update p f t) ≡ none
unfolding find update
find_dead-update p live f h [] e = refl
find_dead-update p live f h (x ∷ t) e = ground (arith, h x, find_dead-update p live f h t)

module _ {ℓ} {A : Type ℓ} where
  pub select-none : (p : A → Bool) (t : List A) → find p t ≡ none → select p t ≡ []
  unfolding find select
  select-none p [] e = refl
  select-none p (x ∷ t) e = ground (arith, select-none p t)

  -- the one row that fits
  pub select_one :
      (p : A → Bool) (t : List A) (x : A) → count p t ≤ 1 → find p t ≡ some x → select p t ≡ x ∷ []
  unfolding find select count
  select_one p [] x u e = ground arith
  select_one p (y ∷ t) x u e =
      ground (arith, select_one p t x, select-none p t, find_of_count-zero p t)

  -- An UPDATE that makes each row fit `q`, where none did, leaves the rows that it touched.
  pub find-update_made :
      (q p : A → Bool) (f : A → A)
      → ((x : A) → q (f x) ≡ true)
      → (t : List A) → find q t ≡ none
      → find q (update p f t) ≡ touch (λ _. true) f (find p t)
  unfolding find update
  find-update_made q p f h [] e = refl
  find-update_made q p f h (x ∷ t) e = ground (arith, h x, find-update_made q p f h t)

  pub count-update-le :
      (q p : A → Bool) (f : A → A) (t : List A) → count q (update p f t) ≤ count q t + count p t
  unfolding count update
  count-update-le q p f [] = ground arith
  count-update-le q p f (x ∷ t) = ground (arith, count-update-le q p f t)

  -- An UPDATE of the rows of `q` that leaves none of them in `q`.
  pub find-update_gone :
      (q : A → Bool) (f : A → A)
      → ((x : A) → q (f x) ≡ false)
      → (t : List A) → find q (update q f t) ≡ none
  unfolding find update
  find-update_gone q f h [] = refl
  find-update_gone q f h (x ∷ t) = ground (arith, h x, find-update_gone q f h t)
