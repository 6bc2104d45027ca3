-- ===== src/Prelude/Table.antt =====
-- A database table as the list of its rows, in the order of insertion: what SELECT, UPDATE and
-- DELETE with a WHERE clause do to it.
pub mod Keys
use Prim.Native.Nat.{ℕ, zero, suc, ◌+◌, ◌≤◌}
use mathlib.Core.Path.{◌≡◌, refl, subst}
use mathlib.Core.Logic.{inl, inr}
use mathlib.Core.Bool.{Bool, true, false}
use mathlib.Core.Option.{Option, none, some}
use mathlib.Core.List.{List, [], ◌∷◌, ◌++◌}
use native.Mathlib.Omega.{arith}
use threat_hunting_platform.Prelude.Tests.{if◌then◌else◌, is_some, Bool-cases}
use threat_hunting_platform.Prelude.Lists.{All}

module _ {ℓ} {A : Type ℓ} where
  -- the first row that fits
  unfoldable pub find : (A → Bool) → List A → Option A
  find p [] = none
  find p (x ∷ xs) = if p x then some x else find p xs

  -- every row that fits
  unfoldable pub select : (A → Bool) → List A → List A
  select p [] = []
  select p (x ∷ xs) = let rest = select p xs in if p x then x ∷ rest else rest

  unfoldable pub update : (A → Bool) → (A → A) → List A → List A
  update p f [] = []
  update p f (x ∷ xs) = (if p x then f x else x) ∷ update p f xs

  -- `rowcount > 0` of an UPDATE, or a SELECT that finds a row
  abbrev pub any : (A → Bool) → List A → Bool
  any p t = is_some (find p t)

  unfoldable pub delete : (A → Bool) → List A → List A
  delete p [] = []
  delete p (x ∷ xs) = let rest = delete p xs in if p x then rest else x ∷ rest

  -- how many rows fit
  unfoldable pub count : (A → Bool) → List A → ℕ
  count p [] = 0
  count p (x ∷ xs) = (if p x then 1 else 0) + count p xs

  abbrev pub touch : (A → Bool) → (A → A) → Option A → Option A
  touch p f none = none
  touch p f (some x) = some (if p x then f x else x)

  abbrev pub or_row : (A → Bool) → Option A → A → Option A
  or_row p none x = if p x then some x else none
  or_row p (some y) x = some y

  -- An UPDATE that leaves the columns of `q` alone updates the row that `q` finds.
  pub find-update :
      (q p : A → Bool) (f : A → A) (t : List A)
      → ((x : A) → q (f x) ≡ q x)
      → find q (update p f t) ≡ touch p f (find q t)
  unfolding find update
  find-update q p f [] h = refl
  find-update q p f (x ∷ t) h = ground (arith, find-update q p f t h, h x)

  pub find-append :
      (p : A → Bool) (t : List A) (x : A) → find p (t ++ x ∷ []) ≡ or_row p (find p t) x
  unfolding find
  find-append p [] x = ground arith
  find-append p (y ∷ t) x = ground (arith, find-append p t x)

  -- what is found fits
  pub find_fits : (p : A → Bool) (t : List A) (x : A) → find p t ≡ some x → p x ≡ true
  unfolding find
  find_fits p [] x h = ground arith
  find_fits p (y ∷ t) x h = ground (arith, find_fits p t x)

  pub find-delete :
      (q p : A → Bool) (t : List A)
      → ((x : A) → q x ≡ true → p x ≡ false)
      → find q (delete p t) ≡ find q t
  unfolding find delete
  find-delete q p [] h = refl
  find-delete q p (x ∷ t) h = ground (arith, find-delete q p t h, h x)

  pub find-delete_self : (p : A → Bool) (t : List A) → find p (delete p t) ≡ none
  unfolding find delete
  find-delete_self p [] = refl
  find-delete_self p (x ∷ t) = ground (arith, find-delete_self p t)

  pub count-append :
      (p : A → Bool) (t : List A) (x : A)
      → count p (t ++ x ∷ []) ≡ count p t + (if p x then 1 else 0)
  unfolding count
  count-append p [] x = ground arith
  count-append p (y ∷ t) x = ground (arith, count-append p t x)

  pub count-update :
      (q p : A → Bool) (f : A → A) (t : List A)
      → ((x : A) → p x ≡ true → q (f x) ≡ q x)
      → count q (update p f t) ≡ count q t
  unfolding count update
  count-update q p f [] h = refl
  count-update q p f (x ∷ t) h = ground (arith, count-update q p f t h, h x)

  -- no row fits exactly when none is found
  pub count-zero : (p : A → Bool) (t : List A) → find p t ≡ none → count p t ≡ 0
  unfolding count find
  count-zero p [] h = refl
  count-zero p (x ∷ t) h = ground (arith, count-zero p t)

  pub find_of_count-zero : (p : A → Bool) (t : List A) → count p t ≡ 0 → find p t ≡ none
  unfolding count find
  find_of_count-zero p [] h = refl
  find_of_count-zero p (x ∷ t) h = ground (arith, find_of_count-zero p t)

  if_holds : (P : A → Type 0) (b : Bool) (x y : A) → P x → P y → P (if b then x else y)
  if_holds P true x y hx hy = hx
  if_holds P false x y hx hy = hy

  pub All-update :
      (P : A → Type 0) (p : A → Bool) (f : A → A) (t : List A)
      → ((x : A) → P x → P (f x))
      → All P t
      → All P (update p f t)
  unfolding update
  All-update P p f [] h a = tt
  All-update P p f (x ∷ t) h a = (if_holds P (p x) (f x) x (h x a.0) a.0, All-update P p f t h a.1)

  -- what a DELETE leaves did not fit
  pub All-delete :
      (P : A → Type 0) (p : A → Bool) (t : List A)
      → All (λ x. p x ≡ false → P x) t
      → All P (delete p t)
  unfolding delete
  All-delete P p [] a = tt
  All-delete P p (x ∷ t) a = elim (Bool-cases (p x)) [
    | inl gone ↦ rw gone (All-delete P p t a.1)
    | inr kept ↦ rw kept (a.0 kept, All-delete P p t a.1)
  ]

  pub All-find :
      (P : A → Type 0) (p : A → Bool) (t : List A) (x : A) → All P t → find p t ≡ some x → P x
  unfolding find
  All-find P p [] x a e = absurd (cc)
  All-find P p (y ∷ t) x a e = elim (Bool-cases (p y)) [
    | inl fits ↦ subst P (ground arith) a.0
    | inr other ↦ All-find P p t x a.1 (ground arith)
  ]
