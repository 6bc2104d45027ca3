-- ===== src/Privacy/Noise.antt =====
-- client_ref/privacy.py: which values of a model get noise, and which draw each of them gets.
use native.Mathlib.Nat.{add-zero, zero-add}
use threat_hunting_platform.Prelude.{
  ℕ, zero, suc, ◌+◌, Bytes, ◌≡◌, refl, Bool, true, false, Bool-cases, inl, inr, Option, none, some,
  List, [], ◌∷◌, length, get_elem?, arith, if◌then◌else◌,
}
use threat_hunting_platform.Prelude.Int.{ℤ}
use threat_hunting_platform.Privacy.{
  Floats, Tree, Model, Codec, is_leaf, list_or_empty, perturb_conditions, perturb_tree,
  perturb_trees, dump_noisy, apply_differential_privacy, perturb_some, at_least, scale_of,
}

-- whether node `i` is a leaf, and how many leaves come before it
unfoldable pub leaf_at : List ℤ → ℕ → Bool
leaf_at [] i = false
leaf_at (l ∷ ls) zero = is_leaf l
leaf_at (l ∷ ls) (suc i) = leaf_at ls i

unfoldable pub leaves_before : List ℤ → ℕ → ℕ
leaves_before [] i = 0
leaves_before (l ∷ ls) zero = 0
leaves_before (l ∷ ls) (suc i) = (if is_leaf l then 1 else 0) + leaves_before ls i

module _ {Float : Type 0} (f : Floats Float) (scale : Float) where
  abbrev pub add_to : Float → Option Float → Option Float
  add_to z none = none
  add_to z (some c) = some (f.add c z)

  shift : (k n : ℕ) → k + (1 + n) ≡ suc k + n
  shift k n = omega arith

  conditions_at :
      (k : ℕ) (cs : List Float) (ls : List ℤ) (i : ℕ)
      → get_elem? (perturb_conditions f scale k cs ls).0 i ≡ (
          if leaf_at ls i
          then add_to (f.laplace scale (k + leaves_before ls i)) (get_elem? cs i)
          else get_elem? cs i)
  unfolding perturb_conditions leaf_at leaves_before
  conditions_at k [] ls i = elim (Bool-cases (leaf_at ls i)) [
    | inl y ↦ rw y refl
    | inr n ↦ rw n refl
  ]
  conditions_at k (c ∷ cs) [] i = refl
  conditions_at k (c ∷ cs) (l ∷ ls) zero = elim (Bool-cases (is_leaf l)) [
    | inl y ↦ rw (y, add-zero) refl
    | inr n ↦ rw n refl
  ]
  conditions_at k (c ∷ cs) (l ∷ ls) (suc i) = elim (Bool-cases (is_leaf l)) [
    | inl y ↦ rw (y, shift k (leaves_before ls i)) (conditions_at (suc k) cs ls i)
    | inr n ↦ rw (n, zero-add) (conditions_at k cs ls i)
  ]

  drawn :
      (k : ℕ) (cs : List Float) (ls : List ℤ)
      → (perturb_conditions f scale k cs ls).1 ≡ k + leaves_before ls (length cs)
  unfolding perturb_conditions leaves_before
  drawn k [] [] = omega arith
  drawn k [] (l ∷ ls) = omega arith
  drawn k (c ∷ cs) [] = omega arith
  drawn k (c ∷ cs) (l ∷ ls) = elim (Bool-cases (is_leaf l)) [
    | inl y ↦ rw (y, shift k (leaves_before ls (length cs))) (drawn (suc k) cs ls)
    | inr n ↦ rw (n, zero-add) (drawn k cs ls)
  ]

  abbrev value_in : Option (List Float) → ℕ → Option Float
  value_in none i = none
  value_in (some cs) i = get_elem? cs i

  abbrev leaves_in : Option (List Float) → List ℤ → ℕ
  leaves_in none ls = 0
  leaves_in (some cs) ls = leaves_before ls (length cs)

  -- A tree with noise on the values of its leaves, each its own draw from the k-th on.
  pub record IsNoisy (k : ℕ) (t t' : Tree Float) : Type 0 where
    pub left : t'.left_children ≡ t.left_children
    pub others : t'.rest ≡ t.rest
    pub values :
        (i : ℕ)
        → value_in t'.split_conditions i ≡ (
            if leaf_at (list_or_empty t.left_children) i
            then add_to
                (f.laplace scale (k + leaves_before (list_or_empty t.left_children) i))
                (value_in t.split_conditions i)
            else value_in t.split_conditions i)

  -- As many trees, each with noise; the draws go on from tree to tree.
  abbrev pub AreNoisy : ℕ → List (Tree Float) → List (Tree Float) → Type 0
  AreNoisy k [] [] = Unit
  AreNoisy k (t ∷ ts) (t' ∷ ts') =
      IsNoisy k t t'
      × AreNoisy (k + leaves_in t.split_conditions (list_or_empty t.left_children)) ts ts'
  AreNoisy k _ _ = ⊥

  same_if : (b : Bool) → ◌≡◌ {A = Option Float} none (if b then none else none)
  same_if true = refl
  same_if false = refl

  tree-IsNoisy :
      (k : ℕ) (t : Tree Float) (o : Option (List Float))
      → t.split_conditions ≡ o
      → IsNoisy k t (perturb_some f scale k t o).0
        × ((perturb_some f scale k t o).1 ≡ k + leaves_in o (list_or_empty t.left_children))
  tree-IsNoisy k t none e =
      (record { left = refl; others = refl; values = λ i. rw e (same_if _) }, omega arith)
  tree-IsNoisy k t (some cs) e = (
    record {
      left = refl;
      others = refl;
      values = λ i. rw e (conditions_at k cs (list_or_empty t.left_children) i);
    },
    drawn k cs (list_or_empty t.left_children),
  )

  trees-AreNoisy : (k : ℕ) (ts : List (Tree Float)) → AreNoisy k ts (perturb_trees f scale k ts)
  unfolding perturb_trees perturb_tree
  trees-AreNoisy k [] = tt
  trees-AreNoisy k (t ∷ ts) =
      let (noisy, next) = tree-IsNoisy k t t.split_conditions refl in
      (noisy, rw (← next) (trees-AreNoisy (perturb_some f scale k t t.split_conditions).1 ts))

module _ {Float : Type 0} (f : Floats Float) (c : Codec Float) (raw : Bytes) (epsilon : Float) where
  -- What is returned for a text that is no JSON, and for one that is.
  abbrev pub IsPrivate : Option (Model Float) → Bytes → Type 0
  IsPrivate none out = out ≡ raw
  IsPrivate (some m) out =
      (m' : Model Float) × (out ≡ c.dumps m')
      × (m'.rest ≡ m.rest)
      × AreNoisy f (f.div (f.literal "0.1") (at_least f epsilon (f.literal "0.01"))) 0 m.trees
          m'.trees

  IsPrivate-model : (o : Option (Model Float)) → IsPrivate o (dump_noisy f c raw epsilon o)
  unfolding scale_of
  IsPrivate-model none = refl
  IsPrivate-model (some m) = (_, refl, refl, trees-AreNoisy f _ 0 m.trees)

  -- A text that is no JSON is returned as it is. In a model every value of a leaf gets noise, each
  -- one a draw of its own with the scale 0.1 / max(epsilon, 0.01), and nothing else changes: no
  -- other value, no child, no other field.
  pub apply_differential_privacy-IsPrivate :
      IsPrivate (c.loads raw) (apply_differential_privacy f c raw epsilon)
  unfolding apply_differential_privacy scale_of
  apply_differential_privacy-IsPrivate = IsPrivate-model (c.loads raw)
