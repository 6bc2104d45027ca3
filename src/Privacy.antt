-- ===== src/Privacy.antt =====
-- client_ref/privacy.py: the noise on a model before it leaves the organisation. Floats and their
-- sums are the parameter `Floats`, with the draws of `numpy.random.laplace` as a sequence; a model
-- is the part of its document that the code reads. A document whose parts have other types than
-- XGBoost gives them is not modelled.
pub mod Noise
use threat_hunting_platform.Prelude.{
  ℕ, zero, suc, Bytes, String, Bool, true, false, Option, none, some, List, [], ◌∷◌, if◌then◌else◌,
}
use threat_hunting_platform.Prelude.Int.{ℤ, pos, negsuc}

-- `laplace scale k` is the k-th draw with that scale, `literal` the number that a text of the source
-- denotes.
pub record Floats (Float : Type 0) : Type 0 where
  pub add : Float → Float → Float
  pub laplace : Float → ℕ → Float
  pub div : Float → Float → Float
  pub less : Float → Float → Bool
  pub literal : String → Float

pub record Tree (Float : Type 0) : Type 0 where
  pub split_conditions : Option (List Float)
  pub left_children : Option (List ℤ)
  pub rest : String

-- `trees` is empty where the document has no `learner` or no trees in it.
pub record Model (Float : Type 0) : Type 0 where
  pub trees : List (Tree Float)
  pub rest : String

-- `loads` is `none` where `json.loads` raises one of the two errors that are caught.
pub record Codec (Float : Type 0) : Type 0 where
  pub loads : Bytes → Option (Model Float)
  pub dumps : Model Float → Bytes

-- `left_children[i] == -1`
abbrev pub is_leaf : ℤ → Bool
is_leaf (pos n) = false
is_leaf (negsuc zero) = true
is_leaf (negsuc (suc n)) = false

abbrev pub list_or_empty : Option (List ℤ) → List ℤ
list_or_empty none = []
list_or_empty (some ls) = ls

module _ {Float : Type 0} (f : Floats Float) (scale : Float) where
  abbrev put_first : Float → List Float × ℕ → List Float × ℕ
  put_first c (cs, k) = (c ∷ cs, k)

  -- The values of one tree, when the next draw is the k-th, with the draw that is next then.
  unfoldable pub perturb_conditions : ℕ → List Float → List ℤ → List Float × ℕ
  perturb_conditions k [] ls = ([], k)
  perturb_conditions k (c ∷ cs) [] = (c ∷ cs, k)
  perturb_conditions k (c ∷ cs) (l ∷ ls) =
      put_first (if is_leaf l then f.add c (f.laplace scale k) else c)
        (perturb_conditions (if is_leaf l then suc k else k) cs ls)

  abbrev with_conditions : Tree Float → List Float × ℕ → Tree Float × ℕ
  with_conditions t (cs, k) = (record t { split_conditions = some cs }, k)

  abbrev pub perturb_some : ℕ → Tree Float → Option (List Float) → Tree Float × ℕ
  perturb_some k t none = (t, k)
  perturb_some k t (some cs) =
      with_conditions t (perturb_conditions k cs (list_or_empty t.left_children))

  unfoldable pub perturb_tree : ℕ → Tree Float → Tree Float × ℕ
  unfolding perturb_conditions
  perturb_tree k t = perturb_some k t t.split_conditions

  unfoldable pub perturb_trees : ℕ → List (Tree Float) → List (Tree Float)
  unfolding perturb_tree
  perturb_trees k [] = []
  perturb_trees k (t ∷ ts) = let (t', k') = perturb_tree k t in t' ∷ perturb_trees k' ts

module _ {Float : Type 0} (f : Floats Float) where
  -- `max(epsilon, 0.01)`
  abbrev pub at_least : Float → Float → Float
  at_least epsilon least = if f.less epsilon least then least else epsilon

  -- `sensitivity / max(epsilon, 0.01)`
  unfoldable pub scale_of : Float → Float
  scale_of epsilon = f.div (f.literal "0.1") (at_least epsilon (f.literal "0.01"))

module _ {Float : Type 0} (f : Floats Float) (c : Codec Float) where
  abbrev pub dump_noisy : Bytes → Float → Option (Model Float) → Bytes
  dump_noisy model_raw_bytes epsilon none = model_raw_bytes
  dump_noisy model_raw_bytes epsilon (some m) =
      c.dumps (record m { trees = perturb_trees f (scale_of f epsilon) 0 m.trees })

  unfoldable pub apply_differential_privacy : Bytes → Float → Bytes
  unfolding perturb_trees scale_of
  apply_differential_privacy model_raw_bytes epsilon =
      dump_noisy model_raw_bytes epsilon (c.loads model_raw_bytes)
