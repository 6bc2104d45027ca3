-- ===== src/Trust.antt =====
-- coordinator/trust.py: the trust manager. Scores and thresholds are in hundredths, accuracies are
-- exact quotients; the rounding of floating-point numbers is not modelled.
pub mod Outcome
pub mod Exclusion
use threat_hunting_platform.Prelude.{
  ℕ, ◌+◌, ◌-◌, ◌*◌, min, max, String, Bytes, Bool, true, false, not, Option, none, some, List, [],
  ◌∷◌, ltb, leb, if◌then◌else◌,
}
use threat_hunting_platform.Prelude.Int.{ℤ, pos_part}
use threat_hunting_platform.Store.Rows.{
  Org, Fraction, Store, Reason, accepted_reason, trust_below_minimum, invalid_structure,
  evaluation_failed, below_accuracy, accuracy_drop,
}
use threat_hunting_platform.Store.Orgs.{
  get_org, update_org_trust, get_org_last_accuracy, set_org_last_accuracy,
}

-- The settings of a `TrustManager`. `validation_data` has the labels of the validation set.
pub record TrustManager : Type 0 where
  pub validation_data : Option (List Bool)
  pub min_accuracy : ℕ
  pub max_accuracy_drop : ℕ
  pub min_trust : ℕ
  pub max_num_examples : ℕ

-- the defaults of `__init__`
abbrev pub default_manager : Option (List Bool) → TrustManager
default_manager validation_data = record {
  validation_data = validation_data;
  min_accuracy = 50;
  max_accuracy_drop = 15;
  min_trust = 30;
  max_num_examples = 1000000;
}

-- What the code takes from xgboost: whether a model loads, and its predictions on the validation
-- set in thousandths, where a prediction may raise.
pub record Xgboost : Type 0 where
  pub load_model : Bytes → Bool
  pub predict : Bytes → Option (List ℕ)

pub record Evaluation : Type 0 where
  pub accepted : Bool
  pub trust : ℕ
  pub weight : ℕ
  pub accuracy : Option Fraction
  pub reason : Reason

pub data Delta : Type 0 where
  up down : ℕ → Delta

-- `float(org.get("trust_score", 1.0))`
abbrev pub score_of : Option Org → ℕ
score_of none = 100
score_of (some o) = o.trust_score

-- `max(0.0, min(1.0, cur + delta))`
abbrev pub shift : Delta → ℕ → ℕ
shift (up d) cur = min 100 (cur + d)
shift (down d) cur = min 100 (cur - d)

unfoldable pub bump : String → Delta → ℕ → Store → ℕ × Store
bump org_id delta now s =
    let new = shift delta (score_of (get_org org_id s)) in (new, update_org_trust org_id new now s)

-- `(preds > 0.5).astype(int) == labels`, counted
abbrev same : Bool → Bool → Bool
same true b = b
same false b = not b

unfoldable pub agreements : List ℕ → List Bool → ℕ
agreements [] labels = 0
agreements (p ∷ preds) [] = 0
agreements (p ∷ preds) (b ∷ labels) =
    (if same (ltb 500 p) b then 1 else 0) + agreements preds labels

abbrev labels_count : List Bool → ℕ
labels_count [] = 0
labels_count (b ∷ labels) = labels_count labels + 1

abbrev pub mean_agreement : List ℕ → List Bool → Fraction
mean_agreement preds labels = record {
  correct = agreements preds labels;
  total = labels_count labels;
}

-- `accuracy < min_accuracy`
abbrev pub is_below : Fraction → ℕ → Bool
is_below a least = ltb (a.correct * 100) (least * a.total)

-- `(prev - accuracy) > max_accuracy_drop`
abbrev pub has_dropped : Fraction → Fraction → ℕ → Bool
has_dropped prev a most =
    ltb (a.correct * prev.total * 100 + most * (prev.total * a.total))
      (prev.correct * a.total * 100)

-- `prev is not None and ...`
abbrev pub is_suspicious : Option Fraction → Fraction → ℕ → Bool
is_suspicious none a most = false
is_suspicious (some prev) a most = has_dropped prev a most

unfoldable pub reject : String → ℕ → Option Fraction → Reason → ℕ → Store → Evaluation × Store
unfolding bump
reject org_id penalty accuracy reason now s =
    let (new, s') = bump org_id (down penalty) now s in
    (record { accepted = false; trust = new; weight = 0; accuracy = accuracy; reason = reason }, s')

module _ (tm : TrustManager) where
  -- `min(max(int(num_examples), 1), max_num_examples)`
  abbrev pub capped : ℤ → ℕ
  capped num_examples = min (max (pos_part num_examples) 1) tm.max_num_examples

  unfoldable pub accept : String → Option Fraction → ℤ → ℕ → Store → Evaluation × Store
  unfolding bump
  accept org_id accuracy num_examples now s =
      let (new, s') = bump org_id (up 2) now s in
      (
        record {
          accepted = true;
          trust = new;
          weight = new * capped num_examples;
          accuracy = accuracy;
          reason = accepted_reason;
        },
        s',
      )

  -- the gates on the accuracy
  unfoldable pub score : String → Fraction → ℤ → ℕ → Store → Evaluation × Store
  score org_id accuracy num_examples now s =
      if is_below accuracy tm.min_accuracy
      then reject org_id 15 (some accuracy) below_accuracy now s
      else if is_suspicious (get_org_last_accuracy org_id s) accuracy tm.max_accuracy_drop
      then reject org_id 20 (some accuracy) accuracy_drop now s
      else accept org_id (some accuracy) num_examples now (set_org_last_accuracy org_id accuracy s)

  unfoldable pub validate :
      Option (List Bool) → Option (List ℕ) → String → ℤ → ℕ → Store → Evaluation × Store
  validate none preds org_id num_examples now s = accept org_id none num_examples now s
  validate (some labels) none org_id num_examples now s =
      reject org_id 10 none evaluation_failed now s
  validate (some labels) (some preds) org_id num_examples now s =
      score org_id (mean_agreement preds labels) num_examples now s

  unfoldable pub evaluate : Xgboost → String → Bytes → ℤ → ℕ → Store → Evaluation × Store
  evaluate xgb org_id model_bytes num_examples now s =
      let trust = score_of (get_org org_id s) in
      if ltb trust tm.min_trust
      then ((
        record {
          accepted = false;
          trust = trust;
          weight = 0;
          accuracy = none;
          reason = trust_below_minimum;
        },
        s,
      ))
      else if not (xgb.load_model model_bytes)
      then reject org_id 20 none invalid_structure now s
      else validate tm.validation_data (xgb.predict model_bytes) org_id num_examples now s
