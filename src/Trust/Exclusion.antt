-- ===== src/Trust/Exclusion.antt =====
-- coordinator/trust.py over many evaluations: how an organisation comes to be excluded, and that it
-- stays so.
use threat_hunting_platform.Prelude.{
  ℕ, ◌+◌, ◌-◌, ◌*◌, ◌<◌, ◌≡◌, refl, String, Bytes, Bool, true, false, All, ◌&&◌, List, [], ◌∷◌, min,
  arith, ltb, ◌==◌, string_Eq, eq_iff, Bool-cases, Option-cases, is_some, if◌then◌else◌, inl, inr,
  ◌∙◌,
}
use threat_hunting_platform.Prelude.Table.{count}
use threat_hunting_platform.Prelude.Int.{ℤ}
use threat_hunting_platform.Store.Rows.{Store}
use threat_hunting_platform.Store.Orgs.{get_org}
use threat_hunting_platform.Store.Orgs.Trust.{get_org-has_id}
use threat_hunting_platform.Trust.{TrustManager, Xgboost, score_of, reject, evaluate}
use threat_hunting_platform.Trust.Outcome.{evaluate-others, update_i}

pub record Attempt : Type 0 where
  pub org_id : String
  pub model_bytes : Bytes
  pub num_examples : ℤ
  pub at : ℕ

module _ (tm : TrustManager) (xgb : Xgboost) where
  abbrev attempt : Attempt → Store → Store
  attempt a s = (evaluate tm xgb a.org_id a.model_bytes a.num_examples a.at s).1

  -- contributions of any organisations, one after the other
  unfoldable pub evaluate_all : List Attempt → Store → Store
  evaluate_all [] s = s
  evaluate_all (a ∷ rest) s = evaluate_all rest (attempt a s)

  module _ (i : String) where
    attempt_excluded :
        (a : Attempt) (s : Store)
        → score_of (get_org i s) < tm.min_trust
        → get_org i (attempt a s) ≡ get_org i s
    unfolding evaluate
    attempt_excluded a s low = elim (Bool-cases (a.org_id == i)) [
      | inl own ↦ ground (arith, eq_iff a.org_id i)
      | inr other ↦ evaluate-others tm xgb a.org_id a.model_bytes a.num_examples a.at i other s
    ]

    -- Below the minimum an organisation's row never changes again, whatever it and the others
    -- contribute: each of its contributions is refused without a chance to recover trust.
    pub evaluate_all_excluded :
        (attempts : List Attempt) (s : Store)
        → score_of (get_org i s) < tm.min_trust
        → get_org i (evaluate_all attempts s) ≡ get_org i s
    unfolding evaluate_all
    evaluate_all_excluded [] s low = refl
    evaluate_all_excluded (a ∷ rest) s low =
        let same = attempt_excluded a s low in
        evaluate_all_excluded rest (attempt a s) (rw same low) ∙ same

    abbrev pub own : Attempt → Bool
    own a = a.org_id == i

    -- what the organisation itself contributes does not load
    abbrev pub IsBroken : Attempt → Type 0
    IsBroken a = own a && xgb.load_model a.model_bytes ≡ false

    own_attempt :
        (a : Attempt) (s : Store)
        → own a ≡ true
        → xgb.load_model a.model_bytes ≡ false
        → is_some (get_org i s) ≡ true
        → let t = score_of (get_org i s) in
          let s' = attempt a s in
          (is_some (get_org i s') ≡ true)
          × (score_of (get_org i s') ≡ (if ltb t tm.min_trust then t else min 100 (t - 20)))
    unfolding evaluate reject
    own_attempt a s mine unloadable e =
        let same : a.org_id ≡ i = (eq_iff a.org_id i).0 mine in
        let row =
          update_i tm xgb i a.model_bytes a.num_examples a.at i
            (min 100 (score_of (get_org i s) - 20)) s in
        rw same (elim (Option-cases (get_org i s)) [
          | inl missing ↦ ground (arith, missing)
          | inr (o, found) ↦ ground (arith, found, row, get_org-has_id i s o found, unloadable)
        ])

    -- Among any contributions of any organisations, each with its own model and time, those of one
    -- enrolled organisation, none of which loads, exclude it: they take its score below the minimum,
    -- which is not 0, when it is less than 0.2 times their number above it.
    pub evaluate_all_excludes :
        (attempts : List Attempt) (s : Store)
        → 0 < tm.min_trust
        → is_some (get_org i s) ≡ true
        → All IsBroken attempts
        → score_of (get_org i s) < tm.min_trust + 20 * count own attempts
        → score_of (get_org i (evaluate_all attempts s)) < tm.min_trust
    unfolding evaluate_all count
    evaluate_all_excludes [] s pos e broken low = ground (arith, low)
    evaluate_all_excludes (a ∷ rest) s pos e broken low = elim (Bool-cases (own a)) [
      | inl mine ↦
          let (there, lower) = own_attempt a s mine (ground (arith, mine, broken.0)) e in
          evaluate_all_excludes rest (attempt a s) pos there broken.1
            (ground (arith, lower, mine, low))
      | inr other ↦
          let same = evaluate-others tm xgb a.org_id a.model_bytes a.num_examples a.at i other s in
          evaluate_all_excludes rest (attempt a s) pos (rw same e) broken.1
            (ground (arith, same, other, low))
    ]
