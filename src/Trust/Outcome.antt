-- ===== src/Trust/Outcome.antt =====
-- coordinator/trust.py: what one evaluation returns and what it does to the scores.
use threat_hunting_platform.Prelude.{
  min, ℕ, ◌+◌, ◌-◌, ◌*◌, ◌≤◌, ◌≡◌, refl, String, Bytes, Bool, true, false, not, ◌&&◌, Option, none,
  some, List, arith, leb, if◌then◌else◌, ◌==◌, string_Eq,
}
use threat_hunting_platform.Prelude.Int.{ℤ}
use threat_hunting_platform.Prelude.Table.{touch}
use threat_hunting_platform.Store.Rows.{
  Org, Reason, Fraction, Store, invalid_structure, evaluation_failed, below_accuracy, accuracy_drop,
}
use threat_hunting_platform.Store.Orgs.{
  has_id, get_org, update_org_trust, get_org_last_accuracy, set_org_last_accuracy,
}
use threat_hunting_platform.Store.Orgs.Trust.{
  get_org-update_org, get_org-update_org_ne, get_org-has_id,
}
use threat_hunting_platform.Trust.{
  TrustManager, Xgboost, Evaluation, score_of, capped, reject, accept, score, validate, evaluate,
  is_below, is_suspicious, mean_agreement,
}

module _ (tm : TrustManager) (xgb : Xgboost) (i : String) (bytes : Bytes) (n : ℤ) (now : ℕ) where
  -- An independent description of the gates.
  abbrev passes_validation : Option (List Bool) → Option (List ℕ) → Option Fraction → Bool
  passes_validation none preds prev = true
  passes_validation (some labels) none prev = false
  passes_validation (some labels) (some preds) prev =
      not (is_below (mean_agreement preds labels) tm.min_accuracy)
      && not (is_suspicious prev (mean_agreement preds labels) tm.max_accuracy_drop)

  abbrev passes : Store → Bool
  passes s =
      leb tm.min_trust (score_of (get_org i s))
      && xgb.load_model bytes
      && passes_validation tm.validation_data (xgb.predict bytes) (get_org_last_accuracy i s)

  -- A contribution is accepted exactly when it passes every gate, and only then has a weight: the
  -- new score times the number of examples, at least 1 and at most the cap.
  pub evaluate-accepted :
      (s : Store)
      → let e = (evaluate tm xgb i bytes n now s).0 in
        (e.accepted ≡ passes s) × (e.weight ≡ (if passes s then e.trust * capped tm n else 0))
  unfolding evaluate validate score reject accept
  evaluate-accepted s = ground arith

  pub update_i :
      (j : String) (t : ℕ) (s : Store)
      → get_org j (update_org_trust i t now s)
        ≡ touch
            (has_id i)
            (λ o. record o { trust_score = min 100 t; last_seen_at = some now })
            (get_org j s)
  unfolding update_org_trust
  update_i j t s = get_org-update_org i j _ s (λ o. refl)

  accuracy_i :
      (j : String) (a : Fraction) (s : Store)
      → get_org j (set_org_last_accuracy i a s)
        ≡ touch (has_id i) (λ o. record o { last_accuracy = some a }) (get_org j s)
  unfolding set_org_last_accuracy
  accuracy_i j a s = get_org-update_org i j _ s (λ o. refl)

  -- What `evaluate` leaves in the row of `j`.
  abbrev KeepsOther : String → Store → Evaluation × Store → Type 0
  KeepsOther j s (e, s') = get_org j s' ≡ get_org j s

  abbrev Records : Org → Evaluation × Store → Type 0
  Records o (e, s') =
      (score_of (get_org i s') ≡ e.trust) × (e.trust ≤ 100) × (e.trust ≤ o.trust_score + 2)

  reject-Records :
      (d : ℕ) (a : Option Fraction) (r : Reason) (s : Store) (o : Org)
      → get_org i s ≡ some o
      → Records o (reject i d a r now s)
  unfolding reject
  reject-Records d a r s o e =
      ground (arith, update_i i (min 100 (score_of (get_org i s) - d)) s, get_org-has_id i s o e)

  accept-Records :
      (a : Option Fraction) (s : Store) (o : Org)
      → get_org i s ≡ some o
      → Records o (accept tm i a n now s)
  unfolding accept
  accept-Records a s o e =
      ground (arith, update_i i (min 100 (score_of (get_org i s) + 2)) s, get_org-has_id i s o e)

  score-Records :
      (a : Fraction) (s : Store) (o : Org) → get_org i s ≡ some o → Records o (score tm i a n now s)
  unfolding score
  score-Records a s o e = ground (
    arith,
    reject-Records 15 (some a) below_accuracy s o e,
    reject-Records 20 (some a) accuracy_drop s o e,
    accept-Records (some a) (set_org_last_accuracy i a s) (record o { last_accuracy = some a })
        (ground (arith, accuracy_i i a s, get_org-has_id i s o e)),
  )

  validate-Records :
      (labels : Option (List Bool)) (preds : Option (List ℕ)) (s : Store) (o : Org)
      → get_org i s ≡ some o
      → Records o (validate tm labels preds i n now s)
  unfolding validate
  validate-Records none preds s o e = accept-Records none s o e
  validate-Records (some labels) none s o e = reject-Records 10 none evaluation_failed s o e
  validate-Records (some labels) (some preds) s o e =
      score-Records (mean_agreement preds labels) s o e

  -- For an organisation that is enrolled with a score of at most 1, an evaluation returns the score
  -- that is then stored; it is at most 1, and at most 0.02 above the old one.
  pub evaluate-Records :
      (s : Store) (o : Org)
      → get_org i s ≡ some o
      → o.trust_score ≤ 100
      → let (e, s') = evaluate tm xgb i bytes n now s in
        (score_of (get_org i s') ≡ e.trust) × (e.trust ≤ 100) × (e.trust ≤ o.trust_score + 2)
  unfolding evaluate
  evaluate-Records s o e h = ground (
    arith,
    reject-Records 20 none invalid_structure s o,
    validate-Records tm.validation_data (xgb.predict bytes) s o,
  )

  module _ (j : String) (ne : (i == j) ≡ false) where
    bump_others : (t : ℕ) (s : Store) → get_org j (update_org_trust i t now s) ≡ get_org j s
    unfolding update_org_trust
    bump_others t s = get_org-update_org_ne i j _ s (λ o. refl) ne

    accuracy_others :
        (a : Fraction) (s : Store) → get_org j (set_org_last_accuracy i a s) ≡ get_org j s
    unfolding set_org_last_accuracy
    accuracy_others a s = get_org-update_org_ne i j _ s (λ o. refl) ne

    -- An evaluation changes no organisation `j` but the one that is evaluated.
    pub evaluate-others : (s : Store) → get_org j (evaluate tm xgb i bytes n now s).1 ≡ get_org j s
    unfolding evaluate validate score reject accept
    evaluate-others s = grind (arith, bump_others, accuracy_others)
