-- ===== src/Tests/Scores.antt =====
-- coordinator/trust.py: evaluations in a store with two organisations.
use threat_hunting_platform.Prelude.Table.{find, count}
use threat_hunting_platform.Trust.{
  score, validate, agreements, TrustManager, Xgboost, default_manager, evaluate, score_of,
}
use threat_hunting_platform.Store.Orgs.{get_org_last_accuracy, get_org}
use threat_hunting_platform.Prelude.{
  ℕ, ◌≡◌, ◌≤◌, ◌<◌, ◌+◌, ◌*◌, refl, String, none, some, List, [], ◌∷◌, true, false, arith, ◌==◌,
  string_Eq, is_some, if◌then◌else◌,
}
use threat_hunting_platform.Prelude.Int.{pos}
use threat_hunting_platform.Store.Rows.{Store, Org, empty, active}
use threat_hunting_platform.Trust.Outcome.{evaluate-accepted, evaluate-Records}
use threat_hunting_platform.Trust.Exclusion.{Attempt, evaluate_all, evaluate_all_excludes}

abbrev enrolled : String → ℕ → Org
enrolled org_id trust_score = record {
  org_id = org_id;
  display_name = org_id;
  api_key_hash = "";
  public_key_pem = none;
  cert_pem = none;
  cert_serial = none;
  enrolled_at = 0;
  enrolled_by = "root";
  status = active;
  trust_score = trust_score;
  last_seen_at = none;
  last_accuracy = none;
  notes = none;
  leave_requested_at = none;
  leave_attestation = none;
  leave_signature = none;
  removal_attestation = none;
  removal_signature = none;
}

abbrev two : Store
two = record empty { orgs = enrolled "acme" 90 ∷ enrolled "bolt" 20 ∷ [] }

-- Three rows of validation data; only "broken" does not load, and "good" is right on two rows.
abbrev manager : TrustManager
manager = default_manager (some (true ∷ false ∷ true ∷ []))

abbrev xgb : Xgboost
xgb = record {
  load_model = λ b. if b == "broken" then false else true;
  predict = λ b. if b == "good" then some (900 ∷ 800 ∷ 700 ∷ []) else none;
}

-- A good model is accepted, with 92 points times 10 examples.
evaluate-accepted_example :
    let e = (evaluate manager xgb "acme" "good" (pos 10) 5000 two).0 in
    (e.accepted ≡ true) × (e.weight ≡ e.trust * 10)
unfolding get_org evaluate find agreements validate get_org_last_accuracy score
evaluate-accepted_example = evaluate-accepted manager xgb "acme" "good" (pos 10) 5000 two

acme_there : get_org "acme" two ≡ some (enrolled "acme" 90)
unfolding get_org find
acme_there = refl

evaluate-Records_example :
    let (e, s') = evaluate manager xgb "acme" "good" (pos 10) 5000 two in
    (score_of (get_org "acme" s') ≡ e.trust) × (e.trust ≤ 100) × (e.trust ≤ 90 + 2)
evaluate-Records_example =
    evaluate-Records manager xgb "acme" "good" (pos 10) 5000 two (enrolled "acme" 90) acme_there
      (omega arith)

acme_some : is_some (get_org "acme" two) ≡ true
unfolding get_org find
acme_some = refl

acme_within : score_of (get_org "acme" two) < manager.min_trust + 20 * 4
unfolding get_org find
acme_within = omega arith

abbrev contribution : String → String → ℕ → Attempt
contribution org_id model_bytes at = record {
  org_id = org_id;
  model_bytes = model_bytes;
  num_examples = pos 10;
  at = at;
}

-- over several rounds, with one of another organisation between
abbrev several : List Attempt
several =
    contribution "acme" "broken" 5000
    ∷ contribution "acme" "broken" 6000
    ∷ contribution "bolt" "good" 6000
    ∷ contribution "acme" "broken" 7000
    ∷ contribution "acme" "broken" 8000
    ∷ []

-- Four broken models take 90 points below 30.
evaluate_all_excludes_example :
    score_of (get_org "acme" (evaluate_all manager xgb several two)) < 30
unfolding count get_org find
evaluate_all_excludes_example =
    evaluate_all_excludes manager xgb "acme" several two (omega arith) acme_some
      (refl, (refl, (refl, (refl, (refl, tt))))) acme_within
