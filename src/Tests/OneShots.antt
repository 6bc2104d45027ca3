-- ===== src/Tests/OneShots.antt =====
-- coordinator/store.py: challenges, enrolment tokens and rounds on small tables.
use threat_hunting_platform.Prelude.{◌≡◌, ◌≢◌, refl, none, [], ◌∷◌, arith}
use threat_hunting_platform.Prelude.Table.{find, count}
use threat_hunting_platform.Store.Rows.{Store, empty, RoundParams}
use threat_hunting_platform.Store.Challenges.{
  issue_challenge, consume_challenge, other_round, already_consumed,
}
use threat_hunting_platform.Store.Challenges.OneShot
use threat_hunting_platform.Store.Challenges.Refines
use threat_hunting_platform.Store.Challenges.Refines.{denied, used, raised}
use threat_hunting_platform.Store.Tokens.{create_enroll_token, consume_enroll_token}
use threat_hunting_platform.Store.Tokens.SingleUse
use threat_hunting_platform.Store.Rounds.{start_round}
use threat_hunting_platform.Store.Rounds.Lifecycle.{IsNumbered, start_round-IsNumbered}

-- two challenges of one organisation, for rounds 1 and 2
abbrev issued : Store
issued =
    OneShot.run empty
      (OneShot.issue "acme" 1 "nonce_a" 600 1000 ∷ OneShot.issue "acme" 2 "nonce_b" 600 2000 ∷ [])

no_challenges : OneShot.IsKeyed empty
unfolding count
no_challenges ch = omega arith

issued-IsKeyed : OneShot.IsKeyed issued
issued-IsKeyed = OneShot.run-IsKeyed empty _ no_challenges

taken : (consume_challenge "nonce_a" "acme" 1 5000 issued).0 ≡ none
unfolding consume_challenge issue_challenge OneShot.run OneShot.step find
taken = refl

-- A second use fails, with another challenge used between.
consume_challenge_once_example :
    (consume_challenge "nonce_a" "acme" 1 7000 (
      OneShot.run
        (consume_challenge "nonce_a" "acme" 1 5000 issued).1
        (OneShot.consume "nonce_b" "acme" 2 6000 ∷ []))).0
    ≢ none
consume_challenge_once_example =
    OneShot.consume_challenge_once "nonce_a" "acme" "acme" 1 5000 1 7000 issued
      (OneShot.consume "nonce_b" "acme" 2 6000 ∷ []) issued-IsKeyed taken

-- Used in the wrong round, used, used again, and issued again.
answers-book_answers_example :
    Refines.answers issued (
      OneShot.consume "nonce_a" "acme" 2 4000
      ∷ OneShot.consume "nonce_a" "acme" 1 5000
      ∷ OneShot.consume "nonce_a" "acme" 1 6000
      ∷ OneShot.issue "acme" 2 "nonce_b" 600 7000
      ∷ [])
    ≡ denied other_round ∷ used ∷ denied already_consumed ∷ raised ∷ []
unfolding Refines.book_answers Refines.book_step OneShot.run OneShot.step issue_challenge find
answers-book_answers_example =
    Refines.answers-book_answers issued
      (OneShot.consume "nonce_a" "acme" 2 4000
        ∷ OneShot.consume "nonce_a" "acme" 1 5000
        ∷ OneShot.consume "nonce_a" "acme" 1 6000
        ∷ OneShot.issue "acme" 2 "nonce_b" 600 7000
        ∷ [])
      issued-IsKeyed

-- two tokens of two organisations
abbrev created : Store
created = SingleUse.run empty (
    SingleUse.issue "jti_a" "acme" "Acme" 9000 1000
    ∷ SingleUse.issue "jti_b" "bolt" "Bolt" 9000 2000
    ∷ [])

no_tokens : SingleUse.IsKeyed empty
unfolding count
no_tokens jti = omega arith

created-IsKeyed : SingleUse.IsKeyed created
created-IsKeyed = SingleUse.run-IsKeyed empty _ no_tokens

redeemed : (consume_enroll_token "jti_a" "acme" 5000 created).0 ≡ none
unfolding consume_enroll_token create_enroll_token SingleUse.run SingleUse.step find
redeemed = refl

-- A second use fails.
consume_enroll_token_once_example :
    (consume_enroll_token "jti_a" "acme" 7000 (
      SingleUse.run
        (consume_enroll_token "jti_a" "acme" 5000 created).1
        (SingleUse.consume "jti_b" "bolt" 6000 ∷ []))).0
    ≢ none
consume_enroll_token_once_example =
    SingleUse.consume_enroll_token_once "jti_a" "acme" "acme" 5000 7000 created
      (SingleUse.consume "jti_b" "bolt" 6000 ∷ []) created-IsKeyed redeemed

abbrev params : RoundParams
params = record {
  epsilon = 1000;
  num_boost_rounds = 10;
  min_clients = 2;
  target_org_ids = none;
  observation_hours = 48000;
}

-- the store with round 1
abbrev opened : Store
opened = (start_round "root" params 2 1000 empty).1

opened-IsNumbered : IsNumbered opened
opened-IsNumbered = start_round-IsNumbered "root" params 2 1000 empty tt
