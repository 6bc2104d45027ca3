-- ===== src/Tests/Requests/Intake.antt =====
-- coordinator/api.py: contributions to the round.
use threat_hunting_platform.Store.Orgs.{get_org_public_key}
use threat_hunting_platform.Prelude.{ℕ, ◌≡◌, refl}
use threat_hunting_platform.Store.Contributions.{record_contribution, has_accepted_contribution}
use threat_hunting_platform.Store.Challenges.{consume_challenge}
use threat_hunting_platform.Attestation.{get, Dict}
use threat_hunting_platform.Api.Contribute.{
  has_fields, Upload, Receipt, open_contribution, finish_contribution, submit_contribution,
}
use threat_hunting_platform.Prelude.Table.{find, update}
use threat_hunting_platform.Store.Rounds.{get_round}
use threat_hunting_platform.Store.Contributions.Accepted.{accepted_count}
use threat_hunting_platform.Api.{ok}
use threat_hunting_platform.Api.Contribute.Checks.{Accepts}
use threat_hunting_platform.Api.Contribute.Once.{
  Opens, submit_contribution-Accepts, contributions_interleaved,
}
use threat_hunting_platform.Tests.Requests.{message, env, store, world}

abbrev upload : Upload
upload = record {
  round_id = 1;
  org_id = "acme";
  attestation = "att_a";
  signature = "signed";
  model = "model";
}

abbrev receipt : ℕ → Receipt
receipt cid = record {
  contribution_id = cid;
  round_id = 1;
  org_id = "acme";
  model_sha256 = "model";
}

opened_a : open_contribution env upload store ≡ ok (message "nonce_a")
unfolding open_contribution has_fields get get_round find has_accepted_contribution
opened_a = refl

finished_a : (finish_contribution env upload (message "nonce_a") 61000 world).0 ≡ ok (receipt 1)
unfolding finish_contribution get consume_challenge find get_org_public_key record_contribution
finished_a = refl

submitted : (submit_contribution env upload 61000 world).0 ≡ ok (receipt 1)
unfolding submit_contribution has_fields get get_round find has_accepted_contribution
    consume_challenge get_org_public_key record_contribution
submitted = refl

submit_contribution-Accepts_example :
    let w' = (submit_contribution env upload 61000 world).1 in
    (att : Dict) × Opens env upload world.store att
    × Accepts env upload att 61000 world w'
    × (accepted_count 1 "acme" w'.store ≡ 1)
submit_contribution-Accepts_example =
    submit_contribution-Accepts env upload 61000 world (receipt 1) submitted

abbrev second : Upload
second = record upload { attestation = "att_b" }

opened_b : open_contribution env second store ≡ ok (message "nonce_b")
unfolding open_contribution has_fields get get_round find has_accepted_contribution
opened_b = refl

finished_b :
    (finish_contribution env second
      (message "nonce_b")
      62000
      (finish_contribution env upload (message "nonce_a") 61000 world).1).0
    ≡ ok (receipt 2)
unfolding finish_contribution get consume_challenge find get_org_public_key record_contribution
    update
finished_b = refl

-- Two uploads with two challenges, both begun before either is finished.
contributions_interleaved_example :
    accepted_count 1 "acme"
      (finish_contribution env second
        (message "nonce_b")
        62000
        (finish_contribution env upload (message "nonce_a") 61000 world).1).1.store
    ≡ 2
contributions_interleaved_example =
    contributions_interleaved env upload "att_b" "model" "signed" (message "nonce_a")
      (message "nonce_b") 61000 62000 world (receipt 1) (receipt 2) opened_a opened_b finished_a
      finished_b
