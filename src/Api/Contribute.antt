-- ===== src/Api/Contribute.antt =====
-- coordinator/api.py: `submit_contribution`, in the two parts that `await model.read()` divides it
-- into: other requests may run between `open_contribution` and `finish_contribution`. SQLite's
-- bound on the size of an integer is not modelled.
pub mod Checks
pub mod Once
pub mod Completes
use threat_hunting_platform.Prelude.{
  ℕ, ◌+◌, ◌-◌, String, Bytes, Bool, true, false, not, Option, none, some, List, [], ◌∷◌, ltb,
  if◌then◌else◌, is_some, ◌==◌, nat_Eq,
}
use threat_hunting_platform.Prelude.Int.{ℤ, pos, negsuc}
use threat_hunting_platform.Store.Rows.{Store, Round, is_running}
use threat_hunting_platform.Store.Rounds.{get_round}
use threat_hunting_platform.Store.Orgs.{get_org_public_key}
use threat_hunting_platform.Store.Challenges.{Refusal, consume_challenge}
use threat_hunting_platform.Store.Contributions.{has_accepted_contribution, record_contribution}
use threat_hunting_platform.Attestation.{
  Value, text, int, number, texts, items, boolean, Dict, get, Loaded, invalid, other, object,
}
use threat_hunting_platform.Client.{is_text}
use threat_hunting_platform.Api.{Env, World, Reply, ok, fail, audit_log}

-- The request: its path, the organisation that is authenticated, and the form.
pub record Upload : Type 0 where
  pub round_id : ℕ
  pub org_id : String
  pub attestation : Bytes
  pub signature : String
  pub model : Bytes

pub record Receipt : Type 0 where
  pub contribution_id : ℕ
  pub round_id : ℕ
  pub org_id : String
  pub model_sha256 : String

abbrev pub required_fields : List String
required_fields =
    "type" ∷ "round_id" ∷ "org_id" ∷ "model_sha256" ∷ "num_examples" ∷ "challenge" ∷ "submitted_at"
    ∷ []

unfoldable pub has_fields : List String → Dict → Bool
has_fields [] att = true
has_fields (k ∷ ks) att = if is_some (get k att) then has_fields ks att else false

-- `int(...)`, where `none` is an exception
abbrev pub int_of : Env → Option Value → Option ℤ
int_of env none = none
int_of env (some (text t)) = env.parse_int t
int_of env (some (int z)) = some z
int_of env (some (number n)) = some (env.truncate n)
int_of env (some (boolean b)) = some (pos (if b then 1 else 0))
int_of env (some _) = none

abbrev pub same_int : ℤ → ℕ → Bool
same_int (pos m) n = m == n
same_int (negsuc m) n = false

-- The message of a mismatch slices the value, which raises unless it is a text or a list.
abbrev mismatch_status : Option Value → ℕ
mismatch_status (some (text t)) = 400
mismatch_status (some (texts ts)) = 400
mismatch_status (some (items ts)) = 400
mismatch_status _ = 500

abbrev pub sent_at : Env → Option Value → Option ℕ
sent_at env (some (text t)) = env.parse_time t
sent_at env _ = none

abbrev pub challenge_text : Env → Option Value → Option String
challenge_text env none = none
challenge_text env (some (text t)) = some t
challenge_text env (some v) = env.sqlite_text v

-- the distance of two times
abbrev pub drift : ℕ → ℕ → ℕ
drift now sent = (now - sent) + (sent - now)

module _ (env : Env) (u : Upload) where
  -- 3b
  unfoldable pub check_round : Option Round → Dict → Store → Reply Dict
  check_round none att s = fail 404
  check_round (some r) att s =
      if not (is_running r.status)
      then fail 409
      else if has_accepted_contribution u.round_id u.org_id s
      then fail 409
      else ok att

  -- 3
  unfoldable pub check_number : Option ℤ → Dict → Store → Reply Dict
  unfolding check_round
  check_number none att s = fail 500
  check_number (some n) att s =
      if same_int n u.round_id then check_round (get_round u.round_id s) att s else fail 403

  -- 1 and 2
  unfoldable pub check_loaded : Loaded → Store → Reply Dict
  unfolding check_number
  check_loaded invalid s = fail 400
  check_loaded other s = fail (env.other_status u.attestation)
  check_loaded (object att) s =
      if not (has_fields required_fields att)
      then fail 400
      else if not (is_text "fl.contribution.v1" (get "type" att))
      then fail 400
      else if not (is_text u.org_id (get "org_id" att))
      then fail 403
      else check_number (int_of env (get "round_id" att)) att s

  -- The part before the upload is read: the parsed attestation. It changes nothing.
  unfoldable pub open_contribution : Store → Reply Dict
  unfolding check_loaded
  open_contribution s = check_loaded (env.wire.loads u.attestation) s

  module _ (att : Dict) (now : ℕ) where
    abbrev actual_hash : String
    actual_hash = env.wire.sha256 u.model

    unfoldable pub record_rejected : String → Option ℤ → World → Reply Receipt × World
    unfolding audit_log
    record_rejected challenge none w = (fail 500, w)
    record_rejected challenge (some n) w = (
      fail 403,
      audit_log env "fl.contribution.signature_invalid" (env.show_org u.org_id)
          (env.show_round u.round_id) (("model_sha256", text (env.short actual_hash)) ∷ []) now
          (record w {
            store =
                (record_contribution u.round_id u.org_id actual_hash n u.attestation u.signature
                  challenge false none (some "signature verification failed") now w.store).1;
          }),
    )

    abbrev model_path : String
    model_path = env.path_of_contribution u.round_id u.org_id (env.short actual_hash)

    unfoldable pub record_accepted : String → Option ℤ → World → Reply Receipt × World
    unfolding audit_log
    record_accepted challenge none w =
        (fail 500, record w { files = (model_path, u.model) ∷ w.files })
    record_accepted challenge (some n) w =
        let (cid, s) =
          record_contribution u.round_id u.org_id actual_hash n u.attestation u.signature challenge
            true (some model_path) none now w.store in
        (
          ok (record {
            contribution_id = cid;
            round_id = u.round_id;
            org_id = u.org_id;
            model_sha256 = actual_hash;
          }),
          audit_log env "fl.contribution.accepted" (env.show_org u.org_id)
              (env.show_round u.round_id)
              (("contribution_id", int (pos cid))
                ∷ ("model_sha256", text (env.short actual_hash))
                ∷ ("num_examples", int n)
                ∷ [])
              now (record w { store = s; files = (model_path, u.model) ∷ w.files }),
        )

    -- 7
    unfoldable pub check_sig : String → String → Option Bytes → World → Reply Receipt × World
    unfolding record_rejected record_accepted
    check_sig challenge pub_key none w = (fail 400, w)
    check_sig challenge pub_key (some sig) w =
        let n = int_of env (get "num_examples" att) in
        if env.wire.verify pub_key u.attestation sig
        then record_accepted challenge n w
        else record_rejected challenge n w

    unfoldable pub check_loaded_key : String → Option String → World → Reply Receipt × World
    unfolding check_sig
    check_loaded_key challenge none w = (fail 500, w)
    check_loaded_key challenge (some pub_key) w =
        check_sig challenge pub_key (env.wire.unhex u.signature) w

    unfoldable pub check_registered : String → Option String → World → Reply Receipt × World
    unfolding check_loaded_key
    check_registered challenge none w = (fail 403, w)
    check_registered challenge (some pem) w =
        check_loaded_key challenge (env.wire.public_key_from_pem pem) w

    -- 6: what was consumed stays consumed, whatever fails later
    unfoldable pub after_challenge : String → Option Refusal × Store → World → Reply Receipt × World
    unfolding check_registered
    after_challenge challenge (some err, s) w = (fail 403, record w { store = s })
    after_challenge challenge (none, s) w =
        check_registered challenge (get_org_public_key u.org_id s) (record w { store = s })

    unfoldable pub check_challenge : Option String → World → Reply Receipt × World
    unfolding after_challenge
    check_challenge none w = (fail 500, w)
    check_challenge (some challenge) w =
        after_challenge challenge (consume_challenge challenge u.org_id u.round_id now w.store) w

    -- 5
    unfoldable pub check_time : Option ℕ → World → Reply Receipt × World
    unfolding check_challenge
    check_time none w = (fail 400, w)
    check_time (some sent) w =
        if ltb 300000 (drift now sent)
        then (fail 400, w)
        else check_challenge (challenge_text env (get "challenge" att)) w

    -- The part after the upload is read: 4, and the rest.
    unfoldable pub finish_contribution : World → Reply Receipt × World
    unfolding check_time
    finish_contribution w =
        if ltb env.max_model_bytes (env.size_of u.model)
        then (fail 413, w)
        else if not (is_text actual_hash (get "model_sha256" att))
        then (fail (mismatch_status (get "model_sha256" att)), w)
        else check_time (sent_at env (get "submitted_at" att)) w

  -- both parts, with no other request between them
  abbrev pub finish_opened : Reply Dict → ℕ → World → Reply Receipt × World
  finish_opened (fail c) now w = (fail c, w)
  finish_opened (ok att) now w = finish_contribution att now w

  unfoldable pub submit_contribution : ℕ → World → Reply Receipt × World
  unfolding open_contribution finish_contribution
  submit_contribution now w = finish_opened (open_contribution w.store) now w
