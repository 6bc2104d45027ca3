-- ===== src/Api/Rounds.antt =====
-- coordinator/api.py: the handlers that start a round and that organisations use to join it.
-- FastAPI has checked the ranges of the request's numbers.
pub mod Joining
use threat_hunting_platform.Prelude.{
  ℕ, ◌+◌, ◌*◌, String, Bytes, Bool, true, false, not, Option, none, some, List, [], ◌∷◌, map,
  length, ltb, if◌then◌else◌, is_some,
}
use threat_hunting_platform.Prelude.Int.{pos}
use threat_hunting_platform.Prelude.Table.{select}
use threat_hunting_platform.Store.Rows.{
  Store, Org, Round, RoundParams, running, is_active, is_running,
}
use threat_hunting_platform.Store.Orgs.{get_org, list_orgs}
use threat_hunting_platform.Store.Rounds.{
  start_round, set_round_announcement, get_round, list_rounds_by_status,
}
use threat_hunting_platform.Store.Challenges.{issue_challenge}
use threat_hunting_platform.Security.{contains}
use threat_hunting_platform.Attestation.{
  text, int, number, texts, boolean, build_round_announcement_attestation,
}
use threat_hunting_platform.Api.{Env, World, Reply, ok, fail, audit_log}

-- StartRoundRequest
pub record StartRoundRequest : Type 0 where
  pub epsilon : ℕ
  pub num_boost_rounds : ℕ
  pub min_clients : ℕ
  pub target_org_ids : Option (List String)
  pub observation_hours : Option ℕ

pub record Started : Type 0 where
  pub round_id : ℕ
  pub invited_orgs : List String
  pub intake_until : ℕ
  pub round_announcement : Option (Bytes × String)

pub record ActiveRound : Type 0 where
  pub round_id : ℕ
  pub started_at : ℕ
  pub intake_until : ℕ
  pub intake_open : Bool
  pub epsilon : ℕ
  pub num_boost_rounds : ℕ

-- no list, and an empty one, restrict nothing
abbrev pub is_invited : Option (List String) → String → Bool
is_invited none org_id = true
is_invited (some []) org_id = true
is_invited (some (x ∷ xs)) org_id = contains org_id (x ∷ xs)

-- the active organisations, of the targets if there are any
unfoldable pub invited_orgs : StartRoundRequest → Store → List String
invited_orgs b s =
    map (λ (o : Org). o.org_id)
      (select (λ o. is_invited b.target_org_ids o.org_id)
        (select (λ o. is_active o.status) (list_orgs s)))

module _ (env : Env) where
  abbrev pub params_of : StartRoundRequest → RoundParams
  params_of b = record {
    epsilon = b.epsilon;
    num_boost_rounds = b.num_boost_rounds;
    min_clients = b.min_clients;
    target_org_ids = b.target_org_ids;
    observation_hours = elim b.observation_hours [
      | none ↦ env.default_observation_hours
      | some h ↦ h
    ];
  }

  -- the announcement, when the coordinator has its key
  abbrev pub announce :
      Option String
      → StartRoundRequest
      → ℕ
      → List String
      → ℕ
      → Store
      → Option (Bytes × String) × Store
  announce none b round_id invited now s = (none, s)
  announce (some priv) b round_id invited now s =
      let ann =
        build_round_announcement_attestation env.wire round_id b.epsilon b.num_boost_rounds invited
          now in
      let sig_hex = env.wire.hex (env.wire.sign priv ann) in
      (some (ann, sig_hex), set_round_announcement round_id ann sig_hex s)

  -- `start_round`
  unfoldable pub open_round : StartRoundRequest → String → ℕ → World → Reply Started × World
  unfolding audit_log
  open_round b username now w =
      let invited = invited_orgs b w.store in
      if ltb (length invited) b.min_clients
      then (fail 422, w)
      else (let params = params_of b in
          let (round_id, s) = start_round username params (length invited) now w.store in
          let (announcement, s') = announce env.coord_priv b round_id invited now s in
          (
            ok (record {
              round_id = round_id;
              invited_orgs = invited;
              intake_until = now + params.observation_hours * 3600;
              round_announcement = announcement;
            }),
            audit_log env "fl.round.start" username (env.show_round round_id)
                (("epsilon", number b.epsilon)
                  ∷ ("num_boost_rounds", int (pos b.num_boost_rounds))
                  ∷ ("invited_orgs", texts invited)
                  ∷ ("announced", boolean (is_some announcement))
                  ∷ [])
                now (record w { store = s' }),
          ))

  abbrev active_round : ℕ → Round → ActiveRound
  active_round now r =
      let intake_until = r.started_at + r.params.observation_hours * 3600 in
      record {
        round_id = r.round_id;
        started_at = r.started_at;
        intake_until = intake_until;
        intake_open = ltb now intake_until;
        epsilon = r.params.epsilon;
        num_boost_rounds = r.params.num_boost_rounds;
      }

  unfoldable pub list_active_rounds_for_org : String → ℕ → World → List ActiveRound
  list_active_rounds_for_org org_id now w = map (active_round now) (
      select (λ r. is_invited r.params.target_org_ids org_id)
        (list_rounds_by_status running w.store))

  -- `challenge` is what `generate_challenge` returns; a challenge that was issued before raises
  abbrev issued : Option Store → String → ℕ → World → Reply (String × ℕ) × World
  issued none challenge now w = (fail 500, w)
  issued (some s) challenge now w = (ok (challenge, now + 600 * 1000), record w { store = s })

  abbrev issue_for : Option Org → ℕ → String → String → ℕ → World → Reply (String × ℕ) × World
  issue_for none round_id org_id challenge now w = (fail 403, w)
  issue_for (some org) round_id org_id challenge now w =
      issued (issue_challenge org_id round_id challenge 600 now w.store) challenge now w

  abbrev issue_in : Option Round → ℕ → String → String → ℕ → World → Reply (String × ℕ) × World
  issue_in none round_id org_id challenge now w = (fail 404, w)
  issue_in (some r) round_id org_id challenge now w =
      if not (is_running r.status)
      then (fail 409, w)
      else issue_for (get_org org_id w.store) round_id org_id challenge now w

  unfoldable pub issue_round_challenge :
      ℕ → String → String → ℕ → World → Reply (String × ℕ) × World
  issue_round_challenge round_id org_id challenge now w =
      issue_in (get_round round_id w.store) round_id org_id challenge now w

  abbrev announcement_of : Option Round → Reply (Option String × Option String)
  announcement_of none = fail 404
  announcement_of (some r) = elim r.announce_attestation [
    | none ↦ fail 404
    | some a ↦ ok (some a, r.announce_signature)
  ]

  unfoldable pub get_round_announcement : ℕ → World → Reply (Option String × Option String)
  get_round_announcement round_id w = announcement_of (get_round round_id w.store)
