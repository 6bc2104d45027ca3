-- ===== src/Api/Rounds/Joining.antt =====
-- coordinator/api.py: what a started round is.
use threat_hunting_platform.Prelude.{
  ℕ, ◌≤◌, ◌+◌, ◌*◌, String, ◌≡◌, refl, subst, Option, none, some, List, length, ltb, arith,
  Bool-cases, inl, inr, nat_Eq,
}
use threat_hunting_platform.Prelude.Table.{find_fits}
use threat_hunting_platform.Store.Rows.{Store, Round, RoundParams, running}
use threat_hunting_platform.Store.Rounds.{
  start_round, set_round_announcement, get_round, is_round, new_round,
}
use threat_hunting_platform.Store.Rounds.Lifecycle.{
  IsNumbered, get_round-start_round, get_round-update_round,
}
use threat_hunting_platform.Api.{ok_eq, Env, World, ok, audit_log}
use threat_hunting_platform.Api.Rounds.{
  StartRoundRequest, Started, invited_orgs, params_of, announce, open_round,
}

-- The store has this round, running since `now` with these parameters.
pub record IsOpen (i now : ℕ) (params : RoundParams) (s : Store) : Type 0 where
  pub round : Round
  pub found : get_round i s ≡ some round
  pub is_running : round.status ≡ running
  pub since : round.started_at ≡ now
  pub with_params : round.params ≡ params

started-IsOpen :
    (by : String) (p : RoundParams) (n now : ℕ) (s : Store)
    → IsNumbered s
    → let (i, s') = start_round by p n now s in IsOpen i now p s'
started-IsOpen by p n now s h =
    let (i, s') = start_round by p n now s in
    record {
      round = new_round i by p n now;
      found = ground (arith, get_round-start_round by p n now i s h);
      is_running = refl;
      since = refl;
      with_params = refl;
    }

announced-IsOpen :
    (i now : ℕ) (att sig : String) (p : RoundParams) (s : Store)
    → IsOpen i now p s
    → IsOpen i now p (set_round_announcement i att sig s)
unfolding set_round_announcement get_round
announced-IsOpen i now att sig p s h =
    let sign : Round → Round =
      λ r. record r { announce_attestation = some att; announce_signature = some sig } in
    record {
      round = sign h.round;
      found = ground (
        arith,
        get_round-update_round i i sign s (λ r. refl),
        h.found,
        find_fits (is_round i) s.rounds h.round,
      );
      is_running = h.is_running;
      since = h.since;
      with_params = h.with_params;
    }

module _ (env : Env) where
  announce-IsOpen :
      (o : Option String) (b : StartRoundRequest) (i : ℕ) (invited : List String) (now : ℕ)
      (p : RoundParams) (s : Store)
      → IsOpen i now p s
      → IsOpen i now p (announce env o b i invited now s).1
  announce-IsOpen none b i invited now p s h = h
  announce-IsOpen (some priv) b i invited now p s h = announced-IsOpen i now _ _ p s h

  -- What a successful start has found and left.
  pub record Starts (b : StartRoundRequest) (now : ℕ) (s s' : Store) (a : Started) : Type 0 where
    pub invited : a.invited_orgs ≡ invited_orgs b s
    pub enough : b.min_clients ≤ length a.invited_orgs
    pub intake : a.intake_until ≡ now + (params_of env b).observation_hours * 3600
    pub open_since : IsOpen a.round_id now (params_of env b) s'

  -- In a table whose rounds are numbered below the counter, a round is started only with as many
  -- invited organisations as the request asks for; it is then in the table under the number of the
  -- reply, running since now with the request's parameters, announced or not, and its intake ends
  -- after the hours that the request or the setting gives.
  pub open_round-Starts :
      (b : StartRoundRequest) (username : String) (now : ℕ) (w : World) (a : Started)
      → IsNumbered w.store
      → (open_round env b username now w).0 ≡ ok a
      → Starts b now w.store (open_round env b username now w).1.store a
  unfolding open_round audit_log
  open_round-Starts b username now w a h e =
      elim (Bool-cases (ltb (length (invited_orgs b w.store)) b.min_clients)) [
        | inl few ↦ absurd (ground (arith, few))
        | inr enough ↦
            let (i, s) =
              start_round username (params_of env b) (length (invited_orgs b w.store)) now
                w.store in
            let open_now =
              announce-IsOpen env.coord_priv b i (invited_orgs b w.store) now (params_of env b) s (
                started-IsOpen username (params_of env b) (length (invited_orgs b w.store)) now
                  w.store h) in
            let (_, s') = announce env env.coord_priv b i (invited_orgs b w.store) now s in
            rw enough (
              subst (λ a. Starts b now w.store s' a) (ok_eq _ a (rw enough at e))
                (record {
                  invited = refl;
                  enough = ground arith;
                  intake = refl;
                  open_since = open_now;
                }))
      ]
