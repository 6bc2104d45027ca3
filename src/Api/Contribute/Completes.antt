-- ===== src/Api/Contribute/Completes.antt =====
-- coordinator/api.py with client_ref/fl_client.py: what a client signs, the coordinator accepts.
use threat_hunting_platform.Prelude.{
  ℕ, String, Bytes, ◌≡◌, refl, true, false, Option, none, some, [], ◌∷◌, arith, ltb, sym, ◌∙◌,
  subst, some-injective, eq_refl, string_Eq, nat_Eq,
}
use threat_hunting_platform.Prelude.Int.{ℤ, pos}
use threat_hunting_platform.Store.Rows.{Store, Round, is_running}
use threat_hunting_platform.Store.Rounds.{get_round}
use threat_hunting_platform.Store.Orgs.{get_org_public_key}
use threat_hunting_platform.Store.Challenges.{consume_challenge, Refusal}
use threat_hunting_platform.Store.Contributions.{has_accepted_contribution}
use threat_hunting_platform.Attestation.{
  text, int, Dict, get, object, build_contribution_attestation,
}
use threat_hunting_platform.Client.{build_signed_contribution}
use threat_hunting_platform.Api.{Env, World, Reply, ok, audit_log}
use threat_hunting_platform.Api.Contribute.{
  Upload, Receipt, drift, check_round, check_number, check_loaded, open_contribution,
  finish_contribution, submit_contribution, has_fields, check_time, check_challenge,
  after_challenge, check_registered, check_loaded_key, check_sig, record_accepted,
}

module _ (env : Env) (round_id : ℕ) (org_id pem priv challenge : String) (model : Bytes) (n : ℤ)
    (sent now : ℕ) where
  -- the message that the client signs
  abbrev contribution : Dict
  contribution =
      ("type", text "fl.contribution.v1")
      ∷ ("round_id", int (pos round_id))
      ∷ ("org_id", text org_id)
      ∷ ("model_sha256", text (env.wire.sha256 model))
      ∷ ("num_examples", int n)
      ∷ ("challenge", text challenge)
      ∷ ("submitted_at", text (env.wire.isoformat sent))
      ∷ []

  abbrev signed : Bytes × String
  signed = let att = env.wire.canonical contribution in (att, env.wire.hex (env.wire.sign priv att))

  abbrev upload : Upload
  upload = record {
    round_id = round_id;
    org_id = org_id;
    attestation = signed.0;
    signature = signed.1;
    model = model;
  }

  -- What the libraries do with this one message.
  pub record Carries : Type 0 where
    pub loads : env.wire.loads signed.0 ≡ object contribution
    pub unhex : env.wire.unhex signed.1 ≡ some (env.wire.sign priv signed.0)
    pub verifies :
        env.wire.verify (env.wire.public_of priv) signed.0 (env.wire.sign priv signed.0) ≡ true
    pub parses : env.parse_time (env.wire.isoformat sent) ≡ some sent
    pub loads_key : env.wire.public_key_from_pem pem ≡ some (env.wire.public_of priv)

  -- What the coordinator has to know.
  pub record Awaits (s : Store) : Type 0 where
    pub round : Round
    pub found : get_round round_id s ≡ some round
    pub is_open : is_running round.status ≡ true
    pub first : has_accepted_contribution round_id org_id s ≡ false
    pub fresh : (consume_challenge challenge org_id round_id now s).0 ≡ none
    pub registered : get_org_public_key org_id s ≡ some pem
    pub in_time : ltb 300000 (drift now sent) ≡ false
    pub small : ltb env.max_model_bytes (env.size_of model) ≡ false

  opens : (s : Store) → Carries → Awaits s → open_contribution env upload s ≡ ok contribution
  unfolding open_contribution check_loaded check_number check_round has_fields get
  opens s c a = rw (c.loads, eq_refl org_id, a.found, a.is_open, a.first) (ground arith)

  key_kept :
      (s : Store)
      → get_org_public_key org_id (consume_challenge challenge org_id round_id now s).1
        ≡ get_org_public_key org_id s
  unfolding consume_challenge get_org_public_key
  key_kept s = refl

  -- the contribution is recorded, under some number
  abbrev Accepted : Reply Receipt → Type 0
  Accepted r =
      (cid : ℕ) × (r
        ≡ ok (record {
          contribution_id = cid;
          round_id = round_id;
          org_id = org_id;
          model_sha256 = env.wire.sha256 model;
        }))

  registered-Accepted :
      (w : World)
      → Carries
      → Accepted (check_registered env upload contribution now challenge (some pem) w).0
  unfolding check_registered check_loaded_key check_sig record_accepted audit_log get
  registered-Accepted w c = rw (c.loads_key, c.unhex, c.verifies) (_, refl)

  after-Accepted :
      (o : Option Refusal × Store) (w : World)
      → Carries
      → o.0 ≡ none
      → get_org_public_key org_id o.1 ≡ some pem
      → Accepted (after_challenge env upload contribution now challenge o w).0
  unfolding after_challenge
  after-Accepted (some err, s) w c fresh k = absurd (ground arith)
  after-Accepted (none, s) w c fresh k = rw k (registered-Accepted (record w { store = s }) c)

  finishes :
      (w : World)
      → Carries
      → Awaits w.store
      → Accepted (finish_contribution env upload contribution now w).0
  unfolding finish_contribution check_time check_challenge get
  finishes w c a =
      rw (a.small, eq_refl (env.wire.sha256 model), c.parses, a.in_time)
        (after-Accepted (consume_challenge challenge org_id round_id now w.store) w c a.fresh
          (key_kept w.store ∙ a.registered))

  built :
      (private_pem : String)
      → env.wire.private_key_from_pem private_pem ≡ some priv
      → build_signed_contribution env.wire private_pem round_id org_id model n challenge sent
        ≡ some signed
  unfolding build_contribution_attestation build_signed_contribution
  built private_pem k = rw (k, build_signed_contribution) refl

  -- What the client builds for a challenge that the organisation can consume, a running round that
  -- has no accepted contribution of it, a clock at most five minutes away and a model within the
  -- size limit, the coordinator accepts, with the hash of the model, if the organisation is active,
  -- the key it has registered is the public half of the one that the client signs with, and the
  -- libraries carry this message unchanged.
  pub submit_contribution-completes :
      (private_pem : String) (att : Bytes) (sig : String) (w : World)
      → env.wire.private_key_from_pem private_pem ≡ some priv
      → build_signed_contribution env.wire private_pem round_id org_id model n challenge sent
        ≡ some (att, sig)
      → Carries
      → Awaits w.store
      → Accepted
          (submit_contribution env
            (record {
              round_id = round_id;
              org_id = org_id;
              attestation = att;
              signature = sig;
              model = model;
            })
            now
            w).0
  unfolding submit_contribution
  submit_contribution-completes private_pem att sig w k e c a =
      let same : signed ≡ (att, sig) =
        some-injective signed (att, sig) (sym (built private_pem k) ∙ e) in
      subst
        (λ (p : Bytes × String).
          Accepted
            (submit_contribution env
              (record {
                round_id = round_id;
                org_id = org_id;
                attestation = p.0;
                signature = p.1;
                model = model;
              })
              now w).0)
        same (rw (opens w.store c a) (finishes w c a))
