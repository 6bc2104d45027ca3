-- ===== src/Client/Session/Fetched.antt =====
-- client_ref/fl_client.py with coordinator/api.py: the client takes the models that are served.
use threat_hunting_platform.Prelude.{
  ℕ, String, Bytes, ◌≡◌, refl, true, Option, some, [], ◌∷◌, eq_refl, string_Eq,
}
use threat_hunting_platform.Prelude.Int.{pos}
use threat_hunting_platform.Store.Rows.{Store, Round, is_completed}
use threat_hunting_platform.Store.Rounds.{get_round}
use threat_hunting_platform.Store.Orgs.{nonempty}
use threat_hunting_platform.Attestation.{
  text, int, texts, Dict, get, object, build_global_model_attestation,
}
use threat_hunting_platform.Client.{verify_global_model, check_key, check_signature, check_hash}
use threat_hunting_platform.Client.Session.{FlClient, fetch_global_model}
use threat_hunting_platform.Api.{Env, World, ok}
use threat_hunting_platform.Api.Aggregate.{read_bytes}
use threat_hunting_platform.Api.Serve.{
  Served, distinct, accepted_orgs, attestation_of, signed_model_response, get_round_global_model,
}

module _ (env : Env) (b64decode : String → Option Bytes) (round_id now : ℕ) (priv key_pem : String)
    (model : Bytes) where
  -- the message about the model
  abbrev global_model : Store → Dict
  global_model s =
      ("type", text "fl.global_model.v1")
      ∷ ("round_id", int (pos round_id))
      ∷ ("model_sha256", text (env.wire.sha256 model))
      ∷ (
        "accepted_orgs",
        texts (env.wire.sorted_texts (env.wire.sorted_texts (distinct (accepted_orgs round_id s)))),
      )
      ∷ ("distributed_at", text (env.wire.isoformat now))
      ∷ []

  abbrev message : Store → Bytes
  message s = env.wire.canonical (global_model s)

  -- What the libraries do with this one message.
  pub record Carries (s : Store) : Type 0 where
    pub loads : env.wire.loads (message s) ≡ object (global_model s)
    pub unhex :
        env.wire.unhex (env.wire.hex (env.wire.sign priv (message s)))
        ≡ some (env.wire.sign priv (message s))
    pub verifies :
        env.wire.verify (env.wire.public_of priv) (message s) (env.wire.sign priv (message s))
        ≡ true
    pub loads_key : env.wire.public_key_from_pem key_pem ≡ some (env.wire.public_of priv)
    pub decodes : b64decode (env.b64encode model) ≡ some model

  abbrev answer : Store → Served
  answer s = record {
    round_id = round_id;
    model_b64 = env.b64encode model;
    signed_attestation = message s;
    signature_hex = env.wire.hex (env.wire.sign priv (message s));
  }

  served :
      (w : World) (r : Round)
      → env.coord_priv ≡ some priv
      → get_round round_id w.store ≡ some r
      → is_completed r.status ≡ true
      → read_bytes (env.path_of_round round_id) w.files ≡ some model
      → get_round_global_model env round_id now w ≡ ok (answer w.store)
  unfolding get_round_global_model signed_model_response attestation_of
      build_global_model_attestation
  served w r k found done file = rw (found, done, file, k) refl

  fetched :
      (c : FlClient) (s : Store)
      → nonempty c.coord_pub_pem ≡ some key_pem
      → Carries s
      → fetch_global_model env.wire b64decode c true (some (answer s)) ≡ some model
  unfolding fetch_global_model verify_global_model check_key check_signature check_hash get
  fetched c s pinned m =
      rw
        (
          m.decodes,
          pinned,
          m.loads_key,
          m.unhex,
          m.verifies,
          m.loads,
          eq_refl (env.wire.sha256 model),
        )
        refl

  -- For a completed round whose model file is there, the coordinator serves a body that a client
  -- with the coordinator's key verifies and takes, and the client gets the bytes of the file, if the
  -- libraries carry this message unchanged.
  pub fetch_global_model-get_round_global_model :
      (c : FlClient) (w : World) (r : Round)
      → env.coord_priv ≡ some priv
      → get_round round_id w.store ≡ some r
      → is_completed r.status ≡ true
      → read_bytes (env.path_of_round round_id) w.files ≡ some model
      → nonempty c.coord_pub_pem ≡ some key_pem
      → Carries w.store
      → (p : Served) × (get_round_global_model env round_id now w ≡ ok p)
        × (fetch_global_model env.wire b64decode c true (some p) ≡ some model)
  fetch_global_model-get_round_global_model c w r k found done file pinned m =
      (answer w.store, served w r k found done file, fetched c w.store pinned m)
