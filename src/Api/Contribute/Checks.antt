-- ===== src/Api/Contribute/Checks.antt =====
-- coordinator/api.py: what holds of a contribution that is accepted, and how often that happens.
use threat_hunting_platform.Prelude.{
  ℕ, ◌≤◌, ◌+◌, String, Bytes, ◌≡◌, ◌≢◌, refl, true, Option, none, some, arith, Bool-cases, inl, inr,
  ltb, string_Eq, nat_Eq, eq_refl,
}
use threat_hunting_platform.Prelude.Int.{ℤ}
use threat_hunting_platform.Store.Rows.{Store}
use threat_hunting_platform.Store.Orgs.{get_org_public_key}
use threat_hunting_platform.Store.Challenges.{Refusal, consume_challenge}
use threat_hunting_platform.Store.Contributions.{record_contribution}
use threat_hunting_platform.Store.Contributions.Accepted.{accepted_count, accepted_count-record}
use threat_hunting_platform.Attestation.{text, Dict, get}
use threat_hunting_platform.Client.{is_text}
use threat_hunting_platform.Client.Verified.{is_text-true}
use threat_hunting_platform.Api.{Env, World, ok, audit_log}
use threat_hunting_platform.Api.Contribute.{
  Upload, Receipt, int_of, sent_at, challenge_text, drift, record_rejected, record_accepted,
  check_sig, check_loaded_key, check_registered, after_challenge, check_challenge, check_time,
  finish_contribution,
}

module _ (env : Env) (u : Upload) where
  -- The organisation is active, and its registered key verifies the signature of the attestation.
  pub record IsSigned (s : Store) : Type 0 where
    pub pem : String
    pub key : String
    pub sig : Bytes
    pub registered : get_org_public_key u.org_id s ≡ some pem
    pub loaded : env.wire.public_key_from_pem pem ≡ some key
    pub decoded : env.wire.unhex u.signature ≡ some sig
    pub verified : env.wire.verify key u.attestation sig ≡ true

  -- one more accepted contribution of the organisation for the round
  abbrev pub Counts : Store → Store → Type 0
  Counts s s' = accepted_count u.round_id u.org_id s' ≡ accepted_count u.round_id u.org_id s + 1

  -- that, and no further change of the challenges
  abbrev Records : Store → Store → Type 0
  Records s s' = Counts s s' × (s'.challenges ≡ s.challenges)

  module _ (att : Dict) (now : ℕ) where
    record_accepted-Records :
        (ch : String) (n : Option ℤ) (w : World) (p : Receipt)
        → (record_accepted env u att now ch n w).0 ≡ ok p
        → Records w.store (record_accepted env u att now ch n w).1.store
    unfolding record_accepted audit_log record_contribution
    record_accepted-Records ch none w p e = absurd (ground arith)
    record_accepted-Records ch (some n) w p e = (
      ground (
        arith,
        eq_refl u.org_id,
        accepted_count-record u.round_id u.round_id u.org_id u.org_id (env.wire.sha256 u.model) n
            u.attestation u.signature ch true
            (some
              (env.path_of_contribution u.round_id u.org_id (env.short (env.wire.sha256 u.model))))
            none now w.store,
      ),
      refl,
    )

    rejected_fails :
        (ch : String) (n : Option ℤ) (w : World) (p : Receipt)
        → (record_rejected env u att now ch n w).0 ≢ ok p
    unfolding record_rejected
    rejected_fails ch none w p e = absurd (ground arith)
    rejected_fails ch (some n) w p e = absurd (ground arith)

    sig_inversion :
        (ch key : String) (o : Option Bytes) (w : World) (p : Receipt)
        → (check_sig env u att now ch key o w).0 ≡ ok p
        → (sig : Bytes) × (o ≡ some sig)
          × (env.wire.verify key u.attestation sig ≡ true)
          × Records w.store (check_sig env u att now ch key o w).1.store
    unfolding check_sig
    sig_inversion ch key none w p e = absurd (ground arith)
    sig_inversion ch key (some sig) w p e =
        let n = int_of env (get "num_examples" att) in
        elim (Bool-cases (env.wire.verify key u.attestation sig)) [
          | inl y ↦ (sig, refl, y, rw y (record_accepted-Records ch n w p (rw y at e)))
          | inr b ↦ absurd (rejected_fails ch n w p (rw b at e))
        ]

    key_inversion :
        (ch : String) (o : Option String) (w : World) (p : Receipt)
        → (check_loaded_key env u att now ch o w).0 ≡ ok p
        → (key : String) × (sig : Bytes) × (o ≡ some key)
          × (env.wire.unhex u.signature ≡ some sig)
          × (env.wire.verify key u.attestation sig ≡ true)
          × Records w.store (check_loaded_key env u att now ch o w).1.store
    unfolding check_loaded_key
    key_inversion ch none w p e = absurd (ground arith)
    key_inversion ch (some key) w p e =
        let (sig, d, v, c) = sig_inversion ch key (env.wire.unhex u.signature) w p e in
        (key, sig, refl, d, v, c)

    registered_inversion :
        (ch : String) (o : Option String) (w : World) (p : Receipt)
        → get_org_public_key u.org_id w.store ≡ o
        → (check_registered env u att now ch o w).0 ≡ ok p
        → IsSigned w.store × Records w.store (check_registered env u att now ch o w).1.store
    unfolding check_registered
    registered_inversion ch none w p g e = absurd (ground arith)
    registered_inversion ch (some pem) w p g e =
        let (key, sig, k, d, v, c) = key_inversion ch (env.wire.public_key_from_pem pem) w p e in
        (
          record {
            pem = pem;
            key = key;
            sig = sig;
            registered = g;
            loaded = k;
            decoded = d;
            verified = v;
          },
          c,
        )

    after_inversion :
        (ch : String) (o : Option Refusal × Store) (w : World) (p : Receipt)
        → (after_challenge env u att now ch o w).0 ≡ ok p
        → (o.0 ≡ none) × IsSigned o.1 × Records o.1 (after_challenge env u att now ch o w).1.store
    unfolding after_challenge
    after_inversion ch (some err, s) w p e = absurd (ground arith)
    after_inversion ch (none, s) w p e =
        let (signed, counts) =
          registered_inversion ch (get_org_public_key u.org_id s) (record w { store = s }) p refl
            e in
        (refl, signed, counts)

    -- The challenge that the attestation names is consumed by this very call.
    challenge_inversion :
        (o : Option String) (w : World) (p : Receipt)
        → (check_challenge env u att now o w).0 ≡ ok p
        → (ch : String) × (o ≡ some ch)
          × ((consume_challenge ch u.org_id u.round_id now w.store).0 ≡ none)
          × IsSigned (consume_challenge ch u.org_id u.round_id now w.store).1
          × Records
              (consume_challenge ch u.org_id u.round_id now w.store).1
              (check_challenge env u att now o w).1.store
    unfolding check_challenge
    challenge_inversion none w p e = absurd (ground arith)
    challenge_inversion (some ch) w p e =
        let (fresh, signed, counts) =
          after_inversion ch (consume_challenge ch u.org_id u.round_id now w.store) w p e in
        (ch, refl, fresh, signed, counts)

    consume_keys :
        (ch : String) (s : Store)
        → get_org_public_key u.org_id (consume_challenge ch u.org_id u.round_id now s).1
          ≡ get_org_public_key u.org_id s
    unfolding consume_challenge get_org_public_key
    consume_keys ch s = refl

    consume_count :
        (ch : String) (s : Store)
        → accepted_count u.round_id u.org_id (consume_challenge ch u.org_id u.round_id now s).1
          ≡ accepted_count u.round_id u.org_id s
    unfolding consume_challenge accepted_count
    consume_count ch s = refl

    -- What has been checked of the upload, and what was done.
    pub record Accepts (w w' : World) : Type 0 where
      pub small : env.size_of u.model ≤ env.max_model_bytes
      pub hash : get "model_sha256" att ≡ some (text (env.wire.sha256 u.model))
      pub sent : ℕ
      pub timed : sent_at env (get "submitted_at" att) ≡ some sent
      pub recent : drift now sent ≤ 300000
      pub challenge : String
      pub named : challenge_text env (get "challenge" att) ≡ some challenge
      pub consumed : (consume_challenge challenge u.org_id u.round_id now w.store).0 ≡ none
      pub spent :
          w'.store.challenges
          ≡ (consume_challenge challenge u.org_id u.round_id now w.store).1.challenges
      pub signed : IsSigned w.store
      pub counted : Counts w.store w'.store

    time_inversion :
        (o : Option ℕ) (w : World) (p : Receipt)
        → env.size_of u.model ≤ env.max_model_bytes
        → get "model_sha256" att ≡ some (text (env.wire.sha256 u.model))
        → sent_at env (get "submitted_at" att) ≡ o
        → (check_time env u att now o w).0 ≡ ok p
        → Accepts w (check_time env u att now o w).1
    unfolding check_time
    time_inversion none w p small hash t e = absurd (ground arith)
    time_inversion (some sent) w p small hash t e =
        elim (Bool-cases (ltb 300000 (drift now sent))) [
          | inl late ↦ absurd (ground (arith, late))
          | inr recent ↦
              let (ch, named, fresh, signed, (counts, spent)) =
                challenge_inversion (challenge_text env (get "challenge" att)) w p
                  (rw recent at e) in
              rw recent (record {
                small = small;
                hash = hash;
                sent = sent;
                timed = t;
                recent = ground arith;
                challenge = ch;
                named = named;
                consumed = fresh;
                spent = spent;
                signed = record {
                  pem = signed.pem;
                  key = signed.key;
                  sig = signed.sig;
                  registered = rw (consume_keys ch w.store) at signed.registered;
                  loaded = signed.loaded;
                  decoded = signed.decoded;
                  verified = signed.verified;
                };
                counted = rw (consume_count ch w.store) at counts;
              })
        ]

    -- A contribution is accepted after the upload only if all these hold: the upload is within the
    -- limit and has the hash that the attestation names; the attestation was sent within five
    -- minutes of now; the challenge that it names is one that this call consumes, and the table of
    -- challenges is left as the consumption leaves it; and the active organisation's registered key verifies it. Then the organisation has one more accepted
    -- contribution for the round.
    pub finish_contribution-Accepts :
        (w : World) (p : Receipt)
        → (finish_contribution env u att now w).0 ≡ ok p
        → Accepts w (finish_contribution env u att now w).1
    unfolding finish_contribution
    finish_contribution-Accepts w p e =
        elim (Bool-cases (ltb env.max_model_bytes (env.size_of u.model))) [
          | inl big ↦ absurd (ground (arith, big))
          | inr small ↦
              elim (Bool-cases (is_text (env.wire.sha256 u.model) (get "model_sha256" att))) [
                | inr differs ↦ absurd (ground (arith, small, differs))
                | inl hash ↦
                    rw (small, hash)
                      (time_inversion (sent_at env (get "submitted_at" att)) w p (ground arith)
                        (is_text-true (env.wire.sha256 u.model) (get "model_sha256" att) hash) refl
                        (rw (small, hash) at e))
              ]
        ]
