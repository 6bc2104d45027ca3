-- ===== src/Api/SelfEnroll/Puts.antt =====
-- coordinator/api.py: what a self-enrolment does to the organisations, whatever its reply is.
use threat_hunting_platform.Prelude.{
  ℕ, String, Bytes, ◌≡◌, refl, Option, none, some, Bool-cases, inl, inr,
}
use threat_hunting_platform.Store.Rows.{Store}
use threat_hunting_platform.Store.Orgs.{replace_org}
use threat_hunting_platform.Store.Orgs.Trust.{Puts, enroll_org-Puts}
use threat_hunting_platform.Store.Tokens.{TokenRefusal, consume_enroll_token}
use threat_hunting_platform.Attestation.{
  Dict, get, Loaded, invalid, other, object, build_enroll_pop,
}
use threat_hunting_platform.Client.{is_text}
use threat_hunting_platform.Ca.{Key, Certificate}
use threat_hunting_platform.Api.{Env, World, audit_log}
use threat_hunting_platform.Api.Enroll.{Drawn}
use threat_hunting_platform.Api.SelfEnroll.{
  EnrollWithTokenRequest, decode_token, seal_package, store_org, issue, after_token, redeem_token,
  check_possession, check_x25519, check_ed25519, check_loaded, check_token, with_keys,
  enroll_with_token,
}

module _ (env : Env) (b : EnrollWithTokenRequest) (d : Drawn) (now : ℕ) where
  module _ (k : String) (a : Key) (c : Certificate) where
    sealed-Puts :
        (jti : String) (o : Option String) (s : Store) (w : World)
        → Puts s w.store
        → Puts s (seal_package env b d now k a c jti o w).1.store
    unfolding audit_log
    sealed-Puts jti none s w h = h
    sealed-Puts jti (some sealed) s w h = h

    stored-Puts :
        (jti : String) (cert : Certificate) (o : Option Store) (w : World)
        → ((s : Store) → o ≡ some s → Puts w.store s)
        → Puts w.store (store_org env b d now k a c jti cert o w).1.store
    stored-Puts jti cert none w h = Puts.same refl
    stored-Puts jti cert (some s) w h =
        sealed-Puts jti _ w.store (record w { store = s }) (h s refl)

    issue-Puts :
        (ed_pub jti : String) (o : Option String) (w : World)
        → Puts w.store (issue env b d now k a c ed_pub jti o w).1.store
    issue-Puts ed_pub jti none w = Puts.same refl
    issue-Puts ed_pub jti (some name) w =
        stored-Puts jti _ _ w (λ s e. enroll_org-Puts _ _ _ _ _ _ _ _ _ w.store s e)

    after-Puts :
        (ed_pub jti : String) (tok : Dict) (o : Option TokenRefusal × Store) (w : World)
        → Puts o.1 (after_token env b d now k a c ed_pub jti tok o w).1.store
    after-Puts ed_pub jti tok (some err, s) w = Puts.same refl
    after-Puts ed_pub jti tok (none, s) w = issue-Puts ed_pub jti _ (record w { store = s })

    -- A token that is redeemed leaves the organisations alone.
    consumed-Puts :
        (jti i : String) (s s' : Store) → Puts (consume_enroll_token jti i now s).1 s' → Puts s s'
    unfolding consume_enroll_token replace_org
    consumed-Puts jti i s s' (Puts.same e) = Puts.same e
    consumed-Puts jti i s s' (Puts.put row live e) = Puts.put row live e

    redeem-Puts :
        (ed_pub : String) (tok : Dict) (o : Option String) (w : World)
        → Puts w.store (redeem_token env b d now k a c ed_pub tok o w).1.store
    redeem-Puts ed_pub tok none w = Puts.same refl
    redeem-Puts ed_pub tok (some jti) w =
        consumed-Puts jti b.org_id w.store _ (after-Puts ed_pub jti tok _ w)

    possession-Puts :
        (ed_pub : String) (tok : Dict) (o : Option Bytes) (w : World)
        → Puts w.store (check_possession env b d now k a c ed_pub tok o w).1.store
    possession-Puts ed_pub tok none w = Puts.same refl
    possession-Puts ed_pub tok (some sig) w =
        elim (Bool-cases
          (env.wire.verify ed_pub (build_enroll_pop env.wire b.token b.x25519_pub_pem) sig)) [
            | inr n ↦ rw n (Puts.same refl)
            | inl y ↦ rw y (redeem-Puts ed_pub tok _ w)
          ]

    x25519-Puts :
        (ed_pub : String) (tok : Dict) (o : Option String) (w : World)
        → Puts w.store (check_x25519 env b d now k a c ed_pub tok o w).1.store
    x25519-Puts ed_pub tok none w = Puts.same refl
    x25519-Puts ed_pub tok (some x) w = possession-Puts ed_pub tok _ w

    ed25519-Puts :
        (tok : Dict) (o : Option String) (w : World)
        → Puts w.store (check_ed25519 env b d now k a c tok o w).1.store
    ed25519-Puts tok none w = Puts.same refl
    ed25519-Puts tok (some key) w = x25519-Puts key tok _ w

    loaded-Puts :
        (l : Loaded) (w : World) → Puts w.store (check_loaded env b d now k a c l w).1.store
    loaded-Puts invalid w = Puts.same refl
    loaded-Puts other w = Puts.same refl
    loaded-Puts (object tok) w = elim (Bool-cases (is_text "fl.enroll_token.v1" (get "type" tok))) [
      | inr n ↦ rw n (Puts.same refl)
      | inl y ↦ elim (Bool-cases (is_text b.org_id (get "org_id" tok))) [
        | inr n ↦ rw (y, n) (Puts.same refl)
        | inl z ↦ rw (y, z) (ed25519-Puts tok _ w)
      ]
    ]

    token-Puts :
        (o : Option (Bytes × Bytes)) (w : World)
        → Puts w.store (check_token env b d now k a c o w).1.store
    token-Puts none w = Puts.same refl
    token-Puts (some (att, sig)) w =
        elim (Bool-cases (env.wire.verify (env.wire.public_of k) att sig)) [
          | inr n ↦ rw n (Puts.same refl)
          | inl y ↦ rw y (loaded-Puts (env.wire.loads att) w)
        ]

  keys-Puts :
      (o : Option String) (k : Option Key) (c : Option Certificate) (w : World)
      → Puts w.store (with_keys env b d now o k c w).1.store
  keys-Puts (some o) (some k) (some c) w = token-Puts o k c (decode_token env b.token) w
  keys-Puts none k c w = Puts.same refl
  keys-Puts (some o) none c w = Puts.same refl
  keys-Puts (some o) (some k) none w = Puts.same refl

  pub enroll_with_token-Puts : (w : World) → Puts w.store (enroll_with_token env b d now w).1.store
  unfolding enroll_with_token
  enroll_with_token-Puts w = keys-Puts env.coord_priv env.ca_priv env.ca_cert w
