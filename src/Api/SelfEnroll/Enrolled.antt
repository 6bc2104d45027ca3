-- ===== src/Api/SelfEnroll/Enrolled.antt =====
-- coordinator/api.py: what a self-enrolment that succeeds has checked and done.
use threat_hunting_platform.Prelude.{
  ℕ, String, Bytes, ◌<>◌, ◌≡◌, refl, true, Option, none, some, arith, Bool-cases, inl, inr,
}
use threat_hunting_platform.Store.Rows.{Store}
use threat_hunting_platform.Store.Orgs.{enroll_org}
use threat_hunting_platform.Store.Tokens.{TokenRefusal, consume_enroll_token}
use threat_hunting_platform.Attestation.{
  Value, text, Dict, get, Loaded, invalid, other, object, build_enroll_pop,
}
use threat_hunting_platform.Client.{is_text}
use threat_hunting_platform.Client.Verified.{is_text-true}
use threat_hunting_platform.Ca.{Key, Certificate}
use threat_hunting_platform.SealBox.{seal}
use threat_hunting_platform.Api.{Env, World, ok, audit_log}
use threat_hunting_platform.Api.Enroll.{Drawn, package_of}
use threat_hunting_platform.Api.SelfEnroll.{
  EnrollWithTokenRequest, text_of, package_octets, decode_token, seal_package, store_org,
  certificate, issue, after_token, redeem_token, check_possession, check_x25519, check_ed25519,
  check_loaded,
}

pub text_of-text : (v : Option Value) (t : String) → text_of v ≡ some t → v ≡ some (text t)
text_of-text none t e = absurd (ground arith)
text_of-text (some (text u)) t e = ground (arith, e)
text_of-text (some v) t e = absurd (ground arith)

module _ (env : Env) (b : EnrollWithTokenRequest) (d : Drawn) (now : ℕ) where
  module _ (coord_priv : String) (ca_priv : Key) (ca_cert : Certificate) where
    -- The organisation is enrolled with a new certificate, and the package is sealed for it.
    pub record Places (ed_pub jti : String) (tok : Dict) (s s' : Store) (p : String × String)
        : Type 0 where
      pub display_name : String
      pub named : get "display_name" tok ≡ some (text display_name)
      pub enrolled :
          enroll_org b.org_id display_name
            (env.tokens.sha256 d.api_key)
            ("self:token:" <> jti)
            (some b.ed25519_pub_pem)
            (some (
              env.x509.to_pem
                (certificate env b d now coord_priv ca_priv ca_cert ed_pub display_name)))
            (some d.serial)
            none
            now
            s
          ≡ some s'
      pub sealed :
          seal env.box d.ephemeral (env.box.encode b.x25519_pub_pem) (
            package_octets env (
              package_of env coord_priv ca_cert
                (certificate env b d now coord_priv ca_priv ca_cert ed_pub display_name)
                d
                b.org_id))
          ≡ some p.1
      pub answer : p.0 ≡ b.org_id

    seal_inversion :
        (jti : String) (o : Option String) (w : World) (p : String × String)
        → let (r, w') = seal_package env b d now coord_priv ca_priv ca_cert jti o w in
          r ≡ ok p → (o ≡ some p.1) × (p.0 ≡ b.org_id) × (w'.store ≡ w.store)
    unfolding audit_log
    seal_inversion jti none w p e = absurd (ground arith)
    seal_inversion jti (some sealed) w p e = (ground arith, ground arith, refl)

    store_inversion :
        (jti : String) (cert : Certificate) (o : Option Store) (w : World) (p : String × String)
        → let (r, w') = store_org env b d now coord_priv ca_priv ca_cert jti cert o w in
          r ≡ ok p
          → (o ≡ some w'.store)
            × (p.0 ≡ b.org_id)
            × (seal env.box d.ephemeral
                  (env.box.encode b.x25519_pub_pem)
                  (package_octets env (package_of env coord_priv ca_cert cert d b.org_id))
                ≡ some p.1)
    store_inversion jti cert none w p e = absurd (ground arith)
    store_inversion jti cert (some s) w p e =
        let (sealed, a, same) = seal_inversion jti _ (record w { store = s }) p e in
        (rw same refl, a, sealed)

    issue_inversion :
        (ed_pub jti : String) (tok : Dict) (o : Option String) (w : World) (p : String × String)
        → text_of (get "display_name" tok) ≡ o
        → let (r, w') = issue env b d now coord_priv ca_priv ca_cert ed_pub jti o w in
          r ≡ ok p → Places ed_pub jti tok w.store w'.store p
    issue_inversion ed_pub jti tok none w p g e = absurd (ground arith)
    issue_inversion ed_pub jti tok (some display_name) w p g e =
        let cert = certificate env b d now coord_priv ca_priv ca_cert ed_pub display_name in
        let (stored, a, sealed) = store_inversion jti cert _ w p e in
        record {
          display_name = display_name;
          named = text_of-text (get "display_name" tok) display_name g;
          enrolled = stored;
          sealed = sealed;
          answer = a;
        }

    token_inversion :
        (ed_pub jti : String) (tok : Dict) (o : Option TokenRefusal × Store) (w : World)
        (p : String × String)
        → let (r, w') = after_token env b d now coord_priv ca_priv ca_cert ed_pub jti tok o w in
          r ≡ ok p → (o.0 ≡ none) × Places ed_pub jti tok o.1 w'.store p
    token_inversion ed_pub jti tok (some err, s) w p e = absurd (ground arith)
    token_inversion ed_pub jti tok (none, s) w p e =
        (refl, issue_inversion ed_pub jti tok _ (record w { store = s }) p refl e)

    -- The caller has shown that it holds the key, and this call has redeemed the token.
    pub record Redeems (tok : Dict) (s s' : Store) (p : String × String) : Type 0 where
      pub ed_pub : String
      pub pop_sig : Bytes
      pub jti : String
      pub loads_key : env.wire.public_key_from_pem b.ed25519_pub_pem ≡ some ed_pub
      pub decoded : env.wire.unhex b.pop_signature ≡ some pop_sig
      pub possessed :
          env.wire.verify ed_pub (build_enroll_pop env.wire b.token b.x25519_pub_pem) pop_sig ≡ true
      pub identified : get "jti" tok ≡ some (text jti)
      pub redeemed : (consume_enroll_token jti b.org_id now s).0 ≡ none
      pub places : Places ed_pub jti tok (consume_enroll_token jti b.org_id now s).1 s' p

    redeem_inversion :
        (ed_pub : String) (pop_sig : Bytes) (tok : Dict) (o : Option String) (w : World)
        (p : String × String)
        → env.wire.public_key_from_pem b.ed25519_pub_pem ≡ some ed_pub
        → env.wire.unhex b.pop_signature ≡ some pop_sig
        → env.wire.verify ed_pub (build_enroll_pop env.wire b.token b.x25519_pub_pem) pop_sig ≡ true
        → text_of (get "jti" tok) ≡ o
        → let (r, w') = redeem_token env b d now coord_priv ca_priv ca_cert ed_pub tok o w in
          r ≡ ok p → Redeems tok w.store w'.store p
    redeem_inversion ed_pub pop_sig tok none w p k u v g e = absurd (ground arith)
    redeem_inversion ed_pub pop_sig tok (some jti) w p k u v g e =
        let (free, places) =
          token_inversion ed_pub jti tok (consume_enroll_token jti b.org_id now w.store) w p e in
        record {
          ed_pub = ed_pub;
          pop_sig = pop_sig;
          jti = jti;
          loads_key = k;
          decoded = u;
          possessed = v;
          identified = text_of-text (get "jti" tok) jti g;
          redeemed = free;
          places = places;
        }

    possession_inversion :
        (ed_pub : String) (tok : Dict) (o : Option Bytes) (w : World) (p : String × String)
        → env.wire.public_key_from_pem b.ed25519_pub_pem ≡ some ed_pub
        → env.wire.unhex b.pop_signature ≡ o
        → let (r, w') = check_possession env b d now coord_priv ca_priv ca_cert ed_pub tok o w in
          r ≡ ok p → Redeems tok w.store w'.store p
    possession_inversion ed_pub tok none w p k u e = absurd (ground arith)
    possession_inversion ed_pub tok (some pop_sig) w p k u e =
        elim (Bool-cases
          (env.wire.verify ed_pub (build_enroll_pop env.wire b.token b.x25519_pub_pem) pop_sig)) [
            | inl y ↦ rw y (redeem_inversion ed_pub pop_sig tok _ w p k u y refl (rw y at e))
            | inr n ↦ absurd (ground (arith, n))
          ]

    x25519_inversion :
        (ed_pub : String) (tok : Dict) (o : Option String) (w : World) (p : String × String)
        → env.wire.public_key_from_pem b.ed25519_pub_pem ≡ some ed_pub
        → let (r, w') = check_x25519 env b d now coord_priv ca_priv ca_cert ed_pub tok o w in
          r ≡ ok p → Redeems tok w.store w'.store p
    x25519_inversion ed_pub tok none w p k e = absurd (ground arith)
    x25519_inversion ed_pub tok (some x) w p k e = possession_inversion ed_pub tok _ w p k refl e

    ed25519_inversion :
        (tok : Dict) (o : Option String) (w : World) (p : String × String)
        → env.wire.public_key_from_pem b.ed25519_pub_pem ≡ o
        → let (r, w') = check_ed25519 env b d now coord_priv ca_priv ca_cert tok o w in
          r ≡ ok p → Redeems tok w.store w'.store p
    ed25519_inversion tok none w p k e = absurd (ground arith)
    ed25519_inversion tok (some ed_pub) w p k e = x25519_inversion ed_pub tok _ w p k e

    -- The token is signed by the coordinator, for this organisation.
    pub record Bears (s s' : Store) (p : String × String) : Type 0 where
      pub att : Bytes
      pub sig : Bytes
      pub tok : Dict
      pub token_decodes : decode_token env b.token ≡ some (att, sig)
      pub signed : env.wire.verify (env.wire.public_of coord_priv) att sig ≡ true
      pub token_loads : env.wire.loads att ≡ object tok
      pub typed : get "type" tok ≡ some (text "fl.enroll_token.v1")
      pub bound : get "org_id" tok ≡ some (text b.org_id)
      pub redeems : Redeems tok s s' p

    pub loaded_inversion :
        (l : Loaded) (w : World) (p : String × String)
        → let (r, w') = check_loaded env b d now coord_priv ca_priv ca_cert l w in
          r ≡ ok p
          → (tok : Dict) × (l ≡ object tok)
            × (get "type" tok ≡ some (text "fl.enroll_token.v1"))
            × (get "org_id" tok ≡ some (text b.org_id))
            × Redeems tok w.store w'.store p
    loaded_inversion invalid w p e = absurd (ground arith)
    loaded_inversion other w p e = absurd (ground arith)
    loaded_inversion (object tok) w p e =
        elim (Bool-cases (is_text "fl.enroll_token.v1" (get "type" tok))) [
          | inr n ↦ absurd (ground (arith, n))
          | inl y ↦ elim (Bool-cases (is_text b.org_id (get "org_id" tok))) [
            | inr n ↦ absurd (ground (arith, y, n))
            | inl z ↦ (
              tok,
              refl,
              is_text-true _ (get "type" tok) y,
              is_text-true _ (get "org_id" tok) z,
              rw (y, z) (ed25519_inversion tok _ w p refl (rw (y, z) at e)),
            )
          ]
        ]
