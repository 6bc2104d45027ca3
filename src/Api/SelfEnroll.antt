-- ===== src/Api/SelfEnroll.antt =====
-- coordinator/api.py: `enroll_with_token`, an organisation that enrols itself. A field of the token
-- that is no text is taken for a missing one: the coordinator signs texts only.
pub mod Enrolled
pub mod Membership
pub mod Unspent
pub mod Puts
use threat_hunting_platform.Prelude.{
  ℕ, String, Bytes, ◌<>◌, Bool, not, Option, none, some, List, [], ◌∷◌, ◌==◌, string_Eq, nat_Eq,
  if◌then◌else◌,
}
use threat_hunting_platform.Prelude.Texts.{rsplit_dot}
use threat_hunting_platform.Store.Rows.{Store}
use threat_hunting_platform.Store.Orgs.{enroll_org}
use threat_hunting_platform.Store.Tokens.{TokenRefusal, consume_enroll_token}
use threat_hunting_platform.Attestation.{
  Value, text, Dict, get, Loaded, invalid, other, object, build_enroll_pop,
}
use threat_hunting_platform.Client.{is_text}
use threat_hunting_platform.Ca.{Key, Certificate, issue_client_cert}
use threat_hunting_platform.SealBox.{x25519_public_from_pem, seal}
use threat_hunting_platform.Api.{Env, World, Reply, ok, fail, audit_log}
use threat_hunting_platform.Api.Enroll.{Drawn, Package, package_of}

pub record EnrollWithTokenRequest : Type 0 where
  pub token : String
  pub org_id : String
  pub ed25519_pub_pem : String
  pub x25519_pub_pem : String
  pub pop_signature : String

abbrev pub text_of : Option Value → Option String
text_of (some (text t)) = some t
text_of _ = none

module _ (env : Env) where
  -- the package as JSON, in octets
  unfoldable pub package_octets : Package → List ℕ
  package_octets p = env.box.encode (
      env.wire.dumps (
        ("org_id", text p.org_id)
        ∷ ("api_key", text p.api_key)
        ∷ ("client_cert_pem", text p.client_cert_pem)
        ∷ ("ca_cert_pem", text p.ca_cert_pem)
        ∷ ("coordinator_pub_pem", text p.coordinator_pub_pem)
        ∷ ("cert_serial", text (env.show_number p.cert_serial))
        ∷ []))

  abbrev with_signature : Bytes → Option Bytes → Option (Bytes × Bytes)
  with_signature att none = none
  with_signature att (some sig) = some (att, sig)

  abbrev decode_signature : Option (Bytes × String) → Option (Bytes × Bytes)
  decode_signature none = none
  decode_signature (some (att, sig_hex)) = with_signature att (env.wire.unhex sig_hex)

  abbrev decode_raw : Option Bytes → Option (Bytes × Bytes)
  decode_raw none = none
  decode_raw (some raw) = decode_signature (rsplit_dot raw)

  -- the signed bytes of a token, and the signature
  unfoldable pub decode_token : String → Option (Bytes × Bytes)
  decode_token token = decode_raw (env.urlsafe_b64decode token)

  module _ (b : EnrollWithTokenRequest) (d : Drawn) (now : ℕ) where
    module _ (coord_priv : String) (ca_priv : Key) (ca_cert : Certificate) where
      -- 5
      abbrev pub seal_package : String → Option String → World → Reply (String × String) × World
      seal_package jti none w = (fail 500, w)
      seal_package jti (some sealed) w = (
        ok (b.org_id, sealed),
        audit_log env "fl.org.self_enrolled" (env.show_org b.org_id) b.org_id
            (("jti", text jti) ∷ ("cert_serial", text (env.show_number d.serial)) ∷ []) now w,
      )

      abbrev pub store_org :
          String → Certificate → Option Store → World → Reply (String × String) × World
      store_org jti cert none w = (fail 409, w)
      store_org jti cert (some s) w =
          seal_package jti
            (seal env.box d.ephemeral (env.box.encode b.x25519_pub_pem)
              (package_octets (package_of env coord_priv ca_cert cert d b.org_id)))
            (record w { store = s })

      abbrev pub certificate : String → String → Certificate
      certificate ed_pub display_name =
          issue_client_cert env.x509 ca_priv ca_cert ed_pub b.org_id (some display_name) 365
            d.serial now

      -- 4: the token is spent already
      abbrev pub issue : String → String → Option String → World → Reply (String × String) × World
      issue ed_pub jti none w = (fail 500, w)
      issue ed_pub jti (some display_name) w =
          let cert = certificate ed_pub display_name in
          store_org jti cert
            (enroll_org b.org_id display_name (env.tokens.sha256 d.api_key) ("self:token:" <> jti)
              (some b.ed25519_pub_pem) (some (env.x509.to_pem cert)) (some d.serial) none now
              w.store)
            w

      abbrev pub after_token :
          String
          → String
          → Dict
          → Option TokenRefusal × Store
          → World
          → Reply (String × String) × World
      after_token ed_pub jti tok (some err, s) w = (fail 403, record w { store = s })
      after_token ed_pub jti tok (none, s) w =
          issue ed_pub jti (text_of (get "display_name" tok)) (record w { store = s })

      -- 3
      abbrev pub redeem_token :
          String → Dict → Option String → World → Reply (String × String) × World
      redeem_token ed_pub tok none w = (fail 500, w)
      redeem_token ed_pub tok (some jti) w =
          after_token ed_pub jti tok (consume_enroll_token jti b.org_id now w.store) w

      -- 2
      abbrev pub check_possession :
          String → Dict → Option Bytes → World → Reply (String × String) × World
      check_possession ed_pub tok none w = (fail 400, w)
      check_possession ed_pub tok (some pop_sig) w =
          if not
            (env.wire.verify ed_pub (build_enroll_pop env.wire b.token b.x25519_pub_pem) pop_sig)
          then (fail 403, w)
          else redeem_token ed_pub tok (text_of (get "jti" tok)) w

      abbrev pub check_x25519 :
          String → Dict → Option String → World → Reply (String × String) × World
      check_x25519 ed_pub tok none w = (fail 400, w)
      check_x25519 ed_pub tok (some x) w =
          check_possession ed_pub tok (env.wire.unhex b.pop_signature) w

      abbrev pub check_ed25519 : Dict → Option String → World → Reply (String × String) × World
      check_ed25519 tok none w = (fail 400, w)
      check_ed25519 tok (some ed_pub) w =
          check_x25519 ed_pub tok (x25519_public_from_pem env.box (env.box.encode b.x25519_pub_pem))
            w

      -- 1
      abbrev pub check_loaded : Loaded → World → Reply (String × String) × World
      check_loaded invalid w = (fail 400, w)
      check_loaded other w = (fail 500, w)
      check_loaded (object tok) w =
          if not (is_text "fl.enroll_token.v1" (get "type" tok))
          then (fail 400, w)
          else if not (is_text b.org_id (get "org_id" tok))
          then (fail 400, w)
          else check_ed25519 tok (env.wire.public_key_from_pem b.ed25519_pub_pem) w

      abbrev pub check_token : Option (Bytes × Bytes) → World → Reply (String × String) × World
      check_token none w = (fail 400, w)
      check_token (some (att, sig)) w =
          if not (env.wire.verify (env.wire.public_of coord_priv) att sig)
          then (fail 403, w)
          else check_loaded (env.wire.loads att) w

    abbrev pub with_keys :
        Option String → Option Key → Option Certificate → World → Reply (String × String) × World
    with_keys (some coord_priv) (some ca_priv) (some ca_cert) w =
        check_token coord_priv ca_priv ca_cert (decode_token b.token) w
    with_keys _ _ _ w = (fail 503, w)

    unfoldable pub enroll_with_token : World → Reply (String × String) × World
    unfolding audit_log package_octets decode_token
    enroll_with_token w = with_keys env.coord_priv env.ca_priv env.ca_cert w
