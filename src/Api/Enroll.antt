-- ===== src/Api/Enroll.antt =====
-- coordinator/api.py: an operator enrols an organisation, or makes a token with which it enrols
-- itself. What is drawn at random is an argument.
pub mod Minting
pub mod Operator
use threat_hunting_platform.Prelude.{
  ℕ, ◌+◌, ◌*◌, String, Bytes, ◌<>◌, Option, none, some, List, [], ◌∷◌, if◌then◌else◌,
}
use threat_hunting_platform.Prelude.Int.{pos}
use threat_hunting_platform.Store.Rows.{Store}
use threat_hunting_platform.Store.Orgs as Orgs
use threat_hunting_platform.Store.Orgs.{get_org, is_enrolled}
use threat_hunting_platform.Store.Tokens.{create_enroll_token}
use threat_hunting_platform.Attestation.{text, int, Dict, build_enroll_token_attestation}
use threat_hunting_platform.Ca.{Key, Certificate, issue_client_cert}
use threat_hunting_platform.Api.{Env, World, Reply, ok, fail, audit_log}

pub record EnrollOrgRequest : Type 0 where
  pub org_id : String
  pub display_name : String
  pub public_key_pem : String
  pub notes : Option String

-- What the coordinator hands to an organisation.
pub record Package : Type 0 where
  pub org_id : String
  pub api_key : String
  pub client_cert_pem : Bytes
  pub ca_cert_pem : Bytes
  pub coordinator_pub_pem : String
  pub cert_serial : ℕ

pub record EnrollTokenRequest : Type 0 where
  pub org_id : String
  pub display_name : String
  pub ttl_minutes : ℕ

pub record Minted : Type 0 where
  pub token : String
  pub org_id : String
  pub ca_sha256 : String
  pub expires_at : ℕ

-- The serial, the API key and the ephemeral key of a box.
pub record Drawn : Type 0 where
  pub serial : ℕ
  pub api_key : String
  pub ephemeral : String

module _ (env : Env) where
  abbrev pub package_of : String → Certificate → Certificate → Drawn → String → Package
  package_of coord_priv ca_cert cert d org_id = record {
    org_id = org_id;
    api_key = d.api_key;
    client_cert_pem = env.x509.to_pem cert;
    ca_cert_pem = env.x509.to_pem ca_cert;
    coordinator_pub_pem = env.wire.public_key_to_pem (env.wire.public_of coord_priv);
    cert_serial = d.serial;
  }

  module _ (b : EnrollOrgRequest) (username : String) (d : Drawn) (now : ℕ) where
    -- A missing signing key raises once the organisation is enrolled.
    abbrev pub hand_out : Option String → Certificate → Certificate → World → Reply Package × World
    hand_out none ca_cert cert w = (fail 500, w)
    hand_out (some coord_priv) ca_cert cert w =
        (ok (package_of coord_priv ca_cert cert d b.org_id), w)

    abbrev pub log_enrolled :
        Certificate → Certificate → Option Store → World → Reply Package × World
    log_enrolled ca_cert cert none w = (fail 409, w)
    log_enrolled ca_cert cert (some s) w = hand_out env.coord_priv ca_cert cert (
        audit_log env "fl.org.enroll" username b.org_id
          (("display_name", text b.display_name)
            ∷ ("cert_serial", text (env.show_number d.serial))
            ∷ ("pub_key_sha256", text (env.short (env.wire.sha256 b.public_key_pem)))
            ∷ [])
          now (record w { store = s }))

    abbrev pub enroll_certified :
        String → Option Key → Option Certificate → World → Reply Package × World
    enroll_certified org_pub (some ca_priv) (some ca_cert) w =
        let cert =
          issue_client_cert env.x509 ca_priv ca_cert org_pub b.org_id (some b.display_name) 365
            d.serial now in
        log_enrolled ca_cert cert
          (Orgs.enroll_org b.org_id b.display_name (env.tokens.sha256 d.api_key) username
            (some b.public_key_pem) (some (env.x509.to_pem cert)) (some d.serial) b.notes now
            w.store)
          w
    enroll_certified org_pub _ _ w = (fail 503, w)

    abbrev pub enroll_key : Option String → World → Reply Package × World
    enroll_key none w = (fail 400, w)
    enroll_key (some org_pub) w = enroll_certified org_pub env.ca_priv env.ca_cert w

    unfoldable pub enroll_org : World → Reply Package × World
    unfolding audit_log
    enroll_org w = enroll_key (env.wire.public_key_from_pem b.public_key_pem) w

  module _ (b : EnrollTokenRequest) (username jti : String) (now : ℕ) where
    abbrev pub expires : ℕ
    expires = now + b.ttl_minutes * 60000

    -- the signed bytes, a dot, and the signature in hexadecimal
    unfoldable pub token_text : String → String
    token_text coord_priv =
        let att = build_enroll_token_attestation env.wire b.org_id b.display_name jti expires in
        env.urlsafe_b64encode (att <> "." <> env.wire.hex (env.wire.sign coord_priv att))

    abbrev pub log_minted : String → Certificate → Option Store → World → Reply Minted × World
    log_minted token ca_cert none w = (fail 500, w)
    log_minted token ca_cert (some s) w = (
      ok (record {
        token = token;
        org_id = b.org_id;
        ca_sha256 = env.wire.sha256 (env.x509.to_pem ca_cert);
        expires_at = expires;
      }),
      audit_log env "fl.org.enroll_token" username b.org_id
          (("jti", text jti) ∷ ("ttl_minutes", int (pos b.ttl_minutes)) ∷ []) now
          (record w { store = s }),
    )

    abbrev pub mint_signed : Option String → Option Certificate → World → Reply Minted × World
    mint_signed (some coord_priv) (some ca_cert) w =
        log_minted (token_text coord_priv) ca_cert
          (create_enroll_token jti b.org_id b.display_name expires now w.store) w
    mint_signed _ _ w = (fail 503, w)

    unfoldable pub mint_enroll_token : World → Reply Minted × World
    unfolding audit_log token_text
    mint_enroll_token w =
        if is_enrolled (get_org b.org_id w.store)
        then (fail 409, w)
        else mint_signed env.coord_priv env.ca_cert w
