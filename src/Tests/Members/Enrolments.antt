-- ===== src/Tests/Members/Enrolments.antt =====
-- coordinator/api.py: beta enrols itself with its token, and a token is minted.
use threat_hunting_platform.Attestation.{
  Dict, text, number, object, build_enroll_token_attestation, get,
}
use threat_hunting_platform.Store.Tokens.{create_enroll_token, consume_enroll_token}
use threat_hunting_platform.Store.Orgs.{get_org, is_enrolled, enroll_org}
use threat_hunting_platform.SealBox.{seal, x25519_public_from_pem}
use threat_hunting_platform.Prelude.Texts.{rsplit_dot}
use threat_hunting_platform.Prelude.{◌≡◌, refl, some, false, arith, [], ◌∷◌}
use threat_hunting_platform.Prelude.Table.{find}
use threat_hunting_platform.Ca.{
  Certificate, elliptic, issue_client_cert, sign_certificate, ca_sign_algorithm,
}
use threat_hunting_platform.Ca.Issued.{IsAuthority}
use threat_hunting_platform.Api.{Env, ok}
use threat_hunting_platform.Api.Enroll.{EnrollTokenRequest, Minted, token_text, mint_enroll_token}
use threat_hunting_platform.Api.Enroll.Minting.{Carries, Redeemable, mint_enroll_token-Redeemable}
use threat_hunting_platform.Api.SelfEnroll.{EnrollWithTokenRequest, enroll_with_token}
use threat_hunting_platform.Api.SelfEnroll.Membership.{Joins, enroll_with_token-Joins}
use threat_hunting_platform.Api.SelfEnroll.Unspent.{IsUnproven, Refuses, enroll_with_token-Refuses}
use threat_hunting_platform.Mtls.{extract_verified_org_id, presented, dev_header_allowed, is_listed}
use threat_hunting_platform.Mtls.Membership.{enroll_with_token-identifies}
use threat_hunting_platform.Tests.Requests.{ca_cert}
use threat_hunting_platform.Tests.Members.{env, texts, connection, world, beta, drawn}

joined : (enroll_with_token env beta drawn 5000 world).0 ≡ ok ("beta", "sealed")
unfolding enroll_with_token rsplit_dot get x25519_public_from_pem consume_enroll_token find
    enroll_org seal
joined = refl

enroll_with_token-Joins_example :
    Joins env beta drawn 5000 world.store
      (enroll_with_token env beta drawn 5000 world).1.store
      ("beta", "sealed")
enroll_with_token-Joins_example =
    enroll_with_token-Joins env beta drawn 5000 world ("beta", "sealed") joined

abbrev unproven : EnrollWithTokenRequest
unproven = record beta { pop_signature = "forged" }

unproven-IsUnproven : IsUnproven env unproven
unproven-IsUnproven = record {
  ed_pub = "beta_key";
  pop_sig = "forged";
  loads_key = refl;
  decoded = refl;
  refuted = refl;
}

enroll_with_token-Refuses_example : Refuses world (enroll_with_token env unproven drawn 5000 world)
enroll_with_token-Refuses_example =
    enroll_with_token-Refuses env unproven drawn 5000 unproven-IsUnproven world

-- the certificate that is issued to beta
abbrev beta_cert : Certificate
beta_cert =
    issue_client_cert env.x509 (elliptic "ca") ca_cert "beta_key" "beta" (some "Beta") 365 78 5000

-- the libraries read "beta" as that certificate
abbrev env_beta : Env
env_beta = record env { x509 = record env.x509 { load_der = λ b. some beta_cert } }

authority : IsAuthority env_beta.x509 (elliptic "ca") ca_cert
authority = record { halves = λ m. refl }

joined_beta : (enroll_with_token env_beta beta drawn 5000 world).0 ≡ ok ("beta", "sealed")
unfolding enroll_with_token rsplit_dot get x25519_public_from_pem consume_enroll_token find
    enroll_org seal
joined_beta = refl

no_header : dev_header_allowed env_beta texts ≡ false
unfolding dev_header_allowed
no_header = refl

shown :
    presented env_beta texts (connection "beta")
    ≡ some (
        issue_client_cert env_beta.x509
          (elliptic "ca")
          ca_cert
          "beta_key"
          "beta"
          (some "Beta")
          365
          78
          5000)
unfolding presented issue_client_cert sign_certificate ca_sign_algorithm
shown = refl

unlisted :
    is_listed env_beta texts (enroll_with_token env_beta beta drawn 5000 world).1.crl 78 ≡ false
unfolding enroll_with_token rsplit_dot get x25519_public_from_pem consume_enroll_token find
    enroll_org seal
unlisted = refl

enroll_with_token-identifies_example :
    extract_verified_org_id env_beta texts
      (connection "beta")
      6000
      (enroll_with_token env_beta beta drawn 5000 world).1
    ≡ some "beta"
enroll_with_token-identifies_example =
    enroll_with_token-identifies env_beta beta drawn 5000 world ("beta", "sealed") texts
      (connection "beta") 6000 (elliptic "ca") ca_cert "beta_key" (some "Beta") joined_beta refl
      refl authority no_header shown unlisted (omega arith) (omega arith)

abbrev request : EnrollTokenRequest
request = record { org_id = "gamma"; display_name = "Gamma"; ttl_minutes = 60 }

abbrev token : Dict
token =
    ("type", text "fl.enroll_token.v1")
    ∷ ("org_id", text "gamma")
    ∷ ("display_name", text "Gamma")
    ∷ ("jti", text "other")
    ∷ ("expires_at", number 3605000)
    ∷ []

-- the libraries read every text as the token of gamma
abbrev env_minting : Env
env_minting = record env { wire = record env.wire { loads = λ b. object token } }

abbrev minted : Minted
minted = record {
  token = "canonical.signed";
  org_id = "gamma";
  ca_sha256 = "certificate";
  expires_at = 3605000;
}

was_minted : (mint_enroll_token env_minting request "root" "other" 5000 world).0 ≡ ok minted
unfolding mint_enroll_token is_enrolled get_org find create_enroll_token
    build_enroll_token_attestation
was_minted = refl

carries : Carries env_minting request "root" "other" 5000 "coordinator"
unfolding token_text rsplit_dot
carries = record {
  decodes = refl;
  undotted = refl;
  unhex = refl;
  verifies = refl;
  tok = token;
  loads = refl;
  same = λ k. refl;
}

mint_enroll_token-Redeemable_example :
    Redeemable env_minting request "root" "other" 5000 "coordinator" "canonical.signed" 3605000 9000
      (mint_enroll_token env_minting request "root" "other" 5000 world).1.store
mint_enroll_token-Redeemable_example =
    mint_enroll_token-Redeemable env_minting request "root" "other" 5000 "coordinator" world minted
      9000 carries refl was_minted refl
