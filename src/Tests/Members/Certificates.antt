-- ===== src/Tests/Members/Certificates.antt =====
-- coordinator/mtls_middleware.py: the certificate of acme, before and after acme is revoked, and
-- after it is enrolled again.
use threat_hunting_platform.Prelude.{◌≡◌, ◌≢◌, refl, none, some, [], ◌∷◌, true, false}
use threat_hunting_platform.Prelude.Table.{find, delete}
use threat_hunting_platform.Store.Rows.{revoked}
use threat_hunting_platform.Store.Orgs.{get_org, replace_org, enroll_org as insert_org, is_enrolled}
use threat_hunting_platform.Ca.{cert_org_id, is_cert_expired, verify_cert_signed_by_ca, elliptic}
use threat_hunting_platform.Api.{World, ok}
use threat_hunting_platform.Api.Auth.{Credentials}
use threat_hunting_platform.Api.Orgs.{revoke_org}
use threat_hunting_platform.Api.Orgs.Status.{with_status}
use threat_hunting_platform.Api.Enroll.{EnrollOrgRequest, Package, enroll_org}
use threat_hunting_platform.Mtls.{extract_verified_org_id, identify, presented, dev_header_allowed}
use threat_hunting_platform.Mtls.Identity.{Identity, extract_verified_org_id-Identity}
use threat_hunting_platform.Mtls.Revocation.{identify-revoke_org}
use threat_hunting_platform.Mtls.Reenrolled.{reenrolled_accepts}
use threat_hunting_platform.Tests.Requests.{acme, ca_cert}
use threat_hunting_platform.Tests.Members.{env, texts, connection, world, acme_cert, drawn}

identified : extract_verified_org_id env texts (connection "acme") 5000 world ≡ some "acme"
unfolding extract_verified_org_id verify_cert_signed_by_ca is_cert_expired cert_org_id get_org find
identified = refl

extract_verified_org_id-Identity_example : Identity env texts (connection "acme") 5000 world "acme"
extract_verified_org_id-Identity_example =
    extract_verified_org_id-Identity env texts (connection "acme") 5000 world "acme" identified

known : get_org "acme" world.store ≡ some acme
unfolding get_org find
known = refl

no_header : dev_header_allowed env texts ≡ false
unfolding dev_header_allowed
no_header = refl

abbrev credentials : Credentials
credentials = record { bearer = none; fl_session = none; api_key = some "key"; mtls_org_id = none }

identify-revoke_org_example :
    identify env texts
      (connection "acme")
      credentials
      6000
      (revoke_org env "acme" "root" 5000 world).1
    ≢ ok "acme"
identify-revoke_org_example =
    identify-revoke_org env "acme" "root" 5000 world acme known texts (connection "acme")
      credentials 6000 no_header refl

-- acme is revoked, and gamma is not
abbrev world_revoked : World
world_revoked = record world {
  store = record world.store {
    orgs = with_status revoked acme ∷ record acme { org_id = "gamma"; cert_serial = none } ∷ [];
  };
}

abbrev again : EnrollOrgRequest
again = record { org_id = "acme"; display_name = "Acme"; public_key_pem = "acme_key"; notes = none }

abbrev handed : Package
handed = record {
  org_id = "acme";
  api_key = "beta_api_key";
  client_cert_pem = "certificate";
  ca_cert_pem = "certificate";
  coordinator_pub_pem = "coordinator";
  cert_serial = 78;
}

enrolled : (enroll_org env again "root" drawn 6000 world_revoked).0 ≡ ok handed
unfolding enroll_org get_org find insert_org is_enrolled
enrolled = refl

gamma_known :
    get_org "gamma" (enroll_org env again "root" drawn 6000 world_revoked).1.store
    ≡ some (record acme { org_id = "gamma"; cert_serial = none })
unfolding enroll_org get_org find insert_org is_enrolled replace_org delete
gamma_known = refl

shown : presented env texts (connection "acme") ≡ some acme_cert
unfolding presented
shown = refl

signed : verify_cert_signed_by_ca env.x509 acme_cert ca_cert ≡ true
unfolding verify_cert_signed_by_ca
signed = refl

current : is_cert_expired acme_cert 8000 ≡ false
unfolding is_cert_expired
current = refl

named : cert_org_id acme_cert ≡ some "acme"
unfolding cert_org_id
named = refl

reenrolled_accepts_example :
    let w' = (enroll_org env again "root" drawn 6000 world_revoked).1 in
    extract_verified_org_id env texts
      (connection "acme")
      8000
      (revoke_org env "gamma" "root" 7000 w').1
    ≡ some "acme"
reenrolled_accepts_example =
    reenrolled_accepts env texts (connection "acme") acme_cert again drawn "root" 6000 world_revoked
      handed enrolled "gamma" 7000 8000 (record acme { org_id = "gamma"; cert_serial = none })
      (elliptic "ca") ca_cert refl refl refl refl gamma_known (λ h. h, (λ h. refl, tt)) refl
      no_header shown signed current named
