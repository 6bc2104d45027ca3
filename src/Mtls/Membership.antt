-- ===== src/Mtls/Membership.antt =====
-- coordinator/api.py with coordinator/mtls_middleware.py: the certificate that an organisation is
-- given when it enrols itself.
use threat_hunting_platform.Prelude.{
  ℕ, ◌+◌, ◌*◌, ◌≤◌, String, ◌≡◌, refl, true, false, Option, some, ◌==◌, string_Eq,
}
use threat_hunting_platform.Store.Rows.{Org, active}
use threat_hunting_platform.Store.Orgs.{get_org}
use threat_hunting_platform.Ca.{
  issue_client_cert, sign_certificate, Key, Certificate, day, cert_org_id, verify_cert_signed_by_ca,
  is_cert_expired,
}
use threat_hunting_platform.Ca.Issued.{IsAuthority, issue_client_cert-Accepted}
use threat_hunting_platform.Api.{Env, World, ok}
use threat_hunting_platform.Api.Enroll.{Drawn}
use threat_hunting_platform.Api.SelfEnroll.{EnrollWithTokenRequest, enroll_with_token}
use threat_hunting_platform.Api.SelfEnroll.Membership.{enroll_with_token-Member}
use threat_hunting_platform.Mtls.{
  Connection, Texts, presented, dev_header_allowed, is_listed, extract_verified_org_id,
}

module _ (env : Env) (t : Texts) (r : Connection) (w : World) (now : ℕ) (cert ca : Certificate)
    (i : String) (real : (i == "") ≡ false) where
  -- a certificate that passes every check
  pub accepted :
      (o : Org)
      → dev_header_allowed env t ≡ false
      → presented env t r ≡ some cert
      → env.ca_cert ≡ some ca
      → verify_cert_signed_by_ca env.x509 cert ca ≡ true
      → is_cert_expired cert now ≡ false
      → is_listed env t w.crl cert.contents.serial_number ≡ false
      → cert_org_id cert ≡ some i
      → get_org i w.store ≡ some o
      → o.status ≡ active
      → extract_verified_org_id env t r now w ≡ some i
  unfolding extract_verified_org_id
  accepted o off shown loaded signed current unlisted named known live =
      rw (off, shown, loaded, signed, current, unlisted, named, real, known, live) refl

-- A certificate as a self-enrolment that has succeeded, for a name that is not empty, issues it, for
-- any key and display name, identifies its bearer as the organisation from then until a second
-- before its 365 days are over, as long as nothing else happens, if its serial is not on the
-- revocation list, the CA's key, Ed25519 or elliptic-curve, is the one that the CA's certificate is
-- for, and the header for tests is not allowed.
pub enroll_with_token-identifies :
    (env : Env) (b : EnrollWithTokenRequest) (d : Drawn) (now : ℕ) (w : World) (p : String × String)
    (t : Texts) (r : Connection) (now' : ℕ) (ca_priv : Key) (ca_cert : Certificate)
    (ed_pub : String) (display_name : Option String)
    → let (reply, w') = enroll_with_token env b d now w in
      reply ≡ ok p
      → (b.org_id == "") ≡ false
      → env.ca_cert ≡ some ca_cert
      → IsAuthority env.x509 ca_priv ca_cert
      → dev_header_allowed env t ≡ false
      → presented env t r
        ≡ some (
            issue_client_cert env.x509 ca_priv ca_cert ed_pub b.org_id display_name 365 d.serial
              now)
      → is_listed env t w'.crl d.serial ≡ false
      → now ≤ now'
      → now' + 1000 ≤ now + 365 * day
      → extract_verified_org_id env t r now' w' ≡ some b.org_id
unfolding issue_client_cert sign_certificate
enroll_with_token-identifies env b d now w p t r now' ca_priv ca_cert ed_pub display_name e real
      loaded authority off shown unlisted from until =
    let w' = (enroll_with_token env b d now w).1 in
    let cert =
      issue_client_cert env.x509 ca_priv ca_cert ed_pub b.org_id display_name 365 d.serial now in
    let (signed, named, current) =
      issue_client_cert-Accepted env.x509 ca_priv ca_cert ed_pub b.org_id display_name 365 d.serial
        now now' authority from until in
    let m = enroll_with_token-Member env b d now w p e in
    accepted env t r w' now' cert ca_cert b.org_id real m.row off shown loaded signed current
      unlisted named m.known m.is_live
