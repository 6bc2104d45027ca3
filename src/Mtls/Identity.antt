-- ===== src/Mtls/Identity.antt =====
-- coordinator/mtls_middleware.py: what a request must bring to be given an identity.
use threat_hunting_platform.Prelude.{
  ℕ, String, ◌≡◌, refl, Bool, true, false, Option, none, some, arith, subst, if◌then◌else◌,
}
use threat_hunting_platform.Store.Rows.{Org, Store, is_active}
use threat_hunting_platform.Store.Orgs.{get_org, nonempty}
use threat_hunting_platform.Ca.{Certificate, verify_cert_signed_by_ca, is_cert_expired, cert_org_id}
use threat_hunting_platform.Api.{Env, World}
use threat_hunting_platform.Mtls.{
  Connection, Texts, presented, dev_header_allowed, is_listed, check_org, check_name, check_cert,
  check_presented, extract_verified_org_id, either,
}

-- an organisation that is known and active
pub record Active (s : Store) (i : String) : Type 0 where
  pub org : Org
  pub known : get_org i s ≡ some org
  pub is_live : is_active org.status ≡ true

check_org-Active :
    (env : Env) (t : Texts) (i j : String) (o : Option Org) (s : Store)
    → get_org i s ≡ o
    → check_org env t i o ≡ some j
    → (i ≡ j) × Active s i
check_org-Active env t i j none s k e = absurd (ground arith)
check_org-Active env t i j (some o) s k e =
    (ground arith, record { org = o; known = k; is_live = ground arith })

pub nonempty-some : (o : Option String) (i : String) → nonempty o ≡ some i → o ≡ some i
nonempty-some none i e = absurd (ground arith)
nonempty-some (some t) i e = ground arith

module _ (env : Env) (t : Texts) where
  -- A certificate that is signed by the CA, not expired, not revoked, and names an active
  -- organisation.
  pub record Certified (cert : Certificate) (now : ℕ) (w : World) (i : String) : Type 0 where
    pub authority : Certificate
    pub loaded : env.ca_cert ≡ some authority
    pub signed : verify_cert_signed_by_ca env.x509 cert authority ≡ true
    pub current : is_cert_expired cert now ≡ false
    pub unlisted : is_listed env t w.crl cert.contents.serial_number ≡ false
    pub named : cert_org_id cert ≡ some i
    pub active : Active w.store i

  check_name-Active :
      (n m : Option String) (i : String) (s : Store)
      → nonempty n ≡ m
      → check_name env t m s ≡ some i
      → (n ≡ some i) × Active s i
  check_name-Active n none i s g e = absurd (ground arith)
  check_name-Active n (some j) i s g e =
      let (same, live) = check_org-Active env t j i (get_org j s) s refl e in
      (nonempty-some n i (ground (arith, same, g)), subst (λ x. Active s x) same live)

  check_cert-Certified :
      (cert : Certificate) (ca : Option Certificate) (now : ℕ) (w : World) (i : String)
      → env.ca_cert ≡ ca
      → check_cert env t cert ca now w ≡ some i
      → Certified cert now w i
  check_cert-Certified cert none now w i l e = absurd (ground arith)
  check_cert-Certified cert (some ca) now w i l e =
      let signed : verify_cert_signed_by_ca env.x509 cert ca ≡ true = ground arith in
      let current : is_cert_expired cert now ≡ false = ground arith in
      let unlisted : is_listed env t w.crl cert.contents.serial_number ≡ false = ground arith in
      let (named, live) =
        check_name-Active (cert_org_id cert) (nonempty (cert_org_id cert)) i w.store refl
          (rw (signed, current, unlisted) at e) in
      record {
        authority = ca;
        loaded = l;
        signed = signed;
        current = current;
        unlisted = unlisted;
        named = named;
        active = live;
      }

  -- Where an identity comes from: the header for tests, where it is allowed, or a certificate.
  pub data Identity (r : Connection) (now : ℕ) (w : World) (i : String) : Type 0 where
    by_header :
        dev_header_allowed env t ≡ true → nonempty r.dev_mtls_org_id ≡ some i → Identity r now w i
    by_cert :
        (cert : Certificate)
        → presented env t r ≡ some cert
        → Certified cert now w i
        → Identity r now w i

  checked-Identity :
      (r : Connection) (cert : Option Certificate) (now : ℕ) (w : World) (i : String)
      → presented env t r ≡ cert
      → check_presented env t cert now w ≡ some i
      → Identity r now w i
  checked-Identity r none now w i p e = absurd (ground arith)
  checked-Identity r (some cert) now w i p e =
      by_cert cert p (check_cert-Certified cert env.ca_cert now w i refl e)

  headed-Identity :
      (r : Connection) (b : Bool) (h : Option String) (now : ℕ) (w : World) (i : String)
      → dev_header_allowed env t ≡ b
      → nonempty r.dev_mtls_org_id ≡ h
      → either (if b then h else none) (check_presented env t (presented env t r) now w) ≡ some i
      → Identity r now w i
  headed-Identity r true (some j) now w i a g e = by_header a (ground arith)
  headed-Identity r true none now w i a g e = checked-Identity r (presented env t r) now w i refl e
  headed-Identity r false h now w i a g e = checked-Identity r (presented env t r) now w i refl e

  -- Whoever the middleware identifies a request with is named by the header for tests, where the
  -- environment allows it, or by a certificate that the request presents; the CA has signed it, it
  -- is neither expired nor on the revocation list, and the organisation that it names is active.
  pub extract_verified_org_id-Identity :
      (r : Connection) (now : ℕ) (w : World) (i : String)
      → extract_verified_org_id env t r now w ≡ some i
      → Identity r now w i
  unfolding extract_verified_org_id
  extract_verified_org_id-Identity r now w i e =
      headed-Identity r (dev_header_allowed env t) (nonempty r.dev_mtls_org_id) now w i refl refl e
