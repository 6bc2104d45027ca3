-- ===== src/Mtls/Reenrolled.antt =====
-- coordinator/api.py with coordinator/mtls_middleware.py: a revoked certificate whose organisation
-- is enrolled again.
use threat_hunting_platform.Prelude.{
  ℕ, String, ◌≡◌, refl, Bool, true, false, none, some, Option, List, [], ◌∷◌, arith, some-injective,
  subst, All, All-append, Bool-cases, Option-cases, inl, inr, ◌==◌, string_Eq, nat_Eq, nat_eq, ap,
  ◌∙◌,
}
use threat_hunting_platform.Prelude.Table.{find, any, select, delete, All-delete, All-update}
use threat_hunting_platform.Store.Rows.{Org, Store, revoked, is_revoked}
use threat_hunting_platform.Store.Orgs.{
  has_id, get_org, list_revoked_serials, serials_of, set_org_status, enroll_org as insert_org,
  replace_org, enrolled_row, is_enrolled,
}
use threat_hunting_platform.Api.{Env, World, ok, audit_log}
use threat_hunting_platform.Api.Orgs.{revoke_org, regenerate_crl}
use threat_hunting_platform.Api.Orgs.Status.{
  with_status, revoke_org-store, set_org_status-get_org_ne,
}
use threat_hunting_platform.Api.Enroll.{EnrollOrgRequest, Drawn, Package, enroll_org}
use threat_hunting_platform.Api.Enroll.Operator.{enroll_org-Enrolled}
use threat_hunting_platform.Mtls.{
  Connection, Texts, presented, dev_header_allowed, extract_verified_org_id,
}
use threat_hunting_platform.Mtls.Membership.{accepted}
use threat_hunting_platform.Ca.{
  Crl, verify_cert_signed_by_ca, is_cert_expired, cert_org_id, Certificate, Key, build_crl,
  is_revoked as on_crl,
}

-- No row has the serial.
abbrev pub bears : ℕ → Option ℕ → Bool
bears n none = false
bears n (some m) = nat_eq n m

abbrev pub Without : ℕ → List Org → Type 0
Without n t = All (λ o. bears n o.cert_serial ≡ false) t

selected :
    (n : ℕ) (t : List Org)
    → Without n t
    → any (nat_eq n) (serials_of (select (λ o. is_revoked o.status) t)) ≡ false
unfolding find select
selected n [] h = refl
selected n (o ∷ t) h = elim (Bool-cases (is_revoked o.status)) [
  | inr other ↦ rw other (selected n t h.1)
  | inl gone ↦ elim (Option-cases o.cert_serial) [
    | inl bare ↦ rw (gone, bare) (selected n t h.1)
    | inr (m, e) ↦ rw (gone, e) (ground (arith, selected n t h.1, h.0, e))
  ]
]

unlisted :
    (c : Certificate) (n days now : ℕ) (l : List ℕ)
    → any (nat_eq n) l ≡ false
    → on_crl (build_crl c l days now) n ≡ false
unfolding build_crl on_crl find
unlisted c n days now [] h = refl
unlisted c n days now (m ∷ l) h = ground (arith, unlisted c n days now l)

-- An enrolment replaces the row of the organisation.
enroll_org-Without :
    (n serial : ℕ) (i name hash by : String) (key cert notes : Option String) (now : ℕ)
    (s s' : Store)
    → All (λ o. has_id i o ≡ false → bears n o.cert_serial ≡ false) s.orgs
    → bears n (some serial) ≡ false
    → insert_org i name hash by key cert (some serial) notes now s ≡ some s'
    → Without n s'.orgs
unfolding insert_org replace_org enrolled_row
enroll_org-Without n serial i name hash by key cert notes now s s' others new e =
    let P = λ (o : Org). bears n o.cert_serial ≡ false in
    elim (Bool-cases (is_enrolled (get_org i s))) [
      | inl taken ↦ absurd (ground (arith, taken))
      | inr free ↦
          subst (λ (z : Store). Without n z.orgs) (some-injective _ s' (rw free at e))
            (All-append P (delete (has_id i) s.orgs) _ (All-delete P (has_id i) s.orgs others)
              (new, tt))
    ]

revoke_org-unlisted :
    (env : Env) (j username : String) (now n : ℕ) (w : World) (o : Org) (k : Key) (c : Certificate)
    → get_org j w.store ≡ some o
    → env.ca_priv ≡ some k
    → env.ca_cert ≡ some c
    → Without n w.store.orgs
    → (l : Crl) × ((revoke_org env j username now w).1.crl ≡ some l) × (on_crl l n ≡ false)
unfolding revoke_org audit_log regenerate_crl list_revoked_serials set_org_status
revoke_org-unlisted env j username now n w o k c known priv cert without =
    let P = λ (o : Org). bears n o.cert_serial ≡ false in
    let rows = All-update P (has_id j) (with_status revoked) w.store.orgs (λ o h. h) without in
    rw (known, priv, cert) (_, refl, unlisted c n 30 now _ (selected n _ rows))

module _ (env : Env) (t : Texts) (r : Connection) (cert : Certificate) (b : EnrollOrgRequest)
    (d : Drawn) (username : String) (now : ℕ) (w : World) (p : Package)
    (e : (enroll_org env b username d now w).0 ≡ ok p) where
  -- A certificate that the CA has signed, not expired, names an organisation, and no other
  -- organisation has its serial: once an operator has enrolled that organisation, again or for the
  -- first time, under another serial, and a third one is revoked, the certificate identifies its
  -- bearer as the organisation, whether the revocation list had it before or not, when the header
  -- for tests is not allowed.
  pub reenrolled_accepts :
      (j : String) (now' now'' : ℕ) (o : Org) (k : Key) (c : Certificate)
      → let w' = (enroll_org env b username d now w).1 in
        (b.org_id == "") ≡ false
        → (j == b.org_id) ≡ false
        → env.ca_priv ≡ some k
        → env.ca_cert ≡ some c
        → get_org j w'.store ≡ some o
        → All
            (λ o.
              has_id b.org_id o ≡ false → bears cert.contents.serial_number o.cert_serial ≡ false)
            w.store.orgs
        → bears cert.contents.serial_number (some d.serial) ≡ false
        → dev_header_allowed env t ≡ false
        → presented env t r ≡ some cert
        → verify_cert_signed_by_ca env.x509 cert c ≡ true
        → is_cert_expired cert now'' ≡ false
        → cert_org_id cert ≡ some b.org_id
        → extract_verified_org_id env t r now'' (revoke_org env j username now' w').1
          ≡ some b.org_id
  unfolding enrolled_row
  reenrolled_accepts j now' now'' o k c real third priv loaded known others fresh off shown signed
        current named =
      let w' = (enroll_org env b username d now w).1 in
      let a = enroll_org-Enrolled env b username d now w p e in
      let n = cert.contents.serial_number in
      let without =
        enroll_org-Without n d.serial b.org_id _ _ _ _ _ _ now w.store w'.store others fresh
          a.stored in
      let (l, listed, free) =
        revoke_org-unlisted env j username now' n w' o k c known priv loaded without in
      let s = revoke_org-store env j username now' w' o known in
      let kept = set_org_status-get_org_ne j b.org_id revoked w'.store third in
      accepted env t r (revoke_org env j username now' w').1 now'' cert c b.org_id real _ off shown
        loaded signed current (rw (listed, free)) named (ap (get_org b.org_id) s ∙ kept ∙ a.known)
        refl
