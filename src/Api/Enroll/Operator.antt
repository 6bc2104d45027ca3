-- ===== src/Api/Enroll/Operator.antt =====
-- coordinator/api.py: an organisation that an operator enrols.
use threat_hunting_platform.Prelude.{
  ℕ, String, ◌≡◌, refl, ap, sym, false, Option, none, some, arith,
}
use threat_hunting_platform.Store.Rows.{Store}
use threat_hunting_platform.Store.Orgs as Orgs
use threat_hunting_platform.Store.Orgs.{get_org, is_enrolled, enrolled_row}
use threat_hunting_platform.Store.Orgs.Trust.{
  enroll_org-get_org, Puts, enroll_org-Puts as insert-Puts,
}
use threat_hunting_platform.Ca.{Key, Certificate, issue_client_cert}
use threat_hunting_platform.Api.{Env, World, ok, ok_eq, audit_log}
use threat_hunting_platform.Api.Enroll.{
  EnrollOrgRequest, Package, Drawn, package_of, hand_out, log_enrolled, enroll_certified,
  enroll_key, enroll_org,
}

module _ (env : Env) (b : EnrollOrgRequest) (username : String) (d : Drawn) (now : ℕ) where
  -- The row of the organisation, and the package that goes with it.
  pub record Enrolled (s s' : Store) (p : Package) : Type 0 where
    pub ca_priv : Key
    pub ca_cert : Certificate
    pub org_pub : String
    pub has_ca : env.ca_priv ≡ some ca_priv
    pub has_cert : env.ca_cert ≡ some ca_cert
    pub loads_key : env.wire.public_key_from_pem b.public_key_pem ≡ some org_pub
    pub free : is_enrolled (get_org b.org_id s) ≡ false
    pub stored :
        Orgs.enroll_org b.org_id b.display_name
          (env.tokens.sha256 d.api_key)
          username
          (some b.public_key_pem)
          (some p.client_cert_pem)
          (some d.serial)
          b.notes
          now
          s
        ≡ some s'
    pub known :
        get_org b.org_id s'
        ≡ some (
            enrolled_row b.org_id b.display_name
              (env.tokens.sha256 p.api_key)
              username
              (some b.public_key_pem)
              (some p.client_cert_pem)
              (some p.cert_serial)
              b.notes
              now)
    pub certified :
        p.client_cert_pem
        ≡ env.x509.to_pem (
            issue_client_cert env.x509 ca_priv ca_cert org_pub b.org_id
              (some b.display_name)
              365
              d.serial
              now)

  handed :
      (o : Option String) (ca_cert cert : Certificate) (w : World) (p : Package)
      → let (r, w') = hand_out env b username d now o ca_cert cert w in
        r ≡ ok p
        → (p.client_cert_pem ≡ env.x509.to_pem cert)
          × (p.api_key ≡ d.api_key)
          × (p.cert_serial ≡ d.serial)
          × (w'.store ≡ w.store)
  handed none ca_cert cert w p e = absurd (ground arith)
  handed (some k) ca_cert cert w p e =
      let same = ok_eq (package_of env k ca_cert cert d b.org_id) p e in
      (
        ap (λ (q : Package). q.client_cert_pem) (sym same),
        ap (λ (q : Package). q.api_key) (sym same),
        ap (λ (q : Package). q.cert_serial) (sym same),
        refl,
      )

  logged :
      (ca_cert cert : Certificate) (o : Option Store) (w : World) (p : Package)
      → let (r, w') = log_enrolled env b username d now ca_cert cert o w in
        r ≡ ok p
        → (o ≡ some w'.store)
          × (p.client_cert_pem ≡ env.x509.to_pem cert)
          × (p.api_key ≡ d.api_key)
          × (p.cert_serial ≡ d.serial)
  unfolding audit_log
  logged ca_cert cert none w p e = absurd (ground arith)
  logged ca_cert cert (some s) w p e =
      let (pem, key, serial, same) = handed env.coord_priv ca_cert cert _ p e in
      (ap (λ t. some t) (sym same), pem, key, serial)

  certified-Enrolled :
      (org_pub : String) (k : Option Key) (c : Option Certificate) (w : World) (p : Package)
      → env.wire.public_key_from_pem b.public_key_pem ≡ some org_pub
      → env.ca_priv ≡ k
      → env.ca_cert ≡ c
      → let (r, w') = enroll_certified env b username d now org_pub k c w in
        r ≡ ok p → Enrolled w.store w'.store p
  certified-Enrolled org_pub none c w p l x y e = absurd (ground arith)
  certified-Enrolled org_pub (some k) none w p l x y e = absurd (ground arith)
  certified-Enrolled org_pub (some k) (some c) w p l x y e =
      let cert =
        issue_client_cert env.x509 k c org_pub b.org_id (some b.display_name) 365 d.serial now in
      let w' = (enroll_certified env b username d now org_pub (some k) (some c) w).1 in
      let (put, pem, key, serial) = logged c cert _ w p e in
      let (free, known) = enroll_org-get_org _ _ _ _ _ _ _ _ _ _ w'.store put in
      record {
        ca_priv = k;
        ca_cert = c;
        org_pub = org_pub;
        has_ca = x;
        has_cert = y;
        loads_key = l;
        free = free;
        stored = rw pem put;
        known = rw (pem, key, serial) known;
        certified = pem;
      }

  key-Enrolled :
      (k : Option String) (w : World) (p : Package)
      → env.wire.public_key_from_pem b.public_key_pem ≡ k
      → let (r, w') = enroll_key env b username d now k w in r ≡ ok p → Enrolled w.store w'.store p
  key-Enrolled none w p l e = absurd (ground arith)
  key-Enrolled (some org_pub) w p l e =
      certified-Enrolled org_pub env.ca_priv env.ca_cert w p l refl refl e

  -- An operator enrols an organisation only with a key that loads, while the CA is there, and where
  -- it was not enrolled or was revoked; its row then has the certificate, the serial and the hash
  -- of the key that the reply hands out.
  pub enroll_org-Enrolled :
      (w : World) (p : Package)
      → let (r, w') = enroll_org env b username d now w in r ≡ ok p → Enrolled w.store w'.store p
  unfolding enroll_org
  enroll_org-Enrolled w p e = key-Enrolled _ w p refl e

  handed-store :
      (o : Option String) (ca_cert cert : Certificate) (w : World)
      → (hand_out env b username d now o ca_cert cert w).1 ≡ w
  handed-store none ca_cert cert w = refl
  handed-store (some k) ca_cert cert w = refl

  logged-Puts :
      (ca_cert cert : Certificate) (o : Option Store) (w : World)
      → ((s : Store) → o ≡ some s → Puts w.store s)
      → Puts w.store (log_enrolled env b username d now ca_cert cert o w).1.store
  unfolding audit_log
  logged-Puts ca_cert cert none w h = Puts.same refl
  logged-Puts ca_cert cert (some s) w h = rw (handed-store env.coord_priv ca_cert cert _) (h s refl)

  certified-Puts :
      (org_pub : String) (k : Option Key) (c : Option Certificate) (w : World)
      → Puts w.store (enroll_certified env b username d now org_pub k c w).1.store
  certified-Puts org_pub none c w = Puts.same refl
  certified-Puts org_pub (some k) none w = Puts.same refl
  certified-Puts org_pub (some k) (some c) w =
      logged-Puts c _ _ w (λ s e. insert-Puts _ _ _ _ _ _ _ _ _ w.store s e)

  key-Puts :
      (k : Option String) (w : World) → Puts w.store (enroll_key env b username d now k w).1.store
  key-Puts none w = Puts.same refl
  key-Puts (some org_pub) w = certified-Puts org_pub env.ca_priv env.ca_cert w

  -- whatever the reply is
  pub enroll_org-Puts : (w : World) → Puts w.store (enroll_org env b username d now w).1.store
  unfolding enroll_org
  enroll_org-Puts w = key-Puts _ w
