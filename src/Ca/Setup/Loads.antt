-- ===== src/Ca/Setup/Loads.antt =====
-- flproto/ca.py: what the coordinator loads from the directory that was initialised.
use threat_hunting_platform.Prelude.{
  ℕ, String, Bytes, ◌≡◌, refl, true, Bool-cases, inl, inr, none, some, some-injective, arith, subst,
}
use threat_hunting_platform.Ca.{
  Key, elliptic, ed25519, Certificate, X509, verify_cert_signed_by_ca, issue_server_cert,
  sign_certificate,
}
use threat_hunting_platform.Ca.Issued.{IsAuthority, signed-verifies}
use threat_hunting_platform.Ca.Setup.{
  CaDir, exists, read_file, Drawn, init_ca, load_ca, load_coordinator_keypair, root,
  coordinator_cert, root_certificate,
}

module _ (x : X509) (common_name : String) (validity_days : ℕ) (hostname : String) (d : Drawn)
    (now : ℕ) where
  -- What the library does with the PEM texts and with the CA's key.
  pub record IsSound : Type 0 where
    pub public_half : String
    pub halves : x.public_key (elliptic d.ca_priv) ≡ elliptic public_half
    pub loads_key : (k : Key) → x.load_private_key (x.private_key_to_pem k) ≡ some k
    pub loads_pem : (c : Certificate) → x.load_pem (x.to_pem c) ≡ some c
    pub verifies :
        (m : Bytes)
        → x.verify_ecdsa public_half
            (some "sha256")
            (x.sign (elliptic d.ca_priv) (some "sha256") m)
            m
          ≡ true

  -- The directory is ready for the coordinator.
  pub record Ready (dir' : CaDir) : Type 0 where
    pub authority :
        load_ca x dir' ≡ some (elliptic d.ca_priv, root x common_name validity_days hostname d now)
    pub keypair :
        load_coordinator_keypair x dir'
        ≡ some (d.sign_priv, coordinator_cert x common_name validity_days hostname d now)
    pub signed :
        verify_cert_signed_by_ca x
          (coordinator_cert x common_name validity_days hostname d now)
          (root x common_name validity_days hostname d now)
        ≡ true
    pub kept : init_ca x common_name validity_days hostname d now dir' ≡ none

  authority-IsAuthority :
      IsSound → IsAuthority x (elliptic d.ca_priv) (root x common_name validity_days hostname d now)
  unfolding root_certificate sign_certificate
  authority-IsAuthority s = record { halves = rw s.halves s.verifies }

  coordinator-signed :
      IsSound
      → verify_cert_signed_by_ca x
          (coordinator_cert x common_name validity_days hostname d now)
          (root x common_name validity_days hostname d now)
        ≡ true
  unfolding issue_server_cert
  coordinator-signed s =
      let cert = coordinator_cert x common_name validity_days hostname d now in
      signed-verifies x (elliptic d.ca_priv) (root x common_name validity_days hostname d now)
        cert.contents (authority-IsAuthority s)

  -- Where an authority is initialised, the coordinator then loads the CA's key and certificate, and
  -- its own signing key and certificate, which the CA has signed; and initialising again is refused.
  pub init_ca-Ready :
      (dir dir' : CaDir) (pem : Bytes)
      → IsSound
      → init_ca x common_name validity_days hostname d now dir ≡ some (pem, dir')
      → Ready dir'
  unfolding init_ca load_ca load_coordinator_keypair read_file
  init_ca-Ready dir dir' pem s e =
      let ca = root x common_name validity_days hostname d now in
      let cert = coordinator_cert x common_name validity_days hostname d now in
      elim (Bool-cases (exists "ca_key.pem" dir)) [
        | inl old ↦ absurd (ground (arith, old, e))
        | inr new ↦
            subst (λ (p : Bytes × CaDir). Ready p.1) (some-injective _ (pem, dir') (rw new at e))
              (record {
                authority = rw (s.loads_key (elliptic d.ca_priv), s.loads_pem ca) refl;
                keypair = rw (s.loads_key (ed25519 d.sign_priv), s.loads_pem cert) refl;
                signed = coordinator-signed s;
                kept = refl;
              })
      ]
