-- ===== src/Ca/Issued.antt =====
-- flproto/ca.py: the certificates that the authority issues pass its own checks.
use threat_hunting_platform.Prelude.{
  ℕ, ◌+◌, ◌-◌, ◌*◌, ◌≤◌, ◌<◌, String, Bytes, ◌≡◌, refl, true, false, Option, none, some, arith,
}
use threat_hunting_platform.Ca.{
  Key, ed25519, elliptic, other_key, Certificate, X509, verify_cert_signed_by_ca, cert_org_id,
  is_cert_expired, issue_client_cert, sign_certificate, Contents, day, minute, to_second,
  ca_sign_algorithm, first_common_name,
}

-- What one key signs, as the authority signs, the other verifies; the two are of one type.
abbrev pub AreHalves : X509 → Key → Key → Type 0
AreHalves x (ed25519 priv) (ed25519 k) =
    (m : Bytes) → x.verify_ed25519 k (x.sign (ed25519 priv) none m) m ≡ true
AreHalves x (elliptic priv) (elliptic k) =
    (m : Bytes)
    → x.verify_ecdsa k (some "sha256") (x.sign (elliptic priv) (some "sha256") m) m ≡ true
AreHalves x _ _ = ⊥

-- The private key, Ed25519 or elliptic-curve, is the one that the CA certificate is for.
pub record IsAuthority (x : X509) (ca_priv : Key) (ca_cert : Certificate) : Type 0 where
  pub halves : AreHalves x ca_priv ca_cert.contents.public_key

halves-verify :
    (x : X509) (ca_priv public : Key) (c : Contents) (ca_cert : Certificate)
    → ca_cert.contents.public_key ≡ public
    → AreHalves x ca_priv public
    → verify_cert_signed_by_ca x (sign_certificate x ca_priv c) ca_cert ≡ true
unfolding verify_cert_signed_by_ca sign_certificate ca_sign_algorithm
halves-verify x (ed25519 priv) (ed25519 k) c ca_cert e h = rw e (h (x.encode c))
halves-verify x (elliptic priv) (elliptic k) c ca_cert e h = rw e (h (x.encode c))
halves-verify x (ed25519 priv) (elliptic k) c ca_cert e h = elim h [ ]
halves-verify x (ed25519 priv) (other_key k) c ca_cert e h = elim h [ ]
halves-verify x (elliptic priv) (ed25519 k) c ca_cert e h = elim h [ ]
halves-verify x (elliptic priv) (other_key k) c ca_cert e h = elim h [ ]
halves-verify x (other_key priv) public c ca_cert e h = elim h [ ]

pub signed-verifies :
    (x : X509) (ca_priv : Key) (ca_cert : Certificate) (c : Contents)
    → IsAuthority x ca_priv ca_cert
    → verify_cert_signed_by_ca x (sign_certificate x ca_priv c) ca_cert ≡ true
signed-verifies x ca_priv ca_cert c a =
    halves-verify x ca_priv ca_cert.contents.public_key c ca_cert refl a.halves

valid_from : (now t : ℕ) → now ≤ t → to_second (now - minute) ≤ t
valid_from now t h = omega (arith, h)

valid_until : (now days t : ℕ) → t + 1000 ≤ now + days * day → t < to_second (now + days * day)
valid_until now days t h = omega (arith, h)

fresh :
    (now days t : ℕ) (c : Certificate)
    → c.contents.not_valid_before ≡ to_second (now - minute)
    → c.contents.not_valid_after ≡ to_second (now + days * day)
    → now ≤ t
    → t + 1000 ≤ now + days * day
    → is_cert_expired c t ≡ false
unfolding is_cert_expired
fresh now days t c b a from until =
    ground (arith, b, a, valid_from now t from, valid_until now days t until)

-- A client certificate that the authority issues is signed by the authority's certificate, names
-- the organisation, and is not expired from its issue until a second before its days are over.
pub issue_client_cert-Accepted :
    (x : X509) (ca_priv : Key) (ca_cert : Certificate) (client_pub org_id : String)
    (display_name : Option String) (days serial now t : ℕ)
    → IsAuthority x ca_priv ca_cert
    → now ≤ t
    → t + 1000 ≤ now + days * day
    → let c = issue_client_cert x ca_priv ca_cert client_pub org_id display_name days serial now in
      (verify_cert_signed_by_ca x c ca_cert ≡ true)
      × (cert_org_id c ≡ some org_id)
      × (is_cert_expired c t ≡ false)
unfolding issue_client_cert cert_org_id sign_certificate first_common_name
issue_client_cert-Accepted x ca_priv ca_cert client_pub org_id display_name days serial now t a from
      until =
    let c = issue_client_cert x ca_priv ca_cert client_pub org_id display_name days serial now in
    (signed-verifies x ca_priv ca_cert c.contents a, refl, fresh now days t c refl refl from until)
