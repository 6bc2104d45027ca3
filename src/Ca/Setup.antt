-- ===== src/Ca/Setup.antt =====
-- flproto/ca.py with coordinator/init_ca.py: the files of the authority. A directory holds the files
-- by their names, the last write first, and the names of those that only the owner may read.
pub mod Loads
use threat_hunting_platform.Prelude.{
  ℕ, ◌+◌, ◌-◌, ◌*◌, String, Bytes, Bool, true, false, Option, none, some, List, [], ◌∷◌, ◌==◌,
  string_Eq, if◌then◌else◌, is_some,
}
use threat_hunting_platform.Ca.{
  Key, ed25519, elliptic, other_key, Name, NameOid, common_name, organization_name,
  basic_constraints, key_usage, subject_key_identifier, Contents, Certificate, Crl, X509, minute,
  day, to_second, ca_sign_algorithm, sign_certificate, issue_server_cert, build_crl,
}

pub record CaDir : Type 0 where
  pub files : List (String × Bytes)
  pub owner_only : List String

unfoldable pub read_file : String → List (String × Bytes) → Option Bytes
read_file name [] = none
read_file name ((n, b) ∷ files) = if n == name then some b else read_file name files

abbrev pub exists : String → CaDir → Bool
exists name dir = is_some (read_file name dir.files)

abbrev pub write_bytes : String → Bytes → CaDir → CaDir
write_bytes name b dir = record dir { files = (name, b) ∷ dir.files }

-- `chmod(0o600)`
abbrev pub protect : String → CaDir → CaDir
protect name dir = record dir { owner_only = name ∷ dir.owner_only }

-- The keys and the serials that are drawn.
pub record Drawn : Type 0 where
  pub ca_priv : String
  pub tls_priv : String
  pub sign_priv : String
  pub ca_serial : ℕ
  pub tls_serial : ℕ

module _ (x : X509) where
  -- the root certificate, signed with its own key
  unfoldable pub root_certificate : Key → String → ℕ → ℕ → ℕ → Certificate
  unfolding sign_certificate
  root_certificate ca_priv name validity_days serial now =
      let subject = (common_name, name) ∷ (organization_name, "APT Platform Federation") ∷ [] in
      sign_certificate x ca_priv (record {
        subject = subject;
        issuer = subject;
        public_key = x.public_key ca_priv;
        serial_number = serial;
        not_valid_before = to_second (now - minute);
        not_valid_after = to_second (now + validity_days * day);
        extensions =
            (basic_constraints true (some 0), true)
            ∷ (key_usage ("key_cert_sign" ∷ "crl_sign" ∷ []), true)
            ∷ (subject_key_identifier (x.public_key ca_priv), false)
            ∷ [];
      })

  module _ (common_name : String) (validity_days : ℕ) (hostname : String) (d : Drawn)
      (now : ℕ) where
    abbrev pub root : Certificate
    root = root_certificate (elliptic d.ca_priv) common_name validity_days d.ca_serial now

    abbrev pub coordinator_cert : Certificate
    coordinator_cert =
        issue_server_cert x (elliptic d.ca_priv) root (x.public_key (elliptic d.tls_priv)) hostname
          365 d.tls_serial now

    abbrev write_root : CaDir → CaDir
    write_root dir = write_bytes "ca_cert.pem" (x.to_pem root) (
        protect "ca_key.pem"
          (write_bytes "ca_key.pem" (x.private_key_to_pem (elliptic d.ca_priv)) dir))

    abbrev write_tls : CaDir → CaDir
    write_tls dir = write_bytes "coordinator_cert.pem" (x.to_pem coordinator_cert) (
        protect "coordinator_key.pem"
          (write_bytes "coordinator_key.pem" (x.private_key_to_pem (elliptic d.tls_priv)) dir))

    abbrev write_signing : CaDir → CaDir
    write_signing dir =
        protect "coordinator_signing_key.pem" (
          write_bytes "coordinator_signing_key.pem" (x.private_key_to_pem (ed25519 d.sign_priv))
            dir)

    abbrev write_crl : CaDir → CaDir
    write_crl dir =
        write_bytes "crl.pem"
          (x.crl_to_pem (elliptic d.ca_priv) (ca_sign_algorithm (elliptic d.ca_priv))
            (build_crl root [] 30 now))
          dir

    -- `none` is FileExistsError. The reply is the coordinator's public key.
    unfoldable pub init_ca : CaDir → Option (Bytes × CaDir)
    unfolding root_certificate issue_server_cert
    init_ca dir =
        if exists "ca_key.pem" dir
        then none
        else some (
          x.public_key_to_pem (x.public_key (ed25519 d.sign_priv)),
          write_crl (write_signing (write_tls (write_root dir))),
        )

  abbrev pub read_key : Option Bytes → Option Key
  read_key none = none
  read_key (some pem) = x.load_private_key pem

  abbrev pub read_certificate : Option Bytes → Option Certificate
  read_certificate none = none
  read_certificate (some pem) = x.load_pem pem

  abbrev pub pair : {A : Type 0} → Option A → Option Certificate → Option (A × Certificate)
  pair (some k) (some c) = some (k, c)
  pair _ _ = none

  unfoldable pub load_ca : CaDir → Option (Key × Certificate)
  load_ca dir =
      pair (read_key (read_file "ca_key.pem" dir.files))
        (read_certificate (read_file "ca_cert.pem" dir.files))

  -- `private_key_from_pem`, which raises on a key of another type
  abbrev only_ed25519 : Option Key → Option String
  only_ed25519 (some (ed25519 k)) = some k
  only_ed25519 _ = none

  -- An old directory has no signing key of its own.
  abbrev signing_file : CaDir → String
  signing_file dir =
      if exists "coordinator_signing_key.pem" dir
      then "coordinator_signing_key.pem"
      else "coordinator_key.pem"

  unfoldable pub load_coordinator_keypair : CaDir → Option (String × Certificate)
  load_coordinator_keypair dir =
      pair (only_ed25519 (read_key (read_file (signing_file dir) dir.files)))
        (read_certificate (read_file "coordinator_cert.pem" dir.files))
