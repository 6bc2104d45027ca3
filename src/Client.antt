-- ===== src/Client.antt =====
-- client_ref/fl_client.py: the security core of the reference client.
pub mod Verified
pub mod Session
use threat_hunting_platform.Prelude.{
  ℕ, String, Bytes, Bool, true, false, not, Option, none, some, ◌==◌, string_Eq, if◌then◌else◌,
}
use threat_hunting_platform.Prelude.Int.{ℤ}
use threat_hunting_platform.Attestation.{
  Value, text, Dict, get, Loaded, invalid, other, object, Wire, build_contribution_attestation,
}

-- `(ok, reason)`, or the exception that stops the call.
pub data Verdict : Type 0 where
  ok bad_signature not_json wrong_hash raised : Verdict

abbrev pub is_text : String → Option Value → Bool
is_text t (some (text u)) = u == t
is_text t _ = false

module _ (w : Wire) where
  -- The attestation and the signature in hexadecimal; `none` if the key does not load.
  unfoldable pub build_signed_contribution :
      String → ℕ → String → Bytes → ℤ → String → ℕ → Option (Bytes × String)
  build_signed_contribution org_private_key_pem round_id org_id model_bytes num_examples challenge
        now =
      elim (w.private_key_from_pem org_private_key_pem) [
        | none ↦ none
        | some priv ↦
            let att =
              build_contribution_attestation w round_id org_id model_bytes num_examples challenge
                now in
            some (att, w.hex (w.sign priv att))
      ]

  unfoldable pub check_hash : Bytes → Loaded → Verdict
  check_hash model_bytes invalid = not_json
  check_hash model_bytes other = raised
  check_hash model_bytes (object att) =
      if is_text (w.sha256 model_bytes) (get "model_sha256" att) then ok else wrong_hash

  unfoldable pub check_signature : String → Bytes → Bytes → Option Bytes → Verdict
  unfolding check_hash
  check_signature pub_key model_bytes att none = raised
  check_signature pub_key model_bytes att (some sig) =
      if not (w.verify pub_key att sig) then bad_signature else check_hash model_bytes (w.loads att)

  unfoldable pub check_key : Option String → Bytes → Bytes → String → Verdict
  unfolding check_signature
  check_key none model_bytes att signature_hex = raised
  check_key (some pub_key) model_bytes att signature_hex =
      check_signature pub_key model_bytes att (w.unhex signature_hex)

  unfoldable pub verify_global_model : String → Bytes → Bytes → String → Verdict
  unfolding check_key
  verify_global_model coordinator_public_key_pem model_bytes signed_attestation signature_hex =
      check_key (w.public_key_from_pem coordinator_public_key_pem) model_bytes signed_attestation
        signature_hex
