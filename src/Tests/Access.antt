-- ===== src/Tests/Access.antt =====
-- coordinator/security.py and client_ref/fl_client.py: operators, tokens and a download.
use threat_hunting_platform.Prelude.{
  ℕ, ◌≡◌, ◌<◌, ◌+◌, ◌*◌, refl, String, Bytes, none, some, [], ◌∷◌, true, false, arith, ◌==◌,
  string_Eq, if◌then◌else◌, ltb,
}
use threat_hunting_platform.Prelude.Table.{find}
use threat_hunting_platform.Security.{
  FlUser, operator, admin, Tokens, FlAuthManager, auth_manager, payload, has_permission, verify_jwt,
  named,
}
use threat_hunting_platform.Attestation.{Dict, text, get, object, Wire}
use threat_hunting_platform.Client.{ok, verify_global_model}
use threat_hunting_platform.Client.Verified.{verify_global_model_sound}

abbrev olga : FlUser
olga = record { username = "olga"; role = operator; api_key_hash = "k1" }

abbrev anna : FlUser
anna = record { username = "anna"; role = admin; api_key_hash = "k2" }

olga_may : has_permission olga "fl_start_round" ≡ true
unfolding has_permission
olga_may = refl

abbrev roster : FlAuthManager
roster = auth_manager "secret" (olga ∷ anna ∷ [])

-- a library for the one token of olga that is issued at time 100 for 24 hours
abbrev tokens : Tokens
tokens = record {
  encode = λ c secret. "olga_token";
  decode = λ token secret now.
      if token == "olga_token"
      then (if ltb now 86500 then some (payload olga 24 100) else none)
      else none;
  sha256 = λ t. t;
}

decodes :
    (at : ℕ)
    → at < 100 + 24 * 3600
    → tokens.decode (tokens.encode (payload olga 24 100) roster.jwt_secret) roster.jwt_secret at
      ≡ some (payload olga 24 100)
decodes at fresh = ground arith

olga_known : find (named "olga") roster.users ≡ some olga
unfolding auth_manager find
olga_known = refl

olga_in : verify_jwt tokens roster "olga_token" 5000 ≡ some olga
unfolding verify_jwt auth_manager find
olga_in = refl

abbrev signed_message : Dict
signed_message = ("model_sha256", text "model") ∷ []

-- one key and one message; the hash is the text itself
abbrev wire : Wire
wire = record {
  canonical = λ d. "attestation";
  dumps = λ d. "attestation";
  loads = λ b. object signed_message;
  isoformat = λ n. "noon";
  sorted_texts = λ ts. ts;
  sha256 = λ b. b;
  hex = λ b. b;
  unhex = λ t. some t;
  sign = λ k m. "signature";
  verify = λ k m s. if k == "key" then s == "signature" else false;
  public_of = λ k. "key";
  public_key_to_pem = λ k. k;
  public_key_from_pem = λ t. some t;
  private_key_from_pem = λ t. some t;
}

accepted : verify_global_model wire "key" "model" "attestation" "signature" ≡ ok
unfolding verify_global_model get
accepted = refl

verify_global_model_sound_example :
    (key : String) × (sig : Bytes) × (d : Dict) × (wire.public_key_from_pem "key" ≡ some key)
    × (wire.unhex "signature" ≡ some sig)
    × (wire.verify key "attestation" sig ≡ true)
    × (wire.loads "attestation" ≡ object d)
    × (get "model_sha256" d ≡ some (text (wire.sha256 "model")))
verify_global_model_sound_example =
    verify_global_model_sound wire "key" "model" "attestation" "signature" accepted
