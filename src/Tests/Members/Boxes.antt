-- ===== src/Tests/Members/Boxes.antt =====
-- flproto/seal_box.py, flproto/ca.py and client_ref/privacy.py: a box, a new authority, a model.
use threat_hunting_platform.Prelude.{
  ℕ, ◌+◌, ◌≡◌, refl, false, none, some, [], ◌∷◌, ◌++◌, replicate, ◌==◌, string_Eq, if◌then◌else◌,
}
use threat_hunting_platform.Prelude.Int.{pos, negsuc}
use threat_hunting_platform.SealBox.{
  Crypto, x25519, pem_text, seal, unseal, x25519_public_from_pem, x25519_private_from_pem,
  private_of,
}
use threat_hunting_platform.SealBox.RoundTrip as RoundTrip
use threat_hunting_platform.SealBox.RoundTrip.{unseal-seal}
use threat_hunting_platform.Privacy.{Floats, Codec, Model, apply_differential_privacy}
use threat_hunting_platform.Privacy.Noise.{IsPrivate, apply_differential_privacy-IsPrivate}
use threat_hunting_platform.Tests.Requests as Requests

-- the sealed text decodes to the raw key and the message 1, 2
abbrev box : Crypto
box = record Requests.box {
  b64decode = λ t. some (replicate 32 7 ++ 1 ∷ 2 ∷ []);
  load_pem_private_key = λ b. some (x25519 "mine");
}

carries : RoundTrip.Carries box "ephemeral" "mine" (1 ∷ 2 ∷ []) []
carries = record {
  exchanged = refl;
  agrees = refl;
  raw_length = refl;
  raw_loads = refl;
  decrypts = refl;
  decodes = refl;
}

public_loads : x25519_public_from_pem box [] ≡ some "box"
unfolding x25519_public_from_pem
public_loads = refl

private_loads : private_of box (pem_text "mine") ≡ some "mine"
unfolding x25519_private_from_pem
private_loads = refl

sealed : seal box "ephemeral" [] (1 ∷ 2 ∷ []) ≡ some "sealed"
unfolding seal
sealed = refl

unseal-seal_example : unseal box (pem_text "mine") "sealed" ≡ some (1 ∷ 2 ∷ [])
unseal-seal_example =
    unseal-seal box "ephemeral" "mine" (1 ∷ 2 ∷ []) [] carries [] (pem_text "mine") "sealed"
      public_loads private_loads sealed

-- numbers for floats; the k-th draw is k above the scale
abbrev floats : Floats ℕ
floats = record {
  add = λ a b. a + b;
  laplace = λ s k. s + k;
  div = λ a b. a;
  less = λ a b. false;
  literal = λ t. 100;
}

-- a root with two leaves
abbrev model : Model ℕ
model = record {
  trees =
      record {
        split_conditions = some (5 ∷ 6 ∷ 7 ∷ []);
        left_children = some (pos 1 ∷ negsuc 0 ∷ negsuc 0 ∷ []);
        rest = "tree";
      }
      ∷ [];
  rest = "model";
}

abbrev codec : Codec ℕ
codec = record { loads = λ b. if b == "json" then some model else none; dumps = λ m. "noisy" }

apply_differential_privacy-IsPrivate_example :
    IsPrivate floats codec "json" 1 (some model) (apply_differential_privacy floats codec "json" 1)
apply_differential_privacy-IsPrivate_example =
    apply_differential_privacy-IsPrivate floats codec "json" 1
