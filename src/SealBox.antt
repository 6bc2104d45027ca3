-- ===== src/SealBox.antt =====
-- flproto/seal_box.py: a message that only the holder of an X25519 key opens. A byte string is here
-- the list of its octets; the cryptography library and base64 are the parameter `Crypto`.
pub mod RoundTrip
use threat_hunting_platform.Prelude.{
  ℕ, zero, suc, String, Option, none, some, List, [], ◌∷◌, ◌++◌, take, replicate,
}

abbrev pub Octets : Type 0
Octets = List ℕ

abbrev pub drop : ℕ → Octets → Octets
drop zero xs = xs
drop (suc n) [] = []
drop (suc n) (x ∷ xs) = drop n xs

-- A key that a PEM text loads to: of X25519, or of another type.
pub data Loadable : Type 0 where
  x25519 : String → Loadable
  other_type : Loadable

-- What raises is `none`. `hkdf` is given the length, the salt, the info and the secret; `encrypt`
-- and `decrypt` the key, the nonce, the text and the associated data.
pub record Crypto : Type 0 where
  pub load_pem_public_key : Octets → Option Loadable
  pub load_pem_private_key : Octets → Option Loadable
  pub public_key : String → String
  pub raw_public : String → Octets
  pub from_public_bytes : Octets → Option String
  pub exchange : String → String → Option Octets
  pub hkdf : ℕ → Octets → Octets → Octets → Octets
  pub encrypt : Octets → Octets → Octets → Octets → Octets
  pub decrypt : Octets → Octets → Octets → Octets → Option Octets
  pub b64encode : Octets → String
  pub b64decode : String → Option Octets
  pub encode : String → Octets

-- a recipient's key: a PEM text, in bytes or not, or the key
pub data Recipient : Type 0 where
  pem_bytes : Octets → Recipient
  pem_text : String → Recipient
  loaded : String → Recipient

-- "fl.enroll.seal.v1"
abbrev info : Octets
info =
    102 ∷ 108 ∷ 46 ∷ 101 ∷ 110 ∷ 114 ∷ 111 ∷ 108 ∷ 108 ∷ 46 ∷ 115 ∷ 101 ∷ 97 ∷ 108 ∷ 46 ∷ 118 ∷ 49
    ∷ []

abbrev pub nonce : Octets
nonce = replicate 12 0

abbrev only_x25519 : Option Loadable → Option String
only_x25519 none = none
only_x25519 (some (x25519 k)) = some k
only_x25519 (some other_type) = none

module _ (c : Crypto) where
  unfoldable pub x25519_public_from_pem : Octets → Option String
  x25519_public_from_pem pem = only_x25519 (c.load_pem_public_key pem)

  unfoldable pub x25519_private_from_pem : Octets → Option String
  x25519_private_from_pem pem = only_x25519 (c.load_pem_private_key pem)

  unfoldable pub derive : Octets → Octets → Octets → Octets
  derive shared eph_pub_raw recip_pub_raw = c.hkdf 32 (eph_pub_raw ++ recip_pub_raw) info shared

  abbrev pub seal_with : String → String → Octets → Option Octets → Option String
  seal_with eph recip plaintext none = none
  seal_with eph recip plaintext (some shared) =
      let eph_pub_raw = c.raw_public (c.public_key eph) in
      let key = derive shared eph_pub_raw (c.raw_public recip) in
      some (c.b64encode (eph_pub_raw ++ c.encrypt key nonce plaintext eph_pub_raw))

  abbrev pub seal_to : String → Octets → Option String → Option String
  seal_to eph plaintext none = none
  seal_to eph plaintext (some recip) = seal_with eph recip plaintext (c.exchange eph recip)

  -- `eph` is the ephemeral private key that is drawn.
  unfoldable pub seal : String → Octets → Octets → Option String
  unfolding x25519_public_from_pem derive
  seal eph recipient_pub_pem plaintext =
      seal_to eph plaintext (x25519_public_from_pem recipient_pub_pem)

  abbrev pub private_of : Recipient → Option String
  private_of (pem_bytes b) = x25519_private_from_pem b
  private_of (pem_text t) = x25519_private_from_pem (c.encode t)
  private_of (loaded k) = some k

  abbrev pub open_with : String → Octets → Octets → Option Octets → Option Octets
  open_with recipient_priv eph_pub_raw ct none = none
  open_with recipient_priv eph_pub_raw ct (some shared) =
      let key = derive shared eph_pub_raw (c.raw_public (c.public_key recipient_priv)) in
      c.decrypt key nonce ct eph_pub_raw

  abbrev pub open_from : String → Octets → Octets → Option String → Option Octets
  open_from recipient_priv eph_pub_raw ct none = none
  open_from recipient_priv eph_pub_raw ct (some eph_pub) =
      open_with recipient_priv eph_pub_raw ct (c.exchange recipient_priv eph_pub)

  abbrev pub open_raw : String → Option Octets → Option Octets
  open_raw recipient_priv none = none
  open_raw recipient_priv (some raw) =
      open_from recipient_priv (take 32 raw) (drop 32 raw) (c.from_public_bytes (take 32 raw))

  abbrev pub unseal_by : Option String → String → Option Octets
  unseal_by none sealed_b64 = none
  unseal_by (some recipient_priv) sealed_b64 = open_raw recipient_priv (c.b64decode sealed_b64)

  unfoldable pub unseal : Recipient → String → Option Octets
  unfolding x25519_private_from_pem derive
  unseal recipient_priv sealed_b64 = unseal_by (private_of recipient_priv) sealed_b64
