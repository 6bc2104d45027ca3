-- ===== src/SealBox/RoundTrip.antt =====
-- flproto/seal_box.py: what is sealed to a key is opened with it.
use threat_hunting_platform.Prelude.{
  ℕ, zero, suc, String, ◌≡◌, refl, ap, subst, some-injective, some, [], ◌∷◌, ◌++◌, take, length,
  arith,
}
use threat_hunting_platform.SealBox.{
  Octets, drop, Crypto, Recipient, seal, unseal, seal_with, open_raw, private_of,
  x25519_public_from_pem, derive, nonce,
}

pub take-append : (n : ℕ) (a b : Octets) → length a ≡ n → take n (a ++ b) ≡ a
take-append zero [] b h = refl
take-append zero (x ∷ a) b h = absurd (omega (arith, h))
take-append (suc n) [] b h = absurd (omega (arith, h))
take-append (suc n) (x ∷ a) b h = ap (λ r. x ∷ r) (take-append n a b (omega (arith, h)))

pub drop-append : (n : ℕ) (a b : Octets) → length a ≡ n → drop n (a ++ b) ≡ b
drop-append zero [] b h = refl
drop-append zero (x ∷ a) b h = absurd (omega (arith, h))
drop-append (suc n) [] b h = absurd (omega (arith, h))
drop-append (suc n) (x ∷ a) b h = drop-append n a b (omega (arith, h))

-- What the code relies on, for one message and its keys: both sides of the exchange compute the
-- same secret, the raw ephemeral key has 32 octets and loads again, and for the key that is derived
-- from the secret decryption undoes encryption and base64 decodes what it encodes.
pub record Carries (c : Crypto) (eph priv : String) (plaintext shared : Octets) : Type 0 where
  pub exchanged : c.exchange eph (c.public_key priv) ≡ some shared
  pub agrees : c.exchange priv (c.public_key eph) ≡ some shared
  pub raw_length : length (c.raw_public (c.public_key eph)) ≡ 32
  pub raw_loads : c.from_public_bytes (c.raw_public (c.public_key eph)) ≡ some (c.public_key eph)
  pub decrypts :
      let raw = c.raw_public (c.public_key eph) in
      let key = derive c shared raw (c.raw_public (c.public_key priv)) in
      c.decrypt key nonce (c.encrypt key nonce plaintext raw) raw ≡ some plaintext
  pub decodes :
      let raw = c.raw_public (c.public_key eph) in
      let key = derive c shared raw (c.raw_public (c.public_key priv)) in
      let sealed = raw ++ c.encrypt key nonce plaintext raw in
      c.b64decode (c.b64encode sealed) ≡ some sealed

module _ (c : Crypto) (eph priv : String) (plaintext shared : Octets)
    (m : Carries c eph priv plaintext shared) where
  opened :
      let raw = c.raw_public (c.public_key eph) in
      let key = derive c shared raw (c.raw_public (c.public_key priv)) in
      open_raw c priv (some (raw ++ c.encrypt key nonce plaintext raw)) ≡ some plaintext
  opened =
      let raw = c.raw_public (c.public_key eph) in
      let key = derive c shared raw (c.raw_public (c.public_key priv)) in
      let ct = c.encrypt key nonce plaintext raw in
      rw
        (
          take-append 32 raw ct m.raw_length,
          drop-append 32 raw ct m.raw_length,
          m.raw_loads,
          m.agrees,
        )
        m.decrypts

  sealed_with-opens :
      (sealed : String)
      → seal_with c eph (c.public_key priv) plaintext (c.exchange eph (c.public_key priv))
        ≡ some sealed
      → open_raw c priv (c.b64decode sealed) ≡ some plaintext
  sealed_with-opens sealed e =
      subst (λ s. open_raw c priv (c.b64decode s) ≡ some plaintext)
        (some-injective _ sealed (rw m.exchanged at e)) (rw m.decodes opened)

  -- A message that is sealed to the public half of a private key is opened with that key, in any of
  -- the forms in which the key is given, if the libraries carry this message unchanged.
  pub unseal-seal :
      (pub_pem : Octets) (r : Recipient) (sealed : String)
      → x25519_public_from_pem c pub_pem ≡ some (c.public_key priv)
      → private_of c r ≡ some priv
      → seal c eph pub_pem plaintext ≡ some sealed
      → unseal c r sealed ≡ some plaintext
  unfolding seal unseal
  unseal-seal pub_pem r sealed p q e = rw q (sealed_with-opens sealed (rw p at e))
