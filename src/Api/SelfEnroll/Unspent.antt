-- ===== src/Api/SelfEnroll/Unspent.antt =====
-- coordinator/api.py: a self-enrolment without a proof of possession.
use threat_hunting_platform.Prelude.{
  ℕ, String, Bytes, ◌≡◌, refl, false, Option, none, some, Bool-cases, inl, inr,
}
use threat_hunting_platform.Attestation.{
  Dict, get, Loaded, invalid, other, object, build_enroll_pop,
}
use threat_hunting_platform.Client.{is_text}
use threat_hunting_platform.Ca.{Key, Certificate}
use threat_hunting_platform.Api.{Env, World, Reply, fail}
use threat_hunting_platform.Api.Enroll.{Drawn}
use threat_hunting_platform.Api.SelfEnroll.{
  EnrollWithTokenRequest, decode_token, check_x25519, check_loaded, check_token, with_keys,
  enroll_with_token,
}

-- The key loads, the signature decodes, and the key does not verify it.
pub record IsUnproven (env : Env) (b : EnrollWithTokenRequest) : Type 0 where
  pub ed_pub : String
  pub pop_sig : Bytes
  pub loads_key : env.wire.public_key_from_pem b.ed25519_pub_pem ≡ some ed_pub
  pub decoded : env.wire.unhex b.pop_signature ≡ some pop_sig
  pub refuted :
      env.wire.verify ed_pub (build_enroll_pop env.wire b.token b.x25519_pub_pem) pop_sig ≡ false

-- a refusal that changes nothing
abbrev pub Refuses : {A : Type 0} → World → Reply A × World → Type 0
Refuses w (r, w') = (c : ℕ) × (r ≡ fail c) × (w' ≡ w)

module _ (env : Env) (b : EnrollWithTokenRequest) (d : Drawn) (now : ℕ) (u : IsUnproven env b) where
  module _ (coord_priv : String) (ca_priv : Key) (ca_cert : Certificate) (w : World) where
    x25519-Refuses :
        (tok : Dict) (x : Option String)
        → Refuses w (check_x25519 env b d now coord_priv ca_priv ca_cert u.ed_pub tok x w)
    x25519-Refuses tok none = (400, refl, refl)
    x25519-Refuses tok (some x) = rw (u.decoded, u.refuted) (403, refl, refl)

    loaded-Refuses :
        (l : Loaded) → Refuses w (check_loaded env b d now coord_priv ca_priv ca_cert l w)
    loaded-Refuses invalid = (400, refl, refl)
    loaded-Refuses other = (500, refl, refl)
    loaded-Refuses (object tok) =
        elim (Bool-cases (is_text "fl.enroll_token.v1" (get "type" tok))) [
          | inr n ↦ rw n (400, refl, refl)
          | inl y ↦ elim (Bool-cases (is_text b.org_id (get "org_id" tok))) [
            | inr n ↦ rw (y, n) (400, refl, refl)
            | inl z ↦ rw (y, z, u.loads_key) (x25519-Refuses tok _)
          ]
        ]

    token-Refuses :
        (o : Option (Bytes × Bytes))
        → Refuses w (check_token env b d now coord_priv ca_priv ca_cert o w)
    token-Refuses none = (400, refl, refl)
    token-Refuses (some (att, sig)) =
        elim (Bool-cases (env.wire.verify (env.wire.public_of coord_priv) att sig)) [
          | inr n ↦ rw n (403, refl, refl)
          | inl y ↦ rw y (loaded-Refuses (env.wire.loads att))
        ]

  keys-Refuses :
      (o : Option String) (k : Option Key) (c : Option Certificate) (w : World)
      → Refuses w (with_keys env b d now o k c w)
  keys-Refuses (some o) (some k) (some c) w = token-Refuses o k c w (decode_token env b.token)
  keys-Refuses none k c w = (503, refl, refl)
  keys-Refuses (some o) none c w = (503, refl, refl)
  keys-Refuses (some o) (some k) none w = (503, refl, refl)

  -- A self-enrolment whose proof of possession does not verify fails and changes nothing: the token
  -- is not spent, whatever else is wrong with the request.
  pub enroll_with_token-Refuses : (w : World) → Refuses w (enroll_with_token env b d now w)
  unfolding enroll_with_token
  enroll_with_token-Refuses w = keys-Refuses env.coord_priv env.ca_priv env.ca_cert w
