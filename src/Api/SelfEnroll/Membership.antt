-- ===== src/Api/SelfEnroll/Membership.antt =====
-- coordinator/api.py: an organisation that has enrolled itself is a member.
use threat_hunting_platform.Prelude.{
  ℕ, String, Bytes, ◌≡◌, refl, false, Option, none, some, arith, Bool-cases, inl, inr, string_Eq,
}
use threat_hunting_platform.Store.Rows.{Org, Store, active}
use threat_hunting_platform.Store.Orgs.{get_org, is_enrolled, enrolled_row}
use threat_hunting_platform.Store.Orgs.Trust.{enroll_org-get_org}
use threat_hunting_platform.Store.Tokens.{consume_enroll_token}
use threat_hunting_platform.Ca.{Key, Certificate}
use threat_hunting_platform.Attestation.{Dict}
use threat_hunting_platform.Api.{Env, World, ok}
use threat_hunting_platform.Api.Enroll.{Drawn}
use threat_hunting_platform.Api.SelfEnroll.{
  EnrollWithTokenRequest, decode_token, check_token, with_keys, enroll_with_token,
}
use threat_hunting_platform.Api.SelfEnroll.Enrolled.{Bears, Places, loaded_inversion}

module _ (env : Env) (b : EnrollWithTokenRequest) (d : Drawn) (now : ℕ) where
  token_inversion :
      (coord_priv : String) (ca_priv : Key) (ca_cert : Certificate) (o : Option (Bytes × Bytes))
      (w : World) (p : String × String)
      → decode_token env b.token ≡ o
      → let (r, w') = check_token env b d now coord_priv ca_priv ca_cert o w in
        r ≡ ok p → Bears env b d now coord_priv ca_priv ca_cert w.store w'.store p
  token_inversion coord_priv ca_priv ca_cert none w p g e = absurd (ground arith)
  token_inversion coord_priv ca_priv ca_cert (some (att, sig)) w p g e =
      elim (Bool-cases (env.wire.verify (env.wire.public_of coord_priv) att sig)) [
        | inr n ↦ absurd (ground (arith, n))
        | inl y ↦
            let (tok, l, t, i, redeems) =
              loaded_inversion env b d now coord_priv ca_priv ca_cert (env.wire.loads att) w p
                (rw y at e) in
            record {
              att = att;
              sig = sig;
              tok = tok;
              token_decodes = g;
              signed = y;
              token_loads = l;
              typed = t;
              bound = i;
              redeems = rw y redeems;
            }
      ]

  -- What a self-enrolment has checked and done, with the coordinator's keys.
  pub record Joins (s s' : Store) (p : String × String) : Type 0 where
    pub coord_priv : String
    pub ca_priv : Key
    pub ca_cert : Certificate
    pub has_coord : env.coord_priv ≡ some coord_priv
    pub has_ca : env.ca_priv ≡ some ca_priv
    pub has_cert : env.ca_cert ≡ some ca_cert
    pub bears : Bears env b d now coord_priv ca_priv ca_cert s s' p

  keys_inversion :
      (o : Option String) (k : Option Key) (c : Option Certificate) (w : World)
      (p : String × String)
      → env.coord_priv ≡ o
      → env.ca_priv ≡ k
      → env.ca_cert ≡ c
      → let (r, w') = with_keys env b d now o k c w in r ≡ ok p → Joins w.store w'.store p
  keys_inversion (some coord_priv) (some ca_priv) (some ca_cert) w p x y z e = record {
    coord_priv = coord_priv;
    ca_priv = ca_priv;
    ca_cert = ca_cert;
    has_coord = x;
    has_ca = y;
    has_cert = z;
    bears = token_inversion coord_priv ca_priv ca_cert (decode_token env b.token) w p refl e;
  }
  keys_inversion none k c w p x y z e = absurd (ground arith)
  keys_inversion (some o) none c w p x y z e = absurd (ground arith)
  keys_inversion (some o) (some k) none w p x y z e = absurd (ground arith)

  -- An organisation enrols itself only with a token that the coordinator has signed for it and that
  -- this very call redeems, and with a proof that it holds the key that it submits; it is then
  -- enrolled with that key and a certificate for it, and the package is sealed for its box.
  pub enroll_with_token-Joins :
      (w : World) (p : String × String)
      → let (r, w') = enroll_with_token env b d now w in r ≡ ok p → Joins w.store w'.store p
  unfolding enroll_with_token
  enroll_with_token-Joins w p e =
      keys_inversion env.coord_priv env.ca_priv env.ca_cert w p refl refl refl e

  -- Its row is the one of a fresh enrolment, where it had none or was revoked.
  pub record Member (s s' : Store) : Type 0 where
    pub row : Org
    pub free : is_enrolled (get_org b.org_id s) ≡ false
    pub known : get_org b.org_id s' ≡ some row
    pub is_live : row.status ≡ active
    pub key : row.public_key_pem ≡ some b.ed25519_pub_pem
    pub serial : row.cert_serial ≡ some d.serial

  Places-Member :
      (coord_priv ed_pub jti : String) (ca_priv : Key) (ca_cert : Certificate) (tok : Dict)
      (s s' : Store) (p : String × String)
      → Places env b d now coord_priv ca_priv ca_cert ed_pub jti tok
          (consume_enroll_token jti b.org_id now s).1
          s'
          p
      → Member s s'
  unfolding consume_enroll_token get_org enrolled_row
  Places-Member coord_priv ed_pub jti ca_priv ca_cert tok s s' p places =
      let (free, known) = enroll_org-get_org _ _ _ _ _ _ _ _ _ _ _ places.enrolled in
      record { row = _; free = free; known = known; is_live = refl; key = refl; serial = refl }

  -- An organisation that enrols itself was not enrolled, or was revoked; it is then active, with the
  -- key that it submitted and the serial of the certificate that was issued.
  pub enroll_with_token-Member :
      (w : World) (p : String × String)
      → let (r, w') = enroll_with_token env b d now w in r ≡ ok p → Member w.store w'.store
  enroll_with_token-Member w p e =
      let j = enroll_with_token-Joins w p e in
      let r = j.bears.redeems in
      Places-Member j.coord_priv r.ed_pub r.jti j.ca_priv j.ca_cert j.bears.tok w.store _ p r.places
