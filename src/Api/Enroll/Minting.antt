-- ===== src/Api/Enroll/Minting.antt =====
-- coordinator/api.py: the token that is minted is one that a self-enrolment takes.
use threat_hunting_platform.Prelude.{
  ℕ, ◌+◌, ◌*◌, String, Bytes, ◌<>◌, ◌≡◌, refl, sym, ◌∙◌, ap, subst, true, Bool-cases, inl, inr,
  Option, none, some, some-injective, arith, ltb, eq_refl, string_Eq, ◌++◌, [], ◌∷◌,
}
use threat_hunting_platform.Prelude.Table.{any, find-append}
use threat_hunting_platform.Prelude.Texts.{rsplit_dot, rsplit_dot-append}
use threat_hunting_platform.Store.Rows.{Store}
use threat_hunting_platform.Store.Orgs.{get_org, is_enrolled}
use threat_hunting_platform.Store.Tokens.{
  create_enroll_token, consume_enroll_token, is_token, redeemable, new_token,
}
use threat_hunting_platform.Attestation.{
  Dict, text, number, get, object, build_enroll_token_attestation,
}
use threat_hunting_platform.Ca.{Certificate}
use threat_hunting_platform.Api.{Env, World, ok, ok_eq, audit_log}
use threat_hunting_platform.Api.Enroll.{
  EnrollTokenRequest, Minted, expires, token_text, log_minted, mint_signed, mint_enroll_token,
}
use threat_hunting_platform.Api.SelfEnroll.{decode_token}

-- A token that was created is redeemed by the first call in time.
created_redeems :
    (jti org name : String) (until now later : ℕ) (s s' : Store)
    → create_enroll_token jti org name until now s ≡ some s'
    → ltb later until ≡ true
    → (consume_enroll_token jti org later s').0 ≡ none
unfolding create_enroll_token consume_enroll_token
created_redeems jti org name until now later s s' e fresh =
    elim (Bool-cases (any (is_token jti) s.enrollment_tokens)) [
      | inl taken ↦ absurd (ground (arith, taken))
      | inr free ↦
          let row = new_token jti org name until now in
          let put = some-injective _ s' (rw free at e) in
          let p = redeemable jti org later in
          let fits : p row ≡ true = rw (eq_refl jti, eq_refl org, fresh) refl in
          let found : any p (s.enrollment_tokens ++ row ∷ []) ≡ true =
            ground (arith, find-append p s.enrollment_tokens row, fits) in
          subst (λ (z : Store). (consume_enroll_token jti org later z).0 ≡ none) put (rw found refl)
    ]

module _ (env : Env) (b : EnrollTokenRequest) (username jti : String) (now : ℕ)
    (priv : String) where
  -- what the token says
  abbrev message : Dict
  message =
      ("type", text "fl.enroll_token.v1")
      ∷ ("org_id", text b.org_id)
      ∷ ("display_name", text b.display_name)
      ∷ ("jti", text jti)
      ∷ ("expires_at", number (now + b.ttl_minutes * 60000))
      ∷ []

  abbrev attestation : Bytes
  attestation = env.wire.canonical message

  abbrev signature : Bytes
  signature = env.wire.sign priv attestation

  -- the message, a dot, and its signature
  abbrev dotted : Bytes
  dotted = attestation <> "." <> env.wire.hex signature

  -- What the libraries do with this one token.
  pub record Carries : Type 0 where
    pub decodes : env.urlsafe_b64decode (env.urlsafe_b64encode dotted) ≡ some dotted
    pub undotted : rsplit_dot (env.wire.hex signature) ≡ none
    pub unhex : env.wire.unhex (env.wire.hex signature) ≡ some signature
    pub verifies : env.wire.verify (env.wire.public_of priv) attestation signature ≡ true
    pub tok : Dict
    pub loads : env.wire.loads attestation ≡ object tok
    pub same : (k : String) → get k tok ≡ get k message

  decoded :
      Carries
      → decode_token env (token_text env b username jti now priv) ≡ some (attestation, signature)
  unfolding decode_token token_text build_enroll_token_attestation
  decoded c =
      rw (c.decodes, rsplit_dot-append attestation (env.wire.hex signature) c.undotted, c.unhex)
        refl

  -- A token whose message the coordinator's key has signed. It names the organisation, and its own
  -- identifier is one that the organisation redeems at the time.
  pub record Redeemable (token : String) (expires_at later : ℕ) (s : Store) : Type 0 where
    pub att : Bytes
    pub sig : Bytes
    pub tok : Dict
    pub named : String
    pub opened : decode_token env token ≡ some (att, sig)
    pub signed : env.wire.verify (env.wire.public_of priv) att sig ≡ true
    pub loaded : env.wire.loads att ≡ object tok
    pub typed : get "type" tok ≡ some (text "fl.enroll_token.v1")
    pub owned : get "org_id" tok ≡ some (text b.org_id)
    pub displayed : get "display_name" tok ≡ some (text b.display_name)
    pub timed : get "expires_at" tok ≡ some (number expires_at)
    pub identified : get "jti" tok ≡ some (text named)
    pub redeems : (consume_enroll_token named b.org_id later s).0 ≡ none

  logged-Redeemable :
      (ca : Certificate) (o : Option Store) (w : World) (m : Minted) (later : ℕ)
      → Carries
      → create_enroll_token jti b.org_id b.display_name (expires env b username jti now) now w.store
        ≡ o
      → let (r, w') =
          log_minted env b username jti now (token_text env b username jti now priv) ca o w in
        r ≡ ok m → ltb later m.expires_at ≡ true → Redeemable m.token m.expires_at later w'.store
  unfolding audit_log get
  logged-Redeemable ca none w m later c p e fresh = absurd (ground arith)
  logged-Redeemable ca (some s) w m later c p e fresh =
      let same = ok_eq _ m e in
      let until = ap (λ (x : Minted). x.expires_at) same in
      record {
        att = attestation;
        sig = signature;
        tok = c.tok;
        named = jti;
        opened =
            subst (λ (x : Minted). decode_token env x.token ≡ some (attestation, signature)) same
              (decoded c);
        signed = c.verifies;
        loaded = c.loads;
        typed = c.same "type";
        owned = c.same "org_id";
        displayed = c.same "display_name";
        timed = c.same "expires_at" ∙ ap (λ n. some (number n)) until;
        identified = c.same "jti";
        redeems =
            created_redeems jti b.org_id b.display_name _ now later w.store s p (rw until fresh);
      }

  signed-Redeemable :
      (ca : Option Certificate) (w : World) (m : Minted) (later : ℕ)
      → Carries
      → let (r, w') = mint_signed env b username jti now (some priv) ca w in
        r ≡ ok m → ltb later m.expires_at ≡ true → Redeemable m.token m.expires_at later w'.store
  signed-Redeemable none w m later c e fresh = absurd (ground arith)
  signed-Redeemable (some ca) w m later c e fresh = logged-Redeemable ca _ w m later c refl e fresh

  -- The token that is minted for an organisation decodes to a message and a signature that the
  -- coordinator's key verifies; the message names the organisation, the expiry of the reply and an
  -- identifier, and the organisation redeems that identifier at any time before the expiry, if
  -- nothing is redeemed in between and the libraries carry this token unchanged.
  pub mint_enroll_token-Redeemable :
      (w : World) (m : Minted) (later : ℕ)
      → Carries
      → env.coord_priv ≡ some priv
      → let (r, w') = mint_enroll_token env b username jti now w in
        r ≡ ok m → ltb later m.expires_at ≡ true → Redeemable m.token m.expires_at later w'.store
  unfolding mint_enroll_token
  mint_enroll_token-Redeemable w m later c k e fresh =
      elim (Bool-cases (is_enrolled (get_org b.org_id w.store))) [
        | inl taken ↦ absurd (ground (arith, taken))
        | inr free ↦ rw free (
            subst
              (λ (o : Option String).
                (mint_signed env b username jti now o env.ca_cert w).0 ≡ ok m
                → Redeemable m.token m.expires_at later
                    (mint_signed env b username jti now o env.ca_cert w).1.store)
              (sym k) (λ e. signed-Redeemable env.ca_cert w m later c e fresh) (rw free at e))
      ]
