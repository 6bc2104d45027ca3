-- ===== src/Api/Leave/Consent.antt =====
-- coordinator/api.py: an organisation that waits for its removal has asked for it.

use threat_hunting_platform.Prelude.{
  ℕ, String, Bytes, ◌≡◌, refl, sym, ◌∙◌, ap, subst, true, Option, none, some, arith, Bool-cases,
  Option-cases, inl, inr, eq_iff, ◌==◌, string_Eq, some-injective,
}
use threat_hunting_platform.Store.Rows.{Org, leave_pending, active, is_revoked, Store}
use threat_hunting_platform.Store.Orgs.{
  get_org, update_org, replace_org, nonempty, set_leave_request,
}
use threat_hunting_platform.Store.Orgs.Trust.{
  get_org-update_org, get_org-update_org_ne, get_org-has_id, get_org-replace_org,
}
use threat_hunting_platform.Attestation.{text, Dict, get, Loaded, invalid, other, object}
use threat_hunting_platform.Client.{is_text}
use threat_hunting_platform.Client.Verified.{is_text-true}
use threat_hunting_platform.Mtls.Identity.{nonempty-some}
use threat_hunting_platform.Api.{Env, World, audit_log}
use threat_hunting_platform.Api.Leave.{
  LeaveRequestBody, leave_by, leave_signed, leave_key, leave_loaded, leave_found, org_leave_request,
}

module _ (env : Env) where
  -- The columns of a row hold a request to leave that the organisation's key has signed.
  pub record SignedLeave (i : String) (pem attestation signature : Option String) : Type 0 where
    pub key_pem : String
    pub key : String
    pub request : String
    pub signature_hex : String
    pub sig : Bytes
    pub att : Dict
    pub has_key : pem ≡ some key_pem
    pub loads_key : env.wire.public_key_from_pem key_pem ≡ some key
    pub has_request : attestation ≡ some request
    pub has_signature : signature ≡ some signature_hex
    pub decoded : env.wire.unhex signature_hex ≡ some sig
    pub verified : env.wire.verify key request sig ≡ true
    pub loaded : env.wire.loads request ≡ object att
    pub typed : get "type" att ≡ some (text "fl.leave_request.v1")
    pub own : get "org_id" att ≡ some (text i)

  abbrev pub Asked : String → Org → Type 0
  Asked i o = SignedLeave i o.public_key_pem o.leave_attestation o.leave_signature

  -- Every organisation that waits for its removal has a signed request.
  abbrev pub Consents : Store → Type 0
  Consents s = (i : String) (o : Org) → get_org i s ≡ some o → o.status ≡ leave_pending → Asked i o

  -- An update of one row keeps this if it does for that row.
  pub update_org-Consents :
      (i : String) (f : Org → Org) (s : Store)
      → ((o : Org) → (f o).org_id ≡ o.org_id)
      → ((o : Org) → get_org i s ≡ some o → (f o).status ≡ leave_pending → Asked i (f o))
      → Consents s
      → Consents (update_org i f s)
  update_org-Consents i f s same here all j o' e pending = elim (Bool-cases (i == j)) [
    | inr ne ↦ all j o' (sym (get_org-update_org_ne i j f s same ne) ∙ e) pending
    | inl eq ↦
        let ij = (eq_iff i j).0 eq in
        let e : get_org i (update_org i f s) ≡ some o' =
          subst (λ x. get_org x (update_org i f s) ≡ some o') (sym ij) e in
        elim (Option-cases (get_org i s)) [
          | inl gone ↦ absurd (ground (arith, get_org-update_org i i f s same, gone, e))
          | inr (o, k) ↦
              let found : f o ≡ o' =
                ground (arith, get_org-update_org i i f s same, k, e, get_org-has_id i s o k) in
              subst (λ x. Asked x o') ij
                (subst (λ x. Asked i x) found
                  (here o k (ap (λ (x : Org). x.status) found ∙ pending)))
        ]
  ]

  pub replace_org-Consents :
      (row : Org) (s : Store) → row.status ≡ active → Consents s → Consents (replace_org row s)
  replace_org-Consents row s live all j o e pending = elim (Bool-cases (row.org_id == j)) [
    | inr ne ↦ all j o (ground (arith, get_org-replace_org j row s, ne, e)) pending
    | inl eq ↦ absurd (ground (arith, get_org-replace_org j row s, eq, e, live, pending))
  ]

  module _ (i : String) (b : LeaveRequestBody) (now : ℕ) (w : World) (all : Consents w.store) where
    by-Consents :
        (o : Org) (pem : String) (att : Dict) (sig : Bytes) (k : Option String)
        → get_org i w.store ≡ some o
        → o.public_key_pem ≡ some pem
        → env.wire.public_key_from_pem pem ≡ k
        → env.wire.unhex b.signature ≡ some sig
        → env.wire.loads b.attestation ≡ object att
        → get "type" att ≡ some (text "fl.leave_request.v1")
        → get "org_id" att ≡ some (text i)
        → Consents (leave_by env i b now att sig k w).1.store
    unfolding audit_log set_leave_request
    by-Consents o pem att sig none known has l d loads typed own = all
    by-Consents o pem att sig (some key) known has l d loads typed own =
        elim (Bool-cases (env.wire.verify key b.attestation sig)) [
          | inr n ↦ rw n all
          | inl y ↦ rw y (
              update_org-Consents i _ w.store (λ o. refl)
                (λ o' e _. record {
                  key_pem = pem;
                  key = key;
                  request = b.attestation;
                  signature_hex = b.signature;
                  sig = sig;
                  att = att;
                  has_key =
                      ap (λ (x : Org). x.public_key_pem) (some-injective o' o (sym e ∙ known))
                      ∙ has;
                  loads_key = l;
                  has_request = refl;
                  has_signature = refl;
                  decoded = d;
                  verified = y;
                  loaded = loads;
                  typed = typed;
                  own = own;
                })
                all)
        ]

    signed-Consents :
        (o : Org) (pem : String) (att : Dict) (sig : Option Bytes)
        → get_org i w.store ≡ some o
        → o.public_key_pem ≡ some pem
        → env.wire.unhex b.signature ≡ sig
        → env.wire.loads b.attestation ≡ object att
        → get "type" att ≡ some (text "fl.leave_request.v1")
        → get "org_id" att ≡ some (text i)
        → Consents (leave_signed env i b now att pem sig w).1.store
    signed-Consents o pem att none known has d loads typed own = all
    signed-Consents o pem att (some sig) known has d loads typed own =
        by-Consents o pem att sig _ known has refl d loads typed own

    key-Consents :
        (o : Org) (att : Dict) (k : Option String)
        → get_org i w.store ≡ some o
        → nonempty o.public_key_pem ≡ k
        → env.wire.loads b.attestation ≡ object att
        → get "type" att ≡ some (text "fl.leave_request.v1")
        → get "org_id" att ≡ some (text i)
        → Consents (leave_key env i b now att k w).1.store
    key-Consents o att none known has loads typed own = all
    key-Consents o att (some pem) known has loads typed own =
        signed-Consents o pem att _ known (nonempty-some o.public_key_pem pem has) refl loads typed
          own

    loaded-Consents :
        (o : Org) (l : Loaded)
        → get_org i w.store ≡ some o
        → env.wire.loads b.attestation ≡ l
        → Consents (leave_loaded env i b now o l w).1.store
    loaded-Consents o invalid known loads = all
    loaded-Consents o other known loads = all
    loaded-Consents o (object att) known loads =
        elim (Bool-cases (is_text "fl.leave_request.v1" (get "type" att))) [
          | inr n ↦ rw n all
          | inl y ↦ elim (Bool-cases (is_text i (get "org_id" att))) [
            | inr n ↦ rw (y, n) all
            | inl z ↦
                rw (y, z)
                  (key-Consents o att _ known refl loads (is_text-true _ (get "type" att) y)
                    (is_text-true _ (get "org_id" att) z))
          ]
        ]

    found-Consents :
        (o : Option Org) → get_org i w.store ≡ o → Consents (leave_found env i b now o w).1.store
    found-Consents none known = all
    found-Consents (some o) known = elim (Bool-cases (is_revoked o.status)) [
      | inl gone ↦ rw gone all
      | inr here ↦ rw here (loaded-Consents o _ known refl)
    ]

    pub org_leave_request-Consents :
        (auth_org_id : String) → Consents (org_leave_request env i b now auth_org_id w).1.store
    unfolding org_leave_request
    org_leave_request-Consents auth_org_id = elim (Bool-cases (auth_org_id == i)) [
      | inr n ↦ rw n all
      | inl y ↦ rw y (found-Consents (get_org i w.store) refl)
    ]
