-- ===== src/Api/Orgs/Status.antt =====
-- coordinator/api.py: what revoking, blocking and unblocking do to an organisation.
use threat_hunting_platform.Prelude.{
  ℕ, String, ◌≡◌, refl, true, false, ◌&&◌, Option, none, some, List, [], ◌∷◌, arith, Bool-cases,
  Option-cases, inl, inr, ◌==◌, string_Eq, nat_Eq, nat_eq,
}
use threat_hunting_platform.Prelude.Table.{find, select, update, any}
use threat_hunting_platform.Store.Rows.{
  Org, OrgStatus, active, revoked, is_active, is_revoked, Store,
}
use threat_hunting_platform.Store.Orgs.{
  has_id, get_org, get_org_public_key, set_org_status, list_revoked_serials, serials_of,
}
use threat_hunting_platform.Store.Orgs.Trust.{
  get_org-update_org, get_org-update_org_ne, get_org-has_id,
}
use threat_hunting_platform.Ca.{Key, Certificate, Crl, build_crl, is_revoked as on_crl}
use threat_hunting_platform.Api.{Env, World, ok, audit_log}
use threat_hunting_platform.Api.Orgs.{regenerate, regenerate_crl, unblock_org, revoke_org}

abbrev pub with_status : OrgStatus → Org → Org
with_status status o = record o { status = status }

pub set_org_status-get_org :
    (i : String) (st : OrgStatus) (s : Store) (o : Org)
    → get_org i s ≡ some o
    → get_org i (set_org_status i st s) ≡ some (with_status st o)
unfolding set_org_status
set_org_status-get_org i st s o e =
    ground (arith, get_org-update_org i i (with_status st) s (λ o. refl), get_org-has_id i s o e)

pub set_org_status-get_org_ne :
    (i j : String) (st : OrgStatus) (s : Store)
    → (i == j) ≡ false
    → get_org j (set_org_status i st s) ≡ get_org j s
unfolding set_org_status
set_org_status-get_org_ne i j st s ne = get_org-update_org_ne i j (with_status st) s (λ o. refl) ne

-- An organisation that is not active cannot sign.
no_active :
    (i : String) (st : OrgStatus) (t : List Org)
    → is_active st ≡ false
    → find (λ o. has_id i o && is_active o.status) (update (has_id i) (with_status st) t) ≡ none
unfolding find update
no_active i st [] n = refl
no_active i st (o ∷ t) n = ground (arith, no_active i st t n)

-- one more serial does not unlist another
serial_kept :
    (n : ℕ) (x : Org) (t : List Org)
    → any (nat_eq n) (serials_of t) ≡ true
    → any (nat_eq n) (serials_of (x ∷ t)) ≡ true
unfolding find
serial_kept n x t h = elim (Option-cases x.cert_serial) [
  | inl e ↦ rw e h
  | inr (m, e) ↦ rw e (ground (arith, h))
]

serial_first :
    (n : ℕ) (x : Org) (t : List Org)
    → x.cert_serial ≡ some n
    → any (nat_eq n) (serials_of (x ∷ t)) ≡ true
unfolding find
serial_first n x t e = rw e (ground arith)

abbrev revoked_rows : List Org → List Org
revoked_rows t = select (λ o. is_revoked o.status) t

serial_listed :
    (i : String) (n : ℕ) (o : Org) (t : List Org)
    → find (has_id i) t ≡ some o
    → o.cert_serial ≡ some n
    → any (nat_eq n) (serials_of (revoked_rows (update (has_id i) (with_status revoked) t))) ≡ true
unfolding find update select
serial_listed i n o [] e c = absurd (ground arith)
serial_listed i n o (x ∷ t) e c =
    let rest = revoked_rows (update (has_id i) (with_status revoked) t) in
    elim (Bool-cases (has_id i x)) [
      | inl own ↦ rw own (serial_first n (with_status revoked x) rest (ground (arith, own)))
      | inr other ↦
          let listed = serial_listed i n o t (ground (arith, other)) c in
          elim (Bool-cases (is_revoked x.status)) [
            | inl gone ↦ rw (other, gone) (serial_kept n x rest listed)
            | inr here ↦ rw (other, here) listed
          ]
    ]

regenerate-store :
    (env : Env) (k : Option Key) (c : Option Certificate) (now : ℕ) (w : World)
    → (regenerate env k c now w).store ≡ w.store
regenerate-store env (some k) (some c) now w = refl
regenerate-store env (some k) none now w = refl
regenerate-store env none c now w = refl

pub regenerate_crl-store :
    (env : Env) (now : ℕ) (w : World) → (regenerate_crl env now w).store ≡ w.store
unfolding regenerate_crl
regenerate_crl-store env now w = regenerate-store env env.ca_priv env.ca_cert now w

-- a serial that is put on a list is on the list that is built of it
pub build_crl-is_revoked :
    (c : Certificate) (n days now : ℕ) (l : List ℕ)
    → any (nat_eq n) l ≡ true
    → on_crl (build_crl c l days now) n ≡ true
unfolding build_crl on_crl find
build_crl-is_revoked c n days now [] h = absurd (ground arith)
build_crl-is_revoked c n days now (m ∷ l) h = ground (arith, build_crl-is_revoked c n days now l)

revoked_key : (i : String) (s : Store) → get_org_public_key i (set_org_status i revoked s) ≡ none
unfolding get_org_public_key set_org_status
revoked_key i s = rw (no_active i revoked s.orgs refl, get_org_public_key)

pub revoked_serial :
    (env : Env) (i : String) (w : World) (o : Org) (n now : ℕ) (k : Key) (c : Certificate)
    → get_org i w.store ≡ some o
    → env.ca_priv ≡ some k
    → env.ca_cert ≡ some c
    → o.cert_serial ≡ some n
    → let w' = regenerate_crl env now (record w { store = set_org_status i revoked w.store }) in
      (l : Crl) × (w'.crl ≡ some l) × (on_crl l n ≡ true)
unfolding get_org regenerate_crl set_org_status list_revoked_serials
revoked_serial env i w o n now k c known priv cert serial =
    rw (priv, cert)
      (_, refl, build_crl-is_revoked c n 30 now _ (serial_listed i n o w.store.orgs known serial))

module _ (env : Env) (i username : String) (now : ℕ) (w : World) (o : Org)
    (known : get_org i w.store ≡ some o) where
  pub revoke_org-store :
      (revoke_org env i username now w).1.store ≡ set_org_status i revoked w.store
  unfolding revoke_org audit_log
  revoke_org-store =
      rw
        (
          known,
          regenerate_crl-store env now (record w { store = set_org_status i revoked w.store }),
        )
        refl

  -- Revoking an enrolled organisation succeeds, sets its status and nothing else of its row, and
  -- leaves it no key that a contribution could be signed with.
  pub revoke_org-revokes :
      let (r, w') = revoke_org env i username now w in
      (r ≡ ok revoked)
      × (get_org i w'.store ≡ some (with_status revoked o))
      × (get_org_public_key i w'.store ≡ none)
  unfolding revoke_org audit_log
  revoke_org-revokes =
      let w' = record w { store = set_org_status i revoked w.store } in
      rw (known, regenerate_crl-store env now w')
        (refl, set_org_status-get_org i revoked w.store o known, revoked_key i w.store)

  -- With a CA, revoking an enrolled organisation that has a certificate puts the certificate's
  -- serial on the revocation list that the middleware holds.
  pub revoke_org-lists :
      (n : ℕ) (k : Key) (c : Certificate)
      → env.ca_priv ≡ some k
      → env.ca_cert ≡ some c
      → o.cert_serial ≡ some n
      → let w' = (revoke_org env i username now w).1 in
        (l : Crl) × (w'.crl ≡ some l) × (on_crl l n ≡ true)
  unfolding revoke_org audit_log
  revoke_org-lists n k c priv cert serial =
      rw known (revoked_serial env i w o n now k c known priv cert serial)

  -- An enrolled organisation that is revoked and then unblocked is active again, and its row is
  -- otherwise as it was.
  pub unblock_org-revoke_org :
      (username' : String) (now' : ℕ)
      → let w' = (revoke_org env i username now w).1 in
        let (r, w'') = unblock_org env i username' now' w' in
        (r ≡ ok active) × (get_org i w''.store ≡ some (with_status active o))
  unfolding revoke_org unblock_org audit_log
  unblock_org-revoke_org username' now' =
      let w' = record w { store = set_org_status i revoked w.store } in
      let gone = set_org_status-get_org i revoked w.store o known in
      rw (known, regenerate_crl-store env now w', gone)
        (refl, set_org_status-get_org i active w'.store (with_status revoked o) gone)
