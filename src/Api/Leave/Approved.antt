-- ===== src/Api/Leave/Approved.antt =====
-- coordinator/api.py: which removals are approved, and what the organisation reads afterwards.
use threat_hunting_platform.Prelude.{
  ℕ, String, Bytes, ◌≡◌, refl, true, false, Option, none, some, [], arith, Bool-cases, Option-cases,
  inl, inr, ◌==◌, string_Eq, ap,
}
use threat_hunting_platform.Prelude.Table.{find}
use threat_hunting_platform.Store.Rows.{
  Org, OrgStatus, revoked, leave_pending, is_leave_pending, Store,
}
use threat_hunting_platform.Store.Orgs.{get_org, has_id, set_removal_confirm}
use threat_hunting_platform.Store.Orgs.Trust.{get_org-update_org, get_org-has_id}
use threat_hunting_platform.Attestation.{build_removal_confirm_attestation}
use threat_hunting_platform.Api.{Env, World, ok, ok_eq, audit_log}
use threat_hunting_platform.Api.Orgs.{approve_removal, removal_of}
use threat_hunting_platform.Api.Orgs.Status.{
  with_status, regenerate_crl-store, set_org_status-get_org,
}
use threat_hunting_platform.Api.Leave.{removal_status}
use threat_hunting_platform.Api.Leave.Consent.{Consents, Asked}
use threat_hunting_platform.Api.Leave.Steps.{Steps, Steps-Consents}

pending_status : (st : OrgStatus) → is_leave_pending st ≡ true → st ≡ leave_pending
pending_status st e = ground arith

abbrev confirmed : String → String → Org → Org
confirmed att sig o = record o { removal_attestation = some att; removal_signature = some sig }

confirm-get_org :
    (i att sig : String) (s : Store) (o : Org)
    → get_org i s ≡ some o
    → get_org i (set_removal_confirm i att sig s) ≡ some (confirmed att sig o)
unfolding set_removal_confirm
confirm-get_org i att sig s o e =
    ground (arith, get_org-update_org i i (confirmed att sig) s (λ o. refl), get_org-has_id i s o e)

module _ (env : Env) where
  none_enrolled : (s : Store) → s.orgs ≡ [] → Consents env s
  unfolding get_org find
  none_enrolled s e i o known pending = absurd (ground (arith, ap (find (has_id i)) e, known))

  -- An organisation that an approval removes.
  pub record Leaves (i : String) (s : Store) : Type 0 where
    pub org : Org
    pub known : get_org i s ≡ some org
    pub pending : org.status ≡ leave_pending
    pub asked : Asked env i org

  -- Whatever requests came since the first organisation was enrolled, a removal is approved only for
  -- an organisation that has asked for it, in a request that its row keeps with a signature that
  -- the organisation's key verifies.
  pub approve_removal-Leaves :
      {w₀ w : World} (i username : String) (now : ℕ) (p : Bytes × String)
      → w₀.store.orgs ≡ []
      → Steps env w₀ w
      → (approve_removal env i username now w).0 ≡ ok p
      → Leaves i w.store
  unfolding approve_removal
  approve_removal-Leaves {w₀} {w} i username now p first run e =
      let all = Steps-Consents env run (none_enrolled w₀.store first) in
      elim (Option-cases (get_org i w.store)) [
        | inl gone ↦ absurd (ground (arith, gone, e))
        | inr (o, known) ↦ elim (Bool-cases (is_leave_pending o.status)) [
          | inr n ↦ absurd (ground (arith, known, n, e))
          | inl y ↦ record {
            org = o;
            known = known;
            pending = pending_status o.status y;
            asked = all i o known (pending_status o.status y);
          }
        ]
      ]

  removal-get_org :
      (k : Option String) (i username : String) (now : ℕ) (w : World) (o : Org) (confirm : Bytes)
      (sig : String)
      → get_org i w.store ≡ some o
      → (removal_of env k i username now w).0 ≡ ok (confirm, sig)
      → get_org i (removal_of env k i username now w).1.store
        ≡ some (confirmed confirm sig (with_status revoked o))
  unfolding audit_log
  removal-get_org none i username now w o confirm sig known e = absurd (ground arith)
  removal-get_org (some priv) i username now w o confirm sig known e =
      let att = build_removal_confirm_attestation env.wire i now in
      let p = ok_eq (att, env.wire.hex (env.wire.sign priv att)) (confirm, sig) e in
      let sig' = env.wire.hex (env.wire.sign priv att) in
      rw (regenerate_crl-store env now _, ← ap (λ x. x.1) p, ← ap (λ x. x.0) p)
        (confirm-get_org i att sig' _ (with_status revoked o)
          (set_org_status-get_org i revoked w.store o known))

  confirmed_status :
      (i : String) (mtls : Option String) (key att sig : String) (o : Org) (s : Store)
      → get_org i s ≡ some (confirmed att sig (with_status revoked o))
      → (key == "") ≡ false
      → (att == "") ≡ false
      → (o.api_key_hash == env.tokens.sha256 key) ≡ true
      → removal_status env i mtls (some key) s
        ≡ ok (record { org_id = i; status = revoked; removal_confirm = some (att, some sig) })
  unfolding removal_status
  confirmed_status i none key att sig o s known k a h = rw (known, k, h, a) refl
  confirmed_status i (some j) key att sig o s known k a h = elim (Bool-cases (j == i)) [
    | inl own ↦ rw (known, k, own, a) refl
    | inr ne ↦ rw (known, k, ne, h, a) refl
  ]

  -- After a removal is approved the organisation, though revoked, reads with its key that it is
  -- revoked, and the very confirmation and signature that the operator's reply had.
  pub removal_status-approve_removal :
      (i username : String) (now : ℕ) (w : World) (o : Org) (confirm : Bytes) (sig : String)
      (mtls : Option String) (key : String)
      → get_org i w.store ≡ some o
      → (o.api_key_hash == env.tokens.sha256 key) ≡ true
      → (key == "") ≡ false
      → (confirm == "") ≡ false
      → let (r, w') = approve_removal env i username now w in
        r ≡ ok (confirm, sig)
        → removal_status env i mtls (some key) w'.store
          ≡ ok (record { org_id = i; status = revoked; removal_confirm = some (confirm, some sig) })
  unfolding approve_removal
  removal_status-approve_removal i username now w o confirm sig mtls key known h k c e =
      elim (Bool-cases (is_leave_pending o.status)) [
        | inr n ↦ absurd (ground (arith, known, n, e))
        | inl y ↦
            rw (known, y)
              (confirmed_status i mtls key confirm sig o _
                (removal-get_org env.coord_priv i username now w o confirm sig known
                  (rw (known, y) at e))
                k c h)
      ]
