-- ===== src/Api/Leave/Steps.antt =====
-- coordinator/api.py: the handlers that change an organisation's row, as a step relation.
use threat_hunting_platform.Prelude.{
  ℕ, String, ◌≡◌, refl, sym, ◌∙◌, ap, Option, none, some, arith, Bool-cases, inl, inr, false,
  Option-cases,
}
use threat_hunting_platform.Prelude.Table.{find}
use threat_hunting_platform.Store.Rows.{
  OrgStatus, active, blocked, revoked, is_leave_pending, Fraction, Store,
}
use threat_hunting_platform.Store.Orgs.{
  get_org, has_id, set_org_status, update_org_trust, set_org_last_accuracy, set_removal_confirm,
  replace_org,
}
use threat_hunting_platform.Store.Orgs.Trust.{Puts}
use threat_hunting_platform.Api.SelfEnroll.Puts.{enroll_with_token-Puts}
use threat_hunting_platform.Api.Enroll.Operator.{enroll_org-Puts}
use threat_hunting_platform.Api.{Env, World, audit_log}
use threat_hunting_platform.Api.Orgs.{
  block_org, unblock_org, revoke_org, approve_removal, removal_of,
}
use threat_hunting_platform.Api.Orgs.Status.{with_status, regenerate_crl-store}
use threat_hunting_platform.Api.Enroll.{EnrollOrgRequest, Drawn, enroll_org}
use threat_hunting_platform.Api.SelfEnroll.{EnrollWithTokenRequest, enroll_with_token}
use threat_hunting_platform.Api.Leave.{LeaveRequestBody, org_leave_request}
use threat_hunting_platform.Api.Leave.Consent.{
  Consents, update_org-Consents, org_leave_request-Consents, replace_org-Consents,
}

-- One request, or one write of the trust manager; `other` is whatever leaves the organisations
-- alone. The operator or the organisation that calls is any.
pub data Step (env : Env) : World → World → Type 0 where
  enrol :
      (b : EnrollOrgRequest) (username : String) (d : Drawn) (now : ℕ) (w : World)
      → Step env w (enroll_org env b username d now w).1
  self_enrol :
      (b : EnrollWithTokenRequest) (d : Drawn) (now : ℕ) (w : World)
      → Step env w (enroll_with_token env b d now w).1
  block :
      (i username : String) (now : ℕ) (w : World) → Step env w (block_org env i username now w).1
  unblock :
      (i username : String) (now : ℕ) (w : World) → Step env w (unblock_org env i username now w).1
  revoke :
      (i username : String) (now : ℕ) (w : World) → Step env w (revoke_org env i username now w).1
  ask :
      (i : String) (b : LeaveRequestBody) (now : ℕ) (auth_org_id : String) (w : World)
      → Step env w (org_leave_request env i b now auth_org_id w).1
  approve :
      (i username : String) (now : ℕ) (w : World)
      → Step env w (approve_removal env i username now w).1
  score :
      (i : String) (trust_score now : ℕ) (w : World)
      → Step env w (record w { store = update_org_trust i trust_score now w.store })
  measure :
      (i : String) (accuracy : Fraction) (w : World)
      → Step env w (record w { store = set_org_last_accuracy i accuracy w.store })
  other : (w w' : World) → w'.store.orgs ≡ w.store.orgs → Step env w w'

pub data Steps (env : Env) : World → World → Type 0 where
  here : {w : World} → Steps env w w
  then : {u v w : World} → Step env u v → Steps env v w → Steps env u w

module _ (env : Env) where
  status-Consents :
      (i : String) (st : OrgStatus) (s : Store)
      → is_leave_pending st ≡ false
      → Consents env s
      → Consents env (set_org_status i st s)
  unfolding set_org_status
  status-Consents i st s calm all =
      update_org-Consents env i (with_status st) s (λ o. refl)
        (λ o e pending. absurd (ground (arith, calm, pending))) all

  -- Only the table of organisations counts.
  orgs-Consents : (s s' : Store) → s'.orgs ≡ s.orgs → Consents env s → Consents env s'
  unfolding get_org
  orgs-Consents s s' e all i o known pending =
      all i o (ap (find (has_id i)) (sym e) ∙ known) pending

  Puts-Consents : (s s' : Store) → Puts s s' → Consents env s → Consents env s'
  Puts-Consents s s' (Puts.same e) all = orgs-Consents s s' e all
  Puts-Consents s s' (Puts.put row live e) all =
      orgs-Consents (replace_org row s) s' e (replace_org-Consents env row s live all)

  block-Consents :
      (i username : String) (now : ℕ) (w : World)
      → Consents env w.store
      → Consents env (block_org env i username now w).1.store
  unfolding block_org audit_log
  block-Consents i username now w all = elim (Option-cases (get_org i w.store)) [
    | inl e ↦ rw e all
    | inr (o, e) ↦ rw e (status-Consents i blocked w.store refl all)
  ]

  unblock-Consents :
      (i username : String) (now : ℕ) (w : World)
      → Consents env w.store
      → Consents env (unblock_org env i username now w).1.store
  unfolding unblock_org audit_log
  unblock-Consents i username now w all = elim (Option-cases (get_org i w.store)) [
    | inl e ↦ rw e all
    | inr (o, e) ↦ rw e (status-Consents i active w.store refl all)
  ]

  revoke-Consents :
      (i username : String) (now : ℕ) (w : World)
      → Consents env w.store
      → Consents env (revoke_org env i username now w).1.store
  unfolding revoke_org audit_log
  revoke-Consents i username now w all = elim (Option-cases (get_org i w.store)) [
    | inl e ↦ rw e all
    | inr (o, e) ↦
        rw (e, regenerate_crl-store env now (record w { store = set_org_status i revoked w.store }))
          (status-Consents i revoked w.store refl all)
  ]

  confirm-Consents :
      (i att sig : String) (s : Store)
      → Consents env s
      → Consents env (set_removal_confirm i att sig s)
  unfolding set_removal_confirm
  confirm-Consents i att sig s all = update_org-Consents env i _ s (λ o. refl) (λ o. all i o) all

  removal-Consents :
      (k : Option String) (i username : String) (now : ℕ) (w : World)
      → Consents env w.store
      → Consents env (removal_of env k i username now w).1.store
  unfolding audit_log
  removal-Consents none i username now w all = all
  removal-Consents (some priv) i username now w all =
      rw (regenerate_crl-store env now _)
        (confirm-Consents i _ _ _ (status-Consents i revoked w.store refl all))

  approve-Consents :
      (i username : String) (now : ℕ) (w : World)
      → Consents env w.store
      → Consents env (approve_removal env i username now w).1.store
  unfolding approve_removal
  approve-Consents i username now w all = elim (Option-cases (get_org i w.store)) [
    | inl e ↦ rw e all
    | inr (o, e) ↦ elim (Bool-cases (is_leave_pending o.status)) [
      | inl y ↦ rw (e, y) (removal-Consents env.coord_priv i username now w all)
      | inr n ↦ rw (e, n) all
    ]
  ]

  trust-Consents :
      (i : String) (n now : ℕ) (s : Store)
      → Consents env s
      → Consents env (update_org_trust i n now s)
  unfolding update_org_trust
  trust-Consents i n now s all = update_org-Consents env i _ s (λ o. refl) (λ o. all i o) all

  accuracy-Consents :
      (i : String) (a : Fraction) (s : Store)
      → Consents env s
      → Consents env (set_org_last_accuracy i a s)
  unfolding set_org_last_accuracy
  accuracy-Consents i a s all = update_org-Consents env i _ s (λ o. refl) (λ o. all i o) all

  Step-Consents : {w w' : World} → Step env w w' → Consents env w.store → Consents env w'.store
  Step-Consents (enrol b username d now w) =
      Puts-Consents w.store _ (enroll_org-Puts env b username d now w)
  Step-Consents (self_enrol b d now w) =
      Puts-Consents w.store _ (enroll_with_token-Puts env b d now w)
  Step-Consents (block i username now w) = block-Consents i username now w
  Step-Consents (unblock i username now w) = unblock-Consents i username now w
  Step-Consents (revoke i username now w) = revoke-Consents i username now w
  Step-Consents (ask i b now auth_org_id w) =
      λ all. org_leave_request-Consents env i b now w all auth_org_id
  Step-Consents (approve i username now w) = approve-Consents i username now w
  Step-Consents (score i n now w) = trust-Consents i n now w.store
  Step-Consents (measure i a w) = accuracy-Consents i a w.store
  Step-Consents (other w w' e) = orgs-Consents w.store w'.store e

  -- The invariant of the two-step removal: from a store in which every organisation that waits for
  -- its removal has a request to leave, signed with its own key and kept in its row, any sequence of
  -- requests and trust updates leads to such a store.
  pub Steps-Consents :
      {w w' : World} → Steps env w w' → Consents env w.store → Consents env w'.store
  Steps-Consents here all = all
  Steps-Consents (then s r) all = Steps-Consents r (Step-Consents s all)
