-- ===== src/Api/Orgs.antt =====
-- coordinator/api.py: the handlers that change an organisation's status. `now` is the time of the
-- call; writing the CRL file always succeeds.
pub mod Status
use threat_hunting_platform.Prelude.{
  ℕ, String, Bytes, Bool, true, false, not, Option, none, some, List, [], ◌∷◌, ◌==◌, string_Eq,
  if◌then◌else◌,
}
use threat_hunting_platform.Store.Rows.{
  Org, OrgStatus, active, blocked, revoked, is_revoked, is_leave_pending, Store,
}
use threat_hunting_platform.Store.Orgs.{
  get_org, set_org_status, set_leave_request, set_removal_confirm, list_revoked_serials, nonempty,
}
use threat_hunting_platform.Attestation.{
  Value, text, Dict, get, Loaded, invalid, other, object, build_removal_confirm_attestation,
}
use threat_hunting_platform.Ca.{Key, Certificate, ca_sign_algorithm, build_crl}
use threat_hunting_platform.Client.{is_text}
use threat_hunting_platform.Api.{Env, World, Reply, ok, fail, audit_log}

module _ (env : Env) where
  -- Without a CA nothing happens.
  abbrev regenerate : Option Key → Option Certificate → ℕ → World → World
  regenerate (some ca_priv) (some ca_cert) now w =
      let crl = build_crl ca_cert (list_revoked_serials w.store) 30 now in
      let pem = env.x509.crl_to_pem ca_priv (ca_sign_algorithm ca_priv) crl in
      record w { crl = some crl; files = (env.crl_path, pem) ∷ w.files }
  regenerate _ _ now w = w

  unfoldable pub regenerate_crl : ℕ → World → World
  regenerate_crl now w = regenerate env.ca_priv env.ca_cert now w

  abbrev if_known :
      {A : Type 0} → Option Org → (Org → World → Reply A × World) → World → Reply A × World
  if_known none body w = (fail 404, w)
  if_known (some org) body w = body org w

  unfoldable pub block_org : String → String → ℕ → World → Reply OrgStatus × World
  unfolding audit_log
  block_org org_id username now w =
      if_known (get_org org_id w.store)
        (λ _ w. (
          ok blocked,
          audit_log env "fl.org.block" username org_id [] now
              (record w { store = set_org_status org_id blocked w.store }),
        ))
        w

  unfoldable pub unblock_org : String → String → ℕ → World → Reply OrgStatus × World
  unfolding audit_log
  unblock_org org_id username now w =
      if_known (get_org org_id w.store)
        (λ _ w. (
          ok active,
          audit_log env "fl.org.unblock" username org_id [] now
              (record w { store = set_org_status org_id active w.store }),
        ))
        w

  unfoldable pub revoke_org : String → String → ℕ → World → Reply OrgStatus × World
  unfolding audit_log regenerate_crl
  revoke_org org_id username now w =
      if_known (get_org org_id w.store)
        (λ _ w. (
          ok revoked,
          audit_log env "fl.org.revoke" username org_id [] now
              (regenerate_crl now (record w { store = set_org_status org_id revoked w.store })),
        ))
        w

  -- `approve_removal`: the signed confirmation
  abbrev pub removal_of :
      Option String → String → String → ℕ → World → Reply (Bytes × String) × World
  removal_of none org_id username now w = (fail 503, w)
  removal_of (some priv) org_id username now w =
      let confirm = build_removal_confirm_attestation env.wire org_id now in
      let sig_hex = env.wire.hex (env.wire.sign priv confirm) in
      let s = set_removal_confirm org_id confirm sig_hex (set_org_status org_id revoked w.store) in
      (
        ok (confirm, sig_hex),
        audit_log env "fl.org.removal_approved" username org_id [] now
            (regenerate_crl now (record w { store = s })),
      )

  unfoldable pub approve_removal : String → String → ℕ → World → Reply (Bytes × String) × World
  unfolding audit_log regenerate_crl
  approve_removal org_id username now w =
      if_known (get_org org_id w.store)
        (λ org w.
          if not (is_leave_pending org.status)
          then (fail 409, w)
          else removal_of env.coord_priv org_id username now w)
        w
