-- ===== src/Api/Leave.antt =====
-- coordinator/api.py: the half of a removal that the organisation has: it asks to leave, and reads
-- what became of it. FastAPI has authenticated the organisation as `auth_org_id`.
pub mod Consent
pub mod Steps
pub mod Approved
use threat_hunting_platform.Prelude.{
  ℕ, String, Bytes, Bool, true, false, not, Option, none, some, List, [], ◌∷◌, ◌==◌, string_Eq,
  if◌then◌else◌,
}
use threat_hunting_platform.Store.Rows.{Org, OrgStatus, leave_pending, is_revoked, Store}
use threat_hunting_platform.Store.Orgs.{get_org, nonempty, set_leave_request}
use threat_hunting_platform.Attestation.{Value, text, Dict, get, Loaded, invalid, other, object}
use threat_hunting_platform.Client.{is_text}
use threat_hunting_platform.Api.{Env, World, Reply, ok, fail, audit_log}

pub record LeaveRequestBody : Type 0 where
  pub attestation : String
  pub signature : String

-- `removal_confirm` is the signed text and its signature.
pub record RemovalStatus : Type 0 where
  pub org_id : String
  pub status : OrgStatus
  pub removal_confirm : Option (String × Option String)

module _ (env : Env) where
  abbrev str : Option Value → String
  str none = ""
  str (some (text t)) = t
  str (some v) = env.str_of v

  module _ (org_id : String) (b : LeaveRequestBody) (now : ℕ) where
    abbrev pub leave_by : Dict → Bytes → Option String → World → Reply OrgStatus × World
    leave_by att sig none w = (fail 500, w)
    leave_by att sig (some key) w =
        if not (env.wire.verify key b.attestation sig) then (fail 403, w) else (
          ok leave_pending,
          audit_log env "fl.org.leave_requested" (env.show_org org_id) org_id
              (("reason", text (env.cut (str (get "reason" att)))) ∷ []) now
              (record w { store = set_leave_request org_id b.attestation b.signature now w.store }),
        )

    abbrev pub leave_signed : Dict → String → Option Bytes → World → Reply OrgStatus × World
    leave_signed att pem none w = (fail 400, w)
    leave_signed att pem (some sig) w = leave_by att sig (env.wire.public_key_from_pem pem) w

    abbrev pub leave_key : Dict → Option String → World → Reply OrgStatus × World
    leave_key att none w = (fail 403, w)
    leave_key att (some pem) w = leave_signed att pem (env.wire.unhex b.signature) w

    abbrev pub leave_loaded : Org → Loaded → World → Reply OrgStatus × World
    leave_loaded org invalid w = (fail 400, w)
    leave_loaded org other w = (fail 500, w)
    leave_loaded org (object att) w =
        if not (is_text "fl.leave_request.v1" (get "type" att))
        then (fail 400, w)
        else if not (is_text org_id (get "org_id" att))
        then (fail 400, w)
        else leave_key att (nonempty org.public_key_pem) w

    abbrev pub leave_found : Option Org → World → Reply OrgStatus × World
    leave_found none w = (fail 404, w)
    leave_found (some org) w =
        if is_revoked org.status
        then (fail 409, w)
        else leave_loaded org (env.wire.loads b.attestation) w

    unfoldable pub org_leave_request : String → World → Reply OrgStatus × World
    unfolding audit_log
    org_leave_request auth_org_id w =
        if not (auth_org_id == org_id)
        then (fail 403, w)
        else leave_found (get_org org_id w.store) w

  abbrev pub is_key_of : Org → Option String → Bool
  is_key_of org none = false
  is_key_of org (some key) = org.api_key_hash == env.tokens.sha256 key

  abbrev pub is_own : String → Option String → Bool
  is_own org_id none = false
  is_own org_id (some i) = i == org_id

  abbrev pub confirm_of : Org → Option (String × Option String)
  confirm_of org =
      if is_revoked org.status
      then elim (nonempty org.removal_attestation) [
        | none ↦ none
        | some ra ↦ some (ra, org.removal_signature)
      ]
      else none

  abbrev pub removal_status_of :
      String → Option String → Option String → Option Org → Reply RemovalStatus
  removal_status_of org_id mtls_org_id api_key none = fail 404
  removal_status_of org_id mtls_org_id api_key (some org) =
      if (if is_own org_id mtls_org_id then true else is_key_of org (nonempty api_key))
      then ok (record { org_id = org_id; status = org.status; removal_confirm = confirm_of org })
      else fail 401

  unfoldable pub removal_status :
      String → Option String → Option String → Store → Reply RemovalStatus
  removal_status org_id mtls_org_id api_key s =
      removal_status_of org_id mtls_org_id api_key (get_org org_id s)
