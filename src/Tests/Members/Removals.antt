-- ===== src/Tests/Members/Removals.antt =====
-- coordinator/api.py: acme is enrolled, asks to leave, and is let go.
use threat_hunting_platform.Attestation.{build_removal_confirm_attestation, get}
use threat_hunting_platform.Prelude.{◌≡◌, refl, none, some, [], ◌∷◌}
use threat_hunting_platform.Prelude.Table.{find, update, delete}
use threat_hunting_platform.Store.Rows.{empty, revoked, leave_pending}
use threat_hunting_platform.Store.Orgs.{
  get_org, is_enrolled, replace_org, enrolled_row, set_leave_request, update_org,
  enroll_org as insert_org,
}
use threat_hunting_platform.Api.{World, ok}
use threat_hunting_platform.Api.Orgs.{approve_removal}
use threat_hunting_platform.Api.Orgs.Status.{with_status}
use threat_hunting_platform.Api.Enroll.{EnrollOrgRequest, enroll_org}
use threat_hunting_platform.Api.Leave.{LeaveRequestBody, org_leave_request, removal_status}
use threat_hunting_platform.Api.Leave.Steps.{Steps, enrol, ask, here, then}
use threat_hunting_platform.Api.Leave.Approved.{
  Leaves, approve_removal-Leaves, removal_status-approve_removal,
}
use threat_hunting_platform.Tests.Requests as Requests
use threat_hunting_platform.Tests.Requests.{acme}
use threat_hunting_platform.Tests.Members.{env, drawn}

abbrev world_empty : World
world_empty = record Requests.world { store = empty }

abbrev request : EnrollOrgRequest
request = record {
  org_id = "acme";
  display_name = "Acme";
  public_key_pem = "acme_key";
  notes = none;
}

abbrev wish : LeaveRequestBody
wish = record { attestation = "leave"; signature = "signed" }

abbrev world_enrolled : World
world_enrolled = (enroll_org env request "root" drawn 5000 world_empty).1

abbrev world_asked : World
world_asked = (org_leave_request env "acme" wish 6000 "acme" world_enrolled).1

run : Steps env world_empty world_asked
run =
    then (enrol request "root" drawn 5000 world_empty)
      (then (ask "acme" wish 6000 "acme" world_enrolled) here)

approved : (approve_removal env "acme" "root" 7000 world_asked).0 ≡ ok ("canonical", "signed")
unfolding approve_removal org_leave_request enroll_org insert_org is_enrolled replace_org
    enrolled_row get_org find update delete set_leave_request update_org get
    build_removal_confirm_attestation
approved = refl

approve_removal-Leaves_example : Leaves env "acme" world_asked.store
approve_removal-Leaves_example =
    approve_removal-Leaves env "acme" "root" 7000 ("canonical", "signed") refl run approved

abbrev world_pending : World
world_pending = record Requests.world {
  store = record empty { orgs = with_status leave_pending acme ∷ [] };
}

known : get_org "acme" world_pending.store ≡ some (with_status leave_pending acme)
unfolding get_org find
known = refl

let_go : (approve_removal env "acme" "root" 7000 world_pending).0 ≡ ok ("canonical", "signed")
unfolding approve_removal get_org find build_removal_confirm_attestation
let_go = refl

removal_status-approve_removal_example :
    removal_status env "acme" none
      (some "key")
      (approve_removal env "acme" "root" 7000 world_pending).1.store
    ≡ ok (record {
      org_id = "acme";
      status = revoked;
      removal_confirm = some ("canonical", some "signed");
    })
removal_status-approve_removal_example =
    removal_status-approve_removal env "acme" "root" 7000 world_pending
      (with_status leave_pending acme) "canonical" "signed" none "key" known refl refl refl let_go
