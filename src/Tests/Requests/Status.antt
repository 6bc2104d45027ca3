-- ===== src/Tests/Requests/Status.antt =====
-- coordinator/api.py: revoking and unblocking the organisation.
use threat_hunting_platform.Store.Orgs.{get_org}
use threat_hunting_platform.Prelude.{◌≡◌, refl, some}
use threat_hunting_platform.Prelude.Table.{find}
use threat_hunting_platform.Store.Rows.{active}
use threat_hunting_platform.Api.{ok}
use threat_hunting_platform.Api.Orgs.{revoke_org, unblock_org}
use threat_hunting_platform.Api.Orgs.Status.{with_status, unblock_org-revoke_org}
use threat_hunting_platform.Tests.Requests.{env, acme, world}

known : get_org "acme" world.store ≡ some acme
unfolding get_org find
known = refl

unblock_org-revoke_org_example :
    let w' = (revoke_org env "acme" "root" 5000 world).1 in
    let (r, w'') = unblock_org env "acme" "olga" 6000 w' in
    (r ≡ ok active) × (get_org "acme" w''.store ≡ some (with_status active acme))
unblock_org-revoke_org_example =
    unblock_org-revoke_org env "acme" "root" 5000 world acme known "olga" 6000
