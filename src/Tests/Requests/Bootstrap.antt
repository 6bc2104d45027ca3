-- ===== src/Tests/Requests/Bootstrap.antt =====
-- coordinator/api.py: a request with the key of the organisation and no certificate.
use threat_hunting_platform.Prelude.Table.{find}
use threat_hunting_platform.Prelude.{◌≡◌, refl, none, some, false}
use threat_hunting_platform.Prelude.Sort.{sort_asc}
use threat_hunting_platform.Store.Orgs.{list_orgs}
use threat_hunting_platform.Api.{ok}
use threat_hunting_platform.Api.Auth.{Credentials, get_authenticated_org_id}
use threat_hunting_platform.Api.Auth.Bootstrap.{ByKey, get_authenticated_org_id-ByKey}
use threat_hunting_platform.Tests.Requests.{env, store}

abbrev credentials : Credentials
credentials = record { bearer = none; fl_session = none; api_key = some "key"; mtls_org_id = none }

authenticated : get_authenticated_org_id env credentials store ≡ ok "acme"
unfolding get_authenticated_org_id list_orgs sort_asc find
authenticated = refl

get_authenticated_org_id-ByKey_example :
    (env.require_mtls ≡ false) × ByKey env credentials store "acme"
get_authenticated_org_id-ByKey_example =
    get_authenticated_org_id-ByKey env credentials "acme" store refl authenticated
