-- ===== src/Tests/Requests/Starting.antt =====
-- coordinator/api.py: starting a round.
use threat_hunting_platform.Security.{contains}
use threat_hunting_platform.Store.Orgs.{list_orgs}
use threat_hunting_platform.Api.Rounds.{invited_orgs, StartRoundRequest, Started, open_round}
use threat_hunting_platform.Prelude.{◌≡◌, refl, none, some, [], ◌∷◌, arith}
use threat_hunting_platform.Prelude.Sort.{sort_asc}
use threat_hunting_platform.Prelude.Table.{select}
use threat_hunting_platform.Api.{Reply, ok, fail}
use threat_hunting_platform.Api.Rounds.Joining.{Starts, open_round-Starts}
use threat_hunting_platform.Tests.Requests.{env, store, world}

abbrev request : StartRoundRequest
request = record {
  epsilon = 1000;
  num_boost_rounds = 10;
  min_clients = 1;
  target_org_ids = some ("acme" ∷ []);
  observation_hours = none;
}

abbrev started : Reply Started → Started
started (ok a) = a
started (fail c) = record {
  round_id = 0;
  invited_orgs = [];
  intake_until = 0;
  round_announcement = none;
}

started-ok : let r = open_round env request "root" 5000 world in r.0 ≡ ok (started r.0)
unfolding open_round invited_orgs select list_orgs sort_asc contains
started-ok = refl

-- A second round is started beside the first.
open_round-Starts_example :
    Starts env request 5000 store
      (open_round env request "root" 5000 world).1.store
      (started (open_round env request "root" 5000 world).0)
open_round-Starts_example =
    open_round-Starts env request "root" 5000 world
      (started (open_round env request "root" 5000 world).0) (omega arith, tt) started-ok
