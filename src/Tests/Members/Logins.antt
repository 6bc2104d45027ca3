-- ===== src/Tests/Members/Logins.antt =====
-- coordinator/dashboard.py: olga logs in.
use threat_hunting_platform.Prelude.{
  not, ◌&&◌, ◌≤◌, ℕ, ◌+◌, ◌*◌, ◌/◌, ◌<◌, ◌≡◌, refl, none, some, [], ◌∷◌, arith, ltb, string_Eq,
  if◌then◌else◌,
}
use threat_hunting_platform.Prelude.Table.{find}
use threat_hunting_platform.Security.{
  FlUser, operator, Tokens, auth_manager, payload, named, authenticate_api_key, create_jwt,
}
use threat_hunting_platform.Api.{Env, ok}
use threat_hunting_platform.Dashboard.{login, set_cookie, require_user}
use threat_hunting_platform.Dashboard.Login.{require_user-login}
use threat_hunting_platform.Tests.Requests as Requests

abbrev olga : FlUser
olga = record { username = "olga"; role = operator; api_key_hash = "olga_key" }

-- a library for the one token of olga that is issued at 100 seconds for 8 hours
abbrev tokens : Tokens
tokens = record {
  encode = λ c secret. "olga_token";
  decode = λ token secret now.
      if not (ltb now 100) && ltb now 28900 then some (payload olga 8 100) else none;
  sha256 = λ t. t;
}

abbrev env : Env
env = record Requests.env { tokens = tokens; auth_manager = auth_manager "secret" (olga ∷ []) }

decodes :
    (at : ℕ)
    → 100000 / 1000 ≤ at
    → at < 100000 / 1000 + 8 * 3600
    → env.tokens.decode
        (env.tokens.encode (payload olga 8 (100000 / 1000)) env.auth_manager.jwt_secret)
        env.auth_manager.jwt_secret
        at
      ≡ some (payload olga 8 (100000 / 1000))
decodes at since fresh = ground arith

keyed : authenticate_api_key env.tokens env.auth_manager "olga_key" ≡ some olga
unfolding authenticate_api_key auth_manager find
keyed = refl

known : find (named "olga") env.auth_manager.users ≡ some olga
unfolding auth_manager find
known = refl

logged_in : (login env "olga" "olga_key" 100000 Requests.world).0.cookie ≡ set_cookie "olga_token"
unfolding login authenticate_api_key auth_manager find create_jwt
logged_in = refl

require_user-login_example :
    (require_user env (some "olga_token") 5000000 ≡ ok olga) × (olga.username ≡ "olga")
require_user-login_example =
    require_user-login env "olga" "olga_key" "olga_token" 100000 5000000 Requests.world olga keyed
      decodes known refl (omega arith) (omega arith) logged_in
