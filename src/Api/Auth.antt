-- ===== src/Api/Auth.antt =====
-- coordinator/api.py: who calls. Operators are found by a token or a key, organisations by the
-- identity that the middleware has verified or by their key.
pub mod Bootstrap
use threat_hunting_platform.Prelude.{
  ℕ, ◌/◌, String, false, Option, none, some, ◌==◌, string_Eq, if◌then◌else◌,
}
use threat_hunting_platform.Prelude.Table.{find}
use threat_hunting_platform.Store.Rows.{Org, Store, is_active}
use threat_hunting_platform.Store.Orgs.{list_orgs, nonempty}
use threat_hunting_platform.Security.{FlUser, verify_jwt, authenticate_api_key, has_permission}
use threat_hunting_platform.Api.{Env, World, Reply, ok, fail}

-- What a request brings: the header, the cookie and the key, and the identity of the certificate.
pub record Credentials : Type 0 where
  pub bearer : Option String
  pub fl_session : Option String
  pub api_key : Option String
  pub mtls_org_id : Option String

abbrev or_else : Option FlUser → Option FlUser → Option FlUser
or_else none v = v
or_else (some u) v = some u

module _ (env : Env) (c : Credentials) where
  -- tokens count whole seconds
  abbrev by_jwt : Option String → ℕ → Option FlUser
  by_jwt none now = none
  by_jwt (some token) now = verify_jwt env.tokens env.auth_manager token (now / 1000)

  abbrev by_key : Option String → Option FlUser
  by_key none = none
  by_key (some key) = authenticate_api_key env.tokens env.auth_manager key

  unfoldable pub get_fl_user : ℕ → Option FlUser
  get_fl_user now =
      or_else (by_jwt (nonempty c.bearer) now)
        (or_else (by_jwt (nonempty c.fl_session) now) (by_key (nonempty c.api_key)))

  -- `fl_require(permission)` before the handler `body`
  abbrev require :
      {A : Type 0}
      → String
      → Option FlUser
      → (FlUser → World → Reply A × World)
      → World
      → Reply A × World
  require permission none body w = (fail 401, w)
  require permission (some user) body w =
      if has_permission user permission then body user w else (fail 403, w)

  unfoldable pub fl_require :
      {A : Type 0} → String → ℕ → (FlUser → World → Reply A × World) → World → Reply A × World
  unfolding get_fl_user
  fl_require permission now body w = require permission (get_fl_user now) body w

  -- the loop over the active organisations
  abbrev pub org_of : Option Org → Reply String
  org_of none = fail 401
  org_of (some o) = ok o.org_id

  abbrev pub org_by_key : Option String → Store → Reply String
  org_by_key none s = fail 401
  org_by_key (some key) s = org_of (
      find (λ o. if is_active o.status then o.api_key_hash == env.tokens.sha256 key else false)
        (list_orgs s))

  abbrev pub org_by_cert : Option String → Store → Reply String
  org_by_cert (some org_id) s = ok org_id
  org_by_cert none s = if env.require_mtls then fail 401 else org_by_key (nonempty c.api_key) s

  unfoldable pub get_authenticated_org_id : Store → Reply String
  get_authenticated_org_id s = org_by_cert (nonempty c.mtls_org_id) s
