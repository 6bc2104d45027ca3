-- ===== src/Dashboard.antt =====
-- coordinator/dashboard.py: the operators' console: the cookie, the pages' guard, login and logout.
-- The templates are presentation. Tokens count whole seconds.
pub mod Login
use threat_hunting_platform.Prelude.{
  ℕ, ◌/◌, String, Bool, true, false, not, Option, none, some, List, [], ◌∷◌, map, ◌==◌, string_Eq,
  if◌then◌else◌,
}
use threat_hunting_platform.Store.Orgs.{nonempty}
use threat_hunting_platform.Security.{
  FlRole, viewer, operator, admin, FlUser, contains, fl_permissions, authenticate_api_key,
  create_jwt, verify_jwt,
}
use threat_hunting_platform.Api.{Env, World, Reply, ok, fail, audit_log}

-- `role.value`
abbrev pub role_value : FlRole → String
role_value viewer = "fl_viewer"
role_value operator = "fl_operator"
role_value admin = "fl_admin"

-- What a redirect does to the cookie `fl_session`.
pub data Cookie : Type 0 where
  keep_cookie delete_cookie : Cookie
  set_cookie : String → Cookie

pub record Redirect : Type 0 where
  pub location : String
  pub cookie : Cookie

-- The permissions that the templates ask for, and which of them a user has.
unfoldable pub perms : FlUser → List (String × Bool)
perms user =
    map (λ p. (p, contains p (fl_permissions user.role)))
      ("fl_enroll_org" ∷ "fl_block_org" ∷ "fl_revoke_org" ∷ "fl_start_round" ∷ "fl_aggregate_round"
        ∷ "fl_view_audit" ∷ [])

-- The context of a page.
pub record Page : Type 0 where
  pub template : String
  pub username : String
  pub role : String
  pub perms : List (String × Bool)
  pub active : String
  pub round_id : Option ℕ

module _ (env : Env) where
  abbrev verify_token : Option String → ℕ → Option FlUser
  verify_token none now = none
  verify_token (some token) now = verify_jwt env.tokens env.auth_manager token (now / 1000)

  unfoldable pub current_user_from_cookie : Option String → ℕ → Option FlUser
  current_user_from_cookie token now = verify_token (nonempty token) now

  abbrev pub or_login : Option FlUser → Reply FlUser
  or_login none = fail 303
  or_login (some user) = ok user

  unfoldable pub require_user : Option String → ℕ → Reply FlUser
  unfolding current_user_from_cookie
  require_user fl_session now = or_login (current_user_from_cookie fl_session now)

  abbrev page_for : String → String → Option ℕ → Reply FlUser → Reply Page
  page_for template active round_id (fail c) = fail c
  page_for template active round_id (ok user) = ok (record {
    template = template;
    username = user.username;
    role = role_value user.role;
    perms = perms user;
    active = active;
    round_id = round_id;
  })

  -- any of the page routes
  unfoldable pub page : String → String → Option ℕ → Option String → ℕ → Reply Page
  unfolding require_user perms
  page template active round_id fl_session now =
      page_for template active round_id (require_user fl_session now)

  abbrev refused : Redirect
  refused = record { location = "/login?error=Invalid+credentials"; cookie = keep_cookie }

  abbrev pub login_as : String → ℕ → Option FlUser → World → Redirect × World
  login_as username now none w = (refused, w)
  login_as username now (some user) w = if not (user.username == username) then (refused, w) else (
    record {
      location = "/dashboard";
      cookie = set_cookie (create_jwt env.tokens env.auth_manager user 8 (now / 1000));
    },
    audit_log env "fl.operator.login" user.username (role_value user.role) [] now w,
  )

  unfoldable pub login : String → String → ℕ → World → Redirect × World
  unfolding audit_log
  login username api_key now w =
      login_as username now (authenticate_api_key env.tokens env.auth_manager api_key) w

  abbrev log_logout : ℕ → Option FlUser → World → World
  log_logout now none w = w
  log_logout now (some user) w = audit_log env "fl.operator.logout" user.username "" [] now w

  unfoldable pub logout : Option String → ℕ → World → Redirect × World
  unfolding audit_log current_user_from_cookie
  logout fl_session now w = (
    record { location = "/login"; cookie = delete_cookie },
    log_logout now (current_user_from_cookie fl_session now) w,
  )
