-- ===== src/Security.antt =====
-- coordinator/security.py: roles, permissions and the authentication of operators. `Tokens` stands
-- for the JWT library and the hash; `decode` is `none` where `jwt.decode` raises.
pub mod Rbac
use threat_hunting_platform.Prelude.{
  ℕ, ◌+◌, ◌*◌, String, Bool, true, false, ◌||◌, Option, none, some, List, [], ◌∷◌, ◌++◌, ◌==◌,
  string_Eq, if◌then◌else◌,
}
use threat_hunting_platform.Prelude.Table.{find}

pub data FlRole : Type 0 where
  viewer operator admin : FlRole

-- FL_PERMISSIONS
unfoldable pub fl_permissions : FlRole → List String
fl_permissions viewer = "fl_view_orgs" ∷ "fl_view_rounds" ∷ "fl_view_audit" ∷ []
fl_permissions operator =
    "fl_view_orgs" ∷ "fl_view_rounds" ∷ "fl_view_audit" ∷ "fl_start_round" ∷ "fl_aggregate_round"
    ∷ "fl_block_org" ∷ "fl_unblock_org" ∷ []
fl_permissions admin =
    "fl_view_orgs" ∷ "fl_view_rounds" ∷ "fl_view_audit" ∷ "fl_start_round" ∷ "fl_aggregate_round"
    ∷ "fl_block_org" ∷ "fl_unblock_org" ∷ "fl_enroll_org" ∷ "fl_revoke_org" ∷ "fl_configure_round"
    ∷ "fl_manage_users" ∷ []

pub record FlUser : Type 0 where
  pub username : String
  pub role : FlRole
  pub api_key_hash : String

pub record Claims : Type 0 where
  pub sub : String
  pub role : FlRole
  pub iss : String
  pub iat : ℕ
  pub exp : ℕ

-- `decode token secret now`: the claims of a token that is signed with the secret and not expired.
pub record Tokens : Type 0 where
  pub encode : Claims → String → String
  pub decode : String → String → ℕ → Option Claims
  pub sha256 : String → String

pub record FlAuthManager : Type 0 where
  pub jwt_secret : String
  pub users : List FlUser

abbrev pub named : String → FlUser → Bool
named username u = u.username == username

-- `d[u.username] = u`: a key that is there keeps its place
unfoldable pub put_user : FlUser → List FlUser → List FlUser
put_user u [] = u ∷ []
put_user u (v ∷ vs) = if named u.username v then u ∷ vs else v ∷ put_user u vs

unfoldable pub put_users : List FlUser → List FlUser → List FlUser
unfolding put_user
put_users [] d = d
put_users (u ∷ us) d = put_users us (put_user u d)

unfoldable pub auth_manager : String → List FlUser → FlAuthManager
unfolding put_users
auth_manager jwt_secret users = record { jwt_secret = jwt_secret; users = put_users users [] }

unfoldable pub contains : String → List String → Bool
contains p [] = false
contains p (q ∷ qs) = q == p || contains p qs

unfoldable pub has_permission : FlUser → String → Bool
unfolding contains fl_permissions
has_permission user permission = contains permission (fl_permissions user.role)

abbrev pub payload : FlUser → ℕ → ℕ → Claims
payload user expires_hours now = record {
  sub = user.username;
  role = user.role;
  iss = "fl-coordinator";
  iat = now;
  exp = now + expires_hours * 3600;
}

module _ (tokens : Tokens) (am : FlAuthManager) where
  unfoldable pub authenticate_api_key : String → Option FlUser
  authenticate_api_key api_key =
      if api_key == "" then none else find (λ u. u.api_key_hash == tokens.sha256 api_key) am.users

  unfoldable pub create_jwt : FlUser → ℕ → ℕ → String
  create_jwt user expires_hours now = tokens.encode (payload user expires_hours now) am.jwt_secret

  abbrev pub user_of : Option Claims → Option FlUser
  user_of none = none
  user_of (some c) = if c.iss == "fl-coordinator" then find (named c.sub) am.users else none

  unfoldable pub verify_jwt : String → ℕ → Option FlUser
  verify_jwt token now = user_of (tokens.decode token am.jwt_secret now)
