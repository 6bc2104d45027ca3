-- ===== src/Dashboard/Login.antt =====
-- coordinator/dashboard.py: whom a login lets in.
use threat_hunting_platform.Prelude.{
  ℕ, ◌+◌, ◌*◌, ◌/◌, ◌≤◌, ◌<◌, String, ◌≡◌, refl, false, Bool-cases, inl, inr, Option, none, some,
  arith, some-injective, sym, ◌∙◌, subst, ◌==◌, string_Eq, eq_iff,
}
use threat_hunting_platform.Prelude.Table.{find}
use threat_hunting_platform.Security.{FlUser, named, payload, authenticate_api_key, create_jwt}
use threat_hunting_platform.Security.Rbac.{verify_jwt-create_jwt}
use threat_hunting_platform.Api.{Env, World, ok}
use threat_hunting_platform.Dashboard.{
  Cookie, set_cookie, login, login_as, require_user, current_user_from_cookie,
}

abbrev cookie_of : Cookie → Option String
cookie_of (set_cookie token) = some token
cookie_of _ = none

module _ (env : Env) where
  -- The key and the name are those of one user of the roster, for whom the token is made.
  pub record LogsIn (username api_key token : String) (now : ℕ) : Type 0 where
    pub user : FlUser
    pub keyed : authenticate_api_key env.tokens env.auth_manager api_key ≡ some user
    pub same : user.username ≡ username
    pub made : token ≡ create_jwt env.tokens env.auth_manager user 8 (now / 1000)

  login_inversion :
      (username api_key token : String) (now : ℕ) (o : Option FlUser) (w : World)
      → authenticate_api_key env.tokens env.auth_manager api_key ≡ o
      → (login_as env username now o w).0.cookie ≡ set_cookie token
      → LogsIn username api_key token now
  login_inversion username api_key token now none w k e = absurd (ground arith)
  login_inversion username api_key token now (some user) w k e =
      elim (Bool-cases (user.username == username)) [
        | inr n ↦ absurd (ground (arith, n))
        | inl y ↦ record {
          user = user;
          keyed = k;
          same = (eq_iff user.username username).0 y;
          made = ground (arith, y);
        }
      ]

  -- A login sets a cookie only for the name and the key of one user of the roster.
  pub login-LogsIn :
      (username api_key token : String) (now : ℕ) (w : World)
      → (login env username api_key now w).0.cookie ≡ set_cookie token
      → LogsIn username api_key token now
  unfolding login
  login-LogsIn username api_key token now w e =
      login_inversion username api_key token now _ w refl e

  -- A login sets a cookie only for the name of the user whose key it is, and with that cookie the
  -- pages know the user from the login until eight hours have passed, if the token is not empty and
  -- decodes under the coordinator's secret, from the login until then, to the claims it was made
  -- of, and the roster finds the user by the name.
  pub require_user-login :
      (username api_key token : String) (now later : ℕ) (w : World) (u : FlUser)
      → let am = env.auth_manager in
        let claims = payload u 8 (now / 1000) in
        authenticate_api_key env.tokens am api_key ≡ some u
        → ((at : ℕ)
            → now / 1000 ≤ at
            → at < now / 1000 + 8 * 3600
            → env.tokens.decode (env.tokens.encode claims am.jwt_secret) am.jwt_secret at
              ≡ some claims)
        → find (named u.username) am.users ≡ some u
        → (token == "") ≡ false
        → now ≤ later
        → later / 1000 < now / 1000 + 8 * 3600
        → (login env username api_key now w).0.cookie ≡ set_cookie token
        → (require_user env (some token) later ≡ ok u) × (u.username ≡ username)
  unfolding require_user current_user_from_cookie
  require_user-login username api_key token now later w u keyed decodes known real since fresh e =
      let l = login-LogsIn username api_key token now w e in
      let same = some-injective l.user u (sym l.keyed ∙ keyed) in
      let made : token ≡ create_jwt env.tokens env.auth_manager u 8 (now / 1000) =
        subst (λ (x : FlUser). token ≡ create_jwt env.tokens env.auth_manager x 8 (now / 1000)) same
          l.made in
      let known =
        verify_jwt-create_jwt env.tokens env.auth_manager u 8 (now / 1000) (later / 1000) decodes
          known (omega (arith, since)) fresh in
      (rw (real, made) (rw known refl), subst (λ (x : FlUser). x.username ≡ username) same l.same)
