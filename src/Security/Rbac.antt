-- ===== src/Security/Rbac.antt =====
-- coordinator/security.py: who may do what, and whom a token authenticates.
use threat_hunting_platform.Prelude.{
  ℕ, ◌+◌, ◌*◌, ◌<◌, String, ◌≡◌, true, some, arith, string_Eq, eq_iff, Option-cases, ◌≤◌, inl, inr,
}
use threat_hunting_platform.Prelude.Table.{find, find_fits}
use threat_hunting_platform.Security.{
  FlRole, viewer, operator, admin, FlUser, Claims, Tokens, FlAuthManager, payload, named,
  fl_permissions, contains, has_permission, create_jwt, verify_jwt,
}

abbrev pub rank : FlRole → ℕ
rank viewer = 0
rank operator = 1
rank admin = 2

permitted_mono :
    (p : String) (a b : FlRole)
    → rank a ≤ rank b
    → contains p (fl_permissions a) ≡ true
    → contains p (fl_permissions b) ≡ true
unfolding contains fl_permissions
permitted_mono p viewer viewer h e = e
permitted_mono p viewer operator h e = ground arith
permitted_mono p viewer admin h e = ground arith
permitted_mono p operator operator h e = e
permitted_mono p operator admin h e = ground arith
permitted_mono p admin admin h e = e
permitted_mono p operator viewer h e = absurd (omega arith)
permitted_mono p admin viewer h e = absurd (omega arith)
permitted_mono p admin operator h e = absurd (omega arith)

-- A user may do whatever a user of a lower rank may: an administrator what an operator may, and an
-- operator what a viewer may.
pub has_permission_mono :
    (u v : FlUser) (p : String)
    → rank u.role ≤ rank v.role
    → has_permission u p ≡ true
    → has_permission v p ≡ true
has_permission_mono u v p h e = unfold has_permission in permitted_mono p u.role v.role h e

-- The token that is made for a user of the roster authenticates that user from then until it
-- expires, if its text decodes under the coordinator's secret, from then until it expires, to the
-- claims it was made of.
pub verify_jwt-create_jwt :
    (t : Tokens) (am : FlAuthManager) (u : FlUser) (hours now later : ℕ)
    → ((at : ℕ)
        → now ≤ at
        → at < now + hours * 3600
        → t.decode (t.encode (payload u hours now) am.jwt_secret) am.jwt_secret at
          ≡ some (payload u hours now))
    → find (named u.username) am.users ≡ some u
    → now ≤ later
    → later < now + hours * 3600
    → verify_jwt t am (create_jwt t am u hours now) later ≡ some u
unfolding verify_jwt create_jwt
verify_jwt-create_jwt t am u hours now later decodes known since fresh =
    rw (decodes later since fresh) known

-- Whoever a token authenticates is a user of the roster, whom the token names; the token decodes
-- under the coordinator's own secret and says that the coordinator issued it.
pub verify_jwt_sound :
    (t : Tokens) (am : FlAuthManager) (token : String) (now : ℕ) (u : FlUser)
    → verify_jwt t am token now ≡ some u
    → (c : Claims) × (t.decode token am.jwt_secret now ≡ some c)
      × (c.iss ≡ "fl-coordinator")
      × (find (named c.sub) am.users ≡ some u)
      × (u.username ≡ c.sub)
unfolding verify_jwt
verify_jwt_sound t am token now u e = elim (Option-cases (t.decode token am.jwt_secret now)) [
  | inl bad ↦ absurd (ground arith)
  | inr (c, good) ↦
      let found : find (named c.sub) am.users ≡ some u = ground arith in
      (
        c,
        good,
        ground (arith, eq_iff c.iss "fl-coordinator"),
        found,
        (eq_iff u.username c.sub).0 (find_fits (named c.sub) am.users u found),
      )
]
