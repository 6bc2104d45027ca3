-- ===== src/Store/Tokens.antt =====
-- coordinator/store.py: the methods on the table `enrollment_tokens`.
pub mod SingleUse
use threat_hunting_platform.Prelude.{
  ℕ, String, Bool, true, false, not, ◌&&◌, Option, none, some, List, [], ◌∷◌, ◌++◌, ◌==◌, string_Eq,
  ltb, leb, if◌then◌else◌,
}
use threat_hunting_platform.Prelude.Table.{find, any, update}
use threat_hunting_platform.Store.Rows.{EnrollToken, Store}

abbrev pub is_token : String → EnrollToken → Bool
is_token jti t = t.jti == jti

abbrev pub new_token : String → String → String → ℕ → ℕ → EnrollToken
new_token jti org_id display_name expires_at now = record {
  jti = jti;
  org_id = org_id;
  display_name = display_name;
  issued_at = now;
  expires_at = expires_at;
  consumed = false;
  consumed_at = none;
}

-- The INSERT raises when the primary key is taken: `none`.
unfoldable pub create_enroll_token : String → String → String → ℕ → ℕ → Store → Option Store
create_enroll_token jti org_id display_name expires_at now s =
    if any (is_token jti) s.enrollment_tokens
    then none
    else some (record s {
      enrollment_tokens =
          s.enrollment_tokens ++ new_token jti org_id display_name expires_at now ∷ [];
    })

-- Why a token was not consumed.
pub data TokenRefusal : Type 0 where
  unknown other_org already_used expired rejected : TokenRefusal

abbrev pub redeemable : String → String → ℕ → EnrollToken → Bool
redeemable jti org_id now t =
    is_token jti t && t.org_id == org_id && not t.consumed && ltb now t.expires_at

unfoldable pub diagnose_token : String → ℕ → Option EnrollToken → TokenRefusal
diagnose_token org_id now none = unknown
diagnose_token org_id now (some t) =
    if not (t.org_id == org_id)
    then other_org
    else if t.consumed
    then already_used
    else if leb t.expires_at now
    then expired
    else rejected

abbrev pub redeem : ℕ → EnrollToken → EnrollToken
redeem now t = record t { consumed = true; consumed_at = some now }

-- `none` is success.
unfoldable pub consume_enroll_token : String → String → ℕ → Store → Option TokenRefusal × Store
unfolding diagnose_token
consume_enroll_token jti org_id now s =
    let p = redeemable jti org_id now in
    let rows = update p (redeem now) s.enrollment_tokens in
    (
      if any p s.enrollment_tokens
          then none
          else some (diagnose_token org_id now (find (is_token jti) rows)),
      record s { enrollment_tokens = rows },
    )
