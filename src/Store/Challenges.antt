-- ===== src/Store/Challenges.antt =====
-- coordinator/store.py: the methods on the table `challenges`. `now` is what `time.time()` returns
-- in the call; times are in milliseconds, and the time to live comes in seconds.
pub mod OneShot
pub mod Refines
use threat_hunting_platform.Prelude.{
  ℕ, ◌+◌, ◌*◌, String, Bool, true, false, not, ◌&&◌, Option, none, some, List, [], ◌∷◌, ◌++◌, ◌==◌,
  string_Eq, nat_Eq, ltb, leb, if◌then◌else◌,
}
use threat_hunting_platform.Prelude.Table.{find, any, update}
use threat_hunting_platform.Store.Rows.{Challenge, Store}

abbrev pub is_challenge : String → Challenge → Bool
is_challenge challenge c = c.challenge == challenge

abbrev pub new_challenge : String → ℕ → String → ℕ → ℕ → Challenge
new_challenge org_id round_id challenge ttl_seconds now = record {
  challenge = challenge;
  org_id = org_id;
  round_id = round_id;
  issued_at = now;
  expires_at = now + ttl_seconds * 1000;
  consumed = false;
  consumed_at = none;
}

-- The INSERT raises when the primary key is taken: `none`.
unfoldable pub issue_challenge : String → ℕ → String → ℕ → ℕ → Store → Option Store
issue_challenge org_id round_id challenge ttl_seconds now s =
    if any (is_challenge challenge) s.challenges
    then none
    else some (record s {
      challenges = s.challenges ++ new_challenge org_id round_id challenge ttl_seconds now ∷ [];
    })

-- Why a challenge was not consumed.
pub data Refusal : Type 0 where
  unknown other_org other_round already_consumed expired failed : Refusal

-- the WHERE clause of the UPDATE
abbrev pub consumable : String → String → ℕ → ℕ → Challenge → Bool
consumable challenge org_id round_id now c =
    is_challenge challenge c
    && c.org_id == org_id
    && c.round_id == round_id
    && not c.consumed
    && ltb now c.expires_at

unfoldable pub diagnose : String → ℕ → ℕ → Option Challenge → Refusal
diagnose org_id round_id now none = unknown
diagnose org_id round_id now (some c) =
    if not (c.org_id == org_id)
    then other_org
    else if not (c.round_id == round_id)
    then other_round
    else if c.consumed
    then already_consumed
    else if leb c.expires_at now
    then expired
    else failed

abbrev pub spend : ℕ → Challenge → Challenge
spend now c = record c { consumed = true; consumed_at = some now }

-- `none` is success. The UPDATE is made in either case, on no row when it fails.
unfoldable pub consume_challenge : String → String → ℕ → ℕ → Store → Option Refusal × Store
unfolding diagnose
consume_challenge challenge org_id round_id now s =
    let p = consumable challenge org_id round_id now in
    let rows = update p (spend now) s.challenges in
    (
      if any p s.challenges
          then none
          else some (diagnose org_id round_id now (find (is_challenge challenge) rows)),
      record s { challenges = rows },
    )
