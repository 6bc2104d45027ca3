-- ===== src/Store/Challenges/OneShot.antt =====
-- coordinator/store.py: a challenge is consumed once, whatever calls follow.
use threat_hunting_platform.Prelude.{
  ℕ, ◌≤◌, String, ◌≡◌, ◌≢◌, refl, Bool, true, false, not, ◌&&◌, Option, none, some, List, [], ◌∷◌,
  arith, eq_iff, ◌==◌, string_Eq, nat_Eq, ltb, Option-cases, inl, inr, if◌then◌else◌,
}
use threat_hunting_platform.Prelude.Table.{
  find, any, count, count-append, count-update, count-zero, find-append, find-update, find_fits,
}
use threat_hunting_platform.Prelude.Table.Keys.{
  any-find_key, any-key_missing, find-live-update, find_dead-update,
}
use threat_hunting_platform.Store.Rows.{Challenge, Store}
use threat_hunting_platform.Store.Challenges.{
  is_challenge, new_challenge, issue_challenge, Refusal, unknown, other_org, other_round,
  already_consumed, expired, consumable, spend, consume_challenge,
}

-- the PRIMARY KEY of the table
abbrev pub IsKeyed : Store → Type 0
IsKeyed s = (ch : String) → count (is_challenge ch) s.challenges ≤ 1

-- What a lookup of the one row of a challenge says.
abbrev pub verdict : String → ℕ → ℕ → Option Challenge → Option Refusal
verdict org_id round_id now none = some unknown
verdict org_id round_id now (some c) =
    if not (c.org_id == org_id)
    then some other_org
    else if not (c.round_id == round_id)
    then some other_round
    else if c.consumed
    then some already_consumed
    else if ltb now c.expires_at
    then none
    else some expired

consumable_key :
    (ch org : String) (r now : ℕ) (c : Challenge)
    → consumable ch org r now c ≡ true
    → is_challenge ch c ≡ true
consumable_key ch org r now c h = ground arith

-- In a table without duplicate challenges, the UPDATE with its diagnosis answers as a lookup of the
-- row decides.
pub consume_challenge-verdict :
    (ch org : String) (r now : ℕ) (s : Store)
    → IsKeyed s
    → (consume_challenge ch org r now s).0 ≡ verdict org r now (find (is_challenge ch) s.challenges)
unfolding consume_challenge
consume_challenge-verdict ch org r now s keyed =
    let p = consumable ch org r now in
    let one =
      any-find_key p (is_challenge ch) (consumable_key ch org r now) s.challenges (keyed ch) in
    let row = find-update (is_challenge ch) p (spend now) s.challenges (λ x. refl) in
    elim (Option-cases (find (is_challenge ch) s.challenges)) [
      | inl e ↦ ground (arith, one, row)
      | inr (c, e) ↦ ground (arith, one, row, find_fits (is_challenge ch) s.challenges c e)
    ]

pub data Op : Type 0 where
  issue : String → ℕ → String → ℕ → ℕ → Op
  consume : String → String → ℕ → ℕ → Op

abbrev or_else : Store → Option Store → Store
or_else s none = s
or_else s (some s') = s'

-- One call, where a raise leaves the table alone.
unfoldable pub step : Store → Op → Store
step s (issue org r ch ttl now) = or_else s (issue_challenge org r ch ttl now s)
step s (consume ch org r now) = (consume_challenge ch org r now s).1

-- Any calls on the table, in any order.
unfoldable pub run : Store → List Op → Store
run s [] = s
run s (op ∷ ops) = run (step s op) ops

-- the row is there and consumed
abbrev live : String → Challenge → Bool
live ch c = is_challenge ch c && not c.consumed

live_key : (ch : String) (c : Challenge) → live ch c ≡ true → is_challenge ch c ≡ true
live_key ch c h = ground arith

spend-live : (ch : String) (now : ℕ) (c : Challenge) → live ch (spend now c) ≡ false
spend-live ch now c = ground arith

consumable-live :
    (ch org : String) (r now : ℕ) (c : Challenge)
    → consumable ch org r now c ≡ true
    → live ch c ≡ true
consumable-live ch org r now c h = ground arith

pub record IsSpent (ch : String) (s : Store) : Type 0 where
  pub there : any (is_challenge ch) s.challenges ≡ true
  pub dead : find (live ch) s.challenges ≡ none

consume_challenge-IsSpent :
    (ch org : String) (r now : ℕ) (s : Store)
    → IsKeyed s
    → (consume_challenge ch org r now s).0 ≡ none
    → IsSpent ch (consume_challenge ch org r now s).1
unfolding consume_challenge
consume_challenge-IsSpent ch org r now s keyed e = record {
  there = ground (
    arith,
    find-update (is_challenge ch) (consumable ch org r now) (spend now) s.challenges (λ x. refl),
    any-find_key (consumable ch org r now) (is_challenge ch) (consumable_key ch org r now)
        s.challenges (keyed ch),
  );
  dead =
      find-live-update (consumable ch org r now) (is_challenge ch) (consumable_key ch org r now)
        (live ch) (spend now) (live_key ch) (spend-live ch now) s.challenges (keyed ch)
        (ground arith);
}

pub step-IsKeyed : (s : Store) (op : Op) → IsKeyed s → IsKeyed (step s op)
unfolding step issue_challenge consume_challenge
step-IsKeyed s (issue org r ch ttl now) k j = ground (
  arith,
  k j,
  count-append (is_challenge j) s.challenges (new_challenge org r ch ttl now),
  count-zero (is_challenge ch) s.challenges,
  eq_iff ch j,
)
step-IsKeyed s (consume ch org r now) k j =
    rw
      (count-update (is_challenge j) (consumable ch org r now) (spend now) s.challenges
        (λ x _. refl))
      (k j)

step-IsSpent : (ch : String) (s : Store) (op : Op) → IsSpent ch s → IsSpent ch (step s op)
unfolding step issue_challenge consume_challenge
step-IsSpent ch s (issue org r j ttl now) h = record {
  there =
      ground (
        arith,
        h.there,
        find-append (is_challenge ch) s.challenges (new_challenge org r j ttl now),
      );
  dead = ground (
    arith,
    h.there,
    h.dead,
    find-append (live ch) s.challenges (new_challenge org r j ttl now),
    eq_iff j ch,
  );
}
step-IsSpent ch s (consume j org r now) h = record {
  there = ground (
    arith,
    h.there,
    find-update (is_challenge ch) (consumable j org r now) (spend now) s.challenges (λ x. refl),
  );
  dead =
      find_dead-update (consumable j org r now) (live ch) (spend now) (λ x _. spend-live ch now x)
        s.challenges h.dead;
}

run-IsSpent : (ch : String) (s : Store) (ops : List Op) → IsSpent ch s → IsSpent ch (run s ops)
unfolding run
run-IsSpent ch s [] h = h
run-IsSpent ch s (op ∷ ops) h = run-IsSpent ch (step s op) ops (step-IsSpent ch s op h)

refused :
    (ch org : String) (r now : ℕ) (s : Store)
    → IsSpent ch s
    → (consume_challenge ch org r now s).0 ≢ none
unfolding consume_challenge
refused ch org r now s h e = ground (
  arith,
  any-key_missing (consumable ch org r now) (live ch) (consumable-live ch org r now) s.challenges
      h.dead,
)

-- In a table without duplicate challenges, once a call has consumed a challenge, no later call
-- consumes it, for whichever organisation and round and at whatever time, after any further
-- challenges are issued and consumed.
pub consume_challenge_once :
    (ch org org' : String) (r now r' now' : ℕ) (s : Store) (ops : List Op)
    → IsKeyed s
    → (consume_challenge ch org r now s).0 ≡ none
    → (consume_challenge ch org' r' now' (run (consume_challenge ch org r now s).1 ops)).0 ≢ none
consume_challenge_once ch org org' r now r' now' s ops keyed e =
    refused ch org' r' now' _
      (run-IsSpent ch _ ops (consume_challenge-IsSpent ch org r now s keyed e))

pub run-IsKeyed : (s : Store) (ops : List Op) → IsKeyed s → IsKeyed (run s ops)
unfolding run
run-IsKeyed s [] h = h
run-IsKeyed s (op ∷ ops) h = run-IsKeyed (step s op) ops (step-IsKeyed s op h)
