-- ===== src/Store/Tokens/SingleUse.antt =====
-- coordinator/store.py: an enrolment token is redeemed once, whatever calls follow.
use threat_hunting_platform.Prelude.{
  ℕ, ◌≤◌, String, ◌≡◌, ◌≢◌, refl, Bool, true, false, not, ◌&&◌, Option, none, some, List, [], ◌∷◌,
  arith, eq_iff, ◌==◌, string_Eq, nat_Eq, ltb, Option-cases, inl, inr, if◌then◌else◌,
}
use threat_hunting_platform.Prelude.Table.{
  find, any, count, count-append, count-update, count-zero, find-append, find-update, find_fits,
}
use threat_hunting_platform.Prelude.Table.Keys.{
  any-find_key, any-key_missing, find-live-update, find_dead-update,
}
use threat_hunting_platform.Store.Rows.{EnrollToken, Store}
use threat_hunting_platform.Store.Tokens.{
  is_token, new_token, create_enroll_token, TokenRefusal, unknown, other_org, already_used, expired,
  redeemable, redeem, consume_enroll_token,
}

-- the PRIMARY KEY of the table
abbrev pub IsKeyed : Store → Type 0
IsKeyed s = (ch : String) → count (is_token ch) s.enrollment_tokens ≤ 1

-- What a lookup of the one row of a token says.
abbrev pub verdict : String → ℕ → Option EnrollToken → Option TokenRefusal
verdict org_id now none = some unknown
verdict org_id now (some c) =
    if not (c.org_id == org_id)
    then some other_org
    else if c.consumed
    then some already_used
    else if ltb now c.expires_at
    then none
    else some expired

redeemable_key :
    (ch org : String) (now : ℕ) (c : EnrollToken)
    → redeemable ch org now c ≡ true
    → is_token ch c ≡ true
redeemable_key ch org now c h = ground arith

-- In a table without duplicate tokens, the UPDATE with its diagnosis answers as a lookup of the row
-- decides.
pub consume_enroll_token-verdict :
    (ch org : String) (now : ℕ) (s : Store)
    → IsKeyed s
    → (consume_enroll_token ch org now s).0
      ≡ verdict org now (find (is_token ch) s.enrollment_tokens)
unfolding consume_enroll_token
consume_enroll_token-verdict ch org now s keyed =
    let p = redeemable ch org now in
    let one =
      any-find_key p (is_token ch) (redeemable_key ch org now) s.enrollment_tokens (keyed ch) in
    let row = find-update (is_token ch) p (redeem now) s.enrollment_tokens (λ x. refl) in
    elim (Option-cases (find (is_token ch) s.enrollment_tokens)) [
      | inl e ↦ ground (arith, one, row)
      | inr (c, e) ↦ ground (arith, one, row, find_fits (is_token ch) s.enrollment_tokens c e)
    ]

pub data Op : Type 0 where
  issue : String → String → String → ℕ → ℕ → Op
  consume : String → String → ℕ → Op

abbrev or_else : Store → Option Store → Store
or_else s none = s
or_else s (some s') = s'

-- One call, where a raise leaves the table alone.
unfoldable pub step : Store → Op → Store
step s (issue ch org name until now) = or_else s (create_enroll_token ch org name until now s)
step s (consume ch org now) = (consume_enroll_token ch org now s).1

-- Any calls on the table, in any order.
unfoldable pub run : Store → List Op → Store
run s [] = s
run s (op ∷ ops) = run (step s op) ops

-- the row is there and consumed
abbrev live : String → EnrollToken → Bool
live ch c = is_token ch c && not c.consumed

live_key : (ch : String) (c : EnrollToken) → live ch c ≡ true → is_token ch c ≡ true
live_key ch c h = ground arith

redeem-live : (ch : String) (now : ℕ) (c : EnrollToken) → live ch (redeem now c) ≡ false
redeem-live ch now c = ground arith

redeemable-live :
    (ch org : String) (now : ℕ) (c : EnrollToken)
    → redeemable ch org now c ≡ true
    → live ch c ≡ true
redeemable-live ch org now c h = ground arith

pub record IsSpent (ch : String) (s : Store) : Type 0 where
  pub there : any (is_token ch) s.enrollment_tokens ≡ true
  pub dead : find (live ch) s.enrollment_tokens ≡ none

consume_enroll_token-IsSpent :
    (ch org : String) (now : ℕ) (s : Store)
    → IsKeyed s
    → (consume_enroll_token ch org now s).0 ≡ none
    → IsSpent ch (consume_enroll_token ch org now s).1
unfolding consume_enroll_token
consume_enroll_token-IsSpent ch org now s keyed e = record {
  there = ground (
    arith,
    find-update (is_token ch) (redeemable ch org now) (redeem now) s.enrollment_tokens (λ x. refl),
    any-find_key (redeemable ch org now) (is_token ch) (redeemable_key ch org now)
        s.enrollment_tokens (keyed ch),
  );
  dead =
      find-live-update (redeemable ch org now) (is_token ch) (redeemable_key ch org now) (live ch)
        (redeem now) (live_key ch) (redeem-live ch now) s.enrollment_tokens (keyed ch)
        (ground arith);
}

step-IsKeyed : (s : Store) (op : Op) → IsKeyed s → IsKeyed (step s op)
unfolding step create_enroll_token consume_enroll_token
step-IsKeyed s (issue ch org name until now) k j = ground (
  arith,
  k j,
  count-append (is_token j) s.enrollment_tokens (new_token ch org name until now),
  count-zero (is_token ch) s.enrollment_tokens,
  eq_iff ch j,
)
step-IsKeyed s (consume ch org now) k j =
    rw
      (count-update (is_token j) (redeemable ch org now) (redeem now) s.enrollment_tokens
        (λ x _. refl))
      (k j)

step-IsSpent : (ch : String) (s : Store) (op : Op) → IsSpent ch s → IsSpent ch (step s op)
unfolding step create_enroll_token consume_enroll_token
step-IsSpent ch s (issue j org name until now) h = record {
  there = ground (
    arith,
    h.there,
    find-append (is_token ch) s.enrollment_tokens (new_token j org name until now),
  );
  dead = ground (
    arith,
    h.there,
    h.dead,
    find-append (live ch) s.enrollment_tokens (new_token j org name until now),
    eq_iff j ch,
  );
}
step-IsSpent ch s (consume j org now) h = record {
  there = ground (
    arith,
    h.there,
    find-update (is_token ch) (redeemable j org now) (redeem now) s.enrollment_tokens (λ x. refl),
  );
  dead =
      find_dead-update (redeemable j org now) (live ch) (redeem now) (λ x _. redeem-live ch now x)
        s.enrollment_tokens h.dead;
}

run-IsSpent : (ch : String) (s : Store) (ops : List Op) → IsSpent ch s → IsSpent ch (run s ops)
unfolding run
run-IsSpent ch s [] h = h
run-IsSpent ch s (op ∷ ops) h = run-IsSpent ch (step s op) ops (step-IsSpent ch s op h)

refused :
    (ch org : String) (now : ℕ) (s : Store)
    → IsSpent ch s
    → (consume_enroll_token ch org now s).0 ≢ none
unfolding consume_enroll_token
refused ch org now s h e = ground (
  arith,
  any-key_missing (redeemable ch org now) (live ch) (redeemable-live ch org now) s.enrollment_tokens
      h.dead,
)

-- In a table without duplicate tokens, once a call has redeemed a token, no later call redeems it,
-- for whichever organisation and at whatever time, after any further tokens are created and
-- consumed.
pub consume_enroll_token_once :
    (ch org org' : String) (now now' : ℕ) (s : Store) (ops : List Op)
    → IsKeyed s
    → (consume_enroll_token ch org now s).0 ≡ none
    → (consume_enroll_token ch org' now' (run (consume_enroll_token ch org now s).1 ops)).0 ≢ none
consume_enroll_token_once ch org org' now now' s ops keyed e =
    refused ch org' now' _
      (run-IsSpent ch _ ops (consume_enroll_token-IsSpent ch org now s keyed e))

pub run-IsKeyed : (s : Store) (ops : List Op) → IsKeyed s → IsKeyed (run s ops)
unfolding run
run-IsKeyed s [] h = h
run-IsKeyed s (op ∷ ops) h = run-IsKeyed (step s op) ops (step-IsKeyed s op h)
