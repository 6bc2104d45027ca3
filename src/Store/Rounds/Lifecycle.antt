-- ===== src/Store/Rounds/Lifecycle.antt =====
-- coordinator/store.py: what the methods on `rounds` do to the round that a caller looks up.
use threat_hunting_platform.Prelude.{
  ℕ, ◌<◌, String, ◌≡◌, refl, none, some, List, [], ◌∷◌, arith, All, All-append, All-map, ◌==◌,
  nat_Eq, if◌then◌else◌,
}
use threat_hunting_platform.Prelude.Table.{find, find-update, find-append, touch}
use threat_hunting_platform.Store.Rows.{Round, RoundParams, Store}
use threat_hunting_platform.Store.Rounds.{is_round, new_round, start_round, update_round, get_round}

-- SQLite numbers the rounds upwards.
abbrev pub IsNumbered : Store → Type 0
IsNumbered s = All (λ (r : Round). r.round_id < s.next_round) s.rounds

pub get_round-update_round :
    (i j : ℕ) (f : Round → Round) (s : Store)
    → ((r : Round) → (f r).round_id ≡ r.round_id)
    → get_round j (update_round i f s) ≡ touch (is_round i) f (get_round j s)
unfolding get_round update_round
get_round-update_round i j f s h =
    find-update (is_round j) (is_round i) f s.rounds (λ r. ground (arith, h r))

find_unnumbered :
    (n : ℕ) (rows : List Round) → All (λ r. r.round_id < n) rows → find (is_round n) rows ≡ none
unfolding find
find_unnumbered n [] h = refl
find_unnumbered n (r ∷ rows) h = ground (arith, find_unnumbered n rows h.1)

pub start_round-IsNumbered :
    (by : String) (p : RoundParams) (n now : ℕ) (s : Store)
    → IsNumbered s
    → IsNumbered (start_round by p n now s).1
unfolding start_round
start_round-IsNumbered by p n now s h =
    All-append _ s.rounds _ (All-map (λ r q. omega arith) s.rounds h) (omega arith, tt)

-- In a table whose rounds are numbered below the counter, a round that was started is found under
-- its number, and no other round changes.
pub get_round-start_round :
    (by : String) (p : RoundParams) (n now j : ℕ) (s : Store)
    → IsNumbered s
    → let (i, s') = start_round by p n now s in
      get_round j s' ≡ (if j == i then some (new_round i by p n now) else get_round j s)
unfolding start_round get_round
get_round-start_round by p n now j s h = ground (
  arith,
  find-append (is_round j) s.rounds (new_round s.next_round by p n now),
  find_unnumbered s.next_round s.rounds h,
)
