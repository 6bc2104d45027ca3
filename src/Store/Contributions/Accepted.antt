-- ===== src/Store/Contributions/Accepted.antt =====
-- coordinator/store.py: how many accepted contributions an organisation has for a round.
use threat_hunting_platform.Prelude.{
  ℕ, ◌+◌, ◌<◌, String, ◌≡◌, Bool, true, false, ◌&&◌, Option, arith, ◌==◌, string_Eq, nat_Eq,
  if◌then◌else◌,
}
use threat_hunting_platform.Prelude.Int.{ℤ}
use threat_hunting_platform.Prelude.Table.{count, count-append, count-zero, find_of_count-zero}
use threat_hunting_platform.Store.Rows.{Store}
use threat_hunting_platform.Store.Contributions.{
  accepted_from, new_contribution, record_contribution, has_accepted_contribution,
}

unfoldable pub accepted_count : ℕ → String → Store → ℕ
accepted_count r o s = count (accepted_from r o) s.contributions

pub accepted_count_zero :
    (r : ℕ) (o : String) (s : Store)
    → has_accepted_contribution r o s ≡ false
    → accepted_count r o s ≡ 0
unfolding accepted_count has_accepted_contribution
accepted_count_zero r o s h = ground (arith, count-zero (accepted_from r o) s.contributions)

pub accepted_count_pos :
    (r : ℕ) (o : String) (s : Store)
    → has_accepted_contribution r o s ≡ true
    → 0 < accepted_count r o s
unfolding accepted_count has_accepted_contribution
accepted_count_pos r o s h = ground (arith, find_of_count-zero (accepted_from r o) s.contributions)

pub accepted_count-record :
    (r r' : ℕ) (o o' hash : String) (n : ℤ) (att sig ch : String) (acc : Bool)
    (path why : Option String) (now : ℕ) (s : Store)
    → accepted_count r' o' (record_contribution r o hash n att sig ch acc path why now s).1
      ≡ accepted_count r' o' s + (if r == r' && o == o' && acc then 1 else 0)
unfolding accepted_count record_contribution
accepted_count-record r r' o o' hash n att sig ch acc path why now s =
    count-append (accepted_from r' o') s.contributions
      (new_contribution s.next_contribution r o hash n att sig ch acc path why now)
