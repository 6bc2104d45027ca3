-- ===== src/Store/Challenges/Refines.antt =====
-- coordinator/store.py: the table of challenges as a book from challenges to what is known of them.
use threat_hunting_platform.Prelude.{
  ℕ, String, ◌≡◌, refl, Option, none, some, List, [], ◌∷◌, arith, eq_iff, ◌==◌, string_Eq,
  Option-cases, inl, inr, if◌then◌else◌,
}
use threat_hunting_platform.Prelude.Table.{find, find-append, find-update, find_fits}
use threat_hunting_platform.Store.Rows.{Challenge, Store}
use threat_hunting_platform.Store.Challenges.{
  is_challenge, new_challenge, issue_challenge, Refusal, consumable, spend, consume_challenge,
}
use threat_hunting_platform.Store.Challenges.OneShot.{
  Op, issue, consume, step, IsKeyed, step-IsKeyed, verdict, consume_challenge-verdict,
}

-- What a caller sees of a call.
pub data Answer : Type 0 where
  raised given used : Answer
  denied : Refusal → Answer

abbrev of_issue : Option Store → Answer
of_issue none = raised
of_issue (some s) = given

abbrev of_consume : Option Refusal → Answer
of_consume none = used
of_consume (some e) = denied e

unfoldable pub answer : Store → Op → Answer
answer s (issue org r ch ttl now) = of_issue (issue_challenge org r ch ttl now s)
answer s (consume ch org r now) = of_consume (consume_challenge ch org r now s).0

unfoldable pub answers : Store → List Op → List Answer
answers s [] = []
answers s (op ∷ ops) = answer s op ∷ answers (step s op) ops

-- The specification: for each challenge, what was issued and whether it was consumed.
abbrev pub Book : Type 0
Book = String → Option Challenge

abbrev book : Store → Book
book s ch = find (is_challenge ch) s.challenges

abbrev put : String → Option Challenge → Book → Book
put ch o b j = if ch == j then o else b j

abbrev book_issued : Option Challenge → String → Challenge → Book → Answer × Book
book_issued none ch c b = (given, put ch (some c) b)
book_issued (some old) ch c b = (raised, b)

abbrev book_spent : Option Refusal → ℕ → Option Challenge → Option Challenge
book_spent none now (some c) = some (spend now c)
book_spent _ now o = o

abbrev book_consumed : Option Refusal → String → ℕ → Book → Answer × Book
book_consumed o ch now b = (of_consume o, put ch (book_spent o now (b ch)) b)

unfoldable pub book_step : Book → Op → Answer × Book
book_step b (issue org r ch ttl now) = book_issued (b ch) ch (new_challenge org r ch ttl now) b
book_step b (consume ch org r now) = book_consumed (verdict org r now (b ch)) ch now b

unfoldable pub book_answers : Book → List Op → List Answer
book_answers b [] = []
book_answers b (op ∷ ops) = let (a, b') = book_step b op in a ∷ book_answers b' ops

-- The table holds what the book says.
abbrev Agrees : Store → Book → Type 0
Agrees s b = (j : String) → find (is_challenge j) s.challenges ≡ b j

issue-Agrees :
    (org : String) (r : ℕ) (ch : String) (ttl now : ℕ) (s : Store) (b : Book)
    → Agrees s b
    → (of_issue (issue_challenge org r ch ttl now s) ≡ (book_step b (issue org r ch ttl now)).0)
      × Agrees (step s (issue org r ch ttl now)) (book_step b (issue org r ch ttl now)).1
unfolding book_step step issue_challenge
issue-Agrees org r ch ttl now s b agrees = elim (Option-cases (b ch)) [
  | inl e ↦
      rw (agrees ch, e)
        (
          refl,
          λ j. ground (
            arith,
            e,
            agrees j,
            agrees ch,
            eq_iff ch j,
            find-append (is_challenge j) s.challenges (new_challenge org r ch ttl now),
          ),
        )
  | inr (c, e) ↦ rw (agrees ch, e) (refl, agrees)
]

consume-row :
    (ch org : String) (r now : ℕ) (s : Store) (j : String)
    → find (is_challenge j) (consume_challenge ch org r now s).1.challenges
      ≡ put ch
          (book_spent
            (verdict org r now (find (is_challenge ch) s.challenges))
            now
            (find (is_challenge ch) s.challenges))
          (book s)
          j
unfolding consume_challenge
consume-row ch org r now s j =
    let p = consumable ch org r now in
    let row = find-update (is_challenge j) p (spend now) s.challenges (λ x. refl) in
    elim (Option-cases (find (is_challenge j) s.challenges)) [
      | inl e ↦ ground (arith, row, e, eq_iff ch j)
      | inr (c, e) ↦ ground (
        arith,
        row,
        e,
        find_fits (is_challenge j) s.challenges c e,
        eq_iff ch j,
        eq_iff c.challenge ch,
        eq_iff c.challenge j,
      )
    ]

consume-Agrees :
    (ch org : String) (r now : ℕ) (s : Store) (b : Book)
    → IsKeyed s
    → Agrees s b
    → (of_consume (consume_challenge ch org r now s).0 ≡ (book_step b (consume ch org r now)).0)
      × Agrees (step s (consume ch org r now)) (book_step b (consume ch org r now)).1
unfolding book_step step
consume-Agrees ch org r now s b keyed agrees = (
  rw (consume_challenge-verdict ch org r now s keyed, agrees ch) refl,
  λ j. rw (consume-row ch org r now s j, agrees ch, agrees j) refl,
)

step-Agrees :
    (s : Store) (b : Book) (op : Op)
    → IsKeyed s
    → Agrees s b
    → (answer s op ≡ (book_step b op).0) × Agrees (step s op) (book_step b op).1
unfolding answer
step-Agrees s b (issue org r ch ttl now) keyed agrees = issue-Agrees org r ch ttl now s b agrees
step-Agrees s b (consume ch org r now) keyed agrees = consume-Agrees ch org r now s b keyed agrees

run-Agrees :
    (s : Store) (b : Book) (ops : List Op)
    → IsKeyed s
    → Agrees s b
    → answers s ops ≡ book_answers b ops
unfolding answers book_answers
run-Agrees s b [] keyed agrees = refl
run-Agrees s b (op ∷ ops) keyed agrees =
    let (same, next) = step-Agrees s b op keyed agrees in
    rw (same, run-Agrees (step s op) (book_step b op).1 ops (step-IsKeyed s op keyed) next) refl

-- A table without duplicate challenges answers every sequence of calls as a book does, which keeps
-- for each challenge what was issued and whether it was consumed: a challenge is issued unless the
-- book has it, and is consumed or refused as its entry alone decides.
pub answers-book_answers :
    (s : Store) (ops : List Op) → IsKeyed s → answers s ops ≡ book_answers (book s) ops
answers-book_answers s ops keyed = run-Agrees s (book s) ops keyed (λ j. refl)
