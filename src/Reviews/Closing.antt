-- ===== src/Reviews/Closing.antt =====
-- Closing an open review by a button: what it earns.
use mathlib.Core.Path.{subst₂}
use leetcode_coach_service.Base.{
  ℕ, none, some, ◌≡◌, ap, sym, ◌∙◌, if◌then◌else◌, ◌==◌, nat_eq, int_eq, ℤ, pos, ◌+ℤ◌, arith,
  Option-cases, inl, inr, is_some,
}
use leetcode_coach_service.Text.{Text}
use leetcode_coach_service.Calendar.{Clock}
use leetcode_coach_service.Model.{
  PendingReview, Attempt, Problem, Outcome, saw_solution, outcome_text, parse_outcome-outcome_text,
  ReviewStatus, saw_solution_review,
}
use leetcode_coach_service.Store.{Db, ok, Result, pure}
use leetcode_coach_service.Store.Bind.{bind_returned, returned_eq}
use leetcode_coach_service.Store.Rows.{first-some}
use leetcode_coach_service.Credit.{credit_balance, find_credit}
use leetcode_coach_service.Credit.Keys.{solution_key}
use leetcode_coach_service.Attempts.{find_review, persist_attempt, require_open, require_problem}
use leetcode_coach_service.Attempts.Outcomes.{outcome_credit, credit_table}
use leetcode_coach_service.Attempts.Retry.{
  require_open_same, require_problem_same, persist_attempt_balance,
}
use leetcode_coach_service.Attempts.Rebooking.{persist_attempt_rebooked}
use leetcode_coach_service.Reviews.{close_review, bare_report, mark_solution_viewed}

priced : (o : Outcome) → outcome_credit (outcome_text o) ≡ some (credit_table o)
unfolding outcome_credit
priced o = rw parse_outcome-outcome_text

-- The review that is found open carries the id it was asked for.
require_open_id :
    (chat_id : ℤ) (id : ℕ) (r : PendingReview) (db mid : Db)
    → require_open chat_id id db ≡ (ok r, mid)
    → r.id ≡ id
unfolding require_open
require_open_id chat_id id r db mid run = elim (Option-cases (find_review id db)) [
  | inl missing ↦ absurd (ground (arith, missing))
  | inr (found, e) ↦
      ground (arith, e, first-some (λ (x : PendingReview). x.id == id) db.reviews.rows found e)
]

close_review_inv :
    (clock : Clock) (chat_id : ℤ) (id : ℕ) (o : Outcome) (status : ReviewStatus) (key : ℕ → Text)
    (r : PendingReview) (db db' : Db)
    → close_review clock chat_id id o status key db ≡ (ok r, db')
    → (review : PendingReview) × (problem : Problem) × (logged : Attempt) × (persist_attempt clock
          chat_id problem
          (bare_report o)
          (some review)
          (some (key id))
          none
          db
        ≡ (ok logged, db'))
unfolding close_review
close_review_inv clock chat_id id o status key r db db' run =
    let (review, db₁, found, rest) = bind_returned (require_open chat_id id) _ run in
    let (problem, db₂, found', rest') =
      bind_returned (require_problem review.problem_slug) _ rest in
    let (logged, db₃, done, last) =
      bind_returned
        (persist_attempt clock chat_id problem (bare_report o) (some review) (some (key review.id))
          none)
        (λ _. pure (record review { status = status; updated_at = clock.now })) rest' in
    let same₁ : db₁ ≡ db =
      ap (λ (r : Result PendingReview × Db). r.1) (sym found) ∙ require_open_same chat_id id db in
    let same₂ : db₂ ≡ db =
      ap (λ (r : Result Problem × Db). r.1) (sym found')
      ∙ require_problem_same review.problem_slug db₁
      ∙ same₁ in
    (
      review,
      problem,
      logged,
      subst₂
          (λ (d : Db) (n : ℕ).
            persist_attempt clock chat_id problem (bare_report o) (some review) (some (key n)) none
              d
            ≡ (ok logged, db'))
          same₂ (require_open_id chat_id id review db db₁ found)
          (done ∙ ap {B = Result Attempt × Db} (λ d. (ok logged, d)) (returned_eq last).1),
    )

-- What closing a review by a button earns depends on the ledger alone: what the outcome is worth
-- if no entry stands under the review's key, and nothing if one does.
close_review_credit :
    (clock : Clock) (chat_id : ℤ) (id : ℕ) (o : Outcome) (status : ReviewStatus) (key : ℕ → Text)
    (r : PendingReview) (db db' : Db)
    → close_review clock chat_id id o status key db ≡ (ok r, db')
    → (c : ℤ)
    → credit_balance c db' ≡ (
        if is_some (find_credit (key id) db.ledger.rows)
        then credit_balance c db
        else credit_balance c db +ℤ (if chat_id == c then credit_table o else pos 0))
close_review_credit clock chat_id id o status key r db db' run c =
    let (review, problem, logged, persisted) =
      close_review_inv clock chat_id id o status key r db db' run in
    elim (Option-cases (find_credit (key id) db.ledger.rows)) [
      | inl fresh ↦ rw fresh (
          persist_attempt_balance clock chat_id problem (bare_report o) (some review) (key id) none
            logged db db' persisted (priced o) fresh c)
      | inr (entry, there) ↦ rw there (
          persist_attempt_rebooked clock chat_id problem (bare_report o) (some review) (key id) none
            logged db db' persisted (priced o) entry there c)
    ]

-- The button "Saw solution" adds a quarter credit to the balance of the chat, and to no other, if
-- no entry stands under the review's solution key, and leaves every balance alone if one does.
pub mark_solution_viewed_credit :
    (clock : Clock) (chat_id : ℤ) (id : ℕ) (r : PendingReview) (db db' : Db)
    → mark_solution_viewed clock chat_id id db ≡ (ok r, db')
    → (c : ℤ)
    → credit_balance c db' ≡ (
        if is_some (find_credit (solution_key id) db.ledger.rows)
        then credit_balance c db
        else credit_balance c db +ℤ (if chat_id == c then pos 25 else pos 0))
unfolding mark_solution_viewed
mark_solution_viewed_credit clock chat_id id r db db' run c =
    close_review_credit clock chat_id id saw_solution saw_solution_review solution_key r db db' run
      c
