-- ===== src/Attempts.antt =====
-- Attempts: `_persist_attempt`, `commit_attempt` and `record_problem_attempt` of `CoachDomain`
-- (src/leetcode_coach/domain/services.py), with the outcome tables that they read.
pub mod Outcomes
pub mod Counting
pub mod Consistency
pub mod Invariant
pub mod Booking
pub mod Rebooking
pub mod Retry
pub mod Revise
use leetcode_coach_service.Base.{
  ℕ, suc, Bool, true, false, Option, none, some, List, [], ◌∷◌, ◌++◌, ◌&&◌, ◌||◌, ◌+◌, ⊤,
  if◌then◌else◌, ◌==◌, ℤ, int_eq, first, update, Eq, nat_eq, or_else, leb, ltb, not, length,
  is_some,
}
use leetcode_coach_service.Text.{Text, codes, text_eq, is_empty}
use leetcode_coach_service.Calendar.{Clock, Date, date_ltb}
use leetcode_coach_service.Model.{
  Attempt, Problem, PendingReview, CreditEntry, is_open_review, ReviewStatus, Outcome, attempted,
}
use leetcode_coach_service.Store.{
  Db, Exec, ok, err, insert, pure, raise, raise_if, or_raise, modify, create, gets, ◌>>=◌, ◌>>◌,
  key_error, assertion_error, problem_not_found, open_review_not_found, review_closed,
  invalid_operation_key, future_date,
}
use leetcode_coach_service.Credit.{add_credit, find_credit}
use leetcode_coach_service.Credit.Keys.{attempt_key, review_attempt_key, canonical_attempt_key}
use leetcode_coach_service.Lesson.{LessonDelta, apply_lesson_delta}
use Outcomes.{validate_outcome, outcome_credit, review_status, is_outcome}
use Counting.{count_attempt}

-- What the caller reports of an attempt.
pub record Report : Type 0 where
  pub outcome : Text
  pub feedback : Text
  pub lesson_delta : Option LessonDelta
  pub language : Option Text
  pub solution_summary : Text
  pub time_spent_min : Option ℕ

abbrev pub find_problem : Text → Db → Option Problem
find_problem slug db = first (λ (p : Problem). p.slug == slug) db.problems

abbrev pub find_review : ℕ → Db → Option PendingReview
find_review id db = first (λ (r : PendingReview). r.id == id) db.reviews.rows

-- The review `id` gets a status and a time stamp.
unfoldable pub set_review_status : ℕ → ReviewStatus → ℕ → Db → Db
set_review_status id status now db = record db {
  reviews = record (db.reviews) {
    rows =
        update (λ (r : PendingReview). r.id == id)
          (λ r. record r { status = status; updated_at = now }) db.reviews.rows;
  };
}

-- `if review is not None and outcome != "attempted": review.status = ...`
unfoldable pub settle_review : Clock → Option PendingReview → Text → Exec ⊤
unfolding set_review_status
settle_review clock none outcome = pure tt
settle_review clock (some review) outcome = if is_outcome attempted outcome then pure tt else do
  status ← or_raise (review_status outcome) key_error
  modify (set_review_status review.id status clock.now)

abbrev pub review_id_of : Option PendingReview → Option ℕ
review_id_of none = none
review_id_of (some r) = some r.id

abbrev pub new_attempt : Clock → ℤ → Text → Report → Option ℕ → Date → ℕ → Attempt
new_attempt clock chat_id slug report review_id attempted_on id = record {
  id = id;
  legacy_attempt_id = none;
  chat_id = chat_id;
  review_id = review_id;
  problem_slug = slug;
  attempted_on = attempted_on;
  outcome = report.outcome;
  feedback = report.feedback;
  time_spent_min = report.time_spent_min;
  language = report.language;
  solution_summary = report.solution_summary;
  reversed_at = none;
  created_at = clock.now;
  updated_at = clock.now;
}

-- The problem's counters, and then the new row.
unfoldable pub add_attempt : Clock → ℤ → Text → Report → Option ℕ → Date → Db → Attempt × Db
unfolding count_attempt
add_attempt clock chat_id slug report review_id attempted_on db =
    let row = new_attempt clock chat_id slug report review_id attempted_on in
    (
      row db.attempts.next_id,
      record db {
        problems =
            update (λ (p : Problem). p.slug == slug) (count_attempt attempted_on report.outcome)
              db.problems;
        attempts = insert row db.attempts;
      },
    )

-- `credit.attempt_id = attempt.id`
unfoldable pub link_credit : ℕ → ℕ → Db → Db
link_credit credit_id attempt_id db = record db {
  ledger = record (db.ledger) {
    rows =
        update (λ (e : CreditEntry). e.id == credit_id)
          (λ e. record e { attempt_id = some attempt_id }) db.ledger.rows;
  };
}

-- The credit of an attempt: booked under its key, and linked to the attempt.
unfoldable pub book_attempt : Clock → ℤ → Text → Option ℕ → Option Text → Attempt → Exec ⊤
book_attempt clock chat_id outcome review_id key attempt = do
  amount ← or_raise (outcome_credit outcome) key_error
  credit ←
      add_credit clock chat_id amount outcome (or_else key (attempt_key attempt.id)) review_id
        (some attempt.attempted_on) none
  modify (link_credit credit.id attempt.id)

-- The part of `_persist_attempt` behind the review: counters, row, lesson and credit.
unfoldable pub log_attempt :
    Clock → ℤ → Text → Report → Option ℕ → Option Text → Date → Exec Attempt
log_attempt clock chat_id slug report review_id key effective_on = do
  attempt ← create (add_attempt clock chat_id slug report review_id effective_on)
  apply_lesson_delta clock chat_id report.lesson_delta
  book_attempt clock chat_id report.outcome review_id key attempt
  pure attempt

unfoldable pub persist_attempt :
    Clock → ℤ → Problem → Report → Option PendingReview → Option Text → Option Date → Exec Attempt
persist_attempt clock chat_id problem report review key attempted_on = do
  settle_review clock review report.outcome
  log_attempt clock chat_id problem.slug report (review_id_of review) key
      (or_else attempted_on clock.today)

-- `_open_review`
unfoldable pub require_open : ℤ → ℕ → Exec PendingReview
require_open chat_id review_id = do
  found ← gets (find_review review_id)
  review ← or_raise found open_review_not_found
  raise_if (not (review.chat_id == chat_id)) open_review_not_found
  raise_if (not (is_open_review review.status)) review_closed
  pure review

-- `session.get(V2Problem, slug)` and the assertion behind it.
unfoldable pub require_problem : Text → Exec Problem
require_problem slug = do found ← gets (find_problem slug); or_raise found assertion_error

-- An operation key that is empty or makes the credit key longer than its column is refused.
abbrev pub is_bad_key : Text → Text → Bool
is_bad_key operation_key key = is_empty operation_key || ltb 200 (length key)

-- `none` is the reply `{"replayed": True}`.
unfoldable pub commit_open_review : Clock → ℤ → ℕ → Report → Option Text → Exec (Option Attempt)
commit_open_review clock chat_id review_id report key = do
  review ← require_open chat_id review_id
  problem ← require_problem review.problem_slug
  attempt ← persist_attempt clock chat_id problem report (some review) key none
  pure (some attempt)

unfoldable pub commit_attempt : Clock → ℤ → ℕ → Report → Option Text → Exec (Option Attempt)
commit_attempt clock chat_id review_id report none = do
  validate_outcome report.outcome
  commit_open_review clock chat_id review_id report none
commit_attempt clock chat_id review_id report (some operation_key) = do
  validate_outcome report.outcome
  let key = review_attempt_key chat_id review_id operation_key
  raise_if (is_bad_key operation_key key) invalid_operation_key
  replay ← gets (λ db. find_credit key db.ledger.rows)
  if is_some replay then pure none else commit_open_review clock chat_id review_id report (some key)

-- The oldest open review of the chat for the problem; rows stand in the order of their ids.
abbrev pub open_review_for : ℤ → Text → Db → Option PendingReview
open_review_for chat_id slug db =
    first
      (λ (r : PendingReview).
        r.chat_id == chat_id && (r.problem_slug == slug && is_open_review r.status))
      db.reviews.rows

unfoldable pub record_problem_attempt :
    Clock → ℤ → Text → Report → Text → Option Date → Exec (Option Attempt)
record_problem_attempt clock chat_id slug report operation_key attempted_on = do
  validate_outcome report.outcome
  found ← gets (find_problem slug)
  problem ← or_raise found problem_not_found
  let effective_on = or_else attempted_on clock.today
  raise_if (date_ltb clock.today effective_on) future_date
  let key = canonical_attempt_key chat_id slug operation_key
  raise_if (is_bad_key operation_key key) invalid_operation_key
  replay ← gets (λ db. find_credit key db.ledger.rows)
  if is_some replay then pure none else do
    review ← gets (open_review_for chat_id slug)
    attempt ← persist_attempt clock chat_id problem report review (some key) (some effective_on)
    pure (some attempt)
