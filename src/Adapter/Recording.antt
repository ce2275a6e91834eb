-- ===== src/Adapter/Recording.antt =====
-- `commit_attempt`, `record_problem_attempt`, `correct_attempt` and `reverse_attempt` of
-- src/leetcode_coach/runtime/adapters.py: the service calls with their checks and receipts, for ids
-- that `int` has read.
use leetcode_coach_service.Base.{
  ℕ, Bool, true, false, Option, none, some, [], ◌||◌, ℤ, not, ltb, length, take, is_some, or_else,
  if◌then◌else◌,
}
use leetcode_coach_service.Text.{Text, is_empty}
use leetcode_coach_service.Calendar.{Clock, Date, date_ltb}
use leetcode_coach_service.Model.{Problem, Attempt, CreditEntry}
use leetcode_coach_service.Store.{
  Db, Exec, ok, err, pure, or_raise, gets, write, ◌>>=◌, ◌>>◌, value_error, assertion_error,
}
use leetcode_coach_service.Credit.{find_credit, credit_balance}
use leetcode_coach_service.Credit.Keys.{review_attempt_key, canonical_attempt_key}
use leetcode_coach_service.Attempts.{
  Report, find_problem, find_review, commit_attempt, record_problem_attempt,
}
use leetcode_coach_service.Attempts.Revise.{Correction, correct_attempt, reverse_attempt}
use leetcode_coach_service.Rendering.{Receipt}
use leetcode_coach_service.Adapter.{attempt_receipt, parse_attempted_on}
use leetcode_coach_service.Adapter.Start.{ensure_problem}

-- The result of the service, `none` for a replay, and the receipt.
abbrev pub Recorded : Type 0
Recorded = Option Attempt × Receipt

unfoldable pub review_problem : ℕ → Db → Option Problem
review_problem review_id db = elim (find_review review_id db) [
  | none ↦ none
  | some r ↦ find_problem r.problem_slug db
]

-- The entry of a replay; `.one()` raises if there is none.
unfoldable pub replayed_entry : Option Text → Option Attempt → Exec (Option CreditEntry)
replayed_entry none result db = (ok none, db)
replayed_entry (some key) (some attempt) db = (ok none, db)
replayed_entry (some key) none db = elim (find_credit key db.ledger.rows) [
  | none ↦ (err value_error, db)
  | some entry ↦ (ok (some entry), db)
]

abbrev pub recorded_outcome : Text → Option CreditEntry → Text
recorded_outcome outcome none = outcome
recorded_outcome outcome (some entry) = entry.reason

abbrev pub review_key : ℤ → ℕ → Option Text → Option Text
review_key chat_id review_id none = none
review_key chat_id review_id (some key) = some (review_attempt_key chat_id review_id key)

-- What follows the service call at a review; `key` is that of the ledger.
unfoldable pub review_receipt :
    ℤ → Text → Option Text → Option Problem → ℤ → Option Attempt → Exec Recorded
unfolding replayed_entry attempt_receipt credit_balance
review_receipt chat_id outcome key problem before result = do
  entry ← replayed_entry key result
  after ← gets (credit_balance chat_id)
  p ← or_raise problem assertion_error
  pure (
    result,
    attempt_receipt p.title (recorded_outcome outcome entry) before after true
        (not (is_some result)),
  )

unfoldable pub commit_with_receipt : Clock → ℤ → ℕ → Report → Option Text → Exec Recorded
unfolding review_receipt commit_attempt review_problem
commit_with_receipt clock chat_id review_id report operation_key = do
  problem ← gets (review_problem review_id)
  before ← gets (credit_balance chat_id)
  result ← commit_attempt clock chat_id review_id report operation_key
  review_receipt chat_id report.outcome (review_key chat_id review_id operation_key) problem before
      result

-- `SQLCoachDomainAdapter.commit_attempt`
unfoldable pub commit_review_attempt : Clock → ℤ → ℕ → Report → Option Text → Exec Recorded
unfolding commit_with_receipt
commit_review_attempt clock chat_id review_id report operation_key =
    write (commit_with_receipt clock chat_id review_id report operation_key)

-- The attempt was made at a review.
abbrev pub is_queued : Option Attempt → Option CreditEntry → Bool
is_queued (some a) entry = is_some a.review_id
is_queued none none = false
is_queued none (some entry) = is_some entry.review_id

abbrev pub is_too_long : Text → Option Text → Text → Bool
is_too_long slug title tags =
    ltb 200 (length slug) || (ltb 300 (length (or_else title [])) || ltb 1000 (length tags))

-- The limits of title and tags were checked, so that the cuts of the insert leave them alone.
unfoldable pub record_with_receipt :
    Clock → ℤ → Text → Option Text → Option Text → Text → Report → Text → Date → Exec Recorded
record_with_receipt clock chat_id slug title difficulty tags report operation_key attempted_on = do
  ensure_problem clock slug title difficulty tags
  problem ← gets (find_problem slug)
  before ← gets (credit_balance chat_id)
  result ←
      record_problem_attempt clock chat_id slug
        (record report { solution_summary = take 4000 report.solution_summary }) operation_key
        (some attempted_on)
  entry ← replayed_entry (some (canonical_attempt_key chat_id slug operation_key)) result
  after ← gets (credit_balance chat_id)
  p ← or_raise problem assertion_error
  pure (
    result,
    attempt_receipt p.title (recorded_outcome report.outcome entry) before after
        (is_queued result entry) (not (is_some result)),
  )

-- `parsed or today`, which may not be in the future; `none` is the `ValueError`.
unfoldable pub attempt_date : (Text → Option Date) → Clock → Option Text → Option Date
unfolding parse_attempted_on
attempt_date from_iso clock value = elim (parse_attempted_on from_iso clock value) [
  | none ↦ none
  | some parsed ↦
      let date = or_else parsed clock.today in if date_ltb clock.today date then none else some date
]

-- `SQLCoachDomainAdapter.record_problem_attempt` of a slug in its exact form.
unfoldable pub record_direct_attempt :
    (Text → Option Date)
    → Clock
    → ℤ
    → Text
    → Option Text
    → Option Text
    → Text
    → Report
    → Text
    → Option Text
    → Exec Recorded
unfolding attempt_date record_with_receipt
record_direct_attempt from_iso clock chat_id slug title difficulty tags report operation_key
      attempted_on db =
    if is_too_long slug title tags
    then (err value_error, db)
    else elim (attempt_date from_iso clock attempted_on) [
      | none ↦ (err value_error, db)
      | some date ↦
          write
            (record_with_receipt clock chat_id slug title difficulty tags report operation_key date)
            db
    ]

abbrev pub cut : ℕ → Option Text → Option Text
cut n none = none
cut n (some t) = some (take n t)

-- `language[:50] if language else None`
abbrev pub cut_language : Option Text → Option Text
cut_language none = none
cut_language (some t) = if is_empty t then none else some (take 50 t)

abbrev pub cut_correction : Option Date → Correction → Correction
cut_correction date c = record c {
  attempted_on = date;
  feedback = cut 4000 c.feedback;
  language = cut_language c.language;
  solution_summary = cut 4000 c.solution_summary;
  reason = take 1000 c.reason;
}

abbrev pub is_future : Clock → Option Date → Bool
is_future clock none = false
is_future clock (some date) = date_ltb clock.today date

-- `SQLCoachDomainAdapter.correct_attempt`; the date of the correction comes as text.
unfoldable pub correct_recorded_attempt :
    (Text → Option Date) → Clock → ℤ → ℕ → Option Text → Correction → Text → Exec (Option Attempt)
unfolding parse_attempted_on
correct_recorded_attempt from_iso clock chat_id attempt_id attempted_on c operation_key db =
    elim (parse_attempted_on from_iso clock attempted_on) [
      | none ↦ (err value_error, db)
      | some date ↦
          if is_future clock date
          then (err value_error, db)
          else write
              (correct_attempt clock chat_id attempt_id (cut_correction date c) operation_key) db
    ]

-- `SQLCoachDomainAdapter.reverse_attempt`
unfoldable pub reverse_recorded_attempt : Clock → ℤ → ℕ → Text → Text → Exec (Option Attempt)
unfolding reverse_attempt
reverse_recorded_attempt clock chat_id attempt_id reason operation_key =
    write (reverse_attempt clock chat_id attempt_id (take 1000 reason) operation_key)
