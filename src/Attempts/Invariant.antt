-- ===== src/Attempts/Invariant.antt =====
-- Invariants of recording attempts.
use leetcode_coach_service.Base.{ℕ, Option, none, some, List, ◌≡◌, refl, sym, ℤ, All}
use mathlib.Core.Path.{subst₂}
use leetcode_coach_service.Text.{Text}
use leetcode_coach_service.Calendar.{Date, Clock}
use leetcode_coach_service.Model.{Attempt, Problem, PendingReview}
use leetcode_coach_service.Store.{Db, Table}
use leetcode_coach_service.Store.Keeps.{Keeps, keeps_rules, Keeps-modify, Keeps-create}
use leetcode_coach_service.Credit.{add_credit}
use leetcode_coach_service.Credit.Laws.{add_credit-OnlyLedger}
use leetcode_coach_service.Lesson.Laws.{apply_lesson_delta-OnlyLessons}
use leetcode_coach_service.Lesson.{LessonDelta, apply_lesson_delta}
use leetcode_coach_service.Attempts.{
  require_open, require_problem, commit_open_review, commit_attempt, record_problem_attempt, Report,
  settle_review, add_attempt, book_attempt, log_attempt, persist_attempt, new_attempt, link_credit,
}
use leetcode_coach_service.Attempts.Outcomes.{validate_outcome}
use leetcode_coach_service.Attempts.Consistency.{IsCounted, add_attempt-IsCounted}

-- Every problem's counters are what a recomputation would give.
abbrev pub CountsAgree : Db → Type 0
CountsAgree db = All (IsCounted db.attempts.rows) db.problems

settle_review-CountsAgree :
    (clock : Clock) (review : Option PendingReview) (outcome : Text)
    → Keeps CountsAgree (settle_review clock review outcome)
unfolding settle_review
settle_review-CountsAgree clock none outcome = search keeps_rules
settle_review-CountsAgree clock (some review) outcome = search (keeps_rules, Keeps-modify)

-- The invariant is about two tables.
same_CountsAgree :
    (db db' : Db)
    → db'.problems ≡ db.problems
    → db'.attempts ≡ db.attempts
    → CountsAgree db
    → CountsAgree db'
same_CountsAgree db db' p a h =
    subst₂ (λ (t : Table Attempt) (ps : List Problem). All (IsCounted t.rows) ps) (sym a) (sym p) h

apply_lesson_delta-CountsAgree :
    (clock : Clock) (chat_id : ℤ) (delta : Option LessonDelta)
    → Keeps CountsAgree (apply_lesson_delta clock chat_id delta)
apply_lesson_delta-CountsAgree clock chat_id delta = record {
  after = λ db h.
      let frame = apply_lesson_delta-OnlyLessons clock chat_id delta db in
      same_CountsAgree db (apply_lesson_delta clock chat_id delta db).1 frame.problems
        frame.attempts h;
}

add_attempt-CountsAgree :
    (clock : Clock) (chat_id : ℤ) (slug : Text) (report : Report) (review_id : Option ℕ) (on : Date)
    → (db : Db) → CountsAgree db
    → CountsAgree (add_attempt clock chat_id slug report review_id on db).1
unfolding add_attempt
add_attempt-CountsAgree clock chat_id slug report review_id on db h =
    add_attempt-IsCounted db.attempts.rows
      (new_attempt clock chat_id slug report review_id on db.attempts.next_id) refl db.problems h

add_credit-CountsAgree :
    (clock : Clock) (chat_id amount : ℤ) (reason key : Text) (review_id : Option ℕ)
    (effective_on : Option Date) (attempt_id : Option ℕ)
    → Keeps CountsAgree
        (add_credit clock chat_id amount reason key review_id effective_on attempt_id)
add_credit-CountsAgree clock chat_id amount reason key review_id effective_on attempt_id = record {
  after = λ db h.
      let frame =
        add_credit-OnlyLedger clock chat_id amount reason key review_id effective_on attempt_id
          db in
      same_CountsAgree db
        (add_credit clock chat_id amount reason key review_id effective_on attempt_id db).1
        frame.problems frame.attempts h;
}

book_attempt-CountsAgree :
    (clock : Clock) (chat_id : ℤ) (outcome : Text) (review_id : Option ℕ) (key : Option Text)
    (attempt : Attempt)
    → Keeps CountsAgree (book_attempt clock chat_id outcome review_id key attempt)
unfolding book_attempt link_credit
book_attempt-CountsAgree clock chat_id outcome review_id key attempt =
    search (keeps_rules, Keeps-modify, add_credit-CountsAgree)

pub persist_attempt-CountsAgree :
    (clock : Clock) (chat_id : ℤ) (problem : Problem) (report : Report)
    (review : Option PendingReview) (key : Option Text) (attempted_on : Option Date)
    → Keeps CountsAgree (persist_attempt clock chat_id problem report review key attempted_on)
unfolding persist_attempt log_attempt
persist_attempt-CountsAgree clock chat_id problem report review key attempted_on = search (
  keeps_rules, Keeps-create, settle_review-CountsAgree, add_attempt-CountsAgree,
  apply_lesson_delta-CountsAgree, book_attempt-CountsAgree,
)

require_open-CountsAgree :
    (chat_id : ℤ) (review_id : ℕ) → Keeps CountsAgree (require_open chat_id review_id)
unfolding require_open
require_open-CountsAgree chat_id review_id = search keeps_rules

require_problem-CountsAgree : (slug : Text) → Keeps CountsAgree (require_problem slug)
unfolding require_problem
require_problem-CountsAgree slug = search keeps_rules

validate_outcome-CountsAgree : (t : Text) → Keeps CountsAgree (validate_outcome t)
unfolding validate_outcome
validate_outcome-CountsAgree t = search keeps_rules

commit_open_review-CountsAgree :
    (clock : Clock) (chat_id : ℤ) (review_id : ℕ) (report : Report) (key : Option Text)
    → Keeps CountsAgree (commit_open_review clock chat_id review_id report key)
unfolding commit_open_review
commit_open_review-CountsAgree clock chat_id review_id report key = search (
  keeps_rules, require_open-CountsAgree, require_problem-CountsAgree, persist_attempt-CountsAgree,
)

commit_attempt-Keeps :
    (clock : Clock) (chat_id : ℤ) (review_id : ℕ) (report : Report) (operation_key : Option Text)
    → Keeps CountsAgree (commit_attempt clock chat_id review_id report operation_key)
unfolding commit_attempt
commit_attempt-Keeps clock chat_id review_id report none =
    search (keeps_rules, validate_outcome-CountsAgree, commit_open_review-CountsAgree)
commit_attempt-Keeps clock chat_id review_id report (some operation_key) =
    search (keeps_rules, validate_outcome-CountsAgree, commit_open_review-CountsAgree)

-- After `commit_attempt`, on every branch and also when it raises, the count, the last date and
-- the solved flag of every problem are those of its active attempts, if they were before.
pub commit_attempt-CountsAgree :
    (clock : Clock) (chat_id : ℤ) (review_id : ℕ) (report : Report) (operation_key : Option Text)
    (db : Db)
    → CountsAgree db
    → CountsAgree (commit_attempt clock chat_id review_id report operation_key db).1
commit_attempt-CountsAgree clock chat_id review_id report operation_key db =
    (commit_attempt-Keeps clock chat_id review_id report operation_key).after db

record_problem_attempt-Keeps :
    (clock : Clock) (chat_id : ℤ) (slug : Text) (report : Report) (operation_key : Text)
    (attempted_on : Option Date)
    → Keeps CountsAgree
        (record_problem_attempt clock chat_id slug report operation_key attempted_on)
unfolding record_problem_attempt
record_problem_attempt-Keeps clock chat_id slug report operation_key attempted_on =
    search (keeps_rules, validate_outcome-CountsAgree, persist_attempt-CountsAgree) depth 12

-- After `record_problem_attempt`, on every branch and also when it raises, the count, the last
-- date and the solved flag of every problem are those of its active attempts, if they were before.
pub record_problem_attempt-CountsAgree :
    (clock : Clock) (chat_id : ℤ) (slug : Text) (report : Report) (operation_key : Text)
    (attempted_on : Option Date) (db : Db)
    → CountsAgree db
    → CountsAgree (record_problem_attempt clock chat_id slug report operation_key attempted_on db).1
record_problem_attempt-CountsAgree clock chat_id slug report operation_key attempted_on db =
    (record_problem_attempt-Keeps clock chat_id slug report operation_key attempted_on).after db
