-- ===== src/Tests/Recording.antt =====
-- Recording an attempt at an open review, and directly.
use leetcode_coach_service.Base.{none, some, pos, ◌+ℤ◌, int_beq, ◌≡◌, refl}
use leetcode_coach_service.Text.{text_beq, show_int, show_nat, show_from}
use leetcode_coach_service.Model.{Attempt, parse_outcome, outcome_text}
use leetcode_coach_service.Store.{Db, ok}
use leetcode_coach_service.Credit.{add_credit, credit_balance, balance_of, sum_amounts}
use leetcode_coach_service.Credit.Keys.{review_attempt_key, canonical_attempt_key}
use leetcode_coach_service.Lesson.{apply_lesson_delta}
use leetcode_coach_service.Attempts.{
  new_attempt, commit_attempt, commit_open_review, require_open, require_problem, persist_attempt,
  settle_review, set_review_status, log_attempt, add_attempt, book_attempt, link_credit,
  record_problem_attempt,
}
use leetcode_coach_service.Attempts.Outcomes.{outcome_credit, review_status, validate_outcome}
use leetcode_coach_service.Attempts.Counting.{count_attempt, active, latest}
use leetcode_coach_service.Attempts.Invariant.{
  CountsAgree, commit_attempt-CountsAgree, record_problem_attempt-CountsAgree,
}
use leetcode_coach_service.Attempts.Retry.{commit_attempt_credit, commit_attempt_retry}
use leetcode_coach_service.Tests.Fixtures.{
  clock, later_clock, chat, two_sum, db, report, key, today,
}

abbrev pub attempt : Attempt
attempt = new_attempt clock chat two_sum report (some 1) today 1

abbrev pub after : Db
after = (commit_attempt clock chat 1 report (some key) db).1

pub committed : commit_attempt clock chat 1 report (some key) db ≡ (ok (some attempt), after)
unfolding commit_attempt commit_open_review require_open require_problem persist_attempt
    settle_review set_review_status log_attempt add_attempt book_attempt link_credit
    validate_outcome outcome_credit review_status parse_outcome outcome_text text_beq int_beq
    add_credit review_attempt_key show_int show_nat show_from count_attempt apply_lesson_delta
committed = refl

commit_attempt_retry_example :
    commit_attempt later_clock chat 1 report (some key) after ≡ (ok none, after)
unfolding parse_outcome outcome_text text_beq
commit_attempt_retry_example =
    commit_attempt_retry clock chat 1 report key attempt db after committed later_clock report refl

commit_attempt_credit_example : credit_balance chat after ≡ pos 100
unfolding parse_outcome outcome_text text_beq outcome_credit credit_balance balance_of sum_amounts
    ◌+ℤ◌ int_beq
commit_attempt_credit_example =
    commit_attempt_credit clock chat 1 report key attempt db after committed chat

pub db-CountsAgree : CountsAgree db
unfolding active latest
db-CountsAgree = (
  record { times = refl; last = refl; flag = refl },
  (record { times = refl; last = refl; flag = refl }, tt),
)

commit_attempt-CountsAgree_example : CountsAgree after
commit_attempt-CountsAgree_example =
    commit_attempt-CountsAgree clock chat 1 report (some key) db db-CountsAgree

abbrev direct : Db
direct = (record_problem_attempt clock chat two_sum report key none db).1

recorded :
    record_problem_attempt clock chat two_sum report key none db ≡ (ok (some attempt), direct)
unfolding record_problem_attempt persist_attempt settle_review set_review_status log_attempt
    add_attempt book_attempt link_credit validate_outcome outcome_credit review_status parse_outcome
    outcome_text text_beq int_beq add_credit canonical_attempt_key show_int show_nat show_from
    count_attempt apply_lesson_delta
recorded = refl

record_problem_attempt-CountsAgree_example : CountsAgree direct
record_problem_attempt-CountsAgree_example =
    record_problem_attempt-CountsAgree clock chat two_sum report key none db db-CountsAgree
