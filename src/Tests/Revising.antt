-- ===== src/Tests/Revising.antt =====
-- Correcting and reversing an attempt.
use leetcode_coach_service.Base.{
  true, false, none, some, [], ◌∷◌, negsuc, ◌+ℤ◌, ◌-ℤ◌, int_beq, ◌≡◌, refl, ◌⊎◌, nat_eq,
}
use leetcode_coach_service.Text.{codes, text_beq, show_int, show_nat, show_from}
use leetcode_coach_service.Store.{Db, ok, err, already_reversed}
use leetcode_coach_service.Credit.{add_credit, credit_balance, balance_of, sum_amounts}
use leetcode_coach_service.Tests.Fixtures.{
  clock, later_clock, chat, two_sum, db, report, key, today, problem,
}
use leetcode_coach_service.Model.{Attempt, parse_outcome, outcome_text}
use leetcode_coach_service.Credit.Keys.{
  revision_key, correction_remove_key, correction_replace_key, reversal_key,
}
use leetcode_coach_service.Attempts.{new_attempt, set_review_status}
use leetcode_coach_service.Store.Rows.{Unique}
use leetcode_coach_service.Attempts.Outcomes.{outcome_credit, review_status, validate_outcome}
use leetcode_coach_service.Attempts.Counting.{active, latest, recomputed, recompute_problem}
use leetcode_coach_service.Attempts.Invariant.{CountsAgree}
use leetcode_coach_service.Attempts.Revise.{
  Correction, attempt_snapshot, corrected, reversed, write_attempt, write_review, add_revision,
  check_correction, restate_review, book_correction, correct_checked, correct_attempt,
  book_reversal, reverse_attempt,
}
use leetcode_coach_service.Attempts.Revise.Counts.{
  reverse_attempt-CountsAgree, correct_attempt-CountsAgree,
}
use leetcode_coach_service.Attempts.Revise.Credits.{
  reverse_attempt_credit, correct_attempt_credit, reverse_attempt_once,
}

abbrev attempt : Attempt
attempt = new_attempt clock chat two_sum report (some 1) today 1

-- The database with one solved attempt.
abbrev after : Db
after = record db {
  problems =
      record (problem two_sum) { solved = true; times_attempted = 1; last_attempted = some today }
      ∷ [];
  attempts = record { rows = attempt ∷ []; next_id = 2 };
}

after-CountsAgree : CountsAgree after
unfolding active latest text_beq outcome_text
after-CountsAgree = (record { times = refl; last = refl; flag = refl }, tt)

after-Unique : Unique (λ (a : Attempt). a.id) after.attempts.rows
after-Unique = (refl, tt)

abbrev correction : Correction
correction = record {
  outcome = some (codes "reviewed");
  attempted_on = none;
  feedback = none;
  language = none;
  clear_language = false;
  solution_summary = none;
  time_spent_min = none;
  clear_time_spent = true;
  reason = codes "typo";
}

abbrev fixed : Db
fixed = (correct_attempt later_clock chat 1 correction key after).1

ran_correction :
    correct_attempt later_clock chat 1 correction key after
    ≡ (ok (some (corrected later_clock.now correction attempt)), fixed)
unfolding correct_attempt check_correction validate_outcome parse_outcome text_beq outcome_text
    correct_checked show_int int_beq review_status active latest recompute_problem recomputed
    outcome_credit add_revision attempt_snapshot book_correction corrected restate_review
    write_attempt set_review_status ◌+ℤ◌ ◌-ℤ◌ correction_remove_key correction_replace_key
    revision_key add_credit show_from show_nat
ran_correction = refl

abbrev undone : Db
undone = (reverse_attempt later_clock chat 1 (codes "oops") key after).1

ran_reversal :
    reverse_attempt later_clock chat 1 (codes "oops") key after
    ≡ (ok (some (reversed later_clock.now attempt)), undone)
unfolding reverse_attempt validate_outcome parse_outcome text_beq outcome_text show_int int_beq
    review_status active latest recompute_problem recomputed outcome_credit add_revision
    attempt_snapshot book_reversal reversed write_attempt write_review set_review_status ◌+ℤ◌ ◌-ℤ◌
    reversal_key revision_key add_credit show_from show_nat
ran_reversal = refl

correct_attempt_credit_example : credit_balance chat fixed ≡ negsuc 49
unfolding parse_outcome outcome_text text_beq outcome_credit credit_balance balance_of sum_amounts
    ◌+ℤ◌ ◌-ℤ◌ int_beq corrected
correct_attempt_credit_example =
    correct_attempt_credit later_clock chat 1 correction key attempt
      (corrected later_clock.now correction attempt) after fixed ran_correction refl refl refl chat

correct_attempt-CountsAgree_example : CountsAgree fixed
correct_attempt-CountsAgree_example =
    correct_attempt-CountsAgree later_clock chat 1 correction key
      (corrected later_clock.now correction attempt) after fixed ran_correction after-Unique
      after-CountsAgree

reverse_attempt_credit_example : credit_balance chat undone ≡ negsuc 99
unfolding parse_outcome outcome_text text_beq outcome_credit credit_balance balance_of sum_amounts
    ◌+ℤ◌ ◌-ℤ◌ int_beq
reverse_attempt_credit_example =
    reverse_attempt_credit later_clock chat 1 (codes "oops") key attempt
      (reversed later_clock.now attempt) after undone ran_reversal refl refl chat

reverse_attempt-CountsAgree_example : CountsAgree undone
reverse_attempt-CountsAgree_example =
    reverse_attempt-CountsAgree later_clock chat 1 (codes "oops") key
      (reversed later_clock.now attempt) after undone ran_reversal after-Unique after-CountsAgree

reverse_attempt_once_example :
    (reverse_attempt clock chat 1 [] (codes "k2") undone ≡ (ok none, undone))
    ⊎ (reverse_attempt clock chat 1 [] (codes "k2") undone ≡ (err already_reversed, undone))
reverse_attempt_once_example =
    reverse_attempt_once later_clock clock chat 1 (codes "oops") [] key (codes "k2")
      (reversed later_clock.now attempt) after undone ran_reversal
