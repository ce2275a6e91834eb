-- ===== src/Attempts/Revise/Counts.antt =====
-- A correction and a reversal leave every problem's counters as a recomputation gives them.
use leetcode_coach_service.Base.{ℕ, some, ◌≡◌, refl, ap, sym, ◌∙◌, nat_eq, ⊤, ℤ, int_eq}
use leetcode_coach_service.Text.{Text, text_eq}
use leetcode_coach_service.Model.{Attempt}
use leetcode_coach_service.Store.{Db, ok, Result}
use leetcode_coach_service.Store.Rows.{Unique}
use leetcode_coach_service.Attempts.Counting.{recompute_problem}
use leetcode_coach_service.Attempts.Invariant.{CountsAgree}
use leetcode_coach_service.Attempts.Revise.{
  write_attempt, find_attempt, reversed, corrected, reverse_attempt, correct_attempt, Correction,
}
use leetcode_coach_service.Calendar.{Clock}
use leetcode_coach_service.Attempts.Revise.Recount.{recount, found_IdIsFor}
use leetcode_coach_service.Attempts.Revise.Runs.{
  book_reversal_frame, book_correction_frame, reverse_attempt_inv, found_by_own_id,
  recompute_problem_inv, correct_attempt_inv,
}

-- A method that rewrites one attempt, recomputes its problem and touches no other counter.
revised_CountsAgree :
    (now : ℕ) (attempt : Attempt) (f : Attempt → Attempt) (db mid db' : Db)
    → ((a : Attempt) → (f a).problem_slug ≡ a.problem_slug)
    → Unique (λ (a : Attempt). a.id) db.attempts.rows
    → find_attempt attempt.id db ≡ some attempt
    → (mid.problems ≡ db.problems) × (mid.attempts ≡ (write_attempt attempt.id f db).attempts)
    → recompute_problem now attempt.problem_slug mid ≡ (ok tt, db')
    → CountsAgree db
    → CountsAgree db'
unfolding write_attempt
revised_CountsAgree now attempt f db mid db' keep unique found (problems, attempts) run h =
    let (problems', attempts') = recompute_problem_inv now attempt.problem_slug mid db' run in
    rw (problems', attempts', attempts, problems)
      (recount now attempt.id attempt.problem_slug f db.attempts.rows keep
        (found_IdIsFor attempt.id attempt db.attempts.rows unique found) db.problems h)

-- A reversal that goes through leaves the counters of every problem as its active attempts give
-- them, if attempt ids are unique and the counters were right before.
pub reverse_attempt-CountsAgree :
    (clock : Clock) (chat_id : ℤ) (attempt_id : ℕ) (reason operation_key : Text) (after : Attempt)
    (db db' : Db)
    → reverse_attempt clock chat_id attempt_id reason operation_key db ≡ (ok (some after), db')
    → Unique (λ (a : Attempt). a.id) db.attempts.rows
    → CountsAgree db
    → CountsAgree db'
unfolding reversed
reverse_attempt-CountsAgree clock chat_id attempt_id reason operation_key after db db' run unique
      h =
    let (attempt, mid, found, booked, recounted, _) =
      reverse_attempt_inv clock chat_id attempt_id reason operation_key after db db' run in
    let frame = book_reversal_frame clock chat_id attempt reason operation_key db in
    revised_CountsAgree clock.now attempt (reversed clock.now) db mid db' (λ a. refl) unique
      (found_by_own_id attempt_id attempt db found)
      (
        ap (λ (r : Result ⊤ × Db). r.1.problems) (sym booked) ∙ frame.0,
        ap (λ (r : Result ⊤ × Db). r.1.attempts) (sym booked) ∙ frame.1,
      )
      recounted h

-- A correction that goes through leaves the counters of every problem as its active attempts give
-- them, if attempt ids are unique and the counters were right before.
pub correct_attempt-CountsAgree :
    (clock : Clock) (chat_id : ℤ) (attempt_id : ℕ) (c : Correction) (operation_key : Text)
    (after : Attempt) (db db' : Db)
    → correct_attempt clock chat_id attempt_id c operation_key db ≡ (ok (some after), db')
    → Unique (λ (a : Attempt). a.id) db.attempts.rows
    → CountsAgree db
    → CountsAgree db'
unfolding corrected
correct_attempt-CountsAgree clock chat_id attempt_id c operation_key after db db' run unique h =
    let (attempt, mid, found, booked, recounted, _) =
      correct_attempt_inv clock chat_id attempt_id c operation_key after db db' run in
    revised_CountsAgree clock.now attempt (corrected clock.now c) db mid db' (λ a. refl) unique
      (found_by_own_id attempt_id attempt db found)
      (book_correction_frame clock chat_id attempt c operation_key db mid booked) recounted h
