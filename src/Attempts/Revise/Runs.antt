-- ===== src/Attempts/Revise/Runs.antt =====
-- The stages of a correction and of a reversal that go through.
use leetcode_coach_service.Base.{
  ℕ, true, some, ◌≡◌, ap, sym, ◌∙◌, ◌==◌, nat_eq, first, update, arith, inl, inr, ⊤, nat_beq_iff,
  Option-cases, ℤ, int_eq, subst,
}
use leetcode_coach_service.Text.{Text, text_eq}
use leetcode_coach_service.Model.{Attempt, Problem}
use leetcode_coach_service.Store.{Db, ok, Result}
use leetcode_coach_service.Store.Rows.{first-some}
use leetcode_coach_service.Attempts.Counting.{active, recomputed, recompute_problem}
use leetcode_coach_service.Attempts.Revise.{
  write_attempt, find_attempt, reversed, corrected, write_review, add_revision, book_reversal,
  book_correction, restate_review, reverse_attempt, correct_attempt, Correction,
}
use leetcode_coach_service.Attempts.Outcomes.{validate_outcome}
use leetcode_coach_service.Attempts.Revise.{check_correction, correct_checked}
use leetcode_coach_service.Store.Bind.{bind_returned}
use leetcode_coach_service.Attempts.{set_review_status}
use leetcode_coach_service.Credit.{add_credit}
use leetcode_coach_service.Calendar.{Clock}

-- What a reversal writes before the recomputation.
pub book_reversal_frame :
    (clock : Clock) (chat_id : ℤ) (attempt : Attempt) (reason operation_key : Text) (db : Db)
    → let db' = (book_reversal clock chat_id attempt reason operation_key db).1 in
      (db'.problems ≡ db.problems)
      × (db'.attempts ≡ (write_attempt attempt.id (reversed clock.now) db).attempts)
unfolding book_reversal write_review add_revision add_credit write_attempt
book_reversal_frame clock chat_id attempt reason operation_key db = ground arith

pub book_correction_frame :
    (clock : Clock) (chat_id : ℤ) (attempt : Attempt) (c : Correction) (operation_key : Text)
    (db db' : Db)
    → book_correction clock chat_id attempt c operation_key db ≡ (ok tt, db')
    → (db'.problems ≡ db.problems)
      × (db'.attempts ≡ (write_attempt attempt.id (corrected clock.now c) db).attempts)
unfolding book_correction restate_review set_review_status add_revision add_credit write_attempt
book_correction_frame clock chat_id attempt c operation_key db db' run = ground arith

pub reverse_attempt_inv :
    (clock : Clock) (chat_id : ℤ) (attempt_id : ℕ) (reason operation_key : Text) (after : Attempt)
    (db db' : Db)
    → reverse_attempt clock chat_id attempt_id reason operation_key db ≡ (ok (some after), db')
    → (attempt : Attempt) × (mid : Db) × (find_attempt attempt_id db ≡ some attempt)
      × (book_reversal clock chat_id attempt reason operation_key db ≡ (ok tt, mid))
      × (recompute_problem clock.now attempt.problem_slug mid ≡ (ok tt, db'))
      × ((attempt.chat_id == chat_id) ≡ true)
unfolding reverse_attempt
reverse_attempt_inv clock chat_id attempt_id reason operation_key after db db' run =
    elim (Option-cases (find_attempt attempt_id db)) [
      | inl missing ↦ absurd (ground (arith, missing))
      | inr (attempt, found) ↦ (
        attempt,
        (book_reversal clock chat_id attempt reason operation_key db).1,
        found,
        ground arith,
        ground arith,
        ground arith,
      )
    ]

-- The attempt that a query by id finds has that id.
pub found_by_own_id :
    (id : ℕ) (a : Attempt) (db : Db) → find_attempt id db ≡ some a → find_attempt a.id db ≡ some a
found_by_own_id id a db found =
    subst (λ (k : ℕ). find_attempt k db ≡ some a)
      (sym (
        (nat_beq_iff a.id id).0
          (first-some (λ (b : Attempt). b.id == id) db.attempts.rows a found)))
      found

pub recompute_problem_inv :
    (now : ℕ) (slug : Text) (mid db' : Db)
    → recompute_problem now slug mid ≡ (ok tt, db')
    → (db'.problems
        ≡ update
            (λ (p : Problem). p.slug == slug)
            (recomputed now (active slug mid.attempts.rows))
            mid.problems)
      × (db'.attempts ≡ mid.attempts)
unfolding recompute_problem
recompute_problem_inv now slug mid db' run =
    elim (Option-cases (first (λ (p : Problem). p.slug == slug) mid.problems)) [
      | inl missing ↦ absurd (ground (arith, missing))
      | inr (p, found) ↦ (ground (arith, found), ground (arith, found))
    ]

correct_checked_inv :
    (clock : Clock) (chat_id : ℤ) (attempt_id : ℕ) (c : Correction) (operation_key : Text)
    (after : Attempt) (db db' : Db)
    → correct_checked clock chat_id attempt_id c operation_key db ≡ (ok (some after), db')
    → (attempt : Attempt) × (mid : Db) × (find_attempt attempt_id db ≡ some attempt)
      × (book_correction clock chat_id attempt c operation_key db ≡ (ok tt, mid))
      × (recompute_problem clock.now attempt.problem_slug mid ≡ (ok tt, db'))
      × (after ≡ corrected clock.now c attempt)
unfolding correct_checked
correct_checked_inv clock chat_id attempt_id c operation_key after db db' run =
    elim (Option-cases (find_attempt attempt_id db)) [
      | inl missing ↦ absurd (ground (arith, missing))
      | inr (attempt, found) ↦ (
        attempt,
        (book_correction clock chat_id attempt c operation_key db).1,
        found,
        ground arith,
        ground arith,
        ground arith,
      )
    ]

-- The checks write nothing.
check_correction_same :
    (clock : Clock) (c : Correction) (db : Db) → (check_correction clock c db).1 ≡ db
unfolding check_correction validate_outcome
check_correction_same clock c db = ground arith

correct_attempt-checked :
    (clock : Clock) (chat_id : ℤ) (attempt_id : ℕ) (c : Correction) (operation_key : Text)
    (after : Attempt) (db db' : Db)
    → correct_attempt clock chat_id attempt_id c operation_key db ≡ (ok (some after), db')
    → correct_checked clock chat_id attempt_id c operation_key db ≡ (ok (some after), db')
unfolding correct_attempt
correct_attempt-checked clock chat_id attempt_id c operation_key after db db' run =
    let (_, mid, checked, rest) =
      bind_returned (check_correction clock c)
        (λ _. correct_checked clock chat_id attempt_id c operation_key) run in
    let same = ap (λ (r : Result ⊤ × Db). r.1) (sym checked) ∙ check_correction_same clock c db in
    subst
      (λ (d : Db).
        correct_checked clock chat_id attempt_id c operation_key d ≡ (ok (some after), db'))
      same rest

pub correct_attempt_inv :
    (clock : Clock) (chat_id : ℤ) (attempt_id : ℕ) (c : Correction) (operation_key : Text)
    (after : Attempt) (db db' : Db)
    → correct_attempt clock chat_id attempt_id c operation_key db ≡ (ok (some after), db')
    → (attempt : Attempt) × (mid : Db) × (find_attempt attempt_id db ≡ some attempt)
      × (book_correction clock chat_id attempt c operation_key db ≡ (ok tt, mid))
      × (recompute_problem clock.now attempt.problem_slug mid ≡ (ok tt, db'))
      × (after ≡ corrected clock.now c attempt)
correct_attempt_inv clock chat_id attempt_id c operation_key after db db' run =
    correct_checked_inv clock chat_id attempt_id c operation_key after db db'
      (correct_attempt-checked clock chat_id attempt_id c operation_key after db db' run)
