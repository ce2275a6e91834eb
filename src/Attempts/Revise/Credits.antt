-- ===== src/Attempts/Revise/Credits.antt =====
-- What a correction and a reversal do to the balances, and that neither happens twice.
use mathlib.Core.Path.{subst}
use leetcode_coach_service.Base.{
  ℕ, suc, false, Option, none, some, [], ◌∷◌, ◌++◌, ◌≡◌, refl, ap, sym, ◌∙◌, if◌then◌else◌, ◌==◌,
  nat_eq, int_eq, ℤ, pos, ◌+ℤ◌, ◌-ℤ◌, int_laws, arith, Option-cases, ◌⊎◌, inl, inr, ⊤,
}
use leetcode_coach_service.Text.{Text, codes, text_eq, text_beq}
use leetcode_coach_service.Calendar.{Clock}
use leetcode_coach_service.Model.{Attempt, CreditEntry}
use leetcode_coach_service.Store.{already_reversed, Db, ok, err, Result}
use leetcode_coach_service.Store.Rows.{first-append, first-update}
use leetcode_coach_service.Credit.{new_credit, add_credit, find_credit, credit_balance}
use leetcode_coach_service.Credit.Keys.{
  correction_remove_key, correction_replace_key, reversal_key, revision_key,
}
use leetcode_coach_service.Credit.Laws.{balance_of-snoc}
use leetcode_coach_service.Attempts.{set_review_status}
use leetcode_coach_service.Attempts.Counting.{recompute_problem}
use leetcode_coach_service.Attempts.Retry.{worth}
use leetcode_coach_service.Attempts.Booking.{same_balance}
use leetcode_coach_service.Attempts.Revise.{
  find_revision, write_attempt, find_attempt, reversed, corrected, write_review, add_revision,
  book_reversal, book_correction, restate_review, reverse_attempt, correct_attempt, Correction,
  negated,
}
use leetcode_coach_service.Attempts.Revise.Runs.{
  recompute_problem_inv, book_reversal_frame, reverse_attempt_inv, correct_attempt_inv,
}

module _ (clock : Clock) (chat_id : ℤ) (attempt : Attempt) (reason operation_key : Text)
    (db mid : Db)
    (booked : book_reversal clock chat_id attempt reason operation_key db ≡ (ok tt, mid))
    (fresh : find_credit (reversal_key chat_id attempt.id operation_key) db.ledger.rows
      ≡ none) where
  book_reversal_balance :
      (c : ℤ)
      → credit_balance c mid
        ≡ credit_balance c db +ℤ (if chat_id == c then negated (worth attempt.outcome) else pos 0)
  unfolding book_reversal write_review add_revision add_credit write_attempt credit_balance
  book_reversal_balance c = ground (
    arith,
    balance_of-snoc c db.ledger.rows (
        new_credit clock chat_id (negated (worth attempt.outcome)) (codes "attempt_reversal")
          (reversal_key chat_id attempt.id operation_key) attempt.review_id
          (some attempt.attempted_on) (some attempt.id) db.ledger.next_id),
  )

-- Recomputing a problem moves no money.
recompute_problem_ledger :
    (now : ℕ) (slug : Text) (db : Db) → (recompute_problem now slug db).1.ledger ≡ db.ledger
unfolding recompute_problem
recompute_problem_ledger now slug db = ground arith

-- The two keys of one correction differ.
remove_key-ne-replace_key :
    (chat_id : ℤ) (id : ℕ) (operation_key : Text)
    → (correction_remove_key chat_id id operation_key
        == correction_replace_key chat_id id operation_key)
      ≡ false
unfolding correction_remove_key correction_replace_key text_beq
remove_key-ne-replace_key chat_id id operation_key = refl

module _ (clock : Clock) (chat_id : ℤ) (attempt : Attempt) (c : Correction) (operation_key : Text)
    (db mid : Db) (booked : book_correction clock chat_id attempt c operation_key db ≡ (ok tt, mid))
    (fresh_remove : find_credit
        (correction_remove_key chat_id attempt.id operation_key)
        db.ledger.rows
      ≡ none)
    (fresh_replace : find_credit
        (correction_replace_key chat_id attempt.id operation_key)
        db.ledger.rows
      ≡ none) where
  abbrev removed_row : CreditEntry
  removed_row =
      new_credit clock chat_id (negated (worth attempt.outcome)) (codes "attempt_correction_remove")
        (correction_remove_key chat_id attempt.id operation_key) attempt.review_id
        (some attempt.attempted_on) (some attempt.id) db.ledger.next_id

  abbrev replaced_row : CreditEntry
  replaced_row =
      new_credit clock chat_id (worth (corrected clock.now c attempt).outcome)
        (codes "attempt_correction_replace")
        (correction_replace_key chat_id attempt.id operation_key) attempt.review_id
        (some (corrected clock.now c attempt).attempted_on) (some attempt.id)
        (suc db.ledger.next_id)

  book_correction_ledger :
      mid.ledger.rows ≡ (db.ledger.rows ++ removed_row ∷ []) ++ replaced_row ∷ []
  unfolding book_correction restate_review set_review_status add_revision add_credit write_attempt
  book_correction_ledger = ground (
    arith,
    first-append
        (λ (e : CreditEntry).
          e.idempotency_key == correction_replace_key chat_id attempt.id operation_key)
        db.ledger.rows removed_row,
    remove_key-ne-replace_key chat_id attempt.id operation_key,
  )

  book_correction_balance :
      (who : ℤ)
      → credit_balance who mid
        ≡ credit_balance who db
          +ℤ (if chat_id == who
              then worth (corrected clock.now c attempt).outcome -ℤ worth attempt.outcome
              else pos 0)
  unfolding credit_balance
  book_correction_balance who = rw book_correction_ledger (
      grind (
        int_laws,
        balance_of-snoc who db.ledger.rows removed_row,
        balance_of-snoc who (db.ledger.rows ++ removed_row ∷ []) replaced_row,
      ))

recounted_balance :
    (now : ℕ) (slug : Text) (c : ℤ) (mid db' : Db)
    → recompute_problem now slug mid ≡ (ok tt, db')
    → credit_balance c db' ≡ credit_balance c mid
recounted_balance now slug c mid db' run =
    same_balance c mid db'
      (ap (λ (r : Result ⊤ × Db). r.1.ledger) (sym run) ∙ recompute_problem_ledger now slug mid)

-- A query has one answer.
one_answer : {o : Option Attempt} (a b : Attempt) → o ≡ some a → o ≡ some b → a ≡ b
one_answer a b p q = cc

-- A reversal that goes through takes back what the attempt's outcome was worth, and leaves every
-- other chat's balance alone, if no earlier entry stands under the reversal's key.
pub reverse_attempt_credit :
    (clock : Clock) (chat_id : ℤ) (attempt_id : ℕ) (reason operation_key : Text)
    (attempt after : Attempt) (db db' : Db)
    → reverse_attempt clock chat_id attempt_id reason operation_key db ≡ (ok (some after), db')
    → find_attempt attempt_id db ≡ some attempt
    → find_credit (reversal_key chat_id attempt.id operation_key) db.ledger.rows ≡ none
    → (c : ℤ)
    → credit_balance c db'
      ≡ credit_balance c db +ℤ (if chat_id == c then negated (worth attempt.outcome) else pos 0)
reverse_attempt_credit clock chat_id attempt_id reason operation_key attempt after db db' run here
      fresh c =
    let (found_attempt, mid, found, booked, recounted, _) =
      reverse_attempt_inv clock chat_id attempt_id reason operation_key after db db' run in
    subst
      (λ (a : Attempt).
        find_credit (reversal_key chat_id a.id operation_key) db.ledger.rows ≡ none
        → credit_balance c db'
          ≡ credit_balance c db +ℤ (if chat_id == c then negated (worth a.outcome) else pos 0))
      (one_answer found_attempt attempt found here)
      (λ f.
        recounted_balance clock.now found_attempt.problem_slug c mid db' recounted
        ∙ book_reversal_balance clock chat_id found_attempt reason operation_key db mid booked f c)
      fresh

-- A correction that goes through moves the balance of the chat by the difference between what the
-- new and the old outcome are worth, and no other balance, if no earlier entry stands under the two
-- keys of the correction.
pub correct_attempt_credit :
    (clock : Clock) (chat_id : ℤ) (attempt_id : ℕ) (c : Correction) (operation_key : Text)
    (attempt after : Attempt) (db db' : Db)
    → correct_attempt clock chat_id attempt_id c operation_key db ≡ (ok (some after), db')
    → find_attempt attempt_id db ≡ some attempt
    → find_credit (correction_remove_key chat_id attempt.id operation_key) db.ledger.rows ≡ none
    → find_credit (correction_replace_key chat_id attempt.id operation_key) db.ledger.rows ≡ none
    → (who : ℤ)
    → credit_balance who db'
      ≡ credit_balance who db
        +ℤ (if chat_id == who then worth after.outcome -ℤ worth attempt.outcome else pos 0)
correct_attempt_credit clock chat_id attempt_id c operation_key attempt after db db' run here fresh
      fresh' who =
    let (found_attempt, mid, found, booked, recounted, same) =
      correct_attempt_inv clock chat_id attempt_id c operation_key after db db' run in
    rw same (
      subst
        (λ (a : Attempt).
          find_credit (correction_remove_key chat_id a.id operation_key) db.ledger.rows ≡ none
          → find_credit (correction_replace_key chat_id a.id operation_key) db.ledger.rows ≡ none
          → credit_balance who db'
            ≡ credit_balance who db
              +ℤ (if chat_id == who
                  then worth (corrected clock.now c found_attempt).outcome -ℤ worth a.outcome
                  else pos 0))
        (one_answer found_attempt attempt found here)
        (λ f g.
          recounted_balance clock.now found_attempt.problem_slug who mid db' recounted
          ∙ book_correction_balance clock chat_id found_attempt c operation_key db mid booked f g
              who)
        fresh fresh')

-- What an attempt was rewritten to is what a query by its id finds.
rewritten_found :
    (now : ℕ) (attempt_id : ℕ) (attempt : Attempt) (slug : Text) (db mid db' : Db)
    → find_attempt attempt_id db ≡ some attempt
    → mid.attempts ≡ (write_attempt attempt.id (reversed now) db).attempts
    → recompute_problem now slug mid ≡ (ok tt, db')
    → find_attempt attempt_id db' ≡ some (reversed now attempt)
unfolding write_attempt reversed
rewritten_found now attempt_id attempt slug db mid db' found written run =
    let (_, attempts') = recompute_problem_inv now slug mid db' run in
    rw (attempts', written)
      (ground (
        arith,
        first-update (λ (a : Attempt). a.id == attempt_id) (λ (a : Attempt). a.id == attempt.id)
            (reversed now) db.attempts.rows (λ a. refl),
      ))

-- An attempt is reversed once: after a reversal that went through, any further one, by whatever
-- key and for whatever reason, is a replay or raises the conflict, and changes nothing.
pub reverse_attempt_once :
    (clock clock' : Clock) (chat_id : ℤ) (attempt_id : ℕ) (reason reason' key key' : Text)
    (after : Attempt) (db db' : Db)
    → reverse_attempt clock chat_id attempt_id reason key db ≡ (ok (some after), db')
    → (reverse_attempt clock' chat_id attempt_id reason' key' db' ≡ (ok none, db'))
      ⊎ (reverse_attempt clock' chat_id attempt_id reason' key' db' ≡ (err already_reversed, db'))
unfolding reverse_attempt reversed
reverse_attempt_once clock clock' chat_id attempt_id reason reason' key key' after db db' run =
    let (attempt, mid, found, booked, recounted, chat) =
      reverse_attempt_inv clock chat_id attempt_id reason key after db db' run in
    let written =
      ap (λ (r : Result ⊤ × Db). r.1.attempts) (sym booked)
      ∙ (book_reversal_frame clock chat_id attempt reason key db).1 in
    let now_found =
      rewritten_found clock.now attempt_id attempt attempt.problem_slug db mid db' found written
        recounted in
    elim (Option-cases (find_revision (revision_key chat_id attempt_id key') db')) [
      | inl new ↦ inr (rw (new, now_found, chat))
      | inr (_, old) ↦ inl (rw old)
    ]
