-- ===== src/Attempts/Rebooking.antt =====
-- An attempt under a key that is already booked is recorded, and earns nothing.
use leetcode_coach_service.Base.{ℕ, Option, none, some, ◌≡◌, ap, sym, ◌∙◌, ℤ, ⊤, or_else}
use leetcode_coach_service.Text.{Text}
use leetcode_coach_service.Calendar.{Date, Clock}
use leetcode_coach_service.Model.{Attempt, Problem, PendingReview, CreditEntry}
use leetcode_coach_service.Store.{Db, Result, ok}
use leetcode_coach_service.Store.Bind.{bind_returned}
use leetcode_coach_service.Credit.{add_credit, credit_balance, find_credit}
use leetcode_coach_service.Attempts.{
  Report, settle_review, log_attempt, persist_attempt, review_id_of,
}
use leetcode_coach_service.Attempts.Outcomes.{outcome_credit}
use leetcode_coach_service.Attempts.Booking.{
  same_balance, settle_review_frame, log_attempt_stages, book_attempt_lem, link_credit_balance,
}

add_credit_booked_same :
    (clock : Clock) (chat_id amount : ℤ) (reason key : Text) (review_id : Option ℕ)
    (effective_on : Option Date) (attempt_id : Option ℕ) (db : Db) (e : CreditEntry)
    → find_credit key db.ledger.rows ≡ some e
    → (add_credit clock chat_id amount reason key review_id effective_on attempt_id db).1 ≡ db
unfolding add_credit
add_credit_booked_same clock chat_id amount reason key review_id effective_on attempt_id db e h =
    rw (h, add_credit)

module _ (clock : Clock) (chat_id : ℤ) (problem : Problem) (report : Report)
    (review : Option PendingReview) (key : Text) (on : Option Date) (attempt : Attempt)
    (db db' : Db)
    (run : persist_attempt clock chat_id problem report review (some key) on db ≡ (ok attempt, db'))
    {amount : ℤ} (priced : outcome_credit report.outcome ≡ some amount) (entry : CreditEntry)
    (booked : find_credit key db.ledger.rows ≡ some entry) where
  pub persist_attempt_rebooked : (c : ℤ) → credit_balance c db' ≡ credit_balance c db
  unfolding persist_attempt
  persist_attempt_rebooked c =
      let (_, mid, settled, rest) =
        bind_returned (settle_review clock review report.outcome)
          (λ _.
            log_attempt clock chat_id problem.slug report (review_id_of review) (some key)
              (or_else on clock.today))
          run in
      let same : mid.ledger ≡ db.ledger =
        ap (λ (r : Result ⊤ × Db). r.1.ledger) (sym settled)
        ∙ (settle_review_frame clock review report.outcome db).0 in
      let (last, same', _, book_run) =
        log_attempt_stages clock chat_id problem.slug report (review_id_of review) (some key)
          (or_else on clock.today) attempt mid db' rest in
      let (e, _, run') =
        book_attempt_lem clock chat_id report.outcome (review_id_of review) (some key) attempt
          amount last priced in
      let idle =
        add_credit_booked_same clock chat_id amount report.outcome key (review_id_of review)
          (some attempt.attempted_on) none last entry (rw (same', same) booked) in
      ap (λ (r : Result ⊤ × Db). credit_balance c r.1) (sym book_run ∙ run')
      ∙ link_credit_balance e.id attempt.id c _
      ∙ ap (λ (d : Db). credit_balance c d) idle
      ∙ same_balance c mid last same'
      ∙ same_balance c db mid same
