-- ===== src/Attempts/Booking.antt =====
-- What recording an attempt does to the balances, and that a retry is recorded once.
use leetcode_coach_service.Base.{
  ℕ, true, Option, none, some, ◌≡◌, refl, ap, sym, ◌∙◌, if◌then◌else◌, ◌==◌, ℤ, pos, nat_eq, int_eq,
  ◌+ℤ◌, arith, Option-cases, ⊤, or_else, inl, inr, is_some,
}
use mathlib.Core.Path.{subst, subst₂}
use leetcode_coach_service.Text.{Text, text_eq}
use leetcode_coach_service.Calendar.{Date, Clock}
use leetcode_coach_service.Model.{Attempt, PendingReview, CreditEntry}
use leetcode_coach_service.Store.{pure, Db, Table, Result, ok, ◌>>◌}
use leetcode_coach_service.Store.Bind.{bind_returned, returned_eq}
use leetcode_coach_service.Store.Rows.{first-update}
use leetcode_coach_service.Credit.{new_credit, add_credit, credit_balance, balance_of, find_credit}
use leetcode_coach_service.Credit.Keys.{attempt_key}
use leetcode_coach_service.Credit.Laws.{add_credit_fresh, add_credit_booked, balance_of-update}
use leetcode_coach_service.Lesson.{apply_lesson_delta}
use leetcode_coach_service.Lesson.Laws.{apply_lesson_delta-OnlyLessons}
use leetcode_coach_service.Attempts.{
  Report, settle_review, add_attempt, book_attempt, log_attempt, set_review_status, link_credit,
}
use leetcode_coach_service.Attempts.Outcomes.{outcome_credit}

-- A balance is read off the ledger.
pub same_balance :
    (c : ℤ) (db db' : Db) → db'.ledger ≡ db.ledger → credit_balance c db' ≡ credit_balance c db
unfolding credit_balance
same_balance c db db' e = ap (λ (t : Table CreditEntry). balance_of c t.rows) e

-- Linking an entry to its attempt moves no money.
pub link_credit_balance :
    (credit_id attempt_id : ℕ) (c : ℤ) (db : Db)
    → credit_balance c (link_credit credit_id attempt_id db) ≡ credit_balance c db
unfolding link_credit credit_balance
link_credit_balance credit_id attempt_id c db =
    balance_of-update c (λ e. e.id == credit_id) (λ e. record e { attempt_id = some attempt_id })
      db.ledger.rows (λ e. refl) (λ e. refl)

-- Booking always returns an entry.
add_credit_ok :
    (clock : Clock) (chat_id amount : ℤ) (reason key : Text) (review_id : Option ℕ)
    (effective_on : Option Date) (attempt_id : Option ℕ) (db : Db)
    → (e : CreditEntry) × (add_credit clock chat_id amount reason key review_id effective_on
          attempt_id db
        ≡ (
          ok e,
          (add_credit clock chat_id amount reason key review_id effective_on attempt_id db).1,
        ))
unfolding add_credit
add_credit_ok clock chat_id amount reason key review_id effective_on attempt_id db =
    elim (Option-cases (find_credit key db.ledger.rows)) [
      | inl fresh ↦ (
        new_credit clock chat_id amount reason key review_id effective_on attempt_id
            db.ledger.next_id,
        rw (fresh, add_credit),
      )
      | inr (entry, booked) ↦ (entry, rw (booked, add_credit))
    ]

link_booked :
    (key : Text) (credit_id attempt_id : ℕ) (db : Db)
    → is_some (find_credit key db.ledger.rows) ≡ true
    → is_some (find_credit key (link_credit credit_id attempt_id db).ledger.rows) ≡ true
unfolding link_credit
link_booked key credit_id attempt_id db h = ground (
  arith,
  first-update (λ (e : CreditEntry). e.idempotency_key == key) (λ e. e.id == credit_id)
      (λ e. record e { attempt_id = some attempt_id }) db.ledger.rows (λ e. refl),
)

module _ (clock : Clock) (chat_id : ℤ) (outcome : Text) (review_id : Option ℕ) (key : Option Text)
    (attempt : Attempt) (amount : ℤ) (db : Db) (priced : outcome_credit outcome ≡ some amount) where
  abbrev credit_run : Result CreditEntry × Db
  credit_run =
      add_credit clock chat_id amount outcome (or_else key (attempt_key attempt.id)) review_id
        (some attempt.attempted_on) none db

  pub book_attempt_lem :
      (e : CreditEntry) × (credit_run.0 ≡ ok e)
      × (book_attempt clock chat_id outcome review_id key attempt db
          ≡ (ok tt, link_credit e.id attempt.id credit_run.1))
  unfolding book_attempt
  book_attempt_lem =
      let (entry, booked) =
        add_credit_ok clock chat_id amount outcome (or_else key (attempt_key attempt.id)) review_id
          (some attempt.attempted_on) none db in
      (entry, ap (λ r. r.0) booked, rw (priced, booked))

  -- The key that an attempt books under is on the ledger from then on.
  book_attempt_booked :
      is_some (
        find_credit
          (or_else key (attempt_key attempt.id))
          (book_attempt clock chat_id outcome review_id key attempt db).1.ledger.rows)
      ≡ true
  unfolding link_credit
  book_attempt_booked =
      let (entry, _, run) = book_attempt_lem in
      rw run (
        link_booked (or_else key (attempt_key attempt.id)) entry.id attempt.id credit_run.1 (
          add_credit_booked clock chat_id amount outcome (or_else key (attempt_key attempt.id))
            review_id (some attempt.attempted_on) none db))

  book_attempt_balance :
      find_credit (or_else key (attempt_key attempt.id)) db.ledger.rows ≡ none
      → (c : ℤ)
      → credit_balance c (book_attempt clock chat_id outcome review_id key attempt db).1
        ≡ credit_balance c db +ℤ (if chat_id == c then amount else pos 0)
  book_attempt_balance fresh c =
      let (entry, _, run) = book_attempt_lem in
      rw run (
        link_credit_balance entry.id attempt.id c credit_run.1
        ∙ add_credit_fresh clock chat_id amount outcome (or_else key (attempt_key attempt.id))
            review_id (some attempt.attempted_on) none db fresh c)

-- Settling a review leaves the ledger and the attempts alone.
pub settle_review_frame :
    (clock : Clock) (review : Option PendingReview) (outcome : Text) (db : Db)
    → ((settle_review clock review outcome db).1.ledger ≡ db.ledger)
      × ((settle_review clock review outcome db).1.attempts ≡ db.attempts)
unfolding settle_review set_review_status
settle_review_frame clock review outcome db = ground arith

-- What a logged attempt has run through: a state with the old ledger, and the booking from there.
module _ (clock : Clock) (chat_id : ℤ) (slug : Text) (report : Report) (review_id : Option ℕ)
    (key : Option Text) (on : Date) (attempt : Attempt) (db db' : Db)
    (run : log_attempt clock chat_id slug report review_id key on db ≡ (ok attempt, db')) where
  pub log_attempt_stages :
      (mid : Db) × (mid.ledger ≡ db.ledger)
      × (attempt.id ≡ db.attempts.next_id)
      × (book_attempt clock chat_id report.outcome review_id key attempt mid ≡ (ok tt, db'))
  unfolding log_attempt add_attempt
  log_attempt_stages =
      let (counted, db₁) = add_attempt clock chat_id slug report review_id on db in
      let (_, mid, learned, rest) =
        bind_returned (apply_lesson_delta clock chat_id report.lesson_delta)
          (λ _. book_attempt clock chat_id report.outcome review_id key counted >> pure counted)
          run in
      let (_, db₃, booked, done) =
        bind_returned (book_attempt clock chat_id report.outcome review_id key counted)
          (λ _. pure counted) rest in
      let frame = apply_lesson_delta-OnlyLessons clock chat_id report.lesson_delta db₁ in
      let same = returned_eq done in
      (
        mid,
        ap (λ r. r.1.ledger) (sym learned) ∙ frame.ledger,
        sym (ap (λ (a : Attempt). a.id) same.0),
        subst₂
            (λ (a : Attempt) (d : Db).
              book_attempt clock chat_id report.outcome review_id key a mid ≡ (ok tt, d))
            same.0 same.1 booked,
      )

  pub log_attempt_balance :
      {amount : ℤ}
      → outcome_credit report.outcome ≡ some amount
      → find_credit (or_else key (attempt_key db.attempts.next_id)) db.ledger.rows ≡ none
      → (c : ℤ)
      → credit_balance c db' ≡ credit_balance c db +ℤ (if chat_id == c then amount else pos 0)
  log_attempt_balance {amount} priced fresh c =
      let (mid, same_ledger, same_id, booked) = log_attempt_stages in
      let fresh' : find_credit (or_else key (attempt_key attempt.id)) mid.ledger.rows ≡ none =
        rw (same_ledger, same_id) fresh in
      let moved =
        book_attempt_balance clock chat_id report.outcome review_id key attempt amount mid priced
          fresh' c in
      ap (λ (r : Result ⊤ × Db). credit_balance c r.1) (sym booked)
      ∙ moved
      ∙ ap (λ (b : ℤ). b +ℤ (if chat_id == c then amount else pos 0))
          (same_balance c db mid same_ledger)

  pub log_attempt_booked :
      {amount : ℤ}
      → outcome_credit report.outcome ≡ some amount
      → is_some (find_credit (or_else key (attempt_key attempt.id)) db'.ledger.rows) ≡ true
  log_attempt_booked {amount} priced =
      let (mid, _, _, booked) = log_attempt_stages in
      subst
        (λ (r : Result ⊤ × Db).
          is_some (find_credit (or_else key (attempt_key attempt.id)) r.1.ledger.rows) ≡ true)
        booked
        (book_attempt_booked clock chat_id report.outcome review_id key attempt amount mid priced)
