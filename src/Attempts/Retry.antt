-- ===== src/Attempts/Retry.antt =====
-- `commit_attempt` and `record_problem_attempt` credit an attempt once, also when they are retried.
use mathlib.Core.Path.{subst}
use leetcode_coach_service.Base.{
  ℕ, true, false, Option, none, some, ◌≡◌, ap, sym, ◌∙◌, if◌then◌else◌, ◌==◌, ℤ, pos, nat_eq,
  int_eq, ◌+ℤ◌, arith, Option-cases, ⊤, or_else, inl, inr, is_some,
}
use leetcode_coach_service.Text.{Text, text_eq}
use leetcode_coach_service.Calendar.{Date, Clock}
use leetcode_coach_service.Model.{Attempt, Problem, PendingReview, parse_outcome}
use leetcode_coach_service.Store.{Db, Result, ok, pure}
use leetcode_coach_service.Store.Bind.{bind_returned, returned_eq}
use leetcode_coach_service.Credit.{credit_balance, find_credit}
use leetcode_coach_service.Credit.Keys.{review_attempt_key, canonical_attempt_key}
use leetcode_coach_service.Attempts.{
  is_bad_key, find_problem, open_review_for, require_open, require_problem, commit_open_review,
  commit_attempt, record_problem_attempt, Report, settle_review, log_attempt, persist_attempt,
  review_id_of,
}
use leetcode_coach_service.Attempts.Outcomes.{validate_outcome, outcome_credit}
use leetcode_coach_service.Attempts.Booking.{
  same_balance, settle_review_frame, log_attempt_booked, log_attempt_balance,
}

-- What an outcome is worth; nothing if the word names none.
abbrev pub worth : Text → ℤ
worth outcome = or_else (outcome_credit outcome) (pos 0)

module _ (clock : Clock) (chat_id : ℤ) (problem : Problem) (report : Report)
    (review : Option PendingReview) (key : Text) (on : Option Date) (attempt : Attempt)
    (db db' : Db)
    (run : persist_attempt clock chat_id problem report review (some key) on db ≡ (ok attempt, db'))
    {amount : ℤ} (priced : outcome_credit report.outcome ≡ some amount) where
  pub persist_attempt_balance :
      find_credit key db.ledger.rows ≡ none
      → (c : ℤ)
      → credit_balance c db' ≡ credit_balance c db +ℤ (if chat_id == c then amount else pos 0)
  unfolding persist_attempt
  persist_attempt_balance fresh c =
      let (_, mid, settled, rest) =
        bind_returned (settle_review clock review report.outcome)
          (λ _.
            log_attempt clock chat_id problem.slug report (review_id_of review) (some key)
              (or_else on clock.today))
          run in
      let same : mid.ledger ≡ db.ledger =
        ap (λ (r : Result ⊤ × Db). r.1.ledger) (sym settled)
        ∙ (settle_review_frame clock review report.outcome db).0 in
      log_attempt_balance clock chat_id problem.slug report (review_id_of review) (some key)
        (or_else on clock.today) attempt mid db' rest priced (rw same fresh) c
      ∙ ap (λ (b : ℤ). b +ℤ (if chat_id == c then amount else pos 0)) (same_balance c db mid same)

  persist_attempt_booked : is_some (find_credit key db'.ledger.rows) ≡ true
  unfolding persist_attempt
  persist_attempt_booked =
      let (_, mid, settled, rest) =
        bind_returned (settle_review clock review report.outcome)
          (λ _.
            log_attempt clock chat_id problem.slug report (review_id_of review) (some key)
              (or_else on clock.today))
          run in
      log_attempt_booked clock chat_id problem.slug report (review_id_of review) (some key)
        (or_else on clock.today) attempt mid db' rest priced

-- Reading the review and its problem changes nothing.
pub require_open_same : (chat_id : ℤ) (id : ℕ) (db : Db) → (require_open chat_id id db).1 ≡ db
unfolding require_open
require_open_same chat_id id db = ground arith

pub require_problem_same : (slug : Text) (db : Db) → (require_problem slug db).1 ≡ db
unfolding require_problem
require_problem_same slug db = ground arith

commit_open_review_inv :
    (clock : Clock) (chat_id : ℤ) (review_id : ℕ) (report : Report) (key : Option Text)
    (attempt : Option Attempt) (db db' : Db)
    → commit_open_review clock chat_id review_id report key db ≡ (ok attempt, db')
    → (review : PendingReview) × (problem : Problem) × (logged : Attempt) × (persist_attempt clock
          chat_id problem report
          (some review)
          key
          none
          db
        ≡ (ok logged, db'))
unfolding commit_open_review
commit_open_review_inv clock chat_id review_id report key attempt db db' run =
    let (review, db₁, found, rest) = bind_returned (require_open chat_id review_id) _ run in
    let (problem, db₂, found', rest') =
      bind_returned (require_problem review.problem_slug) _ rest in
    let (logged, db₃, done, last) =
      bind_returned (persist_attempt clock chat_id problem report (some review) key none)
        (λ a. pure (some a)) rest' in
    let same₁ : db₁ ≡ db =
      ap (λ (r : Result PendingReview × Db). r.1) (sym found)
      ∙ require_open_same chat_id review_id db in
    let same₂ : db₂ ≡ db =
      ap (λ (r : Result Problem × Db). r.1) (sym found')
      ∙ require_problem_same review.problem_slug db₁
      ∙ same₁ in
    (
      review,
      problem,
      logged,
      subst
          (λ (d : Db).
            persist_attempt clock chat_id problem report (some review) key none d
            ≡ (ok logged, db'))
          same₂ (done ∙ ap {B = Result Attempt × Db} (λ d. (ok logged, d)) (returned_eq last).1),
    )

-- A validated word has a price.
validated :
    (t : Text) (db : Db) → (validate_outcome t db).0 ≡ ok tt → outcome_credit t ≡ some (worth t)
unfolding validate_outcome outcome_credit
validated t db h = ground arith

commit_attempt_inv :
    (clock : Clock) (chat_id : ℤ) (review_id : ℕ) (report : Report) (operation_key : Text)
    (attempt : Attempt) (db db' : Db)
    → commit_attempt clock chat_id review_id report (some operation_key) db
      ≡ (ok (some attempt), db')
    → let key = review_attempt_key chat_id review_id operation_key in
      (outcome_credit report.outcome ≡ some (worth report.outcome))
      × (find_credit key db.ledger.rows ≡ none)
      × (is_bad_key operation_key key ≡ false)
      × (commit_open_review clock chat_id review_id report (some key) db ≡ (ok (some attempt), db'))
unfolding commit_attempt validate_outcome
commit_attempt_inv clock chat_id review_id report operation_key attempt db db' run =
    ground (arith, validated report.outcome db)

module _ (clock : Clock) (chat_id : ℤ) (review_id : ℕ) (report : Report) (operation_key : Text)
    (attempt : Attempt) (db db' : Db)
    (run : commit_attempt clock chat_id review_id report (some operation_key) db
      ≡ (ok (some attempt), db')) where
  -- An attempt that `commit_attempt` records under an operation key adds what its outcome is worth
  -- to the balance of the chat, and leaves every other balance alone.
  pub commit_attempt_credit :
      (c : ℤ)
      → credit_balance c db'
        ≡ credit_balance c db +ℤ (if chat_id == c then worth report.outcome else pos 0)
  commit_attempt_credit c =
      let key = review_attempt_key chat_id review_id operation_key in
      let (priced, fresh, _, committed) =
        commit_attempt_inv clock chat_id review_id report operation_key attempt db db' run in
      let (review, problem, logged, persisted) =
        commit_open_review_inv clock chat_id review_id report (some key) (some attempt) db db'
          committed in
      persist_attempt_balance clock chat_id problem report (some review) key none logged db db'
        persisted priced fresh c

  -- A retry with the same operation key and any valid report is answered as a replay, and changes
  -- nothing.
  pub commit_attempt_retry :
      (clock' : Clock) (report' : Report)
      → is_some (parse_outcome report'.outcome) ≡ true
      → commit_attempt clock' chat_id review_id report' (some operation_key) db' ≡ (ok none, db')
  unfolding commit_attempt validate_outcome
  commit_attempt_retry clock' report' valid =
      let key = review_attempt_key chat_id review_id operation_key in
      let (priced, _, good_key, committed) =
        commit_attempt_inv clock chat_id review_id report operation_key attempt db db' run in
      let (review, problem, logged, persisted) =
        commit_open_review_inv clock chat_id review_id report (some key) (some attempt) db db'
          committed in
      let booked =
        persist_attempt_booked clock chat_id problem report (some review) key none logged db db'
          persisted priced in
      rw (valid, good_key, booked)

record_problem_attempt_inv :
    (clock : Clock) (chat_id : ℤ) (slug : Text) (report : Report) (operation_key : Text)
    (on : Option Date) (attempt : Attempt) (db db' : Db)
    → record_problem_attempt clock chat_id slug report operation_key on db
      ≡ (ok (some attempt), db')
    → let key = canonical_attempt_key chat_id slug operation_key in
      (problem : Problem) × (outcome_credit report.outcome ≡ some (worth report.outcome))
      × (find_problem slug db ≡ some problem)
      × (find_credit key db.ledger.rows ≡ none)
      × (is_bad_key operation_key key ≡ false)
      × (persist_attempt clock chat_id problem report
            (open_review_for chat_id slug db)
            (some key)
            (some (or_else on clock.today))
            db
          ≡ (ok attempt, db'))
unfolding record_problem_attempt validate_outcome
record_problem_attempt_inv clock chat_id slug report operation_key on attempt db db' run =
    elim (Option-cases (find_problem slug db)) [
      | inl missing ↦ absurd (ground (arith, missing))
      | inr (problem, found) ↦ (
        problem,
        ground (arith, validated report.outcome db),
        found,
        ground arith,
        ground arith,
        ground arith,
      )
    ]

module _ (clock : Clock) (chat_id : ℤ) (slug : Text) (report : Report) (operation_key : Text)
    (on : Option Date) (attempt : Attempt) (db db' : Db)
    (run : record_problem_attempt clock chat_id slug report operation_key on db
      ≡ (ok (some attempt), db')) where
  -- An attempt that `record_problem_attempt` records adds what its outcome is worth to the balance
  -- of the chat, and leaves every other balance alone.
  pub record_problem_attempt_credit :
      (c : ℤ)
      → credit_balance c db'
        ≡ credit_balance c db +ℤ (if chat_id == c then worth report.outcome else pos 0)
  record_problem_attempt_credit c =
      let (problem, priced, _, fresh, _, persisted) =
        record_problem_attempt_inv clock chat_id slug report operation_key on attempt db db' run in
      persist_attempt_balance clock chat_id problem report (open_review_for chat_id slug db)
        (canonical_attempt_key chat_id slug operation_key) (some (or_else on clock.today)) attempt
        db db' persisted priced fresh c

  record_problem_attempt_booked :
      is_some (find_credit (canonical_attempt_key chat_id slug operation_key) db'.ledger.rows)
      ≡ true
  record_problem_attempt_booked =
      let (problem, priced, _, _, _, persisted) =
        record_problem_attempt_inv clock chat_id slug report operation_key on attempt db db' run in
      persist_attempt_booked clock chat_id problem report (open_review_for chat_id slug db)
        (canonical_attempt_key chat_id slug operation_key) (some (or_else on clock.today)) attempt
        db db' persisted priced
