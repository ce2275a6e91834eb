-- ===== src/Adapter/Receipts.antt =====
-- The receipts of recorded attempts.
use mathlib.Core.Path.{ap₂}
use leetcode_coach_service.Base.{
  ℕ, Bool, true, false, Option, none, some, ◌++◌, ◌≡◌, refl, ap, sym, ◌∙◌, ℤ, pos, ◌+ℤ◌, ◌-ℤ◌,
  +ℤ_parts, -ℤ_parts, eq_of_parts, arith, Option-cases, inl, inr, int_eq, beq_refl, if◌then◌else◌,
}
use leetcode_coach_service.Text.{Text, codes}
use leetcode_coach_service.Calendar.{Clock}
use leetcode_coach_service.Model.{Problem, Attempt}
use leetcode_coach_service.Store.{Db, Result, ok, err, Exec, write}
use leetcode_coach_service.Store.Bind.{bind_returned, returned_eq}
use leetcode_coach_service.Credit.{credit_balance, find_credit}
use leetcode_coach_service.Attempts.{Report, commit_attempt}
use leetcode_coach_service.Attempts.Retry.{worth, commit_attempt_credit}
use leetcode_coach_service.Rendering.{Receipt}
use leetcode_coach_service.Adapter.{money, attempt_receipt}
use leetcode_coach_service.Adapter.Recording.{
  Recorded, review_problem, replayed_entry, review_key, review_receipt, commit_with_receipt,
  commit_review_attempt,
}

write_result :
    {A : Type 0} (r : Result A) (old mid db' : Db) (a : A)
    → write (λ _. (r, mid)) old ≡ (ok a, db')
    → ◌≡◌ {A = Result A × Db} (r, mid) (ok a, db')
unfolding write
write_result (ok b) old mid db' a h = h
write_result (err e) old mid db' a h = absurd (cc h)

-- A transaction that returned was committed.
pub write_inv :
    {A : Type 0} (m : Exec A) (a : A) (db db' : Db) → write m db ≡ (ok a, db') → m db ≡ (ok a, db')
unfolding write
write_inv m a db db' h = write_result (m db).0 db (m db).1 db' a h

gain : (a w : ℤ) → (a +ℤ w) -ℤ a ≡ w
gain a w = eq_of_parts ((a +ℤ w) -ℤ a) w (omega (arith, +ℤ_parts a w, -ℤ_parts (a +ℤ w) a))

-- The receipt of a service call that recorded an attempt under a key.
review_receipt_inv :
    (chat_id : ℤ) (outcome key : Text) (problem : Option Problem) (before : ℤ)
    (result : Option Attempt) (attempt : Attempt) (receipt : Receipt) (db db' : Db)
    → review_receipt chat_id outcome (some key) problem before result db
      ≡ (ok (some attempt, receipt), db')
    → (p : Problem) × (problem ≡ some p)
      × (result ≡ some attempt)
      × (db ≡ db')
      × (receipt ≡ attempt_receipt p.title outcome before (credit_balance chat_id db') true false)
unfolding review_receipt replayed_entry
review_receipt_inv chat_id outcome key none before (some a) attempt receipt db db' run =
    absurd (cc run)
review_receipt_inv chat_id outcome key (some p) before (some a) attempt receipt db db' run =
    let (given, same) = returned_eq run in
    (
      p,
      refl,
      ap (λ (r : Recorded). r.0) given,
      same,
      ap (λ (r : Recorded). r.1) (sym given)
          ∙ ap
              (λ (d : Db).
                attempt_receipt p.title outcome before (credit_balance chat_id d) true false)
              same,
    )
review_receipt_inv chat_id outcome key problem before none attempt receipt db db' run =
    elim (Option-cases (find_credit key db.ledger.rows)) [
      | inl missing ↦ absurd (ground (arith, missing))
      | inr (entry, found) ↦ elim (Option-cases problem) [
        | inl gone ↦ absurd (ground (arith, found, gone))
        | inr (p, there) ↦ absurd (ground (arith, found, there))
      ]
    ]

-- The receipt of an attempt that is recorded under an operation key at a review of the chat shows
-- as credit what the outcome is worth, as balance that before and behind the attempt, and no replay.
pub commit_review_attempt_receipt :
    (clock : Clock) (chat_id : ℤ) (review_id : ℕ) (report : Report) (operation_key : Text)
    (attempt : Attempt) (receipt : Receipt) (db db' : Db)
    → commit_review_attempt clock chat_id review_id report (some operation_key) db
      ≡ (ok (some attempt, receipt), db')
    → (receipt.credit ≡ money true (worth report.outcome))
      × (receipt.balance
          ≡ money false (credit_balance chat_id db)
            ++ (codes " → " ++ money false (credit_balance chat_id db')))
      × (receipt.replayed ≡ false)
unfolding commit_review_attempt commit_with_receipt attempt_receipt
commit_review_attempt_receipt clock chat_id review_id report operation_key attempt receipt db db'
      run =
    let ran =
      write_inv (commit_with_receipt clock chat_id review_id report (some operation_key))
        (some attempt, receipt) db db' run in
    let (result, mid, committed, issued) =
      bind_returned (commit_attempt clock chat_id review_id report (some operation_key))
        (review_receipt chat_id report.outcome (review_key chat_id review_id (some operation_key))
          (review_problem review_id db) (credit_balance chat_id db))
        ran in
    let (p, _, recorded, same, shown) =
      review_receipt_inv chat_id report.outcome _ (review_problem review_id db)
        (credit_balance chat_id db) result attempt receipt mid db' issued in
    let done : commit_attempt clock chat_id review_id report (some operation_key) db
        ≡ (ok (some attempt), db') =
      committed ∙ ap₂ (λ (r : Option Attempt) (d : Db). (ok r, d)) recorded same in
    let booked : credit_balance chat_id db' ≡ credit_balance chat_id db +ℤ worth report.outcome =
      commit_attempt_credit clock chat_id review_id report operation_key attempt db db' done chat_id
      ∙ ap (λ (b : Bool). credit_balance chat_id db +ℤ (if b then worth report.outcome else pos 0))
          (beq_refl chat_id) in
    (
      ap (λ (r : Receipt). r.credit) shown
          ∙ ap (λ (b : ℤ). money true (b -ℤ credit_balance chat_id db)) booked
          ∙ ap (money true) (gain (credit_balance chat_id db) (worth report.outcome)),
      ap (λ (r : Receipt). r.balance) shown,
      ap (λ (r : Receipt). r.replayed) shown,
    )
