-- ===== src/Credit.antt =====
-- The credit ledger of `CoachDomain` (src/leetcode_coach/domain/services.py): `add_credit`,
-- `accept_credit_deficit`, `apply_daily_tax`, `credit_balance`, and the idempotency keys.
pub mod Keys
pub mod Laws
use leetcode_coach_service.Base.{
  ℕ, ◌+◌, suc, Bool, true, false, Option, none, some, List, [], ◌∷◌, ◌++◌, ⊤, if◌then◌else◌, ◌==◌,
  ℤ, pos, negsuc, int_eq, ◌+ℤ◌, first, select, update, or_else, nat_eq, Eq,
}
use leetcode_coach_service.Text.{Text, codes, text_eq}
use leetcode_coach_service.Calendar.{Date, Clock}
use leetcode_coach_service.Model.{CreditEntry}
use leetcode_coach_service.Store.{Db, Table, Exec, ok, err, insert}
use Keys.{deficit_key, tax_key}

-- `select(V2CreditLedger).where(idempotency_key == key).first()`
abbrev pub find_credit : Text → List CreditEntry → Option CreditEntry
find_credit key = first (λ (e : CreditEntry). e.idempotency_key == key)

abbrev pub new_credit :
    Clock → ℤ → ℤ → Text → Text → Option ℕ → Option Date → Option ℕ → ℕ → CreditEntry
new_credit clock chat_id amount reason key review_id effective_on attempt_id id = record {
  id = id;
  chat_id = chat_id;
  idempotency_key = key;
  amount = amount;
  reason = reason;
  effective_on = or_else effective_on clock.today;
  review_id = review_id;
  attempt_id = attempt_id;
  created_at = clock.now;
}

unfoldable pub add_credit :
    Clock → ℤ → ℤ → Text → Text → Option ℕ → Option Date → Option ℕ → Exec CreditEntry
add_credit clock chat_id amount reason key review_id effective_on attempt_id db =
    elim (find_credit key db.ledger.rows) [
      | some existing ↦ (ok existing, db)
      | none ↦
          let row = new_credit clock chat_id amount reason key review_id effective_on attempt_id in
          (ok (row db.ledger.next_id), record db { ledger = insert row db.ledger })
    ]

unfoldable pub accept_credit_deficit : Clock → ℤ → Date → Exec CreditEntry
accept_credit_deficit clock chat_id on_date =
    add_credit clock chat_id (pos 0) (codes "deficit_accepted") (deficit_key chat_id on_date) none
      none none

-- The default tax is one credit.
abbrev pub tax_amount : ℤ
tax_amount = negsuc 99

unfoldable pub apply_daily_tax : Clock → ℤ → Date → ℤ → Exec CreditEntry
apply_daily_tax clock chat_id on_date amount =
    add_credit clock chat_id amount (codes "daily_tax") (tax_key chat_id on_date) none none none

unfoldable pub sum_amounts : List CreditEntry → ℤ
sum_amounts [] = pos 0
sum_amounts (e ∷ es) = e.amount +ℤ sum_amounts es

-- `select(coalesce(sum(amount), 0)).where(chat_id == chat_id)`
unfoldable pub balance_of : ℤ → List CreditEntry → ℤ
unfolding sum_amounts
balance_of chat_id rows = sum_amounts (select (λ e. e.chat_id == chat_id) rows)

unfoldable pub credit_balance : ℤ → Db → ℤ
credit_balance chat_id db = balance_of chat_id db.ledger.rows
