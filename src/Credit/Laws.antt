-- ===== src/Credit/Laws.antt =====
-- What `add_credit` does to balances, and that each idempotency key is booked once.
use leetcode_coach_service.Base.{
  ℕ, Bool, true, Option, none, List, [], ◌∷◌, ◌++◌, if◌then◌else◌, ◌==◌, ℤ, pos, int_eq, ◌+ℤ◌,
  int_laws, update, nat_eq, ◌≡◌, refl, arith, ap, beq_refl, Option-cases, is_some, inl, inr,
}
use leetcode_coach_service.Text.{Text, codes, text_eq}
use leetcode_coach_service.Text.Laws.{text_beq_refl}
use leetcode_coach_service.Calendar.{Date, Clock}
use leetcode_coach_service.Model.{CreditEntry}
use leetcode_coach_service.Store.{Db, Result}
use leetcode_coach_service.Store.Rows.{first-append, Unique, Unique-snoc}
use leetcode_coach_service.Credit.{
  find_credit, new_credit, add_credit, apply_daily_tax, balance_of, credit_balance,
}
use leetcode_coach_service.Credit.Keys.{tax_key}

-- What an entry adds to the balance of a chat.
abbrev pub share : ℤ → CreditEntry → ℤ
share chat_id e = if e.chat_id == chat_id then e.amount else pos 0

pub balance_of-snoc :
    (chat_id : ℤ) (rows : List CreditEntry) (e : CreditEntry)
    → balance_of chat_id (rows ++ e ∷ []) ≡ balance_of chat_id rows +ℤ share chat_id e
unfolding balance_of
balance_of-snoc chat_id [] e = grind int_laws
balance_of-snoc chat_id (x ∷ xs) e = grind (int_laws, balance_of-snoc chat_id xs e)

-- Rows whose chat and amount stay keep every balance.
pub balance_of-update :
    (chat_id : ℤ) (q : CreditEntry → Bool) (f : CreditEntry → CreditEntry) (rows : List CreditEntry)
    → ((e : CreditEntry) → (f e).chat_id ≡ e.chat_id)
    → ((e : CreditEntry) → (f e).amount ≡ e.amount)
    → balance_of chat_id (update q f rows) ≡ balance_of chat_id rows
unfolding balance_of
balance_of-update chat_id q f [] same_chat same_amount = refl
balance_of-update chat_id q f (x ∷ xs) same_chat same_amount =
    ground
      (arith, same_chat x, same_amount x, balance_of-update chat_id q f xs same_chat same_amount)

module _ (clock : Clock) (chat_id amount : ℤ) (reason key : Text) (review_id : Option ℕ)
    (effective_on : Option Date) (attempt_id : Option ℕ) (db : Db) where
  abbrev added : Result CreditEntry × Db
  added = add_credit clock chat_id amount reason key review_id effective_on attempt_id db

  -- An entry under a key that is not booked adds its amount to the balance of its chat, and leaves
  -- every other balance alone.
  pub add_credit_fresh :
      find_credit key db.ledger.rows ≡ none
      → (c : ℤ)
      → credit_balance c added.1 ≡ credit_balance c db +ℤ (if chat_id == c then amount else pos 0)
  unfolding add_credit credit_balance
  add_credit_fresh fresh c = ground (
    arith,
    balance_of-snoc c db.ledger.rows (
        new_credit clock chat_id amount reason key review_id effective_on attempt_id
          db.ledger.next_id),
  )

  -- Once a key is booked, booking it again gives the booked entry and changes nothing, whatever
  -- else the second call asks for.
  pub add_credit_repeat :
      (clock' : Clock) (chat' amount' : ℤ) (reason' : Text) (review' : Option ℕ)
      (effective' : Option Date) (attempt' : Option ℕ)
      → add_credit clock' chat' amount' reason' key review' effective' attempt' added.1 ≡ added
  unfolding add_credit
  add_credit_repeat clock' chat' amount' reason' review' effective' attempt' = ground (
    arith,
    first-append (λ (e : CreditEntry). e.idempotency_key == key) db.ledger.rows
        (new_credit clock chat_id amount reason key review_id effective_on attempt_id
          db.ledger.next_id),
    text_beq_refl key,
  )

  -- The key is on the ledger from then on.
  pub add_credit_booked : is_some (find_credit key added.1.ledger.rows) ≡ true
  unfolding add_credit
  add_credit_booked = ground (
    arith,
    first-append (λ (e : CreditEntry). e.idempotency_key == key) db.ledger.rows
        (new_credit clock chat_id amount reason key review_id effective_on attempt_id
          db.ledger.next_id),
    text_beq_refl key,
  )

  -- A booking leaves every key of the ledger on one entry only, if it was so before.
  pub add_credit-Unique :
      Unique (λ e. e.idempotency_key) db.ledger.rows
      → Unique (λ e. e.idempotency_key) added.1.ledger.rows
  unfolding add_credit
  add_credit-Unique u = elim (Option-cases (find_credit key db.ledger.rows)) [
    | inl fresh ↦
        rw (fresh, add_credit)
          (Unique-snoc (λ (e : CreditEntry). e.idempotency_key) db.ledger.rows
            (new_credit clock chat_id amount reason key review_id effective_on attempt_id
              db.ledger.next_id)
            u fresh)
    | inr (entry, booked) ↦ rw (booked, add_credit) u
  ]

-- If the tax of a day is not booked for the chat, applying it adds the amount to the balance, and
-- applying it again, with any amount, changes nothing.
pub tax_once_a_day :
    (clock clock' : Clock) (chat_id amount amount' : ℤ) (on_date : Date) (db : Db)
    → find_credit (tax_key chat_id on_date) db.ledger.rows ≡ none
    → let db₁ = (apply_daily_tax clock chat_id on_date amount db).1 in
      (credit_balance chat_id db₁ ≡ credit_balance chat_id db +ℤ amount)
      × ((apply_daily_tax clock' chat_id on_date amount' db₁).1 ≡ db₁)
unfolding apply_daily_tax
tax_once_a_day clock clock' chat_id amount amount' on_date db fresh =
    let reason = codes "daily_tax" in
    let key = tax_key chat_id on_date in
    (
      ground (
        arith,
        add_credit_fresh clock chat_id amount reason key none none none db fresh chat_id,
        beq_refl chat_id,
      ),
      ap (λ r. r.1)
          (add_credit_repeat clock chat_id amount reason key none none none db clock' chat_id
            amount' reason none none none),
    )

-- Booking writes the ledger and no other table.
pub record OnlyLedger (db db' : Db) : Type 0 where
  pub problems : db'.problems ≡ db.problems
  pub attempts : db'.attempts ≡ db.attempts
  pub reviews : db'.reviews ≡ db.reviews
  pub revisions : db'.revisions ≡ db.revisions

pub add_credit-OnlyLedger :
    (clock : Clock) (chat_id amount : ℤ) (reason key : Text) (review_id : Option ℕ)
    (effective_on : Option Date) (attempt_id : Option ℕ) (db : Db)
    → OnlyLedger db
        (add_credit clock chat_id amount reason key review_id effective_on attempt_id db).1
unfolding add_credit
add_credit-OnlyLedger clock chat_id amount reason key review_id effective_on attempt_id db =
    ground arith
