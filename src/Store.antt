-- ===== src/Store.antt =====
-- The database as the services see it: one table per model, and the session monad.
pub mod Rows
pub mod Keeps
pub mod Bind
use leetcode_coach_service.Base.{
  ℕ, ◌+◌, suc, Bool, true, false, Option, none, some, List, [], ◌∷◌, ◌++◌, ⊤, if◌then◌else◌,
}
use leetcode_coach_service.Model.{
  Problem, Attempt, Lesson, ProposalBatch, ProposalCandidate, PendingReview, CreditEntry, BotState,
  ProcessedUpdate, AttemptRevision, FollowUp,
}

-- A table whose primary key the database assigns, with the next key.
pub record Table (A : Type 0) : Type 0 where
  pub rows : List A
  pub next_id : ℕ

-- `session.add(row); session.flush()`: the row gets the next key and comes last.
abbrev pub insert : {A : Type 0} → (ℕ → A) → Table A → Table A
insert row t = record { rows = t.rows ++ row t.next_id ∷ []; next_id = suc t.next_id }

pub record Db : Type 0 where
  pub problems : List Problem
  pub attempts : Table Attempt
  pub lessons : Table Lesson
  pub batches : Table ProposalBatch
  pub candidates : Table ProposalCandidate
  pub reviews : Table PendingReview
  pub ledger : Table CreditEntry
  pub bot_states : Table BotState
  pub processed : List ProcessedUpdate
  pub revisions : Table AttemptRevision
  pub follow_ups : List FollowUp

-- What a service raises: the classes of domain/exceptions.py and the built-in ones, each with
-- the message that names the reason.
pub data Error : Type 0 where
  invalid_outcome invalid_operation_key future_date set_and_clear : Error
  bad_picks bad_hours title_required selection_unavailable : Error
  wrong_count empty_slug duplicate_slug unknown_slug : Error
  batch_not_found review_not_found open_review_not_found problem_not_found : Error
  attempt_not_found lesson_not_found update_not_found follow_up_not_found : Error
  batch_closed picks_unavailable review_closed already_reversed : Error
  not_reattemptable not_extendable not_cancellable : Error
  key_error assertion_error value_error data_error : Error

-- domain/exceptions.py: `NotFound` and `Conflict` are `DomainError`s; the last is what else Python
-- raises here.
pub data ErrorClass : Type 0 where
  domain_error not_found conflict python_error : ErrorClass

unfoldable pub error_class : Error → ErrorClass
error_class batch_not_found = not_found
error_class review_not_found = not_found
error_class open_review_not_found = not_found
error_class problem_not_found = not_found
error_class attempt_not_found = not_found
error_class lesson_not_found = not_found
error_class update_not_found = not_found
error_class follow_up_not_found = not_found
error_class batch_closed = conflict
error_class picks_unavailable = conflict
error_class review_closed = conflict
error_class already_reversed = conflict
error_class not_reattemptable = conflict
error_class not_extendable = conflict
error_class not_cancellable = conflict
error_class key_error = python_error
error_class assertion_error = python_error
error_class value_error = python_error
error_class data_error = python_error
error_class _ = domain_error

pub data Result (A : Type 0) : Type 0 where
  ok : A → Result A
  err : Error → Result A

-- A method on an open session. What was written before a raise is still in the session.
abbrev pub Exec : Type 0 → Type 0
Exec A = Db → Result A × Db

module _ {A : Type 0} where
  abbrev pub pure : A → Exec A
  pure a db = (ok a, db)

  abbrev pub raise : Error → Exec A
  raise e db = (err e, db)

  abbrev pub gets : (Db → A) → Exec A
  gets f db = (ok (f db), db)

  abbrev pub or_raise : Option A → Error → Exec A
  or_raise none e = raise e
  or_raise (some a) e = pure a

  -- A row that the code adds and goes on with.
  abbrev pub create : (Db → A × Db) → Exec A
  create f db = let (a, db') = f db in (ok a, db')

-- How a chain goes on from what its first method gave.
abbrev pub resume : {A B : Type 0} → Result A × Db → (A → Exec B) → Result B × Db
resume (ok a, db) f = f a db
resume (err e, db) f = (err e, db)

infixl 5 ◌>>=◌ ◌>>◌
abbrev pub ◌>>=◌ : {A B : Type 0} → Exec A → (A → Exec B) → Exec B
◌>>=◌ m f db = resume (m db) f

abbrev pub ◌>>◌ : {A B : Type 0} → Exec A → Exec B → Exec B
m >> k = m >>= λ _. k

abbrev pub raise_if : Bool → Error → Exec ⊤
raise_if c e db = (if c then err e else ok tt, db)

abbrev pub modify : (Db → Db) → Exec ⊤
modify f db = (ok tt, f db)

-- `SQLCoachDomainAdapter._write`: the session is committed at the end, and rolled back by a raise.
unfoldable pub write : {A : Type 0} → Exec A → Exec A
write m db = let (r, db') = m db in elim r [ ok a ↦ (ok a, db') | err e ↦ (err e, db) ]
