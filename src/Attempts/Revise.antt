-- ===== src/Attempts/Revise.antt =====
-- `correct_attempt` and `reverse_attempt` of `CoachDomain`
-- (src/leetcode_coach/domain/services.py).
pub mod Recount
pub mod Runs
pub mod Counts
pub mod Credits
use leetcode_coach_service.Base.{
  ℕ, suc, ◌+◌, Bool, true, false, Option, none, some, List, [], ◌∷◌, ◌++◌, ◌&&◌, ◌||◌, ⊤,
  if◌then◌else◌, ◌==◌, ℤ, pos, ◌-ℤ◌, int_eq, nat_eq, first, update, Eq, or_else, not, is_some,
}
use leetcode_coach_service.Text.{Text, codes, text_eq}
use leetcode_coach_service.Calendar.{Clock, Date, date_ltb}
use leetcode_coach_service.Model.{Attempt, AttemptRevision, Snapshot, ReviewStatus, open_review}
use leetcode_coach_service.Store.{
  Db, Exec, ok, err, insert, pure, raise, raise_if, or_raise, modify, gets, ◌>>=◌, ◌>>◌, key_error,
  attempt_not_found, already_reversed, future_date, set_and_clear,
}
use leetcode_coach_service.Credit.{add_credit}
use leetcode_coach_service.Credit.Keys.{
  revision_key, correction_remove_key, correction_replace_key, reversal_key,
}
use leetcode_coach_service.Attempts.{find_review, set_review_status}
use leetcode_coach_service.Attempts.Outcomes.{validate_outcome, outcome_credit, review_status}
use leetcode_coach_service.Attempts.Counting.{recompute_problem}

-- What a correction asks for; a missing field stays as it is.
pub record Correction : Type 0 where
  pub outcome : Option Text
  pub attempted_on : Option Date
  pub feedback : Option Text
  pub language : Option Text
  pub clear_language : Bool
  pub solution_summary : Option Text
  pub time_spent_min : Option ℕ
  pub clear_time_spent : Bool
  pub reason : Text

abbrev pub find_attempt : ℕ → Db → Option Attempt
find_attempt id db = first (λ (a : Attempt). a.id == id) db.attempts.rows

abbrev pub find_revision : Text → Db → Option AttemptRevision
find_revision key db = first (λ (r : AttemptRevision). r.operation_key == key) db.revisions.rows

unfoldable pub attempt_snapshot : Attempt → Snapshot
attempt_snapshot a = record {
  outcome = a.outcome;
  attempted_on = a.attempted_on;
  feedback = a.feedback;
  language = a.language;
  solution_summary = a.solution_summary;
  time_spent_min = a.time_spent_min;
  reversed_at = a.reversed_at;
}

-- A field after `if clear: x = None elif new is not None: x = new`.
abbrev pub cleared_or : {A : Type 0} → Bool → Option A → Option A → Option A
cleared_or true new old = none
cleared_or false none old = old
cleared_or false (some a) old = some a

unfoldable pub corrected : ℕ → Correction → Attempt → Attempt
corrected now c a = record a {
  outcome = or_else c.outcome a.outcome;
  attempted_on = or_else c.attempted_on a.attempted_on;
  feedback = or_else c.feedback a.feedback;
  language = cleared_or c.clear_language c.language a.language;
  solution_summary = or_else c.solution_summary a.solution_summary;
  time_spent_min = cleared_or c.clear_time_spent c.time_spent_min a.time_spent_min;
  updated_at = now;
}

unfoldable pub reversed : ℕ → Attempt → Attempt
reversed now a = record a { reversed_at = some now; updated_at = now }

unfoldable pub write_attempt : ℕ → (Attempt → Attempt) → Db → Db
write_attempt id f db = record db {
  attempts = record (db.attempts) {
    rows = update (λ (a : Attempt). a.id == id) f db.attempts.rows;
  };
}

-- `if attempt.review_id is not None`: the review, where it exists, gets a status.
unfoldable pub write_review : Option ℕ → ReviewStatus → ℕ → Db → Db
unfolding set_review_status
write_review none status now db = db
write_review (some id) status now db = set_review_status id status now db

abbrev pub new_revision :
    Clock → ℤ → ℕ → Text → Text → Attempt → Attempt → Text → ℕ → AttemptRevision
new_revision clock chat_id attempt_id key action before after reason id = record {
  id = id;
  chat_id = chat_id;
  attempt_id = attempt_id;
  operation_key = key;
  action = action;
  before_json = attempt_snapshot before;
  after_json = attempt_snapshot after;
  reason = reason;
  created_at = clock.now;
}

unfoldable pub add_revision : (ℕ → AttemptRevision) → Db → Db
add_revision row db = record db { revisions = insert row db.revisions }

-- `-old_credit`
abbrev pub negated : ℤ → ℤ
negated amount = pos 0 -ℤ amount

-- The checks of `correct_attempt` before it reads the database.
unfoldable pub check_correction : Clock → Correction → Exec ⊤
check_correction clock c = do
  elim c.outcome [ none ↦ pure tt | some outcome ↦ validate_outcome outcome ]
  raise_if (elim c.attempted_on [ none ↦ false | some on ↦ date_ltb clock.today on ]) future_date
  raise_if (c.clear_language && is_some c.language) set_and_clear
  raise_if (c.clear_time_spent && is_some c.time_spent_min) set_and_clear

-- `review.status = self._review_status(attempt.outcome)`, where the attempt has a review.
unfoldable pub restate_review : ℕ → Option ℕ → Text → Exec ⊤
restate_review now none outcome = pure tt
restate_review now (some id) outcome = do
  review ← gets (find_review id)
  elim review [
    | none ↦ pure tt
    | some r ↦ do
      status ← or_raise (review_status outcome) key_error
      modify (set_review_status id status now)
  ]

-- What `correct_attempt` writes, up to the recomputation: attempt, review, credits and revision.
unfoldable pub book_correction : Clock → ℤ → Attempt → Correction → Text → Exec ⊤
book_correction clock chat_id attempt c operation_key = do
  old_credit ← or_raise (outcome_credit attempt.outcome) key_error
  let after = corrected clock.now c attempt
  modify (write_attempt attempt.id (corrected clock.now c))
  restate_review clock.now attempt.review_id after.outcome
  add_credit clock chat_id (negated old_credit) (codes "attempt_correction_remove")
      (correction_remove_key chat_id attempt.id operation_key) attempt.review_id
      (some attempt.attempted_on) (some attempt.id)
  new_credit ← or_raise (outcome_credit after.outcome) key_error
  add_credit clock chat_id new_credit (codes "attempt_correction_replace")
      (correction_replace_key chat_id attempt.id operation_key) attempt.review_id
      (some after.attempted_on) (some attempt.id)
  modify (
      add_revision (
        new_revision clock chat_id attempt.id (revision_key chat_id attempt.id operation_key)
          (codes "correct") attempt after c.reason))

-- `none` is the reply `{"replayed": True}`.
unfoldable pub correct_checked : Clock → ℤ → ℕ → Correction → Text → Exec (Option Attempt)
correct_checked clock chat_id attempt_id c operation_key = do
  replay ← gets (find_revision (revision_key chat_id attempt_id operation_key))
  if is_some replay then pure none else do
    found ← gets (find_attempt attempt_id)
    attempt ← or_raise found attempt_not_found
    raise_if (not (attempt.chat_id == chat_id) || is_some attempt.reversed_at) attempt_not_found
    book_correction clock chat_id attempt c operation_key
    recompute_problem clock.now attempt.problem_slug
    pure (some (corrected clock.now c attempt))

unfoldable pub correct_attempt : Clock → ℤ → ℕ → Correction → Text → Exec (Option Attempt)
correct_attempt clock chat_id attempt_id c operation_key = do
  check_correction clock c
  correct_checked clock chat_id attempt_id c operation_key

-- What `reverse_attempt` writes, up to the recomputation.
unfoldable pub book_reversal : Clock → ℤ → Attempt → Text → Text → Exec ⊤
book_reversal clock chat_id attempt reason operation_key = do
  modify (write_attempt attempt.id (reversed clock.now))
  modify (write_review attempt.review_id open_review clock.now)
  credit ← or_raise (outcome_credit attempt.outcome) key_error
  add_credit clock chat_id (negated credit) (codes "attempt_reversal")
      (reversal_key chat_id attempt.id operation_key) attempt.review_id (some attempt.attempted_on)
      (some attempt.id)
  modify (
      add_revision (
        new_revision clock chat_id attempt.id (revision_key chat_id attempt.id operation_key)
          (codes "reverse") attempt (reversed clock.now attempt) reason))

unfoldable pub reverse_attempt : Clock → ℤ → ℕ → Text → Text → Exec (Option Attempt)
reverse_attempt clock chat_id attempt_id reason operation_key = do
  replay ← gets (find_revision (revision_key chat_id attempt_id operation_key))
  if is_some replay then pure none else do
    found ← gets (find_attempt attempt_id)
    attempt ← or_raise found attempt_not_found
    raise_if (not (attempt.chat_id == chat_id)) attempt_not_found
    raise_if (is_some attempt.reversed_at) already_reversed
    book_reversal clock chat_id attempt reason operation_key
    recompute_problem clock.now attempt.problem_slug
    pure (some (reversed clock.now attempt))
