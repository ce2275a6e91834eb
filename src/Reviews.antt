-- ===== src/Reviews.antt =====
-- Open reviews: `skip_problem`, `mark_solution_viewed` and `reattempt_problem` of `CoachDomain`
-- (src/leetcode_coach/domain/services.py).
pub mod Laws
pub mod Closing
use leetcode_coach_service.Base.{
  ℕ, suc, Bool, true, false, Option, none, some, List, [], ◌∷◌, ◌++◌, ◌&&◌, ◌||◌, ⊤, if◌then◌else◌,
  ◌==◌, ℤ, int_eq, nat_eq, first, Eq, not, is_some,
}
use leetcode_coach_service.Text.{Text, codes, text_eq}
use leetcode_coach_service.Calendar.{Clock}
use leetcode_coach_service.Model.{
  PendingReview, ReviewStatus, open_review, done, skipped_review, saw_solution_review,
  expired_review, is_open_review, Outcome, skipped, saw_solution, outcome_text,
}
use leetcode_coach_service.Store.{
  Db, Exec, Result, ok, err, insert, pure, raise, raise_if, or_raise, modify, gets, create, ◌>>=◌,
  ◌>>◌, review_not_found, not_reattemptable,
}
use leetcode_coach_service.Credit.Keys.{skip_key, solution_key}
use leetcode_coach_service.Attempts.{
  Report, find_review, persist_attempt, require_open, require_problem,
}

-- An attempt with nothing but its outcome.
abbrev pub bare_report : Outcome → Report
bare_report o = record {
  outcome = outcome_text o;
  feedback = [];
  lesson_delta = none;
  language = none;
  solution_summary = [];
  time_spent_min = none;
}

-- Both buttons close an open review with an attempt that is booked under the review's own key.
unfoldable pub close_review :
    Clock → ℤ → ℕ → Outcome → ReviewStatus → (ℕ → Text) → Exec PendingReview
close_review clock chat_id review_id outcome status key = do
  review ← require_open chat_id review_id
  problem ← require_problem review.problem_slug
  persist_attempt clock chat_id problem (bare_report outcome) (some review) (some (key review.id))
      none
  pure (record review { status = status; updated_at = clock.now })

unfoldable pub skip_problem : Clock → ℤ → ℕ → Exec PendingReview
unfolding close_review
skip_problem clock chat_id review_id =
    close_review clock chat_id review_id skipped skipped_review skip_key

unfoldable pub mark_solution_viewed : Clock → ℤ → ℕ → Exec PendingReview
unfolding close_review
mark_solution_viewed clock chat_id review_id =
    close_review clock chat_id review_id saw_solution saw_solution_review solution_key

-- `status in {SKIPPED, SAW_SOLUTION, DONE}`
abbrev pub can_reattempt : ReviewStatus → Bool
can_reattempt skipped_review = true
can_reattempt saw_solution_review = true
can_reattempt done = true
can_reattempt _ = false

-- An open review of the chat for the problem that comes from no proposal.
abbrev pub is_direct : ℤ → Text → PendingReview → Bool
is_direct chat_id slug r =
    r.chat_id == chat_id
    && (r.problem_slug == slug && (is_open_review r.status && not (is_some r.candidate_id)))

-- `V2PendingReview(chat_id=chat_id, problem_slug=slug)`
abbrev pub direct_review : Clock → ℤ → Text → ℕ → PendingReview
direct_review clock chat_id slug id = record {
  id = id;
  chat_id = chat_id;
  candidate_id = none;
  batch_id = none;
  problem_slug = slug;
  telegram_message_id = none;
  proposed_on = clock.today;
  status = open_review;
  created_at = clock.now;
  updated_at = clock.now;
}

unfoldable pub open_direct : Clock → ℤ → Text → Exec PendingReview
open_direct clock chat_id slug db = elim (first (is_direct chat_id slug) db.reviews.rows) [
  | some existing ↦ (ok existing, db)
  | none ↦
      let row = direct_review clock chat_id slug in
      (ok (row db.reviews.next_id), record db { reviews = insert row db.reviews })
]

unfoldable pub reattempt_problem : Clock → ℤ → ℕ → Exec PendingReview
unfolding open_direct
reattempt_problem clock chat_id review_id = do
  found ← gets (find_review review_id)
  source ← or_raise found review_not_found
  raise_if (not (source.chat_id == chat_id)) review_not_found
  raise_if (not (can_reattempt source.status)) not_reattemptable
  open_direct clock chat_id source.problem_slug
