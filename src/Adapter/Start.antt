-- ===== src/Adapter/Start.antt =====
-- `start_problem` of src/leetcode_coach/runtime/adapters.py.
use leetcode_coach_service.Base.{
  ℕ, false, Option, none, some, [], ◌∷◌, ◌++◌, ◌||◌, if◌then◌else◌, ℤ, int_eq, nat_eq, not, take,
  is_some, or_else,
}
use leetcode_coach_service.Text.{Text, text_eq, is_empty, strip, lower}
use leetcode_coach_service.Calendar.{Clock}
use leetcode_coach_service.Model.{Problem, PendingReview}
use leetcode_coach_service.Store.{Exec, ok, err, insert, ◌>>◌, value_error}
use leetcode_coach_service.Attempts.{find_problem, open_review_for}
use leetcode_coach_service.Reviews.{direct_review}
use leetcode_coach_service.Jobs.{problem_url}
use leetcode_coach_service.Adapter.Search.{is_difficulty}

-- `start_problem` of a slug in its normal form, behind `exact_problem_slug`.
abbrev pub started_problem : ℕ → Text → Text → Text → Text → Problem
started_problem now slug title difficulty tags = record {
  slug = slug;
  title = take 300 title;
  url = problem_url slug;
  difficulty = difficulty;
  tags = take 1000 tags;
  solved = false;
  eligible = false;
  last_attempted = none;
  times_attempted = 0;
  verified_solved = false;
  attempt_baseline_count = 0;
  attempt_baseline_last = none;
  created_at = now;
  updated_at = now;
}

unfoldable pub ensure_problem : Clock → Text → Option Text → Option Text → Text → Exec (Unit {0})
ensure_problem clock slug title difficulty tags db =
    let normalized_title = strip (or_else title []) in
    let normalized_difficulty = lower (or_else difficulty []) in
    let row = started_problem clock.now slug normalized_title normalized_difficulty tags in
    if is_some (find_problem slug db)
    then (ok tt, db)
    else if is_empty normalized_title || not (is_difficulty normalized_difficulty)
    then (err value_error, db)
    else (ok tt, record db { problems = db.problems ++ row ∷ [] })

unfoldable pub ensure_review : Clock → ℤ → Text → Exec PendingReview
ensure_review clock chat_id slug db =
    let row = direct_review clock chat_id slug in
    elim (open_review_for chat_id slug db) [
      | some review ↦ (ok review, db)
      | none ↦ (ok (row db.reviews.next_id), record db { reviews = insert row db.reviews })
    ]

unfoldable pub start_problem :
    Clock → ℤ → Text → Option Text → Option Text → Text → Exec PendingReview
start_problem clock chat_id slug title difficulty tags = do
  ensure_problem clock slug title difficulty tags
  ensure_review clock chat_id slug
