-- ===== src/Adapter/Lookup.antt =====
-- `get_problem` and `get_open_queue` of src/leetcode_coach/runtime/adapters.py.
use leetcode_coach_service.Base.{
  ℕ, false, Option, none, some, List, [], ◌∷◌, ◌++◌, ◌&&◌, ◌==◌, ℤ, int_eq, select, map, not,
  if◌then◌else◌,
}
use leetcode_coach_service.Text.{Text}
use leetcode_coach_service.Calendar.{Clock}
use leetcode_coach_service.Model.{Problem, PendingReview, is_open_review}
use leetcode_coach_service.Store.{Db, Exec, ok, err, value_error}
use leetcode_coach_service.Attempts.{find_problem}
use leetcode_coach_service.Jobs.{ProblemRecord, new_problem}
use leetcode_coach_service.Leetcode.{Url, Question, exact_problem_slug, fetch_exact_problem}
use leetcode_coach_service.Adapter.{ProblemView, problem_view, ReviewView, review_view}
use leetcode_coach_service.Adapter.Search.{is_difficulty}

abbrev pub looked_up : ℕ → ProblemRecord → Problem
looked_up now r = record (new_problem now r) { eligible = false }

-- `cache`
unfoldable pub cache_problem : Clock → ProblemRecord → Exec ProblemView
unfolding problem_view
cache_problem clock r db = elim (find_problem r.slug db) [
  | some problem ↦ (ok (problem_view problem), db)
  | none ↦
      let row = looked_up clock.now r in
      if not (is_difficulty r.difficulty)
      then (err value_error, db)
      else (ok (problem_view row), record db { problems = db.problems ++ row ∷ [] })
]

-- A problem that is not stored is fetched and stored, as not eligible. `search` is what LeetCode
-- answers to keywords.
unfoldable pub get_problem :
    (Text → Url) → (Text → Option (List Question)) → Clock → Text → Exec ProblemView
unfolding cache_problem exact_problem_slug fetch_exact_problem
get_problem urlparse search clock slug db = elim (exact_problem_slug urlparse slug) [
  | none ↦ (err value_error, db)
  | some normalized ↦ elim (find_problem normalized db) [
    | some problem ↦ (ok (problem_view problem), db)
    | none ↦ elim (fetch_exact_problem urlparse search slug) [
      | none ↦ (err value_error, db)
      | some r ↦ cache_problem clock r db
    ]
  ]
]

unfoldable pub get_open_queue : ℤ → Db → List ReviewView
unfolding review_view
get_open_queue chat_id db = map review_view (
    select (λ (r : PendingReview). r.chat_id == chat_id && is_open_review r.status) db.reviews.rows)
