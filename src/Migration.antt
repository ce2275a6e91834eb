-- ===== src/Migration.antt =====
-- The import of the legacy schema: src/leetcode_coach/domain/migration.py. A table that the source
-- lacks is an empty list, a missing or null column `none`.
pub mod Rerun
pub mod Baselines
use leetcode_coach_service.Base.{
  ℕ, zero, suc, ◌+◌, ◌-◌, Bool, true, false, Option, none, some, List, [], ◌∷◌, ◌++◌, ◌&&◌, ◌||◌,
  if◌then◌else◌, ◌==◌, ℤ, nat_eq, Eq, first, select, update, any, length, map, or_else, is_some,
  not,
}
use leetcode_coach_service.Text.{Text, codes, text_eq, lower, is_empty}
use leetcode_coach_service.Calendar.{Clock, Date, date_ltb}
use leetcode_coach_service.Model.{Problem, Attempt, Lesson}
use leetcode_coach_service.Store.{Db, Table, insert}
use leetcode_coach_service.Attempts.Counting.{latest, attempt_dates}
use leetcode_coach_service.Jobs.{has_slug}
use leetcode_coach_service.Lesson.{text_or}

pub record LegacyProblem : Type 0 where
  pub slug : Text
  pub title : Text
  pub url : Text
  pub difficulty : Text
  pub tags : Option Text
  pub solved : Bool
  pub last_attempted : Option Date
  pub times_attempted : Option ℕ

pub record LegacyLog : Type 0 where
  pub id : ℕ
  pub problem_slug : Text
  pub date : Option Date
  pub status : Option Text
  pub tutor_feedback : Option Text
  pub time_spent_min : Option ℕ

pub record LegacyLesson : Type 0 where
  pub id : ℕ
  pub title : Text
  pub category : Option Text
  pub active : Bool
  pub times_reinforced : Option ℕ
  pub created_at : Option Date

-- The eight values that an import sets.
abbrev pub with_values : LegacyProblem → Problem → Problem
with_values row p = record p {
  title = row.title;
  url = row.url;
  difficulty = lower row.difficulty;
  tags = or_else row.tags [];
  solved = row.solved;
  last_attempted = row.last_attempted;
  times_attempted = or_else row.times_attempted 0;
  verified_solved = row.solved;
}

abbrev pub blank_problem : ℕ → Text → Problem
blank_problem now slug = record {
  slug = slug;
  title = [];
  url = [];
  difficulty = [];
  tags = [];
  solved = false;
  eligible = true;
  last_attempted = none;
  times_attempted = 0;
  verified_solved = false;
  attempt_baseline_count = 0;
  attempt_baseline_last = none;
  created_at = now;
  updated_at = now;
}

unfoldable pub import_problem : ℕ → LegacyProblem → List Problem → List Problem
import_problem now row problems = elim (first (has_slug row.slug) problems) [
  | none ↦ problems ++ with_values row (blank_problem now row.slug) ∷ []
  | some existing ↦ update (has_slug row.slug) (with_values row) problems
]

unfoldable pub import_problems : ℕ → List LegacyProblem → List Problem → List Problem
unfolding import_problem
import_problems now [] problems = problems
import_problems now (row ∷ rows) problems =
    import_problems now rows (import_problem now row problems)

abbrev pub is_legacy_attempt : ℕ → Attempt → Bool
is_legacy_attempt id a = elim a.legacy_attempt_id [ none ↦ false | some n ↦ n == id ]

abbrev pub imported_attempt : Clock → ℤ → LegacyLog → ℕ → Attempt
imported_attempt clock chat_id row id = record {
  id = id;
  legacy_attempt_id = some row.id;
  chat_id = chat_id;
  review_id = none;
  problem_slug = row.problem_slug;
  attempted_on = or_else row.date clock.today;
  outcome = text_or row.status (codes "reviewed");
  feedback = or_else row.tutor_feedback [];
  time_spent_min = row.time_spent_min;
  language = none;
  solution_summary = [];
  reversed_at = none;
  created_at = clock.now;
  updated_at = clock.now;
}

-- The table, and how many rows came in.
unfoldable pub import_logs : Clock → ℤ → List LegacyLog → Table Attempt → ℕ × Table Attempt
import_logs clock chat_id [] t = (0, t)
import_logs clock chat_id (row ∷ rows) t =
    let is_there = any (is_legacy_attempt row.id) t.rows in
    let (n, t') =
      import_logs clock chat_id rows
        (if is_there then t else insert (imported_attempt clock chat_id row) t) in
    (if is_there then n else suc n, t')

-- The baselines of a problem, from all attempts at it.
unfoldable pub baselined : List Attempt → Problem → Problem
baselined attempts p =
    let latest_attempt = latest none (attempt_dates attempts) in
    record p {
      attempt_baseline_count = p.times_attempted - length attempts;
      attempt_baseline_last = elim p.last_attempted [
        | none ↦ none
        | some last ↦ elim latest_attempt [
          | none ↦ some last
          | some attempted ↦ if date_ltb attempted last then some last else none
        ]
      ];
    }

-- `for slug in imported_slugs`
unfoldable pub set_baselines : List Text → List Attempt → List Problem → List Problem
unfolding baselined
set_baselines [] attempts problems = problems
set_baselines (slug ∷ slugs) attempts problems = set_baselines slugs attempts (
    update (has_slug slug) (baselined (select (λ (a : Attempt). a.problem_slug == slug) attempts))
      problems)

abbrev pub is_legacy_lesson : ℕ → Lesson → Bool
is_legacy_lesson id l = elim l.legacy_lesson_id [ none ↦ false | some n ↦ n == id ]

-- `int(value or 1)`
abbrev pub one_or : Option ℕ → ℕ
one_or none = 1
one_or (some zero) = 1
one_or (some (suc n)) = suc n

abbrev pub imported_lesson : Clock → ℤ → LegacyLesson → ℕ → Lesson
imported_lesson clock chat_id row id = record {
  id = id;
  legacy_lesson_id = some row.id;
  chat_id = chat_id;
  title = row.title;
  category = text_or row.category (codes "general");
  active = row.active;
  times_reinforced = one_or row.times_reinforced;
  created_at = or_else row.created_at clock.today;
  updated_at = clock.now;
}

unfoldable pub import_lessons : Clock → ℤ → List LegacyLesson → Table Lesson → ℕ × Table Lesson
import_lessons clock chat_id [] t = (0, t)
import_lessons clock chat_id (row ∷ rows) t =
    let is_there = any (is_legacy_lesson row.id) t.rows in
    let (n, t') =
      import_lessons clock chat_id rows
        (if is_there then t else insert (imported_lesson clock chat_id row) t) in
    (if is_there then n else suc n, t')

pub record Counts : Type 0 where
  pub problems : ℕ
  pub attempts : ℕ
  pub lessons : ℕ

unfoldable pub import_learning_data :
    Clock → ℤ → List LegacyProblem → List LegacyLog → List LegacyLesson → Db → Counts × Db
unfolding import_problems import_logs set_baselines import_lessons
import_learning_data clock chat_id problems logs lessons db =
    let (n, attempts) = import_logs clock chat_id logs db.attempts in
    let (m, lesson_table) = import_lessons clock chat_id lessons db.lessons in
    (
      record { problems = length problems; attempts = n; lessons = m },
      record db {
        problems =
            set_baselines (map (λ (p : LegacyProblem). p.slug) problems) attempts.rows
              (import_problems clock.now problems db.problems);
        attempts = attempts;
        lessons = lesson_table;
      },
    )
