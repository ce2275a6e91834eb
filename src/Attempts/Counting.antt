-- ===== src/Attempts/Counting.antt =====
-- The counters of a problem: updated with one attempt (`_persist_attempt`), and computed anew
-- from all of them (`_recompute_problem`), in src/leetcode_coach/domain/services.py.
use leetcode_coach_service.Base.{
  ℕ, ◌+◌, Bool, true, Option, none, some, List, [], ◌∷◌, ◌++◌, ◌&&◌, ◌||◌, if◌then◌else◌, ◌==◌, map,
  length, select, any, is_some, not, first, update,
}
use leetcode_coach_service.Text.{Text, text_eq}
use leetcode_coach_service.Calendar.{Date, later}
use leetcode_coach_service.Model.{Attempt, Problem, solved}
use leetcode_coach_service.Store.{Exec, ok, err, assertion_error}
use leetcode_coach_service.Attempts.Outcomes.{is_outcome}

-- The later of a date, if there is one, and another.
abbrev pub later_of : Option Date → Date → Option Date
later_of none d = some d
later_of (some a) d = some (later a d)

-- `if last is None or effective_on > last: last = effective_on`, with the count and the flag.
unfoldable pub count_attempt : Date → Text → Problem → Problem
count_attempt effective_on outcome p = record p {
  times_attempted = p.times_attempted + 1;
  last_attempted = later_of p.last_attempted effective_on;
  solved = if is_outcome solved outcome then true else p.solved;
}

-- `where(problem_slug == slug, reversed_at == None)`
abbrev pub is_active : Text → Attempt → Bool
is_active slug a = a.problem_slug == slug && not (is_some a.reversed_at)

unfoldable pub active : Text → List Attempt → List Attempt
active slug rows = select (is_active slug) rows

-- `max(dates) if dates else None`, behind the date `acc`.
unfoldable pub latest : Option Date → List Date → Option Date
latest acc [] = acc
latest acc (d ∷ ds) = latest (later_of acc d) ds

abbrev pub optional : Option Date → List Date
optional none = []
optional (some d) = d ∷ []

abbrev pub attempt_dates : List Attempt → List Date
attempt_dates = map (λ (a : Attempt). a.attempted_on)

abbrev pub any_solved : List Attempt → Bool
any_solved = any (λ (a : Attempt). is_outcome solved a.outcome)

unfoldable pub recomputed : ℕ → List Attempt → Problem → Problem
unfolding latest
recomputed now attempts p = record p {
  times_attempted = p.attempt_baseline_count + length attempts;
  last_attempted = latest none (attempt_dates attempts ++ optional p.attempt_baseline_last);
  solved = p.verified_solved || any_solved attempts;
  updated_at = now;
}

unfoldable pub recompute_problem : ℕ → Text → Exec (Unit {0})
unfolding active recomputed
recompute_problem now slug db = elim (first (λ (p : Problem). p.slug == slug) db.problems) [
  | none ↦ (err assertion_error, db)
  | some p ↦ (
    ok tt,
    record db {
      problems =
          update (λ (p : Problem). p.slug == slug) (recomputed now (active slug db.attempts.rows))
            db.problems;
    },
  )
]
