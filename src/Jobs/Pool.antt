-- ===== src/Jobs/Pool.antt =====
-- What a refresh of the problem pool does to the problems.
use leetcode_coach_service.Base.{
  ℕ, true, none, some, List, [], ◌∷◌, if◌then◌else◌, ◌==◌, first, All, ◌≡◌, ◌≢◌, ◌∙◌, refl, sym,
  subst, Bool-cases, arith, Option-cases, inl, inr,
}
use leetcode_coach_service.Text.{Text, text_eq, text_beq_iff}
use leetcode_coach_service.Text.Laws.{text_beq_refl}
use leetcode_coach_service.Model.{Problem}
use leetcode_coach_service.Store.{Db}
use leetcode_coach_service.Store.Rows.{first-append, first-append_found, first-update, first-some}
use leetcode_coach_service.Jobs.{
  ProblemRecord, described, new_problem, has_slug, put_problem, put_problems, unmarked,
  marked_solved, refresh_problem_pool,
}

-- A mark of a record keeps the slug of the row.
abbrev pub KeepsSlug : (Problem → Problem) → Type 0
KeepsSlug mark = (p : Problem) → (mark p).slug ≡ p.slug

-- A row with two slugs: the slugs are the same.
clash :
    (slug other : Text) (p : Problem) (problems : List Problem)
    → first (has_slug slug) problems ≡ some p
    → (p.slug == other) ≡ true
    → first (has_slug other) problems ≢ none
clash slug other p problems found same missing =
    let key : slug ≡ other =
      sym ((text_beq_iff p.slug slug).0 (first-some (has_slug slug) problems p found))
      ∙ (text_beq_iff p.slug other).0 same in
    let there : first (has_slug other) problems ≡ some p =
      subst (λ k. first (has_slug k) problems ≡ some p) key found in
    cc

-- The row of a slug after a record's round.
put_problem_found :
    (now : ℕ) (mark : Problem → Problem) (r : ProblemRecord) (slug : Text) (p : Problem)
    (problems : List Problem)
    → KeepsSlug mark
    → first (has_slug slug) problems ≡ some p
    → first (has_slug slug) (put_problem now mark r problems)
      ≡ some (if p.slug == r.slug then mark (described r p) else p)
unfolding put_problem
put_problem_found now mark r slug p problems keep found =
    elim (Option-cases (first (has_slug r.slug) problems)) [
      | inl missing ↦ elim (Bool-cases (p.slug == r.slug)) [
        | inl same ↦ absurd (clash slug r.slug p problems found same missing)
        | inr other ↦ ground (
          arith,
          missing,
          other,
          first-append_found (has_slug slug) problems (mark (new_problem now r) ∷ []) p found,
        )
      ]
      | inr (old, here) ↦ ground (
        arith,
        here,
        first-update (has_slug slug) (has_slug r.slug) (λ p. mark (described r p)) problems
            (λ p. rw (keep (described r p))),
      )
    ]

-- A relation between the row of a slug before and after, that every round keeps.
module _ (now : ℕ) (mark : Problem → Problem) (keep : KeepsSlug mark) (P : Problem → Type 0)
    (step : (r : ProblemRecord) (p : Problem) → P p → P (mark (described r p))) where
  put_problem_keeps :
      (r : ProblemRecord) (slug : Text) (p : Problem) (problems : List Problem)
      → first (has_slug slug) problems ≡ some p
      → P p
      → (q : Problem) × (first (has_slug slug) (put_problem now mark r problems) ≡ some q) × P q
  put_problem_keeps r slug p problems found h =
      let found' = put_problem_found now mark r slug p problems keep found in
      elim (Bool-cases (p.slug == r.slug)) [
        | inl hit ↦ (mark (described r p), rw (found', hit), step r p h)
        | inr missed ↦ (p, rw (found', missed), h)
      ]

  put_problems_keeps :
      (rs : List ProblemRecord) (slug : Text) (p : Problem) (problems : List Problem)
      → first (has_slug slug) problems ≡ some p
      → P p
      → (q : Problem) × (first (has_slug slug) (put_problems now mark rs problems) ≡ some q) × P q
  unfolding put_problems
  put_problems_keeps [] slug p problems found h = (p, found, h)
  put_problems_keeps (r ∷ rs) slug p problems found h =
      let (q, found', h') = put_problem_keeps r slug p problems found h in
      put_problems_keeps rs slug q (put_problem now mark r problems) found' h'

-- The problem of a slug is there and solved, by LeetCode's own account.
abbrev pub IsVerified : List Problem → Text → Type 0
IsVerified problems slug =
    (p : Problem) × (first (has_slug slug) problems ≡ some p)
    × (p.solved ≡ true)
    × (p.verified_solved ≡ true)

put_problem-IsVerified :
    (now : ℕ) (r : ProblemRecord) (problems : List Problem)
    → IsVerified (put_problem now marked_solved r problems) r.slug
unfolding put_problem
put_problem-IsVerified now r problems = elim (Option-cases (first (has_slug r.slug) problems)) [
  | inl missing ↦ (
    marked_solved (new_problem now r),
    ground (
      arith,
      missing,
      first-append (has_slug r.slug) problems (marked_solved (new_problem now r)),
      text_beq_refl r.slug,
    ),
    refl,
    refl,
  )
  | inr (p, found) ↦ (
    marked_solved (described r p),
    ground (
      arith,
      found,
      first-update (has_slug r.slug) (has_slug r.slug) (λ p. marked_solved (described r p)) problems
          (λ _. refl),
      first-some (has_slug r.slug) problems p found,
    ),
    refl,
    refl,
  )
]

put_problems-IsVerified :
    (now : ℕ) (rs : List ProblemRecord) (problems : List Problem)
    → All (λ (r : ProblemRecord). IsVerified (put_problems now marked_solved rs problems) r.slug) rs
unfolding put_problems
put_problems-IsVerified now [] problems = tt
put_problems-IsVerified now (r ∷ rs) problems =
    let (p, found, flag, verified) = put_problem-IsVerified now r problems in
    let (q, there, (flag', verified')) =
      put_problems_keeps now marked_solved (λ _. refl)
        (λ q. (q.solved ≡ true) × (q.verified_solved ≡ true)) (λ _ _ _. (refl, refl)) rs r.slug p
        (put_problem now marked_solved r problems) found (flag, verified) in
    (
      (q, there, flag', verified'),
      put_problems-IsVerified now rs (put_problem now marked_solved r problems),
    )

-- The learner's own history of a problem.
abbrev pub SameHistory : Problem → Problem → Type 0
SameHistory p q =
    (q.times_attempted ≡ p.times_attempted)
    × (q.last_attempted ≡ p.last_attempted)
    × (q.eligible ≡ p.eligible)
    × (q.attempt_baseline_count ≡ p.attempt_baseline_count)
    × (q.attempt_baseline_last ≡ p.attempt_baseline_last)

-- The problems hold one of a slug, with the history of `p`.
abbrev pub IsContinued : Problem → Text → List Problem → Type 0
IsContinued p slug problems =
    (q : Problem) × (first (has_slug slug) problems ≡ some q) × SameHistory p q

-- After a refresh every problem that LeetCode lists as solved is there and is solved and verified.
pub refresh_problem_pool-IsVerified :
    (now : ℕ) (pool_records solved_records : List ProblemRecord) (db : Db)
    → All
        (λ (r : ProblemRecord).
          IsVerified (refresh_problem_pool now pool_records solved_records db).problems r.slug)
        solved_records
unfolding refresh_problem_pool
refresh_problem_pool-IsVerified now pool_records solved_records db =
    put_problems-IsVerified now solved_records (put_problems now unmarked pool_records db.problems)

-- A refresh removes no problem and leaves the attempt history of every problem, its eligibility
-- and its baselines as they were, whatever LeetCode answers.
pub refresh_problem_pool_history :
    (now : ℕ) (pool_records solved_records : List ProblemRecord) (db : Db) (slug : Text)
    (p : Problem)
    → first (has_slug slug) db.problems ≡ some p
    → IsContinued p slug (refresh_problem_pool now pool_records solved_records db).problems
unfolding refresh_problem_pool
refresh_problem_pool_history now pool_records solved_records db slug p found =
    let (q, found', same) =
      put_problems_keeps now unmarked (λ _. refl) (SameHistory p) (λ _ _ h. h) pool_records slug p
        db.problems found (refl, refl, refl, refl, refl) in
    put_problems_keeps now marked_solved (λ _. refl) (SameHistory p) (λ _ _ h. h) solved_records
      slug q (put_problems now unmarked pool_records db.problems) found' same
