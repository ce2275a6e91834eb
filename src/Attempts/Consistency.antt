-- ===== src/Attempts/Consistency.antt =====
-- Counting an attempt and recomputing from all attempts agree: `_persist_attempt` against
-- `_recompute_problem` (src/leetcode_coach/domain/services.py).
use leetcode_coach_service.Base.{
  ◌+◌, true, false, Option, none, some, List, [], ◌∷◌, ◌++◌, ◌||◌, ◌≡◌, refl, ap, if◌then◌else◌,
  ◌==◌, length, length-append, select-snoc, any-append, update, arith, All, Bool-cases, inl, inr,
}
use leetcode_coach_service.Text.{Text, text_eq, text_beq_iff}
use leetcode_coach_service.Calendar.{Date, later}
use leetcode_coach_service.Model.{Attempt, Problem, solved}
use leetcode_coach_service.Attempts.Outcomes.{is_outcome}
use leetcode_coach_service.Attempts.Counting.{
  later_of, count_attempt, is_active, active, latest, optional, attempt_dates, any_solved,
}

-- The counters of `p` are those that a recomputation from the attempts would give.
pub record IsCounted (attempts : List Attempt) (p : Problem) : Type 0 where
  pub times : p.times_attempted ≡ p.attempt_baseline_count + length (active p.slug attempts)
  pub last :
      p.last_attempted
      ≡ latest none (attempt_dates (active p.slug attempts) ++ optional p.attempt_baseline_last)
  pub flag : p.solved ≡ (p.verified_solved || any_solved (active p.slug attempts))

later_of_comm :
    (o : Option Date) (d e : Date) → later_of (later_of o d) e ≡ later_of (later_of o e) d
unfolding later
later_of_comm none d e = ground arith
later_of_comm (some a) d e = ground arith

latest-later_of :
    (o : Option Date) (d : Date) (ds : List Date)
    → latest (later_of o d) ds ≡ later_of (latest o ds) d
unfolding latest
latest-later_of o d [] = refl
latest-later_of o d (e ∷ ds) = rw (later_of_comm o d e) (latest-later_of (later_of o e) d ds)

-- One more date, in front of the last ones, is compared last.
latest-middle :
    (o : Option Date) (xs ys : List Date) (d : Date)
    → latest o ((xs ++ d ∷ []) ++ ys) ≡ later_of (latest o (xs ++ ys)) d
unfolding latest
latest-middle o [] ys d = latest-later_of o d ys
latest-middle o (x ∷ xs) ys d = latest-middle (later_of o x) xs ys d

attempt_dates-snoc :
    (xs : List Attempt) (a : Attempt)
    → attempt_dates (xs ++ a ∷ []) ≡ attempt_dates xs ++ a.attempted_on ∷ []
attempt_dates-snoc [] a = refl
attempt_dates-snoc (x ∷ xs) a = ap (λ r. x.attempted_on ∷ r) (attempt_dates-snoc xs a)

-- The active attempts behind an insert.
active-snoc :
    (slug : Text) (rows : List Attempt) (a : Attempt)
    → active slug (rows ++ a ∷ [])
      ≡ (if is_active slug a then active slug rows ++ a ∷ [] else active slug rows)
unfolding active
active-snoc slug rows a = select-snoc (is_active slug) rows a

module _ (rows : List Attempt) (a : Attempt) (fresh : a.reversed_at ≡ none) where
  -- An attempt at another problem changes nothing.
  other_IsCounted :
      (p : Problem)
      → (p.slug == a.problem_slug) ≡ false
      → IsCounted rows p
      → IsCounted (rows ++ a ∷ []) p
  other_IsCounted p ne h =
      let e : active p.slug (rows ++ a ∷ []) ≡ active p.slug rows = ground (
        arith,
        active-snoc p.slug rows a,
        text_beq_iff p.slug a.problem_slug,
        text_beq_iff a.problem_slug p.slug,
      ) in
      record { times = rw e h.times; last = rw e h.last; flag = rw e h.flag }

  -- Counting an attempt at this problem.
  same_IsCounted :
      (p : Problem)
      → (p.slug == a.problem_slug) ≡ true
      → IsCounted rows p
      → IsCounted (rows ++ a ∷ []) (count_attempt a.attempted_on a.outcome p)
  unfolding count_attempt
  same_IsCounted p eq h =
      let e : active p.slug (rows ++ a ∷ []) ≡ active p.slug rows ++ a ∷ [] = ground (
        arith,
        active-snoc p.slug rows a,
        text_beq_iff p.slug a.problem_slug,
        text_beq_iff a.problem_slug p.slug,
      ) in
      record {
        times = rw e (omega (arith, h.times, length-append {0} (active p.slug rows) (a ∷ [])));
        last =
            rw (e, attempt_dates-snoc, latest-middle) (ap (λ o. later_of o a.attempted_on) h.last);
        flag = rw e (
            ground (
              arith,
              h.flag,
              any-append (λ (b : Attempt). is_outcome solved b.outcome) (active p.slug rows)
                  (a ∷ []),
            ));
      }

  count_attempt-IsCounted :
      (p : Problem)
      → IsCounted rows p
      → IsCounted
          (rows ++ a ∷ [])
          (if p.slug == a.problem_slug then count_attempt a.attempted_on a.outcome p else p)
  count_attempt-IsCounted p h = elim (Bool-cases (p.slug == a.problem_slug)) [
    | inl eq ↦ rw eq (same_IsCounted p eq h)
    | inr ne ↦ rw ne (other_IsCounted p ne h)
  ]

  -- All problems stay counted when the attempt is added and its problem's counters are updated.
  pub add_attempt-IsCounted :
      (problems : List Problem)
      → All (IsCounted rows) problems
      → All (IsCounted (rows ++ a ∷ [])) (
          update
            (λ (p : Problem). p.slug == a.problem_slug)
            (count_attempt a.attempted_on a.outcome)
            problems)
  add_attempt-IsCounted [] h = tt
  add_attempt-IsCounted (p ∷ ps) h = (count_attempt-IsCounted p h.0, add_attempt-IsCounted ps h.1)
