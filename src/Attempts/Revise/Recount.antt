-- ===== src/Attempts/Revise/Recount.antt =====
-- Rewriting one attempt and recomputing its problem.
use leetcode_coach_service.Base.{
  ℕ, true, false, none, some, List, [], ◌∷◌, ◌≡◌, refl, if◌then◌else◌, ◌==◌, nat_eq, first, update,
  arith, All, Bool-cases, inl, inr, ⊤, nat_beq_iff, int_eq, subst,
}
use leetcode_coach_service.Text.{Text, text_eq, text_beq_iff}
use leetcode_coach_service.Model.{Attempt, Problem}
use leetcode_coach_service.Store.Rows.{Unique}
use leetcode_coach_service.Attempts.Counting.{active, recomputed}
use leetcode_coach_service.Attempts.Consistency.{IsCounted}

-- Rows that carry the id `k` are attempts at the problem `slug`.
abbrev pub IdIsFor : ℕ → Text → List Attempt → Type 0
IdIsFor k slug [] = ⊤
IdIsFor k slug (b ∷ rows) = ((b.id == k) ≡ true → b.problem_slug ≡ slug) × IdIsFor k slug rows

absent_IdIsFor :
    (k : ℕ) (slug : Text) (rows : List Attempt)
    → first (λ (a : Attempt). a.id == k) rows ≡ none
    → IdIsFor k slug rows
absent_IdIsFor k slug [] h = tt
absent_IdIsFor k slug (b ∷ rows) h = (ground arith, absent_IdIsFor k slug rows (ground arith))

-- With unique ids, the row that a query by id finds is the only one.
pub found_IdIsFor :
    (k : ℕ) (a : Attempt) (rows : List Attempt)
    → Unique (λ (b : Attempt). b.id) rows
    → first (λ (b : Attempt). b.id == k) rows ≡ some a
    → IdIsFor k a.problem_slug rows
found_IdIsFor k a [] u h = tt
found_IdIsFor k a (b ∷ rows) u h = elim (Bool-cases (b.id == k)) [
  | inl eq ↦ (
    λ _. ground arith,
    absent_IdIsFor k a.problem_slug rows (
        subst (λ (j : ℕ). first (λ (r : Attempt). r.id == j) rows ≡ none)
          ((nat_beq_iff b.id k).0 eq) u.0),
  )
  | inr ne ↦ (λ e. ground arith, found_IdIsFor k a rows u.1 (ground arith))
]

-- Rewriting an attempt at one problem leaves the active attempts at the others.
active-update_other :
    (k : ℕ) (slug other : Text) (f : Attempt → Attempt) (rows : List Attempt)
    → ((a : Attempt) → (f a).problem_slug ≡ a.problem_slug)
    → IdIsFor k slug rows
    → (slug == other) ≡ false
    → active other (update (λ (a : Attempt). a.id == k) f rows) ≡ active other rows
unfolding active
active-update_other k slug other f [] keep h ne = refl
active-update_other k slug other f (b ∷ rows) keep h ne =
    ground (arith, keep b, active-update_other k slug other f rows keep h.1 ne)

-- Recomputing makes a problem's counters right, whatever they were.
recomputed-IsCounted :
    (now : ℕ) (rows : List Attempt) (p : Problem)
    → IsCounted rows (recomputed now (active p.slug rows) p)
unfolding recomputed
recomputed-IsCounted now rows p = record { times = refl; last = refl; flag = refl }

module _ (now k : ℕ) (slug : Text) (f : Attempt → Attempt) (rows : List Attempt)
    (keep : (a : Attempt) → (f a).problem_slug ≡ a.problem_slug) (only : IdIsFor k slug rows) where
  abbrev rewritten : List Attempt
  rewritten = update (λ (a : Attempt). a.id == k) f rows

  recount_one :
      (p : Problem)
      → IsCounted rows p
      → IsCounted rewritten (if p.slug == slug then recomputed now (active slug rewritten) p else p)
  recount_one p h = elim (Bool-cases (p.slug == slug)) [
    | inl eq ↦ rw eq (
        subst (λ (s : Text). IsCounted rewritten (recomputed now (active s rewritten) p))
          ((text_beq_iff p.slug slug).0 eq) (recomputed-IsCounted now rewritten p))
    | inr ne ↦
        let other : (slug == p.slug) ≡ false =
          ground (arith, ne, text_beq_iff slug p.slug, text_beq_iff p.slug slug) in
        let same = active-update_other k slug p.slug f rows keep only other in
        rw ne (record { times = rw same h.times; last = rw same h.last; flag = rw same h.flag })
  ]

  -- Rewriting one attempt and recomputing its problem leaves all problems counted.
  pub recount :
      (problems : List Problem)
      → All (IsCounted rows) problems
      → All (IsCounted rewritten) (
          update
            (λ (p : Problem). p.slug == slug)
            (recomputed now (active slug rewritten))
            problems)
  recount [] h = tt
  recount (p ∷ ps) h = (recount_one p h.0, recount ps h.1)
