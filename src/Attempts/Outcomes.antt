-- ===== src/Attempts/Outcomes.antt =====
-- The tables of `CoachDomain` over outcomes: `_validate_outcome`, `_outcome_credit`,
-- `_review_status` (src/leetcode_coach/domain/services.py). `none` is a `KeyError`.
use leetcode_coach_service.Base.{
  Bool, Option, none, some, ◌==◌, ℤ, pos, not, ⊤, is_some, ◌≡◌, arith,
}
use leetcode_coach_service.Text.{Text, text_eq, text_beq_iff}
use leetcode_coach_service.Model.{
  Outcome, solved, reviewed, saw_solution, attempted, skipped, outcome_text, parse_outcome,
  ReviewStatus, open_review, done, skipped_review, saw_solution_review,
}
use leetcode_coach_service.Store.{Exec, raise_if, invalid_outcome}

-- `outcome == "..."`
abbrev pub is_outcome : Outcome → Text → Bool
is_outcome o t = t == outcome_text o

abbrev pub credit_table : Outcome → ℤ
credit_table solved = pos 100
credit_table reviewed = pos 50
credit_table saw_solution = pos 25
credit_table attempted = pos 0
credit_table skipped = pos 0

abbrev pub status_table : Outcome → ReviewStatus
status_table solved = done
status_table reviewed = done
status_table saw_solution = saw_solution_review
status_table attempted = open_review
status_table skipped = skipped_review

abbrev pub on_outcome {ℓ} : {A : Type ℓ} → (Outcome → A) → Option Outcome → Option A
on_outcome f none = none
on_outcome f (some o) = some (f o)

unfoldable pub outcome_credit : Text → Option ℤ
outcome_credit t = on_outcome credit_table (parse_outcome t)

unfoldable pub review_status : Text → Option ReviewStatus
review_status t = on_outcome status_table (parse_outcome t)

unfoldable pub validate_outcome : Text → Exec ⊤
validate_outcome t = raise_if (not (is_some (parse_outcome t))) invalid_outcome

-- A word that names an outcome is the word of that outcome.
pub parse_outcome_sound : (t : Text) (o : Outcome) → parse_outcome t ≡ some o → t ≡ outcome_text o
unfolding parse_outcome
parse_outcome_sound t solved h = ground (arith, text_beq_iff t (outcome_text solved))
parse_outcome_sound t reviewed h = ground (arith, text_beq_iff t (outcome_text reviewed))
parse_outcome_sound t saw_solution h = ground (arith, text_beq_iff t (outcome_text saw_solution))
parse_outcome_sound t attempted h = ground (arith, text_beq_iff t (outcome_text attempted))
parse_outcome_sound t skipped h = ground (arith, text_beq_iff t (outcome_text skipped))
