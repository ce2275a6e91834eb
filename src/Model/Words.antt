-- ===== src/Model/Words.antt =====
-- The enumerations of db/models.py, and the words that the outcome and status columns hold.
use leetcode_coach_service.Base.{
  ◌≡◌, refl, Bool, true, false, ◌==◌, Option, none, some, if◌then◌else◌,
}
use leetcode_coach_service.Text.{Text, codes, text_eq, text_beq}

pub data ProposalStatus : Type 0 where
  open_batch picked expired_batch cancelled_batch : ProposalStatus

pub data CandidateStatus : Type 0 where
  available selected cancelled_candidate : CandidateStatus

pub data ReviewStatus : Type 0 where
  open_review done skipped_review saw_solution_review expired_review : ReviewStatus

abbrev pub is_open_batch : ProposalStatus → Bool
is_open_batch open_batch = true
is_open_batch _ = false

abbrev pub is_picked : ProposalStatus → Bool
is_picked picked = true
is_picked _ = false

abbrev pub is_expired_batch : ProposalStatus → Bool
is_expired_batch expired_batch = true
is_expired_batch _ = false

abbrev pub is_available : CandidateStatus → Bool
is_available available = true
is_available _ = false

abbrev pub is_open_review : ReviewStatus → Bool
is_open_review open_review = true
is_open_review _ = false

-- The outcomes of an attempt, as `_validate_outcome` lists them.
pub data Outcome : Type 0 where
  solved reviewed saw_solution attempted skipped : Outcome

unfoldable pub outcome_text : Outcome → Text
outcome_text solved = codes "solved"
outcome_text reviewed = codes "reviewed"
outcome_text saw_solution = codes "saw_solution"
outcome_text attempted = codes "attempted"
outcome_text skipped = codes "skipped"

-- The outcome that a word names, if it names one.
unfoldable pub parse_outcome : Text → Option Outcome
parse_outcome t =
    if t == outcome_text solved
    then some solved
    else if t == outcome_text reviewed
    then some reviewed
    else if t == outcome_text saw_solution
    then some saw_solution
    else if t == outcome_text attempted
    then some attempted
    else if t == outcome_text skipped
    then some skipped
    else none

pub parse_outcome-outcome_text : (o : Outcome) → parse_outcome (outcome_text o) ≡ some o
unfolding parse_outcome outcome_text text_beq
parse_outcome-outcome_text solved = refl
parse_outcome-outcome_text reviewed = refl
parse_outcome-outcome_text saw_solution = refl
parse_outcome-outcome_text attempted = refl
parse_outcome-outcome_text skipped = refl
