-- ===== src/Tests/Proposing.antt =====
-- A proposal of two problems, its pick and its extension, and reviews closed by buttons.
use leetcode_coach_service.Base.{
  ◌==◌, Any, select, true, none, some, List, [], ◌∷◌, pos, ◌+ℤ◌, int_beq, ◌≡◌, refl, ◌++◌, ◌⊎◌, ◌≤◌,
  ◌+◌, All, length, nat_eq,
}
use leetcode_coach_service.Text.{Text, text_eq, codes, text_beq, is_space, lstrip, strip}
use leetcode_coach_service.Calendar.{hours}
use leetcode_coach_service.Store.{Db, ok, err}
use leetcode_coach_service.Credit.{add_credit, credit_balance, balance_of, sum_amounts}
use leetcode_coach_service.Tests.Fixtures.{clock, later_clock, chat, two_sum, db, review, problem}
use leetcode_coach_service.Store.{batch_closed, bad_picks}
use leetcode_coach_service.Model.{
  ProposalCandidate, PendingReview, ProposalBatch, open_batch, parse_outcome, outcome_text, done,
  saw_solution_review,
}
use leetcode_coach_service.BotStates.{operation_replayed}
use leetcode_coach_service.Lesson.{apply_lesson_delta}
use leetcode_coach_service.Attempts.{
  require_open, require_problem, persist_attempt, settle_review, log_attempt, add_attempt,
  book_attempt,
}
use leetcode_coach_service.Attempts.Outcomes.{outcome_credit, review_status}
use leetcode_coach_service.Proposals.{
  ProposalSelection, HydratedCandidate, distinct, hydrated, hydrate_from, hydrate_proposal,
  new_batch, add_candidates, add_batch, create_proposal, check_picks, take_picks, commit_picks,
  extended, extend_proposal, find_batch, stripped_slugs,
}
use leetcode_coach_service.Proposals.Hydration.{
  positions, count_from, slugs_of, notes_of, stripped_notes, ShowsRow, hydrate_proposal_lem,
}
use leetcode_coach_service.Proposals.Picks.{IsFrom, commit_picks_once}
use leetcode_coach_service.Store.Rows.{Unique}
use leetcode_coach_service.Proposals.Opening.{commit_picks_reviews}
use leetcode_coach_service.Proposals.Extension.{extend_proposal_lem}
use leetcode_coach_service.Reviews.{mark_solution_viewed, direct_review, reattempt_problem}
use leetcode_coach_service.Reviews.Closing.{mark_solution_viewed_credit}

abbrev selection : Text → ProposalSelection
selection slug = record {
  slug = slug;
  reasoning = codes "why";
  coaching_hint = codes "hint";
  title = none;
  difficulty = none;
  tags = [];
}

abbrev selections : List ProposalSelection
selections = selection (codes " two-sum") ∷ selection (codes "lru-cache") ∷ []

abbrev shown : List HydratedCandidate
shown =
    hydrated 1 (selection (codes " two-sum")) (problem two_sum)
    ∷ hydrated 2 (selection (codes "lru-cache")) (problem (codes "lru-cache"))
    ∷ []

previewed : hydrate_proposal none selections db ≡ (ok shown, db)
unfolding hydrate_proposal hydrate_from distinct strip lstrip is_space text_beq
previewed = refl

hydrate_proposal_lem_example :
    (positions shown ≡ count_from 1 selections)
    × (slugs_of shown ≡ stripped_slugs selections)
    × (notes_of shown ≡ stripped_notes selections)
    × (distinct (slugs_of shown) ≡ true)
    × All (ShowsRow db.problems) shown
    × (db ≡ db)
hydrate_proposal_lem_example = hydrate_proposal_lem none selections shown db db previewed

abbrev proposed : Db
proposed = (create_proposal clock chat selections none db).1

abbrev picks : List Text
picks = codes "lru-cache" ∷ []

abbrev batch : ProposalBatch
batch = new_batch clock chat (clock.now + hours 24) 1

abbrev reviews : List PendingReview
reviews =
    record review {
      id = 2;
      candidate_id = some 2;
      batch_id = some 1;
      problem_slug = codes "lru-cache";
      created_at = later_clock.now;
      updated_at = later_clock.now;
    }
    ∷ []

abbrev chosen : Db
chosen = (commit_picks later_clock chat 1 picks proposed).1

picked_one : commit_picks later_clock chat 1 picks proposed ≡ (ok reviews, chosen)
unfolding commit_picks check_picks distinct create_proposal hydrate_proposal strip text_beq
    hydrate_from add_candidates add_batch int_beq take_picks
picked_one = refl

two_candidates :
    Unique
      (λ (c : ProposalCandidate). c.problem_slug)
      (select (λ c. c.batch_id == 1) proposed.candidates.rows)
unfolding create_proposal hydrate_proposal hydrate_from add_candidates add_batch distinct strip
    text_beq
two_candidates = (refl, (refl, tt))

commit_picks_reviews_example :
    (chosen.reviews.rows ≡ proposed.reviews.rows ++ reviews)
    × (length reviews ≡ length picks)
    × All (λ r. Any (λ s. s ≡ r.problem_slug) picks) reviews
    × All (λ s. Any (λ r. r.problem_slug ≡ s) reviews) picks
    × All (IsFrom chat 1) reviews
commit_picks_reviews_example =
    commit_picks_reviews later_clock chat 1 picks reviews proposed chosen two_candidates picked_one

commit_picks_once_example :
    (commit_picks later_clock chat 1 picks chosen ≡ (err batch_closed, chosen))
    ⊎ (commit_picks later_clock chat 1 picks chosen ≡ (err bad_picks, chosen))
commit_picks_once_example =
    commit_picks_once later_clock later_clock chat 1 picks picks reviews proposed chosen picked_one

abbrev hash : Text → Text
hash t = t

abbrev prolonged : Db
prolonged = (extend_proposal hash later_clock chat 1 24 none proposed).1

ran_extension :
    extend_proposal hash later_clock chat 1 24 none proposed
    ≡ (ok (some (extended later_clock 24 batch)), prolonged)
unfolding extend_proposal operation_replayed create_proposal hydrate_proposal strip distinct
    text_beq hydrate_from add_candidates add_batch int_beq
ran_extension = refl

extend_proposal_lem_example :
    (1 ≤ 24)
    × (24 ≤ 72)
    × (find_batch 1 prolonged ≡ some (extended later_clock 24 batch))
    × (open_batch ≡ open_batch)
    × (later_clock.now + hours 24 ≡ later_clock.now + hours 24)
extend_proposal_lem_example =
    extend_proposal_lem hash later_clock chat 1 24 (extended later_clock 24 batch) proposed
      prolonged ran_extension

abbrev seen : Db
seen = (mark_solution_viewed clock chat 1 db).1

viewed :
    mark_solution_viewed clock chat 1 db
    ≡ (ok (record review { status = saw_solution_review; updated_at = clock.now }), seen)
unfolding mark_solution_viewed require_open int_beq require_problem text_beq persist_attempt
    settle_review outcome_text review_status parse_outcome log_attempt apply_lesson_delta
    book_attempt outcome_credit add_credit add_attempt
viewed = refl

mark_solution_viewed_credit_example : credit_balance chat seen ≡ pos 25
unfolding credit_balance balance_of sum_amounts ◌+ℤ◌ int_beq text_beq
mark_solution_viewed_credit_example =
    mark_solution_viewed_credit clock chat 1
      (record review { status = saw_solution_review; updated_at = clock.now }) db seen viewed chat

-- The review of the fixture, closed.
abbrev closed : Db
closed = record db { reviews = record { rows = record review { status = done } ∷ []; next_id = 2 } }

abbrev reopened : Db
reopened = (reattempt_problem clock chat 1 closed).1

ran_reattempt :
    reattempt_problem clock chat 1 closed ≡ (ok (direct_review clock chat two_sum 2), reopened)
unfolding reattempt_problem int_beq text_beq
ran_reattempt = refl
