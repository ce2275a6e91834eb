-- ===== src/Tests/Practising.antt =====
-- An attempt with its receipt, and a practice set that is published twice.
use leetcode_coach_service.Base.{true, false, none, some, List, [], ◌∷◌, ◌++◌, pos, ◌≡◌, refl}
use leetcode_coach_service.Text.{Text, codes, show_nat}
use leetcode_coach_service.Model.{Attempt}
use leetcode_coach_service.Store.{Db, ok}
use leetcode_coach_service.Proposals.{HydratedCandidate}
use leetcode_coach_service.Rendering.{Receipt}
use leetcode_coach_service.Leetcode.{Url}
use leetcode_coach_service.Adapter.Recording.{commit_review_attempt}
use leetcode_coach_service.Adapter.Receipts.{commit_review_attempt_receipt}
use leetcode_coach_service.Adapter.Practice.{RawSelection, publish_practice_set}
use leetcode_coach_service.Adapter.Republish.{publish_practice_set_again}
use leetcode_coach_service.Tests.Fixtures.{clock, later_clock, chat, two_sum, db, report, key}
use leetcode_coach_service.Store.{write}
use leetcode_coach_service.Attempts.Outcomes.{validate_outcome, review_status, outcome_credit}
use leetcode_coach_service.Model.{parse_outcome, outcome_text}
use leetcode_coach_service.Text.{
  text_beq, show_int, show_nat, show_from, pad, lower, lower_char, strip, lstrip, is_space,
}
use leetcode_coach_service.Credit.Keys.{review_attempt_key}
use leetcode_coach_service.Attempts.{
  commit_attempt, commit_open_review, require_open, require_problem, persist_attempt, settle_review,
  log_attempt, book_attempt, add_attempt, link_credit,
}
use leetcode_coach_service.Lesson.{apply_lesson_delta}
use leetcode_coach_service.Adapter.Recording.{
  commit_with_receipt, replayed_entry, review_problem, review_receipt,
}
use leetcode_coach_service.Adapter.{attempt_receipt, capitalize, money}
use leetcode_coach_service.Credit.{add_credit, balance_of, credit_balance, sum_amounts}
use leetcode_coach_service.Jobs.{show_credits}
use leetcode_coach_service.Base.{int_beq, ◌+ℤ◌, ◌-ℤ◌}
use leetcode_coach_service.Proposals.{
  hydrate_proposal, hydrate_from, distinct, add_candidates, add_batch, create_proposal,
}
use leetcode_coach_service.Adapter.Practice.{
  publish_once, publish_new, parse_selections, ensure_selections, publish_key,
}
use leetcode_coach_service.BotStates.{set_bot_state, find_state}

abbrev recorded : Db
recorded = (commit_review_attempt clock chat 1 report (some key) db).1

abbrev attempt : Attempt
attempt = record {
  id = 1;
  legacy_attempt_id = none;
  chat_id = chat;
  review_id = some 1;
  problem_slug = two_sum;
  attempted_on = clock.today;
  outcome = codes "solved";
  feedback = codes "clean";
  time_spent_min = some 20;
  language = none;
  solution_summary = [];
  reversed_at = none;
  created_at = clock.now;
  updated_at = clock.now;
}

abbrev receipt : Receipt
receipt = record {
  title = two_sum;
  result = codes "Solved";
  credit = codes "+1.00";
  balance = codes "0.00 → 1.00";
  path = codes "Open queue";
  replayed = false;
}

ran_commit :
    commit_review_attempt clock chat 1 report (some key) db ≡ (ok (some attempt, receipt), recorded)
unfolding commit_review_attempt write validate_outcome review_status outcome_credit parse_outcome
    outcome_text text_beq show_int show_nat show_from pad lower lower_char strip lstrip is_space
    review_attempt_key commit_attempt commit_open_review require_open require_problem
    persist_attempt settle_review log_attempt book_attempt add_attempt int_beq ◌+ℤ◌ ◌-ℤ◌
    apply_lesson_delta commit_with_receipt replayed_entry review_problem review_receipt
    attempt_receipt capitalize money add_credit balance_of credit_balance sum_amounts show_credits
    link_credit
ran_commit = refl

commit_review_attempt_receipt_example :
    (codes "+1.00" ≡ money true (pos 100))
    × (codes "0.00 → 1.00"
        ≡ money false (credit_balance chat db)
          ++ (codes " → " ++ money false (credit_balance chat recorded)))
    × (false ≡ false)
unfolding outcome_credit parse_outcome text_beq outcome_text
commit_review_attempt_receipt_example =
    commit_review_attempt_receipt clock chat 1 report key attempt receipt db recorded ran_commit

abbrev hash : Text → Text
hash t = t

abbrev slug_only : Text → Url
slug_only t = record { scheme = []; netloc = []; hostname = []; path = t }

abbrev raw : RawSelection
raw = record {
  slug = two_sum;
  reasoning = codes "why";
  coaching_hint = codes "hint";
  title = [];
  difficulty = [];
  tags = [];
}

abbrev preview : List HydratedCandidate
preview =
    record {
      position = 1;
      slug = two_sum;
      title = two_sum;
      url = codes "https://leetcode.com/";
      difficulty = codes "easy";
      tags = [];
      reasoning = codes "why";
      coaching_hint = codes "hint";
    }
    ∷ []

abbrev published : Db
published = (publish_practice_set hash slug_only clock chat (raw ∷ []) key db).1

ran_publish :
    publish_practice_set hash slug_only clock chat (raw ∷ []) key db
    ≡ (ok (1, some preview), published)
unfolding publish_practice_set write text_beq hydrate_proposal distinct hydrate_from strip lstrip
    is_space lower lower_char add_candidates add_batch int_beq publish_once publish_new
    parse_selections ensure_selections create_proposal set_bot_state find_state publish_key show_nat
ran_publish = refl

publish_practice_set_again_example :
    publish_practice_set hash slug_only later_clock chat [] key published
    ≡ (ok (1, none), published)
unfolding parse_selections
publish_practice_set_again_example =
    publish_practice_set_again hash slug_only clock later_clock chat (raw ∷ []) [] key 1
      (some preview) db published ran_publish refl refl
