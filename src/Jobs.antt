-- ===== src/Jobs.antt =====
-- The scheduled jobs of src/leetcode_coach/jobs.py, but for the follow-ups and the morning prompt:
-- `expire_state`, `send_nudge` and `refresh_problem_pool`.
pub mod Expiry
pub mod Nudge
pub mod Pool
use leetcode_coach_service.Base.{
  ℕ, ◌+◌, ◌/◌, ◌%◌, suc, Bool, true, false, Option, none, some, List, [], ◌∷◌, ◌++◌, ◌&&◌,
  if◌then◌else◌, ◌==◌, ℤ, pos, negsuc, first, select, update, not, leb, map, nat_eq,
}
use leetcode_coach_service.Text.{Text, codes, text_eq, text_beq, show_nat, pad}
use leetcode_coach_service.Calendar.{Clock, Date, date_ltb, isoformat}
use leetcode_coach_service.Model.{
  ProposalBatch, PendingReview, Problem, BotState, open_batch, expired_batch, open_review,
  expired_review, is_open_batch, is_open_review,
}
use leetcode_coach_service.Store.{Db}
use leetcode_coach_service.Credit.{credit_balance}
use leetcode_coach_service.BotStates.{find_state}

-- `status == OPEN and expires_at <= now`
unfoldable pub is_overdue_batch : ℕ → ProposalBatch → Bool
is_overdue_batch now b = is_open_batch b.status && leb b.expires_at now

-- `status == OPEN and proposed_on < local_today()`
unfoldable pub is_overdue_review : Date → PendingReview → Bool
is_overdue_review today r = is_open_review r.status && date_ltb r.proposed_on today

-- The keyboards to replace: the batches that stand in a message, with its id.
unfoldable pub expired_messages : List ProposalBatch → List (ℕ × ℕ)
expired_messages [] = []
expired_messages (b ∷ bs) =
    let rest = expired_messages bs in
    elim b.telegram_message_id [ none ↦ rest | some message_id ↦ (b.id, message_id) ∷ rest ]

unfoldable pub expire_state : Clock → Db → List (ℕ × ℕ) × Db
unfolding is_overdue_batch is_overdue_review expired_messages
expire_state clock db = (
  expired_messages (select (is_overdue_batch clock.now) db.batches.rows),
  record db {
    batches = record (db.batches) {
      rows =
          update (is_overdue_batch clock.now) (λ b. record b { status = expired_batch })
            db.batches.rows;
    };
    reviews = record (db.reviews) {
      rows =
          update (is_overdue_review clock.today)
            (λ r. record r { status = expired_review; updated_at = clock.now }) db.reviews.rows;
    };
  },
)

-- `str(abs(balance))` of a balance in hundredths.
unfoldable pub show_credits : ℕ → Text
show_credits cents = show_nat (cents / 100) ++ (codes "." ++ pad 2 (cents % 100))

abbrev pub snooze_key : Text
snooze_key = codes "nudge_snoozed_on"

-- `snoozed is None or snoozed.value != local_today().isoformat()`
abbrev pub is_awake : Date → Option BotState → Bool
is_awake today none = true
is_awake today (some s) = not (s.value == isoformat today)

-- The text of the nudge, if one is sent.
unfoldable pub send_nudge : Date → ℤ → Db → Option Text
unfolding show_credits
send_nudge today chat_id db = elim (credit_balance chat_id db) [
  | pos n ↦ none
  | negsuc n ↦
      if is_awake today (find_state chat_id snooze_key db)
      then some (codes "You're behind by " ++ (show_credits (suc n) ++ codes " credits."))
      else none
]

-- What integrations/leetcode.py fetches of a problem.
pub record ProblemRecord : Type 0 where
  pub slug : Text
  pub title : Text
  pub difficulty : Text
  pub tags : Text

-- `f"https://leetcode.com/problems/{record.slug}/"`
unfoldable pub problem_url : Text → Text
problem_url slug = codes "https://leetcode.com/problems/" ++ (slug ++ codes "/")

abbrev pub described : ProblemRecord → Problem → Problem
described r p = record p {
  title = r.title;
  url = problem_url r.slug;
  difficulty = r.difficulty;
  tags = r.tags;
}

abbrev pub new_problem : ℕ → ProblemRecord → Problem
new_problem now r = record {
  slug = r.slug;
  title = r.title;
  url = problem_url r.slug;
  difficulty = r.difficulty;
  tags = r.tags;
  solved = false;
  eligible = true;
  last_attempted = none;
  times_attempted = 0;
  verified_solved = false;
  attempt_baseline_count = 0;
  attempt_baseline_last = none;
  created_at = now;
  updated_at = now;
}

abbrev pub has_slug : Text → Problem → Bool
has_slug slug p = p.slug == slug

-- One round of either loop: insert or describe, and for a solved record set both flags.
unfoldable pub put_problem : ℕ → (Problem → Problem) → ProblemRecord → List Problem → List Problem
put_problem now mark r problems = elim (first (has_slug r.slug) problems) [
  | none ↦ problems ++ mark (new_problem now r) ∷ []
  | some _ ↦ update (has_slug r.slug) (λ p. mark (described r p)) problems
]

unfoldable pub put_problems :
    ℕ → (Problem → Problem) → List ProblemRecord → List Problem → List Problem
unfolding put_problem
put_problems now mark [] problems = problems
put_problems now mark (r ∷ rs) problems = put_problems now mark rs (put_problem now mark r problems)

abbrev pub unmarked : Problem → Problem
unmarked p = p

abbrev pub marked_solved : Problem → Problem
marked_solved p = record p { solved = true; verified_solved = true }

-- `pool_records` and `solved_records` are what LeetCode answered.
unfoldable pub refresh_problem_pool : ℕ → List ProblemRecord → List ProblemRecord → Db → Db
unfolding put_problems
refresh_problem_pool now pool_records solved_records db = record db {
  problems =
      put_problems now marked_solved solved_records
        (put_problems now unmarked pool_records db.problems);
}
