-- ===== src/Tests/Fixtures.antt =====
-- A small database with one chat: two problems, one open review.
use leetcode_coach_service.Base.{true, false, none, some, [], ◌∷◌, ℤ, pos}
use leetcode_coach_service.Text.{Text, codes}
use leetcode_coach_service.Calendar.{Clock, Date}
use leetcode_coach_service.Model.{Problem, PendingReview, open_review}
use leetcode_coach_service.Store.{Db}
use leetcode_coach_service.Attempts.{Report}

abbrev pub today : Date
today = record { year = 2026; month = 3; day = 1 }

abbrev pub clock : Clock
clock = record { now = 1000000000; today = today }

abbrev pub later_clock : Clock
later_clock = record { now = 1060000000; today = today }

abbrev pub chat : ℤ
chat = pos 7

abbrev pub two_sum : Text
two_sum = codes "two-sum"

abbrev pub problem : Text → Problem
problem slug = record {
  slug = slug;
  title = slug;
  url = codes "https://leetcode.com/";
  difficulty = codes "easy";
  tags = [];
  solved = false;
  eligible = true;
  last_attempted = none;
  times_attempted = 0;
  verified_solved = false;
  attempt_baseline_count = 0;
  attempt_baseline_last = none;
  created_at = 0;
  updated_at = 0;
}

abbrev pub review : PendingReview
review = record {
  id = 1;
  chat_id = chat;
  candidate_id = none;
  batch_id = none;
  problem_slug = two_sum;
  telegram_message_id = none;
  proposed_on = today;
  status = open_review;
  created_at = 0;
  updated_at = 0;
}

abbrev pub db : Db
db = record {
  problems = problem two_sum ∷ problem (codes "lru-cache") ∷ [];
  attempts = record { rows = []; next_id = 1 };
  lessons = record { rows = []; next_id = 1 };
  batches = record { rows = []; next_id = 1 };
  candidates = record { rows = []; next_id = 1 };
  reviews = record { rows = review ∷ []; next_id = 2 };
  ledger = record { rows = []; next_id = 1 };
  bot_states = record { rows = []; next_id = 1 };
  processed = [];
  revisions = record { rows = []; next_id = 1 };
  follow_ups = [];
}

abbrev pub report : Report
report = record {
  outcome = codes "solved";
  feedback = codes "clean";
  lesson_delta = none;
  language = none;
  solution_summary = [];
  time_spent_min = some 20;
}

abbrev pub key : Text
key = codes "k1"
