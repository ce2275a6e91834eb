-- ===== src/Tests/Reading.antt =====
-- The catalog, starting a problem, the conversation and the legacy import.
use leetcode_coach_service.Base.{none, some, List, [], ◌∷◌, ◌++◌, int_beq, ◌≡◌, refl}
use leetcode_coach_service.Text.{Text, codes, text_beq, strip, lower}
use leetcode_coach_service.Model.{Problem, Attempt, ConversationItem}
use leetcode_coach_service.Migration.{LegacyLog, import_logs}
use leetcode_coach_service.Conversation.{rows_of, get_items, add_items}
use leetcode_coach_service.Conversation.History.{IsAscending, add_items-get_items}
use leetcode_coach_service.Store.{Db, Table, ok}
use leetcode_coach_service.Reviews.{direct_review}
use leetcode_coach_service.Adapter.{ProblemView, problem_view}
use leetcode_coach_service.Adapter.Search.{Filters}
use leetcode_coach_service.Adapter.Start.{start_problem, ensure_problem, ensure_review}
use leetcode_coach_service.Tests.Fixtures.{clock, chat, two_sum, db, problem, today}

abbrev filters : Filters
filters = record {
  difficulty = codes "Easy" ∷ codes "odd" ∷ [];
  include_tags = [];
  exclude_tags = codes "graph" ∷ [];
  topic = [];
}

abbrev views : List ProblemView
views = problem_view (problem (codes "lru-cache")) ∷ problem_view (problem two_sum) ∷ []

abbrev started : Db
started =
    (start_problem clock chat (codes "jump-game") (some (codes "Jump")) (some (codes "Hard")) []
      db).1

ran_start :
    start_problem clock chat (codes "jump-game") (some (codes "Jump")) (some (codes "Hard")) [] db
    ≡ (ok (direct_review clock chat (codes "jump-game") 2), started)
unfolding start_problem ensure_problem ensure_review text_beq strip lower int_beq
ran_start = refl

-- Items that are their own JSON text.
abbrev text_of : Text → Text
text_of t = t

abbrev talk : Table ConversationItem
talk = record {
  rows =
      record {
        id = 1;
        chat_id = chat;
        sequence = 4;
        role = codes "user";
        content = codes "hi";
        created_at = 0;
      }
      ∷ [];
  next_id = 2;
}

abbrev longer : Table ConversationItem
longer = add_items text_of text_of text_of 9 chat (codes "a" ∷ codes "b" ∷ []) talk

add_items-get_items_example :
    (get_items text_of text_of text_of chat none longer
      ≡ get_items text_of text_of text_of chat none talk ++ codes "a" ∷ codes "b" ∷ [])
    × IsAscending (rows_of chat longer)
unfolding rows_of int_beq
add_items-get_items_example =
    add_items-get_items text_of text_of text_of 9 chat (codes "a" ∷ codes "b" ∷ []) talk (λ _. refl)
      (tt, tt)

-- The legacy import.
abbrev log : List LegacyLog
log =
    record {
      id = 31;
      problem_slug = two_sum;
      date = some today;
      status = none;
      tutor_feedback = none;
      time_spent_min = none;
    }
    ∷ []

abbrev imported : List Attempt
imported = (import_logs clock chat log db.attempts).1.rows

abbrev practised : Problem
practised = record (problem two_sum) { times_attempted = 3; last_attempted = some today }
