-- ===== src/Lesson/Laws.antt =====
-- What a lesson change leaves alone, and what it does to the lesson it names.
use leetcode_coach_service.Base.{ℕ, Option, none, some, ◌≡◌, arith, ℤ, nat_eq, int_eq}
use leetcode_coach_service.Calendar.{Clock}
use leetcode_coach_service.Store.{Db}
use leetcode_coach_service.Lesson.{LessonDelta, apply_lesson_delta, reinforce_lesson, create_lesson}

-- A lesson change writes the lessons table and no other.
pub record OnlyLessons (db db' : Db) : Type 0 where
  pub problems : db'.problems ≡ db.problems
  pub attempts : db'.attempts ≡ db.attempts
  pub reviews : db'.reviews ≡ db.reviews
  pub ledger : db'.ledger ≡ db.ledger
  pub batches : db'.batches ≡ db.batches
  pub candidates : db'.candidates ≡ db.candidates

reinforce_lesson-OnlyLessons :
    (clock : Clock) (chat_id : ℤ) (delta : LessonDelta) (id : ℕ) (db : Db)
    → OnlyLessons db (reinforce_lesson clock chat_id delta id db).1
unfolding reinforce_lesson
reinforce_lesson-OnlyLessons clock chat_id delta id db = ground arith

create_lesson-OnlyLessons :
    (clock : Clock) (chat_id : ℤ) (delta : LessonDelta) (db : Db)
    → OnlyLessons db (create_lesson clock chat_id delta db).1
unfolding create_lesson
create_lesson-OnlyLessons clock chat_id delta db = ground arith

pub apply_lesson_delta-OnlyLessons :
    (clock : Clock) (chat_id : ℤ) (delta : Option LessonDelta) (db : Db)
    → OnlyLessons db (apply_lesson_delta clock chat_id delta db).1
unfolding apply_lesson_delta
apply_lesson_delta-OnlyLessons clock chat_id none db = ground arith
apply_lesson_delta-OnlyLessons clock chat_id (some delta) db = ground arith
