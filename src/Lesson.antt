-- ===== src/Lesson.antt =====
-- Lesson changes: `_apply_lesson_delta` and `adjust_lesson` of `CoachDomain`
-- (src/leetcode_coach/domain/services.py). A delta is a non-empty dictionary; the fields are the
-- keys that the code reads and the tool schema (agent/tool_models.py) lets through.
pub mod Laws
use leetcode_coach_service.Base.{
  ℕ, zero, suc, Bool, true, false, Option, none, some, List, [], ◌∷◌, ◌++◌, ◌&&◌, ◌||◌,
  if◌then◌else◌, ◌==◌, ℤ, pos, pos_part, ◌+ℤ◌, int_eq, first, update, Eq, nat_eq, or_else, leb, not,
}
use leetcode_coach_service.Text.{Text, codes, text_eq, is_empty, strip, show_nat}
use leetcode_coach_service.Calendar.{Clock}
use leetcode_coach_service.Model.{Lesson}
use leetcode_coach_service.Store.{
  Db, Exec, ok, err, insert, pure, raise, raise_if, modify, ◌>>=◌, ◌>>◌, lesson_not_found,
  title_required,
}
use leetcode_coach_service.BotStates.{operation_replayed}

pub record LessonDelta : Type 0 where
  pub lesson_id : Option ℕ
  pub title : Option Text
  pub category : Option Text
  pub reinforcement_delta : Option ℤ
  pub reinforce : Option ℤ
  pub status : Option Text
  pub graduate : Bool

-- `x or d` on an optional text, which is falsy when empty.
abbrev pub text_or : Option Text → Text → Text
text_or none d = d
text_or (some t) d = if is_empty t then d else t

-- `delta.get("reinforcement_delta", delta.get("reinforce", 0))`
abbrev pub reinforcement : LessonDelta → ℤ
reinforcement delta = or_else delta.reinforcement_delta (or_else delta.reinforce (pos 0))

-- `max(0, lesson.times_reinforced + reinforcement)`
unfoldable pub reinforced : LessonDelta → Lesson → Lesson
reinforced delta lesson = record lesson {
  times_reinforced = pos_part (pos lesson.times_reinforced +ℤ reinforcement delta);
}

abbrev pub wants_graduation : LessonDelta → Bool
wants_graduation delta = or_else delta.status [] == codes "graduated" || delta.graduate

-- The graduation test and the time stamp, at the end of `_apply_lesson_delta`.
unfoldable pub settled : Clock → LessonDelta → Lesson → Lesson
settled clock delta lesson = record lesson {
  active = if wants_graduation delta && leb 5 lesson.times_reinforced then false else lesson.active;
  updated_at = clock.now;
}

abbrev pub new_lesson : Clock → ℤ → LessonDelta → ℕ → Lesson
new_lesson clock chat_id delta id = record {
  id = id;
  legacy_lesson_id = none;
  chat_id = chat_id;
  title = strip (or_else delta.title []);
  category = text_or delta.category (codes "general");
  active = true;
  times_reinforced = 1;
  created_at = clock.today;
  updated_at = clock.now;
}

unfoldable pub reinforce_lesson : Clock → ℤ → LessonDelta → ℕ → Exec Lesson
unfolding reinforced settled
reinforce_lesson clock chat_id delta lesson_id db =
    elim (first (λ (l : Lesson). l.id == lesson_id) db.lessons.rows) [
      | none ↦ (err lesson_not_found, db)
      | some lesson ↦
          let change = λ (l : Lesson). settled clock delta (reinforced delta l) in
          if not (lesson.chat_id == chat_id) then (err lesson_not_found, db) else (
            ok (change lesson),
            record db {
              lessons = record (db.lessons) {
                rows = update (λ (l : Lesson). l.id == lesson_id) change db.lessons.rows;
              };
            },
          )
    ]

unfoldable pub create_lesson : Clock → ℤ → LessonDelta → Exec Lesson
unfolding settled
create_lesson clock chat_id delta db =
    let row = λ (id : ℕ). settled clock delta (new_lesson clock chat_id delta id) in
    if is_empty (strip (or_else delta.title []))
    then (err title_required, db)
    else (ok (row db.lessons.next_id), record db { lessons = insert row db.lessons })

-- `if lesson_id:` takes a missing id and 0 for none.
abbrev pub lesson_change : Clock → ℤ → LessonDelta → Option ℕ → Exec Lesson
lesson_change clock chat_id delta none = create_lesson clock chat_id delta
lesson_change clock chat_id delta (some zero) = create_lesson clock chat_id delta
lesson_change clock chat_id delta (some (suc n)) = reinforce_lesson clock chat_id delta (suc n)

-- `none` is `None` or an empty dictionary.
unfoldable pub apply_lesson_delta : Clock → ℤ → Option LessonDelta → Exec (Option Lesson)
unfolding reinforce_lesson create_lesson
apply_lesson_delta clock chat_id none = pure none
apply_lesson_delta clock chat_id (some delta) = do
  lesson ← lesson_change clock chat_id delta delta.lesson_id
  pure (some lesson)

-- `str(delta.get("lesson_id") or delta.get("title") or "new")`
abbrev pub delta_identity : LessonDelta → Text
delta_identity delta = elim delta.lesson_id [
  | some (suc n) ↦ show_nat (suc n)
  | _ ↦ text_or delta.title (codes "new")
]

-- `none` is the reply `{"replayed": True}`.
unfoldable pub adjust_lesson :
    (Text → Text) → Clock → ℤ → LessonDelta → Option Text → Exec (Option Lesson)
unfolding apply_lesson_delta operation_replayed
adjust_lesson sha256 clock chat_id delta operation_key = do
  replayed ←
      operation_replayed sha256 clock chat_id (codes "lesson") (delta_identity delta) operation_key
  if replayed then pure none else apply_lesson_delta clock chat_id (some delta)
