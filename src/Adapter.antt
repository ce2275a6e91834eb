-- ===== src/Adapter.antt =====
-- Reads and writes of src/leetcode_coach/runtime/adapters.py around the services: the views, the
-- learning profile and the receipt.
pub mod Search
pub mod Catalog
pub mod Rows
pub mod Start
pub mod Starting
pub mod Lookup
pub mod Recording
pub mod Receipts
pub mod Practice
pub mod Republish
pub mod Reminding
use leetcode_coach_service.Base.{
  ℕ, suc, ◌/◌, ◌%◌, ◌-◌, Bool, true, false, Option, none, some, List, [], ◌∷◌, ◌++◌, ◌&&◌, ◌||◌,
  if◌then◌else◌, ◌==◌, ℤ, pos, negsuc, ◌-ℤ◌, int_eq, nat_eq, pos_part, first, select, any, all, not,
  leb, ltb, length, take, map, is_some, min, max, or_else, Eq,
}
use leetcode_coach_service.Text.{Text, codes, text_eq, is_empty, strip, lower, show_nat, pad}
use leetcode_coach_service.Calendar.{Clock, Date, day_before, isoformat}
use leetcode_coach_service.Model.{
  Problem, Attempt, Lesson, PendingReview, ReviewStatus, is_open_review,
}
use leetcode_coach_service.Store.{
  Db, Exec, Result, ok, err, insert, pure, raise, gets, create, ◌>>=◌, ◌>>◌, value_error,
}
use leetcode_coach_service.Attempts.{find_problem, open_review_for}
use leetcode_coach_service.Reviews.{direct_review}
use leetcode_coach_service.Jobs.{show_credits, problem_url}
use leetcode_coach_service.Rendering.{Receipt}

-- `_clip`, which removes no escapes.
unfoldable pub clip_value : Text → ℕ → Text
clip_value text limit = if leb (length text) limit then text else take (limit - 1) text ++ codes "…"

-- `_parse_attempted_on`: `none` is the `ValueError`. `from_iso` is `date.fromisoformat`.
unfoldable pub parse_attempted_on :
    (Text → Option Date) → Clock → Option Text → Option (Option Date)
unfolding strip lower day_before
parse_attempted_on from_iso clock none = some none
parse_attempted_on from_iso clock (some value) =
    let normalized = lower (strip value) in
    if is_empty (strip value)
    then some none
    else if normalized == codes "today"
    then some (some clock.today)
    else if normalized == codes "yesterday"
    then some (some (day_before clock.today))
    else elim (from_iso value) [ none ↦ none | some date ↦ some (some date) ]

-- `_money` of an amount in hundredths.
unfoldable pub money : Bool → ℤ → Text
unfolding show_credits
money signed (pos n) = (if signed then codes "+" else []) ++ show_credits n
money signed (negsuc n) = codes "-" ++ show_credits (suc n)

abbrev pub upper_char : ℕ → ℕ
upper_char c = if leb 97 c && leb c 122 then c - 32 else c

-- `str.capitalize` of ASCII letters.
unfoldable pub capitalize : Text → Text
capitalize [] = []
capitalize (c ∷ t) = upper_char c ∷ lower t

unfoldable pub attempt_receipt : Text → Text → ℤ → ℤ → Bool → Bool → Receipt
unfolding money capitalize
attempt_receipt title outcome balance_before balance_after queued replayed = record {
  title = title;
  result = capitalize outcome;
  credit = money true (if replayed then pos 0 else balance_after -ℤ balance_before);
  balance = money false balance_before ++ (codes " → " ++ money false balance_after);
  path = if queued then codes "Open queue" else codes "Direct attempt (no queue needed)";
  replayed = replayed;
}

pub record ProblemView : Type 0 where
  pub slug : Text
  pub title : Text
  pub url : Text
  pub difficulty : Text
  pub tags : Text
  pub solved : Bool
  pub eligible : Bool
  pub times_attempted : ℕ
  pub last_attempted : Option Text

abbrev pub iso_or_none : Option Date → Option Text
iso_or_none none = none
iso_or_none (some d) = some (isoformat d)

unfoldable pub problem_view : Problem → ProblemView
unfolding clip_value
problem_view p = record {
  slug = p.slug;
  title = p.title;
  url = p.url;
  difficulty = p.difficulty;
  tags = clip_value p.tags 300;
  solved = p.solved;
  eligible = p.eligible;
  times_attempted = p.times_attempted;
  last_attempted = iso_or_none p.last_attempted;
}

pub record AttemptView : Type 0 where
  pub id : ℕ
  pub problem_slug : Text
  pub attempted_on : Text
  pub outcome : Text
  pub feedback : Text
  pub time_spent_min : Option ℕ
  pub language : Option Text
  pub solution_summary : Text
  pub reversed_at : Option ℕ

unfoldable pub attempt_view : Attempt → AttemptView
unfolding clip_value
attempt_view a = record {
  id = a.id;
  problem_slug = a.problem_slug;
  attempted_on = isoformat a.attempted_on;
  outcome = a.outcome;
  feedback = clip_value a.feedback 500;
  time_spent_min = a.time_spent_min;
  language = a.language;
  solution_summary = clip_value a.solution_summary 1000;
  reversed_at = a.reversed_at;
}

pub record LessonView : Type 0 where
  pub id : ℕ
  pub title : Text
  pub category : Text
  pub active : Bool
  pub times_reinforced : ℕ

unfoldable pub lesson_view : Lesson → LessonView
lesson_view l = record {
  id = l.id;
  title = l.title;
  category = l.category;
  active = l.active;
  times_reinforced = l.times_reinforced;
}

pub record ReviewView : Type 0 where
  pub id : ℕ
  pub problem_slug : Text
  pub batch_id : Option ℕ
  pub proposed_on : Text
  pub status : ReviewStatus

unfoldable pub review_view : PendingReview → ReviewView
review_view r = record {
  id = r.id;
  problem_slug = r.problem_slug;
  batch_id = r.batch_id;
  proposed_on = isoformat r.proposed_on;
  status = r.status;
}

-- `ORDER BY`: stable insertion by a test for "comes before".
unfoldable pub insert_by : {A : Type 0} → (A → A → Bool) → A → List A → List A
insert_by before a [] = a ∷ []
insert_by before a (b ∷ bs) = if before b a then b ∷ insert_by before a bs else a ∷ b ∷ bs

unfoldable pub order_by : {A : Type 0} → (A → A → Bool) → List A → List A
unfolding insert_by
order_by before [] = []
order_by before (a ∷ rest) = insert_by before a (order_by before rest)

-- `.order_by(times_reinforced.desc())` and `.order_by(id.desc())`
abbrev pub more_reinforced : Lesson → Lesson → Bool
more_reinforced a b = ltb b.times_reinforced a.times_reinforced

abbrev pub newer : Attempt → Attempt → Bool
newer a b = ltb b.id a.id

unfoldable pub get_learning_profile : ℤ → Db → List LessonView × List AttemptView
unfolding order_by lesson_view attempt_view
get_learning_profile chat_id db =
    let lessons = select (λ (l : Lesson). l.chat_id == chat_id && l.active) db.lessons.rows in
    let attempts =
      select (λ (a : Attempt). a.chat_id == chat_id && not (is_some a.reversed_at))
        db.attempts.rows in
    (
      map lesson_view (take 20 (order_by more_reinforced lessons)),
      map attempt_view (take 30 (order_by newer attempts)),
    )
