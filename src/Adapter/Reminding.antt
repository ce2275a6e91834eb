-- ===== src/Adapter/Reminding.antt =====
-- `schedule_follow_up` of src/leetcode_coach/runtime/adapters.py: the checks in front of the service.
use leetcode_coach_service.Base.{
  ℕ, Bool, Option, none, ◌||◌, ℤ, pos, negsuc, leb, ltb, length, if◌then◌else◌,
}
use leetcode_coach_service.Text.{Text, is_empty, strip}
use leetcode_coach_service.Calendar.{Clock}
use leetcode_coach_service.Calendar.Wall.{Zone, Moment, instant, refused, local_wall_to_utc}
use leetcode_coach_service.Model.{FollowUp}
use leetcode_coach_service.Store.{Exec, err, write, value_error}
use leetcode_coach_service.FollowUps.{schedule_follow_up}

abbrev pub is_bad_message : Text → Bool
is_bad_message message = is_empty (strip message) || ltb 4000 (length message)

-- A time in the past, at the latest now, is refused, also one before the epoch.
unfoldable pub remind_at : (ℕ → Text → Text) → Text → Clock → ℤ → ℤ → Text → Text → Exec FollowUp
unfolding strip schedule_follow_up
remind_at digest uuid clock chat_id (negsuc n) message operation_key db = (err value_error, db)
remind_at digest uuid clock chat_id (pos due) message operation_key db =
    if leb due clock.now || is_bad_message message
    then (err value_error, db)
    else write (schedule_follow_up digest uuid clock chat_id due (strip message) operation_key) db

-- `due_at` is read as an instant, or as a wall time of the default zone.
unfoldable pub schedule_reminder :
    (Text → Option Moment)
    → Zone
    → (ℕ → Text → Text)
    → Text
    → Clock
    → ℤ
    → Text
    → Text
    → Text
    → Exec FollowUp
unfolding local_wall_to_utc remind_at
schedule_reminder from_iso zone digest uuid clock chat_id due_at message operation_key db =
    elim (local_wall_to_utc from_iso zone due_at none) [
      | refused e ↦ (err value_error, db)
      | instant due ↦ remind_at digest uuid clock chat_id due message operation_key db
    ]
