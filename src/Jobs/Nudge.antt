-- ===== src/Jobs/Nudge.antt =====
-- The snooze button and the nudge.
use leetcode_coach_service.Base.{
  none, some, ◌==◌, ℤ, int_eq, nat_eq, beq_refl, ◌≡◌, refl, arith, Option-cases, inl, inr,
}
use leetcode_coach_service.Text.{Text, text_eq}
use leetcode_coach_service.Text.Laws.{text_beq_refl}
use leetcode_coach_service.Calendar.{Clock, Date, isoformat}
use leetcode_coach_service.Model.{BotState}
use leetcode_coach_service.Store.{Db}
use leetcode_coach_service.Store.Rows.{first-append, first-update}
use leetcode_coach_service.BotStates.{find_state, is_state, new_state, set_bot_state}
use leetcode_coach_service.Jobs.{snooze_key, send_nudge}

-- A state that is set is found with its value.
pub set_bot_state_found :
    (clock : Clock) (chat_id : ℤ) (key value : Text) (db : Db)
    → (s : BotState) × (find_state chat_id key (set_bot_state clock chat_id key value db).1
        ≡ some s)
      × (s.value ≡ value)
unfolding set_bot_state
set_bot_state_found clock chat_id key value db = elim (Option-cases (find_state chat_id key db)) [
  | inl missing ↦ (
    new_state clock chat_id key value db.bot_states.next_id,
    ground (
      arith,
      missing,
      first-append (is_state chat_id key) db.bot_states.rows
          (new_state clock chat_id key value db.bot_states.next_id),
      text_beq_refl key,
      beq_refl chat_id,
    ),
    refl,
  )
  | inr (s, found) ↦ (
    record s { value = value; updated_at = clock.now },
    ground (
      arith,
      found,
      first-update (is_state chat_id key) (λ (r : BotState). r.id == s.id)
          (λ r. record r { value = value; updated_at = clock.now }) db.bot_states.rows (λ _. refl),
      beq_refl s.id,
    ),
    refl,
  )
]

-- Once the chat has snoozed the nudge of a day, no nudge is sent to it on that day, whatever its
-- balance is.
pub send_nudge-snoozed :
    (clock : Clock) (chat_id : ℤ) (today : Date) (db : Db)
    → let db' = (set_bot_state clock chat_id snooze_key (isoformat today) db).1 in
      send_nudge today chat_id db' ≡ none
unfolding send_nudge
send_nudge-snoozed clock chat_id today db =
    let (s, found, value) = set_bot_state_found clock chat_id snooze_key (isoformat today) db in
    ground (arith, found, value, text_beq_refl (isoformat today))
