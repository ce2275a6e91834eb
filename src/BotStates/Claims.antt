-- ===== src/BotStates/Claims.antt =====
-- An operation is claimed once.
use leetcode_coach_service.Base.{Bool, true, some, ℤ, int_eq, beq_refl, ◌≡◌, arith}
use leetcode_coach_service.Text.{Text, text_eq}
use leetcode_coach_service.Text.Laws.{text_beq_refl}
use leetcode_coach_service.Calendar.{Clock}
use leetcode_coach_service.Store.{Db, ok}
use leetcode_coach_service.Store.Rows.{first-append}
use leetcode_coach_service.BotStates.{
  is_state, find_state, new_state, operation_state_key, claim_operation, operation_replayed,
}

module _ (sha256 : Text → Text) (clock clock' : Clock) (chat_id : ℤ) (action action' key : Text)
    (db : Db) where
  -- A claim behind a claim of the same state key.
  claim_operation_again :
      let db' = (claim_operation sha256 clock chat_id action key db).1 in
      claim_operation sha256 clock' chat_id action' key db' ≡ (ok true, db')
  unfolding claim_operation find_state
  claim_operation_again = ground (
    arith,
    first-append (is_state chat_id key) db.bot_states.rows
        (new_state clock chat_id key action db.bot_states.next_id),
    text_beq_refl key,
    beq_refl chat_id,
  )

-- Once the claim of an operation goes through, whether as new or as a replay, every further claim
-- of the same operation of the chat is a replay and writes nothing.
pub operation_replayed_again :
    (sha256 : Text → Text) (clock clock' : Clock) (chat_id : ℤ)
    (action identity operation_key : Text) (replayed : Bool) (db db' : Db)
    → operation_replayed sha256 clock chat_id action identity (some operation_key) db
      ≡ (ok replayed, db')
    → operation_replayed sha256 clock' chat_id action identity (some operation_key) db'
      ≡ (ok true, db')
unfolding operation_replayed
operation_replayed_again sha256 clock clock' chat_id action identity operation_key replayed db db'
      run =
    ground (
      arith,
      claim_operation_again sha256 clock clock' chat_id action action
          (operation_state_key sha256 action identity operation_key) db,
    )
