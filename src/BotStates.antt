-- ===== src/BotStates.antt =====
-- Keyed bot state of `CoachDomain` (src/leetcode_coach/domain/services.py): `set_bot_state` and
-- `_operation_replayed`, which claims a repeatable operation once. `sha256` stands for
-- `hashlib.sha256(..).hexdigest()` of a UTF-8 text.
pub mod Claims
pub mod Setting
use leetcode_coach_service.Base.{
  ℕ, Bool, true, false, Option, none, some, ◌++◌, ◌&&◌, ◌==◌, ℤ, int_eq, first, update, nat_eq,
}
use leetcode_coach_service.Text.{Text, codes, text_eq, is_empty}
use leetcode_coach_service.Calendar.{Clock}
use leetcode_coach_service.Model.{BotState}
use leetcode_coach_service.Store.{Db, Exec, ok, insert, pure, raise_if, ◌>>◌, invalid_operation_key}

-- `where(chat_id == chat_id, key == key)`
abbrev pub is_state : ℤ → Text → BotState → Bool
is_state chat_id key s = s.chat_id == chat_id && s.key == key

unfoldable pub find_state : ℤ → Text → Db → Option BotState
find_state chat_id key db = first (is_state chat_id key) db.bot_states.rows

abbrev pub new_state : Clock → ℤ → Text → Text → ℕ → BotState
new_state clock chat_id key value id = record {
  id = id;
  chat_id = chat_id;
  key = key;
  value = value;
  updated_at = clock.now;
}

unfoldable pub set_bot_state : Clock → ℤ → Text → Text → Exec BotState
unfolding find_state
set_bot_state clock chat_id key value db = elim (find_state chat_id key db) [
  | none ↦
      let row = new_state clock chat_id key value in
      (ok (row db.bot_states.next_id), record db { bot_states = insert row db.bot_states })
  | some state ↦
      let set = λ (s : BotState). record s { value = value; updated_at = clock.now } in
      (
        ok (set state),
        record db {
          bot_states = record (db.bot_states) {
            rows = update (λ (s : BotState). s.id == state.id) set db.bot_states.rows;
          };
        },
      )
]

module _ (sha256 : Text → Text) where
  unfoldable pub operation_state_key : Text → Text → Text → Text
  operation_state_key action identity operation_key =
      codes "operation:"
      ++ sha256 (action ++ (codes ":" ++ (identity ++ (codes ":" ++ operation_key))))

  unfoldable pub claim_operation : Clock → ℤ → Text → Text → Exec Bool
  unfolding find_state
  claim_operation clock chat_id action key db = elim (find_state chat_id key db) [
    | some existing ↦ (ok true, db)
    | none ↦ (
      ok false,
      record db { bot_states = insert (new_state clock chat_id key action) db.bot_states },
    )
  ]

  unfoldable pub operation_replayed : Clock → ℤ → Text → Text → Option Text → Exec Bool
  unfolding claim_operation
  operation_replayed clock chat_id action identity none = pure false
  operation_replayed clock chat_id action identity (some operation_key) = do
    raise_if (is_empty operation_key) invalid_operation_key
    claim_operation clock chat_id action (operation_state_key action identity operation_key)
