-- ===== src/BotStates/Setting.antt =====
-- What `set_bot_state` of src/leetcode_coach/domain/services.py changes.
use leetcode_coach_service.Base.{ℤ, nat_eq, ◌≡◌, refl, ap, ◌∙◌, Option-cases, inl, inr}
use leetcode_coach_service.Text.{Text}
use leetcode_coach_service.Calendar.{Clock}
use leetcode_coach_service.Model.{BotState}
use leetcode_coach_service.Store.{Db, ok}
use leetcode_coach_service.BotStates.{find_state, new_state, set_bot_state}

-- The databases differ in the states at most.
abbrev pub SameButStates : Db → Db → Type 0
SameButStates db db' = db' ≡ record db { bot_states = db'.bot_states }

pub SameButStates-trans : (a b c : Db) → SameButStates a b → SameButStates b c → SameButStates a c
SameButStates-trans a b c ab bc = bc ∙ ap (λ (d : Db). record d { bot_states = c.bot_states }) ab

pub set_bot_state_rest :
    (clock : Clock) (chat_id : ℤ) (key value : Text) (db : Db)
    → SameButStates db (set_bot_state clock chat_id key value db).1
unfolding set_bot_state
set_bot_state_rest clock chat_id key value db = elim (Option-cases (find_state chat_id key db)) [
  | inl missing ↦ rw (missing, set_bot_state) refl
  | inr (s, found) ↦ rw (found, set_bot_state) refl
]

-- It returns the row that it wrote.
pub set_bot_state_returns :
    (clock : Clock) (chat_id : ℤ) (key value : Text) (db : Db)
    → (s : BotState) × (set_bot_state clock chat_id key value db
        ≡ (ok s, (set_bot_state clock chat_id key value db).1))
unfolding set_bot_state
set_bot_state_returns clock chat_id key value db = elim (Option-cases (find_state chat_id key db)) [
  | inl missing ↦
      (new_state clock chat_id key value db.bot_states.next_id, rw (missing, set_bot_state) refl)
  | inr (s, found) ↦
      (record s { value = value; updated_at = clock.now }, rw (found, set_bot_state) refl)
]
