-- ===== src/Application.antt =====
-- The deterministic controls of src/leetcode_coach/application.py.
pub mod Picking
pub mod Threads
pub mod Coaching
pub mod Callbacks
pub mod Handling
pub mod Replay
pub mod Recommit
pub mod Pages
pub mod Resume
pub mod Publishing
pub mod Numbers
pub mod Buttons
pub mod Clean
pub mod Refusals
pub mod Rethreading
use leetcode_coach_service.Base.{
  ℕ, ◌≡◌, Bool, true, false, Option, none, some, List, [], ◌∷◌, ◌++◌, ◌&&◌, ◌==◌, ℤ, int_eq, nat_eq,
  first, delete, not, leb,
}
use leetcode_coach_service.Text.{Text, codes, show_nat}
use leetcode_coach_service.Calendar.{Clock}
use leetcode_coach_service.Model.{ProposalBatch, ProposalCandidate, BotState, is_open_batch}
use leetcode_coach_service.Store.{Db}
use leetcode_coach_service.BotStates.{find_state}

-- `json.dumps` and `json.loads` of the values of one kind; `none` is text of any other kind. The
-- states hold what the code itself wrote, so that the exception of a malformed text is left out.
pub record Codec (A : Type 0) : Type 0 where
  pub dump : A → Text
  pub load : Text → Option A
  pub load-dump : (a : A) → load (dump a) ≡ some a

-- What a press of a button is remembered by.
pub record Choice : Type 0 where
  pub action : Text
  pub slug : Text
  pub count : ℕ

-- How far the pages of a proposal were sent.
pub record Progress : Type 0 where
  pub next_page : ℕ
  pub first_message_id : Option ℕ

pub record Codecs : Type 0 where
  pub slugs : Codec (List Text)
  pub choice : Codec Choice
  pub progress : Codec Progress

abbrev pub find_candidate : ℕ → ℕ → Db → Option ProposalCandidate
find_candidate batch_id position db =
    first (λ (c : ProposalCandidate). c.batch_id == batch_id && c.position == position)
      db.candidates.rows

-- The batch belongs to the chat, is open and has not expired.
unfoldable pub is_live : Clock → ℤ → ProposalBatch → Bool
is_live clock chat_id b =
    b.chat_id == chat_id && (is_open_batch b.status && not (leb b.expires_at clock.now))

abbrev pub pick_key : ℕ → Text
pick_key batch_id = codes "pick:" ++ show_nat batch_id

abbrev pub delivery_key : ℕ → Text
delivery_key batch_id = codes "proposal_delivery:" ++ show_nat batch_id

-- The keys of the presses of a proposal's buttons.
abbrev pub press_prefix : ℕ → Text
press_prefix batch_id = codes "pickcb:" ++ (show_nat batch_id ++ codes ":")

-- `session.delete(state)`
abbrev pub delete_states : (BotState → Bool) → Db → Db
delete_states p db = record db {
  bot_states = record (db.bot_states) { rows = delete p db.bot_states.rows };
}

-- `session.delete` of a row that a query may have found.
abbrev pub delete_state : Option BotState → Db → Db
delete_state none db = db
delete_state (some state) db = delete_states (λ (s : BotState). s.id == state.id) db
