-- ===== src/Conversation.antt =====
-- The conversation of a chat: `PostgresAgentSession` (src/leetcode_coach/runtime/adapters.py).
pub mod History
use mathlib.Core.List.{reverse}
use leetcode_coach_service.Base.{
  ℕ, ◌+◌, max, Bool, true, false, Option, none, some, List, [], ◌∷◌, ◌++◌, if◌then◌else◌, ◌==◌, ℤ,
  int_eq, nat_eq, Eq, ltb, select, delete, take, map,
}
use leetcode_coach_service.Text.{Text}
use leetcode_coach_service.Model.{ConversationItem}
use leetcode_coach_service.Store.{Table, insert}
use leetcode_coach_service.Adapter.{order_by}

abbrev pub is_of : ℤ → ConversationItem → Bool
is_of chat_id row = row.chat_id == chat_id

unfoldable pub rows_of : ℤ → Table ConversationItem → List ConversationItem
rows_of chat_id t = select (is_of chat_id) t.rows

-- `.order_by(sequence.desc())`
abbrev pub is_later : ConversationItem → ConversationItem → Bool
is_later a b = ltb b.sequence a.sequence

abbrev pub limited : Option ℕ → List ConversationItem → List ConversationItem
limited none rows = rows
limited (some n) rows = take n rows

-- `coalesce(max(sequence), 0)`
abbrev pub last_sequence : List ConversationItem → ℕ
last_sequence [] = 0
last_sequence (row ∷ rows) = max row.sequence (last_sequence rows)

-- An item of the agent is a JSON object: `dumps` is `json.dumps(item, default=str)`, `loads` is
-- `json.loads`, and `role_of` is `str(item.get("role") or item.get("type") or "item")`.
module _ {Item : Type 0} (dumps : Item → Text) (loads : Text → Item) (role_of : Item → Text) where
  unfoldable pub get_items : ℤ → Option ℕ → Table ConversationItem → List Item
  unfolding order_by rows_of
  get_items chat_id limit t =
      map (λ (row : ConversationItem). loads row.content)
        (reverse (limited limit (order_by is_later (rows_of chat_id t))))

  abbrev pub new_item : ℕ → ℤ → ℕ → Item → ℕ → ConversationItem
  new_item now chat_id sequence item id = record {
    id = id;
    chat_id = chat_id;
    sequence = sequence;
    role = take 20 (role_of item);
    content = dumps item;
    created_at = now;
  }

  -- The loop, from the sequence number behind `current` on.
  unfoldable pub add_from : ℕ → ℤ → ℕ → List Item → Table ConversationItem → Table ConversationItem
  add_from now chat_id current [] t = t
  add_from now chat_id current (item ∷ items) t =
      add_from now chat_id (current + 1) items (insert (new_item now chat_id (current + 1) item) t)

  unfoldable pub add_items : ℕ → ℤ → List Item → Table ConversationItem → Table ConversationItem
  unfolding add_from rows_of
  add_items now chat_id items t = add_from now chat_id (last_sequence (rows_of chat_id t)) items t

  abbrev pub first_row : List ConversationItem → Option ConversationItem
  first_row [] = none
  first_row (row ∷ rows) = some row

  unfoldable pub pop_item : ℤ → Table ConversationItem → Option Item × Table ConversationItem
  unfolding order_by rows_of
  pop_item chat_id t = elim (first_row (order_by is_later (rows_of chat_id t))) [
    | none ↦ (none, t)
    | some row ↦ (
      some (loads row.content),
      record t { rows = delete (λ (r : ConversationItem). r.id == row.id) t.rows },
    )
  ]

unfoldable pub clear_session : ℤ → Table ConversationItem → Table ConversationItem
clear_session chat_id t = record t { rows = delete (is_of chat_id) t.rows }
