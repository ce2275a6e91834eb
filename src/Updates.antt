-- ===== src/Updates.antt =====
-- Telegram updates: `record_update`, `processed_update_status` and `mark_update_handled` of
-- `CoachDomain` (src/leetcode_coach/domain/services.py).
pub mod Laws
use leetcode_coach_service.Base.{
  ℕ, ◌+◌, Bool, true, false, Option, none, some, List, [], ◌∷◌, ◌++◌, ◌&&◌, ◌||◌, ⊤, if◌then◌else◌,
  ◌==◌, ℤ, nat_eq, first, update, Eq, leb, ltb, not, all, length, or_else,
}
use leetcode_coach_service.Text.{Text, codes, text_eq, is_empty}
use leetcode_coach_service.Calendar.{Clock, minutes}
use leetcode_coach_service.Model.{ProcessedUpdate}
use leetcode_coach_service.Store.{Db, Exec, Result, ok, err, update_not_found, data_error}

abbrev pub find_update : ℕ → Db → Option ProcessedUpdate
find_update update_id db = first (λ (u : ProcessedUpdate). u.update_id == update_id) db.processed

-- A failed update, or one that was received fifteen minutes ago or earlier and never finished.
unfoldable pub is_reclaimable : Clock → ProcessedUpdate → Bool
is_reclaimable clock u =
    u.status == codes "failed"
    || (u.status == codes "received" && leb (u.received_at + minutes 15) clock.now)

abbrev pub received : Clock → ProcessedUpdate → ProcessedUpdate
received clock u = record u {
  status = codes "received";
  received_at = clock.now;
  handled_at = none;
  error = none;
}

abbrev pub new_update : Clock → ℕ → ℤ → ProcessedUpdate
new_update clock update_id chat_id = record {
  update_id = update_id;
  chat_id = chat_id;
  status = codes "received";
  received_at = clock.now;
  handled_at = none;
  error = none;
}

-- `True` claims the update for the caller.
unfoldable pub record_update : Clock → ℕ → ℤ → Exec Bool
record_update clock update_id chat_id db = elim (find_update update_id db) [
  | none ↦
      (ok true, record db { processed = db.processed ++ new_update clock update_id chat_id ∷ [] })
  | some existing ↦
      if is_reclaimable clock existing
      then (
        ok true,
        record db {
          processed =
              update (λ (u : ProcessedUpdate). u.update_id == update_id) (received clock)
                db.processed;
        },
      )
      else (ok false, db)
]

abbrev pub update_status : Option ProcessedUpdate → Option Text
update_status none = none
update_status (some u) = some u.status

unfoldable pub processed_update_status : ℕ → Db → Option Text
processed_update_status update_id db = update_status (find_update update_id db)

-- An error is a non-empty text.
abbrev pub is_failure : Option Text → Bool
is_failure none = false
is_failure (some t) = elim (is_empty t) [ true ↦ false | false ↦ true ]

abbrev pub handled : Clock → Option Text → ProcessedUpdate → ProcessedUpdate
handled clock error u = record u {
  status = if is_failure error then codes "failed" else codes "handled";
  error = error;
  handled_at = some clock.now;
}

-- A character that PostgreSQL stores: not NUL, and not half of a surrogate pair.
abbrev pub is_storable_char : ℕ → Bool
is_storable_char c = not (c == 0) && (ltb c 55296 || ltb 57343 c)

-- The column `error` takes no more than a thousand characters.
unfoldable pub fits_column : Option Text → Bool
fits_column none = true
fits_column (some t) = leb (length t) 1000 && all is_storable_char t

-- `flush` raises for a text that the column does not take, and the session is given up.
unfoldable pub mark_update_handled : Clock → ℕ → Option Text → Exec ⊤
unfolding fits_column
mark_update_handled clock update_id error db = elim (find_update update_id db) [
  | none ↦ (err update_not_found, db)
  | some _ ↦
      if fits_column error
      then (
        ok tt,
        record db {
          processed =
              update (λ (u : ProcessedUpdate). u.update_id == update_id) (handled clock error)
                db.processed;
        },
      )
      else (err data_error, db)
]
