-- ===== src/Migration/Rerun.antt =====
-- A second import of the log.
use leetcode_coach_service.Base.{
  Bool, true, List, [], ◌∷◌, if◌then◌else◌, ℤ, nat_eq, beq_refl, any, any-append, All, ◌≡◌, refl,
  arith,
}
use leetcode_coach_service.Calendar.{Clock}
use leetcode_coach_service.Model.{Attempt}
use leetcode_coach_service.Store.{Table, insert}
use leetcode_coach_service.Migration.{LegacyLog, is_legacy_attempt, imported_attempt, import_logs}

abbrev is_there : Table Attempt → LegacyLog → Bool
is_there t row = any (is_legacy_attempt row.id) t.rows

module _ (clock : Clock) (chat_id : ℤ) where
  -- The table behind the round of one row.
  abbrev put_log : LegacyLog → Table Attempt → Table Attempt
  put_log row t = if is_there t row then t else insert (imported_attempt clock chat_id row) t

  put_log_keeps :
      (row other : LegacyLog) (t : Table Attempt)
      → is_there t other ≡ true
      → is_there (put_log row t) other ≡ true
  put_log_keeps row other t h = ground (
    arith,
    any-append (is_legacy_attempt other.id) t.rows
        (imported_attempt clock chat_id row t.next_id ∷ []),
  )

  put_log_there : (row : LegacyLog) (t : Table Attempt) → is_there (put_log row t) row ≡ true
  put_log_there row t = ground (
    arith,
    any-append (is_legacy_attempt row.id) t.rows
        (imported_attempt clock chat_id row t.next_id ∷ []),
    beq_refl row.id,
  )

  import_logs_keeps :
      (rows : List LegacyLog) (other : LegacyLog) (t : Table Attempt)
      → is_there t other ≡ true
      → is_there (import_logs clock chat_id rows t).1 other ≡ true
  unfolding import_logs
  import_logs_keeps [] other t h = h
  import_logs_keeps (row ∷ rows) other t h =
      import_logs_keeps rows other (put_log row t) (put_log_keeps row other t h)

  import_logs_there :
      (rows : List LegacyLog) (t : Table Attempt)
      → All (λ row. is_there (import_logs clock chat_id rows t).1 row ≡ true) rows
  unfolding import_logs
  import_logs_there [] t = tt
  import_logs_there (row ∷ rows) t = (
    import_logs_keeps rows row (put_log row t) (put_log_there row t),
    import_logs_there rows (put_log row t),
  )

  import_logs_skip :
      (rows : List LegacyLog) (t : Table Attempt)
      → All (λ row. is_there t row ≡ true) rows
      → import_logs clock chat_id rows t ≡ (0, t)
  unfolding import_logs
  import_logs_skip [] t h = refl
  import_logs_skip (row ∷ rows) t h = rw (h.0, import_logs_skip rows t h.1)

-- A second import of the same log brings in no attempt and leaves the table as the first import
-- left it.
pub import_logs_again :
    (clock clock' : Clock) (chat_id chat' : ℤ) (rows : List LegacyLog) (t : Table Attempt)
    → let t' = (import_logs clock chat_id rows t).1 in import_logs clock' chat' rows t' ≡ (0, t')
import_logs_again clock clock' chat_id chat' rows t =
    import_logs_skip clock' chat' rows (import_logs clock chat_id rows t).1
      (import_logs_there clock chat_id rows t)
