-- ===== src/Credit/Keys.antt =====
-- The idempotency keys, as the f-strings of src/leetcode_coach/domain/services.py spell them.
use leetcode_coach_service.Base.{ℕ, ℤ, ◌++◌}
use leetcode_coach_service.Text.{Text, codes, show_nat, show_int}
use leetcode_coach_service.Calendar.{Date, isoformat}

unfoldable pub attempt_key : ℕ → Text
attempt_key id = codes "attempt:" ++ show_nat id

unfoldable pub skip_key : ℕ → Text
skip_key review_id = codes "skip:" ++ show_nat review_id

unfoldable pub solution_key : ℕ → Text
solution_key review_id = codes "solution:" ++ show_nat review_id

-- `f"{prefix}:{chat_id}:{id}:{operation_key}"`
abbrev pub scoped_key : Text → ℤ → ℕ → Text → Text
scoped_key prefix chat_id id operation_key =
    prefix ++ (show_int chat_id ++ (codes ":" ++ (show_nat id ++ (codes ":" ++ operation_key))))

unfoldable pub review_attempt_key : ℤ → ℕ → Text → Text
review_attempt_key = scoped_key (codes "review_attempt:")

unfoldable pub canonical_attempt_key : ℤ → Text → Text → Text
canonical_attempt_key chat_id slug operation_key =
    codes "canonical_attempt:"
    ++ (show_int chat_id ++ (codes ":" ++ (slug ++ (codes ":" ++ operation_key))))

unfoldable pub revision_key : ℤ → ℕ → Text → Text
revision_key = scoped_key (codes "attempt_revision:")

unfoldable pub correction_remove_key : ℤ → ℕ → Text → Text
correction_remove_key = scoped_key (codes "attempt_correction_remove:")

unfoldable pub correction_replace_key : ℤ → ℕ → Text → Text
correction_replace_key = scoped_key (codes "attempt_correction_replace:")

unfoldable pub reversal_key : ℤ → ℕ → Text → Text
reversal_key = scoped_key (codes "attempt_reversal_credit:")

unfoldable pub deficit_key : ℤ → Date → Text
deficit_key chat_id on_date =
    codes "deficit:" ++ (show_int chat_id ++ (codes ":" ++ isoformat on_date))

unfoldable pub tax_key : ℤ → Date → Text
tax_key chat_id on_date = codes "tax:" ++ (show_int chat_id ++ (codes ":" ++ isoformat on_date))
