-- ===== src/Jobs/Expiry.antt =====
-- What the expiry job leaves.
use leetcode_coach_service.Base.{ℕ, ◌≤◌, ◌<◌, some, List, select, ◌≡◌, ◌⊎◌}
use leetcode_coach_service.Calendar.{Clock, Date}
use leetcode_coach_service.Model.{
  ProposalBatch, PendingReview, open_batch, open_review, expired_batch, expired_review,
}
use leetcode_coach_service.Jobs.{expired_messages, is_overdue_batch}

-- A day before another in the calendar's order.
abbrev pub IsEarlier : Date → Date → Type 0
IsEarlier a b =
    (a.year < b.year)
    ⊎ ((a.year ≡ b.year) × ((a.month < b.month) ⊎ ((a.month ≡ b.month) × (a.day < b.day))))

abbrev pub IsLapsedBatch : ℕ → ProposalBatch → Type 0
IsLapsedBatch now b = (b.status ≡ open_batch) × (b.expires_at ≤ now)

abbrev pub IsLapsedReview : Date → PendingReview → Type 0
IsLapsedReview today r = (r.status ≡ open_review) × IsEarlier r.proposed_on today

-- What becomes of a batch and of a review.
abbrev pub BatchExpiry : ℕ → ProposalBatch → ProposalBatch → Type 0
BatchExpiry now b b' =
    (IsLapsedBatch now b × (b' ≡ record b { status = expired_batch }))
    ⊎ ((IsLapsedBatch now b → ⊥) × (b' ≡ b))

abbrev pub ReviewExpiry : Clock → PendingReview → PendingReview → Type 0
ReviewExpiry clock r r' =
    (IsLapsedReview clock.today r
      × (r' ≡ record r { status = expired_review; updated_at = clock.now }))
    ⊎ ((IsLapsedReview clock.today r → ⊥) × (r' ≡ r))

-- The keyboard of a batch that lapsed: the batch's id and the message that shows it.
abbrev pub KeyboardOf : ℕ → ℕ × ℕ → ProposalBatch → Type 0
KeyboardOf now keyboard b =
    IsLapsedBatch now b × (b.id ≡ keyboard.0) × (b.telegram_message_id ≡ some keyboard.1)

-- The keyboards that are replaced, for the rows that a test chooses.
abbrev keyboards : ℕ → List ProposalBatch → List (ℕ × ℕ)
keyboards now bs = expired_messages (select (is_overdue_batch now) bs)
