-- ===== src/Model.antt =====
-- The persistence model (src/leetcode_coach/db/models.py): one record per table, with the model's
-- fields. Times are microseconds of UTC, so `as_utc` is the identity; money is in hundredths of a
-- credit; `Text` fields that hold one of a few words keep the words.
pub mod Words
unfoldable pub use Words.*
use leetcode_coach_service.Base.{ℕ, Bool, Option, ℤ}
use leetcode_coach_service.Text.{Text}
use leetcode_coach_service.Calendar.{Date}

pub record Problem : Type 0 where
  pub slug : Text
  pub title : Text
  pub url : Text
  pub difficulty : Text
  pub tags : Text
  pub solved : Bool
  pub eligible : Bool
  pub last_attempted : Option Date
  pub times_attempted : ℕ
  pub verified_solved : Bool
  pub attempt_baseline_count : ℕ
  pub attempt_baseline_last : Option Date
  pub created_at : ℕ
  pub updated_at : ℕ

pub record Attempt : Type 0 where
  pub id : ℕ
  pub legacy_attempt_id : Option ℕ
  pub chat_id : ℤ
  pub review_id : Option ℕ
  pub problem_slug : Text
  pub attempted_on : Date
  pub outcome : Text
  pub feedback : Text
  pub time_spent_min : Option ℕ
  pub language : Option Text
  pub solution_summary : Text
  pub reversed_at : Option ℕ
  pub created_at : ℕ
  pub updated_at : ℕ

pub record Lesson : Type 0 where
  pub id : ℕ
  pub legacy_lesson_id : Option ℕ
  pub chat_id : ℤ
  pub title : Text
  pub category : Text
  pub active : Bool
  pub times_reinforced : ℕ
  pub created_at : Date
  pub updated_at : ℕ

pub record ProposalBatch : Type 0 where
  pub id : ℕ
  pub chat_id : ℤ
  pub proposed_on : Date
  pub status : ProposalStatus
  pub telegram_message_id : Option ℕ
  pub expires_at : ℕ
  pub extended_until : Option ℕ
  pub created_at : ℕ

pub record ProposalCandidate : Type 0 where
  pub id : ℕ
  pub batch_id : ℕ
  pub position : ℕ
  pub problem_slug : Text
  pub reasoning : Text
  pub coaching_hint : Text
  pub status : CandidateStatus

pub record PendingReview : Type 0 where
  pub id : ℕ
  pub chat_id : ℤ
  pub candidate_id : Option ℕ
  pub batch_id : Option ℕ
  pub problem_slug : Text
  pub telegram_message_id : Option ℕ
  pub proposed_on : Date
  pub status : ReviewStatus
  pub created_at : ℕ
  pub updated_at : ℕ

pub record CreditEntry : Type 0 where
  pub id : ℕ
  pub chat_id : ℤ
  pub idempotency_key : Text
  pub amount : ℤ
  pub reason : Text
  pub effective_on : Date
  pub review_id : Option ℕ
  pub attempt_id : Option ℕ
  pub created_at : ℕ

pub record BotState : Type 0 where
  pub id : ℕ
  pub chat_id : ℤ
  pub key : Text
  pub value : Text
  pub updated_at : ℕ

pub record ProcessedUpdate : Type 0 where
  pub update_id : ℕ
  pub chat_id : ℤ
  pub status : Text
  pub received_at : ℕ
  pub handled_at : Option ℕ
  pub error : Option Text

-- What `_attempt_snapshot` lists of an attempt.
pub record Snapshot : Type 0 where
  pub outcome : Text
  pub attempted_on : Date
  pub feedback : Text
  pub language : Option Text
  pub solution_summary : Text
  pub time_spent_min : Option ℕ
  pub reversed_at : Option ℕ

-- `before_json` and `after_json` hold the snapshots.
pub record AttemptRevision : Type 0 where
  pub id : ℕ
  pub chat_id : ℤ
  pub attempt_id : ℕ
  pub operation_key : Text
  pub action : Text
  pub before_json : Snapshot
  pub after_json : Snapshot
  pub reason : Text
  pub created_at : ℕ

pub record FollowUp : Type 0 where
  pub id : Text
  pub chat_id : ℤ
  pub due_at : ℕ
  pub message : Text
  pub status : Text
  pub idempotency_key : Text
  pub attempt_count : ℕ
  pub last_error : Option Text
  pub created_at : ℕ
  pub updated_at : ℕ
  pub delivered_at : Option ℕ
  pub cancelled_at : Option ℕ

pub record ConversationItem : Type 0 where
  pub id : ℕ
  pub chat_id : ℤ
  pub sequence : ℕ
  pub role : Text
  pub content : Text
  pub created_at : ℕ
