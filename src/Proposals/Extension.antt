-- ===== src/Proposals/Extension.antt =====
-- What an extension does to a batch.
use leetcode_coach_service.Base.{
  ℕ, ◌+◌, ◌≤◌, none, some, ◌≡◌, refl, ◌==◌, nat_eq, int_eq, ℤ, arith, Option-cases, inl, inr,
}
use leetcode_coach_service.Text.{Text}
use leetcode_coach_service.Calendar.{Clock, hours}
use leetcode_coach_service.Model.{ProposalBatch, open_batch}
use leetcode_coach_service.Store.{Db, ok}
use leetcode_coach_service.Store.Rows.{first-update, first-some}
use leetcode_coach_service.BotStates.{operation_replayed}
use leetcode_coach_service.Proposals.{find_batch, extended, extend_proposal, set_batch}

-- An extension without an operation key that goes through asked for one to 72 hours and leaves the
-- batch open, and expiring that many hours from now.
pub extend_proposal_lem :
    (sha256 : Text → Text) (clock : Clock) (chat_id : ℤ) (batch_id n : ℕ) (b : ProposalBatch)
    (db db' : Db)
    → extend_proposal sha256 clock chat_id batch_id n none db ≡ (ok (some b), db')
    → (1 ≤ n)
      × (n ≤ 72)
      × (find_batch batch_id db' ≡ some b)
      × (b.status ≡ open_batch)
      × (b.expires_at ≡ clock.now + hours n)
unfolding extend_proposal operation_replayed set_batch
extend_proposal_lem sha256 clock chat_id batch_id n b db db' run =
    elim (Option-cases (find_batch batch_id db)) [
      | inl missing ↦ absurd (ground (arith, missing))
      | inr (old, found) ↦
          let same : b ≡ extended clock n old = ground (arith, found) in
          (
            ground arith,
            ground arith,
            ground (
              arith,
              found,
              first-update (λ (b : ProposalBatch). b.id == batch_id)
                  (λ (b : ProposalBatch). b.id == batch_id) (extended clock n) db.batches.rows
                  (λ _. refl),
              first-some (λ (b : ProposalBatch). b.id == batch_id) db.batches.rows old found,
            ),
            rw same,
            rw same,
          )
    ]
