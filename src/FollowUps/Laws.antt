-- ===== src/FollowUps/Laws.antt =====
-- Scheduling once, and claiming a due message for one sender.
use leetcode_coach_service.Base.{
  ℕ, ◌+◌, some, ◌==◌, ℤ, int_eq, nat_eq, leb, is_some, ◌≡◌, refl, arith, Option-cases, inl, inr,
}
use leetcode_coach_service.Text.{Text, codes, text_eq, text_beq}
use leetcode_coach_service.Text.Laws.{text_beq_refl}
use leetcode_coach_service.Calendar.{Clock}
use leetcode_coach_service.Model.{FollowUp}
use leetcode_coach_service.Store.{Db}
use leetcode_coach_service.Store.Rows.{first-append, first-update, first-some}
use leetcode_coach_service.FollowUps.{
  find_follow_up, follow_up_key, new_follow_up, schedule_follow_up, claim_lease, is_deliverable,
  claim_follow_up,
}

-- A retry of the same scheduling call gives the row of the first call and writes nothing, even if
-- it draws another identifier or comes at another time.
pub schedule_follow_up_again :
    (digest : ℕ → Text → Text) (uuid uuid' : Text) (clock clock' : Clock) (chat_id : ℤ) (due_at : ℕ)
    (message operation_key : Text) (db : Db)
    → let run = schedule_follow_up digest uuid clock chat_id due_at message operation_key db in
      schedule_follow_up digest uuid' clock' chat_id due_at message operation_key run.1 ≡ run
unfolding schedule_follow_up
schedule_follow_up_again digest uuid uuid' clock clock' chat_id due_at message operation_key db =
    let key = follow_up_key chat_id (digest due_at message) operation_key in
    ground (
      arith,
      first-append (λ (f : FollowUp). f.idempotency_key == key) db.follow_ups
          (new_follow_up clock uuid chat_id due_at message key),
      text_beq_refl key,
    )

-- A row that is being delivered is taken over by its age alone.
deliverable_claimed :
    (now : ℕ) (f : FollowUp)
    → f.status ≡ codes "delivering"
    → is_deliverable now f ≡ leb (f.updated_at + claim_lease) now
unfolding is_deliverable text_beq
deliverable_claimed now f e = rw e

claimed_found :
    (now : ℕ) (id : Text) (f : FollowUp) (db db' : Db)
    → claim_follow_up now id db ≡ (some f, db')
    → (find_follow_up id db' ≡ some f) × (f.status ≡ codes "delivering") × (f.updated_at ≡ now)
unfolding claim_follow_up
claimed_found now id f db db' run = elim (Option-cases (find_follow_up id db)) [
  | inl missing ↦ absurd (ground (arith, missing))
  | inr (g, found) ↦
      let same : f ≡ record g { status = codes "delivering"; updated_at = now } =
        ground (arith, found) in
      (
        ground (
          arith,
          found,
          first-update (λ (r : FollowUp). r.id == id) (λ (r : FollowUp). r.id == id)
              (λ r. record r { status = codes "delivering"; updated_at = now }) db.follow_ups
              (λ _. refl),
          first-some (λ (r : FollowUp). r.id == id) db.follow_ups g found,
        ),
        rw same,
        rw same,
      )
]

-- Once a sender has claimed a message, another claim of it succeeds if and only if five minutes
-- have passed since.
pub claim_follow_up_exclusive :
    (now now' : ℕ) (id : Text) (f : FollowUp) (db db' : Db)
    → claim_follow_up now id db ≡ (some f, db')
    → is_some (claim_follow_up now' id db').0 ≡ leb (now + claim_lease) now'
unfolding claim_follow_up
claim_follow_up_exclusive now now' id f db db' run =
    let (found, status, since) = claimed_found now id f db db' run in
    ground (arith, found, since, deliverable_claimed now' f status)
