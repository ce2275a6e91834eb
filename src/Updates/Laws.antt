-- ===== src/Updates/Laws.antt =====
-- Who may handle an update, and when.
use leetcode_coach_service.Base.{
  ℕ, ◌+◌, true, false, Option, some, ◌==◌, ℤ, nat_eq, leb, ◌≡◌, refl, arith, Option-cases,
  Bool-cases, inl, inr,
}
use leetcode_coach_service.Text.{Text, codes, text_eq, text_beq}
use leetcode_coach_service.Calendar.{Clock, minutes}
use leetcode_coach_service.Model.{ProcessedUpdate}
use leetcode_coach_service.Store.{Db, ok}
use leetcode_coach_service.Store.Rows.{first-append, first-update, first-some}
use leetcode_coach_service.Updates.{
  find_update, is_reclaimable, received, new_update, record_update, mark_update_handled, handled,
  is_failure, fits_column,
}

-- Behind a claim the update is `received`, with the time of the claim.
pub claimed_row :
    (clock : Clock) (id : ℕ) (chat_id : ℤ) (db db' : Db)
    → record_update clock id chat_id db ≡ (ok true, db')
    → (u : ProcessedUpdate) × (find_update id db' ≡ some u)
      × (u.status ≡ codes "received")
      × (u.received_at ≡ clock.now)
unfolding record_update
claimed_row clock id chat_id db db' run = elim (Option-cases (find_update id db)) [
  | inl new ↦ (
    new_update clock id chat_id,
    ground (
      arith,
      new,
      first-append (λ (u : ProcessedUpdate). u.update_id == id) db.processed
          (new_update clock id chat_id),
    ),
    refl,
    refl,
  )
  | inr (u, old) ↦ (
    received clock u,
    ground (
      arith,
      old,
      first-update (λ (u : ProcessedUpdate). u.update_id == id)
          (λ (u : ProcessedUpdate). u.update_id == id) (received clock) db.processed (λ _. refl),
      first-some (λ (u : ProcessedUpdate). u.update_id == id) db.processed u,
    ),
    refl,
    refl,
  )
]

-- An update that is `received` is reclaimed by its age alone, a failed one always, a handled one
-- never.
pub reclaim_received :
    (clock : Clock) (u : ProcessedUpdate)
    → u.status ≡ codes "received"
    → is_reclaimable clock u ≡ leb (u.received_at + minutes 15) clock.now
unfolding is_reclaimable text_beq
reclaim_received clock u e = rw e

reclaim_failed :
    (clock : Clock) (u : ProcessedUpdate)
    → u.status ≡ codes "failed"
    → is_reclaimable clock u ≡ true
unfolding is_reclaimable text_beq
reclaim_failed clock u e = rw e

reclaim_handled :
    (clock : Clock) (u : ProcessedUpdate)
    → u.status ≡ codes "handled"
    → is_reclaimable clock u ≡ false
unfolding is_reclaimable text_beq
reclaim_handled clock u e = rw e

-- Once an update is claimed, whoever asks for it next gets it if and only if fifteen minutes have
-- passed since the claim.
pub record_update_lease :
    (clock clock' : Clock) (id : ℕ) (chat_id chat' : ℤ) (db db' : Db)
    → record_update clock id chat_id db ≡ (ok true, db')
    → (record_update clock' id chat' db').0 ≡ ok (leb (clock.now + minutes 15) clock'.now)
unfolding record_update
record_update_lease clock clock' id chat_id chat' db db' run =
    let (u, found, status, since) = claimed_row clock id chat_id db db' run in
    ground (arith, found, since, reclaim_received clock' u status)

-- Behind `mark_update_handled` the update has the status that the error decides.
pub marked_row :
    (clock : Clock) (id : ℕ) (error : Option Text) (db db' : Db)
    → mark_update_handled clock id error db ≡ (ok tt, db')
    → (u : ProcessedUpdate) × (find_update id db' ≡ some (handled clock error u))
unfolding mark_update_handled
marked_row clock id error db db' run = elim (Option-cases (find_update id db)) [
  | inl missing ↦ absurd (ground (arith, missing))
  | inr (u, old) ↦ elim (Bool-cases (fits_column error)) [
    | inr refused ↦ absurd (ground (arith, old, refused))
    | inl fits ↦ (
      u,
      ground (
        arith,
        old,
        fits,
        first-update (λ (u : ProcessedUpdate). u.update_id == id)
            (λ (u : ProcessedUpdate). u.update_id == id) (handled clock error) db.processed
            (λ _. refl),
        first-some (λ (u : ProcessedUpdate). u.update_id == id) db.processed u,
      ),
    )
  ]
]

-- After its handling is noted, an update is claimed by a later delivery, at any time, if and only
-- if it was noted with an error text that is not empty.
pub record_update_after_handling :
    (clock clock' : Clock) (id : ℕ) (error : Option Text) (chat' : ℤ) (db db' : Db)
    → mark_update_handled clock id error db ≡ (ok tt, db')
    → (record_update clock' id chat' db').0 ≡ ok (is_failure error)
unfolding record_update
record_update_after_handling clock clock' id error chat' db db' run =
    let (u, found) = marked_row clock id error db db' run in
    elim (Bool-cases (is_failure error)) [
      | inl failed ↦
          ground (arith, found, failed, reclaim_failed clock' (handled clock error u) (rw failed))
      | inr fine ↦
          ground (arith, found, fine, reclaim_handled clock' (handled clock error u) (rw fine))
    ]
