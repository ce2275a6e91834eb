-- ===== src/Webhook/Redelivery.antt =====
-- Deliveries of one update, until one succeeds.
use leetcode_coach_service.Base.{refl, true, false, none, some, ◌≡◌, ap, ◌∙◌, nat_eq, arith}
use leetcode_coach_service.Text.{codes, text_eq}
use leetcode_coach_service.Calendar.{Clock}
use leetcode_coach_service.Store.{Db, ok}
use leetcode_coach_service.Updates.{
  find_update, record_update, mark_update_handled, is_failure, fits_column, processed_update_status,
}
use leetcode_coach_service.Updates.Laws.{marked_row, record_update_after_handling}
use leetcode_coach_service.Webhook.{Update, Coach, is_handled, run_coach, deliver}
use leetcode_coach_service.Webhook.Delivery.{KeepsUpdates, claimed, answer, noted}

-- Deliveries of `u` whose calls of the coach all raised an exception with a text, one that its
-- column takes.
pub data Retried (u : Update) (db : Db) : Db → Type 0 where
  here : Retried u db db
  failed_once :
      {db' : Db} (coach : Coach) (clock later : Clock)
      → Retried u db db'
      → KeepsUpdates coach
      → is_failure (answer coach clock u db') ≡ true
      → fits_column (answer coach clock u db') ≡ true
      → Retried u db (deliver coach clock later false u db').1

-- Whoever asks for the update gets it.
abbrev CanClaim : Update → Db → Type 0
CanClaim u db = (clock : Clock) → (record_update clock u.update_id u.chat_id db).0 ≡ ok true

new-CanClaim : (u : Update) (db : Db) → find_update u.update_id db ≡ none → CanClaim u db
unfolding record_update
new-CanClaim u db new clock = rw (new, record_update)

claim_run :
    (clock : Clock) (u : Update) (db : Db)
    → CanClaim u db
    → record_update clock u.update_id u.chat_id db ≡ (ok true, claimed clock u db)
claim_run clock u db can = ap (λ r. (r, claimed clock u db)) (can clock)

deliver_run :
    (coach : Coach) (clock later : Clock) (u : Update) (db : Db)
    → is_handled u.body ≡ true
    → CanClaim u db
    → deliver coach clock later false u db ≡ run_coach coach later u (claimed clock u db)
unfolding deliver
deliver_run coach clock later u db body can = ground (arith, body, can clock)

Retried-CanClaim :
    (u : Update) (db : Db) {db' : Db}
    → is_handled u.body ≡ true
    → CanClaim u db
    → Retried u db db'
    → CanClaim u db'
Retried-CanClaim u db body can here clock' = can clock'
Retried-CanClaim u db body can (failed_once {db'} coach clock later before keep failed fits)
      clock' =
    let can' = Retried-CanClaim u db body can before in
    let marked = noted coach clock later u db' keep fits (claim_run clock u db' can') in
    rw (deliver_run coach clock later u db' body can') (
      record_update_after_handling later clock' u.update_id (answer coach clock u db') u.chat_id
        (coach u.body (claimed clock u db')).1 (run_coach coach later u (claimed clock u db')).1
        marked
      ∙ ap ok failed)

ran_fine :
    (coach : Coach) (clock later : Clock) (u : Update) (db : Db)
    → let (error, mid) = coach u.body (claimed clock u db) in
      mark_update_handled later u.update_id error mid
        ≡ (ok tt, (run_coach coach later u (claimed clock u db)).1)
      → answer coach clock u db ≡ none
      → (run_coach coach later u (claimed clock u db)).0 ≡ record { status = 200; is_run = true }
unfolding run_coach
ran_fine coach clock later u db marked fine = ground (arith, marked, fine)

-- However often the coach failed, with a text that is not empty and fits its column, on an update
-- that was new at the start, the next delivery calls it, and if it then succeeds the answer is 200 and the update is handled.
pub deliver_at_last :
    (u : Update) (db db' : Db) (coach : Coach) (clock later : Clock)
    → is_handled u.body ≡ true
    → find_update u.update_id db ≡ none
    → Retried u db db'
    → KeepsUpdates coach
    → answer coach clock u db' ≡ none
    → let (reply, db'') = deliver coach clock later false u db' in
      (reply ≡ record { status = 200; is_run = true })
      × (processed_update_status u.update_id db'' ≡ some (codes "handled"))
unfolding processed_update_status fits_column
deliver_at_last u db db' coach clock later body new before keep fine =
    let can = Retried-CanClaim u db body (new-CanClaim u db new) before in
    let ran = deliver_run coach clock later u db' body can in
    let marked =
      noted coach clock later u db' keep (rw (fine, fits_column) refl)
        (claim_run clock u db' can) in
    let (row, found) =
      marked_row later u.update_id (answer coach clock u db') (coach u.body (claimed clock u db')).1
        (run_coach coach later u (claimed clock u db')).1 marked in
    let replied : (run_coach coach later u (claimed clock u db')).0
        ≡ record { status = 200; is_run = true } =
      ran_fine coach clock later u db' marked fine in
    rw ran (replied, rw found (rw fine))
