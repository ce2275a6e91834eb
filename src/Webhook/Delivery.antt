-- ===== src/Webhook/Delivery.antt =====
-- One delivery of an update, and the next one.
use leetcode_coach_service.Base.{
  ◌+◌, leb, if◌then◌else◌, Bool, true, false, Option, some, ◌≡◌, ap, ◌∙◌, ◌==◌, nat_eq, arith,
  Bool-cases, inl, inr, first,
}
use leetcode_coach_service.Text.{Text, text_eq}
use leetcode_coach_service.Calendar.{Clock, minutes}
use leetcode_coach_service.Model.{ProcessedUpdate}
use leetcode_coach_service.Store.{Db, ok}
use leetcode_coach_service.Updates.{
  find_update, record_update, mark_update_handled, is_failure, fits_column,
}
use leetcode_coach_service.Updates.Laws.{
  claimed_row, reclaim_received, record_update_after_handling,
}
use leetcode_coach_service.Webhook.{Body, Update, Coach, is_handled, run_coach, deliver}

-- The coach leaves the table of updates alone.
abbrev pub KeepsUpdates : Coach → Type 0
KeepsUpdates coach = (body : Body) (db : Db) → (coach body db).1.processed ≡ db.processed

-- The database behind the claim of an update, and what the coach then answers.
abbrev pub claimed : Clock → Update → Db → Db
claimed clock u db = (record_update clock u.update_id u.chat_id db).1

abbrev pub answer : Coach → Clock → Update → Db → Option Text
answer coach clock u db = (coach u.body (claimed clock u db)).0

-- A delivery that calls the coach has claimed the update.
pub deliver_inv :
    (coach : Coach) (clock later : Clock) (raced : Bool) (u : Update) (db : Db)
    → (deliver coach clock later raced u db).0.is_run ≡ true
    → (record_update clock u.update_id u.chat_id db ≡ (ok true, claimed clock u db))
      × (is_handled u.body ≡ true)
      × (deliver coach clock later raced u db ≡ run_coach coach later u (claimed clock u db))
unfolding deliver
deliver_inv coach clock later raced u db ran = ground (arith, ran)

-- Behind the coach the update is still there.
kept_row :
    (coach : Coach) (u : Update) (row : ProcessedUpdate) (db : Db)
    → KeepsUpdates coach
    → find_update u.update_id db ≡ some row
    → find_update u.update_id (coach u.body db).1 ≡ some row
kept_row coach u row db keep found =
    ap (first (λ (p : ProcessedUpdate). p.update_id == u.update_id)) (keep u.body db) ∙ found

run_coach-is_run :
    (coach : Coach) (later : Clock) (u : Update) (db : Db)
    → (run_coach coach later u db).0.is_run ≡ true
unfolding run_coach
run_coach-is_run coach later u db = ground arith

-- Its handling can be noted, if the text of the exception fits its column.
pub noted :
    (coach : Coach) (clock later : Clock) (u : Update) (db : Db)
    → KeepsUpdates coach
    → fits_column (answer coach clock u db) ≡ true
    → record_update clock u.update_id u.chat_id db ≡ (ok true, claimed clock u db)
    → let (error, mid) = coach u.body (claimed clock u db) in
      mark_update_handled later u.update_id error mid
      ≡ (ok tt, (run_coach coach later u (claimed clock u db)).1)
unfolding run_coach mark_update_handled
noted coach clock later u db keep fits run =
    let (row, found, _, _) = claimed_row clock u.update_id u.chat_id db (claimed clock u db) run in
    let there = kept_row coach u row (claimed clock u db) keep found in ground (arith, there, fits)

-- It is not noted otherwise, and the database is as the coach left it.
unnoted :
    (coach : Coach) (later : Clock) (u : Update) (db : Db)
    → fits_column (coach u.body db).0 ≡ false
    → (run_coach coach later u db).1 ≡ (coach u.body db).1
unfolding run_coach mark_update_handled
unnoted coach later u db refused = ground (arith, refused)

-- Who gets the update next.
reclaim :
    (coach : Coach) (clock later clock' : Clock) (u : Update) (db : Db)
    → KeepsUpdates coach
    → record_update clock u.update_id u.chat_id db ≡ (ok true, claimed clock u db)
    → (record_update clock' u.update_id u.chat_id
        (run_coach coach later u (claimed clock u db)).1).0
      ≡ ok (
          if fits_column (answer coach clock u db)
          then is_failure (answer coach clock u db)
          else leb (clock.now + minutes 15) clock'.now)
unfolding record_update
reclaim coach clock later clock' u db keep run =
    elim (Bool-cases (fits_column (answer coach clock u db))) [
      | inl fits ↦ rw fits (
          record_update_after_handling later clock' u.update_id (answer coach clock u db) u.chat_id
            (coach u.body (claimed clock u db)).1 (run_coach coach later u (claimed clock u db)).1
            (noted coach clock later u db keep fits run))
      | inr refused ↦
          let (row, found, status, since) =
            claimed_row clock u.update_id u.chat_id db (claimed clock u db) run in
          let there = kept_row coach u row (claimed clock u db) keep found in
          let same = unnoted coach later u (claimed clock u db) refused in
          ground (arith, refused, same, there, since, reclaim_received clock' row status)
    ]

-- After a delivery that called the coach, the next delivery of the same update calls it again,
-- at whatever time, if and only if the first call raised an exception whose text is not empty. But
-- if that text does not fit its column, it calls the coach again exactly from fifteen minutes after
-- the first claim on.
pub deliver_again :
    (coach coach' : Coach) (clock later clock' later' : Clock) (u : Update) (db : Db)
    → KeepsUpdates coach
    → (deliver coach clock later false u db).0.is_run ≡ true
    → (deliver coach' clock' later' false u (deliver coach clock later false u db).1).0.is_run ≡ (
        if fits_column (answer coach clock u db)
        then is_failure (answer coach clock u db)
        else leb (clock.now + minutes 15) clock'.now)
unfolding deliver
deliver_again coach coach' clock later clock' later' u db keep ran =
    let (run, body, same) = deliver_inv coach clock later false u db ran in
    let again =
      if fits_column (answer coach clock u db)
      then is_failure (answer coach clock u db)
      else leb (clock.now + minutes 15) clock'.now in
    let next = reclaim coach clock later clock' u db keep run in
    let called =
      run_coach-is_run coach' later' u
        (claimed clock' u (run_coach coach later u (claimed clock u db)).1) in
    elim (Bool-cases again) [
      | inl due ↦ rw (same, due) (ground (arith, next, due, body, called))
      | inr early ↦ rw (same, early) (ground (arith, next, early, body))
    ]
