-- ===== src/FollowUps.antt =====
-- Follow-up messages: `schedule_follow_up` and `cancel_follow_up` of `CoachDomain`
-- (src/leetcode_coach/domain/services.py), and `deliver_due_follow_ups` of jobs.py.
pub mod Laws
pub mod Bounds
pub mod Delivery
use leetcode_coach_service.Base.{
  ℕ, zero, suc, ◌+◌, Bool, true, false, Option, none, some, List, [], ◌∷◌, ◌++◌, ◌&&◌, ◌||◌, ⊤,
  if◌then◌else◌, ◌==◌, ℤ, int_eq, nat_eq, first, select, update, any, map, Eq, not, leb, ltb,
  is_some, take,
}
use leetcode_coach_service.Text.{Text, codes, text_eq, show_int}
use leetcode_coach_service.Calendar.{Clock, minutes}
use leetcode_coach_service.Model.{FollowUp}
use leetcode_coach_service.Store.{
  Db, Exec, Result, ok, err, pure, raise, raise_if, or_raise, modify, gets, ◌>>=◌, ◌>>◌,
  follow_up_not_found, not_cancellable,
}
use leetcode_coach_service.BotStates.{operation_replayed}

abbrev pub find_follow_up : Text → Db → Option FollowUp
find_follow_up id db = first (λ (f : FollowUp). f.id == id) db.follow_ups

-- `f"follow_up:{chat_id}:{identity}:{operation_key}"`, where `identity` is the digest of the due
-- time and the message, cut to twenty characters.
unfoldable pub follow_up_key : ℤ → Text → Text → Text
follow_up_key chat_id identity operation_key =
    codes "follow_up:"
    ++ (show_int chat_id ++ (codes ":" ++ (take 20 identity ++ (codes ":" ++ operation_key))))

abbrev pub new_follow_up : Clock → Text → ℤ → ℕ → Text → Text → FollowUp
new_follow_up clock uuid chat_id due_at message key = record {
  id = uuid;
  chat_id = chat_id;
  due_at = due_at;
  message = message;
  status = codes "scheduled";
  idempotency_key = key;
  attempt_count = 0;
  last_error = none;
  created_at = clock.now;
  updated_at = clock.now;
  delivered_at = none;
  cancelled_at = none;
}

-- `digest` gives `sha256(f"{due_at.isoformat()}:{message}").hexdigest()`, and `uuid` is the value
-- of `uuid.uuid4().hex`.
unfoldable pub schedule_follow_up :
    (ℕ → Text → Text) → Text → Clock → ℤ → ℕ → Text → Text → Exec FollowUp
schedule_follow_up digest uuid clock chat_id due_at message operation_key db =
    let key = follow_up_key chat_id (digest due_at message) operation_key in
    elim (first (λ (f : FollowUp). f.idempotency_key == key) db.follow_ups) [
      | some existing ↦ (ok existing, db)
      | none ↦
          let row = new_follow_up clock uuid chat_id due_at message key in
          (ok row, record db { follow_ups = db.follow_ups ++ row ∷ [] })
    ]

abbrev pub write_follow_up : Text → (FollowUp → FollowUp) → Db → Db
write_follow_up id f db = record db {
  follow_ups = update (λ (r : FollowUp). r.id == id) f db.follow_ups;
}

abbrev pub cancelled : Clock → FollowUp → FollowUp
cancelled clock f = record f {
  status = codes "cancelled";
  cancelled_at = some clock.now;
  updated_at = clock.now;
}

-- `status in {"delivered", "delivering"}`
abbrev pub is_past_cancelling : FollowUp → Bool
is_past_cancelling f = f.status == codes "delivered" || f.status == codes "delivering"

unfoldable pub cancel_follow_up : (Text → Text) → Clock → ℤ → Text → Text → Exec FollowUp
cancel_follow_up sha256 clock chat_id id operation_key = do
  found ← gets (find_follow_up id)
  row ← or_raise found follow_up_not_found
  raise_if (not (row.chat_id == chat_id)) follow_up_not_found
  replayed ←
      operation_replayed sha256 clock chat_id (codes "cancel_follow_up") id (some operation_key)
  if replayed then pure row else do
    raise_if (is_past_cancelling row) not_cancellable
    modify (write_follow_up id (cancelled clock))
    pure (cancelled clock row)

-- `FOLLOW_UP_CLAIM_LEASE` and `FOLLOW_UP_MAX_ATTEMPTS`
abbrev pub claim_lease : ℕ
claim_lease = minutes 5

abbrev pub max_attempts : ℕ
max_attempts = 5

-- `scheduled`, or `delivering` since the lease or longer.
unfoldable pub is_deliverable : ℕ → FollowUp → Bool
is_deliverable now f =
    f.status == codes "scheduled"
    || (f.status == codes "delivering" && leb (f.updated_at + claim_lease) now)

-- `ORDER BY due_at`
unfoldable pub insert_by_due : FollowUp → List FollowUp → List FollowUp
insert_by_due f [] = f ∷ []
insert_by_due f (g ∷ gs) = if leb f.due_at g.due_at then f ∷ g ∷ gs else g ∷ insert_by_due f gs

unfoldable pub sort_by_due : List FollowUp → List FollowUp
unfolding insert_by_due
sort_by_due [] = []
sort_by_due (f ∷ fs) = insert_by_due f (sort_by_due fs)

unfoldable pub due_ids : ℕ → Db → List Text
unfolding sort_by_due is_deliverable
due_ids now db =
    map (λ (f : FollowUp). f.id)
      (sort_by_due (select (λ f. is_deliverable now f && leb f.due_at now) db.follow_ups))

-- `UPDATE ... SET status = 'delivering' WHERE id = ... AND deliverable`: the claimed row, if the
-- update met one.
unfoldable pub claim_follow_up : ℕ → Text → Db → Option FollowUp × Db
unfolding is_deliverable
claim_follow_up now id db = elim (find_follow_up id db) [
  | none ↦ (none, db)
  | some f ↦
      let claimed = λ (r : FollowUp). record r { status = codes "delivering"; updated_at = now } in
      if is_deliverable now f then (some (claimed f), write_follow_up id claimed db) else (none, db)
]

abbrev pub failed_delivery : ℕ → Text → FollowUp → FollowUp
failed_delivery now error f = record f {
  attempt_count = f.attempt_count + 1;
  status = if leb max_attempts (f.attempt_count + 1) then codes "failed" else codes "scheduled";
  last_error = some (take 1000 error);
  updated_at = now;
}

abbrev pub delivered : ℕ → FollowUp → FollowUp
delivered now f = record f {
  status = codes "delivered";
  attempt_count = f.attempt_count + 1;
  last_error = none;
  delivered_at = some now;
  updated_at = now;
}

-- After the send: `none` is success, `some e` the exception's text. Nothing is written if the row
-- is no longer `delivering`.
abbrev pub delivery_outcome : ℕ → Option Text → FollowUp → FollowUp
delivery_outcome now none f = delivered now f
delivery_outcome now (some error) f = failed_delivery now error f

unfoldable pub finish_follow_up : ℕ → Text → Option Text → Db → Db
finish_follow_up now id outcome db = elim (find_follow_up id db) [
  | none ↦ db
  | some f ↦
      if f.status == codes "delivering"
      then write_follow_up id (delivery_outcome now outcome) db
      else db
]

-- One round of the loop: `outcome` is what Telegram answers to its message, `later` the time behind
-- the send. The list is of what was sent.
unfoldable pub deliver_one : ℕ → Option Text → ℕ → Text → Db → List (ℤ × Text) × Db
unfolding claim_follow_up finish_follow_up
deliver_one now outcome later id db =
    let (claim, db') = claim_follow_up now id db in
    elim claim [
      | none ↦ ([], db')
      | some f ↦ ((f.chat_id, f.message) ∷ [], finish_follow_up later id outcome db')
    ]

-- The rounds from number `round` on. `answers` gives the outcome and the time behind the send of
-- each, so that two equal messages of one run may have different ones.
unfoldable pub deliver_each : (ℕ → Option Text × ℕ) → ℕ → ℕ → List Text → Db → List (ℤ × Text) × Db
deliver_each answers now round [] db = ([], db)
deliver_each answers now round (id ∷ ids) db =
    let (outcome, later) = answers round in
    let (sent, db') = deliver_one now outcome later id db in
    let (rest, db'') = deliver_each answers now (round + 1) ids db' in (sent ++ rest, db'')

unfoldable pub deliver_due_follow_ups : (ℕ → Option Text × ℕ) → ℕ → Db → List (ℤ × Text) × Db
unfolding deliver_each
deliver_due_follow_ups answers now db = deliver_each answers now 0 (due_ids now db) db
