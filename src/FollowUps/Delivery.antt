-- ===== src/FollowUps/Delivery.antt =====
-- What a delivery run leaves: bounded attempts, and one more of them for each message sent.
use leetcode_coach_service.Base.{
  ℕ, ◌+◌, Option, none, some, List, [], ◌∷◌, ◌==◌, ℤ, int_eq, nat_eq, first, update, ◌≡◌, refl, sym,
  subst, arith, Option-cases, Bool-cases, inl, inr, length, length-append,
}
use leetcode_coach_service.Text.{Text, codes, text_eq, text_beq, text_beq_iff}
use leetcode_coach_service.Model.{FollowUp}
use leetcode_coach_service.Store.{Db}
use leetcode_coach_service.Store.Rows.{Unique, Unique-update, first-update, first-some}
use leetcode_coach_service.FollowUps.Bounds.{
  AreBounded, update_absent, claim_follow_up-AreBounded, finish_follow_up-AreBounded,
}
use leetcode_coach_service.FollowUps.{
  find_follow_up, write_follow_up, is_deliverable, claim_follow_up, delivery_outcome,
  finish_follow_up, deliver_one, deliver_each, deliver_due_follow_ups, due_ids,
}

-- The delivery attempts of all messages.
abbrev pub attempts : List FollowUp → ℕ
attempts [] = 0
attempts (f ∷ fs) = f.attempt_count + attempts fs

-- Writing the row of an identifier changes the attempts by that row's.
attempts-update :
    (id : Text) (g : FollowUp → FollowUp) (fs : List FollowUp) (a : FollowUp)
    → first (λ (f : FollowUp). f.id == id) fs ≡ some a
    → Unique (λ f. f.id) fs
    → attempts (update (λ (f : FollowUp). f.id == id) g fs) + a.attempt_count
      ≡ attempts fs + (g a).attempt_count
attempts-update id g [] a found u = absurd (ground (arith, found))
attempts-update id g (f ∷ fs) a found u = elim (Bool-cases (f.id == id)) [
  | inl same ↦
      let here : f ≡ a = ground (arith, same) in
      let key : f.id ≡ id = (text_beq_iff f.id id).0 same in
      rw
        (
          same,
          update_absent id g fs
              (subst (λ k. first (λ (f : FollowUp). f.id == k) fs ≡ none) key u.0),
          here,
        )
        (omega arith)
  | inr other ↦ rw other (omega (arith, attempts-update id g fs a (ground (arith, other)) u.1))
]

deliver_one-AreBounded :
    (now : ℕ) (outcome : Option Text) (later : ℕ) (id : Text) (db : Db)
    → AreBounded db.follow_ups
    → AreBounded (deliver_one now outcome later id db).1.follow_ups
unfolding deliver_one
deliver_one-AreBounded now outcome later id db h =
    let kept = claim_follow_up-AreBounded now id db h in
    elim (Option-cases (claim_follow_up now id db).0) [
      | inl lost ↦ rw (lost, deliver_one) kept
      | inr (f, won) ↦
          rw (won, deliver_one)
            (finish_follow_up-AreBounded later id outcome (claim_follow_up now id db).1 kept)
    ]

outcome_count :
    (now : ℕ) (outcome : Option Text) (f : FollowUp)
    → (delivery_outcome now outcome f).attempt_count ≡ f.attempt_count + 1
outcome_count now none f = refl
outcome_count now (some error) f = refl

claimed_found :
    (now : ℕ) (id : Text) (f : FollowUp) (db : Db)
    → let claimed = λ (r : FollowUp). record r { status = codes "delivering"; updated_at = now } in
      find_follow_up id db ≡ some f
      → find_follow_up id (write_follow_up id claimed db) ≡ some (claimed f)
claimed_found now id f db found =
    let claimed = λ (r : FollowUp). record r { status = codes "delivering"; updated_at = now } in
    ground (
      arith,
      found,
      first-update (λ (r : FollowUp). r.id == id) (λ r. r.id == id) claimed db.follow_ups
          (λ _. refl),
      first-some (λ (r : FollowUp). r.id == id) db.follow_ups f found,
    )

-- A round that sends counts one attempt more, and any other none.
deliver_one_counts :
    (now : ℕ) (outcome : Option Text) (later : ℕ) (id : Text) (db : Db)
    → AreBounded db.follow_ups
    → let (sent, db') = deliver_one now outcome later id db in
      attempts db'.follow_ups ≡ attempts db.follow_ups + length sent
unfolding deliver_one claim_follow_up finish_follow_up text_beq
deliver_one_counts now outcome later id db h =
    let Counts =
      λ (r : List (ℤ × Text) × Db). attempts r.1.follow_ups ≡ attempts db.follow_ups + length r.0 in
    elim (Option-cases (find_follow_up id db)) [
      | inl missing ↦
          let step : deliver_one now outcome later id db ≡ ([], db) = ground (arith, missing) in
          subst Counts (sym step) (omega arith)
      | inr (f, found) ↦ elim (Bool-cases (is_deliverable now f)) [
        | inl due ↦
            let claimed =
              λ (r : FollowUp). record r { status = codes "delivering"; updated_at = now } in
            let mid = write_follow_up id claimed db in
            let there : find_follow_up id mid ≡ some (claimed f) =
              claimed_found now id f db found in
            let step : deliver_one now outcome later id db ≡ (
              (f.chat_id, f.message) ∷ [],
              write_follow_up id (delivery_outcome later outcome) mid,
            ) =
              ground (arith, found, due, there) in
            subst Counts (sym step) (
              omega (
                arith,
                attempts-update id claimed db.follow_ups f found h.0,
                attempts-update id (delivery_outcome later outcome) mid.follow_ups (claimed f) there
                    (Unique-update (λ (r : FollowUp). r.id) (λ r. r.id == id) claimed db.follow_ups
                      (λ _. refl) h.0),
                outcome_count later outcome (claimed f),
              ))
        | inr kept ↦
            let step : deliver_one now outcome later id db ≡ ([], db) =
              ground (arith, found, kept) in
            subst Counts (sym step) (omega arith)
      ]
    ]

deliver_each-AreBounded :
    (answers : ℕ → Option Text × ℕ) (now round : ℕ) (ids : List Text) (db : Db)
    → AreBounded db.follow_ups
    → let (sent, db') = deliver_each answers now round ids db in
      AreBounded db'.follow_ups × (attempts db'.follow_ups ≡ attempts db.follow_ups + length sent)
unfolding deliver_each
deliver_each-AreBounded answers now round [] db h = (h, ground arith)
deliver_each-AreBounded answers now round (id ∷ ids) db h =
    let (outcome, later) = answers round in
    let (sent, db') = deliver_one now outcome later id db in
    let (kept, more) =
      deliver_each-AreBounded answers now (round + 1) ids db'
        (deliver_one-AreBounded now outcome later id db h) in
    (
      kept,
      omega (
        arith,
        more,
        deliver_one_counts now outcome later id db h,
        length-append sent (deliver_each answers now (round + 1) ids db').0,
      ),
    )

-- Whatever Telegram answers to each message, a delivery run leaves no message with more than five
-- attempts, and none with five that may still be sent, and identifiers unique, if it was so before;
-- and the attempts of all messages grow by exactly the number of messages that it sent.
pub deliver_due_follow_ups-AreBounded :
    (answers : ℕ → Option Text × ℕ) (now : ℕ) (db : Db)
    → AreBounded db.follow_ups
    → let (sent, db') = deliver_due_follow_ups answers now db in
      AreBounded db'.follow_ups × (attempts db'.follow_ups ≡ attempts db.follow_ups + length sent)
unfolding deliver_due_follow_ups
deliver_due_follow_ups-AreBounded answers now db h =
    deliver_each-AreBounded answers now 0 (due_ids now db) db h
