-- ===== src/FollowUps/Bounds.antt =====
-- The bound on delivery attempts: claiming a message and noting what became of it keep it.
use leetcode_coach_service.Base.{
  ℕ, ◌+◌, ◌≤◌, Bool, true, Option, none, some, List, [], ◌∷◌, ◌||◌, if◌then◌else◌, ◌==◌, int_eq,
  nat_eq, first, update, ◌≡◌, refl, sym, subst, arith, Option-cases, Bool-cases, inl, inr, All,
}
use leetcode_coach_service.Text.{Text, codes, text_eq, text_beq, text_beq_iff}
use leetcode_coach_service.Model.{FollowUp}
use leetcode_coach_service.Store.{Db}
use leetcode_coach_service.Store.Rows.{Unique, Unique-update}
use leetcode_coach_service.FollowUps.{
  find_follow_up, max_attempts, is_deliverable, claim_follow_up, delivery_outcome, finish_follow_up,
}

-- `scheduled` or `delivering`: the row may still be sent.
abbrev pub is_waiting : FollowUp → Bool
is_waiting f = f.status == codes "scheduled" || f.status == codes "delivering"

-- No row has more than five attempts, and one that may still be sent has fewer.
abbrev pub IsBounded : FollowUp → Type 0
IsBounded f = f.attempt_count + (if is_waiting f then 1 else 0) ≤ max_attempts

-- Rows have different identifiers, the table's primary key, and each is bounded.
abbrev pub AreBounded : List FollowUp → Type 0
AreBounded fs = Unique (λ f. f.id) fs × All IsBounded fs

pub update_absent :
    (id : Text) (g : FollowUp → FollowUp) (fs : List FollowUp)
    → first (λ (f : FollowUp). f.id == id) fs ≡ none
    → update (λ (f : FollowUp). f.id == id) g fs ≡ fs
update_absent id g [] h = refl
update_absent id g (f ∷ fs) h = ground (arith, update_absent id g fs)

-- Writing the row of an identifier keeps the rows bounded if it keeps that row bounded.
update-IsBounded :
    (id : Text) (g : FollowUp → FollowUp) (fs : List FollowUp) (a : FollowUp)
    → first (λ (f : FollowUp). f.id == id) fs ≡ some a
    → (IsBounded a → IsBounded (g a))
    → Unique (λ f. f.id) fs
    → All IsBounded fs
    → All IsBounded (update (λ (f : FollowUp). f.id == id) g fs)
update-IsBounded id g [] a found keep u h = cc
update-IsBounded id g (f ∷ fs) a found keep u h = elim (Bool-cases (f.id == id)) [
  | inl same ↦
      let here : f ≡ a = ground (arith, same) in
      let key : f.id ≡ id = (text_beq_iff f.id id).0 same in
      rw
        (
          same,
          update_absent id g fs
              (subst (λ k. first (λ (f : FollowUp). f.id == k) fs ≡ none) key u.0),
        )
        (subst (λ b. IsBounded (g b)) (sym here) (keep (subst IsBounded here h.0)), h.1)
  | inr other ↦ rw other (h.0, update-IsBounded id g fs a (ground (arith, other)) keep u.1 h.1)
]

-- Claiming a row that is deliverable, and noting what became of one that is being delivered.
claim_row-IsBounded :
    (now : ℕ) (f : FollowUp)
    → is_deliverable now f ≡ true
    → IsBounded f
    → IsBounded (record f { status = codes "delivering"; updated_at = now })
unfolding is_deliverable text_beq
claim_row-IsBounded now f due h = ground arith

outcome-IsBounded :
    (now : ℕ) (outcome : Option Text) (f : FollowUp)
    → f.status == codes "delivering" ≡ true
    → IsBounded f
    → IsBounded (delivery_outcome now outcome f)
unfolding text_beq
outcome-IsBounded now none f status h = ground arith
outcome-IsBounded now (some error) f status h = ground arith

outcome_id :
    (now : ℕ) (outcome : Option Text) (f : FollowUp) → (delivery_outcome now outcome f).id ≡ f.id
outcome_id now none f = refl
outcome_id now (some error) f = refl

pub claim_follow_up-AreBounded :
    (now : ℕ) (id : Text) (db : Db)
    → AreBounded db.follow_ups
    → AreBounded (claim_follow_up now id db).1.follow_ups
unfolding claim_follow_up
claim_follow_up-AreBounded now id db h = elim (Option-cases (find_follow_up id db)) [
  | inl missing ↦ rw (missing, claim_follow_up) h
  | inr (f, found) ↦ elim (Bool-cases (is_deliverable now f)) [
    | inl due ↦
        let claimed =
          λ (r : FollowUp). record r { status = codes "delivering"; updated_at = now } in
        rw (found, due, claim_follow_up)
          (
            Unique-update (λ (r : FollowUp). r.id) (λ r. r.id == id) claimed db.follow_ups
                (λ _. refl) h.0,
            update-IsBounded id claimed db.follow_ups f found (claim_row-IsBounded now f due) h.0
                h.1,
          )
    | inr kept ↦ rw (found, kept, claim_follow_up) h
  ]
]

pub finish_follow_up-AreBounded :
    (now : ℕ) (id : Text) (outcome : Option Text) (db : Db)
    → AreBounded db.follow_ups
    → AreBounded (finish_follow_up now id outcome db).follow_ups
unfolding finish_follow_up
finish_follow_up-AreBounded now id outcome db h = elim (Option-cases (find_follow_up id db)) [
  | inl missing ↦ rw (missing, finish_follow_up) h
  | inr (f, found) ↦ elim (Bool-cases (f.status == codes "delivering")) [
    | inl sending ↦
        rw (found, sending, finish_follow_up)
          (
            Unique-update (λ (r : FollowUp). r.id) (λ r. r.id == id) (delivery_outcome now outcome)
                db.follow_ups (outcome_id now outcome) h.0,
            update-IsBounded id (delivery_outcome now outcome) db.follow_ups f found
                (outcome-IsBounded now outcome f sending) h.0 h.1,
          )
    | inr kept ↦ rw (found, kept, finish_follow_up) h
  ]
]
