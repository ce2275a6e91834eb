-- ===== src/Proposals/Picks.antt =====
-- Picking candidates: what is written, and that a batch is picked once.
use mathlib.Core.Path.{subst, subst₂}
use leetcode_coach_service.Base.{
  ℕ, suc, true, some, List, [], ◌∷◌, ◌++◌, ◌≡◌, refl, ap, sym, ◌∙◌, append_assoc, ◌==◌, nat_eq,
  nat_beq, nat_beq_iff, Bool-cases, int_eq, ℤ, arith, Option-cases, inl, inr, ◌⊎◌, length, select,
  not, All, ◌||◌, append-nil,
}
use leetcode_coach_service.Text.{Text, text_eq}
use leetcode_coach_service.Calendar.{Clock}
use leetcode_coach_service.Model.{
  ProposalBatch, ProposalCandidate, PendingReview, picked, open_review,
}
use leetcode_coach_service.Store.{Db, ok, err, Result, batch_closed, bad_picks}
use leetcode_coach_service.Store.Bind.{bind_returned, returned_eq}
use leetcode_coach_service.Store.Rows.{first-update, first-some}
use leetcode_coach_service.Proposals.{
  find_batch, insert_by_position, sort_by_position, new_review, select_candidates, set_batch,
  check_picks, take_picks, commit_picks, distinct, is_pick,
}

length-insert_by_position :
    (c : ProposalCandidate) (cs : List ProposalCandidate)
    → length (insert_by_position c cs) ≡ suc (length cs)
unfolding insert_by_position
length-insert_by_position c [] = refl
length-insert_by_position c (d ∷ ds) = ground (arith, length-insert_by_position c ds)

pub length-sort_by_position :
    (cs : List ProposalCandidate) → length (sort_by_position cs) ≡ length cs
unfolding sort_by_position
length-sort_by_position [] = refl
length-sort_by_position (c ∷ cs) =
    length-insert_by_position c (sort_by_position cs) ∙ ap suc (length-sort_by_position cs)

-- An open review of the chat that comes from the batch.
abbrev pub IsFrom : ℤ → ℕ → PendingReview → Type 0
IsFrom chat_id batch_id r =
    (r.status ≡ open_review) × (r.chat_id ≡ chat_id) × (r.batch_id ≡ some batch_id)

module _ (clock : Clock) (chat_id : ℤ) (batch : ProposalBatch) where
  select_candidates_batches :
      (cs : List ProposalCandidate) (db : Db)
      → (select_candidates clock chat_id batch cs db).1.batches ≡ db.batches
  unfolding select_candidates
  select_candidates_batches [] db = refl
  select_candidates_batches (c ∷ cs) db = select_candidates_batches cs _

  pub length-select_candidates :
      (cs : List ProposalCandidate) (db : Db)
      → length (select_candidates clock chat_id batch cs db).0 ≡ length cs
  unfolding select_candidates
  length-select_candidates [] db = refl
  length-select_candidates (c ∷ cs) db = ap suc (length-select_candidates cs _)

  select_candidates_rows :
      (cs : List ProposalCandidate) (db : Db)
      → let (reviews, db') = select_candidates clock chat_id batch cs db in
        db'.reviews.rows ≡ db.reviews.rows ++ reviews
  unfolding select_candidates
  select_candidates_rows [] db = sym (append-nil db.reviews.rows)
  select_candidates_rows (c ∷ cs) db =
      select_candidates_rows cs _
      ∙ append_assoc db.reviews.rows (new_review clock chat_id batch c db.reviews.next_id ∷ []) _

  select_candidates-IsFrom :
      (cs : List ProposalCandidate) (db : Db)
      → All (IsFrom chat_id batch.id) (select_candidates clock chat_id batch cs db).0
  unfolding select_candidates
  select_candidates-IsFrom [] db = tt
  select_candidates-IsFrom (c ∷ cs) db = ((refl, refl, refl), select_candidates-IsFrom cs _)

check_picks_same :
    (clock : Clock) (chat_id : ℤ) (batch_id : ℕ) (slugs : List Text) (db : Db)
    → (check_picks clock chat_id batch_id slugs db).1 ≡ db
unfolding check_picks
check_picks_same clock chat_id batch_id slugs db = ground arith

check_picks_inv :
    (clock : Clock) (chat_id : ℤ) (batch_id : ℕ) (slugs : List Text) (batch : ProposalBatch)
    (candidates : List ProposalCandidate) (db mid : Db)
    → check_picks clock chat_id batch_id slugs db ≡ (ok (batch, candidates), mid)
    → (find_batch batch_id db ≡ some batch)
      × ((batch.chat_id == chat_id) ≡ true)
      × (candidates ≡ select (is_pick batch_id slugs) db.candidates.rows)
      × (length candidates ≡ length slugs)
unfolding check_picks
check_picks_inv clock chat_id batch_id slugs batch candidates db mid run =
    elim (Option-cases (find_batch batch_id db)) [
      | inl missing ↦ absurd (ground (arith, missing))
      | inr (b, found) ↦ (
        ground (arith, found),
        ground (arith, found),
        ground (arith, found),
        ground (arith, found),
      )
    ]

pub commit_picks_inv :
    (clock : Clock) (chat_id : ℤ) (batch_id : ℕ) (slugs : List Text) (reviews : List PendingReview)
    (db db' : Db)
    → commit_picks clock chat_id batch_id slugs db ≡ (ok reviews, db')
    → (batch : ProposalBatch) × (candidates : List ProposalCandidate) × (find_batch batch_id db
        ≡ some batch)
      × ((batch.chat_id == chat_id) ≡ true)
      × (candidates ≡ select (is_pick batch_id slugs) db.candidates.rows)
      × (length candidates ≡ length slugs)
      × ((take_picks clock chat_id batch candidates db).0 ≡ reviews)
      × ((take_picks clock chat_id batch candidates db).1 ≡ db')
unfolding commit_picks
commit_picks_inv clock chat_id batch_id slugs reviews db db' run =
    let ((batch, candidates), mid, checked, rest) =
      bind_returned (check_picks clock chat_id batch_id slugs) _ run in
    let same : mid ≡ db =
      ap (λ (r : Result (ProposalBatch × List ProposalCandidate) × Db). r.1) (sym checked)
      ∙ check_picks_same clock chat_id batch_id slugs db in
    let (found, chat, chosen, count) =
      check_picks_inv clock chat_id batch_id slugs batch candidates db mid checked in
    let written = returned_eq rest in
    (
      batch,
      candidates,
      found,
      chat,
      chosen,
      count,
      subst (λ (d : Db). (take_picks clock chat_id batch candidates d).0 ≡ reviews) same written.0,
      subst (λ (d : Db). (take_picks clock chat_id batch candidates d).1 ≡ db') same written.1,
    )

-- The reviews of a pick stand behind those that were there; each is open, belongs to the chat and
-- comes from the batch.
pub commit_picks_rows :
    (clock : Clock) (chat_id : ℤ) (batch_id : ℕ) (slugs : List Text) (reviews : List PendingReview)
    (db db' : Db)
    → commit_picks clock chat_id batch_id slugs db ≡ (ok reviews, db')
    → (db'.reviews.rows ≡ db.reviews.rows ++ reviews)
      × (length reviews ≡ length slugs)
      × All (IsFrom chat_id batch_id) reviews
unfolding take_picks set_batch
commit_picks_rows clock chat_id batch_id slugs reviews db db' run =
    let (batch, candidates, found, _, _, count, given, written) =
      commit_picks_inv clock chat_id batch_id slugs reviews db db' run in
    let sorted = sort_by_position candidates in
    let same_id =
      first-some (λ (b : ProposalBatch). b.id == batch_id) db.batches.rows batch found in
    (
      ap (λ (d : Db). d.reviews.rows) (sym written)
          ∙ select_candidates_rows clock chat_id batch sorted db
          ∙ ap (λ rs. db.reviews.rows ++ rs) given,
      ap length (sym given)
          ∙ length-select_candidates clock chat_id batch sorted db
          ∙ length-sort_by_position candidates
          ∙ count,
      subst₂ (λ (n : ℕ) (rs : List PendingReview). All (IsFrom chat_id n) rs)
          ((nat_beq_iff batch.id batch_id).0 same_id) given
          (select_candidates-IsFrom clock chat_id batch sorted db),
    )

-- Behind a pick the batch is `picked`.
pub picked_found :
    (clock : Clock) (chat_id : ℤ) (batch_id : ℕ) (batch : ProposalBatch)
    (candidates : List ProposalCandidate) (db : Db)
    → find_batch batch_id db ≡ some batch
    → find_batch batch_id (take_picks clock chat_id batch candidates db).1
      ≡ some (record batch { status = picked })
unfolding take_picks set_batch
picked_found clock chat_id batch_id batch candidates db found = rw select_candidates_batches (
    ground (
      arith,
      first-update (λ (b : ProposalBatch). b.id == batch_id)
          (λ (b : ProposalBatch). b.id == batch.id) (λ b. record b { status = picked })
          db.batches.rows (λ _. refl),
    ))

-- A batch is picked once: after a pick that went through, any further pick from the batch is
-- refused, as a closed batch or for its malformed slugs, and changes nothing.
pub commit_picks_once :
    (clock clock' : Clock) (chat_id : ℤ) (batch_id : ℕ) (slugs slugs' : List Text)
    (reviews : List PendingReview) (db db' : Db)
    → commit_picks clock chat_id batch_id slugs db ≡ (ok reviews, db')
    → (commit_picks clock' chat_id batch_id slugs' db' ≡ (err batch_closed, db'))
      ⊎ (commit_picks clock' chat_id batch_id slugs' db' ≡ (err bad_picks, db'))
unfolding take_picks set_batch commit_picks check_picks
commit_picks_once clock clock' chat_id batch_id slugs slugs' reviews db db' run =
    let (batch, candidates, found, chat, _, _, _, written) =
      commit_picks_inv clock chat_id batch_id slugs reviews db db' run in
    let now_found : find_batch batch_id db' ≡ some (record batch { status = picked }) =
      subst (λ (d : Db). find_batch batch_id d ≡ some (record batch { status = picked })) written
        (picked_found clock chat_id batch_id batch candidates db found) in
    elim (Bool-cases (nat_beq (length slugs') 0 || not (distinct slugs'))) [
      | inl bad ↦ inr (rw bad)
      | inr good ↦ inl (rw (good, now_found, chat))
    ]
