-- ===== src/Application/Recommit.antt =====
-- `Done` pressed twice.
use leetcode_coach_service.Base.{
  ℕ, Bool, true, some, List, [], ◌∷◌, ◌++◌, ◌≡◌, refl, ap, ◌∙◌, subst, ℤ, arith, Option-cases,
  Bool-cases, inl, inr, ◌==◌, ◌&&◌, int_eq, nat_eq, select, All, select-append, or_else, map-append,
  beq_refl,
}
use leetcode_coach_service.Text.{Text}
use leetcode_coach_service.Calendar.{Clock}
use leetcode_coach_service.Model.{
  ProposalBatch, PendingReview, BotState, picked, is_open_batch, is_picked,
}
use leetcode_coach_service.Store.{Db, ok}
use leetcode_coach_service.Store.Bind.{bind_returned, returned_eq}
use leetcode_coach_service.BotStates.{find_state}
use leetcode_coach_service.BotStates.Setting.{SameButStates}
use leetcode_coach_service.Proposals.{find_batch, commit_picks}
use leetcode_coach_service.Proposals.Picks.{
  IsFrom, commit_picks_rows, commit_picks_inv, picked_found,
}
use leetcode_coach_service.Application.{Codecs, is_live, pick_key}
use leetcode_coach_service.Application.Picking.{
  is_under, review_ids, batch_reviews, clean_up, commit_slugs, commit_selection, commit_active,
  commit_direct_picks,
}
use leetcode_coach_service.Application.Replay.{delete_state_rest}

clean_up_rest :
    (chat_id : ℤ) (batch_id : ℕ) (state : BotState) (db : Db)
    → SameButStates db (clean_up chat_id batch_id state db)
unfolding clean_up
clean_up_rest chat_id batch_id state db = delete_state_rest _ _

abbrev is_from : ℤ → ℕ → PendingReview → Bool
is_from chat_id batch_id r = r.chat_id == chat_id && is_under batch_id r.batch_id

select-IsFrom :
    (chat_id : ℤ) (batch_id : ℕ) (rs : List PendingReview)
    → All (IsFrom chat_id batch_id) rs
    → select (is_from chat_id batch_id) rs ≡ rs
select-IsFrom chat_id batch_id [] every = refl
select-IsFrom chat_id batch_id (r ∷ rs) ((_, chat, batch), every) =
    let here : is_from chat_id batch_id r ≡ true =
      rw (chat, batch) (ground (arith, beq_refl chat_id)) in
    rw (here, select-IsFrom chat_id batch_id rs every) refl

batch_reviews-append :
    (chat_id : ℤ) (batch_id : ℕ) (old new : List PendingReview)
    → All (IsFrom chat_id batch_id) new
    → review_ids (select (is_from chat_id batch_id) (old ++ new))
      ≡ review_ids (select (is_from chat_id batch_id) old) ++ review_ids new
batch_reviews-append chat_id batch_id old new every =
    ap review_ids (
      select-append (is_from chat_id batch_id) old new
      ∙ ap (λ rs. select (is_from chat_id batch_id) old ++ rs)
          (select-IsFrom chat_id batch_id new every))
    ∙ map-append (λ (r : PendingReview). r.id) (select (is_from chat_id batch_id) old) new

-- A selection that was committed: the batch is picked, and its new reviews are behind the others.
commit_slugs_found :
    (clock : Clock) (chat_id : ℤ) (batch_id : ℕ) (state : BotState) (slugs : List Text)
    (ids : List ℕ) (db db' : Db)
    → commit_slugs clock chat_id batch_id state slugs db ≡ (ok (some ids), db')
    → batch_reviews chat_id batch_id db ≡ []
    → (b : ProposalBatch) × (find_batch batch_id db' ≡ some b)
      × ((b.chat_id == chat_id) ≡ true)
      × (is_picked b.status ≡ true)
      × (batch_reviews chat_id batch_id db' ≡ ids)
unfolding commit_slugs batch_reviews
commit_slugs_found clock chat_id batch_id state [] ids db db' run fresh = cc
commit_slugs_found clock chat_id batch_id state (s ∷ slugs) ids db db' run fresh =
    let (reviews, mid, committed, cleaned) =
      bind_returned (commit_picks clock chat_id batch_id (s ∷ slugs)) _ run in
    let (batch, candidates, found, chat, _, _, _, written) =
      commit_picks_inv clock chat_id batch_id (s ∷ slugs) reviews db mid committed in
    let (rows, _, every) =
      commit_picks_rows clock chat_id batch_id (s ∷ slugs) reviews db mid committed in
    let (given, after) = returned_eq cleaned in
    let kept : SameButStates mid db' =
      subst (λ (d : Db). SameButStates mid d) after (clean_up_rest chat_id batch_id state mid) in
    let there : find_batch batch_id mid ≡ some (record batch { status = picked }) =
      subst (λ (d : Db). find_batch batch_id d ≡ some (record batch { status = picked })) written
        (picked_found clock chat_id batch_id batch candidates db found) in
    (
      record batch { status = picked },
      ap (find_batch batch_id) kept ∙ there,
      chat,
      refl,
      ap (batch_reviews chat_id batch_id) kept
          ∙ ap (λ rs. review_ids (select (is_from chat_id batch_id) rs)) rows
          ∙ batch_reviews-append chat_id batch_id db.reviews.rows reviews every
          ∙ ap (λ ids'. ids' ++ review_ids reviews) fresh
          ∙ ap (λ o. or_else o []) given,
    )

commit_picked :
    (codecs : Codecs) (clock : Clock) (chat_id : ℤ) (batch_id : ℕ) (b : ProposalBatch) (db : Db)
    → find_batch batch_id db ≡ some b
    → (b.chat_id == chat_id) ≡ true
    → is_picked b.status ≡ true
    → commit_direct_picks codecs clock chat_id batch_id db
      ≡ (ok (some (batch_reviews chat_id batch_id db)), db)
unfolding commit_direct_picks
commit_picked codecs clock chat_id batch_id b db found chat is =
    rw (found, commit_direct_picks) (rw (chat, is, commit_direct_picks) refl)

-- A batch that was active had a selection, which was committed.
commit_active_inv :
    (codecs : Codecs) (clock : Clock) (chat_id : ℤ) (batch_id : ℕ) (b : ProposalBatch)
    (ids : List ℕ) (db db' : Db)
    → commit_active codecs clock chat_id batch_id b db ≡ (ok (some ids), db')
    → (is_open_batch b.status ≡ true)
      × (state : BotState) × (slugs : List Text) × (commit_slugs clock chat_id batch_id state slugs
            db
          ≡ (ok (some ids), db'))
unfolding commit_active commit_selection is_live
commit_active_inv codecs clock chat_id batch_id b ids db db' run =
    elim (Option-cases (find_state chat_id (pick_key batch_id) db)) [
      | inl missing ↦ absurd (ground (arith, missing))
      | inr (state, there) ↦ elim (Option-cases (codecs.slugs.load state.value)) [
        | inl broken ↦ absurd (ground (arith, there, broken))
        | inr (slugs, read) ↦ (ground (arith, there), state, slugs, ground (arith, there, read))
      ]
    ]

-- `Done` pressed again, at whatever time, gives the same reviews and writes nothing: also after a
-- crash between the commit and the messages, the reviews of the selection are still found. No
-- review may stand under the batch before it is picked.
pub commit_direct_picks_again :
    (codecs : Codecs) (clock clock' : Clock) (chat_id : ℤ) (batch_id : ℕ) (ids : List ℕ)
    (db db' : Db)
    → commit_direct_picks codecs clock chat_id batch_id db ≡ (ok (some ids), db')
    → ((b : ProposalBatch)
        → find_batch batch_id db ≡ some b
        → is_open_batch b.status ≡ true
        → batch_reviews chat_id batch_id db ≡ [])
    → commit_direct_picks codecs clock' chat_id batch_id db' ≡ (ok (some ids), db')
unfolding commit_direct_picks
commit_direct_picks_again codecs clock clock' chat_id batch_id ids db db' run fresh =
    elim (Option-cases (find_batch batch_id db)) [
      | inl missing ↦ absurd (ground (arith, missing))
      | inr (b, found) ↦ elim (Bool-cases (b.chat_id == chat_id && is_picked b.status)) [
        | inl before ↦ ground (arith, found, before)
        | inr unpicked ↦
            let ran : commit_active codecs clock chat_id batch_id b db ≡ (ok (some ids), db') =
              ground (arith, found, unpicked) in
            let (free, state, slugs, committed) =
              commit_active_inv codecs clock chat_id batch_id b ids db db' ran in
            let (b', found', chat', picked', same) =
              commit_slugs_found clock chat_id batch_id state slugs ids db db' committed
                (fresh b found free) in
            commit_picked codecs clock' chat_id batch_id b' db' found' chat' picked'
            ∙ ap (λ (is : List ℕ). (ok (some is), db')) same
      ]
    ]
