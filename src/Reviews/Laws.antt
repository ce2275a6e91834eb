-- ===== src/Reviews/Laws.antt =====
-- What the buttons of a review do.
use leetcode_coach_service.Base.{
  ℕ, true, some, [], ◌∷◌, ◌≡◌, ◌==◌, nat_eq, int_eq, ℤ, arith, Option-cases, inl, inr, beq_refl,
}
use leetcode_coach_service.Text.{Text, text_eq}
use leetcode_coach_service.Text.Laws.{text_beq_refl}
use leetcode_coach_service.Calendar.{Clock}
use leetcode_coach_service.Model.{PendingReview}
use leetcode_coach_service.Store.{Db, ok}
use leetcode_coach_service.Store.Rows.{first-append, first-append_found}
use leetcode_coach_service.Attempts.{find_review}
use leetcode_coach_service.Reviews.{
  open_direct, reattempt_problem, is_direct, direct_review, can_reattempt,
}

open_direct_again :
    (clock clock' : Clock) (chat_id : ℤ) (slug : Text) (r : PendingReview) (db db' : Db)
    → open_direct clock chat_id slug db ≡ (ok r, db')
    → open_direct clock' chat_id slug db' ≡ (ok r, db')
unfolding open_direct
open_direct_again clock clock' chat_id slug r db db' run = ground (
  arith,
  first-append (is_direct chat_id slug) db.reviews.rows
      (direct_review clock chat_id slug db.reviews.next_id),
  text_beq_refl slug,
  beq_refl chat_id,
)

open_direct_source :
    (clock : Clock) (chat_id : ℤ) (slug : Text) (id : ℕ) (source r : PendingReview) (db db' : Db)
    → find_review id db ≡ some source
    → open_direct clock chat_id slug db ≡ (ok r, db')
    → find_review id db' ≡ some source
unfolding open_direct
open_direct_source clock chat_id slug id source r db db' found run = ground (
  arith,
  first-append_found (λ (r : PendingReview). r.id == id) db.reviews.rows
      (direct_review clock chat_id slug db.reviews.next_id ∷ []) source found,
)

reattempt_problem_inv :
    (clock : Clock) (chat_id : ℤ) (review_id : ℕ) (r : PendingReview) (db db' : Db)
    → reattempt_problem clock chat_id review_id db ≡ (ok r, db')
    → (source : PendingReview) × (find_review review_id db ≡ some source)
      × ((source.chat_id == chat_id) ≡ true)
      × (can_reattempt source.status ≡ true)
      × (open_direct clock chat_id source.problem_slug db ≡ (ok r, db'))
unfolding reattempt_problem
reattempt_problem_inv clock chat_id review_id r db db' run =
    elim (Option-cases (find_review review_id db)) [
      | inl missing ↦ absurd (ground (arith, missing))
      | inr (source, found) ↦ (source, found, ground arith, ground arith, ground arith)
    ]

-- Asking again for another attempt at a closed review gives the review that the first request
-- opened or found, and opens no second one.
pub reattempt_problem_again :
    (clock clock' : Clock) (chat_id : ℤ) (review_id : ℕ) (r : PendingReview) (db db' : Db)
    → reattempt_problem clock chat_id review_id db ≡ (ok r, db')
    → reattempt_problem clock' chat_id review_id db' ≡ (ok r, db')
unfolding reattempt_problem
reattempt_problem_again clock clock' chat_id review_id r db db' run =
    let (source, found, chat, closed, opened) =
      reattempt_problem_inv clock chat_id review_id r db db' run in
    let found' =
      open_direct_source clock chat_id source.problem_slug review_id source r db db' found opened in
    rw (found', chat, closed)
      (open_direct_again clock clock' chat_id source.problem_slug r db db' opened)
