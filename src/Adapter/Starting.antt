-- ===== src/Adapter/Starting.antt =====
-- Starting a problem twice.
use leetcode_coach_service.Base.{
  true, Option, some, List, [], ◌&&◌, ◌==◌, ℤ, int_eq, nat_eq, first, is_some, or_else, ◌≡◌, sym,
  subst, arith, beq_refl,
}
use leetcode_coach_service.Text.{Text, text_eq, strip, lower}
use leetcode_coach_service.Text.Laws.{text_beq_refl}
use leetcode_coach_service.Calendar.{Clock}
use leetcode_coach_service.Model.{Problem, PendingReview, is_open_review}
use leetcode_coach_service.Store.{Db, ok}
use leetcode_coach_service.Store.Rows.{first-append}
use leetcode_coach_service.Store.Bind.{bind_returned}
use leetcode_coach_service.Attempts.{find_problem, open_review_for}
use leetcode_coach_service.Reviews.{direct_review}
use leetcode_coach_service.Adapter.Start.{
  ensure_problem, ensure_review, start_problem, started_problem,
}

ensure_problem_there :
    (clock : Clock) (slug : Text) (title difficulty : Option Text) (tags : Text) (db db' : Db)
    → ensure_problem clock slug title difficulty tags db ≡ (ok tt, db')
    → is_some (find_problem slug db') ≡ true
unfolding ensure_problem
ensure_problem_there clock slug title difficulty tags db db' run = ground (
  arith,
  first-append (λ (p : Problem). p.slug == slug) db.problems
      (started_problem clock.now slug (strip (or_else title [])) (lower (or_else difficulty []))
        tags),
  text_beq_refl slug,
)

ensure_review_there :
    (clock : Clock) (chat_id : ℤ) (slug : Text) (r : PendingReview) (db db' : Db)
    → ensure_review clock chat_id slug db ≡ (ok r, db')
    → (open_review_for chat_id slug db' ≡ some r) × (db'.problems ≡ db.problems)
unfolding ensure_review
ensure_review_there clock chat_id slug r db db' run = (
  ground (
    arith,
    first-append
        (λ (r : PendingReview).
          r.chat_id == chat_id && (r.problem_slug == slug && is_open_review r.status))
        db.reviews.rows (direct_review clock chat_id slug db.reviews.next_id),
    text_beq_refl slug,
    beq_refl chat_id,
  ),
  ground arith,
)

-- Starting a problem again gives the open review of the first start and writes nothing, whatever
-- else the second call says of the problem.
pub start_problem_again :
    (clock clock' : Clock) (chat_id : ℤ) (slug : Text)
    (title title' difficulty difficulty' : Option Text) (tags tags' : Text) (r : PendingReview)
    (db db' : Db)
    → start_problem clock chat_id slug title difficulty tags db ≡ (ok r, db')
    → start_problem clock' chat_id slug title' difficulty' tags' db' ≡ (ok r, db')
unfolding start_problem ensure_problem ensure_review
start_problem_again clock clock' chat_id slug title title' difficulty difficulty' tags tags' r db
      db' run =
    let (_, mid, ensured, opened) =
      bind_returned (ensure_problem clock slug title difficulty tags)
        (λ _. ensure_review clock chat_id slug) run in
    let there = ensure_problem_there clock slug title difficulty tags db mid ensured in
    let (found, same) = ensure_review_there clock chat_id slug r mid db' opened in
    let known : is_some (find_problem slug db') ≡ true =
      subst (λ (ps : List Problem). is_some (first (λ (p : Problem). p.slug == slug) ps) ≡ true)
        (sym same) there in
    rw (known, found)
