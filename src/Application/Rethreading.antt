-- ===== src/Application/Rethreading.antt =====
-- Review threads, sent by `_send_review_threads` of src/leetcode_coach/application.py, a second time.
use leetcode_coach_service.Base.{
  ℕ, none, some, List, [], ◌∷◌, ◌≡◌, refl, ap, sym, ◌∙◌, subst, inl, inr, ℤ, arith, ⊤, All,
  Option-cases, Bool-cases, ◌==◌, nat_eq,
}
use leetcode_coach_service.Model.{Problem, PendingReview}
use leetcode_coach_service.Store.{Db, modify, write}
use leetcode_coach_service.Store.Rows.{first-update, first-some}
use leetcode_coach_service.Attempts.{find_review}
use leetcode_coach_service.Telegram.{
  World, Bot, Reply, returned, failed, transact, send_message, then_do,
}
use leetcode_coach_service.Telegram.Sending.{send_message_db}
use leetcode_coach_service.Application.Threads.{
  unsent_problem, in_message, set_review, review_message, send_thread, send_review_threads,
}

-- There is nothing to send of the review.
abbrev Settled : Db → ℕ → Type 0
Settled db id = unsent_problem id db ≡ none

-- Noting the message of a review leaves settled what was.
set_review-Settled :
    (id j message_id : ℕ) (db : Db)
    → Settled db j
    → Settled (set_review id (in_message message_id) db) j
unfolding unsent_problem
set_review-Settled id j message_id db before =
    let found =
      first-update (λ (r : PendingReview). r.id == j) (λ (r : PendingReview). r.id == id)
        (in_message message_id) db.reviews.rows (λ _. refl) in
    elim (Option-cases (find_review j db)) [
      | inl missing ↦ ground (arith, found, missing)
      | inr (r, there) ↦ elim (Bool-cases (r.id == id)) [
        | inl noted ↦ ground (arith, found, there, noted)
        | inr other ↦ ground (arith, found, there, other, before)
      ]
    ]

-- It settles that review.
noted-Settled :
    (id message_id : ℕ) (db : Db) → Settled (set_review id (in_message message_id) db) id
unfolding unsent_problem
noted-Settled id message_id db =
    let found =
      first-update (λ (r : PendingReview). r.id == id) (λ (r : PendingReview). r.id == id)
        (in_message message_id) db.reviews.rows (λ _. refl) in
    elim (Option-cases (find_review id db)) [
      | inl missing ↦ ground (arith, found, missing)
      | inr (r, there) ↦ ground (
        arith,
        found,
        there,
        first-some (λ (r : PendingReview). r.id == id) db.reviews.rows r there,
      )
    ]

module _ (bot : Bot) (chat_id : ℤ) where
  send_thread_idle :
      (id : ℕ) (w : World) → Settled w.db id → send_thread bot chat_id id w ≡ (returned tt, w)
  unfolding send_thread
  send_thread_idle id w settled = rw (settled, send_thread) refl

  sent_thread :
      (id : ℕ) (p : Problem) (w : World)
      → unsent_problem id w.db ≡ some p
      → send_thread bot chat_id id w
        ≡ then_do
            (send_message bot chat_id (review_message p id) w)
            (λ message_id. transact (modify (set_review id (in_message message_id))))
  unfolding send_thread
  sent_thread id p w unsent = rw (unsent, send_thread) refl

  -- What a thread that went through did to the reviews.
  noted_thread :
      (id : ℕ) (r : Reply ℕ) (w w' : World)
      → then_do (r, w) (λ message_id. transact (modify (set_review id (in_message message_id))))
        ≡ (returned tt, w')
      → (n : ℕ) × (w'.db ≡ set_review id (in_message n) w.db)
  unfolding transact write
  noted_thread id (returned n) w w' h = (n, ap (λ (r : Reply ⊤ × World). r.1.db) (sym h))
  noted_thread id (failed e) w w' h = absurd (cc h)

  send_thread-Settled :
      (id : ℕ) (w w' : World)
      → send_thread bot chat_id id w ≡ (returned tt, w')
      → Settled w'.db id × ((j : ℕ) → Settled w.db j → Settled w'.db j)
  send_thread-Settled id w w' run = elim (Option-cases (unsent_problem id w.db)) [
    | inl settled ↦
        let same : w.db ≡ w'.db =
          ap (λ (r : Reply ⊤ × World). r.1.db) (sym (send_thread_idle id w settled) ∙ run) in
        (
          subst (λ (d : Db). Settled d id) same settled,
          λ j before. subst (λ (d : Db). Settled d j) same before,
        )
    | inr (p, unsent) ↦
        let (r, after) = send_message bot chat_id (review_message p id) w in
        let (n, noted) = noted_thread id r after w' (sym (sent_thread id p w unsent) ∙ run) in
        let kept = send_message_db bot chat_id (review_message p id) w in
        let written : w'.db ≡ set_review id (in_message n) w.db =
          noted ∙ ap (set_review id (in_message n)) kept in
        (
          subst (λ (d : Db). Settled d id) (sym written) (noted-Settled id n w.db),
          λ j before.
              subst (λ (d : Db). Settled d j) (sym written) (set_review-Settled id j n w.db before),
        )
  ]

  -- The loop goes on where its first thread went through.
  threads_step :
      (id : ℕ) (ids : List ℕ) (r : Reply ⊤) (w w' : World)
      → then_do (r, w) (λ _. send_review_threads bot chat_id ids) ≡ (returned tt, w')
      → (r ≡ returned tt) × (send_review_threads bot chat_id ids w ≡ (returned tt, w'))
  threads_step id ids (returned a) w w' h = (refl, h)
  threads_step id ids (failed e) w w' h = absurd (cc h)

  send_review_threads-Settled :
      (ids : List ℕ) (w w' : World)
      → send_review_threads bot chat_id ids w ≡ (returned tt, w')
      → All (Settled w'.db) ids × ((j : ℕ) → Settled w.db j → Settled w'.db j)
  unfolding send_review_threads
  send_review_threads-Settled [] w w' run = (
    tt,
    λ j before. subst (λ (d : Db). Settled d j) (ap (λ (r : Reply ⊤ × World). r.1.db) run) before,
  )
  send_review_threads-Settled (id ∷ ids) w w' run =
      let (r, mid) = send_thread bot chat_id id w in
      let (went, rest) = threads_step id ids r mid w' run in
      let (here, kept) = send_thread-Settled id w mid (ap (λ (r : Reply ⊤). (r, mid)) went) in
      let (others, kept') = send_review_threads-Settled ids mid w' rest in
      ((kept' id here, others), λ j before. kept' j (kept j before))

  send_review_threads_idle :
      (ids : List ℕ) (w : World)
      → All (Settled w.db) ids
      → send_review_threads bot chat_id ids w ≡ (returned tt, w)
  unfolding send_review_threads
  send_review_threads_idle [] w settled = refl
  send_review_threads_idle (id ∷ ids) w (here, rest) =
      ap (λ r. then_do r (λ _. send_review_threads bot chat_id ids)) (send_thread_idle id w here)
      ∙ send_review_threads_idle ids w rest

  -- Once the threads of some reviews were sent, asking for them again sends nothing and writes
  -- nothing.
  pub send_review_threads_again :
      (ids : List ℕ) (w w' : World)
      → send_review_threads bot chat_id ids w ≡ (returned tt, w')
      → send_review_threads bot chat_id ids w' ≡ (returned tt, w')
  send_review_threads_again ids w w' run =
      send_review_threads_idle ids w' (send_review_threads-Settled ids w w' run).0
