-- ===== src/Application/Refusals.antt =====
-- What `handle_callback` of src/leetcode_coach/application.py raises.
use leetcode_coach_service.Base.{
  ℕ, false, Option, none, some, List, [], ◌∷◌, ◌++◌, ◌≡◌, refl, subst, ℤ, pos, negsuc, Bool-cases,
  Option-cases, inl, inr, not,
}
use leetcode_coach_service.Text.{Text, codes, show_nat}
use leetcode_coach_service.Calendar.{Clock, Date, isoformat}
use leetcode_coach_service.Store.{Db, error_class}
use leetcode_coach_service.BotStates.{set_bot_state}
use leetcode_coach_service.BotStates.Setting.{set_bot_state_returns}
use leetcode_coach_service.Credit.{accept_credit_deficit, add_credit, find_credit}
use leetcode_coach_service.Credit.Keys.{deficit_key}
use leetcode_coach_service.Proposals.{find_batch, extend_proposal}
use leetcode_coach_service.Model.{ProposalBatch}
use leetcode_coach_service.Rendering.{proposal_keyboard, range}
use leetcode_coach_service.Application.Coaching.{inactive_review, direct_review_action}
use leetcode_coach_service.Leetcode.{exact_problem_slug, fetch_exact_problem}
use leetcode_coach_service.Adapter.{ReviewView}
use leetcode_coach_service.Adapter.Search.{is_difficulty}
use leetcode_coach_service.Adapter.Lookup.{get_problem, get_open_queue, cache_problem}
use leetcode_coach_service.Jobs.{ProblemRecord, snooze_key}
use leetcode_coach_service.Attempts.{find_problem}
use leetcode_coach_service.Telegram.{
  World, Reply, returned, failed, Failure, give, skip, transact, say, answer_callback, edit_message,
}
use leetcode_coach_service.Application.Callbacks.{
  Action, pick, pick_done, review_action, extend, accept_deficit, show_queue, snooze, malformed,
  unknown, parse_callback,
}
use leetcode_coach_service.Application.Handling.{
  Services, direct_pick, direct_picks_done, is_domain_error, inactive_proposal, candidate_count,
  message_of, put_keyboard, restore_keyboard, extend_reply, extend_button, queue_text, queue_lines,
  send_queue, answer_text, perform, handle_callback,
}
use leetcode_coach_service.Application.Clean.{
  Clean, Handles, Handles-bind, Handles-on_domain_error, say-Handles, edit-Handles, answer-Handles,
  NoRefusal, transact-Handles,
}

set_bot_state-NoRefusal :
    (clock : Clock) (chat_id : ℤ) (key value : Text) (db : Db)
    → NoRefusal (set_bot_state clock chat_id key value db).0
set_bot_state-NoRefusal clock chat_id key value db =
    let (s, run) = set_bot_state_returns clock chat_id key value db in rw run tt

accept-NoRefusal :
    (clock : Clock) (chat_id : ℤ) (on : Date) (db : Db)
    → NoRefusal (accept_credit_deficit clock chat_id on db).0
unfolding accept_credit_deficit add_credit
accept-NoRefusal clock chat_id on db =
    elim (Option-cases (find_credit (deficit_key chat_id on) db.ledger.rows)) [
      | inl new ↦ rw (new, add_credit) tt
      | inr (entry, found) ↦ rw (found, add_credit) tt
    ]

module _ (s : Services) (clock : Clock) where
  cache-NoRefusal : (r : ProblemRecord) (db : Db) → NoRefusal (cache_problem clock r db).0
  unfolding cache_problem error_class
  cache-NoRefusal r db = elim (Option-cases (find_problem r.slug db)) [
    | inr (p, found) ↦ rw (found, cache_problem) tt
    | inl new ↦ elim (Bool-cases (not (is_difficulty r.difficulty))) [
      | inl bad ↦ rw (new, cache_problem) (rw (bad, cache_problem) refl)
      | inr fine ↦ rw (new, cache_problem) (rw (fine, cache_problem) tt)
    ]
  ]

  get_problem-NoRefusal :
      (slug : Text) (db : Db) → NoRefusal (get_problem s.urlparse s.search clock slug db).0
  unfolding get_problem error_class
  get_problem-NoRefusal slug db = elim (Option-cases (exact_problem_slug s.urlparse slug)) [
    | inl bad ↦ rw (bad, get_problem) refl
    | inr (normalized, good) ↦ elim (Option-cases (find_problem normalized db)) [
      | inr (p, found) ↦ rw (good, found, get_problem) tt
      | inl new ↦ elim (Option-cases (fetch_exact_problem s.urlparse s.search slug)) [
        | inl gone ↦ rw (good, new, gone, get_problem) refl
        | inr (r, fetched) ↦ rw (good, new, fetched, get_problem) (cache-NoRefusal r db)
      ]
    ]
  ]

  module _ (chat_id : ℤ) where
    put-Handles :
        (batch_id count : ℕ) (message_id : Option ℕ)
        → Handles (put_keyboard s clock chat_id batch_id count message_id)
    unfolding put_keyboard
    put-Handles batch_id count none w = tt
    put-Handles batch_id count (some message_id) w =
        Handles-bind
          (edit_message s.bot chat_id message_id (proposal_keyboard batch_id (range 1 count)))
          (λ _. skip)
          (edit-Handles s.bot chat_id message_id (proposal_keyboard batch_id (range 1 count)))
          (λ _ _. tt) w

    extend-Handles :
        (batch_id : ℕ) (r : Reply (Option ProposalBatch))
        → Handles (extend_reply s clock chat_id batch_id r)
    unfolding extend_reply restore_keyboard error_class
    extend-Handles batch_id (failed e) w = elim (Bool-cases (is_domain_error e)) [
      | inl refused ↦ rw refused (say-Handles s.bot chat_id inactive_proposal w)
      | inr other ↦ rw other other
    ]
    extend-Handles batch_id (returned none) w = refl
    extend-Handles batch_id (returned (some batch)) w =
        let text = codes "Extended proposal " ++ (show_nat batch.id ++ codes " for 24 hours.") in
        Handles-bind (restore_keyboard s clock chat_id batch_id) (λ _. say s.bot chat_id text)
          (λ w.
            put-Handles batch_id (candidate_count s clock chat_id batch_id w.db)
              (message_of s clock chat_id (find_batch batch_id w.db)) w)
          (λ _. say-Handles s.bot chat_id text) w

    lines-Handles : (rs : List ReviewView) → Handles (queue_lines s clock chat_id rs)
    unfolding queue_lines
    lines-Handles [] w = tt
    lines-Handles (r ∷ rs) w =
        Handles-bind (transact (get_problem s.urlparse s.search clock r.problem_slug)) _
          (transact-Handles (get_problem s.urlparse s.search clock r.problem_slug)
            (get_problem-NoRefusal r.problem_slug))
          (λ p.
            Handles-bind (queue_lines s clock chat_id rs)
              (λ rest. give ((codes "- " ++ p.title) ∷ rest)) (lines-Handles rs) (λ _ _. tt))
          w

    queue-Handles : Handles (send_queue s clock chat_id)
    unfolding send_queue
    queue-Handles w =
        Handles-bind (queue_lines s clock chat_id (get_open_queue chat_id w.db))
          (λ lines. say s.bot chat_id (queue_text s clock chat_id lines))
          (lines-Handles (get_open_queue chat_id w.db)) (λ _. say-Handles s.bot chat_id _) w

    perform-Handles :
        (callback_id : Text) (a : Action) → Handles (perform s clock chat_id callback_id a)
    unfolding perform extend_button
    perform-Handles callback_id (pick (pos b) (pos p)) w =
        Handles-on_domain_error (say s.bot chat_id inactive_proposal)
          (direct_pick s clock chat_id b p callback_id)
          (say-Handles s.bot chat_id inactive_proposal) w
    perform-Handles callback_id (pick (pos b) (negsuc p)) w =
        say-Handles s.bot chat_id inactive_proposal w
    perform-Handles callback_id (pick (negsuc b) p) w =
        say-Handles s.bot chat_id inactive_proposal w
    perform-Handles callback_id (pick_done (pos b)) w =
        Handles-on_domain_error (say s.bot chat_id inactive_proposal)
          (direct_picks_done s clock chat_id b) (say-Handles s.bot chat_id inactive_proposal) w
    perform-Handles callback_id (pick_done (negsuc b)) w =
        say-Handles s.bot chat_id inactive_proposal w
    perform-Handles callback_id (review_action action (pos r)) w =
        Handles-on_domain_error (say s.bot chat_id inactive_review)
          (direct_review_action s.codecs s.bot s.runner clock chat_id action r callback_id)
          (say-Handles s.bot chat_id inactive_review) w
    perform-Handles callback_id (review_action action (negsuc r)) w =
        say-Handles s.bot chat_id inactive_review w
    perform-Handles callback_id (extend (pos b)) w =
        let (r, w') = transact (extend_proposal s.sha256 clock chat_id b 24 none) w in
        extend-Handles b r w'
    perform-Handles callback_id (extend (negsuc b)) w =
        say-Handles s.bot chat_id inactive_proposal w
    perform-Handles callback_id accept_deficit w =
        Handles-bind (transact (accept_credit_deficit clock chat_id clock.today)) _
          (transact-Handles (accept_credit_deficit clock chat_id clock.today)
            (accept-NoRefusal clock chat_id clock.today))
          (λ _. say-Handles s.bot chat_id (codes "Deficit acknowledged.")) w
    perform-Handles callback_id show_queue w = queue-Handles w
    perform-Handles callback_id snooze w =
        Handles-bind (transact (set_bot_state clock chat_id snooze_key (isoformat clock.today))) _
          (transact-Handles (set_bot_state clock chat_id snooze_key (isoformat clock.today))
            (set_bot_state-NoRefusal clock chat_id snooze_key (isoformat clock.today)))
          (λ _. say-Handles s.bot chat_id (codes "Nudge snoozed until tomorrow.")) w
    perform-Handles callback_id malformed w = tt
    perform-Handles callback_id unknown w = tt

-- A callback never ends in a `DomainError`, whatever its data is and whatever the agent does: what
-- it raises is a failure of Telegram or an error of another class.
pub handle_callback_clean :
    (s : Services) (clock : Clock) (chat_id : ℤ) (callback_id callback : Text) (e : Failure)
    (w : World)
    → (handle_callback s clock chat_id callback_id callback w).0 ≡ failed e
    → is_domain_error e ≡ false
unfolding handle_callback
handle_callback_clean s clock chat_id callback_id callback e w failure = subst Clean failure (
    Handles-bind
      (answer_callback s.bot callback_id (answer_text s clock chat_id (parse_callback callback)))
      (λ _. perform s clock chat_id callback_id (parse_callback callback))
      (answer-Handles s.bot callback_id _)
      (λ _. perform-Handles s clock chat_id callback_id (parse_callback callback)) w)
