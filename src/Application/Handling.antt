-- ===== src/Application/Handling.antt =====
-- `handle_callback`, `_direct_pick` and `_commit_direct_picks` of src/leetcode_coach/application.py:
-- the messages around the transactions.
use leetcode_coach_service.Base.{
  ℕ, Bool, true, false, Option, none, some, List, [], ◌∷◌, ◌++◌, ⊤, ◌==◌, ℤ, pos, negsuc, nat_eq,
  int_eq, select, length, take, if◌then◌else◌,
}
use leetcode_coach_service.Text.{Text, codes, show_nat}
use leetcode_coach_service.Text.Strip.{join}
use leetcode_coach_service.Calendar.{Clock, isoformat}
use leetcode_coach_service.Model.{ProposalBatch, ProposalCandidate}
use leetcode_coach_service.Store.{Db, error_class, python_error, key_error, selection_unavailable}
use leetcode_coach_service.Credit.{accept_credit_deficit}
use leetcode_coach_service.BotStates.{set_bot_state}
use leetcode_coach_service.Proposals.{find_batch, extend_proposal}
use leetcode_coach_service.Adapter.{ReviewView}
use leetcode_coach_service.Leetcode.{Url, Question}
use leetcode_coach_service.Adapter.Lookup.{get_problem, get_open_queue}
use leetcode_coach_service.Rendering.{proposal_keyboard, range}
use leetcode_coach_service.Jobs.{snooze_key}
use leetcode_coach_service.Telegram.{
  World, App, Bot, Reply, returned, failed, Failure, raised, telegram_failure, give, fail, fetch,
  skip, transact, say, answer_callback, edit_message, ◌>>=◌, ◌>>◌,
}
use leetcode_coach_service.Application.{Codecs, Choice, press_prefix}
use leetcode_coach_service.Application.Picking.{choose, commit_direct_picks}
use leetcode_coach_service.Application.Threads.{send_review_threads}
use leetcode_coach_service.Application.Coaching.{Runner, inactive_review, direct_review_action}
use leetcode_coach_service.Application.Callbacks.{
  Action, pick, pick_done, review_action, extend, accept_deficit, show_queue, snooze, malformed,
  unknown, parse_callback,
}

-- What the handlers stand on: the JSON of the states, Telegram, the agent, SHA-256, `urlparse` and
-- what LeetCode answers to keywords.
pub record Services : Type 0 where
  pub codecs : Codecs
  pub bot : Bot
  pub runner : Runner
  pub sha256 : Text → Text
  pub urlparse : Text → Url
  pub search : Text → Option (List Question)

abbrev pub is_domain_error : Failure → Bool
is_domain_error telegram_failure = false
is_domain_error (raised e) = elim (error_class e) [ python_error ↦ false | _ ↦ true ]

abbrev pub recover : {A : Type 0} → App A → Reply A × World → Reply A × World
recover handler (returned a, w) = (returned a, w)
recover handler (failed e, w) = if is_domain_error e then handler w else (failed e, w)

-- `except DomainError`
abbrev pub on_domain_error : {A : Type 0} → App A → App A → App A
on_domain_error handler m w = recover handler (m w)

abbrev pub inactive_proposal : Text
inactive_proposal = codes "That proposal is no longer active."

abbrev pub inactive_action : Text
inactive_action = codes "This action is no longer active."

abbrev pub press_key : (Text → Text) → ℕ → Text → Text
press_key sha256 batch_id callback_id = press_prefix batch_id ++ take 24 (sha256 callback_id)

abbrev pub choice_text : Option Choice → Text
choice_text none = inactive_proposal
choice_text (some c) =
    c.action
    ++ (codes " "
        ++ (c.slug
            ++ (codes ". " ++ (show_nat c.count ++ codes " selected; tap Done when ready."))))

module _ (s : Services) (clock : Clock) (chat_id : ℤ) where
  unfoldable pub direct_pick : ℕ → ℕ → Text → App ⊤
  unfolding choose say
  direct_pick batch_id position callback_id = do
    choice ←
        transact (
          choose s.codecs clock chat_id batch_id position (press_key s.sha256 batch_id callback_id))
    say s.bot chat_id (choice_text choice)

  -- `_commit_direct_picks`; a selection that is not there is a `DomainError`.
  unfoldable pub direct_picks_done : ℕ → App ⊤
  unfolding commit_direct_picks send_review_threads
  direct_picks_done batch_id = do
    ids ← transact (commit_direct_picks s.codecs clock chat_id batch_id)
    elim ids [
      | none ↦ fail (raised selection_unavailable)
      | some ids ↦ send_review_threads s.bot chat_id ids
    ]

  abbrev pub candidate_count : ℕ → Db → ℕ
  candidate_count batch_id db =
      length (select (λ (c : ProposalCandidate). c.batch_id == batch_id) db.candidates.rows)

  -- The keyboard is put back under the message of the proposal, if it stands in one.
  unfoldable pub put_keyboard : ℕ → ℕ → Option ℕ → App ⊤
  unfolding edit_message proposal_keyboard range
  put_keyboard batch_id count none = skip
  put_keyboard batch_id count (some message_id) = do
    edit_message s.bot chat_id message_id (proposal_keyboard batch_id (range 1 count))
    skip

  abbrev pub message_of : Option ProposalBatch → Option ℕ
  message_of none = none
  message_of (some batch) = batch.telegram_message_id

  unfoldable pub restore_keyboard : ℕ → App ⊤
  unfolding put_keyboard
  restore_keyboard batch_id = do
    found ← fetch (find_batch batch_id)
    count ← fetch (candidate_count batch_id)
    put_keyboard batch_id count (message_of found)

  unfoldable pub extend_reply : ℕ → Reply (Option ProposalBatch) → App ⊤
  unfolding restore_keyboard say
  extend_reply batch_id (failed e) =
      if is_domain_error e then say s.bot chat_id inactive_proposal else fail e
  extend_reply batch_id (returned none) = fail (raised key_error)
  extend_reply batch_id (returned (some batch)) = do
    restore_keyboard batch_id
    say s.bot chat_id (codes "Extended proposal " ++ (show_nat batch.id ++ codes " for 24 hours."))

  unfoldable pub extend_button : ℕ → App ⊤
  unfolding extend_proposal extend_reply
  extend_button batch_id w =
      let (r, w') = transact (extend_proposal s.sha256 clock chat_id batch_id 24 none) w in
      extend_reply batch_id r w'

  -- A line for each open review; a slug that has no problem raises.
  unfoldable pub queue_lines : List ReviewView → App (List Text)
  unfolding get_problem
  queue_lines [] = give []
  queue_lines (r ∷ rs) = do
    problem ← transact (get_problem s.urlparse s.search clock r.problem_slug)
    rest ← queue_lines rs
    give ((codes "- " ++ problem.title) ∷ rest)

  abbrev pub queue_text : List Text → Text
  queue_text [] = codes "Open queue is empty."
  queue_text (l ∷ ls) = codes "Open queue:\n" ++ join (codes "\n") (l ∷ ls)

  unfoldable pub send_queue : App ⊤
  unfolding queue_lines get_open_queue say join
  send_queue = do
    reviews ← fetch (get_open_queue chat_id)
    lines ← queue_lines reviews
    say s.bot chat_id (queue_text lines)

  -- What follows the answer to the callback. No row has a negative id, so that a negative number
  -- gives what a missing row gives.
  unfoldable pub perform : Text → Action → App ⊤
  unfolding direct_pick direct_picks_done direct_review_action extend_button send_queue say
      accept_credit_deficit set_bot_state
  perform callback_id (pick (pos batch_id) (pos position)) =
      on_domain_error (say s.bot chat_id inactive_proposal)
        (direct_pick batch_id position callback_id)
  perform callback_id (pick _ _) = say s.bot chat_id inactive_proposal
  perform callback_id (pick_done (pos batch_id)) =
      on_domain_error (say s.bot chat_id inactive_proposal) (direct_picks_done batch_id)
  perform callback_id (pick_done (negsuc _)) = say s.bot chat_id inactive_proposal
  perform callback_id (review_action action (pos review_id)) =
      on_domain_error (say s.bot chat_id inactive_review)
        (direct_review_action s.codecs s.bot s.runner clock chat_id action review_id callback_id)
  perform callback_id (review_action action (negsuc _)) = say s.bot chat_id inactive_review
  perform callback_id (extend (pos batch_id)) = extend_button batch_id
  perform callback_id (extend (negsuc _)) = say s.bot chat_id inactive_proposal
  perform callback_id accept_deficit = do
    transact (accept_credit_deficit clock chat_id clock.today)
    say s.bot chat_id (codes "Deficit acknowledged.")
  perform callback_id show_queue = send_queue
  perform callback_id snooze = do
    transact (set_bot_state clock chat_id snooze_key (isoformat clock.today))
    say s.bot chat_id (codes "Nudge snoozed until tomorrow.")
  perform callback_id malformed = skip
  perform callback_id unknown = skip

  abbrev pub answer_text : Action → Text
  answer_text malformed = inactive_action
  answer_text unknown = inactive_action
  answer_text _ = []

  unfoldable pub handle_callback : Text → Text → App ⊤
  unfolding perform parse_callback answer_callback
  handle_callback callback_id callback = do
    answer_callback s.bot callback_id (answer_text (parse_callback callback))
    perform callback_id (parse_callback callback)
