-- ===== src/Application/Coaching.antt =====
-- `_direct_review_action`, `_deliver_outcome` and `handle_text` of src/leetcode_coach/application.py.
use leetcode_coach_service.Base.{
  ℕ, ◌+◌, Bool, true, false, Option, none, some, List, [], ◌∷◌, ◌++◌, ⊤, ◌==◌, ℤ, int_eq, nat_eq,
  first, not, min, take, if◌then◌else◌,
}
use leetcode_coach_service.Text.{Text, codes, show_nat, text_eq, is_empty}
use leetcode_coach_service.Text.Decimal.{read_nat}
use leetcode_coach_service.Calendar.{Clock}
use leetcode_coach_service.Model.{Problem, ProposalCandidate, PendingReview, BotState}
use leetcode_coach_service.Store.{Db, Exec, ok, value_error}
use leetcode_coach_service.BotStates.{find_state, set_bot_state}
use leetcode_coach_service.Attempts.{find_problem, find_review}
use leetcode_coach_service.Reviews.{skip_problem, mark_solution_viewed, reattempt_problem}
use leetcode_coach_service.Rendering.{Receipt, render_work_receipt}
use leetcode_coach_service.Telegram.{
  App, Bot, Reply, fail, fetch, skip, transact, send_message, say, plain_message, ◌>>=◌, ◌>>◌,
  raised,
}
use leetcode_coach_service.Application.{Codecs}
use leetcode_coach_service.Application.Threads.{
  send_review_threads, send_unsent_proposal, send_unsent_reviews,
}

-- What the agent runner hands back; an empty text is not sent.
pub record AgentOutcome : Type 0 where
  pub receipts : List Receipt
  pub text : Text

-- `runner.run(message=.., context with operation_key=..)`: its tools write to the database.
abbrev pub Runner : Type 0
Runner = Text → Text → Db → Reply AgentOutcome × Db

abbrev pub run_agent : Runner → Text → Text → App AgentOutcome
run_agent runner message operation_key w =
    let (r, db') = runner message operation_key w.db in (r, record w { db = db' })

unfoldable pub send_receipts : Bot → ℤ → Option ℕ → List Receipt → App ⊤
unfolding send_message render_work_receipt
send_receipts bot chat_id reply_to [] = skip
send_receipts bot chat_id reply_to (r ∷ rs) = do
  send_message bot chat_id (record (plain_message (render_work_receipt r)) { reply_to = reply_to })
  send_receipts bot chat_id reply_to rs

-- Without the row of metrics.
unfoldable pub deliver_outcome : Codecs → Bot → Clock → ℤ → Option ℕ → AgentOutcome → App ⊤
unfolding send_receipts send_unsent_proposal send_unsent_reviews
deliver_outcome codecs bot clock chat_id reply_to outcome = do
  send_receipts bot chat_id reply_to outcome.receipts
  send_unsent_proposal codecs bot clock chat_id
  send_unsent_reviews bot chat_id
  if is_empty outcome.text then skip else do
    send_message bot chat_id (record (plain_message outcome.text) { reply_to = reply_to })
    skip

unfoldable pub handle_text : Codecs → Bot → Runner → Clock → ℤ → Text → ℕ → App ⊤
unfolding deliver_outcome
handle_text codecs bot runner clock chat_id text message_id = do
  outcome ← run_agent runner text (codes "telegram-message-" ++ show_nat message_id)
  deliver_outcome codecs bot clock chat_id (some message_id) outcome

abbrev pub inactive_review : Text
inactive_review = codes "That review action is no longer active."

abbrev pub hint_key : ℕ → Text
hint_key review_id = codes "hint_level:" ++ show_nat review_id

abbrev pub coaching_key : ℕ → Text → Text
coaching_key review_id callback_id =
    codes "review_coaching:" ++ (show_nat review_id ++ (codes ":" ++ callback_id))

-- `min(3, int(level_state.value) + 1) if level_state else 1`; `none` is the `ValueError`.
unfoldable pub hint_level : Option BotState → Option ℕ
hint_level none = some 1
hint_level (some state) = elim (read_nat state.value) [
  | none ↦ none
  | some n ↦ some (min 3 (n + 1))
]

-- The review and its problem, if the review is of the chat.
unfoldable pub coached : ℤ → ℕ → Db → Option (PendingReview × Problem)
coached chat_id review_id db = elim (find_review review_id db) [
  | none ↦ none
  | some r ↦
      if not (r.chat_id == chat_id)
      then none
      else elim (find_problem r.problem_slug db) [ none ↦ none | some p ↦ some (r, p) ]
]

unfoldable pub coached_candidate : PendingReview → Db → Option ProposalCandidate
coached_candidate r db = elim r.candidate_id [
  | none ↦ none
  | some id ↦ first (λ (c : ProposalCandidate). c.id == id) db.candidates.rows
]

abbrev pub hint_of : Option ProposalCandidate → Text
hint_of none = []
hint_of (some c) = c.coaching_hint

abbrev pub reason_of : Option ProposalCandidate → Text
reason_of none = []
reason_of (some c) = c.reasoning

abbrev pub named : Problem → Text
named p = p.title ++ (codes " (" ++ (p.slug ++ codes ")"))

unfoldable pub coaching_request : Bool → ℕ → Problem → Option ProposalCandidate → Text
coaching_request is_hint level problem c =
    if is_hint
    then codes "Give hint level "
      ++ (show_nat level
          ++ (codes " of 3 for "
              ++ (named problem
                  ++ (codes
                        ". Level 1 is conceptual only; level 2 states the invariant and next step; level 3 gives pseudocode without a full solution. Optional prior context: "
                      ++ hint_of c))))
    else codes "Explain concisely why working on "
      ++ (named problem
          ++ (codes " is useful for me now. Optional selection rationale: " ++ reason_of c))

-- What is kept of an answer: the answer under the press, and the level of a hint.
unfoldable pub keep_answer : Clock → ℤ → ℕ → Text → Bool → ℕ → Text → Exec ⊤
unfolding set_bot_state
keep_answer clock chat_id review_id callback_id is_hint level text db =
    let db' =
      (set_bot_state clock chat_id (coaching_key review_id callback_id) (take 4000 text) db).1 in
    (
      ok tt,
      if is_hint
          then (set_bot_state clock chat_id (hint_key review_id) (show_nat level) db').1
          else db',
    )

-- A press that was not answered before.
unfoldable pub coach_fresh :
    Codecs
    → Bot
    → Runner
    → Clock
    → ℤ
    → ℕ
    → Text
    → Bool
    → ℕ
    → Option (PendingReview × Problem)
    → App ⊤
unfolding coached_candidate coaching_request keep_answer deliver_outcome say
coach_fresh codecs bot runner clock chat_id review_id callback_id is_hint level none =
    say bot chat_id inactive_review
coach_fresh codecs bot runner clock chat_id review_id callback_id is_hint level
      (some (review, problem)) =
    do
      candidate ← fetch (coached_candidate review)
      outcome ←
          run_agent runner (coaching_request is_hint level problem candidate)
            (codes "telegram-callback-" ++ callback_id)
      if is_empty outcome.text
          then skip
          else transact (keep_answer clock chat_id review_id callback_id is_hint level outcome.text)
      deliver_outcome codecs bot clock chat_id review.telegram_message_id outcome

-- The branches `hint` and `why`: the level is read first, then a press that was answered is
-- answered from its state.
unfoldable pub coach_review : Codecs → Bot → Runner → Clock → ℤ → ℕ → Text → Bool → App ⊤
unfolding find_state hint_level coached coach_fresh say
coach_review codecs bot runner clock chat_id review_id callback_id is_hint = do
  level ← fetch (λ db. hint_level (find_state chat_id (hint_key review_id) db))
  elim level [
    | none ↦ fail (raised value_error)
    | some n ↦ do
      replay ← fetch (find_state chat_id (coaching_key review_id callback_id))
      elim replay [
        | some state ↦ say bot chat_id state.value
        | none ↦ do
          found ← fetch (coached chat_id review_id)
          coach_fresh codecs bot runner clock chat_id review_id callback_id is_hint n found
      ]
  ]

unfoldable pub direct_review_action : Codecs → Bot → Runner → Clock → ℤ → Text → ℕ → Text → App ⊤
unfolding coach_review say send_review_threads skip_problem mark_solution_viewed reattempt_problem
direct_review_action codecs bot runner clock chat_id action review_id callback_id =
    if action == codes "skip"
    then (do transact (skip_problem clock chat_id review_id); say bot chat_id (codes "Skipped."))
    else if action == codes "solution"
    then (do
      transact (mark_solution_viewed clock chat_id review_id)
      say bot chat_id (codes "Recorded as saw solution."))
    else if action == codes "reattempt"
    then (do
      review ← transact (reattempt_problem clock chat_id review_id)
      send_review_threads bot chat_id (review.id ∷ []))
    else if action == codes "hint"
    then coach_review codecs bot runner clock chat_id review_id callback_id true
    else if action == codes "why"
    then coach_review codecs bot runner clock chat_id review_id callback_id false
    else say bot chat_id inactive_review
