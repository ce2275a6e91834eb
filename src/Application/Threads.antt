-- ===== src/Application/Threads.antt =====
-- `_send_review_threads`, `_send_unsent_reviews` and `_send_unsent_proposal` of
-- src/leetcode_coach/application.py.
use leetcode_coach_service.Base.{
  ℕ, ◌+◌, Bool, true, false, Option, none, some, List, [], ◌∷◌, ◌++◌, ◌&&◌, ⊤, ◌==◌, ℤ, int_eq,
  nat_eq, first, select, update, not, ltb, map, is_some, length, drop, min, if◌then◌else◌,
}
use leetcode_coach_service.Text.{Text, codes, show_nat, text_eq}
use leetcode_coach_service.Calendar.{Clock}
use leetcode_coach_service.Model.{
  Problem, ProposalBatch, ProposalCandidate, PendingReview, is_open_batch, is_open_review,
}
use leetcode_coach_service.Store.{Db, ok, Exec}
use leetcode_coach_service.BotStates.{find_state, set_bot_state}
use leetcode_coach_service.Attempts.{find_problem, find_review}
use leetcode_coach_service.Proposals.{lookup_problem, find_batch, set_batch, sort_by_position}
use leetcode_coach_service.Adapter.{order_by}
use leetcode_coach_service.Rendering.{
  Button, Card, Page, paginate_proposal_html, proposal_keyboard, range,
}
use leetcode_coach_service.Telegram.{
  App, Bot, Keyboard, Message, give, fail, fetch, skip, transact, send_message, ◌>>=◌, ◌>>◌, raised,
}
use leetcode_coach_service.Application.{Codecs, Progress, delivery_key, delete_state}
use leetcode_coach_service.Store.{value_error, modify}

abbrev pub review_button : Text → Text → ℕ → Button
review_button label action review_id = record {
  text = label;
  callback_data = codes "v2r:" ++ (action ++ (codes ":" ++ show_nat review_id));
}

unfoldable pub review_keyboard : ℕ → Keyboard
review_keyboard review_id =
    (review_button (codes "Skip") (codes "skip") review_id
      ∷ review_button (codes "Hint") (codes "hint") review_id
      ∷ review_button (codes "Saw solution") (codes "solution") review_id
      ∷ review_button (codes "Why") (codes "why") review_id
      ∷ [])
    ∷ []

unfoldable pub review_message : Problem → ℕ → Message
unfolding review_keyboard
review_message problem review_id = record {
  text =
      problem.title ++ (codes "\n" ++ (problem.url ++ codes "\nReply with your code when ready."));
  reply_to = none;
  markup = some (review_keyboard review_id);
  is_html = false;
}

abbrev pub set_review : ℕ → (PendingReview → PendingReview) → Db → Db
set_review id f db = record db {
  reviews = record (db.reviews) {
    rows = update (λ (r : PendingReview). r.id == id) f db.reviews.rows;
  };
}

-- The problem of a review that is in no message yet.
unfoldable pub unsent_problem : ℕ → Db → Option Problem
unsent_problem review_id db = elim (find_review review_id db) [
  | none ↦ none
  | some r ↦ if is_some r.telegram_message_id then none else find_problem r.problem_slug db
]

abbrev pub in_message : ℕ → PendingReview → PendingReview
in_message message_id r = record r { telegram_message_id = some message_id }

unfoldable pub send_thread : Bot → ℤ → ℕ → App ⊤
unfolding unsent_problem review_message send_message
send_thread bot chat_id review_id = do
  found ← fetch (unsent_problem review_id)
  elim found [
    | none ↦ skip
    | some problem ↦ do
      message_id ← send_message bot chat_id (review_message problem review_id)
      transact (modify (set_review review_id (in_message message_id)))
  ]

unfoldable pub send_review_threads : Bot → ℤ → List ℕ → App ⊤
unfolding send_thread
send_review_threads bot chat_id [] = skip
send_review_threads bot chat_id (id ∷ ids) = do
  send_thread bot chat_id id
  send_review_threads bot chat_id ids

abbrev pub is_unsent : ℤ → PendingReview → Bool
is_unsent chat_id r =
    r.chat_id == chat_id && (is_open_review r.status && not (is_some r.telegram_message_id))

abbrev pub unsent_reviews : ℤ → Db → List ℕ
unsent_reviews chat_id db =
    map (λ (r : PendingReview). r.id) (select (is_unsent chat_id) db.reviews.rows)

unfoldable pub send_unsent_reviews : Bot → ℤ → App ⊤
unfolding send_review_threads
send_unsent_reviews bot chat_id = do
  ids ← fetch (unsent_reviews chat_id)
  send_review_threads bot chat_id ids

abbrev pub is_unsent_batch : ℤ → ProposalBatch → Bool
is_unsent_batch chat_id b =
    b.chat_id == chat_id && (not (is_some b.telegram_message_id) && is_open_batch b.status)

-- `.order_by(id.desc())`
abbrev pub newer_batch : ProposalBatch → ProposalBatch → Bool
newer_batch a b = ltb b.id a.id

unfoldable pub unsent_batch : ℤ → Db → Option ProposalBatch
unfolding order_by
unsent_batch chat_id db =
    first (λ _. true) (order_by newer_batch (select (is_unsent_batch chat_id) db.batches.rows))

-- The cards of the candidates, without those whose problem is missing.
abbrev pub card_of : ProposalCandidate → Problem → Card
card_of c p = record {
  title = p.title;
  url = p.url;
  difficulty = p.difficulty;
  tags = p.tags;
  reasoning = c.reasoning;
  coaching_hint = c.coaching_hint;
}

unfoldable pub cards_of : List ProposalCandidate → List Problem → List Card
cards_of [] problems = []
cards_of (c ∷ cs) problems =
    let rest = cards_of cs problems in
    elim (lookup_problem c.problem_slug problems) [ none ↦ rest | some p ↦ card_of c p ∷ rest ]

unfoldable pub batch_cards : ℕ → Db → List Card
unfolding cards_of sort_by_position
batch_cards batch_id db =
    cards_of
      (sort_by_position
        (select (λ (c : ProposalCandidate). c.batch_id == batch_id) db.candidates.rows))
      db.problems

abbrev pub no_progress : Progress
no_progress = record { next_page = 0; first_message_id = none }

unfoldable pub load_progress : Codecs → ℤ → ℕ → Db → Progress
unfolding find_state
load_progress codecs chat_id batch_id db = elim (find_state chat_id (delivery_key batch_id) db) [
  | none ↦ no_progress
  | some state ↦ elim (codecs.progress.load state.value) [ none ↦ no_progress | some p ↦ p ]
]

abbrev pub page_message : Page → Message
page_message (text, positions) = record {
  text = text;
  reply_to = none;
  markup = none;
  is_html = true;
}

-- The first of two ids.
abbrev pub first_id : Option ℕ → ℕ → ℕ
first_id none id = id
first_id (some n) id = n

abbrev pub save_progress : Codecs → Clock → ℤ → ℕ → Progress → Exec ⊤
save_progress codecs clock chat_id batch_id p db =
    (ok tt, (set_bot_state clock chat_id (delivery_key batch_id) (codecs.progress.dump p) db).1)

-- The loop over the pages from number `page` on. A run that ends between a message and its saved
-- progress is one whose answer is lost behind the acceptance.
unfoldable pub send_pages : Codecs → Bot → Clock → ℤ → ℕ → ℕ → Option ℕ → List Page → App ⊤
unfolding send_message
send_pages codecs bot clock chat_id batch_id page first_message_id [] = skip
send_pages codecs bot clock chat_id batch_id page first_message_id (p ∷ pages) = do
  message_id ← send_message bot chat_id (page_message p)
  let here = first_id first_message_id message_id
  transact (
      save_progress codecs clock chat_id batch_id
        (record { next_page = page + 1; first_message_id = some here }))
  send_pages codecs bot clock chat_id batch_id (page + 1) (some here) pages

unfoldable pub controller : ℕ → ℕ → Message
unfolding range proposal_keyboard
controller batch_id count = record {
  text = codes "Choose any problems, then tap Done.";
  reply_to = none;
  markup = some (proposal_keyboard batch_id (range 1 count));
  is_html = false;
}

-- `persist`: nothing is written unless the batch is still open.
unfoldable pub close_delivery : ℤ → ℕ → ℕ → Db → Db
unfolding find_state set_batch
close_delivery chat_id batch_id message_id db = elim (find_batch batch_id db) [
  | none ↦ db
  | some b ↦
      if is_open_batch b.status
      then delete_state (find_state chat_id (delivery_key batch_id) db)
          (set_batch batch_id (λ b. record b { telegram_message_id = some message_id }) db)
      else db
]

-- The message with the keyboard, behind the pages.
unfoldable pub send_controller : Bot → ℤ → ℕ → ℕ → App Bool
unfolding controller close_delivery
send_controller bot chat_id batch_id count = do
  message_id ← send_message bot chat_id (controller batch_id count)
  transact (modify (close_delivery chat_id batch_id message_id))
  give true

-- Behind the load: the pages that were not sent, and the keyboard.
unfoldable pub send_proposal : Codecs → Bot → Clock → ℤ → ℕ → ℕ → Progress → List Page → App Bool
unfolding send_pages send_controller
send_proposal codecs bot clock chat_id batch_id count progress [] = give false
send_proposal codecs bot clock chat_id batch_id count progress (p ∷ ps) = do
  let next_page = min progress.next_page (length (p ∷ ps))
  send_pages codecs bot clock chat_id batch_id next_page progress.first_message_id
      (drop next_page (p ∷ ps))
  send_controller bot chat_id batch_id count

-- `paginate_proposal_html(cards)` with the default limit; a card that exceeds it raises.
unfoldable pub send_unsent_proposal : Codecs → Bot → Clock → ℤ → App Bool
unfolding unsent_batch batch_cards load_progress send_proposal
send_unsent_proposal codecs bot clock chat_id = do
  found ← fetch (unsent_batch chat_id)
  elim found [
    | none ↦ give false
    | some batch ↦ do
      cards ← fetch (batch_cards batch.id)
      progress ← fetch (load_progress codecs chat_id batch.id)
      elim (paginate_proposal_html bot.visible 4096 cards) [
        | none ↦ fail (raised value_error)
        | some pages ↦ send_proposal codecs bot clock chat_id batch.id (length cards) progress pages
      ]
  ]
