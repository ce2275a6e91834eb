-- ===== src/Tests/Serving.antt =====
-- Webhook deliveries that fail and succeed, and the buttons of a proposal.
use leetcode_coach_service.Base.{
  true, false, none, some, [], ◌∷◌, ◌++◌, pos, ◌≡◌, refl, map, int_eq, nat_eq, is_some, length, ◌↔◌,
}
use leetcode_coach_service.Text.{text_eq, codes, show_nat}
use leetcode_coach_service.Store.{Db}
use leetcode_coach_service.Updates.{
  record_update, processed_update_status, mark_update_handled, fits_column,
}
use leetcode_coach_service.Webhook.{Update, Coach, callback, deliver}
use leetcode_coach_service.Webhook.Delivery.{deliver_again}
use leetcode_coach_service.Webhook.Redelivery.{Retried, here, failed_once, deliver_at_last}
use leetcode_coach_service.Rendering.{proposal_keyboard}
use leetcode_coach_service.Rendering.Keyboard.{concat}
use leetcode_coach_service.Leetcode.{Question, is_slug, fetch_problemset}
use leetcode_coach_service.Leetcode.Slugs.{IsDashed, is_slug_iff}
use leetcode_coach_service.Leetcode.Paging.{fetch_problemset_ends}
use leetcode_coach_service.Telegram.{World, lost, returned, failed, telegram_failure}
use leetcode_coach_service.Application.Threads.{review_keyboard}
use leetcode_coach_service.Application.Callbacks.{
  pick, pick_done, review_action, extend, parse_callback,
}
use leetcode_coach_service.Application.Buttons.{asked, asked_lem}
use leetcode_coach_service.Application.Handling.{Services, is_domain_error, handle_callback}
use leetcode_coach_service.Application.Refusals.{handle_callback_clean}
use leetcode_coach_service.Tests.Codecs.{codecs}
use leetcode_coach_service.Tests.Fixtures.{clock, later_clock, chat, two_sum, db}

abbrev button : Update
button = record { update_id = 5; chat_id = chat; body = callback (codes "c1") (codes "v2n:accept") }

abbrev failing : Coach
failing body state = (some (codes "boom"), state)

abbrev silent : Coach
silent body state = (some [], state)

abbrev working : Coach
working body state = (none, state)

abbrev after_silent : Db
after_silent = (deliver silent clock later_clock false button db).1

ran_silent : (deliver silent clock later_clock false button db).0.is_run ≡ true
unfolding deliver record_update mark_update_handled
ran_silent = refl

-- The text of the exception is empty: the redelivered update is not run.
deliver_again_example :
    (deliver working later_clock later_clock false button after_silent).0.is_run ≡ false
unfolding fits_column
deliver_again_example =
    deliver_again silent working clock later_clock later_clock later_clock button db (λ _ _. refl)
      ran_silent

-- PostgreSQL does not store a NUL: the answer is 500, and the update stays `received`.
abbrev garbling : Coach
garbling body state = (some (0 ∷ []), state)

garbled : (deliver garbling clock later_clock false button db).0.status ≡ 500
unfolding deliver record_update mark_update_handled
garbled = refl

abbrev after_failing : Db
after_failing = (deliver failing clock later_clock false button db).1

retried : Retried button db after_failing
unfolding fits_column
retried = failed_once failing clock later_clock here (λ _ _. refl) refl refl

deliver_at_last_example :
    let (reply, db'') = deliver working later_clock later_clock false button after_failing in
    (reply ≡ record { status = 200; is_run = true })
    × (processed_update_status 5 db'' ≡ some (codes "handled"))
deliver_at_last_example =
    deliver_at_last button db after_failing working later_clock later_clock refl refl retried
      (λ _ _. refl) refl

abbrev question : Question
question = record {
  title_slug = two_sum;
  title = codes "Two Sum";
  difficulty = codes "Hard";
  topic_tags = [];
}

asked_lem_example :
    (map asked (concat (proposal_keyboard 3 (1 ∷ 2 ∷ [])))
      ≡ pick (pos 3) (pos 1) ∷ pick (pos 3) (pos 2) ∷ pick_done (pos 3) ∷ [])
    × (map asked (concat (review_keyboard 9))
        ≡ review_action (codes "skip") (pos 9)
          ∷ review_action (codes "hint") (pos 9)
          ∷ review_action (codes "solution") (pos 9)
          ∷ review_action (codes "why") (pos 9)
          ∷ [])
    × (parse_callback (codes "v2x:" ++ show_nat 3) ≡ extend (pos 3))
asked_lem_example = asked_lem 3 9 (1 ∷ 2 ∷ [])

-- Telegram answers nothing, LeetCode knows nothing.
abbrev services : Services
services = record {
  codecs = codecs;
  bot = record { allowed_chat = codes "7"; visible = length; answer = λ n. lost 0 };
  runner = λ message key state. (returned (record { receipts = []; text = [] }), state);
  sha256 = λ t. t;
  urlparse = λ t. record { scheme = []; netloc = []; hostname = []; path = t };
  search = λ t. none;
}

abbrev world : World
world = record { db = db; calls = []; attempts = 0 }

unanswered :
    (handle_callback services clock chat (codes "c1") (codes "v2p:1:1") world).0
    ≡ failed telegram_failure
unfolding handle_callback
unanswered = refl

handle_callback_clean_example : is_domain_error telegram_failure ≡ false
handle_callback_clean_example =
    handle_callback_clean services clock chat (codes "c1") (codes "v2p:1:1") telegram_failure world
      unanswered

is_slug_iff_example : (is_slug two_sum ≡ true) ↔ IsDashed two_sum
is_slug_iff_example = is_slug_iff two_sum

-- Pages that never end.
fetch_problemset_ends_example :
    is_some (fetch_problemset (λ _ _ _. some (question ∷ [])) 100 1 (codes "hard" ∷ [])) ≡ true
fetch_problemset_ends_example =
    fetch_problemset_ends (λ _ _ _. some (question ∷ [])) 100 1 (codes "hard" ∷ [])
