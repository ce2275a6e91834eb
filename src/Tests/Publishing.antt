-- ===== src/Tests/Publishing.antt =====
-- A proposal of one problem: sent, picked and committed.
use leetcode_coach_service.Base.{
  ◌+◌, true, some, List, [], ◌∷◌, int_beq, ◌≡◌, refl, int_eq, nat_eq, or_else, ap, sym, length,
  if◌then◌else◌, ◌==◌,
}
use leetcode_coach_service.Text.{text_eq, text_beq, codes, show_int, show_nat, lstrip}
use leetcode_coach_service.Text.Strip.{join}
use leetcode_coach_service.Calendar.{hours}
use leetcode_coach_service.Model.{ProposalBatch, ProposalCandidate, available}
use leetcode_coach_service.Store.{Db, ok}
use leetcode_coach_service.Proposals.{
  new_batch, find_batch, commit_picks, check_picks, distinct, take_picks,
}
use leetcode_coach_service.BotStates.{find_state, set_bot_state}
use leetcode_coach_service.Application.{Choice, is_live}
use leetcode_coach_service.Application.Picking.{choose, commit_direct_picks, batch_reviews}
use leetcode_coach_service.Application.Replay.{choose_again}
use leetcode_coach_service.Application.Recommit.{commit_direct_picks_again}
use leetcode_coach_service.Telegram.{
  accepted, lost, transact, World, Bot, returned, failed, telegram_failure,
}
use leetcode_coach_service.Rendering.{
  Page, page_of, paginate_from, render_proposal_html, paginate_proposal_html,
}
use leetcode_coach_service.Application.Threads.{
  send_review_threads, load_progress, card_of, unsent_batch, batch_cards, send_unsent_proposal,
}
use leetcode_coach_service.Application.Pages.{next_page}
use leetcode_coach_service.Application.Resume.{Published}
use leetcode_coach_service.Application.Publishing.{start, broke_off, send_unsent_proposal-Published}
use leetcode_coach_service.Application.Rethreading.{send_review_threads_again}
use leetcode_coach_service.Tests.Codecs.{codecs}
use leetcode_coach_service.Tests.Fixtures.{clock, later_clock, chat, two_sum, db, problem}

abbrev batch : ProposalBatch
batch = new_batch clock chat (clock.now + hours 24) 1

abbrev candidate : ProposalCandidate
candidate = record {
  id = 1;
  batch_id = 1;
  position = 1;
  problem_slug = two_sum;
  reasoning = codes "why";
  coaching_hint = codes "hint";
  status = available;
}

abbrev offered : Db
offered = record db {
  batches = record { rows = batch ∷ []; next_id = 2 };
  candidates = record { rows = candidate ∷ []; next_id = 2 };
}

abbrev choice : Choice
choice = record { action = codes "Selected"; slug = two_sum; count = 1 }

abbrev pressed : Db
pressed = (choose codecs clock chat 1 1 (codes "press") offered).1

ran_press : choose codecs clock chat 1 1 (codes "press") offered ≡ (ok (some choice), pressed)
unfolding choose int_beq find_state set_bot_state text_beq
ran_press = refl

still_active :
    (b : ProposalBatch) → find_batch 1 offered ≡ some b → is_live later_clock chat b ≡ true
unfolding is_live int_beq
still_active b found = ap (λ o. is_live later_clock chat (or_else o batch)) (sym found)

choose_again_example :
    choose codecs later_clock chat 1 1 (codes "press") pressed ≡ (ok (some choice), pressed)
choose_again_example =
    choose_again codecs clock later_clock chat 1 1 (codes "press") choice offered pressed ran_press
      still_active

abbrev committed : Db
committed = (commit_direct_picks codecs clock chat 1 pressed).1

ran_commit : commit_direct_picks codecs clock chat 1 pressed ≡ (ok (some (2 ∷ [])), committed)
unfolding commit_direct_picks choose int_beq find_state set_bot_state text_beq show_nat commit_picks
    check_picks distinct take_picks
ran_commit = refl

no_review : batch_reviews chat 1 pressed ≡ []
unfolding batch_reviews choose int_beq find_state set_bot_state text_beq
no_review = refl

commit_direct_picks_again_example :
    commit_direct_picks codecs later_clock chat 1 committed ≡ (ok (some (2 ∷ [])), committed)
commit_direct_picks_again_example =
    commit_direct_picks_again codecs clock later_clock chat 1 (2 ∷ []) pressed committed ran_commit
      (λ _ _ _. no_review)

-- Of the second request Telegram's answer is lost; of the third, an acceptance before the last.
abbrev bot : Bot
bot = record {
  allowed_chat = codes "7";
  visible = length;
  answer = λ n. if n == 1 then lost 1 else if n == 2 then accepted 1 102 else accepted 0 (n + 100);
}

abbrev here : World
here = record { db = offered; calls = []; attempts = 0 }

abbrev broken : World
broken = (send_unsent_proposal codecs bot clock chat here).1

broke : send_unsent_proposal codecs bot clock chat here ≡ (failed telegram_failure, broken)
unfolding send_unsent_proposal int_beq paginate_proposal_html paginate_from text_beq
    render_proposal_html lstrip join show_int transact
broke = refl

abbrev sent : World
sent = (send_unsent_proposal codecs bot later_clock chat broken).1

went : send_unsent_proposal codecs bot later_clock chat broken ≡ (returned true, sent)
unfolding send_unsent_proposal int_beq paginate_proposal_html paginate_from text_beq
    render_proposal_html lstrip join show_int transact set_bot_state
went = refl

abbrev pages : List Page
pages = page_of (card_of candidate (problem two_sum) ∷ []) 1 ∷ []

waits :
    (unsent_batch chat offered ≡ some batch)
    × (paginate_proposal_html length 4096 (batch_cards 1 offered) ≡ some pages)
unfolding unsent_batch paginate_proposal_html batch_cards int_beq paginate_from text_beq
    render_proposal_html lstrip join
waits = (refl, refl)

fresh : next_page codecs chat 1 offered ≡ 0
unfolding load_progress
fresh = refl

send_unsent_proposal-Published_example : (true ≡ true) × Published codecs chat 1 pages 1 here sent
unfolding batch_cards text_beq
send_unsent_proposal-Published_example =
    send_unsent_proposal-Published codecs bot chat batch here
      (page_of (card_of candidate (problem two_sum) ∷ []) 1) [] later_clock true broken sent waits
      fresh (broke_off clock telegram_failure broken start broke) went

abbrev open_world : World
open_world = record { db = offered; calls = []; attempts = 5 }

abbrev threaded : World
threaded = (send_review_threads bot chat (1 ∷ []) open_world).1

threads_sent : send_review_threads bot chat (1 ∷ []) open_world ≡ (returned tt, threaded)
unfolding send_review_threads text_beq show_nat show_int transact
threads_sent = refl

send_review_threads_again_example :
    send_review_threads bot chat (1 ∷ []) threaded ≡ (returned tt, threaded)
send_review_threads_again_example =
    send_review_threads_again bot chat (1 ∷ []) open_world threaded threads_sent
