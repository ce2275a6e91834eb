-- ===== src/Tests/Messages.antt =====
-- Updates, follow-ups, jobs and the ledger.
use leetcode_coach_service.Base.{
  ℕ, zero, suc, true, false, none, some, Option, [], ◌∷◌, pos, negsuc, ◌+ℤ◌, ◌≡◌, refl, arith, ◌+◌,
  All, length, List, is_some, leb,
}
use leetcode_coach_service.Text.{Text, codes, text_beq, text_eq, lstrip}
use leetcode_coach_service.Calendar.{minutes}
use leetcode_coach_service.Store.{Db, ok}
use leetcode_coach_service.Credit.{add_credit, credit_balance, apply_daily_tax, tax_amount}
use leetcode_coach_service.Tests.Fixtures.{
  clock, later_clock, chat, two_sum, db, review, key, today,
}
use leetcode_coach_service.Credit.Laws.{add_credit-Unique, tax_once_a_day}
use leetcode_coach_service.Store.Rows.{Unique}
use leetcode_coach_service.Model.{CreditEntry, FollowUp}
use leetcode_coach_service.Updates.{record_update, mark_update_handled}
use leetcode_coach_service.Updates.Laws.{record_update_lease, record_update_after_handling}
use leetcode_coach_service.BotStates.{operation_replayed}
use leetcode_coach_service.BotStates.Claims.{operation_replayed_again}
use leetcode_coach_service.FollowUps.{
  follow_up_key, new_follow_up, schedule_follow_up, claim_follow_up, claim_lease,
  deliver_due_follow_ups,
}
use leetcode_coach_service.FollowUps.Laws.{claim_follow_up_exclusive}
use leetcode_coach_service.FollowUps.Bounds.{AreBounded}
use leetcode_coach_service.FollowUps.Delivery.{attempts, deliver_due_follow_ups-AreBounded}
use leetcode_coach_service.Jobs.{expire_state, ProblemRecord, refresh_problem_pool}
use leetcode_coach_service.Proposals.{new_batch}
use leetcode_coach_service.Jobs.Pool.{IsVerified, refresh_problem_pool-IsVerified}
use leetcode_coach_service.Rendering.{
  Card, Page, range, page_of, paginate_from, paginate_proposal_html, render_proposal_html,
}
use leetcode_coach_service.Text.Strip.{join}
use leetcode_coach_service.Rendering.Pages.{positions_of, IsShort, paginate_proposal_html_lem}

-- The ledger.
abbrev taxed : Db
taxed = (apply_daily_tax clock chat today tax_amount db).1

add_credit-Unique_example :
    Unique
      (λ (e : CreditEntry). e.idempotency_key)
      (add_credit clock chat (pos 5) (codes "gift") key none none none db).1.ledger.rows
add_credit-Unique_example =
    add_credit-Unique clock chat (pos 5) (codes "gift") key none none none db tt

tax_once_a_day_example :
    (credit_balance chat taxed ≡ credit_balance chat db +ℤ tax_amount)
    × ((apply_daily_tax later_clock chat today (negsuc 0) taxed).1 ≡ taxed)
tax_once_a_day_example = tax_once_a_day clock later_clock chat tax_amount (negsuc 0) today db refl

-- Updates.
abbrev received_db : Db
received_db = (record_update clock 11 chat db).1

was_received : record_update clock 11 chat db ≡ (ok true, received_db)
unfolding record_update
was_received = refl

record_update_lease_example :
    (record_update later_clock 11 chat received_db).0
    ≡ ok (leb (clock.now + minutes 15) later_clock.now)
record_update_lease_example =
    record_update_lease clock later_clock 11 chat chat db received_db was_received

abbrev failed_db : Db
failed_db = (mark_update_handled clock 11 (some key) received_db).1

was_marked : mark_update_handled clock 11 (some key) received_db ≡ (ok tt, failed_db)
unfolding mark_update_handled record_update
was_marked = refl

record_update_after_handling_example : (record_update later_clock 11 chat failed_db).0 ≡ ok true
record_update_after_handling_example =
    record_update_after_handling clock later_clock 11 (some key) chat received_db failed_db
      was_marked

-- Follow-ups.
abbrev digest : ℕ → Text → Text
digest due_at message = message

abbrev scheduled : Db
scheduled = (schedule_follow_up digest (codes "u1") clock chat 5 (codes "hi") key db).1

abbrev claimed : FollowUp
claimed =
    record (new_follow_up clock (codes "u1") chat 5 (codes "hi")
      (follow_up_key chat (codes "hi") key)) { status = codes "delivering"; updated_at = 20 }

abbrev sending : Db
sending = (claim_follow_up 20 (codes "u1") scheduled).1

was_claimed : claim_follow_up 20 (codes "u1") scheduled ≡ (some claimed, sending)
unfolding claim_follow_up schedule_follow_up text_beq
was_claimed = refl

claim_follow_up_exclusive_example :
    is_some (claim_follow_up 21 (codes "u1") sending).0 ≡ leb (20 + claim_lease) 21
claim_follow_up_exclusive_example =
    claim_follow_up_exclusive 20 21 (codes "u1") claimed scheduled sending was_claimed

scheduled-AreBounded : AreBounded scheduled.follow_ups
unfolding schedule_follow_up text_beq
scheduled-AreBounded = ((refl, tt), (omega arith, tt))

-- Telegram refuses the first message of a run and accepts the others.
abbrev refuse_first : ℕ → Option Text × ℕ
refuse_first zero = (some (codes "timeout"), 21)
refuse_first (suc n) = (none, 22)

deliver_due_follow_ups-AreBounded_example :
    let (sent, db') = deliver_due_follow_ups refuse_first 20 scheduled in
    AreBounded db'.follow_ups
    × (attempts db'.follow_ups ≡ attempts scheduled.follow_ups + length sent)
deliver_due_follow_ups-AreBounded_example =
    deliver_due_follow_ups-AreBounded refuse_first 20 scheduled scheduled-AreBounded

-- Jobs.
-- The batch stands in a message and expires at the time of the run; the review is of the day before.
abbrev lapsing : Db
lapsing = record db {
  batches = record {
    rows =
        record (new_batch clock chat clock.now 1) { telegram_message_id = some 9 }
        ∷ new_batch clock chat (clock.now + 1) 2
        ∷ [];
    next_id = 3;
  };
  reviews = record {
    rows = record review { proposed_on = record { year = 2026; month = 2; day = 28 } } ∷ [];
    next_id = 2;
  };
}

lapsed_keyboards : (expire_state clock lapsing).0 ≡ (1, 9) ∷ []
unfolding expire_state
lapsed_keyboards = refl

abbrev seen_solved : List ProblemRecord
seen_solved =
    record { slug = two_sum; title = codes "Two Sum"; difficulty = codes "easy"; tags = [] } ∷ []

refresh_problem_pool-IsVerified_example :
    All
      (λ (r : ProblemRecord). IsVerified (refresh_problem_pool 5 [] seen_solved db).problems r.slug)
      seen_solved
refresh_problem_pool-IsVerified_example = refresh_problem_pool-IsVerified 5 [] seen_solved db

-- Rendering.
abbrev card : Card
card = record {
  title = codes "Two Sum";
  url = codes "u";
  difficulty = codes "easy";
  tags = [];
  reasoning = codes "why";
  coaching_hint = codes "hint";
}

abbrev pages : List Page
pages = page_of (card ∷ []) 1 ∷ page_of (card ∷ []) 2 ∷ []

-- The length of the whole text, for a parser that hands out no more than that.
paginated : paginate_proposal_html length 200 (card ∷ card ∷ []) ≡ some pages
unfolding paginate_proposal_html paginate_from render_proposal_html lstrip join text_beq
paginated = refl

paginate_proposal_html_lem_example :
    (positions_of pages ≡ range 1 2) × All (IsShort length 200) pages
paginate_proposal_html_lem_example =
    paginate_proposal_html_lem length 200 (card ∷ card ∷ []) pages paginated

abbrev six : List ℕ
six = 1 ∷ 2 ∷ 3 ∷ 4 ∷ 5 ∷ 6 ∷ []

-- A claimed operation.
abbrev hash : Text → Text
hash t = t

abbrev adjusting : Db
adjusting = (operation_replayed hash clock chat (codes "lesson") (codes "new") (some key) db).1

was_new :
    operation_replayed hash clock chat (codes "lesson") (codes "new") (some key) db
    ≡ (ok false, adjusting)
unfolding operation_replayed
was_new = refl

operation_replayed_again_example :
    operation_replayed hash later_clock chat (codes "lesson") (codes "new") (some key) adjusting
    ≡ (ok true, adjusting)
operation_replayed_again_example =
    operation_replayed_again hash clock later_clock chat (codes "lesson") (codes "new") key false db
      adjusting was_new
