-- ===== src/Application/Publishing.antt =====
-- Runs of `_send_unsent_proposal`, of src/leetcode_coach/application.py, until one goes through.
use leetcode_coach_service.Base.{
  ℕ, Bool, true, some, List, [], ◌∷◌, ◌≡◌, refl, ap, sym, ◌∙◌, subst, inl, inr, ℤ, length,
}
use leetcode_coach_service.Calendar.{Clock}
use leetcode_coach_service.Model.{ProposalBatch}
use leetcode_coach_service.Store.{Db}
use leetcode_coach_service.BotStates.Setting.{SameButStates}
use leetcode_coach_service.Rendering.{Page, paginate_proposal_html}
use leetcode_coach_service.Telegram.{World, Bot, returned, failed, Failure}
use leetcode_coach_service.Application.{Codecs}
use leetcode_coach_service.Application.Threads.{
  load_progress, send_proposal, unsent_batch, batch_cards, send_unsent_proposal,
}
use leetcode_coach_service.Application.Pages.{next_page, nothing}
use leetcode_coach_service.Application.Resume.{Underway, Published, Ended, run-Ended}

module _ (codecs : Codecs) (bot : Bot) (chat_id : ℤ) where
  -- Runs that broke off, one behind the other, each at its own time.
  pub data Broken (w : World) : World → Type 0 where
    start : Broken w w
    broke_off :
        {w' : World} (clock : Clock) (e : Failure) (w'' : World)
        → Broken w w'
        → send_unsent_proposal codecs bot clock chat_id w' ≡ (failed e, w'')
        → Broken w w''

module _ (codecs : Codecs) (bot : Bot) (chat_id : ℤ) (batch : ProposalBatch) (w : World) (p : Page)
    (ps : List Page) where
  -- The proposal that waits in `w`, and its pages.
  abbrev pub Waits : World → Type 0
  Waits w' =
      (unsent_batch chat_id w'.db ≡ some batch)
      × (paginate_proposal_html bot.visible 4096 (batch_cards batch.id w'.db) ≡ some (p ∷ ps))

  abbrev count : ℕ
  count = length (batch_cards batch.id w.db)

  waiting_run :
      (clock : Clock) (w' : World)
      → Waits w'
      → length (batch_cards batch.id w'.db) ≡ count
      → send_unsent_proposal codecs bot clock chat_id w'
        ≡ send_proposal codecs bot clock chat_id batch.id count
            (load_progress codecs chat_id batch.id w'.db)
            (p ∷ ps)
            w'
  unfolding send_unsent_proposal
  waiting_run clock w' (waits, pages) counted = rw waits (rw pages (rw counted refl))

  waiting_still :
      (w' : World)
      → Waits w
      → SameButStates w.db w'.db
      → Waits w' × (length (batch_cards batch.id w'.db) ≡ count)
  unfolding unsent_batch batch_cards
  waiting_still w' (waits, pages) same = (
    (
      ap (unsent_batch chat_id) same ∙ waits,
      ap (λ (d : Db). paginate_proposal_html bot.visible 4096 (batch_cards batch.id d)) same
          ∙ pages,
    ),
    ap (λ (d : Db). length (batch_cards batch.id d)) same,
  )

  Broken-Underway :
      (w' : World)
      → Waits w
      → next_page codecs chat_id batch.id w.db ≡ 0
      → Broken codecs bot chat_id w w'
      → Underway codecs chat_id batch.id (p ∷ ps) count w w'
  Broken-Underway w' waits new start = ([], p ∷ ps, refl, nothing, new, refl)
  Broken-Underway w' waits new (broke_off {w' = before} clock e behind earlier run) =
      let (sent, left, split, calls, next, same) = Broken-Underway before waits new earlier in
      let (waits', counted) = waiting_still before waits same in
      let attempt =
        run-Ended codecs bot clock chat_id batch.id count (p ∷ ps) w before p ps refl
          (sent, left, split, calls, next, same) in
      let got =
        subst (Ended codecs chat_id batch.id (p ∷ ps) count w)
          (sym (waiting_run clock before waits' counted) ∙ run) attempt in
      elim got [
        | inl (e', same_failure, underway) ↦ underway
        | inr (succeeded, published) ↦ absurd (cc succeeded)
      ]

  -- The proposal of a chat is sent page by page, each page at least once and in order, and behind
  -- them the keyboard at least once, with no other message between, however often the sending broke
  -- off before the run that goes through; a repetition follows directly. The proposal waits, its
  -- progress counts no page yet, and nothing else happens between the runs.
  pub send_unsent_proposal-Published :
      (clock : Clock) (sent : Bool) (w' w'' : World)
      → Waits w
      → next_page codecs chat_id batch.id w.db ≡ 0
      → Broken codecs bot chat_id w w'
      → send_unsent_proposal codecs bot clock chat_id w' ≡ (returned sent, w'')
      → (sent ≡ true) × Published codecs chat_id batch.id (p ∷ ps) count w w''
  send_unsent_proposal-Published clock sent w' w'' waits new broken run =
      let (already, left, split, calls, next, same) = Broken-Underway w' waits new broken in
      let (waits', counted) = waiting_still w' waits same in
      let attempt =
        run-Ended codecs bot clock chat_id batch.id count (p ∷ ps) w w' p ps refl
          (already, left, split, calls, next, same) in
      let got =
        subst (Ended codecs chat_id batch.id (p ∷ ps) count w)
          (sym (waiting_run clock w' waits' counted) ∙ run) attempt in
      elim got [
        | inl (e, broke, underway) ↦ absurd (cc broke)
        | inr (succeeded, published) ↦ (cc succeeded, published)
      ]
