-- ===== src/Application/Pages.antt =====
-- The pages of a proposal, sent by `_send_unsent_proposal`: how far one run comes.
use leetcode_coach_service.Base.{
  ℕ, zero, suc, ◌+◌, Option, some, List, [], ◌∷◌, ◌++◌, ◌≡◌, refl, ap, sym, ◌∙◌, subst, inl, inr, ℤ,
  arith, ⊤, length, map,
}
use leetcode_coach_service.Text.{show_int}
use leetcode_coach_service.Calendar.{Clock}
use leetcode_coach_service.Store.{Db}
use leetcode_coach_service.BotStates.Setting.{
  SameButStates, SameButStates-trans, set_bot_state_rest,
}
use leetcode_coach_service.Jobs.Nudge.{set_bot_state_found}
use leetcode_coach_service.Rendering.{Page}
use leetcode_coach_service.Telegram.{
  repeated, World, Bot, Call, send_call, Reply, returned, failed, Failure, telegram_failure,
  transact, message_text, send_message,
}
use leetcode_coach_service.Telegram.Sending.{IsWhole, send_message-Sent}
use leetcode_coach_service.Application.{Codecs, Progress, delivery_key}
use leetcode_coach_service.Application.Threads.{
  load_progress, save_progress, page_message, first_id, send_pages,
}

abbrev pub page_call : ℤ → Page → Call
page_call chat_id p = send_call (show_int chat_id) (page_message p)

-- The sending of `planned` calls behind the calls `before`: the calls so far, and those of the plan
-- that are left. A call may be repeated directly, as often as its answer is lost, before the next
-- one has its turn; none is left out.
pub data Delivering (before planned : List Call) : List Call → List Call → Type 0 where
  nothing : Delivering before planned before planned
  again :
      {calls left : List Call} (c : Call)
      → Delivering before planned calls (c ∷ left)
      → Delivering before planned (calls ++ c ∷ []) (c ∷ left)
  next_one :
      {calls left : List Call} (c : Call)
      → Delivering before planned calls (c ∷ left)
      → Delivering before planned (calls ++ c ∷ []) left

pub again_repeated :
    {before planned calls left : List Call} (n : ℕ) (c : Call)
    → Delivering before planned calls (c ∷ left)
    → Delivering before planned (repeated n c calls) (c ∷ left)
again_repeated zero c h = h
again_repeated (suc n) c h = again c (again_repeated n c h)

module _ (codecs : Codecs) (chat_id : ℤ) (batch_id : ℕ) where
  abbrev pub next_page : Db → ℕ
  next_page db = (load_progress codecs chat_id batch_id db).next_page

  -- What a run of the loop from page number `page` has sent, and what it has left; `behind` is what
  -- is planned behind the pages.
  abbrev pub Advanced :
      List Call → List Call → List Call → ℕ → List Page → World → Reply ⊤ × World → Type 0
  Advanced before planned behind page pages w (r, w') =
      (sent : List Page) × (left : List Page) × (pages ≡ sent ++ left)
      × Delivering before planned w'.calls (map (page_call chat_id) left ++ behind)
      × (next_page w'.db ≡ page + length sent)
      × SameButStates w.db w'.db
      × (r ≡ returned tt → left ≡ [])

page-IsWhole : (bot : Bot) (p : Page) → IsWhole bot (page_message p)
unfolding message_text
page-IsWhole bot (text, positions) t h = ground (arith, h)

module _ (codecs : Codecs) (bot : Bot) (clock : Clock) (chat_id : ℤ) (batch_id : ℕ) where
  -- The saved progress is read back.
  save_progress_found :
      (p : Progress) (db : Db)
      → let db' = (save_progress codecs clock chat_id batch_id p db).1 in
        (load_progress codecs chat_id batch_id db' ≡ p) × SameButStates db db'
  unfolding load_progress
  save_progress_found p db =
      let key = delivery_key batch_id in
      let value = codecs.progress.dump p in
      let (s, found, held) = set_bot_state_found clock chat_id key value db in
      let loaded = ap codecs.progress.load held ∙ codecs.progress.load-dump p in
      (rw (found, load_progress) (rw loaded refl), set_bot_state_rest clock chat_id key value db)

  -- `send_pages` behind one page that was accepted.
  abbrev saved : Progress → World → World
  saved p w = record w { db = (save_progress codecs clock chat_id batch_id p w.db).1 }

  send_pages_accepted :
      (page id : ℕ) (first : Option ℕ) (p : Page) (pages : List Page) (w w' : World)
      → send_message bot chat_id (page_message p) w ≡ (returned id, w')
      → send_pages codecs bot clock chat_id batch_id page first (p ∷ pages) w
        ≡ send_pages codecs bot clock chat_id batch_id (page + 1) (some (first_id first id)) pages (
            saved (record { next_page = page + 1; first_message_id = some (first_id first id) }) w')
  unfolding send_pages transact
  send_pages_accepted page id first p pages w w' sent = rw sent refl

  send_pages_refused :
      (page : ℕ) (e : Failure) (first : Option ℕ) (p : Page) (pages : List Page) (w w' : World)
      → send_message bot chat_id (page_message p) w ≡ (failed e, w')
      → send_pages codecs bot clock chat_id batch_id page first (p ∷ pages) w ≡ (failed e, w')
  unfolding send_pages
  send_pages_refused page e first p pages w w' sent = rw sent refl

  pub send_pages-Advanced :
      (before planned behind : List Call) (page : ℕ) (first : Option ℕ) (pages : List Page)
      (w : World)
      → Delivering before planned w.calls (map (page_call chat_id) pages ++ behind)
      → next_page codecs chat_id batch_id w.db ≡ page
      → Advanced codecs chat_id batch_id before planned behind page pages w
          (send_pages codecs bot clock chat_id batch_id page first pages w)
  unfolding send_pages
  send_pages-Advanced before planned behind page first [] w so_far here =
      ([], [], refl, so_far, here ∙ omega arith, refl, λ _. refl)
  send_pages-Advanced before planned behind page first (p ∷ pages) w so_far here =
      let (r, w') = send_message bot chat_id (page_message p) w in
      let (same, outcome) = send_message-Sent bot chat_id (page_message p) w (page-IsWhole bot p) in
      let later = map (page_call chat_id) pages ++ behind in
      elim outcome [
        | inl (id, n, accepted, calls) ↦
            let given : Progress = record {
              next_page = page + 1;
              first_message_id = some (first_id first id);
            } in
            let (found, kept) = save_progress_found given w'.db in
            let now : Delivering before planned w'.calls later =
              subst (λ cs. Delivering before planned cs later) (sym calls)
                (next_one (page_call chat_id p) (again_repeated n (page_call chat_id p) so_far)) in
            let (sent, left, split, rest, next, same', all_sent) =
              send_pages-Advanced before planned behind (page + 1) (some (first_id first id)) pages
                (saved given w') now (ap (λ (q : Progress). q.next_page) found) in
            subst (Advanced codecs chat_id batch_id before planned behind page (p ∷ pages) w)
              (sym (
                send_pages_accepted page id first p pages w w'
                  (ap (λ (r : Reply ℕ). (r, w')) accepted)))
              (
                p ∷ sent,
                left,
                ap (λ ps. p ∷ ps) split,
                rest,
                next ∙ omega arith,
                SameButStates-trans w.db (saved given w').db _
                    (subst (λ (d : Db). SameButStates d (saved given w').db) same kept) same',
                all_sent,
              )
        | inr (n, refused, calls) ↦
            subst (Advanced codecs chat_id batch_id before planned behind page (p ∷ pages) w)
              (sym (
                send_pages_refused page telegram_failure first p pages w w'
                  (ap (λ (r : Reply ℕ). (r, w')) refused)))
              (
                [],
                p ∷ pages,
                refl,
                subst (λ cs. Delivering before planned cs (page_call chat_id p ∷ later)) (sym calls)
                    (again_repeated n (page_call chat_id p) so_far),
                ap (next_page codecs chat_id batch_id) same ∙ here ∙ omega arith,
                subst (λ (d : Db). SameButStates w.db d) (sym same) refl,
                λ gone. absurd (cc gone),
              )
      ]
