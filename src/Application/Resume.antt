-- ===== src/Application/Resume.antt =====
-- A proposal whose sending broke off and is taken up again.
use leetcode_coach_service.Base.{
  ℕ, min, Bool, true, List, [], ◌∷◌, ◌++◌, ◌≡◌, refl, ap, sym, ◌∙◌, subst, ◌⊎◌, inl, inr, ℤ, arith,
  ⊤, length, length-append, drop, map, append-nil, append_assoc, or_else,
}
use leetcode_coach_service.Text.{show_int}
use leetcode_coach_service.Calendar.{Clock}
use leetcode_coach_service.Store.{Db}
use leetcode_coach_service.BotStates.Setting.{SameButStates, SameButStates-trans}
use leetcode_coach_service.Rendering.{Page}
use leetcode_coach_service.Telegram.{
  World, Bot, Call, send_call, Reply, returned, failed, Failure, telegram_failure, transact,
  message_text, send_message, then_do,
}
use leetcode_coach_service.Telegram.Sending.{IsWhole, send_message-Sent}
use leetcode_coach_service.Application.{Codecs}
use leetcode_coach_service.Application.Threads.{
  load_progress, send_pages, controller, close_delivery, send_controller, send_proposal,
}
use leetcode_coach_service.Application.Pages.{
  next_page, page_call, Advanced, send_pages-Advanced, Delivering, next_one, again_repeated,
}

Reply-cases :
    {A : Type 0} (r : Reply A) → ((a : A) × (r ≡ returned a)) ⊎ ((e : Failure) × (r ≡ failed e))
Reply-cases (returned a) = inl (a, refl)
Reply-cases (failed e) = inr (e, refl)

drop-append : {A : Type 0} (xs ys : List A) → drop (length xs) (xs ++ ys) ≡ ys
drop-append [] ys = refl
drop-append (x ∷ xs) ys = drop-append xs ys

controller-IsWhole : (bot : Bot) (batch_id count : ℕ) → IsWhole bot (controller batch_id count)
unfolding message_text controller
controller-IsWhole bot batch_id count t h = sym (ap (λ o. or_else o []) h)

module _ (codecs : Codecs) (chat_id : ℤ) (batch_id : ℕ) (pages : List Page) where
  abbrev pub controller_call : ℕ → Call
  controller_call count = send_call (show_int chat_id) (controller batch_id count)

  -- The pages in order, and the keyboard behind them.
  abbrev pub planned_calls : ℕ → List Call
  planned_calls count = map (page_call chat_id) pages ++ controller_call count ∷ []

  -- Some of the pages were sent since `w`, and the progress counts them.
  abbrev pub Underway : ℕ → World → World → Type 0
  Underway count w w' =
      (sent : List Page) × (left : List Page) × (pages ≡ sent ++ left)
      × Delivering w.calls (planned_calls count) w'.calls
          (map (page_call chat_id) left ++ controller_call count ∷ [])
      × (next_page codecs chat_id batch_id w'.db ≡ length sent)
      × SameButStates w.db w'.db

  -- All of them were sent, and the keyboard behind them.
  abbrev pub Published : ℕ → World → World → Type 0
  Published count w w' = Delivering w.calls (planned_calls count) w'.calls []

  abbrev pub Ended : ℕ → World → Reply Bool × World → Type 0
  Ended count w (r, w') =
      ((e : Failure) × (r ≡ failed e) × Underway count w w')
      ⊎ ((r ≡ returned true) × Published count w w')

module _ (codecs : Codecs) (bot : Bot) (clock : Clock) (chat_id : ℤ) (batch_id count : ℕ)
    (pages : List Page) where
  abbrev keyboard_call : Call
  keyboard_call = controller_call codecs chat_id batch_id pages count

  abbrev plan : List Call
  plan = planned_calls codecs chat_id batch_id pages count

  -- The sending that a run of the loop leaves.
  abbrev Looped : World → Reply ⊤ → World → Type 0
  Looped w r w' =
      (more : List Page) × (rest : List Page) × (pages ≡ more ++ rest)
      × Delivering w.calls plan w'.calls (map (page_call chat_id) rest ++ keyboard_call ∷ [])
      × (next_page codecs chat_id batch_id w'.db ≡ length more)
      × SameButStates w.db w'.db
      × (r ≡ returned tt → rest ≡ [])

  loop-Underway :
      (w w' : World) (sent left : List Page) (r : Reply ⊤) (w'' : World)
      → pages ≡ sent ++ left
      → SameButStates w.db w'.db
      → Advanced codecs chat_id batch_id w.calls plan
          (keyboard_call ∷ [])
          (length sent)
          left
          w'
          (r, w'')
      → Looped w r w''
  loop-Underway w w' sent left r w'' split same (now, rest, split', calls, next, same', done) = (
    sent ++ now,
    rest,
    split ∙ ap (λ ps. sent ++ ps) split' ∙ sym (append_assoc sent now rest),
    calls,
    next ∙ sym (length-append sent now),
    SameButStates-trans w.db w'.db w''.db same same',
    done,
  )

  controller_accepted :
      (id : ℕ) (w w' : World)
      → send_message bot chat_id (controller batch_id count) w ≡ (returned id, w')
      → send_controller bot chat_id batch_id count w
        ≡ (returned true, record w' { db = close_delivery chat_id batch_id id w'.db })
  unfolding send_controller transact
  controller_accepted id w w' sent = rw sent refl

  controller_refused :
      (e : Failure) (w w' : World)
      → send_message bot chat_id (controller batch_id count) w ≡ (failed e, w')
      → send_controller bot chat_id batch_id count w ≡ (failed e, w')
  unfolding send_controller
  controller_refused e w w' sent = rw sent refl

  -- Behind all pages the keyboard is sent, or the run fails.
  controller-Ended :
      (w w' : World)
      → Delivering w.calls plan w'.calls (keyboard_call ∷ [])
      → next_page codecs chat_id batch_id w'.db ≡ length pages
      → SameButStates w.db w'.db
      → Ended codecs chat_id batch_id pages count w (send_controller bot chat_id batch_id count w')
  controller-Ended w w' so_far next same =
      let (r, after) = send_message bot chat_id (controller batch_id count) w' in
      let (kept, outcome) =
        send_message-Sent bot chat_id (controller batch_id count) w'
          (controller-IsWhole bot batch_id count) in
      elim outcome [
        | inl (id, n, accepted, calls) ↦
            subst (Ended codecs chat_id batch_id pages count w)
              (sym (controller_accepted id w' after (ap (λ (r : Reply ℕ). (r, after)) accepted)))
              (inr (
                refl,
                subst (λ cs. Delivering w.calls plan cs []) (sym calls)
                    (next_one keyboard_call (again_repeated n keyboard_call so_far)),
              ))
        | inr (n, refused, calls) ↦
            subst (Ended codecs chat_id batch_id pages count w)
              (sym (
                controller_refused telegram_failure w' after
                  (ap (λ (r : Reply ℕ). (r, after)) refused)))
              (inl (
                telegram_failure,
                refl,
                (
                  pages,
                  [],
                  sym (append-nil pages),
                  subst (λ cs. Delivering w.calls plan cs (keyboard_call ∷ [])) (sym calls)
                      (again_repeated n keyboard_call so_far),
                  ap (next_page codecs chat_id batch_id) kept ∙ next,
                  subst (λ (d : Db). SameButStates w.db d) (sym kept) same,
                ),
              ))
      ]

  -- The controller comes behind a loop that went through.
  abbrev finish : Reply ⊤ × World → Reply Bool × World
  finish looped = then_do looped (λ _. send_controller bot chat_id batch_id count)

  loop-Ended :
      (w : World) (r : Reply ⊤) (w' : World)
      → Looped w r w'
      → Ended codecs chat_id batch_id pages count w (finish (r, w'))
  loop-Ended w (failed e) w' (more, rest, split, calls, next, same, done) =
      inl (e, refl, (more, rest, split, calls, next, same))
  loop-Ended w (returned a) w' (more, rest, split, calls, next, same, done) =
      let whole : more ≡ pages =
        sym (append-nil more) ∙ ap (λ ps. more ++ ps) (sym (done refl)) ∙ sym split in
      controller-Ended w w'
        (subst
          (λ ps.
            Delivering w.calls plan w'.calls (map (page_call chat_id) ps ++ keyboard_call ∷ []))
          (done refl) calls)
        (next ∙ ap length whole) same

  -- A run from a state in which some pages were sent.
  pub run-Ended :
      (w w' : World) (p : Page) (ps : List Page)
      → pages ≡ p ∷ ps
      → Underway codecs chat_id batch_id pages count w w'
      → Ended codecs chat_id batch_id pages count w (
          send_proposal codecs bot clock chat_id batch_id count
            (load_progress codecs chat_id batch_id w'.db)
            pages
            w')
  unfolding send_proposal
  run-Ended w w' p ps nonempty (sent, left, split, calls, next, same) =
      let start = load_progress codecs chat_id batch_id w'.db in
      let here : min start.next_page (length (p ∷ ps)) ≡ length sent =
        ap (λ n. min n (length (p ∷ ps))) next
        ∙ ap (λ qs. min (length sent) (length qs)) (sym nonempty ∙ split)
        ∙ ap (min (length sent)) (length-append sent left)
        ∙ omega arith in
      let drops : drop (length sent) (p ∷ ps) ≡ left =
        ap (drop (length sent)) (sym nonempty ∙ split) ∙ drop-append sent left in
      let looped =
        send_pages codecs bot clock chat_id batch_id (length sent) start.first_message_id left w' in
      let step : send_proposal codecs bot clock chat_id batch_id count start (p ∷ ps) w'
          ≡ finish looped =
        ap
          (λ n. finish (
            send_pages codecs bot clock chat_id batch_id n start.first_message_id (drop n (p ∷ ps))
              w'))
          here
        ∙ ap
            (λ qs. finish (
              send_pages codecs bot clock chat_id batch_id (length sent) start.first_message_id qs
                w'))
            drops in
      subst (Ended codecs chat_id batch_id pages count w)
        (sym (
          ap (λ qs. send_proposal codecs bot clock chat_id batch_id count start qs w') nonempty
          ∙ step))
        (loop-Ended w looped.0 looped.1 (
          loop-Underway w w' sent left looped.0 looped.1 split same (
            send_pages-Advanced codecs bot clock chat_id batch_id w.calls plan (keyboard_call ∷ [])
              (length sent) start.first_message_id left w' calls next)))
