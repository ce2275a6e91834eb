-- ===== src/Telegram/Sending.antt =====
-- What `send_message` of src/leetcode_coach/integrations/telegram.py changes.
use leetcode_coach_service.Base.{
  ℕ, suc, true, false, none, some, ◌||◌, ◌≡◌, refl, ap, ◌∙◌, ◌⊎◌, inl, inr, Option-cases,
  Bool-cases, ℤ, not, arith,
}
use leetcode_coach_service.Text.{Text, show_int}
use leetcode_coach_service.Telegram.{
  Answer, accepted, lost, repeated, World, Bot, Message, Call, send_call, Reply, returned, failed,
  telegram_failure, validate_markup, is_allowed, message_text, call, send_message,
}

-- Telegram gets the message with its whole text, if it gets it at all.
abbrev pub IsWhole : Bot → Message → Type 0
IsWhole bot m = (t : Text) → message_text bot.visible m.text m.is_html ≡ some t → t ≡ m.text

-- The message was accepted, and it is the last call; or the call was lost. Either may stand behind
-- copies that the caller did not learn of.
abbrev pub Sent : ℤ → Message → World → Reply ℕ × World → Type 0
Sent chat_id m w (r, w') =
    let c = send_call (show_int chat_id) m in
    (w'.db ≡ w.db)
    × (((id : ℕ) × (n : ℕ) × (r ≡ returned id) × (w'.calls ≡ repeated (suc n) c w.calls))
        ⊎ ((n : ℕ) × (r ≡ failed telegram_failure) × (w'.calls ≡ repeated n c w.calls)))

pub Answer-cases :
    (a : Answer) → ((n : ℕ) × (a ≡ lost n)) ⊎ ((n : ℕ) × (id : ℕ) × (a ≡ accepted n id))
Answer-cases (lost n) = inl (n, refl)
Answer-cases (accepted n id) = inr (n, id, refl)

pub call_refused :
    (bot : Bot) (c : Call) (w : World) (n : ℕ)
    → bot.answer w.attempts ≡ lost n
    → call bot c w ≡ (
      failed telegram_failure,
      record w { attempts = suc w.attempts; calls = repeated n c w.calls },
    )
unfolding call
call_refused bot c w n h = rw (h, call) refl

pub call_accepted :
    (bot : Bot) (c : Call) (w : World) (n id : ℕ)
    → bot.answer w.attempts ≡ accepted n id
    → call bot c w
      ≡ (returned id, record w { attempts = suc w.attempts; calls = repeated (suc n) c w.calls })
unfolding call
call_accepted bot c w n id h = rw (h, call) refl

call-Sent :
    (bot : Bot) (chat_id : ℤ) (m : Message) (w : World)
    → Sent chat_id m w (call bot (send_call (show_int chat_id) m) w)
call-Sent bot chat_id m w =
    let c = send_call (show_int chat_id) m in
    elim (Answer-cases (bot.answer w.attempts)) [
      | inl (n, refused) ↦ rw (call_refused bot c w n refused) (refl, inr (n, refl, refl))
      | inr (n, id, given) ↦ rw (call_accepted bot c w n id given) (refl, inl (id, n, refl, refl))
    ]

pub send_refused :
    (bot : Bot) (chat_id : ℤ) (m : Message) (w : World)
    → (not (validate_markup m.markup) || not (is_allowed bot chat_id)) ≡ true
    → send_message bot chat_id m w ≡ (failed telegram_failure, w)
unfolding send_message
send_refused bot chat_id m w h = ground (arith, h)

pub send_empty :
    (bot : Bot) (chat_id : ℤ) (m : Message) (w : World)
    → message_text bot.visible m.text m.is_html ≡ none
    → send_message bot chat_id m w ≡ (failed telegram_failure, w)
unfolding send_message
send_empty bot chat_id m w h = ground (arith, h)

pub send_called :
    (bot : Bot) (chat_id : ℤ) (m : Message) (t : Text) (w : World)
    → (not (validate_markup m.markup) || not (is_allowed bot chat_id)) ≡ false
    → message_text bot.visible m.text m.is_html ≡ some t
    → send_message bot chat_id m w
      ≡ call bot (send_call (show_int chat_id) (record m { text = t })) w
unfolding send_message
send_called bot chat_id m t w fine given = ground (arith, fine, given)

pub send_message-Sent :
    (bot : Bot) (chat_id : ℤ) (m : Message) (w : World)
    → IsWhole bot m
    → Sent chat_id m w (send_message bot chat_id m w)
send_message-Sent bot chat_id m w whole =
    elim (Bool-cases (not (validate_markup m.markup) || not (is_allowed bot chat_id))) [
      | inl refused ↦ rw (send_refused bot chat_id m w refused) (refl, inr (0, refl, refl))
      | inr fine ↦ elim (Option-cases (message_text bot.visible m.text m.is_html)) [
        | inl missing ↦ rw (send_empty bot chat_id m w missing) (refl, inr (0, refl, refl))
        | inr (t, given) ↦
            rw (send_called bot chat_id m m.text w fine (given ∙ ap some (whole t given)))
              (call-Sent bot chat_id m w)
      ]
    ]

call_db : (bot : Bot) (c : Call) (w : World) → (call bot c w).1.db ≡ w.db
call_db bot c w = elim (Answer-cases (bot.answer w.attempts)) [
  | inl (n, refused) ↦ rw (call_refused bot c w n refused) refl
  | inr (n, id, given) ↦ rw (call_accepted bot c w n id given) refl
]

-- A message leaves the database alone.
pub send_message_db :
    (bot : Bot) (chat_id : ℤ) (m : Message) (w : World) → (send_message bot chat_id m w).1.db ≡ w.db
send_message_db bot chat_id m w =
    elim (Bool-cases (not (validate_markup m.markup) || not (is_allowed bot chat_id))) [
      | inl refused ↦ rw (send_refused bot chat_id m w refused) refl
      | inr fine ↦ elim (Option-cases (message_text bot.visible m.text m.is_html)) [
        | inl missing ↦ rw (send_empty bot chat_id m w missing) refl
        | inr (t, given) ↦ rw (send_called bot chat_id m t w fine given) (call_db bot _ w)
      ]
    ]
