-- ===== src/Application/Clean.antt =====
-- Handlers that raise no `DomainError`, of which src/leetcode_coach/application.py is made.
use leetcode_coach_service.Base.{
  ℕ, false, some, ◌≡◌, refl, ℤ, Bool-cases, Option-cases, inl, inr, not, ◌||◌, take,
}
use leetcode_coach_service.Text.{Text, show_int}
use leetcode_coach_service.Store.{Db, Exec, Result, ok, err, write}
use leetcode_coach_service.Telegram.{
  World, App, Bot, Message, Call, Keyboard, Reply, returned, failed, raised, skip, transact,
  reply_of, call, validate_markup, is_allowed, message_text, send_message, send_call, edit_call,
  answer_call, say, answer_callback, edit_message, plain_message, ◌>>=◌, then_do,
}
use leetcode_coach_service.Telegram.Sending.{
  Answer-cases, call_refused, call_accepted, send_refused, send_empty, send_called,
}
use leetcode_coach_service.Application.Handling.{is_domain_error, on_domain_error, recover}

-- A run that fails with no `DomainError`.
abbrev pub Clean : {A : Type 0} → Reply A → Type 0
Clean (returned a) = Unit
Clean (failed e) = is_domain_error e ≡ false

abbrev pub Handles : {A : Type 0} → App A → Type 0
Handles m = (w : World) → Clean (m w).0

pub bind-Clean :
    {A B : Type 0} (r : Reply A) (w : World) (f : A → App B)
    → Clean r
    → ((a : A) → Handles (f a))
    → Clean (then_do (r, w) f).0
bind-Clean (returned a) w f clean rest = rest a w
bind-Clean (failed e) w f clean rest = clean

pub Handles-bind :
    {A B : Type 0} (m : App A) (f : A → App B)
    → Handles m
    → ((a : A) → Handles (f a))
    → Handles (m >>= f)
Handles-bind m f first rest w = bind-Clean (m w).0 (m w).1 f (first w) rest

pub recover-Clean :
    {A : Type 0} (handler : App A) (r : Reply A) (w : World)
    → Handles handler
    → Clean (recover handler (r, w)).0
recover-Clean handler (returned a) w clean = tt
recover-Clean handler (failed e) w clean = elim (Bool-cases (is_domain_error e)) [
  | inl refused ↦ rw refused (clean w)
  | inr other ↦ rw other other
]

pub Handles-on_domain_error :
    {A : Type 0} (handler m : App A) → Handles handler → Handles (on_domain_error handler m)
Handles-on_domain_error handler m clean w = recover-Clean handler (m w).0 (m w).1 clean

module _ (bot : Bot) where
  pub call-Handles : (c : Call) → Handles (call bot c)
  call-Handles c w = elim (Answer-cases (bot.answer w.attempts)) [
    | inl (n, refused) ↦ rw (call_refused bot c w n refused) refl
    | inr (n, id, given) ↦ rw (call_accepted bot c w n id given) tt
  ]

  pub send-Handles : (chat_id : ℤ) (m : Message) → Handles (send_message bot chat_id m)
  send-Handles chat_id m w =
      elim (Bool-cases (not (validate_markup m.markup) || not (is_allowed bot chat_id))) [
        | inl refused ↦ rw (send_refused bot chat_id m w refused) refl
        | inr fine ↦ elim (Option-cases (message_text bot.visible m.text m.is_html)) [
          | inl missing ↦ rw (send_empty bot chat_id m w missing) refl
          | inr (t, given) ↦
              rw (send_called bot chat_id m t w fine given)
                (call-Handles (send_call (show_int chat_id) (record m { text = t })) w)
        ]
      ]

  pub say-Handles : (chat_id : ℤ) (text : Text) → Handles (say bot chat_id text)
  unfolding say
  say-Handles chat_id text w =
      Handles-bind (send_message bot chat_id (plain_message text)) (λ _. skip)
        (send-Handles chat_id (plain_message text)) (λ _ _. tt) w

  pub edit-Handles :
      (chat_id : ℤ) (message_id : ℕ) (rows : Keyboard)
      → Handles (edit_message bot chat_id message_id rows)
  unfolding edit_message
  edit-Handles chat_id message_id rows w =
      elim (Bool-cases (not (validate_markup (some rows)) || not (is_allowed bot chat_id))) [
        | inl refused ↦ rw refused refl
        | inr fine ↦ rw fine (call-Handles (edit_call (show_int chat_id) message_id rows) w)
      ]

  pub answer-Handles : (callback_id text : Text) → Handles (answer_callback bot callback_id text)
  unfolding answer_callback
  answer-Handles callback_id text w = call-Handles (answer_call callback_id (take 200 text)) w

-- A transaction that raises no `DomainError`.
abbrev pub NoRefusal : {A : Type 0} → Result A → Type 0
NoRefusal (ok a) = Unit
NoRefusal (err e) = is_domain_error (raised e) ≡ false

pub write-Clean :
    {A : Type 0} (r : Result A) (db w : Db)
    → NoRefusal r
    → Clean (reply_of (write (λ _. (r, db)) w).0)
unfolding write
write-Clean (ok a) db w raises = tt
write-Clean (err e) db w raises = raises

pub transact-Handles :
    {A : Type 0} (m : Exec A) → ((db : Db) → NoRefusal (m db).0) → Handles (transact m)
unfolding transact write
transact-Handles m raises w = write-Clean (m w.db).0 (m w.db).1 w.db (raises w.db)
