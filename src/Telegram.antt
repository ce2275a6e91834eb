-- ===== src/Telegram.antt =====
-- The Telegram adapter, src/leetcode_coach/integrations/telegram.py, and the handlers that interleave
-- transactions with messages.
pub mod Sending
use leetcode_coach_service.Base.{
  ℕ, zero, ◌+◌, suc, Bool, true, false, Option, none, some, List, [], ◌∷◌, ◌++◌, ◌&&◌, ◌||◌, ⊤,
  if◌then◌else◌, ◌==◌, ℤ, not, leb, all, take,
}
use leetcode_coach_service.Text.{Text, text_eq, is_empty, show_int}
use leetcode_coach_service.Store.{Db, Error, Exec, Result, ok, err, write}
use leetcode_coach_service.Rendering.{Button}

abbrev pub Keyboard : Type 0
Keyboard = List (List Button)

-- What `send_message` puts into its payload behind the chat.
pub record Message : Type 0 where
  pub text : Text
  pub reply_to : Option ℕ
  pub markup : Option Keyboard
  pub is_html : Bool

-- The requests that reach Telegram.
pub data Call : Type 0 where
  send_call : Text → Message → Call
  edit_call : Text → ℕ → Keyboard → Call
  answer_call : Text → Text → Call

-- How one `_call` ends, its retries included: with the id of the message, or with an exception. The
-- number is how often Telegram accepted the request before that without the caller learning of it:
-- a transport failure behind an acceptance is retried, and the last one is raised. The end of the
-- process between an acceptance and what the caller would do next is a `lost` one too.
pub data Answer : Type 0 where
  accepted : ℕ → ℕ → Answer
  lost : ℕ → Answer

-- The allowed chat; the number of characters that HTMLParser hands out as data; and how the n-th
-- `_call` ends.
pub record Bot : Type 0 where
  pub allowed_chat : Text
  pub visible : Text → ℕ
  pub answer : ℕ → Answer

pub record World : Type 0 where
  pub db : Db
  -- What Telegram accepted.
  pub calls : List Call
  -- How often `_call` was entered.
  pub attempts : ℕ

-- The calls behind `n` times the same one.
abbrev pub repeated : ℕ → Call → List Call → List Call
repeated zero c calls = calls
repeated (suc n) c calls = repeated n c calls ++ c ∷ []

pub data Failure : Type 0 where
  raised : Error → Failure
  telegram_failure : Failure

pub data Reply (A : Type 0) : Type 0 where
  returned : A → Reply A
  failed : Failure → Reply A

abbrev pub App : Type 0 → Type 0
App A = World → Reply A × World

abbrev pub then_do : {A B : Type 0} → Reply A × World → (A → App B) → Reply B × World
then_do (returned a, w) f = f a w
then_do (failed e, w) f = (failed e, w)

infixl 5 ◌>>=◌ ◌>>◌
abbrev pub ◌>>=◌ : {A B : Type 0} → App A → (A → App B) → App B
◌>>=◌ m f w = then_do (m w) f

abbrev pub ◌>>◌ : {A B : Type 0} → App A → App B → App B
m >> k = m >>= λ _. k

module _ {A : Type 0} where
  abbrev pub give : A → App A
  give a w = (returned a, w)

  abbrev pub fail : Failure → App A
  fail e w = (failed e, w)

  abbrev pub fetch : (Db → A) → App A
  fetch f w = (returned (f w.db), w)

  abbrev pub reply_of : Result A → Reply A
  reply_of (ok a) = returned a
  reply_of (err e) = failed (raised e)

  -- `with Session(engine) as session: ...; session.commit()`
  unfoldable pub transact : Exec A → App A
  unfolding write
  transact m w = let (r, db') = write m w.db in (reply_of r, record w { db = db' })

abbrev pub skip : App ⊤
skip = give tt

-- `len(chr(c).encode("utf-8"))`
abbrev pub char_bytes : ℕ → ℕ
char_bytes c = if leb c 127 then 1 else if leb c 2047 then 2 else if leb c 65535 then 3 else 4

unfoldable pub utf8_length : Text → ℕ
utf8_length [] = 0
utf8_length (c ∷ t) = char_bytes c + utf8_length t

abbrev pub is_valid_button : Button → Bool
is_valid_button b = leb 1 (utf8_length b.callback_data) && leb (utf8_length b.callback_data) 64

-- `_validate_markup`: `false` is the `TelegramV2Error`.
unfoldable pub validate_markup : Option Keyboard → Bool
unfolding utf8_length
validate_markup none = true
validate_markup (some rows) = all (all is_valid_button) rows

-- `_message_text` with the parse modes that the callers use, none and HTML.
unfoldable pub message_text : (Text → ℕ) → Text → Bool → Option Text
message_text visible text is_html =
    if is_empty text
    then none
    else if not is_html
    then some (take 4096 text)
    else if leb (visible text) 4096
    then some text
    else none

-- `_assert_chat`
abbrev pub is_allowed : Bot → ℤ → Bool
is_allowed bot chat_id = show_int chat_id == bot.allowed_chat

module _ (bot : Bot) where
  -- `_call`
  unfoldable pub call : Call → App ℕ
  call c w = elim (bot.answer w.attempts) [
    | lost n ↦ (
      failed telegram_failure,
      record w { attempts = suc w.attempts; calls = repeated n c w.calls },
    )
    | accepted n id ↦
        (returned id, record w { attempts = suc w.attempts; calls = repeated (suc n) c w.calls })
  ]

  unfoldable pub send_message : ℤ → Message → App ℕ
  unfolding call validate_markup message_text
  send_message chat_id m =
      if not (validate_markup m.markup) || not (is_allowed bot chat_id)
      then fail telegram_failure
      else elim (message_text bot.visible m.text m.is_html) [
        | none ↦ fail telegram_failure
        | some text ↦ call (send_call (show_int chat_id) (record m { text = text }))
      ]

  -- `edit_message` of a keyboard.
  unfoldable pub edit_message : ℤ → ℕ → Keyboard → App ℕ
  unfolding call validate_markup
  edit_message chat_id message_id rows =
      if not (validate_markup (some rows)) || not (is_allowed bot chat_id)
      then fail telegram_failure
      else call (edit_call (show_int chat_id) message_id rows)

  -- The empty text stands for none.
  unfoldable pub answer_callback : Text → Text → App ℕ
  unfolding call
  answer_callback callback_id text = call (answer_call callback_id (take 200 text))

abbrev pub plain_message : Text → Message
plain_message text = record { text = text; reply_to = none; markup = none; is_html = false }

-- `send_message(chat_id, text)` whose id is dropped.
unfoldable pub say : Bot → ℤ → Text → App ⊤
unfolding send_message
say bot chat_id text = send_message bot chat_id (plain_message text) >>= λ _. skip
