-- ===== src/Webhook.antt =====
-- The Telegram webhook, `telegram_webhook` of src/leetcode_coach/main.py.
pub mod Delivery
pub mod Redelivery
use leetcode_coach_service.Base.{
  ℕ, Bool, true, false, Option, none, some, List, [], ◌∷◌, ◌&&◌, ◌||◌, if◌then◌else◌, ◌==◌, ℤ, not,
  Eq,
}
use leetcode_coach_service.Text.{Text, codes, text_eq, is_empty, show_int}
use leetcode_coach_service.Calendar.{Clock}
use leetcode_coach_service.Store.{Db, Result, ok, err}
use leetcode_coach_service.Updates.{record_update, processed_update_status, mark_update_handled}

-- What the handler is called with: the data of a button, or a message whose text and caption may
-- both be missing.
pub data Body : Type 0 where
  callback : Text → Text → Body
  message : Option Text → ℕ → Body

pub record Update : Type 0 where
  pub update_id : ℕ
  pub chat_id : ℤ
  pub body : Body

-- `telegram_webhook_secret` and `telegram_chat_id`.
pub record Settings : Type 0 where
  pub webhook_secret : Text
  pub allowed_chat : Text

-- The HTTP status, and whether the coach was called.
pub record Response : Type 0 where
  pub status : ℕ
  pub is_run : Bool

-- `handle_callback` or `handle_text`: `none`, or the text of the exception that it raised. Its
-- transactions are committed one by one, so that the database has changed in either case.
abbrev pub Coach : Type 0
Coach = Body → Db → Option Text × Db

abbrev pub ignored : Response
ignored = record { status = 200; is_run = false }

abbrev pub matches_secret : Text → Option Text → Bool
matches_secret secret none = false
matches_secret secret (some header) = header == secret

unfoldable pub is_trusted : Settings → Option Text → Bool
is_trusted settings header =
    is_empty settings.webhook_secret || matches_secret settings.webhook_secret header

abbrev pub has_text : Option Text → Bool
has_text none = false
has_text (some t) = not (is_empty t)

-- A message without text is answered before the coach is called.
abbrev pub is_handled : Body → Bool
is_handled (callback id _) = true
is_handled (message text id) = has_text text

-- `later` is the clock behind the call. When noting the outcome raises, as for an exception text
-- that its column does not take, that exception leaves the handler: the server answers 500, and the
-- update stays as the coach left it.
unfoldable pub run_coach : Coach → Clock → Update → Db → Response × Db
run_coach coach later u db =
    let (error, db') = coach u.body db in
    let (marked, db'') = mark_update_handled later u.update_id error db' in
    elim marked [
      | ok _ ↦ (record { status = elim error [ none ↦ 200 | some _ ↦ 503 ]; is_run = true }, db'')
      | err _ ↦ (record { status = 500; is_run = true }, db')
    ]

-- `str(existing status) == "received"` of an update that another delivery holds.
abbrev pub is_in_progress : Option Text → Bool
is_in_progress none = false
is_in_progress (some t) = t == codes "received"

-- `raced` tells that the commit of the claim met an `IntegrityError`, that is, that another process
-- inserted the row first; the session is rolled back.
unfoldable pub deliver : Coach → Clock → Clock → Bool → Update → Db → Response × Db
unfolding run_coach
deliver coach clock later raced u db =
    let (claim, db') = record_update clock u.update_id u.chat_id db in
    elim claim [
      | ok true ↦
          if raced
          then (ignored, db)
          else if is_handled u.body
          then run_coach coach later u db'
          else (ignored, db')
      | _ ↦ (
        record {
          status = if is_in_progress (processed_update_status u.update_id db') then 503 else 200;
          is_run = false;
        },
        db',
      )
    ]

-- `none` is a body that is malformed, or neither a callback nor a message.
unfoldable pub telegram_webhook :
    Settings → Coach → Clock → Clock → Bool → Option Text → Option Update → Db → Response × Db
unfolding deliver is_trusted
telegram_webhook settings coach clock later raced header none db = (ignored, db)
telegram_webhook settings coach clock later raced header (some u) db =
    if not (is_trusted settings header) || not (show_int u.chat_id == settings.allowed_chat)
    then (ignored, db)
    else deliver coach clock later raced u db
