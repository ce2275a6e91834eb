-- ===== src/Lib.antt =====
-- leetcode-coach-service: a Telegram coach for LeetCode practice.
--
-- The program keeps its state in PostgreSQL. A language model and Telegram buttons call the
-- methods of `CoachDomain` (src/leetcode_coach/domain/services.py), each within one database
-- transaction; scheduled jobs (src/leetcode_coach/jobs.py) work on the same tables; rendering.py
-- turns results into Telegram markup; main.py receives the updates of Telegram and hands them to
-- application.py, which answers buttons itself and gives texts to the agent. This library models
-- the domain, the jobs, the renderer, the webhook and the application.
--
--   Base          shared lists, tests, equality and integers
--   Text          Python's `str` as code points
--   Calendar      dates, the two clock readings of an operation, and wall times
--                 (clock.py)
--   Model         the tables and enumerations of db/models.py
--   Store         the database, the errors of domain/exceptions.py and the session monad
--   Credit        the credit ledger: `add_credit`, the daily tax, balances, idempotency keys
--   BotStates     keyed state and the claims of repeatable operations
--   Lesson        `_apply_lesson_delta`, `adjust_lesson`
--   Attempts      `commit_attempt`, `record_problem_attempt`; in Attempts/Revise.antt
--                 `correct_attempt`, `reverse_attempt`
--   Reviews       `skip_problem`, `mark_solution_viewed`, `reattempt_problem`
--   Proposals     `hydrate_proposal`, `create_proposal`, `commit_picks`, `extend_proposal`
--   Updates       `record_update`, `processed_update_status`, `mark_update_handled`
--   FollowUps     scheduling, cancelling and delivering messages
--   Jobs          `expire_state`, `send_nudge`, `refresh_problem_pool`
--   Rendering     pages, keyboards and receipts of rendering.py
--   Adapter       views, profile, searches, receipts and practice sets of
--                 runtime/adapters.py; Lookup, Recording, Practice, Reminding and Start
--                 hold its methods
--   Agent         the bounds of an agent run (agent/orchestrator.py)
--   Webhook       `telegram_webhook` of main.py
--   Telegram      messages and their validation (integrations/telegram.py), and the handlers'
--                 monad
--   Application   application.py: Picking, Threads (reviews and proposals), Coaching, Callbacks
--                 (what a button asks for) and Handling (the dispatch)
--   Leetcode      slugs and fetches of integrations/leetcode.py
--   Conversation  the conversation items of `PostgresAgentSession` (runtime/adapters.py)
--   Migration     the import of the legacy tables (domain/migration.py)
--   Tests         the theorems at concrete databases
--
-- A service method is an `Exec A`: a function from the database to a result and a database. An
-- error leaves the writes that came before it in the session; the transaction that a caller opens
-- (`write` in Store.antt, `_write` of runtime/adapters.py) drops them. A query without ORDER BY
-- gives rows in the order of their ids, the order in which a table holds them. Credits are counted
-- in hundredths, timestamps in microseconds. Identifiers that a table assigns come from its
-- counter; `uuid4`, SHA-256 digests, Telegram's answers, what LeetCode lists and the visible
-- length of HTML are parameters. Every loop runs over a list, but for two that take fuel:
-- `show_from`, which prints a number, is given one more than the number, and a number has no more
-- digits; `fetch_pages`, which pages through LeetCode's problem set, is given one more than the
-- number of problems asked for, and every round that goes on has fetched one.
--
-- A handler of the application is an `App A` (Telegram.antt): a function from the database, the
-- requests that Telegram accepted and the number of its answers to the same and a result. An
-- answer says how often Telegram accepted the request before the one that the caller learns of, and
-- may be lost altogether, as by the end of the process behind an acceptance: messages are sent at
-- least once. It
-- interleaves transactions with messages, so that a failure in the middle keeps what was committed.
-- The agent is a function from its prompt and the database; a handler reads the clock once. JSON
-- texts of the application's states are a parameter with the law that they are read back.
--
-- Not modelled: the rest of the agent runtime (agent/), the HTTP requests of integrations/, the
-- locks that keep the handlers of one chat apart, the scheduler, configuration, scripts, and the
-- column lengths that PostgreSQL enforces, but for the error text of an update, which the webhook
-- writes uncut.
pub mod Base
pub mod Text
pub mod Calendar
pub mod Model
pub mod Store
pub mod Credit
pub mod BotStates
pub mod Lesson
pub mod Attempts
pub mod Reviews
pub mod Proposals
pub mod Updates
pub mod FollowUps
pub mod Jobs
pub mod Rendering
pub mod Adapter
pub mod Conversation
pub mod Migration
pub mod Agent
pub mod Webhook
pub mod Leetcode
pub mod Telegram
pub mod Application
pub mod Tests
