-- ===== src/Lib.antt =====
-- ReceiptManager: a verification library beside the code.
--
-- The program watches a mail folder for credit-card alerts, turns each into a transaction, asks for
-- a receipt in a Discord channel, captures what is uploaded there and files it. Every side effect is
-- a row of a job table, written with the state change that asks for it.
--
-- Engine, Unicode: what the code takes from SQLite and from Python's character tables, as records of
--   functions with the documented facts that the proofs use. They are parameters of the definitions.
-- Models: app/models.py, the statuses and the rows of the tables. A table is a list of rows, a query
--   the rows that its `where` clause keeps, a time a number of microseconds, and an operation that
--   calls `utcnow()` takes the time as an argument.
-- Jobs: app/services/jobs.py, the job queue: `enqueue`, `_claim` (`claim`), `_finish` (`finish`),
--   `_run_one`, one pass of `work_forever` (`work_round`), `reset_orphaned_jobs`,
--   `discard_for_transaction`, `revive_dead`, `dead_jobs`, `queue_stats`. What a job's handler does
--   to other tables is not part of this module.
-- Shortcode: app/services/shortcode.py, the allocation of short codes against other writers, and the
--   reading and removal of codes in a message. The loop of `next_short_code` has one more round of
--   fuel than the table has rows, which is enough since each round meets a row of its own.
-- Matching: app/services/matching.py, from an uploaded receipt to its charge.
-- MerchantRules: `MerchantRule.matches` of app/models.py, `apply_merchant_rules` and
--   `silence_merchant` of app/services/ingest.py. `re.search` is a parameter.
-- Refunds: `link_refund` of app/services/ingest.py.
-- Graph: app/services/graph.py, `_request` with its retries, `delta` and `_to_message`. The pages are read with
--   fuel, one a page; Graph/Delta proves that more of it changes nothing once the pages end.
-- Ingest: the rest of app/services/ingest.py, with `poll_once` in Ingest/Poll: `_envelope_allowed`,
--   `ingest_message` (`file_message` is what follows the flush of the mail, `file_charge` what
--   follows `allocate`), `ingest_batch`, `sweep_lapsed`. An exception is a value, and what the
--   session had written is then not in the tables. What app/services/parsing.py makes of a mail is
--   a parameter, of which Ingest/Parser is the instance.
-- Parsing: app/services/parsing.py: the plain text of a mail and the currency of an amount; `parse_amount`
--   in Parsing/Amount, the rules and `parse_email` in Parsing/Rules, `test_rule` in Parsing/Tester.
--   BeautifulSoup, the regular expressions of the users, `strptime` and dateutil are parameters; the
--   patterns of the module itself are written out.
-- Formatting: the amounts of app/formatting.py as text. `grouped` has one more round of fuel than
--   the number, which is enough since each round divides it by 1000. A number beyond the 28 digits
--   of Python's decimal context, where `quantize` raises, is not treated apart.
-- Storage: app/services/storage.py, `store_receipt_bytes` and `assert_durable`. The disk, pathlib,
--   hashlib and app/services/images.py are parameters.
-- Bot: app/discordbot/bot.py, the texts, `_persist_capture` and `_link_attachments`; in Bot/Channel
--   `on_message`, `_capture_message` and the picker. A reply is the data that it shows, not its wording.
--   The constraint `uq_att_tx_sha` of app/models.py is checked where a row gets its charge; an IntegrityError is a
--   value, after which the tables are as before.
-- Tasks: app/discordbot/tasks.py, the handlers `notify`, `finalize` and `delete_message`, with the
--   text of the digest in Tasks/Digest and `_chunk` in Tasks/Chunks. The gateway of discord.py is a
--   parameter; a handler returns what it sent and deleted, in order.
-- Security: app/security.py, sessions, CSRF tokens and login throttling.
-- Scheduler: app/services/scheduler.py, the daily jobs and the alert where no mail comes in; `tick`
--   is one round of `run_forever`.
-- Export: app/services/export.py, the choice of the transactions, the names in the archive, and which
--   receipts are written or listed as missing. The loop for a
--   free name has one more round of fuel than there are names, and one for the first look.
-- QboSync: app/services/qbo_sync.py, `upsert_accounts`.
-- Web: the handlers of app/web/routes_ui.py that change the tables, with `verify_csrf` of app/web/deps.py: on a charge
--   in Web/Charges, its removal in Web/Delete, on receipts in Web/Receipts. The user is logged in.
--   Web/Login is app/web/routes_auth.py with `require_user`, Web/Account app/web/routes_account.py; argon2 and
--   pyotp are parameters.
-- Prelude: lists as tables, text as code points, decimal print, sorting, integers.
-- Tests: an engine, character tables, tables of rows, and the theorems at these.
--
-- Not modelled: image decoding, the writing of an export, the QuickBooks client, HTML rendering,
-- the other HTTP routes and the templates, the network clients, the ORM and the database engine, logging.
pub mod Prelude
pub mod Engine
pub mod Export
pub mod Models
pub mod Jobs
pub mod Unicode
pub mod Shortcode
pub mod Matching
pub mod Tests
pub mod MerchantRules
pub mod Refunds
pub mod Formatting
pub mod Parsing
pub mod Graph
pub mod Web
pub mod Ingest
pub mod Storage
pub mod Bot
pub mod Tasks
pub mod Security
pub mod Scheduler
pub mod QboSync
