-- ===== src/Lib.antt =====
-- Tuma receives webhooks, stores them before it acknowledges them, and delivers them with retries.
-- This library models the Go program under cmd and internal.
--
-- The parts. An HTTP server (internal/api) takes a webhook on a connection's inbound path, lets the
-- adapter of the connection's source verify it (internal/adapters), stores the event
-- (internal/storage) and asks Temporal to start a delivery workflow (internal/workflow). The workflow
-- posts the event to the destination, waits between attempts, and keeps an issue for an event that
-- is not delivered. An evaluator (internal/alerting) compares counts of the last day with alert
-- rules and sends emails or Slack messages (internal/notification), by settings that come from the
-- console or the environment (internal/notifysettings). Secrets and payloads are sealed
-- (internal/crypto).
--
-- Where each part is modelled:
--   Storage.Db      SQL statements, activities and workflow starts as actions on a World: the tables,
--                   the clock, what has been posted, started and sent, and the outcomes to come. Any
--                   call can run, be refused, or run and lose its reply.
--   Storage         storage/store.go, event_crypto.go, playground.go, notification_settings.go and
--                   stats.go: Rows has the structs, Connections, Events, Issues, AlertRules,
--                   Accounts (users and sessions), SavedSettings, Listings (the lists that are read),
--                   Retention (backfill and purge), Playground and Stats the operations. IssueLaws,
--                   EventCrypto, RuleLimit, Retention.Backfill and Retention.Purge are about them.
--   Crypto          crypto/encrypt.go.
--   Workflow        workflow/delivery.go: DeliveryWorkflow is delivery_workflow, its loop run_attempts,
--                   and DeliverActivity is deliver_activity. Slots has ConnectionSemaphores, and what
--                   DeliverActivity does with them, as a relation between the states of the workers
--                   of one process: each process has semaphores of its own.
--   Adapters        adapters/adapters.go and easypost.go: Verify and ExtractEventID.
--   Api             api/server.go (Ingest: getCachedConnection, ingest, startReplay), api/sink.go (Sink),
--                   api/ratelimit.go (Streams, and Buckets for the token buckets), api/handlers.go
--                   (Auth: login, logout, auth; Console: the connections; Issues), api/alert_rules.go
--                   (Rules), api/admin_settings.go (Admin) and api/playground.go (Playground). Http has
--                   how a handler answers; a handler takes the decoded request, `none` where decoding
--                   fails, and what it reads from crypto/rand.
--   Notification    notification/template.go, service.go, smtp.go, slack.go, and
--                   notifysettings/settings.go (Settings).
--   Alerting        alerting/evaluator.go (Senders and Defs; Lock has Run and the lock that one
--                   evaluator holds, as a relation between the states of all workers; a database
--                   session can end, and a reply be lost) and
--                   delivery_error.go (DeliveryError).
--   Playground      playground/hub.go (Hub): the log and the channels of one session, each channel 32
--                   events at most; playground/simulate.go (Simulate).
--   Config          config/config.go: Load.
--   Commands        cmd/tuma/main.go: bootstrapAdmin, and one round of the retention loop.
--   Prelude, Float  shared helpers: strings as bytes, rows of tables, integers; float64 by its bits,
--                   with the arithmetic as a parameter.
--   Tests           concrete inputs.
--
-- Numbers. Identifiers, times and durations in nanoseconds are natural numbers. A retry delay is
-- computed with the wrap-around of int64, and so is a duration of the configuration. The loop of the workflow is a recursion on the attempts
-- that are left, and no definition needs fuel.
--
-- Parameters. HMAC, SHA-256, the cipher of AES-GCM, JSON decoding, Unicode normalisation, the
-- arithmetic of float64, the rounding of NUMERIC columns, percentile_cont, the destination's answers
-- and the answers of the SMTP server and of Slack; bcrypt, uuid.Parse, mail.ParseAddress, the JSON of
-- simulated events and the HTTP client that sends them.
--
-- Not modelled: log output and Prometheus counters, which nothing reads; routing and the reading and
-- writing of HTTP and JSON, the event streams and getConfig among them; process start, tickers and
-- signals. Statements run one after another:
-- transactions that overlap are not modelled. The web console is another program.
pub mod Prelude
pub mod Float
pub mod Crypto
pub mod Storage
pub mod Workflow
pub mod Adapters
pub mod Api
pub mod Notification
pub mod Alerting
pub mod Playground
pub mod Config
pub mod Commands
pub mod Tests
