-- ===== src/Lib.antt =====
-- Merchant Platform: the invoicing and payment core of its API, its guard, and the worker that relays
-- events and delivers notifications, as functions on an explicit database, with theorems on what a
-- request or a job does to the tables.
--
-- The API (apps/api/src) issues invoices for the stores of a hierarchy of merchants and takes the
-- payment provider's webhooks. Each service method runs in one database transaction: it changes the
-- business rows, adds an event to the outbox and a record to the audit trail, and answers. The
-- payment provider and the clients retry, so both ways in are idempotent: invoices by the client's
-- Idempotency-Key, webhooks by the provider's event ID. packages/domain computes the money, the
-- status changes, the fingerprints, the signatures and the tokens; packages/persistence has the
-- tables. The worker (apps/worker/src) claims the events of the outbox under a lease, hands them to a
-- queue, delivers each to the notification provider with retries and a dead-letter queue, and deletes
-- what is older than its retention.
--
-- The files, and the code that they model:
--   Prelude, Prelude/*      Boolean tests, lists, and tables as lists of rows with the statements that
--                           the repositories issue (first row that meets a condition, UPDATE, SUM)
--   Js, Js/Double           texts as lists of UTF-16 units, trim, numbers, and doubles for Math.round
--   Failure                 exceptions as values
--   Wire                    DTOs, responses, payloads (apps/api/src/*/*.dto.ts and the services)
--   Persistence/Entities    packages/persistence/src/entities.ts
--   Persistence/Database    the tables, the environment of a request, and the actions: read, write,
--                           throw, transaction with rollback, try/catch
--   Persistence/Insert      INSERT with the unique indexes and unsigned columns of database/migrations
--   Persistence/Inversion, Persistence/Atomic   how a successful or a failed action is taken apart
--   Domain/Money            requireInteger and calculateInvoice of packages/domain/src/index.js
--   Domain/Transition       invoiceTransitions, assertInvoiceTransition
--   Domain/IdempotencyKey   normalizeIdempotencyKey
--   Domain/StableJson       stableJson
--   Domain/Webhook          createWebhookSignature, verifyWebhookSignature, constantTimeEqual
--   Domain/ActorToken       createActorToken, verifyActorToken, assertActorTokenPayload
--   Config                  apps/api/src/config.ts
--   Auth                    apps/api/src/common/platform-auth.guard.ts and auth/dev-auth.controller.ts
--   MerchantScope           apps/api/src/invoices/merchant-scope.service.ts
--   Audit                   apps/api/src/audit/audit.service.ts
--   Invoices                apps/api/src/invoices/invoice.service.ts
--   Payments                apps/api/src/payments/payment.service.ts
--   Worker/Config           apps/worker/src/config.ts
--   Worker/Relay            apps/worker/src/outbox-relay.ts
--   Worker/Delivery         the processor of jobs in apps/worker/src/main.ts, and provider.ts
--   Worker/Retention        runRetention and purgeInBatches in apps/worker/src/main.ts
--   Worker/Batch            batches of the oldest rows, for the proofs of relay and retention
--   Reports                 apps/api/src/ops/ops.controller.ts and merchants/merchant.controller.ts
--   Scripts/Migrate         scripts/migrate.mjs
--   Scripts/Provision       scripts/provision-tenant.mjs
--   Portal                  apps/portal/src/lib/backend.ts
--   Tests                   runs at concrete inputs
--
-- A service method is an Action: a function from a World (the tables, the number of UUIDs drawn, the
-- metrics counted) to a result and a World. `dataSource.transaction` is `transaction`, which restores
-- the tables when its body throws. A SERIALIZABLE transaction runs as if alone; a READ COMMITTED one
-- takes an argument `others`, what other transactions commit between its reads and its writes, so
-- that the races that the code handles (a second request under the same key, a changed version) are
-- instances of it.
--
-- Choices of the model. UUIDs and times (milliseconds) are natural numbers; a request's clock does
-- not move while it runs. SHA-256, HMAC-SHA-256, the UUID source, the collation of text columns (a
-- class number for each text) and `Number(text)` are parameters, and nothing is assumed of them. An
-- INSERT fails on a number that its unsigned column does not hold and on a duplicate of a primary or
-- unique key; foreign keys, lengths of texts and the CHECK constraints of the migrations (payments and
-- refunds have a positive amount, and refund at most their payment) are not checked, nor is an UPDATE
-- that raises a version past its column. UUIDs as numbers do not tell a text from the same one in
-- other case, which === does and the collation does not. Numbers in DTOs are natural numbers,
-- as the validation pipe leaves them; a negative limit of a list counts as 0, which gives the same
-- page. toLowerCase treats ASCII. Messages of exceptions are shortened where the source puts values
-- into them. The doubles of Math.round are computed with a fuel of 1024 halvings, more than a quotient
-- of two safe integers can need; the loops of the merchant scope have the source's own bound of 16.
--
-- The worker's calls do not fail but where the code counts on it: what queue.add throws, what the
-- provider's server answers and the rows that other relays have locked are parameters, and an UPDATE
-- or upsert fails on a value that its column does not hold (65535 attempts, a reference of more than
-- 160 units). A run of a job, a poll and a run of the retention each happen as if alone, at one time;
-- sequences of runs are lists. The queue itself, which decides when a job runs again, is a library's.
-- A purge does at most 20 batches, the source's own bound.
--
-- Of an actor's token there are the fields that are checked. JSON, base64url and the HMAC of tokens
-- are a record of functions; the round trip assumes of them, for the payload at hand, that they give
-- back what they were given and that base64url is not empty and has no dot. What jwtVerify finds in a
-- token of production is a parameter, and so are `Number(text)` and the texts that `new URL` takes.
--
-- The migrations run on a schema of any type, with what a text of SQL does to it as a parameter; the
-- names of the files are those of one directory. The rights of the application user are the list of
-- the users that were granted them. The order of names under a collation, the texts that are time
-- zones and the number that stands for a UUID's text are parameters.
--
-- Not modelled: the rest of the HTTP layer (controllers, validation, interceptor, health, telemetry),
-- connections, timers and shutdown of the worker, the portal's pages, the other scripts, the SQL of the
-- migrations, and deployment.
pub mod Prelude
pub mod Js
pub mod Failure
pub mod Wire
pub mod Persistence
pub mod Domain
pub mod Config
pub mod MerchantScope
pub mod Audit
pub mod Auth
pub mod Invoices
pub mod Payments
mod Tests
pub mod Worker
pub mod Scripts
pub mod Reports
pub mod Portal
