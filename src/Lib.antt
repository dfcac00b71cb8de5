-- ===== src/Lib.antt =====
-- The webhook gateway of the enterprise multi-agent system, as functions, with theorems on them.
--
-- The gateway takes deliveries of GitHub, OpenAI, Anthropic, OneDrive and other senders, verifies
-- them, records each event once, and sends it to a queue. A worker takes events from the queue, asks
-- model providers or synchronises a drive, records the result once, and sends it to a second queue.
--
-- The parts and their code, by the path from the repository's root:
--   * Events: src/webhook_gateway/events.py, the envelope of an event, its JSON text and its hash.
--   * Security: src/webhook_gateway/security.py, the signatures and the client state.
--   * Admission: src/webhook_gateway/github_admission.py, the policy on GitHub deliveries.
--   * Idempotency: src/webhook_gateway/idempotency.py, the inbox and outbox of events. `Contract`
--     says what a store promises its callers. `Memory` is MemoryIdempotencyStore, `Sqlite` is
--     SqliteIdempotencyStore over a table of rows, and `AzureTable` is AzureTableIdempotencyStore over
--     a table client.
--   * Queueing: src/webhook_gateway/queueing.py, the publishers.
--   * Intake: src/webhook_gateway/intake.py. `GitHub`, `Providers` and `OneDrive` are the handlers,
--     and publish_once is _publish_once, on which `Delivery` and `Redelivery` have theorems.
--   * Quota: src/webhook_gateway/quota.py. `Bound` is about MemoryDailyQuota; `AzureTable` is
--     AzureTableDailyQuota, and `AzureTable.Concurrent` is about it among other clients that run
--     it, with any limits up to the bound.
--   * Payloads: src/webhook_gateway/payloads.py, the pointers to private blobs.
--   * Onedrive: src/webhook_gateway/onedrive.py, the reads of Microsoft Graph over its pages. `Requests`
--     has its requests, with the check of their origin, and the calls on subscriptions.
--   * OnedriveState: src/webhook_gateway/onedrive_state.py, the state of the subscription, in memory and,
--     in `AzureTable`, on the table.
--   * OnedriveSync: src/webhook_gateway/onedrive_sync.py, cursors and leases in memory and, in
--     `AzureTable`, on the table, the cleaning of drive items, and the delta processor.
--   * Analysis: src/webhook_gateway/analysis.py, the checks before and behind the model calls, the
--     prompt, and the router of providers.
--   * Worker: src/webhook_gateway/worker.py, the routing of events, and results.
--   * Settings: src/webhook_gateway/settings.py, the settings from an environment, and in `Builders` the
--     factories that choose the stores and the publisher.
--   * FunctionApp: function_app.py, the timers that recover what was left pending, and the queue trigger.
--     `Routes` has the HTTP routes, `Subscription` the repair of the OneDrive subscription, and
--     `Maintenance` the timer that keeps it. The routes call the handlers of Intake, the queue
--     trigger calls Worker, and the timers call the stores of Idempotency and a publisher.
--   * GithubClient: src/github_client, the client of the GitHub API with its retries and pages.
--   * RequestQueue: infra/queue/request_queue.py, RateLimitedRequestQueue as a step relation on its queue,
--     workers, delayed requests, semaphores and futures.
--   * Prelude, Python and Runtime: shared names; the strings, dictionaries, JSON values, exceptions and
--     state-changing methods of Python that the program uses; and what comes from its libraries.
--   * Tests: concrete inputs.
--
-- How the code is modelled. A method that changes an object or calls a service is a function from a
-- state to a result and a state (`Exec`), so that what was written before an exception stays
-- written. A Python exception is a value of `Exn`. The locks make each method of a store in memory one
-- step. A dictionary is the list of its items in insertion order; JSON values are a data type, a float
-- in it the text that repr prints. Strings have the case, white space and digits of ASCII. A reading of
-- the clock and a drawn uuid4 are arguments; times are in microseconds, and the quota's clock gives the UTC
-- date, or none for a datetime without a time zone. Times that are only written for operators
-- (CreatedAt, UpdatedAt) are left out, as is logging, and the checks that an argument has its annotated
-- type hold by typing.
--
-- Parameters. Bytes, json, hashlib and hmac are the record `Runtime`. The queues, the tables of the
-- Azure service, the blob container, Microsoft Graph and the model vendors are clients that act on
-- a world of any type. What a theorem relies on in them is a record of laws among its hypotheses,
-- and the tests have an instance of each.
--
-- Loops over retries and lists are structural recursions: the table quota's attempts count down from
-- max_retries, the GitHub client's from max_retries + 1. The loops over pages, of a delta and of
-- the GitHub client's paginate, are the ones that need fuel: one unit for each page, and for paginate
-- one more for the page that ends it. The theorems on them say that this is enough.
--
-- The request queue runs on an event loop. A step of the model is what runs between two awaits, and
-- any order of the steps of workers, callers and delayed requests is a run. An exception that ends a
-- worker or a delayed request is a step too: what a request raises that `except Exception` does not
-- catch, the overflow of the delay after 1024 attempts, and a delay of nan seconds. That the loop cancels the
-- tasks from outside is left out. Infinite delays are ones beyond max_backoff_seconds.
--
-- Not modelled: the class RequestQueue of infra/queue/request_queue.py, the two vendor
-- adapters of analysis.py, the opening of databases and the building of the services' clients,
-- logging, the scripts, the deployment templates and the schemas. Of these the first is code of
-- the program that is left for later; the others are input and output, calls of libraries, or
-- configuration.
pub mod Prelude
pub mod Python
pub mod Runtime
pub mod Events
pub mod Idempotency
pub mod Security
pub mod Admission
pub mod Queueing
pub mod Intake
pub mod Quota
pub mod Payloads
pub mod Onedrive
pub mod OnedriveSync
pub mod OnedriveState
pub mod Analysis
pub mod Worker
pub mod Settings
pub mod GithubClient
pub mod RequestQueue
pub mod FunctionApp
mod Tests
