-- ===== src/Lib.antt =====
-- A multi-tenant platform for collaborative work: organizations with members and invitations, tasks
-- with subtasks and dependencies, chat, payments through Razorpay, accounts with sessions and
-- second factors, and webhooks to other systems. An Express server runs requests against PostgreSQL
-- and Redis; the services here are its core.
--
-- Parts, and the files that model them:
--
--   Common: shared names. Common/Lists is SELECT, UPDATE and DELETE on a table as a list of rows,
--     Common/Unique the lemmas on a column without duplicates, Common/Redis the keys that expire,
--     Common/Outcome src/shared/errors/app-errors.ts and the requests: a request takes the database
--     and returns a result or an AppError with the database, so what was written before a throw
--     stays written, as without a transaction.
--   Organization: Row and Membership are the statements of src/modules/organization/repositories,
--     Service is organization.service.ts (suspendOrg, reactivateOrg, startOffboarding, updateOrg),
--     Creation is its createOrg, Invitation is invitation.service.ts. Lifecycle and Joining prove
--     properties of them.
--   Task: Row, Repository, Assignees and Subtasks are src/modules/task/task.repository.ts, Service
--     is task.service.ts, Dependency is dependency.service.ts, Bulk is bulk.service.ts, Recurring
--     is workers/recurring-task.worker.ts. Task/Dependency, Task/Invariant, Update, Workflow,
--     Requests, Orphans and Spawned prove properties of them.
--   Payment: Row and Repository are src/modules/payment/payment.repository.ts, Service is
--     payment.service.ts, Webhook is webhook.handler.ts, Grace is workers/payment.worker.ts.
--     Delivery, Order, Capture, Between and Suspension prove properties.
--   Auth: Row and Repository are src/modules/auth/repositories/auth.repository.ts, Token is
--     services/jwt.service.ts with utils/token.ts, Account is services/auth.service.ts, Middleware
--     is src/shared/auth-middleware/jwt.middleware.ts, Mfa is services/mfa.service.ts, MagicLink is
--     services/magic-link.service.ts. Login, Rotation, Reset and SecondFactor prove properties.
--   Idempotency: src/shared/idempotency; Idempotency/Replay proves what a repeated request gets.
--   ErrorHandler: src/shared/errors/error-handler.middleware.ts.
--   Crypto: src/shared/crypto/index.ts, encrypt and decrypt; Crypto/RoundTrip joins them.
--   RateLimit: src/shared/redis/rate-limiter.ts; RateLimit/Window counts what it allows.
--   FeatureFlag: src/modules/feature-flag/feature-flag.service.ts; Coherence, Refines, Answers and
--     Replay compare its caches with the table.
--   Outbox: src/shared/events/outbox-poller.ts; Sent, Drained and Lock prove properties.
--   Chat: Row and Repository are src/modules/chat/channel.repository.ts and message.repository.ts,
--     Channel is channel.service.ts, Message is message.service.ts with sequence.service.ts.
--     Sequence, Creation, Requests, Resend and Direct prove properties.
--   Webhook: Row, Repository and Service are src/modules/webhook/webhook.repository.ts and
--     webhook.service.ts, Worker is workers/webhook-delivery.worker.ts. Delivered and Once prove
--     properties: where requests go, and that an event is sent again.
--   Guard: src/shared/auth-middleware, the checks of organization, status and role; Guard/Access
--     proves who passes them, Guard/Reactivation is the route POST /orgs/:orgId/reactivate of
--     src/modules/organization/organization.router.ts.
--   Tests: concrete rows and requests.
--
-- How they interact: the task service asks the memberships who is an admin, payments write plans
-- and statuses of organizations, an invitation creates an account, a membership and a session, a
-- password reset evicts the cache that the middleware reads, second factors are columns of the
-- accounts, the payment worker suspends and reactivates organizations through their service, and a
-- finished recurring task is a job of the worker that spawns the next.
--
-- What the model takes: functions of the source are functions with the same words in snake_case.
-- Ids, hashes and keys are only compared, for equality or in their order, so they are numbers;
-- dates are numbers of milliseconds. The clock and the ids that the database generates are
-- arguments. Password and token hashes, signatures, JSON and schema parsers, the types that
-- PostgreSQL finds for a parameter, its reading of a text as a UUID, the redirects that axios
-- follows and Razorpay's answers are library code or a service: parameters or arguments. Queries on
-- the replica see the state of the primary; the database and Redis do not fail unless an argument
-- says so; a request runs to its end before the next one starts, except where a statement takes its
-- steps apart. Rows stand with the newest first, the rows of the outbox in the order of their
-- creation; keys of feature flags hold no colon.
--
-- Bounds: the search for cycles has fuel for two rounds more than there are dependencies: a round
-- takes one task off the stack, and a dependency puts a task on it at most once. The recursive
-- query for subtasks has three rounds: a task is at most two levels deep, so the third round finds
-- no more. On a table with a cycle of parents the model answers with an error QUERY_DOES_NOT_END
-- where the real query would not end.
--
-- Not modelled: routers and controllers, the frontend, realtime sockets, search engines, storage,
-- observability and queues (I/O and library calls); files, workspaces, notifications, exports, task
-- comments, mentions and templates, and the logins by OAuth and SAML.
pub mod Common
pub mod Organization
pub mod Task
pub mod Payment
pub mod Auth
pub mod Idempotency
pub mod Guard
pub mod RateLimit
pub mod FeatureFlag
pub mod Outbox
pub mod Crypto
pub mod Chat
pub mod Webhook
pub mod Tests
pub mod ErrorHandler
