-- ===== src/Lib.antt =====
-- The verification of the ainode gateway, which sells access to language models: a request reserves
-- its estimated cost in a cache of three balances, is sent to one of several upstream channels with
-- retries, is settled by its real use, and is booked in the database by a worker.
--
-- The parts, their files here, and the code:
--
-- Redis, Redis/Memory: the commands of the Redis server, as an interface with their documented laws,
-- and a store in memory that meets them. A key is a constructor for each format string of
-- internal/billing/redis.go, internal/middleware/rate_limit.go and model_concurrency.go.
--
-- Billing: internal/billing. Pools is Deduction with splitActual3 of internal/worker/billing.go;
-- Scripts the Lua scripts of internal/billing/lua, each one atomic; Deduct is PreDeduct of deduct.go,
-- GetUserBalance of balance.go, CreditBalanceCache of credit_cache.go; Settlement is Settle and Refund
-- of settlement.go; Outbox the table settlement_outbox and its relay; Subscription is
-- ApplySubscription of subscription.go and the sweep of subscription_expiry.go.
--
-- Db: the tables of internal/db/models.go that these parts use, and their statements.
--
-- Worker: HandleRecordBillingLog of internal/worker/billing.go, and repeated deliveries of a task.
--
-- Webhook: internal/api/webhook. The root is processTransaction of processor.go; OrderPaid and Events
-- are events.go; Commits, Outcomes, Audit, Once and Credits hold the lemmas on a transaction.
--
-- Media: the estimate of a prompt in internal/media. Models: internal/config/model_manager.go.
--
-- Channel: internal/channel. Breaker is circuit_breaker.go, Manager is manager.go. Provider: the
-- capabilities and the registry of internal/provider. Text: the functions of Go's package strings.
--
-- Proxy: internal/proxy. Pricing is computeActualCost with ApplyMultiplier of internal/utils, Tally
-- the TallyReader, RoundTrip the attempts of FallbackTransport, Failure classifyModelFailure,
-- Response what modifyResponse and the ErrorHandler of reverse_proxy.go do with the outcome.
--
-- Middleware: Auth, RateLimit and Concurrency of internal/middleware. Gateway: a request through the
-- authentication, the limits and the proxy, as cmd/api/main.go chains them. Tasks: the tasks of
-- internal/api/gateway/async_tasks.go.
--
-- Tests: every theorem below at a concrete input.
--
-- How the code corresponds: a struct is a record, a handler is a function from the state (the Redis
-- store, the tables, the breakers) to its answer and the new state, and a call that may fail has its
-- failure in a record of answers, the environment. A method under a mutex, a Lua script and a
-- committed transaction are one step each. Names are those of the code in snake case.
--
-- Numbers: int64 is an integer that the operations wrap to 64 bits where the code computes; ids are
-- integers. The balances of the database and of Redis are not wrapped, and a number of Lua is exact
-- below 2^53, which at the scale of 10^8 is some 90 million units of money. Times are natural numbers,
-- in nanoseconds for the breakers. The only fuel is MaxRetries + 1 passes in RoundTrip, which is the
-- bound of the loop itself.
--
-- What the model assumes: a script or a pipeline that fails has changed nothing; asynq and Postgres accept a call
-- or have not seen it; a payload decodes to what was encoded. JSON, HTTP headers, logs and metrics
-- are left out, as are the tokenizer and the floating-point product of the multiplier, which are
-- parameters; whatever that product is, Go's conversion of it gives an int64.
--
-- Not modelled: the adapters of the providers and the director of the proxy, which rewrite JSON bodies
-- and headers; the handlers of the admin and site interfaces; the worker of the request log, which
-- inserts one row; migrations, metrics and start-up.
pub mod Prelude
pub mod Text
pub mod Redis
pub mod Billing
pub mod Db
pub mod Worker
pub mod Provider
pub mod Channel
pub mod Media
pub mod Models
pub mod Proxy
pub mod Middleware
pub mod Gateway
pub mod Tasks
pub mod Webhook
pub mod Tests
