-- ===== src/Lib.antt =====
-- Orders-Go: a server that takes orders and a stream of driver locations over gRPC.
--
-- The program. An order comes in at internal/adapters/grpc/order_server.go, goes through
-- `OrderService.CreateOrder` of internal/orders/order.go, which charges a payment, assigns a driver,
-- and gives the payment back where no driver could be assigned. It notes each step in a saga, which
-- has an idempotency key for calls that are sent again. The three stores behind it,
-- internal/db/orders, keep payments, sagas and assignments in Postgres. The clients of
-- internal/orders/reliability.go, which internal/orders/builder.go puts between the service and the
-- stores, take each call through a retry loop, a rate limiter and a circuit breaker. Locations come
-- in at internal/adapters/grpc/server.go and go through internal/ingest to Redis and Postgres.
-- internal/observability counts the calls. cmd/server reads the configuration, opens the backends,
-- and starts and stops the server.
--
-- The model. Code with effects is a function from the world that it runs in to its result and the
-- world that it leaves. The world is a parameter wherever the code does not fix it, and for the
-- stores it is a database of tables.
--   Go.Int64, Go.Float64: int64 with wrap-around, durations and times, floats as bit patterns.
--   Go.Errors, Go.Effects, Go.Partial: error values, calls of the runtime, code that may hang.
--   Reliability.Breaker, .Limiter, .Retry, .Client: internal/orders/reliability.go. `admit` and
--     `settle` are the two halves of `CircuitBreaker.Execute` under its mutex, `poll` is a round of
--     `RateLimiter.Wait` under its own, `wait_loop` the loop around it, `retry` is `RetryPolicy.Do`,
--     and `do_guarded` is `do` of the two reliable clients.
--   Orders.Saga, Orders.Service: internal/orders/saga/types.go and internal/orders/order.go.
--     `create_order` is `CreateOrder`, whose parts are `proceed`, `charge_payment`, `assign_driver`
--     and `compensate`.
--   Orders.Service.Rules: the rules by which properties of the service follow from those of its
--     clients and stores; Orders.Service.Outcome and Orders.Service.Invariant apply them.
--   Orders.Settings, Orders.Builder: internal/orders/reliability_config.go and the steps of
--     internal/orders/builder.go.
--   Orders.Reliable: the service that internal/orders/builder.go returns, over the reliable clients
--     over the stores. Orders.Paid: what an order that went through leaves in the database.
--   Orders.Postgres: that service directly over the three stores, without the reliable clients
--     between.
--   Orders.Interleaved: the same service cut up into its statements (`order_steps`), with any number
--     of calls side by side: .System is the step relation, .Stages says how far a call has come,
--     .Plans and .OrderPlan that each statement takes it on, and .Results what follows.
--   Orders.Protocol: that service over clients that note their calls.
--   Db.Sql, Db.Payments, Db.Sagas, Db.Drivers: internal/db/orders. A statement is a function on the
--     tables; each one may run, be refused, run with its answer lost, or run with no count of rows.
--   Db.Schema, Db.Integrity: the tables that InitSchema creates, and their constraints.
--   Ingest: internal/ingest and the insert of internal/db/ingest/location_store.go.
--   Grpc: internal/adapters/grpc and the interceptors of cmd/server/grpc_middleware.go, without the
--     transport and without what they log; the limiter of the interceptors returns the waits that it
--     hands to the hook `AddRateLimitWait`. .OrderServer.Requests takes a request through the service
--     to the stores.
--   Observability.Metrics: internal/observability/metrics.go, with `Snapshot` in .Snapshot.
--   Observability.Endpoint: internal/observability/http.go.
--   Server.Config, Server.LocationStore: cmd/server/config/config.go and cmd/server/location_store.go.
--   Server.Start, Server.Ready: `main`, `run` and `readinessCheck` of cmd/server/main.go. A
--     `defer` is the code that `deferred` runs behind the rest.
--   Examples, Reliability.Examples: the theorems at concrete inputs.
--
-- Loops and fuel. The retry loop, the loop over stores and the loop over a stream's messages are
-- structural, on what is left to do. The loop of `RateLimiter.Wait` runs on fuel, a round each, and
-- returns `none` where the fuel does not suffice; two rounds are enough where no other goroutine
-- takes the tokens. `Orders.Reliable.Returns` is about the whole service on such fuel.
--
-- Parameters. The clock, timers, the context and random numbers (`Runtime`), the generators of ids,
-- the environment, the parsers of its settings, files and certificates, the operations on floats that
-- a snapshot uses, the JSON encoder, the Redis client, the opening and closing of the backends, the
-- serving itself and its graceful stop, and for the database the reading of NOW(), the error of a violated constraint and
-- the fates of the statements. The mutexes are modelled by the atomicity of what they guard. Where a
-- goroutine waits, another may run: the breaker's calls interleave in
-- `Reliability.Breaker.Interleaved`, the limiter's rounds come in any order in
-- `Reliability.Limiter.Rate`, the spans of calls in `Observability.Metrics.Spans`, and the statements
-- of calls of `CreateOrder` in `Orders.Interleaved`.
--
-- Not modelled. The registration of services, signals and listeners (what cmd/server/main.go
-- leaves to gRPC and net/http), log lines, and the generated code of api/proto. Each statement of
-- the database is atomic. Where calls of `CreateOrder` run side by side, they do so directly over
-- the stores, without the reliable clients between.
pub mod Common
pub mod Go
pub mod Reliability
pub mod Orders
pub mod Db
pub mod Ingest
pub mod Grpc
pub mod Observability
mod Examples
pub mod Server
