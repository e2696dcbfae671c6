-- ===== src/Lib.antt =====
-- A wallet service in Go: users register and get a wallet, top it up, transfer money to other
-- wallets, and list what was done. Money moves inside PostgreSQL transactions, each with a
-- double-entry ledger, and every committed change is handed to a broker as an event.
--
-- Model and Failure hold the structs of internal/model and the errors. Database holds the tables of
-- database/migrations, and Sql each statement of database/queries as a function of the tables, with
-- the constraints that PostgreSQL enforces. World is a request's view of the outside: the committed
-- tables, the working copy of the open transaction, the events handed on and the notifications
-- pushed. Each call that leaves the program has a number, and `Env` says of each number whether the
-- call fails, how COMMIT ends, what other sessions have done before BEGIN, the clock, the draws of
-- the random source, and what pgtype and a DECIMAL column make of a number. World.Rules and
-- World.Commits are judgements on such code: what it does to the working copy, and how a request
-- that commits ends.
--
-- Utils.Ids is internal/utils/id_generator.go, Dto is internal/dto, Repository is
-- internal/repository with a module for each file (`FindByIDForUpdate` is `find_by_id_for_update`),
-- and Service is internal/service: Transactions.TopUp and Transactions.Transfer follow the
-- statements of `TopUp` and `Transfer`, Transactions.Queries has the lists and details, Auth the
-- registration and the login, and Wallets, Ledger, Audit and Notifications the other services. A
-- service calls the repositories, a repository the statements, and a request is one run of a
-- service on a `World`.
--
-- Http is a request as gin hands it on and internal/utils/response.go; Handler is internal/handler
-- (`Transfer` is `handle_transfer`), and Middleware is internal/middleware with
-- internal/utils/jwt.go, each a function from the rest of its chain to a chain over `Site`: the
-- services' World, the keys of Redis and the audit events handed on. Server has the routes of
-- cmd/server/main.go. Worker is internal/worker: a worker takes a list of deliveries, and its
-- processing of each runs on a World; World.Appends is a judgement on code that adds rows to one
-- table. Utils.SafeChannel is internal/utils/rabbitmq.go with `DeclareExchangeAndQueues` of
-- internal/config/rabbitmq.go, and Config is `Load` of internal/config/config.go.
--
-- A uuid and a time are numbers (nanoseconds in the middleware), and a decimal is an integer count
-- of its smallest unit; Go's `int` and `int32` wrap around in Common.Words. No fuel is needed: every
-- loop is over a list or a count.
--
-- gin, Redis, PostgreSQL, the broker, JSON, JWT, viper and uuid are parameters: what gin binds of a
-- body comes with the request, and whether a call fails is the environment's. A statement on the
-- pool, like COMMIT, may have been carried out when its call fails; one in a transaction that fails
-- is rolled back with it. A call of Redis that fails has done nothing. Of a publication it is known
-- whether the library has written it out, and nothing of whether the broker has received it.
--
-- A row lock is read as follows: from BEGIN to COMMIT no other session changes the tables, so the
-- interleaving of two transactions between their locks is not modelled; requests are served one
-- after the other, so two that overlap in the middleware are not modelled either. Not modelled:
-- the event stream of notifications (a connection held open on a Redis subscription), the JSON of
-- events between a service and a worker, the workers' reconnecting, bcrypt (a parameter), the
-- connections, the migrations, the shutdown and the seed, and the generated mocks.
pub mod Common
pub mod Model
pub mod Failure
pub mod Config
pub mod Database
pub mod World
pub mod Sql
pub mod Dto
pub mod Utils
pub mod Repository
pub mod Service
pub mod Http
pub mod Middleware
pub mod Handler
pub mod Server
pub mod Worker
mod Tests
