-- ===== src/Lib.antt =====
-- Warp: the backend that signs its owner in, keeps the sessions, and routes incoming signals to
-- the owner's contexts.
--
-- The program. internal/auth is a service over internal/store, whose statements run on Postgres;
-- the HTTP handlers of apps/api call it, and the worker of apps/worker calls its sweep.
-- internal/contexts is the service of the tree of contexts, the owner's life areas, over the same
-- store. internal/domain holds rules that touch no database, among them the routing of signals.
--
-- Which file models which part:
--   Store               the database's connection, clock and transactions (PgxStore.InTx of
--                       internal/auth/store.go), and the errors of Postgres
--   Store/Auth          internal/store/auth.sql.go: the five tables as lists of rows, each statement
--                       with the constraints and triggers of db/migrations; Accounts, Credentials
--                       and Sessions hold the statements, Liveness and Counting lemmas on them
--   Auth                internal/auth: errors, Policy, configuration
--   Auth/Password       internal/auth/password.go
--   Auth/Token          NewToken, HashToken, openSession
--   Auth/SignIn         SignInWithPassword, recordFailure
--   Auth/Register       Register
--   Auth/Sessions       Authenticate, and internal/auth/sessions.go; Spec is what they promise, as a
--                       map from token hashes to tickets, and Refinement the calls against it
--   Auth/Federated      internal/auth/google.go and federated.go
--   Store/Contexts      internal/store/contexts.sql.go: the table contexts, its statements, trigger
--                       and view
--   Store/Signals       internal/store/signals.sql.go: the table signals; Keeping and Replays are on
--                       what stays of a row, Queue on the list of what is left to route,
--                       Filing on signal_contexts and the timeline (internal/store/routing.sql.go),
--                       with the rounding of a confidence to numeric(4, 3)
--   Contexts            internal/contexts/contexts.go
--                       Statements and Forest are on what calls of any users do, in any order
--   Domain              internal/domain: routing rules, accounts, people, signals, active hours
--                       (Hours) and contexts (Life)
--   Http                apps/api/internal/httpapi: errors and responses; Security, Contexts,
--                       Sessions, SignIn, Google hold the operations, Cookies the cookies and what
--                       the handlers take from libraries
--   Config              internal/config/config.go
--   Worker              apps/worker/internal/tasks
--   Codec, Strings      what the program uses of encoding/base64, fmt, unicode/utf8 and strings
--   Base                lists, results and the monad of the service's operations
--   Tests               the theorems at concrete inputs
--
-- How state is modelled. An operation of the service is a function from a world to a result and a
-- world (`Act`); a world is the database and the number of calls made so far to what is outside
-- the program. The environment `Env` says of each such call what comes back: whether the database
-- was reached, its clock, how a COMMIT ended, a UUID, random bytes. A transaction that fails puts
-- the database back. The calls of the contexts service, which use no transaction, are also
-- sequences of statements (Contexts/Statements), and those of several calls interleave in any
-- order; other operations run one after the other. An HTTP operation is a function of the same
-- kind, which gives a response or an error; `secured` puts the check of the session cookie in
-- front of it, as the generated server does, and `respond` turns the error into a response.
-- The check and the operation read the clock on their own, and each is given its time.
--
-- Parameters. argon2, SHA-256, the tables of Unicode, the collation of the database, and Google
-- (discovery, code exchange, and the checks of the token's signature, issuer, audience and expiry)
-- are not in the repository; they are parameters, and theorems name what they assume of them. So
-- are os.Getenv, time.ParseDuration, encoding/json on the flow cookie, net/url, the text of a
-- cookie, the text of an error, and the reading of a jsonb.
--
-- Bounds and fuel. The printer of decimal numbers has fuel one more than the number, of which each
-- round leaves a tenth. The walk from a context up to its root has the number of rows as fuel, and
-- no chain without a repetition is longer (Store/Contexts/Forest/Fuel); the trigger's loop counts down from two. Numbers of the
-- Go types uint8, uint32, smallint and int have their bounds written out. Times and durations are
-- whole microseconds, the grain in which Postgres keeps them; UUIDs are 128-bit numbers.
--
-- Not modelled: the wiring of the server, its logging, health checks and documents, the outer
-- router's errors, the decoding of requests, which is generated code, the worker's scheduling, the
-- queries of accounts, routing rules and tasks, which nothing calls yet, and the web
-- client. Nothing calls the queries of signals and filings yet either, and they are modelled as statements.
-- The columns updated_at, which nothing here reads, are left out. The work that a sign-in
-- spends on a dummy hash, which only takes time, is left out.
pub mod Base
pub mod Strings
pub mod Codec
pub mod Domain
pub mod Store
pub mod Auth
pub mod Contexts
pub mod Http
pub mod Config
pub mod Worker
pub mod Tests
