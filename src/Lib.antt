-- ===== src/Lib.antt =====
-- bunny-api-proxy: an HTTP proxy in front of the DNS API of bunny.net that holds the account's master
-- key and hands out scoped tokens, each with permissions for zones, actions and record types.
--
-- A request to the proxy passes `Authenticate` (internal/auth/middleware.go), which looks the hash of
-- its key up in the store, and `CheckPermissions`, which parses the request (internal/auth/actions.go)
-- and asks `CheckPermission` (internal/auth/auth.go). Tokens and permissions are managed by the admin
-- API (internal/admin), behind `TokenAuthMiddleware` and `RequireAdmin`; the master key opens that API
-- only until the first admin token exists (internal/auth/bootstrap.go). Both stand on the store of
-- internal/storage.
--
-- Storage: the two tables of internal/storage/schema.go as lists of rows (Storage.Db.Db), one function
--   for each operation of internal/storage/tokens.go (`CreateToken` is create_token, and so on), from a
--   database to a result and a database. Each statement takes the driver's outcome from the list
--   `outcomes`: it works, it fails, or it is carried out and its result fails. Storage.Valid states the
--   well-formedness that the schema's constraints promise.
-- Go: the parts of Go's library that the code's decisions rest on: strconv.ParseInt with the bounds of
--   int64, FormatInt, strings.TrimSpace, and regular expressions of the shape `^/lit(\d+)/lit/?$`.
-- Auth: Types and Check are auth.go, Parse is actions.go, Context is context.go, Bootstrap is
--   bootstrap.go, Middleware is middleware.go and the chain of cmd/bunny-api-proxy/main.go.
-- Admin: Types is errors.go and the response structs, Handlers and Create are the handlers of api.go,
--   Access is token_auth.go and middleware.go, Server is router.go as a step on the state of the server
--   (the database and the log level), and the runs of such steps. Create.Usable follows a new token from the
--   admin API to the proxy, over the cases in which the chain passes a request (Auth.Middleware.Complete).
-- Proxy: Types is the client's interface and the structs of internal/bunny that the proxy reads,
--   Handlers is internal/proxy/handler.go and admin.go. The client of bunny.net is a parameter, a record
--   of its operations on a state of its own; fields that the proxy passes on unread are kept as text.
--   Router is router.go with the chain before it, and Router.Authorized follows a request from its key
--   to what is sent upstream; the middlewares RequestID, HTTPLogging and MaxBodySize in between do not
--   change what the handlers read, but for a body over the limit, which is one that does not decode.
-- Program: cmd/bunny-api-proxy/main.go from the configuration (Config is internal/config) to the
--   shutdown, and in Program.Health the health checks of main.go and internal/admin/health.go.
--   What is done to the database and to the servers is one sequence of acts.
--   Storage.Connection is internal/storage/config.go, schema.go and ping.go, Storage.Crypto crypto.go.
-- Metrics: internal/metrics, the middleware and its paths.
-- Logging: Http is internal/middleware/logging.go, Masking is internal/logging/masking.go on a tree of JSON, RequestId is the middleware of
--   internal/middleware/request_id.go.
-- Bunny: Http is what internal/bunny sees of net/http, a request that is left with its unread body and
--   a response whose body can be read, which drains it, and closed. Retry is RetryTransport of internal/bunny/logging_transport.go
--   over any transport and any clock, LoggingTransport stands beside it in Logging. Client and
--   Client.Operations are client.go over the functions of net/http, net/url and encoding/json that it
--   calls (Client.Library), and give the client that Proxy.Handlers takes. Client.Calls is the type of its
--   calls.
-- MockBunny: the simulated bunny.net of internal/testutil/mockbunny. Types is types.go, Zones, Records,
--   Import and Scan are the handlers of handlers.go and admin.go, Injection is the middleware of
--   middleware.go, Server the routes of server.go; a map is a list of rows, and times are numbers that
--   the requests bring. Seeds is the Go interface of server.go, Requests the log of middleware.go.
-- MockStore: the store of internal/testutil/mockstore, which a test sets up with functions.
-- Tests: a concrete database and requests, at which the theorems are applied.
--
-- Every handler is the whole function of the source with its early returns; a middleware answers or
-- passes a context on. The retry loop runs on the rounds that are left, four; the printer of numbers on
-- fuel, one more than the number, which is enough; all other loops are over a list or a text. The hash
-- (SHA-256 and hex) is a parameter, and no theorem needs it to be injective. The decoders of JSON and
-- the random source are inputs of the handlers. A run of the server (Admin.Server.run) serves its
-- calls one after the other; Admin.Server.Race interleaves the statements of two deletions, which the
-- source does not put in one transaction.
-- The router library chi, the driver of the database, AES-GCM and the writers of net/http are
-- parameters with what they document as hypotheses (FindsRoutes, KeepsPlain, KeepsText, SendsFirst,
-- and ReadsWhole of io.ReadAll).
-- Not modelled are the registration of the metrics and the limit of bodies, which are calls of
-- libraries, the timeouts of the servers, and log output but the entries of LoggingTransport and of
-- HTTPLogging.
pub mod Base
pub mod Go
pub mod Storage
pub mod Auth
pub mod Admin
pub mod Logging
pub mod Bunny
pub mod Proxy
pub mod MockBunny
pub mod Config
pub mod Program
pub mod Metrics
pub mod Tests
pub mod MockStore
