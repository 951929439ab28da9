-- ===== src/Lib.antt =====
-- The usage viewer: a read-only web view of the API keys of a Sub2API database. An HTTP server
-- (internal/httpapi) checks sessions and requests, validates them (internal/search), and asks
-- repositories, which read the database in transactions that only read (internal/postgres) and count
-- the requests in flight in Redis (internal/concurrency). A connection is used only after the database
-- role behind it was admitted: the role must lack every right but reading the columns of a contract.
-- Without credentials the program serves a form that collects them, and replaces the handler when it
-- has connected (internal/httpapi/credential.go, internal/app). Errors that reach an operator are
-- diagnostics with canonical text (internal/diagnostics).
--
-- Prelude: strings as lists of bytes, with UTF-8 and `strings.TrimSpace`, integers, results, lists.
-- Diagnostics: internal/diagnostics/diagnostics.go. An error of Go is plain, wraps another one, or
--   is a diagnostic; `as_diagnostic` is `errors.As`.
-- Search: internal/search (Validate, Query.Valid, ValidateDays, ValidateLimit,
--   ValidateCredential, WindowDays, MaskKey); Search.Results has the rows that services return.
-- Security: internal/security/logger.go. A log line is its list of attributes.
-- Concurrency: internal/concurrency/concurrency.go. What Redis answers is a parameter.
-- Postgres.Contract, Postgres.Admission, Postgres.Matching: internal/postgres/contract.go and
--   admission.go. Go's maps keyed by relation or column are association lists; the two matching
--   functions are one, over keys.
-- Postgres.Stages, Postgres.Preflight: internal/postgres/preflight.go. A connection is its answers
--   to the statements of catalog.go, whose texts are in Postgres.Catalog.
-- Postgres.ReadOnly: internal/postgres/readonly.go. The driver is its answers; what the code does to
--   it is a trace of events, and a body returns, fails or panics.
-- Postgres.Pool, Postgres.Pool.Opening: internal/postgres/pool.go (buildPoolConfig,
--   boundedAfterConnect, the preflights, sanitizeConnectionError, OpenPool, OpenLightPool), with the
--   acquired connection and its release in the trace.
-- Postgres.Listing, Postgres.Statements: the texts of the statements of search.go, and of daily.go,
--   leaderboard.go and selflookup.go.
-- Postgres.Repositories: Search, DailyUsage, Top and Lookup (Searching and Reporting). What the
--   database answers to a statement and its arguments is a parameter. A time is the nanoseconds since
--   the year 1 in UTC. Repositories.Fitting compares the arguments with the parameters of the statements.
-- HttpApi.Sessions: the session store of internal/httpapi/auth.go, a map from tokens to expiry times
--   as an association list. The clock and the random bytes are arguments.
-- HttpApi.Messages: requests, responses and the checks that the JSON routes of internal/httpapi
--   repeat. `url.Parse`, `mime.ParseMediaType`, `strings.EqualFold`, the JSON decoder and the
--   redirects of `http.ServeMux` are the fields of `Platform`; bodies are cut at 1024 bytes as
--   `http.MaxBytesReader` does.
-- HttpApi.Handlers, HttpApi.Accounts: the handlers of handler.go, daily.go, leaderboard.go,
--   selflookup.go, auth.go and health.go. A handler takes the session store and returns a response, the
--   store after it, and the calls of services that it made.
-- HttpApi.Contract: the interface between these handlers and the repositories, which the handlers'
--   lemmas take and App.Wiring fills.
-- HttpApi.Router: the mux, `serveAsset` and `securityHeaders` of handler.go, with the files of
--   internal/web/assets.go in Web.
-- HttpApi.Credentials: internal/httpapi/credential.go. The handler's state is the pools and the store
--   file, which its events change.
-- Creds, Creds.DotEnv, Creds.Saving: internal/creds (Discover and its sources, ConnectionCandidates,
--   LoadSaved, Save, DSN). The environment and the files are functions; the codecs of YAML and JSON and the
--   parsers of URLs and IP addresses are the fields of `System`. `%d` prints twenty digits at most, which
--   64 bits do not exceed.
-- Config, Config.Urls, Config.Loading: internal/config/config.go, with the parsers of net, net/url and
--   time.ParseDuration as the fields of `Library`. Config.Urls.Hosts and Config.Urls.Parameters say what a
--   database URL names and asks for.
-- App, App.Lifecycle, App.Logging: internal/app/app.go (establishPool, Run, RunCredentialMode), and the
--   exit codes and log lines of cmd/viewer/main.go. Pools are numbered as they are opened; how serving
--   ends is an argument. App.Lifecycle.Exits has the table of exit codes. App.Wiring: `NewHandler` of cmd/viewer/main.go. App.Connecting: the discovery, the
--   form and the candidates together; App.Lifecycle.Starting: the start of the program after the form.
-- Tests: the theorems at concrete inputs.
--
-- Every loop of the code that is modelled goes over a list; only the printing of decimals has fuel, of
-- twenty digits.
--
-- Not modelled: what PostgreSQL and Redis do with the statements and commands that they get, the pages
-- that run in the browser, sockets and timeouts of the HTTP server, signals, `Resolver.Close`, which only
-- closes the client, and the anchor that `http.Redirect` writes for a GET request. Requests are served one
-- after the other: the mutex of the session store makes each of its operations one step.
pub mod Prelude
pub mod Diagnostics
pub mod Search
pub mod Postgres
pub mod Web
pub mod HttpApi
pub mod Creds
pub mod Concurrency
pub mod Security
pub mod Config
pub mod App
pub mod Tests
