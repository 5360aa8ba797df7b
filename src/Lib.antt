-- ===== src/Lib.antt =====
-- HivePulse: what its monitoring core does, and theorems about it.
--
-- HivePulse checks monitors (HTTP, TCP, ping, DNS) at intervals, keeps heartbeats and incidents, tells
-- notification channels of outages and recoveries, and rolls heartbeats up into statistics. The scheduler
-- runs a check for each enabled monitor; a check writes to the repositories, broadcasts to the dashboards
-- and starts a notification; requests on monitors change the rows and the scheduler's jobs together.
--
-- How the code is modelled:
--   Prelude     Boolean tests, lists over the native numbers, Go's int as an integer, Go maps as
--               association lists, and strings.TrimSpace.
--   Domain      internal/domain: a record for each struct, the sentinel errors as a data type, times as
--               nanoseconds since the zero time.
--   World       the tables of the database, the clock, the notifications that were started, the events
--               broadcast and the deliveries made. An operation takes a world to a result and a world. The
--               field `faults` says of each statement to come whether the database fails, so that a theorem
--               that leaves it open holds for every failure; a statement that fails changes nothing.
--   Tasks       goroutines that run at the same time: each is the sequence of its statements, and a schedule,
--               a list of numbers, says which goroutine makes the next one. A theorem on every schedule is one
--               on every order of the statements. Usecase.Checker.Task, Usecase.Auth.Task,
--               Usecase.Pages.Task, Usecase.Tag.Overlap and Infra.Scheduler.Updates are checks, setup,
--               refresh, the requests on status pages and on tags and the updates of jobs in this form;
--               run alone, they do what the functions in direct style do.
--   Repo        internal/adapter/repo: one function for each statement, with the constraints and cascades of
--               migrations/. Repo.Columns has what a column takes, for the rows of monitors; in the other tables the
--               texts are free of the character of code 0, and the numbers within their columns. Repo.Rows
--               and the ends of the files have the lemmas on the tables.
--   Usecase     internal/usecase. Checker is RunCheck of checker_usecase.go; Monitor is monitor_usecase.go;
--               Notification and Schedule are notification_usecase.go; Auth is auth_usecase.go and
--               user_usecase.go; Slug is the slug of a status page in status_page_usecase.go, Pages the
--               requests on pages and Pages.Public the page that is shown; Stats is stats_usecase.go;
--               Settings is settings_usecase.go; Tag is tag_usecase.go.
--   Infra       internal/infrastructure. Scheduler is scheduler.go over the library robfig/cron, a record of
--               operations and laws that is a parameter; Aggregator is the transaction of aggregator.go; Hub is
--               websocket_hub.go as a step relation, with any order of its goroutines; SslChecker is ssl_checker.go.
--   Service     internal/adapter/service. Http is http_checker.go, Probes the checkers of TCP, ping and DNS,
--               and Senders the three senders and the dispatcher. The answers of the network are a parameter.
--   Handler     internal/adapter/handler. Channels is notification_handler.go, Monitors monitor_handler.go,
--               with the responses in Monitors.Views, Settings settings_handler.go, Sessions auth_handler.go,
--               Accounts user_handler.go; Tags, Incidents, Maintenance and Pages are the handlers of these
--               names. Guards is internal/adapter/middleware (jwt.go and role_guard.go), Cors is cors.go there,
--               RateLimit rate_limiter.go, Routes the table of routes in cmd/oss/main.go, and Socket is
--               ws_handler.go, on the hub of Infra.
--   Program     cmd/oss/main.go: the map of checkers, the dispatcher, the jobs that are added at the start, and
--               in Web the public routes, the frontend and the daily cleanup. Config is infrastructure/config.go.
--   Tests       the theorems at concrete inputs.
--
-- Bounds: the loop of attempts in RunCheck is a recursion on the number of rounds, retries + 1, and that
-- of notifyChannel one on the 3 attempts, so that neither has fuel; the decimal digits of n have n + 1,
-- one for each digit at least. A Duration wraps around at 64 bits where a request can make it so large, in
-- the cooldown of a channel. Other integers of Go are taken as unbounded: the sums are of times, counts and
-- seconds, far from 64 bits. Only the first MiB of the body of an HTTP answer is searched. A page or limit is brought into range before it becomes a natural number, but
-- for the listing of status pages, which hands them to gorm as they come. Schedules are lists of any length.
--
-- Parameters: the answers of the network and the times at which attempts begin, the notification sender,
-- the time zones, bcrypt, the JWT signer and parser, SHA-256 and HMAC, the random tokens and characters,
-- strings.ToLower, the cron library, the days a certificate remains valid, gin's test of e-mail addresses,
-- float64, the clauses that gorm writes for a page and a limit, the store of the rate limiter, the embedded
-- files, the environment and the parsing of durations, and PostgreSQL's ILIKE and collation. PostgreSQL
-- itself is the tables and statements of Repo, each of which is done as a whole; statements of different
-- operations interleave in the theorems on tasks, and in the others an operation runs alone.
--
-- Not modelled: logging and contexts; JSON and HTTP framing; the bytes on the connections of the websocket
-- hub; opening the database and running the migrations; generated documentation.
mod Prelude
pub mod Domain
pub mod World
pub mod Tasks
pub mod Repo
pub mod Usecase
pub mod Infra
pub mod Service
pub mod Handler
pub mod Program
mod Tests
