-- ===== src/Lib.antt =====
-- BlazeLog: agents tail log files and ship the entries to a server, which stores them, evaluates
-- alert rules on them and sends notifications. This library models the parts of the program that keep
-- state of their own, each from the Go source that its files name.
--
-- The parts and how they meet:
-- * Agent.DiskBuffer is internal/agent/buffer/buffer.go. While the server cannot be reached, the agent
--   writes entries to a file, each behind its length in four bytes, and reads them back later. Bytes
--   has the file (bytes and an offset, os.File's Read, Write and Seek); DiskBuffer.antt has
--   DiskBuffer and Write (write_entries), Read, dropOldest, compactNow, countEntries, NewDiskBuffer,
--   Close and Clear; Frames, State, Rounds, Writes, Reads, Reopen, Overwrite and Torn have the
--   proofs.
-- * Storage.LogBuffer is internal/storage/log_buffer.go, the server's buffer before the log store:
--   AddBatch (admit, then Flush where the batch is full), Flush (begin_flush, the insertion, put_back
--   or count_flush) and Close. Interleaving lets other calls run while a flush waits for the store.
-- * Alerting.Window and Alerting.Manager are internal/alerting/window.go: the events of each rule in a
--   sliding window, and the eviction across rules. Alerting.Rule is rule.go (Rule.Validate has
--   Validate), Alerting.Expr is expr_matcher.go, Alerting.Matcher is matcher.go; Alerting.Cooldown and
--   Alerting.Engine are engine.go: Engine.antt has the state, evaluatePattern and evaluateThreshold,
--   Engine.Evaluate has evaluateExpr, EvaluateAt (evaluate_at), AddRule, RemoveRule, ReloadRules. The
--   proofs about the engine are in Outcome, Booking, Tally, Spacing, Thresholds and RuleSet below it.
-- * Notifier.RateLimit and Notifier.Dispatcher are internal/notifier/ratelimit.go and notifier.go: an
--   alert from the engine's channel goes to the notifiers of its rule, unless there were too many.
-- * Auth.Lockout is internal/api/auth/lockout.go: failed logins lock a user or an address. Auth.Tokens is
--   internal/models/token.go, internal/storage/sqlite_tokens.go and internal/api/auth/tokens.go, the
--   refresh tokens and their table. Auth.Login is internal/api/auth/handler.go (Login, Refresh, Logout),
--   which uses both; BruteForce and Rotation have its proofs.
-- * Access is internal/models/user.go and internal/api/middleware/rbac.go; Access.Projects is
--   project_access.go beside it: which logs a user may see, as a restriction of a log filter.
-- * Storage.LogQuery is the log search of internal/storage/clickhouse.go: buildQuery and
--   buildProjectFilter make the SQL text and its arguments from a filter, Pages has Query and Count.
--   Where relates the restriction of Access.Projects to the rows that the SQL asks for. Context is
--   GetContext, the entries around one, with formatCursor and parseCursor.
-- * Query is internal/query: Ast has the syntax trees of expr-lang, Fields is fields.go, Sql with Text is
--   sql_builder.go (SQLBuilder.Build), Validate is dsl.go (validateAST, ExtractFieldInfo). The text that it
--   makes goes into the filter of Storage.LogQuery.
-- * Api.RateLimit is internal/api/middleware/ratelimit.go: the address a request counts for, and a token
--   bucket per key with its cleanup.
-- * Web.Session is internal/web/session/store.go: the sessions of the web pages.
-- * Ssh.Pool is internal/ssh/pool.go: Pool.antt has Get and the loop of getFromHostPool over a slice that
--   shrinks in place, Upkeep has Release, Close, cleanup and Stats.
-- * Agent.Connection is internal/agent/connmgr.go: Connect with its retries, the reconnection and Close.
--
-- How the code is rendered:
-- * Times are natural numbers of nanoseconds since Go's zero time, durations natural numbers; the
--   negative durations that time.ParseDuration accepts are outside the model. Every reading of the
--   clock is an argument, but the two that one Allow of Api.RateLimit makes are the same. A notifier
--   gives the same answer when its name stands twice in one alert. int and int64 counters are natural numbers without an upper bound; where the
--   code can go below zero, the subtraction is written so that it cannot, or the type is Base.Int.ℤ.
--   The length prefix of the disk buffer keeps the wrap-around of uint32.
-- * A map is an association list, whose order stands for the order of `range`. A slice is a list. A
--   mutex makes an operation one step; Flush, which holds its mutex twice, is two.
-- * Loops are structural, or take the rounds left: the binary search of a window as many as there are
--   events, the eviction as many as totalEvents, dropOldest and Read as many as there are entries,
--   countEntries one more than there are bytes, the copy of compactNow as many as there are bytes, the
--   loop of getFromHostPool as many as the slice had at its start.
--   Each round takes at least one off that number. Connect goes through a list of passes, and says where
--   they end before it does.
-- * Libraries are parameters: proto.Marshal and proto.Unmarshal (Codec), regexp, expr-lang, time,
--   fmt, strconv and float64 (Platform), the insertion into the store, the send of a notifier, the
--   float64 test of the disk buffer's consumed ratio (`exceeds`), strings.ToLower, time.ParseDuration
--   and a regexp (Query.Ast.Library), the walk over a syntax tree, the ClickHouse driver
--   (Storage.LogQuery.Pages.Database and Storage.LogQuery.Context.Source), users, bcrypt, SHA-256 and
--   JWT (Auth.Login.Services), the package net (Api.RateLimit.Net), golang.org/x/time/rate
--   (Api.RateLimit.Rate), and the answers of an SSH client or of the server to a try of a connection.
-- * SQL is a text with arguments; what a statement on refresh_tokens does to the rows is written out in
--   Auth.Tokens. The SQL builder divides a duration exactly, where the code goes through float64.
--
-- Not modelled: input and output, gRPC, HTTP and the SSH protocol, the other SQL stores, log parsers and
-- tailing, the web pages, generated code; the delay of a backoff, a float64 with random jitter; the error
-- that the pool's Close returns. The system calls of the disk buffer are taken to succeed.
pub mod Base
pub mod Access
pub mod Agent
pub mod Alerting
pub mod Api
pub mod Auth
pub mod Notifier
pub mod Query
pub mod Ssh
pub mod Storage
pub mod Web
