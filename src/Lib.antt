-- ===== src/Lib.antt =====
-- Verification library of the VPN subscription manager (backend/internal).
--
-- The program is a Go server over one SQLite file and a data directory. Its packages are modelled
-- as procedures with explicit state: a function that returns `(T, error)` is a function from a
-- state to a `Result` and a state (`Base.Procs`), and what an outside call may do (a query, a file
-- operation, a commit, a random source, the clock) is an argument of the definition.
--
-- Files:
--   SsPlugin: backend/internal/ssplugin/sip002.go. Texts are lists of code points. The builder of
--     the Go loops is an accumulator, a map is an association list with distinct keys, and
--     sort.Strings an insertion sort on code points.
--   Version: backend/internal/version/version.go over Store.TxImmediate of store/store.go. The
--     tables, version files and `current` links are Version/Tables; a transaction that fails
--     restores the tables and leaves files and links as the code left them. What can fail is a
--     value of `Step`, and the operations take a predicate of the steps that fail.
--   Mail: backend/internal/mail/activity.go (Mail/Activity: the log as a list of records, its
--     operations as functions of the time) and dispatcher.go (Mail/Dispatcher: the state with its
--     channel and workers; Mail/Dispatcher/Events: every critical section, channel operation and
--     log call is an event, and a history is any list of events).
--   Oidc: backend/internal/oidc/ticket.go and the guard of flow.go. A transaction is a procedure
--     over the ticket table that is undone on an error, as in Version.
--   Tasks: backend/internal/tasks/registry.go. The map is an association list.
--   Emergency: backend/internal/emergency/emergency.go and backend/internal/server/emergency_gate.go.
--   RateLimit: backend/internal/ratelimit/ratelimit.go. The formatted minute and cutoff are
--     arguments.
--   Slug: backend/internal/slug/slug.go, Generate and randomCode over a random source for each
--     attempt.
--   RuleSpec: backend/internal/rulespec. Canonical, Capability, Tables and Legacy hold the tables and
--     their lookups, Value is ValidateValue, Rendered is ParseRendered, Strings is what they use of
--     the standard library. A value is a list of code points. ToUpper, ToLower, regexp.Compile and
--     net.ParseCIDR are the arguments of a record, and RuleSpec.Accepted.IsLibrary states what is
--     relied on: upper-case names stay, and fields of a line stay fields.
--   Assembly: backend/internal/assembly/render_clash.go, appendRule and the order of its calls.
--   Pool: backend/internal/pool. Pipeline and Finalize are finalizeParseResult of pipeline.go over
--     parsed items; Stats, Tallied, ByType, TypedTally and Counts follow its counters. The adapters
--     that parse the formats are not modelled.
--     Task and TaskEnd are the synchronisation tasks of sync.go with the reset of cmd/server/main.go:
--     the rows, the map of cancel functions and the cause of each context. A failing statement is an
--     argument of the operation, and rolls its transaction back. TaskRows, TaskCount, TaskSteps,
--     TaskChange, TaskTidy and TaskTrace follow the rows. The cutoff of a deletion by age is an
--     argument, and the clearing of all data by dataclear is no operation of theirs.
--     Snapshot and Review are the snapshots of a source: how a result is applied, and what becomes of a
--     pending one; a failing statement rolls its transaction back and is left out. Sources, Guard and
--     Decision prove it.
--     Run is the loop of a task over its sources; what a download comes to, how its transaction ends
--     and the cause of the context are arguments. RunSuccess and RunApplied follow a run that succeeds.
--
-- Fuel: the digits of a task id (Tasks) are computed on fuel, and the number itself is enough,
-- as each turn divides it by ten. Slug counts its three attempts. All other loops go over lists.
--
-- Not modelled: SQL itself (a statement is a function on the rows it names), the encoding of paths
-- on disk, HTTP handlers, and the packages listed as such in the manifest.
pub mod Base
pub mod SsPlugin
pub mod Version
pub mod Mail
pub mod Oidc
pub mod Tasks
pub mod Emergency
pub mod RateLimit
pub mod Slug
pub mod RuleSpec
pub mod Assembly
pub mod Pool
