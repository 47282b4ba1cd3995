-- ===== src/Lib.antt =====
-- A verification of the time tracker antitimely: which work is seen, to which project it is given,
-- when it counts, and what is billed for it.
--
-- The daemon polls every few seconds (internal/daemon/pipeline.go). A tick collects signals: the
-- frontmost window, the processes at work, the transcripts of coding agents. Each signal is stored
-- as an observation, a rule gives it to a project (internal/domain/match.go), and gates decide
-- whether a row for this second is written: an ignored observation, a paused project, an armed
-- project. The cache (internal/daemon/cache.go) holds rules and arm state for the tick and is
-- changed by RPC handlers meanwhile. A new rule is swept over the ticks of the past in SQL
-- (internal/store/queries.sql.go). Invoices count the ticks of a company, draw on prepaid credit and
-- take a number, in one transaction (internal/daemon/rpc_invoice.go, internal/invoice).
--
-- Files:
--   Prelude            Boolean tests, lists, signed integers with int64 wrapping, strings, maps
--   Domain/Signal      internal/domain/types.go
--   Domain/Path, Glob  path.Clean, path.Dir and path.Match, as match.go calls them
--   Domain/Cwd, Rules  internal/domain/match.go: MatchesCwd, ValidateCwdPattern, MatchRules
--   Store/Tables, Observing
--                      internal/store: the rows, and the queries of a tick
--   Store/Admin        schema.sql and internal/store/queries.sql.go: the tables and the statements of
--                      the handlers, with constraints and foreign keys
--   Retro              internal/store/queries.sql.go: ApplyRuleRetroactivelyCounted
--   Herdr              internal/herdr/herdr.go: the resolver of workspaces
--   Daemon/Import      internal/daemon/transcript_import.go: importTranscripts
--   Daemon/Transcript, Codex
--                      internal/daemon/transcript.go and codex.go: collectTranscriptSignals and
--                      collectCodexSignals
--   Daemon/Cache       internal/daemon/cache.go; Cache/Interleaving has its calls as steps
--   Daemon/Permission, Backoff, Busy, Focus, Agent, Gate, Tick
--                      internal/daemon/permission.go and pipeline.go: RunTick is Tick.run_tick, its
--                      collectors are Focus.collect_focus_signal and Agent.collect_agent_signals,
--                      its loop over the signals is Gate.record_signals
--   Invoice/Number, Credit, LineItem, Config, Doc
--                      internal/invoice: format.go, credit.go, lineitem.go, sender.go, doc.go and
--                      invoice.go
--   Invoice/Ledger     internal/store/queries.sql.go: the queries that billing runs
--   Invoice/Service    internal/daemon/rpc_invoice.go: InvoiceGenerate is Generate.invoice_generate,
--                      InvoiceAdvance is Advance.invoice_advance
--   Rpc                internal/daemon/rpc.go: ReloadCache and the handlers that change the tables;
--                      Rpc/Exec is what a handler is made of, Rpc/Requests the calls and runs of them
--   Tests              runs at concrete inputs
--
-- Go's maps are functions from keys, with the zero value for a missing key, or lists of entries in
-- the order of one iteration. Times, ids and counters are natural numbers, which the program never
-- takes below 0; cents are signed, and their sums wrap at 64 bits as int64 does, but for the sums of
-- SQLite, which reports an overflow as an error. The float64 arithmetic of the line item is computed
-- exactly as rounding to 53 bits. Errors are compared by the kinds that the code tells apart.
--
-- A handler of the service is an action on the database and the cache that may stop at each
-- statement: which of the coming statements fail is a list in the state. Calls do not overlap.
--
-- Recursion is structural but for these, on fuel. The ancestor walk of MatchesCwd has more steps than
-- the path has characters, and each step drops a directory. The digits of n have n steps, and each
-- drops a digit. The scaling of a double has 64 steps, more than any quotient of an int64 by 3600
-- needs. The loop of the import over a block has a round for each second of the block and one more,
-- and each round moves by an interval of at least a second.
--
-- Parameters: SQLite's GLOB and LIKE, with what the sweep relies on of GLOB; the host's time zone;
-- the answers of ps, lsof, herdr and osascript in a tick; what a line of a transcript decodes to; the
-- configuration file; which calls fail.
--
-- Not modelled: the opencode collector (a tick takes the signals of the three transcript
-- collectors as an argument), the JSON of transcripts and of herdr's file, the registry of running
-- sessions, the handlers that only read (Status, Report, Summary, the lists) and their queries,
-- rule proposals, migrations, reset, the balance report of rpc_invoice.go, FormatMoney, the PDF
-- layout, the command line and the macOS bridge.
pub mod Prelude
pub mod Domain
pub mod Store
pub mod Retro
pub mod Herdr
pub mod Daemon
pub mod Invoice
pub mod Rpc
pub mod Tests
