-- ===== src/Lib.antt =====
-- CadenceOS, the replenishment scheduler: a service that keeps recurring orders ("schedules"), plans
-- their shipments ("occurrences") on a rolling horizon, and lets customers pause, resume, skip,
-- defer, re-time and cancel them, with every change in one transaction and in an append-only log.
--
-- The parts and the files that model them:
--   Calendar      internal/domain/cadence.go: `Date` and its arithmetic, as day numbers
--   Domain        internal/domain: the entities and errors (Types), the cadence grid and the keys
--                 (Cadence), the text of a date (DateText), the precondition table and the
--                 checks on input (Transitions)
--   Store         internal/store: the tables as lists of rows (Rows, Db), the scopes (Scope), the
--                 statements (Schedules, Occurrences, Events), the constraints of the migrations as
--                 an invariant (Integrity), and the statements' effect on it (Steps, Found)
--   Materialize   internal/materialize: `Run`, `RefreshNextRunDate` and `RunAll` (All)
--   Service       internal/schedule/service.go: `Pause`, `Resume`, `SkipNext`, `ArmNext`, `Defer`,
--                 `ChangeCadence` and `Cancel`; a `Request` names one of them with its arguments
--   Sweep         internal/sweep: `ResumeDue` and `ArmDue` over the listings and the service
--   Notify        internal/notify/notify.go: `RunAll` over pages of claims, and `dispatchOne`
--   Config        internal/config: `Load`, `RequireAuth` and `RequireNotifications`
--   Auth          internal/auth: principals, the bearer header, and the two verifiers
--   Http          internal/httpapi: what the handlers share, `Create` (Create), the reads (Schedules),
--                 the actions (Transitions), and `NewServiceRouter` with its middleware (Router)
--   Examples      a small database with the properties at work on it
--   Common        lists, texts and integers that the parts share
-- A function keeps the name of the Go function that it translates, in lower case. The service calls
-- the materializer and the store; the store's functions take the database and answer with a result
-- and the database that they leave, also when they fail.
--
-- Choices. A Go string is the list of its bytes. A Go int that may be negative is in ℤ, others are
-- natural numbers. Dates before 0000-01-01 are outside the model. A discount is in hundredths of a
-- percent; floats are not modelled. A row lock needs no state, since transactions run one after the
-- other; what interleaves are whole transactions. The rows' identifiers, the clock and the time
-- zone database are arguments (`new_id`, `Clock`, `zone_exists`), as are the environment and
-- `net/mail.ParseAddress`; where a theorem needs it, `FreshIds` says that `new_id` gives an
-- identifier that no row has, and `ClockOk` that the clock gives dates of the calendar. A well-
-- formed database (`Store.Integrity.WellFormed`) meets the primary keys, the unique and the check
-- constraints of schedules, items, occurrences and events, and has a schedule behind each item.
-- The search for the year of a day number starts at n / 366 and has n + 1 steps, which is enough
-- since a year has 365 days or more; a number n has at most n + 1 digits, so n + 1 steps print it.
-- A run over notifications has fuel for one page more than there are events; `Notify.Drains` is about
-- its being enough. The clock of a run is an argument, one time for each page.
--
-- Not modelled: failures of the connection, save in the read of items (`ItemReads`), the foreign
-- keys of occurrences and events, the 32 bits of `sequence_no`, `updated_at`, the state of a
-- PostgreSQL transaction after a refused statement (the materializer goes on after a duplicate, as
-- its code is written), the templates and the client of Postmark (arguments of the dispatcher), and
-- the commands. Of the HTTP layer: the matching of patterns, the decoder of JSON (what it finds in
-- a body is an argument), the health check and the console; an identifier in a path is taken to be
-- a well-formed uuid. SHA-256, the JWT parser and `NormalizeDiscountPct`, which works on floats,
-- are arguments.
pub mod Common
pub mod Calendar
pub mod Domain
pub mod Store
pub mod Materialize
pub mod Service
pub mod Sweep
pub mod Notify
pub mod Auth
pub mod Config
pub mod Http
pub mod Examples
