-- ===== src/Lib.antt =====
-- MailSubsystem: the durable work queues, the coordinator that drives them, the limiter of
-- requests to model providers, the labels that models return, and the runs of agents.
--
-- The program keeps its work in tables of PostgreSQL. The core coordinator enqueues kinds of work
-- into core_work_queue, claims them in a fixed order, executes them and settles them as done, to be
-- retried, or dead; claims that are left over are taken back. Two further tables of the same form
-- hold the message bodies to fetch and the messages to analyse by a remote model. Calls of a
-- provider wait for a slot of its limiter.
--
-- Prelude: the shared names, Boolean tests on numbers, lists, signed integers, texts.
-- Sql: the statements over a table as functions on the list of its rows, with their laws.
--   Sql.Update has those of UPDATE and of INSERT ... ON CONFLICT, Sql.OrderBy those of ORDER BY with
--   LIMIT, Sql.Unique those of a table whose ids grow, Sql.Upsert further ones of INSERT,
--   Sql.Chosen those of the rows that a claim has chosen.
-- Json: the payloads.
-- CoreWork: src/database/core_work.rs. The kinds and the rows stand in CoreWork; enqueue and the
--   two claims in CoreWork.Table; done, retry or dead, the stale reset, recovery and release in
--   CoreWork.Settle; the queries in CoreWork.Report. A definition has the name of its function
--   (claim_core_work_for_account, ...). CoreWork.Ops gathers the operations into histories. The
--   other modules prove one subject each.
-- Completeness: the snapshot of src/database/completeness.rs and its tests.
-- Coordinator: src/core_work_queue.rs. The plans and enqueue_core_work stand in Coordinator,
--   run_once and what it calls in Coordinator.Run, the loop and the background sync in
--   Coordinator.Daemon.
-- BodySync: src/database/body_sync_queue.rs. Enqueueing stands in BodySync, the other statements
--   in BodySync.Stored, histories in BodySync.Ops.
-- FrontierQueue: src/database/frontier_queue.rs, with histories in FrontierQueue.Histories.
-- Analysis: labels, categories, their alignment and the statuses, of
--   src/email_analysis/result_normalization.rs. The normalizers stand in Analysis and in
--   Analysis.Statuses, what works on a whole result in Analysis.Align, the columns of schema.sql that
--   take the statuses in Analysis.Schema.
-- Router: src/agent_router.rs and src/agent_catalog.rs, which choose the agent of a turn. The phrase
--   tests stand in Router.Questions, the route of one text in Router.Routes, the agents in
--   Router.Catalog, whole turns in Router.
-- Agent: one run of an agent, src/agent_harness. Agent.Run is run_with_callback and composes the
--   others: Agent.Preparation and Agent.Polling what comes before the loop, on Agent.Prerequisites;
--   Agent.Start the messages and the tools called first, on Agent.Questions and Agent.Arguments;
--   Agent.Pending the answer that prerequisites are pending; Agent.Loop and Agent.Turns the loop, with
--   tool_registry.rs; Agent.Spec and Agent.Output the output, with agent_spec.rs; Agent.Runs and
--   Agent.Scratchpad the tables of scratchpad_state.rs. The other modules prove one subject each.
-- Strings: the functions of str that Analysis, Router and Agent call.
-- RateLimiter: the limiter of src/provider_rate_limit.rs and the wait of the provider wrappers.
--
-- A table is the list of its rows in the order of insertion, and a statement is a function on it
-- that takes effect at once: transactions that run at the same time are statements in some order.
-- NOW() is an argument. Times are microseconds, those of the limiter nanoseconds, durations of a run
-- milliseconds; all are natural numbers, as are the counters, whose 32-bit width is left out. So is that
-- of a number of calls in one response, taken to be below 2 ^ 32, and of a LIMIT, taken to be below 2 ^ 63;
-- the budgets of a run are truncated as in the source. The rows that other transactions
-- hold locked, which FOR UPDATE SKIP LOCKED passes over, are those of the argument skip. A signed
-- argument is an integer, and its .max(..) is written out. Where PostgreSQL refuses a statement (a
-- row touched twice, an unknown email) the result is that error. Failures of the connection are
-- left out, as are metrics and log lines, among them the entries that the wait for the mailbox adds to
-- agent_tool_log (log_db_completeness_event). Deleting an email deletes its rows of body_sync_queue and
-- frontier_analysis_queue; that is a statement of another table and not among those modelled here.
--
-- Tasks that run at the same time are modelled where a property depends on it: what others do between a
-- test for active work and the INSERT of enqueue_core_work, and what they do in a round of the wait,
-- are arguments. The items of a batch of the coordinator, which run concurrently, are taken one after
-- another, and a round of the background sync stands between two iterations of the loop. The tools that
-- a run calls before its loop are outside its time limit; in the model they answer or are refused, so
-- that nothing is said here of a run whose tool never answers.
--
-- What the coordinator calls is an argument: execute_work, the completeness snapshot, and the clock
-- of each statement. A claim, a statement and a plan end by structural recursion. There is fuel
-- in two places: RateLimiter.acquire, where two iterations are enough for a caller that is alone, and the
-- wait of Agent.Polling, where a round more than its time limit has intervals of 50 ms is enough, as a
-- delay is never shorter. Lower-casing and white space are arguments too, since they are the standard
-- library's. A run of an agent takes the provider, the tools, the parser of JSON, its clocks and the
-- environment as arguments; its time limit falls in a call of the provider or of a tool, if at all.
-- A floating-point number is kept as its text.
--
-- Not modelled: the heartbeat of the coordinator and the lock of its lease; the analysis of
-- messages but for its labels and statuses; the tools of the agents and the parsing of their
-- specifications; the IMAP client and the sync of mailboxes; the providers themselves; the HTTP API, the terminal interface and the command line. They are network
-- traffic, text for people or models, or build on parts that are not modelled here.
pub mod Prelude
pub mod Strings
pub mod Sql
pub mod Json
pub mod CoreWork
pub mod Completeness
pub mod Coordinator
pub mod RateLimiter
pub mod BodySync
pub mod FrontierQueue
pub mod Analysis
pub mod Router
pub mod Agent
