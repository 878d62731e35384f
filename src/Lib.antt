-- ===== src/Lib.antt =====
-- Odd Jobs: the event-sourced state of the daemon, its log and recovery, and the engine's workers,
-- timers and retries.
--
-- The program. `ojd` (crates/daemon) runs jobs, standalone agents, workers that take items from
-- queues, and crons. Every change is an event (crates/core). An event is written to a log, and the
-- state (crates/storage) is what the events make of it one after another: `apply_event`. The engine
-- (crates/engine) reacts to events with effects. An emitted event is applied at once by the executor
-- and a second time when it comes back from the log, so handlers are to be idempotent. On a restart
-- the daemon takes a snapshot and applies the entries of the log after it.
--
-- The files.
--   Prelude: Boolean tests, lists as `Vec`, texts, and Prelude/Map for `HashMap<String, V>`.
--   Core: the data of crates/core/src. Names is namespace.rs, Agent is agent.rs and agent_record.rs,
--     Owner is owner.rs, Timer is timer.rs, Tracker is action_tracker.rs, Decision is decision.rs,
--     AgentRun is agent_run.rs, Workspace is workspace.rs, Job is job.rs, Event is event.rs, and
--     Event/Views has `from_agent_state`, `as_agent_state`, `name` and `job_id`. Effect is effect.rs.
--   Storage: crates/storage/src/state.rs. State has the records, Lookup the queries, and Apply is
--     `MaterializedState::apply_event`, with the body of one match arm per function: Apply/Agents,
--     Apply/Jobs, Apply/Sessions (also runbooks and workspaces), Apply/Workers, Apply/Queues,
--     Apply/Crons, Apply/Decisions and Apply/Runs. Replay is the loop over the log in
--     crates/daemon/src/lifecycle/mod.rs. Idempotent and Invariant hold proofs over all of these.
--     Wal is crates/storage/src/wal.rs: the lines of the file and the loops over them, and in
--     Wal/Operations the record `Wal` and its operations; Wal/Spec is the list of entries that the
--     log stands for, and the other children hold proofs. Recovery is the startup's state from
--     snapshot and log (lifecycle/mod.rs), Checkpoint is crates/storage/src/checkpoint.rs with the
--     checkpoint task of crates/daemon/src/main.rs, Checkpoint/Crash its crash points, and Migration
--     is crates/storage/src/migration.rs.
--   Engine: crates/engine/src. Steps is steps.rs, with the state after the effects that end a job
--     in Steps/Ends and what `fail_job` of runtime/job.rs emits, when the circuit breaker lets the
--     step start, in Steps/Redelivery. Scheduler is scheduler.rs. Breaker is the circuit breaker of
--     `start_step` in runtime/job.rs. Vars is vars.rs. Duration is `parse_duration` of monitor.rs.
--     Retry is the retry-or-dead logic of runtime/handlers/worker/completion.rs and lifecycle.rs,
--     and the retry timer of runtime/handlers/timer.rs. Worker is the state of a worker and its
--     handlers in runtime/handlers/worker, with what it goes through in Worker/Runs. Runtime has the
--     world that the runtime changes (runtime/mod.rs) and the ways in which its functions are put
--     together: Runtime/Executor is executor.rs, Runtime/Jobs and Runtime/Transitions are
--     runtime/job.rs, Runtime/Reload is `refresh_worker_runbook` of mod.rs, Runtime/Completion is
--     handlers/worker/completion.rs as a whole, and Runtime/Handlers is handlers/lifecycle.rs. The
--     other children of Runtime hold proofs: Outcomes and Related are rules for runs, Logged,
--     Applied, Executed, Leaving, Returned, Durable and Lost are about the events that the log gets,
--     Passing, Keeping, Cancelling and Stopping about a job that is cancelled, Arriving and Starting
--     about one that goes on, Deletion about one that is deleted, and Settling about the item of one
--     that ended.
--   Runbook: what the engine reads of a runbook, crates/runbook/src/job.rs, command.rs and queue.rs.
--     Runbook/Template is `escape_for_shell` of template.rs, with what bash reads between double quotes.
--   Daemon: crates/daemon/src/listener. Suggest is suggest.rs, Queues and Queues/Retrying are the
--     requests of queues.rs to drop and to retry items.
--   Tests: the properties at concrete inputs.
--
-- How the code is read. A `HashMap` is its entries in iteration order, and statements are for every
-- order; a key that is not there gives `none`, and updates of it do nothing, as `get_mut` does. Ids,
-- paths and JSON values are texts. A `u32` counter is a number that is taken modulo 2 ^ 32 when it
-- grows, as in a release build; an `i32` is an integer. `epoch_ms_now()` is an argument `now` of the
-- event that is applied; two readings of the clock within one event are taken to be the same. An
-- `Instant` is a number of milliseconds. Loops are structural recursions, so they need no fuel, but
-- for migrations, below, and `decimal`, which prints n in at most n + 1 divisions by ten. The field
-- `data` of a queue item and of a runbook is called `item_data` and `runbook`. `Job.step_started_at`
-- and `Job.created_at`, instants that are not stored and that `apply_event` never reads, are left
-- out.
--
-- The log's file is a list of lines: whole ones, a last one that may lack its newline, and lines
-- that are not UTF-8, which are taken to end in a newline; offsets are bytes of it. Offsets and sequence numbers, of 64 bits, are taken
-- not to overflow. What serde_json writes and reads is the parameter
-- `Codec`, and the log is modelled for any type of events. A migration changes JSON through the
-- parameter `Json`, where a value that is no object keeps its version; its loop has fuel, of which the target's version is enough when versions rise.
-- The disk of a checkpoint is a parameter with the operations of the trait `CheckpointWriter`, and
-- `IsDurable` says what the code relies on: synced files and directories stay, and a rename is
-- atomic. A snapshot of the state is taken while an event may have been applied ahead of the log; the
-- crash theorem is about snapshots that hold just the events up to their sequence number. For
-- workers, reading the id of an item's JSON and `create_and_start_job` are parameters. The functions
-- on a worker are about the worker found under its name. Loading a runbook is the argument
-- `LoadedQueue` of the requests about queues.
--
-- A function of the runtime is a map from worlds to worlds with an answer, which is the returned
-- events or an error; `>>` is `result_events.extend(...?)`, `quietly` drops the events of a call, and
-- `best_effort` its error too. The record `Services` has what is not modelled: the adapters, `git` and
-- the file system (whether an effect succeeds after those that were executed), serde, the
-- substitution into templates, environment files, what the runbooks on disk come to for a worker,
-- the digest of a runbook, and the start of an agent. All events of one run are applied at one
-- reading of the clock. `AreFaithful` and `LeaveJobs` say what the properties rely on: spawn.rs
-- returns every event that it executes and does not touch the cancelling flag.
--
-- Not modelled: errors of file input and output in the log, and .bak files; the daemon's sockets and
-- its other requests; the start of a worker with its reconciliation; the creation of jobs, crons, the
-- monitor and the other handlers of the engine; adapters to tmux, agents and the desktop; the
-- runbook and shell parsers; the command line. These do I/O or are left to further modules.
pub mod Prelude
pub mod Core
pub mod Storage
pub mod Engine
pub mod Daemon
pub mod Runbook
pub mod Tests
