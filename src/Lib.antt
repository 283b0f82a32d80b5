-- ===== src/Lib.antt =====
-- pioneer-square: a backend whose foreman, a language model, hands tasks to worker processes.
--
-- The parts and how they meet. A task is a row of a table that the foreman's tools, the workers'
-- messages, the webhooks and the closing of an issue all change. Whoever runs a task holds the lock
-- `task:<id>` of the key-value lock table. Finalizing a task ends it: it sets the outcome, releases
-- the lock, removes the queued events and tells the guild. Workers are containers that are spawned
-- with resolved settings and reaped when idle. The foreman's conversation is a list of messages that
-- is cut to a budget before each call of the model.
--
-- Which file models what:
-- - Locks (backend/lock_service.py): the table is a list of `Lock` rows; `acquire`, `release`,
--   `is_locked`, the cleanup are functions of the table and of the instant that the source takes
--   from the clock. The unique index is the failing case of `insert`. Locks/Unique, Exclusion and
--   Ending hold the proofs.
-- - Tasks (backend/task_lifecycle.py, and of backend/models.py the task table with its helpers):
--   Tasks/Descendants is the recursive query and the cascade, Tasks/Finalize is `finalize_task`,
--   split into its SELECT and what follows so that calls interleave, Tasks/ClosedIssue is
--   `finalize_closed_issue`. The children of these modules hold the proofs.
-- - History (backend/foreman/message_utils.py): the repair of orphaned tool calls, the pruning and
--   the token budget over messages as lists of blocks.
-- - SpawnConfig (backend/spawn_config.py): layers, their merging, the stored rows, the resolution.
-- - Workers (backend/worker_lifecycle.py): Workers/Reaper is the idle pass, Workers/ForceKill the
--   wait before a force-kill, Workers/Spawning the ids, the spawn record, the cooldown, the guild's
--   defaults and the signal to a worker of another version.
-- - Reports (backend/ws_handlers.py with backend/ws_types.py): the five handlers of the workers'
--   task and agent reports as functions of the task, agent, lock and event tables; Reports/Update is
--   `handle_task_update`, Reports/Finish `handle_task_complete` and `handle_task_followup_done`.
--   `Terminal.handle_all` runs a sequence of reports.
-- - Proxy (backend/foreman/proxy.py): the requests that wait for a foreman proxy, as a list of awaited
--   calls with their futures; `Waiting.Step` is one event of the loop, `First.arrive` one that reaches
--   the requests from outside.
-- - Runner (backend/foreman/runner.py): the run lock with the queue of one (guild, user) key as a `Slot`,
--   an invocation and the return of a run as its two events; Runner/Fifo is the queue with one server
--   that it implements, Runner/Queue the bounded queue, Runner/Drain the way it empties. Runner/Poll is
--   the registry of a guild's poll loops, Poll/Backoff their intervals.
-- - ModelTiers (backend/util/model_tiers.py): the tier of a task and the model of a tier.
-- - Tools (backend/foreman/tools.py): the foreman's tools over one `Store` of tables, with the replies
--   as constructors. Tools/Capacity is the choice of a worker, Tools/Choice that of tool, model and
--   repositories; Tools/Assign is `_handle_assign_task`, the checks in a `Plan` and the part under the
--   lock in Assign/Writes, with a `Fault` for an exception that comes from outside; Tools/Followup is `_handle_send_followup`; Tools/Orders the tools that
--   create, redirect, cancel, finalize and shut down. The clients' interleavings are Locks' operations.
-- - Conversations (backend/foreman/conversation_service.py, conversation_maintenance.py): the
--   conversations of a guild's users on a `Board` of rows and of notices to the frontend; each function
--   of the service, with the name that a message gives in Conversations/Names, and the sweep that
--   archives and closes in Conversations/Sweep. `now` stands for the instants of one sweep.
-- - Events (backend/events.py): `broadcast` to the sockets of a guild, and `emit_terminal_line`. The
--   sockets whose send raises are a test; the serialised message is an argument.
-- - Shared holds the list functions that stand for SQL statements (`filter` for DELETE, `update` for
--   UPDATE, `find?` for a SELECT of one row, `count` for a row count), Python's dict, and their laws.
--
-- Conventions. A database is a record of tables, a table a list of rows in the order of their ids or
-- of their insertion; a transaction is a function of the record. Instants are numbers of microseconds,
-- and `now - duration` is compared by moving the duration to the other side. An optional column is an
-- `Option`, and SQL's comparison with NULL is `sql_eq`. An exception is an `Option` or a test that
-- the theorem quantifies over.
--
-- Bounds and fuel. The recursive query of descendants is cut at 20 levels by the source, and the
-- model cuts it at the same number. The wait before a force-kill recurs on the number of polls: two
-- more than the whole intervals of the timeout, which is enough, however late the sleeps end, because
-- each sleep adds an interval or reaches the timeout. All other loops are over lists.
--
-- Not modelled: the loop that sleeps between two idle passes, the git call that yields the version,
-- JSON decoding and the parser of links to pull requests (parameters), the other socket handlers, the
-- run of a foreman turn itself, its cancellation and the sweeps of a poll cycle, the sockets that join
-- or leave during a broadcast, the tools that only call GitHub, Discord
-- or DNS, the call that finds the conversation of a new task (an argument of Tools), the logging, the HTTP routes, the calls of language models, of the container runtime and of Discord, the
-- worker process, the process on the other side of the proxy, the command line, the migrations and the
-- frontend.
pub mod Shared
pub mod Locks
pub mod Tasks
pub mod History
pub mod SpawnConfig
pub mod Workers
pub mod Reports
pub mod Proxy
pub mod Runner
pub mod ModelTiers
pub mod Tools
pub mod Conversations
pub mod Events
