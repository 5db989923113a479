-- ===== src/Lib.antt =====
-- Durable workflow engine: deterministic replay.
--
-- An execution is a list of committed events. A worker replays the workflow function from its start
-- against these events: each call of the context takes the next command identity, looks for the event
-- that recorded this command, and either answers from the history, or emits the command, or waits.
-- Correctness of the engine rests on replay at a longer history doing again what it did before.
--
--   Base, Base/*       options, lists, Boolean tests, integers, results, dictionaries
--   Json, Platform     engine/runtime/serialization.py: JSON values, canonical_json, fingerprint,
--                      clone_json; json, hashlib, uuid and datetime are the parameter `Platform`
--   Policies           engine/sdk/policies.py: RetryPolicy
--   Commands           engine/runtime/commands.py
--   History            engine/runtime/history.py: HistoryEvent, HistoryIndex.__init__ (index_history,
--                      one function per block of tests), first_unvisited_command
--   History/*          what an accepted event does (Effects), longer histories (Extension), numbering
--                      and ends (Order), the dictionary of commands (Commands), the check for unvisited
--                      commands (Unvisited)
--   Context            engine/sdk/context.py: WorkflowContext as a state monad; Outcome is a result or
--                      what is raised, suspensions included
--   Context/*          _evaluate_activity and gather (Activity), sleep (Timer), wait_signal (Signal),
--                      wait_update and resolve_update (Update), markers (Marker), children (Child),
--                      continue_as_new (Continue)
--   Replay             engine/runtime/replay.py: replay_workflow, for any workflow code
--   Determinism/*      replay at a history and at a longer one, for each operation and for whole code;
--                      Hazards: code that the engine accepts and that does not replay
--   Debugger/*         engine/runtime/replay_debugger.py: frames of a history (Frames,
--                      Balance) and comparison of histories (Comparison)
--   Definitions, Definitions/Pinned   engine/runtime/definitions.py: DefinitionRegistry
--   Leasing, Leasing/Fencing   engine/persistence/leasing.py: lease_task, renew_lease,
--                      heartbeat_activity, release_workflow_task and (Leasing/Reclaim)
--                      reclaim_expired_workflow_tasks over the tables tasks,
--                      workflow_executions and history_events
--   Store              migrations/*.sql: the rows of the tables, the unique indexes of history_events,
--                      and the statements; Store/Tx is a transaction, a state monad whose errors roll
--                      back, with record_api_audit of engine/persistence/audit.py; Store/Rows the rows
--                      that a query gives
--   Transitions/*      engine/persistence/transitions.py: Start (register_workflow_definition,
--                      start_workflow, retry_workflow, update_search_attributes), Control (pause, resume,
--                      request_workflow_cancellation), Closing (terminate_workflow,
--                      _terminate_descendants, _cancel_pending_timers, _reject_pending_updates,
--                      _notify_parent_of_child_terminal), Append (_append_*), Commit
--                      (commit_workflow_replay, _commit_continue_as_new), Activities
--                      (complete_activity, retry_delay, fail_activity), Load
--                      (load_workflow_replay_state); Signals, Updates, Timers and
--                      Timeouts: engine/persistence/signals.py, updates.py, timers.py, timeouts.py
--   Sequence, Sequence/*   event numbers against next_seq: the invariant; reasoning about transactions
--                      (Triples, Stages, Whole, Rules); each
--                      transition (Requests, Origins, Starts, Closing, Ends, Appends, Attributes,
--                      Commits, Tasks, Leases); all of them as steps (Steps); what is
--                      received twice (Delivery, Shadows), the history that is loaded
--                      (Loading), and the place of a new event (Progress)
--   Examples           the theorems at concrete histories
--
-- Workflow code is not part of the engine: `Workflow` is any tree of calls of the context whose
-- branches depend on the answers and on what is raised. A suspension always ends it: code that calls the
-- context in a `finally` block or under `except BaseException` is not such a tree. Loops follow the structure of the events, of
-- the calls or of the code, so no fuel is needed. UUIDs, command identities and sequence numbers are
-- natural numbers; floats are their IEEE 754 bit patterns. An activity call object has an identity,
-- since awaiting one object twice uses one command. Times are microseconds, a lease is taken in
-- one step, and the rows that other transactions hold are a parameter.
--
-- A transaction that raises leaves the tables as they were. A JSON text that PostgreSQL refuses as jsonb
-- (the parameter accepts_jsonb) is refused where it is made; that a text column refuses U+0000 is not in
-- the model. retry_workflow reads the execution on one connection and starts on another; here it is one
-- transaction, and with others in between it is the start of the request that was read. Of the constraints of the tables the
-- primary keys and the unique indexes of history_events are in the model; violating another one only
-- rolls back. The depth of _terminate_descendants is Python's recursion limit, beyond which it raises
-- RecursionError. What the transitions use of PostgreSQL's clock, of uuid4 and of floats are the
-- parameters `Session` and `Floats`.
--
-- Not modelled: the text of error messages beyond what they name, logging, the read-only queries
-- (get_update, list_updates, list_api_audit, engine/persistence/queries.py), schedules and cron, HTTP,
-- processes and configuration.
pub mod Base
pub mod Json
pub mod Platform
pub mod Policies
pub mod Commands
pub mod History
pub mod Context
pub mod Replay
pub mod Determinism
pub mod Debugger
pub mod Definitions
pub mod Store
pub mod Transitions
pub mod Sequence
pub mod Leasing
pub mod Examples
