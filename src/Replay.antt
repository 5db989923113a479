-- ===== src/Replay.antt =====
-- engine/runtime/replay.py. Workflow code is not part of the program: it is any tree of calls of the
-- context, where what follows a call depends on its answer, or on the `Exception` that it raises;
-- `reraise` stands for code that does not catch it.
use durable_workflow_engine.Context.Marker.{now, random, uuid}
use durable_workflow_engine.Context.Signal.{wait_signal}
use durable_workflow_engine.Context.Timer.{sleep}
use durable_workflow_engine.Context.Child.{child_workflow, evaluate_child_workflow}
use durable_workflow_engine.Base.Int.{ℤ}
use durable_workflow_engine.Context.Continue.{continue_as_new}
use durable_workflow_engine.Commands.{Command}
use durable_workflow_engine.Context.Update.{WorkflowUpdate, wait_update, resolve_update}
use durable_workflow_engine.Platform.{Platform, Datetime, clone_json, value_of, serialization_error}
use durable_workflow_engine.History.{
  InvalidHistory, HistoryIndex, HistoryEvent, first_unvisited_command, index_history,
}
use durable_workflow_engine.Base.{
  List, String, Bool, ℕ, Option, Result, true, ok, false, some, err, none, is_some,
}
use durable_workflow_engine.Context.{
  M, Raised, ◌>>=◌, returned, serialized, pure, Detail, raised, Outcome, new_commands, user_error,
  WorkflowContext, continue_as_new_recorded, new_context, blocked, unvisited_without_id, unvisited,
  non_determinism,
}
use durable_workflow_engine.Json.{Json, obj, field, str, end}
use durable_workflow_engine.Context.Activity.{ActivityCall, evaluate_activity, gather}

-- The calls of engine/sdk/context.py that workflow code makes.
pub data Call : Type 0 where
  activity : ActivityCall → Call
  gather_all : List ActivityCall → Call
  child :
      (name : String) (version : ℕ) (input : Json) (queue_name : Option String) (close : String)
      → Call
  continue_to : (name : String) (version : ℕ) (input : Json) (queue_name : Option String) → Call
  sleep_for : ℤ → Call
  signal : String → Option ℤ → Call
  update : String → Call
  resolution : WorkflowUpdate → Json → Bool → Call
  time random_number random_uuid cancellation_requested : Call

pub data Answer : Type 0 where
  json : Json → Answer
  jsons : List Json → Answer
  request : WorkflowUpdate → Answer
  datetime : Datetime → Answer
  number : ℕ → Answer
  flag : Bool → Answer
  nothing : Answer

pub data Workflow : Type 0 where
  finish : Json → Workflow
  fail : (type message : String) → Workflow
  reraise : Raised → Workflow
  call : Call → (Answer → Workflow) → (Raised → Workflow) → Workflow

abbrev pub answer : {A : Type 0} → (A → Answer) → M A → M Answer
answer f m = m >>= λ a. pure (f a)

-- A suspension is a `BaseException`, which `except Exception` does not catch.
unfoldable pub is_suspension : Raised → Bool
is_suspension (new_commands cs) = true
is_suspension blocked = true
is_suspension (continue_as_new_recorded w) = true
is_suspension _ = false

-- `failed` holds the exception whose type and message the source records.
pub data ReplayResult : Type 0 where
  commands : List Command → ReplayResult
  is_blocked : ReplayResult
  completed : Json → ReplayResult
  failed : Raised → ReplayResult

-- What `replay_workflow` raises.
pub data ReplayError : Type 0 where
  invalid_history : InvalidHistory → ReplayError
  diverged : ℕ → Detail → ReplayError
  not_serializable : ReplayError

module _ (p : Platform) where
  unfoldable pub perform : Call → M Answer
  perform (activity a) = answer json (evaluate_activity p a)
  perform (gather_all calls) = answer jsons (gather p calls)
  perform (child n v i q k) =
      answer json (child_workflow p n v i q k >>= λ c. evaluate_child_workflow p c)
  perform (continue_to n v i q) = answer (λ _. nothing) (continue_as_new p n v i q)
  perform (sleep_for d) = answer (λ _. nothing) (sleep p d)
  perform (signal n t) = answer json (wait_signal p n t)
  perform (update n) = answer request (wait_update p n)
  perform (resolution u o a) = answer (λ _. nothing) (resolve_update p u o a)
  perform time = answer datetime (now p)
  perform random_number = answer number (random p)
  perform random_uuid = answer number (uuid p)
  perform cancellation_requested =
      λ c. (returned (flag (is_some c.history.cancellation_requested)), c)

  -- The body of the workflow function under the `try` of `replay_workflow`.
  unfoldable pub run : Workflow → M Json
  run (finish v) c = (returned v, c)
  run (fail t m) c = (raised (user_error t m), c)
  run (reraise e) c = (raised e, c)
  run (call k next handle) c =
      let (outcome, c') = perform k c in
      elim outcome [
        | returned a ↦ run (next a) c'
        | raised e ↦ elim (is_suspension e) [ true ↦ (raised e, c') | false ↦ run (handle e) c' ]
      ]

  -- What follows a function that returned.
  unfoldable pub check_visited : HistoryIndex → ℕ → Json → Result ReplayError ReplayResult
  check_visited x next v = elim (first_unvisited_command x next) [
    | some u ↦ elim u.command_id [
      | none ↦ err (diverged 0 unvisited_without_id)
      | some n ↦ err (diverged n (unvisited u.event_type))
    ]
    | none ↦ elim (clone_json p v) [
      | value_of w ↦ ok (completed w)
      | serialization_error ↦ err not_serializable
    ]
  ]

  -- The `except` clauses, in their order.
  unfoldable pub settle :
      HistoryIndex → Outcome Json × WorkflowContext → Result ReplayError ReplayResult
  unfolding check_visited
  settle x (returned v, c) = check_visited x c.next_command_id v
  settle x (raised (new_commands cs), c) = ok (commands cs)
  settle x (raised blocked, c) = ok is_blocked
  settle x (raised (continue_as_new_recorded w), c) =
      ok (completed (obj (field "continued_to" (str (p.uuid_text w)) end)))
  settle x (raised (non_determinism n d), c) = err (diverged n d)
  settle x (raised e, c) = ok (failed e)

  -- The call of the workflow function on the detached input.
  unfoldable pub run_function : (Json → Workflow) → Json → M Json
  run_function function input = serialized (clone_json p input) >>= λ v. run (function v)

  unfoldable pub replay_workflow :
      (Json → Workflow) → ℕ → Json → List HistoryEvent → Result ReplayError ReplayResult
  unfolding run_function
  replay_workflow function workflow_id workflow_input history = elim (index_history history) [
    | err e ↦ err (invalid_history e)
    | ok x ↦ settle x (run_function function workflow_input (new_context workflow_id x))
  ]
