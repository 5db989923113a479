-- ===== src/Transitions/Commit.antt =====
-- engine/persistence/transitions.py: `_commit_continue_as_new` and `commit_workflow_replay`.
use durable_workflow_engine.Base.Int.{pos}
use durable_workflow_engine.Replay.{ReplayResult, commands, completed, failed, is_blocked}
use durable_workflow_engine.Leasing.{row_where, holds_lease, is_token, write_task}
use durable_workflow_engine.Json.{Json, object, as_obj, str, put, int, obj}
use durable_workflow_engine.Commands.{
  continue_as_new, Command, schedule_activity, schedule_timer, record_marker, start_child_workflow,
  resolve_workflow_update,
}
use durable_workflow_engine.Transitions.Start.{require_definition, insert_workflow, new_execution}
use durable_workflow_engine.Context.{Raised, opt_string}
use durable_workflow_engine.Transitions.Closing.{
  terminate_descendants, cancel_pending_timers, reject_pending_updates, kill_tasks,
  notify_parent_of_child_terminal,
}
use durable_workflow_engine.Transitions.Append.{
  append_activity_command, append_timer_command, append_marker_command,
  append_child_workflow_command, append_update_resolution, id_str, or_else,
}
use durable_workflow_engine.Store.{Task, Execution}
use durable_workflow_engine.Store.Tx.{
  Session, Tx, fetch_execution, running_execution, Void, pure, raise, transition_error, ◌>>=◌, ◌>>◌,
  require, append_event, guard, no_workflow, value_error, stale_lease, encode, complete_task,
  type_error, update_execution, when, wake,
}
use durable_workflow_engine.Base.{
  ℕ, String, List, Option, Bool, ok, false, ◌==◌, ◌∷◌, ◌&&◌, ◌+◌, if◌then◌else◌, ◌||◌, none,
  is_some, err, is_none, [], true, some, string_eq,
}

unfoldable pub fetch_leased : ℕ → ℕ → ℕ → Tx (Option Task)
fetch_leased now id token s = ok (row_where id (holds_lease now token) s, s)

-- `update tasks set … where id = $1 and status = 'leased' and lease_token = $2`.
unfoldable pub finish_task : (id token : ℕ) → (Task → Task) → Tx Void
finish_task id token change s =
    elim (row_where id (λ t. t.status == "leased" && is_token t.lease_token token) s) [
      | none ↦ err (stale_lease id)
      | some t ↦ ok (tt, write_task id (change t) s)
    ]

abbrev pub has_continuation : List Command → Bool
has_continuation [] = false
has_continuation (continue_as_new c u t v i q f ∷ cs) = true
has_continuation (_ ∷ cs) = has_continuation cs

module _ (x : Session) where
  unfoldable pub commit_continue_as_new :
      (w current seq command_id target : ℕ) (workflow_type : String) (version : ℕ) (input : Json)
      (queue_name : Option String) (fingerprint : String)
      → Tx Void
  unfolding fetch_execution require_definition insert_workflow kill_tasks reject_pending_updates
  commit_continue_as_new w current seq c target workflow_type version input queue_name f = do
    found ← fetch_execution w
    e ← require found (no_workflow w)
    guard (e.workflow_type == workflow_type)
        (transition_error "continue-as-new must retain the workflow type")
    guard (is_none e.parent_workflow_id)
        (transition_error "continue-as-new is not supported inside child workflows")
    require_definition workflow_type version
    attributes ←
        require (as_obj (x.platform.loads e.search_attributes))
          (type_error "stored search attributes must be a JSON object")
    let continued = put "dwe.continued_from" (id_str x w) attributes
    let queue = or_else queue_name e.queue_name
    let result = object (("continued_to", id_str x target) ∷ [])
    append_event x w seq "WorkflowExecutionContinuedAsNew" (some c) (some target) (
        object (
          ("workflow_type", str workflow_type)
          ∷ ("definition_version", int (pos version))
          ∷ ("input", input)
          ∷ ("queue_name", str queue)
          ∷ ("fingerprint", str f)
          ∷ []))
    append_event x w (seq + 1) "WorkflowExecutionCompleted" none none
        (object (("result", result) ∷ ("cause", str "continue_as_new") ∷ []))
    encoded_input ← encode x input
    encoded_attributes ← encode x (obj continued)
    started ← encode x (
        object (
          ("workflow_type", str workflow_type)
          ∷ ("definition_version", int (pos version))
          ∷ ("input", input)
          ∷ ("search_attributes", obj continued)
          ∷ ("started_at", str (x.time_text x.clock))
          ∷ ("continued_from", id_str x w)
          ∷ []))
    insert_workflow x target
        (record (new_execution x workflow_type version encoded_input queue encoded_attributes) {
          continued_from = some w;
          schedule_id = e.schedule_id;
          scheduled_at = e.scheduled_at;
        })
        started
    encoded_result ← encode x result
    update_execution w (λ d. record d {
      status = "completed";
      result = some encoded_result;
      next_seq = seq + 2;
      closed_at = some x.now;
      continued_to = some target;
    })
    reject_pending_updates x w "workflow continued as new"
    kill_tasks x w (some current)

  -- One command that is not a continuation; the result tells whether the workflow has to be woken.
  unfoldable pub append_command : ℕ → String → ℕ → Command → Tx Bool
  unfolding append_activity_command append_timer_command append_marker_command
      append_child_workflow_command append_update_resolution
  append_command w queue seq (schedule_activity c u t i q a b h f) =
      append_activity_command x w seq c u t i q a b h f queue >> pure false
  append_command w queue seq (schedule_timer c u d purpose signal_name f) =
      append_timer_command x w seq c u d purpose signal_name f queue >> pure false
  append_command w queue seq (record_marker c t v f) =
      append_marker_command x w seq c t v f >> pure true
  append_command w queue seq (start_child_workflow c u t v i q k f) =
      append_child_workflow_command x w seq c u t v i q k f queue >> pure false
  append_command w queue seq (resolve_workflow_update c id accepted outcome f) =
      append_update_resolution x w seq c id accepted outcome f >> pure true
  append_command w queue seq (continue_as_new c u t v i q f) = pure false

  -- The loop over the commands: the next number, and whether the workflow has to be woken.
  unfoldable pub append_commands : ℕ → String → ℕ → Bool → List Command → Tx (ℕ × Bool)
  unfolding append_command
  append_commands w queue seq recorded [] = pure (seq, recorded)
  append_commands w queue seq recorded (c ∷ cs) = do
    woken ← append_command w queue seq c
    append_commands w queue (seq + 1) (recorded || woken) cs

  unfoldable pub commit_commands : ℕ → Task → Execution → List Command → Tx Void
  unfolding append_commands commit_continue_as_new terminate_descendants
  commit_commands id locked e [] =
      raise (transition_error "commands replay result contains no commands")
  commit_commands id locked e (continue_as_new c u t v i q f ∷ []) = do
    terminate_descendants x x.recursion_limit locked.workflow_id
    commit_continue_as_new locked.workflow_id id e.next_seq c u t v i q f
  commit_commands id locked e (c ∷ cs) =
      if has_continuation (c ∷ cs)
      then raise (transition_error "continue-as-new must be the only emitted command")
      else do
        done ← append_commands locked.workflow_id locked.queue_name e.next_seq false (c ∷ cs)
        when done.1 (wake x locked.workflow_id locked.queue_name)
        update_execution locked.workflow_id (λ d. record d { next_seq = done.0 })

  -- A cancelled workflow that waits, or wants more, is terminated.
  unfoldable pub commit_cancellation : ℕ → ℕ → Execution → Tx Void
  unfolding cancel_pending_timers terminate_descendants reject_pending_updates kill_tasks
      notify_parent_of_child_terminal
  commit_cancellation id w e = do
    seq ← cancel_pending_timers x w e.next_seq "workflow cancellation requested"
    terminate_descendants x x.recursion_limit w
    reject_pending_updates x w "workflow cancelled"
    append_event x w seq "WorkflowExecutionTerminated" none none
        (object (("reason", opt_string e.cancellation_reason) ∷ ("cause", str "cancellation") ∷ []))
    update_execution w
        (λ d. record d { status = "terminated"; next_seq = seq + 1; closed_at = some x.now })
    kill_tasks x w (some id)
    notify_parent_of_child_terminal x w e.parent_workflow_id "terminated"
        (object (("reason", opt_string e.cancellation_reason) ∷ []))

  -- A workflow that has returned or failed.
  unfoldable pub commit_closed : ℕ → ℕ → Execution → (completed : Bool) → Json → Tx Void
  unfolding cancel_pending_timers terminate_descendants reject_pending_updates kill_tasks
      notify_parent_of_child_terminal
  commit_closed id w e done payload = do
    terminate_descendants x x.recursion_limit w
    reject_pending_updates x w "workflow closed"
    seq ← cancel_pending_timers x w e.next_seq "workflow closed"
    append_event x w seq (if done then "WorkflowExecutionCompleted" else "WorkflowExecutionFailed")
        none none (object ((if done then "result" else "failure", payload) ∷ []))
    text ← encode x payload
    update_execution w (λ d. record d {
      status = if done then "completed" else "failed";
      result = if done then some text else none;
      failure = if done then none else some text;
      next_seq = seq + 1;
      closed_at = some x.now;
    })
    kill_tasks x w (some id)
    notify_parent_of_child_terminal x w e.parent_workflow_id
        (if done then "completed" else "failed") payload

  -- `failure_of` is `{"type": type(error).__name__, "message": str(error)}`.
  unfoldable pub commit_result :
      (failure_of : Raised → Json) → ℕ → Task → Execution → ReplayResult → Tx Void
  unfolding commit_commands commit_cancellation commit_closed
  commit_result failure_of id locked e (commands cs) =
      if is_some e.cancellation_requested_at
      then commit_cancellation id locked.workflow_id e
      else commit_commands id locked e cs
  commit_result failure_of id locked e is_blocked =
      if is_some e.cancellation_requested_at
      then commit_cancellation id locked.workflow_id e
      else pure tt
  commit_result failure_of id locked e (completed v) = commit_closed id locked.workflow_id e true v
  commit_result failure_of id locked e (failed r) =
      commit_closed id locked.workflow_id e false (failure_of r)

  -- `task_type`, `id`, `workflow_id` and `lease_token` are those of the leased task.
  unfoldable pub commit_workflow_replay :
      (failure_of : Raised → Json)
      → (task_type : String) → (id w token : ℕ) → ReplayResult
      → Tx Void
  unfolding fetch_leased running_execution commit_result finish_task
  commit_workflow_replay failure_of task_type id w token replay = do
    guard (task_type == "workflow") (value_error "only a workflow task can commit workflow replay")
    found ← fetch_leased x.now id token
    locked ← require found (stale_lease id)
    e ← running_execution w
    commit_result failure_of id (record locked { workflow_id = w }) e replay
    finish_task id token (complete_task x)
