-- ===== src/Transitions/Closing.antt =====
-- engine/persistence/transitions.py: how an execution is closed: `_cancel_pending_timers`,
-- `_reject_pending_updates`, `_terminate_descendants`, `_notify_parent_of_child_terminal` and
-- `terminate_workflow`.
use durable_workflow_engine.Transitions.Control.{reason_only, repeated}
use durable_workflow_engine.Base.Dict.{lookup, insert}
use durable_workflow_engine.Json.{object, str, Json}
use durable_workflow_engine.Store.{Task, Execution, order_by, rows_where, same_option, AuditContext}
use durable_workflow_engine.Store.Tx.{
  Session, Tx, Void, ◌>>=◌, pure, encode, update_tasks, ◌>>◌, append_event, ask, is_outstanding,
  update_updates, kill_task, update_execution, raise, fetch_execution, recursion_error, clone,
  require, wake, record_api_audit, no_workflow, guard, terminal_workflow, for_each,
}
use durable_workflow_engine.Base.{
  Option, ℕ, String, some, Bool, List, none, ltb, ok, ◌||◌, ◌==◌, ◌&&◌, ◌∷◌, not, nat_eq, [],
  string_eq, if◌then◌else◌, ◌+◌, suc, true, zero,
}

abbrev pub or_zero : Option ℕ → ℕ
or_zero none = 0
or_zero (some n) = n

-- `order by command_id, id`; a timer has a command.
abbrev pub timer_before : ℕ × Task → ℕ × Task → Bool
timer_before (i, a) (j, b) =
    ltb (or_zero a.command_id) (or_zero b.command_id)
    || (or_zero a.command_id == or_zero b.command_id && ltb i j)

-- `order by created_at, id`.
abbrev pub older : ℕ × Execution → ℕ × Execution → Bool
older (i, a) (j, b) = ltb a.created_at b.created_at || (a.created_at == b.created_at && ltb i j)

unfoldable pub pending_timers : ℕ → Tx (List (ℕ × Task))
pending_timers w s = ok (
  order_by timer_before (
      rows_where (λ i t. t.workflow_id == w && (t.task_type == "timer" && t.status == "pending"))
        s.tasks),
  s,
)

-- `where parent_workflow_id = $1 and parent_close_policy = 'terminate' and status = 'running'`.
abbrev pub is_running_child : ℕ → ℕ → Execution → Bool
is_running_child w i e =
    same_option e.parent_workflow_id w
    && (same_option e.parent_close_policy "terminate" && e.status == "running")

unfoldable pub running_children : ℕ → Tx (List (ℕ × Execution))
running_children w s = ok (order_by older (rows_where (is_running_child w) s.executions), s)

unfoldable pub put_task : ℕ → Task → Tx Void
put_task i t s = ok (tt, record s { tasks = insert i t s.tasks })

module _ (x : Session) where
  unfoldable pub cancel_timers : ℕ → String → List (ℕ × Task) → ℕ → Tx ℕ
  cancel_timers w reason [] seq = pure seq
  cancel_timers w reason ((i, t) ∷ rest) seq = do
    s ← ask
    elim (lookup i s.tasks) [
      | none ↦ cancel_timers w reason rest seq
      | some row ↦
          if row.status == "pending"
          then (do
            put_task i (kill_task x row)
            append_event x w seq "TimerCanceled" none t.entity_id
                (object (("reason", str reason) ∷ []))
            cancel_timers w reason rest (seq + 1))
          else cancel_timers w reason rest seq
    ]

  unfoldable pub cancel_pending_timers : ℕ → ℕ → String → Tx ℕ
  unfolding pending_timers cancel_timers
  cancel_pending_timers w seq reason = do
    timers ← pending_timers w
    cancel_timers w reason timers seq

  unfoldable pub reject_pending_updates : ℕ → String → Tx Void
  reject_pending_updates w reason = do
    failure ← encode x (object (("type", str "WorkflowClosed") ∷ ("message", str reason) ∷ []))
    update_updates (λ u. u.workflow_id == w && u.status == "pending")
        (λ u. record u { status = "rejected"; failure = some failure; completed_at = some x.now })

  -- The outstanding tasks of an execution, but the one of the transition.
  unfoldable pub kill_tasks : ℕ → Option ℕ → Tx Void
  kill_tasks w current =
      update_tasks (λ t. t.workflow_id == w && (not (same_option current t.id) && is_outstanding t))
        (kill_task x)

  -- A descendant whose own descendants are terminated.
  unfoldable pub terminate_child : ℕ → Execution → Tx Void
  unfolding kill_tasks reject_pending_updates
  terminate_child w e = do
    append_event x w e.next_seq "WorkflowExecutionTerminated" none none (
        object
          (("reason", str "parent workflow closed") ∷ ("cause", str "parent_close_policy") ∷ []))
    failure ← encode x (object (("reason", str "parent workflow closed") ∷ []))
    update_execution w (λ d. record d {
      status = "terminated";
      next_seq = e.next_seq + 1;
      closed_at = some x.now;
      failure = some failure;
    })
    kill_tasks w none
    reject_pending_updates w "parent workflow closed"

  -- The depth counts down Python's nested calls.
  unfoldable pub terminate_descendants : ℕ → ℕ → Tx Void
  unfolding running_children terminate_child for_each
  terminate_descendants zero w = raise recursion_error
  terminate_descendants (suc depth) w =
      running_children w
      >>= for_each (λ r. terminate_descendants depth r.0 >> terminate_child r.0 r.1)

  unfoldable pub notify_running_parent : ℕ → ℕ → Execution → String → Json → Tx Void
  notify_running_parent child w parent status payload = do
    cloned ← clone x payload
    append_event x w parent.next_seq
        (if status == "completed"
          then "ChildWorkflowCompleted"
          else if status == "failed"
          then "ChildWorkflowFailed"
          else "ChildWorkflowTerminated")
        none (some child)
        (object ((if status == "completed" then "result" else "failure", cloned) ∷ []))
    update_execution w (λ d. record d { next_seq = parent.next_seq + 1 })
    wake x w parent.queue_name

  unfoldable pub notify_found : ℕ → ℕ → (status : String) → Json → Option Execution → Tx Void
  unfolding notify_running_parent
  notify_found child w status payload none = pure tt
  notify_found child w status payload (some parent) =
      if parent.status == "running"
      then notify_running_parent child w parent status payload
      else pure tt

  unfoldable pub notify_parent_of_child_terminal : ℕ → Option ℕ → (status : String) → Json → Tx Void
  unfolding notify_found fetch_execution
  notify_parent_of_child_terminal child none status payload = pure tt
  notify_parent_of_child_terminal child (some w) status payload =
      fetch_execution w >>= notify_found child w status payload

  unfoldable pub terminate_running : ℕ → Execution → Option String → Option AuditContext → Tx Bool
  unfolding kill_tasks reject_pending_updates cancel_pending_timers terminate_descendants
      notify_parent_of_child_terminal
  terminate_running w e reason audit = do
    terminate_descendants x.recursion_limit w
    reject_pending_updates w "workflow terminated"
    seq ← cancel_pending_timers w e.next_seq "workflow terminated"
    append_event x w seq "WorkflowExecutionTerminated" none none (reason_only x reason)
    update_execution w
        (λ d. record d { status = "terminated"; next_seq = seq + 1; closed_at = some x.now })
    kill_tasks w none
    notify_parent_of_child_terminal w e.parent_workflow_id "terminated" (reason_only x reason)
    record_api_audit x audit (some w) true (reason_only x reason)
    pure true

  unfoldable pub terminate_workflow : ℕ → Option String → Option AuditContext → Tx Bool
  unfolding terminate_running fetch_execution
  terminate_workflow w reason audit = do
    found ← fetch_execution w
    e ← require found (no_workflow w)
    if e.status == "terminated" then repeated x w reason audit else do
      guard (e.status == "running") (terminal_workflow w e.status)
      terminate_running w e reason audit
