-- ===== src/Transitions/Control.antt =====
-- engine/persistence/transitions.py: `pause_workflow`, `resume_workflow` and
-- `request_workflow_cancellation`.
use durable_workflow_engine.Context.{opt_string}
use durable_workflow_engine.Json.{Json, object, bool, str}
use durable_workflow_engine.Store.{Execution, Task, AuditContext}
use durable_workflow_engine.Base.{
  Option, ℕ, String, ◌+◌, ◌-◌, Bool, ◌∷◌, [], if◌then◌else◌, none, true, some, is_some, ◌==◌, false,
  ◌&&◌, nat_eq, string_eq,
}
use durable_workflow_engine.Store.Tx.{
  Session, running_execution, Tx, ◌>>=◌, ◌>>◌, record_api_audit, append_event, update_tasks,
  update_execution, pure, kill_task, wake,
}

module _ (x : Session) where
  abbrev pub reason_only : Option String → Json
  reason_only reason = object (("reason", opt_string reason) ∷ [])

  abbrev pub duplicate : Option String → Json
  duplicate reason = object (("reason", opt_string reason) ∷ ("duplicate", bool true) ∷ [])

  -- The request is a repetition: nothing changes but the audit log.
  unfoldable pub repeated : ℕ → Option String → Option AuditContext → Tx Bool
  repeated w reason audit = do
    record_api_audit x audit (some w) false (duplicate reason)
    pure false

  unfoldable pub pause_running : ℕ → Execution → Option String → Option AuditContext → Tx Bool
  pause_running w e reason audit = do
    append_event x w e.next_seq "WorkflowExecutionPaused" none none (reason_only reason)
    update_execution w
        (λ d. record d { paused_at = some x.now; pause_reason = reason; next_seq = e.next_seq + 1 })
    record_api_audit x audit (some w) true (reason_only reason)
    pure true

  unfoldable pub pause_workflow : ℕ → Option String → Option AuditContext → Tx Bool
  unfolding running_execution pause_running repeated
  pause_workflow w reason audit = do
    e ← running_execution w
    if is_some e.paused_at then repeated w reason audit else pause_running w e reason audit

  -- `visible_at + (now() - paused_at)`; `now()` is not before a time that was stored.
  abbrev pub shifted : ℕ → ℕ → ℕ
  shifted paused_at t = t + (x.now - paused_at)

  abbrev pub shifted_option : ℕ → Option ℕ → Option ℕ
  shifted_option paused_at none = none
  shifted_option paused_at (some t) = some (shifted paused_at t)

  abbrev pub shift_task : ℕ → Task → Task
  shift_task paused_at t = record t {
    visible_at = shifted paused_at t.visible_at;
    schedule_to_start_deadline = shifted_option paused_at t.schedule_to_start_deadline;
  }

  unfoldable pub resume_paused : ℕ → Execution → ℕ → Option String → Option AuditContext → Tx Bool
  resume_paused w e paused_at reason audit = do
    update_tasks (λ t. t.workflow_id == w && t.status == "pending") (shift_task paused_at)
    append_event x w e.next_seq "WorkflowExecutionResumed" none none
        (object (("reason", opt_string reason) ∷ ("paused_at", str (x.time_text paused_at)) ∷ []))
    update_execution w
        (λ d. record d { paused_at = none; pause_reason = none; next_seq = e.next_seq + 1 })
    record_api_audit x audit (some w) true (reason_only reason)
    pure true

  unfoldable pub resume_workflow : ℕ → Option String → Option AuditContext → Tx Bool
  unfolding running_execution resume_paused repeated
  resume_workflow w reason audit = do
    e ← running_execution w
    elim e.paused_at [
      | none ↦ repeated w reason audit
      | some paused_at ↦ resume_paused w e paused_at reason audit
    ]

  unfoldable pub request_cancellation :
      ℕ → Execution → Option String → Option AuditContext → Tx Bool
  request_cancellation w e reason audit = do
    append_event x w e.next_seq "WorkflowCancellationRequested" none none (reason_only reason)
    update_execution w (λ d. record d {
      cancellation_requested_at = some x.now;
      cancellation_reason = reason;
      next_seq = e.next_seq + 1;
    })
    update_tasks (λ t. t.workflow_id == w && (t.task_type == "activity" && t.status == "pending"))
        (kill_task x)
    wake x w e.queue_name
    record_api_audit x audit (some w) true (reason_only reason)
    pure true

  unfoldable pub request_workflow_cancellation : ℕ → Option String → Option AuditContext → Tx Bool
  unfolding running_execution request_cancellation repeated
  request_workflow_cancellation w reason audit = do
    e ← running_execution w
    if is_some e.cancellation_requested_at
        then repeated w reason audit
        else request_cancellation w e reason audit
