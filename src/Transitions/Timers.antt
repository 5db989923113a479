-- ===== src/Transitions/Timers.antt =====
-- engine/persistence/timers.py: `fire_due_timer`.
use durable_workflow_engine.Base.Dict.{lookup}
use durable_workflow_engine.Json.{object, str}
use durable_workflow_engine.Transitions.Closing.{put_task}
use durable_workflow_engine.Store.Tx.{
  Session, fetch_execution, Tx, ◌>>=◌, ◌>>◌, append_event, pure, complete_task, wake,
  update_execution,
}
use durable_workflow_engine.Store.{Store, Task, Execution, first_where, order_by, rows_where}
use durable_workflow_engine.Base.{
  ℕ, Option, String, Bool, some, ltb, true, ◌==◌, none, ◌||◌, ◌&&◌, ok, string_eq, leb, nat_eq, not,
  false, if◌then◌else◌, is_none, ◌∷◌, [], ◌+◌,
}

-- `order by t.visible_at, t.id`.
abbrev pub due_before : ℕ × Task → ℕ × Task → Bool
due_before (i, a) (j, b) =
    ltb a.visible_at b.visible_at || (a.visible_at == b.visible_at && ltb i j)

abbrev pub in_queue : Option String → Task → Bool
in_queue none t = true
in_queue (some queue) t = t.queue_name == queue

-- A pending timer whose time has come, of an execution that runs, is not paused and not cancelled.
unfoldable pub is_due : Store → (ℕ → Bool) → ℕ → Option String → ℕ → Task → Bool
is_due s locked due queue_name i t =
    t.task_type == "timer"
    && (t.status == "pending"
        && (leb t.visible_at due
            && (in_queue queue_name t
                && (not (locked i) && (elim (lookup t.workflow_id s.executions) [
                  | none ↦ false
                  | some e ↦
                      e.status == "running"
                      && (is_none e.paused_at && is_none e.cancellation_requested_at)
                ])))))

unfoldable pub due_timer : (ℕ → Bool) → ℕ → Option String → Tx (Option (ℕ × Task))
unfolding is_due
due_timer locked due queue_name s = ok (
  first_where (λ r. true)
      (order_by due_before (rows_where (is_due s locked due queue_name) s.tasks)),
  s,
)

module _ (x : Session) where
  unfoldable pub fire_timer : ℕ → Task → Execution → Tx Bool
  unfolding put_task
  fire_timer i t e = do
    append_event x t.workflow_id e.next_seq "TimerFired" none t.entity_id
        (object (("scheduled_for", str (x.time_text t.visible_at)) ∷ []))
    put_task i (complete_task x t)
    wake x t.workflow_id t.queue_name
    update_execution t.workflow_id (λ d. record d { next_seq = e.next_seq + 1 })
    pure true

  abbrev pub due_time : Option ℕ → ℕ
  due_time none = x.now
  due_time (some t) = t

  unfoldable pub fire_if_running : ℕ → Task → Option Execution → Tx Bool
  unfolding fire_timer
  fire_if_running i t none = pure false
  fire_if_running i t (some e) = if e.status == "running" then fire_timer i t e else pure false

  unfoldable pub fire_found : Option (ℕ × Task) → Tx Bool
  unfolding fire_if_running fetch_execution
  fire_found none = pure false
  fire_found (some (i, t)) = fetch_execution t.workflow_id >>= fire_if_running i t

  -- `locked` are the rows that `skip locked` passes over.
  unfoldable pub fire_due_timer : (ℕ → Bool) → Option String → Option ℕ → Tx Bool
  unfolding due_timer fire_found
  fire_due_timer locked queue_name clock_time =
      due_timer locked (due_time clock_time) queue_name >>= fire_found
