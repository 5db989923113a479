-- ===== src/Transitions/Timeouts.antt =====
-- engine/persistence/timeouts.py: `process_activity_timeout`.
use durable_workflow_engine.Base.Dict.{lookup}
use durable_workflow_engine.Transitions.Closing.{put_task}
use durable_workflow_engine.Base.Int.{pos}
use durable_workflow_engine.Transitions.Timers.{in_queue}
use durable_workflow_engine.Json.{Json, object, null, int, str, bool}
use durable_workflow_engine.Transitions.Activities.{
  Floats, policy_of, plan_retry, follow_up, retry_time, end_attempt,
}
use durable_workflow_engine.Store.Tx.{
  Session, Tx, fetch_execution, ◌>>=◌, pure, ◌>>◌, append_event, update_execution,
}
use durable_workflow_engine.Store.{Task, Store, first_where, order_by, Execution, rows_where}
use durable_workflow_engine.Base.{
  ℕ, List, Option, String, Bool, ◌∷◌, false, if◌then◌else◌, ◌==◌, [], ltb, none, some, leb, ◌+◌,
  ◌&&◌, ◌||◌, ok, string_eq, nat_eq, not, true, is_none,
}
use Prim.Native.String.{◌++◌ as ◌++ˢ◌}

-- `deadline <= now()` of a column that may be null.
abbrev pub has_passed : ℕ → Option ℕ → Bool
has_passed now none = false
has_passed now (some d) = leb d now

-- `t.heartbeat_at + t.heartbeat_timeout`.
abbrev pub heartbeat_deadline : Task → Option ℕ
heartbeat_deadline t = elim t.heartbeat_timeout [
  | none ↦ none
  | some limit ↦ (elim t.heartbeat_at [ none ↦ none | some at_time ↦ some (at_time + limit) ])
]

unfoldable pub timeout_type : ℕ → Task → String
timeout_type now t =
    if t.status == "pending"
    then "schedule_to_start"
    else if has_passed now t.start_to_close_deadline
    then "start_to_close"
    else if has_passed now (heartbeat_deadline t)
    then "heartbeat"
    else "lease_expired"

unfoldable pub is_timed_out : Store → (ℕ → Bool) → ℕ → Option String → ℕ → Task → Bool
is_timed_out s locked now queue_name i t =
    t.task_type == "activity"
    && (in_queue queue_name t
        && (not (locked i)
            && ((elim (lookup t.workflow_id s.executions) [
              | none ↦ false
              | some e ↦ e.status == "running" && is_none e.paused_at
            ])
                && ((t.status == "pending" && has_passed now t.schedule_to_start_deadline)
                    || (t.status == "leased"
                        && (has_passed now t.lease_expires_at
                            || (has_passed now t.start_to_close_deadline
                                || has_passed now (heartbeat_deadline t))))))))

abbrev pub coalesce : List (Option ℕ) → ℕ
coalesce [] = 0
coalesce (none ∷ rest) = coalesce rest
coalesce (some t ∷ rest) = t

-- `order by coalesce(…), t.id`; a task that timed out has one of the times.
abbrev pub timeout_time : Task → ℕ
timeout_time t = coalesce (
    t.schedule_to_start_deadline
    ∷ t.start_to_close_deadline
    ∷ heartbeat_deadline t
    ∷ t.lease_expires_at
    ∷ [])

abbrev pub times_out_before : ℕ × Task → ℕ × Task → Bool
times_out_before (i, a) (j, b) =
    ltb (timeout_time a) (timeout_time b) || (timeout_time a == timeout_time b && ltb i j)

unfoldable pub timed_out_task : (ℕ → Bool) → ℕ → Option String → Tx (Option (ℕ × Task))
unfolding is_timed_out
timed_out_task locked now queue_name s = ok (
  first_where (λ r. true)
      (order_by times_out_before (rows_where (is_timed_out s locked now queue_name) s.tasks)),
  s,
)

module _ (x : Session) (fl : Floats) where
  unfoldable pub timeout_attributes : ℕ → Bool × ℕ → String → Json
  timeout_attributes attempt plan type = object (
      ("attempt", int (pos attempt))
      ∷ (
        "failure",
        object (
            ("type", str "ActivityTimeout")
            ∷ ("message", str ("activity attempt timed out: " ++ˢ type))
            ∷ ("timeout_type", str type)
            ∷ []),
      )
      ∷ ("final", bool plan.0)
      ∷ ("timeout_type", str type)
      ∷ ("next_visible_at", retry_time x fl plan.0 plan.1)
      ∷ [])

  abbrev pub opt_decoded : Option String → Json
  opt_decoded none = null
  opt_decoded (some t) = x.platform.loads t

  unfoldable pub time_out : ℕ → Task → Execution → (random_value : ℕ) → Tx Bool
  unfolding policy_of plan_retry follow_up put_task timeout_attributes timeout_type
  time_out i t e random_value = do
    policy ← policy_of x fl (opt_decoded t.input)
    plan ← plan_retry x fl policy t.attempt random_value
    append_event x t.workflow_id e.next_seq "ActivityTimedOut" none t.entity_id
        (timeout_attributes t.attempt plan (timeout_type x.now t))
    put_task i (end_attempt x fl plan.0 t)
    follow_up x fl t.workflow_id plan.0 plan.1 t.attempt t.entity_id t.command_id t
    update_execution t.workflow_id (λ d. record d { next_seq = e.next_seq + 1 })
    pure true

  unfoldable pub time_out_if_running : ℕ → Task → (random_value : ℕ) → Option Execution → Tx Bool
  unfolding time_out
  time_out_if_running i t random_value none = pure false
  time_out_if_running i t random_value (some e) =
      if e.status == "running" then time_out i t e random_value else pure false

  unfoldable pub time_out_found : (random_value : ℕ) → Option (ℕ × Task) → Tx Bool
  unfolding time_out_if_running fetch_execution
  time_out_found random_value none = pure false
  time_out_found random_value (some (i, t)) =
      fetch_execution t.workflow_id >>= time_out_if_running i t random_value

  unfoldable pub process_activity_timeout :
      (ℕ → Bool) → Option String → (random_value : ℕ) → Tx Bool
  unfolding timed_out_task time_out_found
  process_activity_timeout locked queue_name random_value =
      timed_out_task locked x.now queue_name >>= time_out_found random_value
