-- ===== src/Transitions/Activities.antt =====
-- engine/persistence/transitions.py: `complete_activity`, `retry_delay` and `fail_activity`.
use durable_workflow_engine.Transitions.Append.{map_seconds}
use durable_workflow_engine.Transitions.Commit.{finish_task}
use durable_workflow_engine.Leasing.{holds_lease, row_where, is_token}
use durable_workflow_engine.Base.Int.{ℤ, pos, negsuc}
use durable_workflow_engine.Store.{Task}
use durable_workflow_engine.Store.Tx.{
  Session, Tx, running_execution, Void, kill_task, ◌>>=◌, ◌>>◌, guard, require, wake, complete_task,
  value_error, insert_task, type_error, new_task, stale_lease, clone, pure, append_event,
  update_execution, update_tasks, overflow_error,
}
use durable_workflow_engine.Base.{
  ℕ, Option, Bool, true, ok, none, ◌&&◌, leb, some, ltb, false, ◌==◌, ◌+◌, is_some, ◌-◌,
  if◌then◌else◌, ◌∷◌, [], string_eq, nat_eq,
}
use durable_workflow_engine.Json.{
  Json, Fields, null, str, as_int, as_obj, get_null, object, int, bool,
}

-- What the retry delay uses of Python's floats: `float(value)` of a JSON number, `0 <= value <= 1`,
-- `initial * coefficient ** (attempt - 1)`, `min`, the microseconds of `timedelta(seconds=a * b)`, and
-- whether a `datetime` can hold a time; `none` is an `OverflowError`.
pub record Floats : Type 0 where
  pub of_json : Json → Option ℕ
  pub in_closed_unit : ℕ → Bool
  pub scaled : (initial coefficient : ℕ) → (exponent : ℕ) → Option ℕ
  pub least : ℕ → ℕ → ℕ
  pub product_microseconds : ℕ → ℕ → Option ℕ
  pub is_datetime : ℕ → Bool

-- A lease under which an activity may still end.
abbrev pub deadline_holds : ℕ → Option ℕ → Bool
deadline_holds now none = true
deadline_holds now (some d) = ltb now d

abbrev pub heartbeat_holds : ℕ → Task → Bool
heartbeat_holds now t = elim t.heartbeat_timeout [
  | none ↦ true
  | some limit ↦ (elim t.heartbeat_at [ none ↦ false | some at_time ↦ ltb now (at_time + limit) ])
]

unfoldable pub may_end : ℕ → ℕ → Task → Bool
may_end now token t =
    holds_lease now token t
    && (deadline_holds now t.start_to_close_deadline && heartbeat_holds now t)

unfoldable pub fetch_ending : ℕ → ℕ → ℕ → Tx (Option Task)
unfolding may_end
fetch_ending now id token s = ok (row_where id (may_end now token) s, s)

-- `failed_attempt >= max_attempts`.
abbrev pub at_least : ℕ → ℤ → Bool
at_least n (pos m) = leb m n
at_least n (negsuc m) = true

module _ (x : Session) (fl : Floats) where
  -- The task is the leased one; its row is read again.
  unfoldable pub complete_activity : Task → (token : ℕ) → Json → Tx Void
  unfolding fetch_ending running_execution finish_task
  complete_activity task token result = do
    guard (task.task_type == "activity" && is_some task.entity_id)
        (value_error "only an activity task can complete an activity")
    found ← fetch_ending x.now task.id token
    locked ← require found (stale_lease task.id)
    e ← running_execution task.workflow_id
    cloned ← clone x result
    append_event x task.workflow_id e.next_seq "ActivityCompleted" none task.entity_id
        (object (("result", cloned) ∷ ("attempt", int (pos locked.attempt)) ∷ []))
    finish_task task.id token (complete_task x)
    wake x task.workflow_id locked.queue_name
    update_execution task.workflow_id (λ d. record d { next_seq = e.next_seq + 1 })

  -- The delay before the next attempt, in microseconds.
  -- The cap without a maximum, or with it, and the delay.
  unfoldable pub capped : (initial coefficient exponent random_value : ℕ) → Json → Tx ℕ
  capped initial coefficient exponent random_value null = do
    cap ← require (fl.scaled initial coefficient exponent) overflow_error
    require (fl.product_microseconds cap random_value) overflow_error
  capped initial coefficient exponent random_value other = do
    maximum ← require (fl.of_json other) (type_error "maximum_interval_seconds")
    cap ← require (fl.scaled initial coefficient exponent) overflow_error
    require (fl.product_microseconds (fl.least cap maximum) random_value) overflow_error

  unfoldable pub retry_delay : Fields → (failed_attempt random_value : ℕ) → Tx ℕ
  unfolding capped
  retry_delay policy failed_attempt random_value = do
    guard (fl.in_closed_unit random_value) (value_error "random_value must be between 0 and 1")
    initial ←
        require (fl.of_json (get_null "initial_interval_seconds" policy))
          (type_error "initial_interval_seconds")
    coefficient ←
        require (fl.of_json (get_null "backoff_coefficient" policy))
          (type_error "backoff_coefficient")
    capped initial coefficient (failed_attempt - 1) random_value
        (get_null "maximum_interval_seconds" policy)

  -- Whether the attempt was the last one, and when the next one may start.
  unfoldable pub plan_retry : Fields → (attempt random_value : ℕ) → Tx (Bool × ℕ)
  unfolding retry_delay
  plan_retry policy attempt random_value = do
    limit ←
        require (as_int (get_null "max_attempts" policy))
          (type_error "activity retry policy has invalid max_attempts")
    if at_least attempt limit
        then pure (true, x.clock)
        else (retry_delay policy attempt random_value >>= λ delay.
            guard (fl.is_datetime (x.clock + delay)) overflow_error
            >> pure (false, x.clock + delay))

  unfoldable pub policy_of : Json → Tx Fields
  policy_of input = do
    fields ← require (as_obj input) (type_error "activity task input must be an object")
    require (as_obj (get_null "retry_policy" fields))
        (type_error "activity task lacks its recorded retry policy")

  -- The task that follows a failed attempt: a wake-up, or the next attempt.
  unfoldable pub follow_up :
      (w : ℕ) (final : Bool) (next_visible_at attempt : ℕ) (entity_id command_id : Option ℕ)
      → Task
      → Tx Void
  follow_up w true next_visible_at attempt u c row = wake x w row.queue_name
  follow_up w false next_visible_at attempt u c row = insert_task x.uuid4 (λ id.
      record (new_task x w "activity" row.queue_name id) {
        entity_id = u;
        command_id = c;
        attempt = attempt + 1;
        input = row.input;
        visible_at = next_visible_at;
        schedule_to_start_deadline =
            map_seconds x (λ d. next_visible_at + d) row.schedule_to_start_timeout;
        schedule_to_start_timeout = row.schedule_to_start_timeout;
        start_to_close_timeout = row.start_to_close_timeout;
        heartbeat_timeout = row.heartbeat_timeout;
      })

  abbrev pub retry_time : Bool → ℕ → Json
  retry_time true t = null
  retry_time false t = str (x.time_text t)

  abbrev pub end_attempt : Bool → Task → Task
  end_attempt true t = kill_task x t
  end_attempt false t = complete_task x t

  -- `input` is the decoded input of the leased task. The result tells whether the failure is final.
  unfoldable pub fail_activity :
      Task → (token : ℕ) → (input failure : Json) → (random_value : ℕ) → Tx Bool
  unfolding policy_of plan_retry fetch_ending running_execution follow_up
  fail_activity task token input failure random_value = do
    guard (task.task_type == "activity" && (is_some task.entity_id && is_some task.command_id))
        (value_error "only an activity task can fail an activity")
    policy ← policy_of input
    plan ← plan_retry policy task.attempt random_value
    found ← fetch_ending x.now task.id token
    locked ← require found (stale_lease task.id)
    e ← running_execution task.workflow_id
    cloned ← clone x failure
    append_event x task.workflow_id e.next_seq "ActivityFailed" none task.entity_id (
        object (
          ("attempt", int (pos task.attempt))
          ∷ ("failure", cloned)
          ∷ ("final", bool plan.0)
          ∷ ("next_visible_at", retry_time plan.0 plan.1)
          ∷ []))
    update_tasks (λ t. t.id == task.id && (t.status == "leased" && is_token t.lease_token token))
        (end_attempt plan.0)
    follow_up task.workflow_id plan.0 plan.1 task.attempt task.entity_id task.command_id locked
    update_execution task.workflow_id (λ d. record d { next_seq = e.next_seq + 1 })
    pure plan.0
