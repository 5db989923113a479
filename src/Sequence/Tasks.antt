-- ===== src/Sequence/Tasks.antt =====
-- engine/persistence: the ends of activities and timers: the numbers of the events.
use durable_workflow_engine.Leasing.{is_token}
use durable_workflow_engine.Transitions.Commit.{finish_task}
use durable_workflow_engine.Base.Int.{pos}
use durable_workflow_engine.Sequence.Rules.{
  prefix, fetch_ending-IsQuiet, steps, Found-quiet, timed_out_task-IsQuiet, due_timer-IsQuiet,
}
use durable_workflow_engine.Sequence.Triples.{
  IsQuiet, Triple, wake-IsQuiet, quietness, insert_task-IsQuiet, pure-IsQuiet, if-Triple,
}
use durable_workflow_engine.Sequence.Stages.{Keeps, Found, Base, update_execution-Triple}
use durable_workflow_engine.Sequence.Whole.{quiet-Keeps, fetch-Keeps, quiet_first-Keeps}
use durable_workflow_engine.Json.{Json, Fields, null, object, bool, int, float, str, arr, obj}
use durable_workflow_engine.Store.{Task, Execution}
use durable_workflow_engine.Sequence.{View}
use durable_workflow_engine.Transitions.Timeouts.{
  time_out, process_activity_timeout, timed_out_task, time_out_found, time_out_if_running,
}
use durable_workflow_engine.Base.{
  ℕ, Bool, Option, String, none, false, true, some, ◌==◌, ◌∷◌, [], ◌&&◌, string_eq, ◌+◌, nat_eq,
}
use durable_workflow_engine.Transitions.Activities.{
  Floats, complete_activity, follow_up, policy_of, retry_delay, plan_retry, fail_activity,
  retry_time, end_attempt, capped,
}
use durable_workflow_engine.Transitions.Timers.{
  fire_timer, fire_due_timer, due_timer, due_time, fire_found, fire_if_running,
}
use durable_workflow_engine.Store.Tx.{
  Session, pure, clone, ◌>>=◌, append_event, ◌>>◌, update_tasks, complete_task, wake,
  update_execution,
}

module _ (x : Session) where
  fire_timer-Triple :
      (X : ℕ → Type 0) (u : View) (i : ℕ) (t : Task) (e : Execution)
      → Triple (Found X u t.workflow_id e) (fire_timer x i t e) (λ _. Base X u)
  unfolding fire_timer
  fire_timer-Triple X u i t e = search (steps, quietness) depth 16

  fire_found-Keeps : (o : Option (ℕ × Task)) → Keeps (fire_found x o)
  unfolding fire_found fire_if_running
  fire_found-Keeps none = quiet-Keeps (pure false) (pure-IsQuiet false)
  fire_found-Keeps (some (i, t)) =
      fetch-Keeps t.workflow_id (fire_if_running x i t)
        (quiet-Keeps (pure false) (pure-IsQuiet false))
        (λ X u e.
          if-Triple _ _ _ (fire_timer-Triple X u i t e)
            (Found-quiet X u t.workflow_id e (pure false) (pure-IsQuiet false)))

  pub fire_due_timer-Keeps :
      (locked : ℕ → Bool) (queue_name : Option String) (clock_time : Option ℕ)
      → Keeps (fire_due_timer x locked queue_name clock_time)
  unfolding fire_due_timer
  fire_due_timer-Keeps locked queue_name clock_time =
      quiet_first-Keeps (due_timer locked (due_time x clock_time) queue_name) (fire_found x)
        (due_timer-IsQuiet locked (due_time x clock_time) queue_name) fire_found-Keeps

  module _ (fl : Floats) where
    complete_running-Triple :
        (X : ℕ → Type 0) (u : View) (task locked : Task) (token : ℕ) (result : Json) (e : Execution)
        → Triple
            (Found X u task.workflow_id e)
            (clone x result >>= λ cloned.
              append_event x task.workflow_id e.next_seq "ActivityCompleted" none task.entity_id
                (object (("result", cloned) ∷ ("attempt", int (pos locked.attempt)) ∷ []))
              >> (finish_task task.id token (complete_task x)
                  >> (wake x task.workflow_id locked.queue_name
                      >> update_execution task.workflow_id
                          (λ d. record d { next_seq = e.next_seq + 1 }))))
            (λ _. Base X u)
    complete_running-Triple X u task locked token result e =
        search (steps, update_execution-Triple, quietness) depth 18

    pub complete_activity-Keeps :
        (task : Task) (token : ℕ) (result : Json) → Keeps (complete_activity x fl task token result)
    unfolding complete_activity
    complete_activity-Keeps task token result =
        search (prefix, fetch_ending-IsQuiet, complete_running-Triple) depth 24

    follow_up-IsQuiet :
        (w : ℕ) (final : Bool) (t n : ℕ) (u c : Option ℕ) (row : Task)
        → IsQuiet (follow_up x fl w final t n u c row)
    unfolding follow_up
    follow_up-IsQuiet w true t n u c row = wake-IsQuiet x w row.queue_name
    follow_up-IsQuiet w false t n u c row = insert_task-IsQuiet _ _

    policy_of-IsQuiet : (v : Json) → IsQuiet (policy_of x fl v)
    unfolding policy_of
    policy_of-IsQuiet v = search quietness

    capped-IsQuiet : (a b n r : ℕ) (v : Json) → IsQuiet (capped x fl a b n r v)
    unfolding capped
    capped-IsQuiet a b n r null = search quietness
    capped-IsQuiet a b n r (bool v) = search quietness
    capped-IsQuiet a b n r (int v) = search quietness
    capped-IsQuiet a b n r (float v) = search quietness
    capped-IsQuiet a b n r (str v) = search quietness
    capped-IsQuiet a b n r (arr v) = search quietness
    capped-IsQuiet a b n r (obj v) = search quietness

    retry_delay-IsQuiet : (q : Fields) (n r : ℕ) → IsQuiet (retry_delay x fl q n r)
    unfolding retry_delay
    retry_delay-IsQuiet q n r = search (quietness, capped-IsQuiet) depth 12

    plan_retry-IsQuiet : (q : Fields) (n r : ℕ) → IsQuiet (plan_retry x fl q n r)
    unfolding plan_retry
    plan_retry-IsQuiet q n r = search (quietness, retry_delay-IsQuiet) depth 12

    fail_running-Triple :
        (X : ℕ → Type 0) (u : View) (task locked : Task) (token : ℕ) (failure : Json)
        (plan : Bool × ℕ) (e : Execution)
        → Triple
            (Found X u task.workflow_id e)
            (clone x failure >>= λ cloned.
              append_event x task.workflow_id e.next_seq "ActivityFailed" none task.entity_id (
                object (
                  ("attempt", int (pos task.attempt))
                  ∷ ("failure", cloned)
                  ∷ ("final", bool plan.0)
                  ∷ ("next_visible_at", retry_time x fl plan.0 plan.1)
                  ∷ []))
              >> (update_tasks
                    (λ t. t.id == task.id && (t.status == "leased" && is_token t.lease_token token))
                    (end_attempt x fl plan.0)
                  >> (follow_up x fl task.workflow_id plan.0 plan.1 task.attempt task.entity_id
                        task.command_id locked
                      >> (update_execution task.workflow_id
                            (λ d. record d { next_seq = e.next_seq + 1 })
                          >> pure plan.0))))
            (λ _. Base X u)
    fail_running-Triple X u task locked token failure plan e =
        search (steps, follow_up-IsQuiet, quietness) depth 18

    pub fail_activity-Keeps :
        (task : Task) (token : ℕ) (input failure : Json) (random_value : ℕ)
        → Keeps (fail_activity x fl task token input failure random_value)
    unfolding fail_activity
    fail_activity-Keeps task token input failure random_value =
        search
          (prefix, fetch_ending-IsQuiet, policy_of-IsQuiet, plan_retry-IsQuiet, fail_running-Triple)
          depth 24

    time_out-Triple :
        (X : ℕ → Type 0) (u : View) (i : ℕ) (t : Task) (e : Execution) (random_value : ℕ)
        → Triple (Found X u t.workflow_id e) (time_out x fl i t e random_value) (λ _. Base X u)
    unfolding time_out
    time_out-Triple X u i t e random_value =
        search (steps, policy_of-IsQuiet, plan_retry-IsQuiet, follow_up-IsQuiet, quietness) depth 20

    time_out_found-Keeps :
        (random_value : ℕ) (o : Option (ℕ × Task)) → Keeps (time_out_found x fl random_value o)
    unfolding time_out_found time_out_if_running
    time_out_found-Keeps random_value none = quiet-Keeps (pure false) (pure-IsQuiet false)
    time_out_found-Keeps random_value (some (i, t)) =
        fetch-Keeps t.workflow_id (time_out_if_running x fl i t random_value)
          (quiet-Keeps (pure false) (pure-IsQuiet false))
          (λ X u e.
            if-Triple _ _ _ (time_out-Triple X u i t e random_value)
              (Found-quiet X u t.workflow_id e (pure false) (pure-IsQuiet false)))

    pub process_activity_timeout-Keeps :
        (locked : ℕ → Bool) (queue_name : Option String) (random_value : ℕ)
        → Keeps (process_activity_timeout x fl locked queue_name random_value)
    unfolding process_activity_timeout
    process_activity_timeout-Keeps locked queue_name random_value =
        quiet_first-Keeps (timed_out_task locked x.now queue_name)
          (time_out_found x fl random_value) (timed_out_task-IsQuiet locked x.now queue_name)
          (time_out_found-Keeps random_value)
