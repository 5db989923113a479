-- ===== src/Determinism/Calls.antt =====
-- engine/sdk/context.py: the operations but the waits for signals and updates, one lemma for each.
use durable_workflow_engine.Json.{Json}
use durable_workflow_engine.Context.Child.{end_child, resolve_child, child_workflow}
use durable_workflow_engine.Context.Continue.{recorded_continuation, continue_as_new}
use durable_workflow_engine.Context.Update.{check_resolution, resolve_update, WorkflowUpdate}
use durable_workflow_engine.Base.Int.{ℤ}
use durable_workflow_engine.Context.Timer.{resolve_timer, sleep}
use durable_workflow_engine.Determinism.{IsStable, stability, new_commands-Waits}
use durable_workflow_engine.History.{HistoryEvent}
use durable_workflow_engine.Base.{String, ℕ, arith, Bool, Option}
use durable_workflow_engine.Context.Activity.{
  end_activity, resolve_activity, call_command_id, activity_input, check_options, evaluate_activity,
  ActivityCall,
}
use durable_workflow_engine.Platform.{Platform}

module _ (p : Platform) where
  end_activity-IsStable : (name : String) (t : HistoryEvent) → IsStable (end_activity p name t)
  unfolding end_activity
  end_activity-IsStable name t = search stability

  resolve_activity-IsStable :
      (name : String) (n : ℕ) (f : String) (s : HistoryEvent)
      → IsStable (resolve_activity p name n f s)
  unfolding resolve_activity
  resolve_activity-IsStable name n f s = search (stability, end_activity-IsStable) depth 8

  call_command_id-IsStable : (call : ActivityCall) → IsStable (call_command_id call)
  unfolding call_command_id
  call_command_id-IsStable call = record {
    keeps = λ c. ground arith;
    stays = λ c y l h. ground arith;
  }

  activity_input-IsStable : (call : ActivityCall) → IsStable (activity_input p call)
  unfolding activity_input
  activity_input-IsStable call = search stability depth 8

  check_options-IsStable : (call : ActivityCall) → IsStable (check_options p call)
  unfolding check_options
  check_options-IsStable call = search stability depth 8

  pub evaluate_activity-IsStable : (call : ActivityCall) → IsStable (evaluate_activity p call)
  unfolding evaluate_activity
  evaluate_activity-IsStable call =
      search
        (
          stability, new_commands-Waits, call_command_id-IsStable, activity_input-IsStable,
          check_options-IsStable, resolve_activity-IsStable,
        )
        depth 12

  resolve_timer-IsStable :
      (n : ℕ) (f : String) (s : HistoryEvent) → IsStable (resolve_timer p n f s)
  unfolding resolve_timer
  resolve_timer-IsStable n f s = search stability depth 9

  pub sleep-IsStable : (d : ℤ) → IsStable (sleep p d)
  unfolding sleep
  sleep-IsStable d = search (stability, new_commands-Waits, resolve_timer-IsStable) depth 12

  check_resolution-IsStable :
      (n : ℕ) (f : String) (s : HistoryEvent) → IsStable (check_resolution p n f s)
  unfolding check_resolution
  check_resolution-IsStable n f s = search stability depth 8

  pub resolve_update-IsStable :
      (u : WorkflowUpdate) (outcome : Json) (accepted : Bool)
      → IsStable (resolve_update p u outcome accepted)
  unfolding resolve_update
  resolve_update-IsStable u outcome accepted =
      search (stability, new_commands-Waits, check_resolution-IsStable) depth 12

  recorded_continuation-IsStable :
      (n : ℕ) (f : String) (s : HistoryEvent) → IsStable (recorded_continuation p n f s)
  unfolding recorded_continuation
  recorded_continuation-IsStable n f s = search stability depth 8

  pub continue_as_new-IsStable :
      (name : String) (version : ℕ) (input : Json) (queue_name : Option String)
      → IsStable (continue_as_new p name version input queue_name)
  unfolding continue_as_new
  continue_as_new-IsStable name version input queue_name =
      search (stability, new_commands-Waits, recorded_continuation-IsStable) depth 12

  end_child-IsStable : (name : String) (t : HistoryEvent) → IsStable (end_child p name t)
  unfolding end_child
  end_child-IsStable name t = search stability depth 8

  pub resolve_child-IsStable :
      (name : String) (n : ℕ) (f : String) (s : HistoryEvent)
      → IsStable (resolve_child p name n f s)
  unfolding resolve_child
  resolve_child-IsStable name n f s = search (stability, end_child-IsStable) depth 9

  pub child_workflow-IsStable :
      (name : String) (version : ℕ) (input : Json) (queue_name : Option String) (close : String)
      → IsStable (child_workflow p name version input queue_name close)
  unfolding child_workflow
  child_workflow-IsStable name version input queue_name close = search stability depth 9
