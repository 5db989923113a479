-- ===== src/Examples/Loading.antt =====
-- The theorem on the history that is loaded for replay, at a leased workflow task.
use durable_workflow_engine.Platform.{clone_json}
use durable_workflow_engine.Json.{null}
use durable_workflow_engine.Store.Tx.{
  new_task, TxError, insert_execution, insert_event, wake, insert_task, record_api_audit,
}
use durable_workflow_engine.Sequence.Loading.{IsInOrder, load_workflow_replay_state-numbered}
use durable_workflow_engine.Base.Dict.{lookup, insert}
use durable_workflow_engine.Transitions.Load.{WorkflowReplayState, load_workflow_replay_state}
use durable_workflow_engine.Base.{Result, some, ◌∷◌, [], ok, err, ◌≡◌, refl}
use durable_workflow_engine.Sequence.Steps.{IsReachable, unrelated}
use durable_workflow_engine.Examples.Steps.{running, floats, session, running-IsReachable}
use durable_workflow_engine.Store.{Task, Store, rows_of}

abbrev leased_task : Task
leased_task = record (new_task (session 4) 1 "workflow" "default" 7) {
  status = "leased";
  lease_token = some 9;
  lease_expires_at = some 50;
}

unfoldable leased : Store
unfolding running
leased = record running { tasks = (7, leased_task) ∷ [] }

leased-IsReachable : IsReachable floats leased
unfolding leased
leased-IsReachable = unrelated running leased running-IsReachable refl

abbrev state_or : {A : Type 0} → A → Result TxError (A × Store) → A
state_or d (ok (a, s)) = a
state_or d (err e) = d

abbrev no_state : WorkflowReplayState
no_state = record {
  workflow_id = 0;
  workflow_type = "";
  definition_version = 0;
  workflow_input = null;
  history = [];
}

unfoldable loaded : WorkflowReplayState
unfolding leased load_workflow_replay_state
loaded = state_or no_state (load_workflow_replay_state (session 5) "workflow" 7 1 9 leased)

loaded-reached :
    load_workflow_replay_state (session 5) "workflow" 7 1 9 leased ≡ ok (loaded, leased)
unfolding loaded lookup insert clone_json insert_execution insert_event wake insert_task
    record_api_audit rows_of
loaded-reached = refl

load_workflow_replay_state-numbered_example : IsInOrder 1 loaded.history
load_workflow_replay_state-numbered_example =
    load_workflow_replay_state-numbered (session 5) floats "workflow" 7 1 9 leased leased loaded
      leased-IsReachable loaded-reached
