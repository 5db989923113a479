-- ===== src/Transitions/Load.antt =====
-- engine/persistence/transitions.py: `history_event_from_row` and `load_workflow_replay_state`.
use durable_workflow_engine.History.{HistoryEvent}
use durable_workflow_engine.Json.{Json, as_obj, Fields}
use durable_workflow_engine.Transitions.Commit.{fetch_leased}
use durable_workflow_engine.Store.Tx.{
  Session, Tx, running_execution, pure, ◌>>=◌, ◌>>◌, require, guard, type_error, value_error,
  stale_lease,
}
use durable_workflow_engine.Store.{EventRow, order_by, rows_of, Execution}
use durable_workflow_engine.Base.{ℕ, String, Bool, List, ltb, ok, ◌∷◌, ◌==◌, [], is_some, string_eq}

pub record WorkflowReplayState : Type 0 where
  pub workflow_id : ℕ
  pub workflow_type : String
  pub definition_version : ℕ
  pub workflow_input : Json
  pub history : List HistoryEvent

-- `order by seq`.
abbrev pub seq_before : EventRow → EventRow → Bool
seq_before a b = ltb a.seq b.seq

unfoldable pub fetch_history : ℕ → Tx (List EventRow)
fetch_history w s = ok (order_by seq_before (rows_of w s.history_events), s)

abbrev pub event_of : EventRow → Fields → HistoryEvent
event_of r attributes = record {
  seq = r.seq;
  event_type = r.event_type;
  attributes = attributes;
  command_id = r.command_id;
  entity_id = r.entity_id;
  external_id = r.external_id;
}

module _ (x : Session) where
  unfoldable pub history_event_from_row : EventRow → Tx HistoryEvent
  history_event_from_row r = do
    attributes ←
        require (as_obj (x.platform.loads r.attributes))
          (type_error "history attributes must be a JSON object")
    pure (event_of r attributes)

  unfoldable pub decoded_history : List EventRow → Tx (List HistoryEvent)
  unfolding history_event_from_row
  decoded_history [] = pure []
  decoded_history (r ∷ rs) = do e ← history_event_from_row r; es ← decoded_history rs; pure (e ∷ es)

  abbrev pub state_of : ℕ → Execution → List HistoryEvent → WorkflowReplayState
  state_of w e history = record {
    workflow_id = w;
    workflow_type = e.workflow_type;
    definition_version = e.definition_version;
    workflow_input = x.platform.loads e.input;
    history = history;
  }

  -- `task_type`, `id`, `workflow_id` and `lease_token` are those of the leased task.
  unfoldable pub load_workflow_replay_state :
      (task_type : String) (id w token : ℕ) → Tx WorkflowReplayState
  unfolding fetch_leased running_execution fetch_history decoded_history
  load_workflow_replay_state task_type id w token = do
    guard (task_type == "workflow")
        (value_error "replay state can only be loaded for workflow tasks")
    lease ← fetch_leased x.now id token
    guard (is_some lease) (stale_lease id)
    e ← running_execution w
    rows ← fetch_history w
    history ← decoded_history rows
    pure (state_of w e history)
