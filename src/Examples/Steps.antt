-- ===== src/Examples/Steps.antt =====
-- The theorems on transactions at concrete requests.
use durable_workflow_engine.Base.Dict.{insert}
use durable_workflow_engine.Platform.{clone_json}
use durable_workflow_engine.Store.Tx.{
  insert_execution, insert_event, wake, insert_task, record_api_audit, append_event,
  update_execution,
}
use durable_workflow_engine.Store.{conflicts}
use durable_workflow_engine.Sequence.{IsNumbered, IsSequenced, view, Grows}
use durable_workflow_engine.Base.Dict.{lookup}
use durable_workflow_engine.Transitions.Start.{new_execution}
use durable_workflow_engine.Json.{null, end, obj}
use durable_workflow_engine.Base.Int.{pos}
use durable_workflow_engine.Examples.{sample_platform}
use durable_workflow_engine.Store.Tx.{Session, TxError, Void}
use durable_workflow_engine.Store.{Execution, Store, no_rows, rows_of}
use durable_workflow_engine.Sequence.Steps.{
  Request, register_definition, start, pause, transact, IsReachable, committed, at_first,
  histories-IsNumbered, transact-IsSequenced, reachable-IsSequenced,
}
use durable_workflow_engine.Transitions.Activities.{Floats}
use durable_workflow_engine.Base.{
  ℕ, Result, none, Option, ◌≡◌, true, some, ok, ◌+◌, err, refl, nat_eq, length,
}

abbrev pub session : ℕ → Session
session time = record {
  platform = record sample_platform { loads = λ t. obj end };
  now = time;
  clock = time;
  uuid4 = λ n. n + 100;
  time_text = λ n. "";
  seconds = λ n. n;
  byte_length = λ t. 2;
  text_length = λ t. 2;
  accepts_jsonb = λ t. true;
  recursion_limit = 3;
}

abbrev pub floats : Floats
floats = record {
  of_json = λ v. none;
  in_closed_unit = λ n. true;
  scaled = λ i c e. some i;
  least = λ a b. a;
  product_microseconds = λ a b. some a;
  is_datetime = λ t. true;
}

abbrev rows_after : Result TxError (Void × Store) → Store
rows_after (ok (a, s)) = s
rows_after (err e) = no_rows

abbrev registration : Request
registration = register_definition "order" 1 "hash"

abbrev start_request : Request
start_request =
    start
      (record {
        workflow_type = "order";
        definition_version = pos 1;
        workflow_input = null;
        queue_name = "default";
        workflow_id = some 1;
        search_attributes = end;
        retry_of = none;
      })
      none

abbrev pause_request : Request
pause_request = pause 1 (some "maintenance") none

unfoldable registered : Store
unfolding transact
registered = rows_after (transact (session 1) floats registration no_rows)

unfoldable pub running : Store
unfolding transact registered
running = rows_after (transact (session 2) floats start_request registered)

unfoldable paused : Store
unfolding transact running
paused = rows_after (transact (session 3) floats pause_request running)

abbrev pub row_or : Execution → Option Execution → Execution
row_or d none = d
row_or d (some e) = e

registered-reached : transact (session 1) floats registration no_rows ≡ ok (tt, registered)
unfolding registered lookup insert
registered-reached = refl

running-reached : transact (session 2) floats start_request registered ≡ ok (tt, running)
unfolding running lookup insert clone_json insert_execution insert_event wake insert_task
    record_api_audit
running-reached = refl

paused-reached : transact (session 3) floats pause_request running ≡ ok (tt, paused)
unfolding paused lookup insert clone_json insert_execution insert_event wake insert_task
    record_api_audit append_event conflicts update_execution
paused-reached = refl

pub running-IsReachable : IsReachable floats running
running-IsReachable =
    committed (session 2) start_request registered running
      (committed (session 1) registration no_rows registered at_first registered-reached)
      running-reached

paused-IsReachable : IsReachable floats paused
paused-IsReachable =
    committed (session 3) pause_request running paused running-IsReachable paused-reached

unfoldable paused_row : Execution
unfolding paused
paused_row = row_or (new_execution (session 2) "order" 1 "" "" "") (lookup 1 paused.executions)

paused-found : lookup 1 paused.executions ≡ some paused_row
unfolding paused_row lookup insert clone_json insert_execution insert_event wake insert_task
    record_api_audit append_event conflicts update_execution
paused-found = refl

histories-IsNumbered_example :
    IsNumbered 1 (rows_of 1 paused.history_events)
    × (paused_row.next_seq ≡ length (rows_of 1 paused.history_events) + 1)
histories-IsNumbered_example =
    histories-IsNumbered floats paused 1 paused_row paused-IsReachable paused-found

transact-IsSequenced_example :
    IsSequenced (λ _. ⊥) (view paused) × Grows (view running) (view paused)
transact-IsSequenced_example =
    transact-IsSequenced (session 3) floats pause_request running paused
      (reachable-IsSequenced floats running (
        committed (session 2) start_request registered running
          (committed (session 1) registration no_rows registered at_first registered-reached)
          running-reached))
      paused-reached
