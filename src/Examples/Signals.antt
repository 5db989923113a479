-- ===== src/Examples/Signals.antt =====
-- The theorems on signals, updates and progress at concrete requests.
use durable_workflow_engine.Sequence.Steps.{transact, after_request, at_once, pause}
use durable_workflow_engine.Sequence.Shadows.{send_update-shadows}
use durable_workflow_engine.Sequence.Delivery.{send_signal-again, duplicate_details}
use durable_workflow_engine.Sequence.Progress.{pause_workflow-commits, with_pause, paused_execution}
use durable_workflow_engine.Transitions.Start.{new_execution}
use durable_workflow_engine.Json.{null, obj, end}
use durable_workflow_engine.Transitions.Control.{pause_workflow, reason_only}
use durable_workflow_engine.Store.Tx.{
  TxError, insert_execution, insert_event, wake, insert_task, record_api_audit, update_execution,
  append_audit, append_event,
}
use durable_workflow_engine.Transitions.Updates.{send_update, new_update}
use durable_workflow_engine.Transitions.Signals.{send_signal}
use durable_workflow_engine.Store.{Store, UpdateRow, Execution, no_rows, conflicts, AuditContext}
use durable_workflow_engine.Platform.{canonical_json, clone_json, value_of}
use durable_workflow_engine.Base.Dict.{lookup, insert}
use durable_workflow_engine.Examples.Steps.{running, session, row_or, floats, running-IsReachable}
use durable_workflow_engine.Base.{
  Result, some, ok, ◌≡◌, none, err, true, false, nat_eq, refl, ◌==◌, string_eq,
}

abbrev rows_left : {A : Type 0} → Result TxError (A × Store) → Store
rows_left (ok (a, s)) = s
rows_left (err e) = no_rows

unfoldable running_row : Execution
unfolding running
running_row = row_or (new_execution (session 2) "order" 1 "" "" "") (lookup 1 running.executions)

running-found : lookup 1 running.executions ≡ some running_row
unfolding running_row lookup insert clone_json insert_execution insert_event wake insert_task
    record_api_audit
running-found = refl

running-runs : (running_row.status == "running") ≡ true
unfolding running_row lookup insert clone_json insert_execution insert_event wake insert_task
    record_api_audit
running-runs = refl

running-not_paused : running_row.paused_at ≡ none
unfolding running_row lookup insert clone_json insert_execution insert_event wake insert_task
    record_api_audit
running-not_paused = refl

reason-text :
    canonical_json (session 3).platform (reason_only (session 3) (some "maintenance"))
    ≡ value_of "{}"
unfolding canonical_json
reason-text = refl

abbrev operator : AuditContext
operator = record {
  request_id = 8;
  actor_key_id = "key-1";
  actor_role = "operator";
  action = "request";
}

unfoldable pausing : Store
unfolding running
pausing = with_pause 1 running_row 3 (some "maintenance") "{}" running

unfoldable pausing_audited : Store
unfolding pausing record_api_audit
pausing_audited = rows_left (
    record_api_audit (session 3) (some operator) (some 1) true
      (reason_only (session 3) (some "maintenance")) pausing)

pausing-recorded :
    record_api_audit
      (session 3)
      (some operator)
      (some 1)
      true
      (reason_only (session 3) (some "maintenance"))
      (with_pause 1 running_row 3 (some "maintenance") "{}" running)
    ≡ ok (tt, pausing_audited)
unfolding pausing_audited clone_json canonical_json append_audit
pausing-recorded = refl

pause_workflow-commits_example :
    (pause_workflow (session 3) 1 (some "maintenance") (some operator) running
      ≡ ok (true, pausing_audited))
    × (lookup 1 pausing_audited.executions
        ≡ some (paused_execution 3 (some "maintenance") running_row))
    × (pausing_audited ≡ record (with_pause 1 running_row 3 (some "maintenance") "{}" running) {
      audit = pausing_audited.audit;
    })
pause_workflow-commits_example =
    pause_workflow-commits (session 3) floats 1 running_row (some "maintenance") "{}"
      (some operator) running pausing_audited running-IsReachable running-found running-runs
      running-not_paused reason-text refl pausing-recorded

unfoldable signaled : Store
unfolding send_signal running
signaled = rows_left (send_signal (session 4) 1 "approval-1" "approved" null none running)

signaled-reached :
    send_signal (session 4) 1 "approval-1" "approved" null none running ≡ ok (true, signaled)
unfolding signaled lookup insert clone_json insert_execution insert_event wake insert_task
    record_api_audit conflicts update_execution
signaled-reached = refl

null-clones : clone_json (session 6).platform null ≡ value_of (obj end)
unfolding clone_json canonical_json
null-clones = refl

-- The execution is paused between the two signals.
unfoldable signaled_paused : Store
unfolding transact signaled
signaled_paused = rows_left (transact (session 5) floats (pause 1 none none) signaled)

signaled_paused-reached :
    transact (session 5) floats (pause 1 none none) signaled ≡ ok (tt, signaled_paused)
unfolding signaled_paused lookup insert clone_json insert_execution insert_event wake insert_task
    record_api_audit conflicts update_execution append_event
signaled_paused-reached = refl

unfoldable signaled_again : Store
unfolding signaled_paused record_api_audit
signaled_again = rows_left (
    record_api_audit (session 6) (some operator) (some 1) false
      (duplicate_details (session 6) 1 "approval-1" "approved") signaled_paused)

signaled_again-recorded :
    record_api_audit
      (session 6)
      (some operator)
      (some 1)
      false
      (duplicate_details (session 6) 1 "approval-1" "approved")
      signaled_paused
    ≡ ok (tt, signaled_again)
unfolding signaled_again clone_json canonical_json append_audit
signaled_again-recorded = refl

send_signal-again_example :
    (send_signal (session 6) 1 "approval-1" "approved" null (some operator) signaled_paused
      ≡ ok (false, signaled_again))
    × (signaled_again ≡ record signaled_paused { audit = signaled_again.audit })
send_signal-again_example =
    send_signal-again floats (session 4) (session 6) 1 "approval-1" "approved" "approved" null null
      (obj end) none (some operator) running signaled signaled_paused signaled_again true
      running-IsReachable signaled-reached
      (after_request (session 5) (pause 1 none none) signaled signaled_paused at_once
        signaled_paused-reached)
      refl null-clones signaled_again-recorded

unfoldable updated : Store
unfolding send_update running
updated = rows_left (send_update (session 4) 1 "u1" "set_address" null none running)

abbrev update_row : UpdateRow
update_row = new_update (session 4) 1 "u1" "set_address" "{}"

updated-reached :
    send_update (session 4) 1 "u1" "set_address" null none running
    ≡ ok ((update_row, true), updated)
unfolding updated lookup insert clone_json insert_execution insert_event wake insert_task
    record_api_audit conflicts update_execution
updated-reached = refl

unfoldable shadowed : Store
unfolding updated record_api_audit
shadowed = rows_left (
    record_api_audit (session 6) (some operator) (some 1) false
      (duplicate_details (session 6) 1 "update:u1" "approved") updated)

shadowed-recorded :
    record_api_audit
      (session 6)
      (some operator)
      (some 1)
      false
      (duplicate_details (session 6) 1 "update:u1" "approved")
      updated
    ≡ ok (tt, shadowed)
unfolding shadowed clone_json canonical_json append_audit
shadowed-recorded = refl

send_update-shadows_example :
    (send_signal (session 6) 1 "update:u1" "approved" null (some operator) updated
      ≡ ok (false, shadowed))
    × (shadowed ≡ record updated { audit = shadowed.audit })
send_update-shadows_example =
    send_update-shadows floats (session 4) (session 6) 1 "u1" "set_address" "approved" null null
      (obj end) none (some operator) running updated updated shadowed update_row running-IsReachable
      updated-reached at_once refl null-clones shadowed-recorded
