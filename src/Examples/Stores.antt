-- ===== src/Examples/Stores.antt =====
-- The theorems on frames, leases and definitions at concrete values.
-- Texts of different lengths for different numbers.
use durable_workflow_engine.Leasing.Reclaim.{
  reclaim_expired_workflow_tasks, reclaim_expired_workflow_tasks-IsLive,
}
use durable_workflow_engine.Platform.{canonical_json}
use durable_workflow_engine.Debugger.Balance.{build_replay_trace-balanced}
use durable_workflow_engine.Debugger.Frames.{build_replay_trace}
use durable_workflow_engine.Base.Int.{pos}
use durable_workflow_engine.Examples.{sample_platform, finished_history, indexed, finished_index}
use durable_workflow_engine.Leasing.Fencing.{HasIds, lease_task-exclusive, lease_task-fences}
use durable_workflow_engine.Definitions.Pinned.{
  register_all, Pins, Registration, register, register_all-Pins, of_workflow, of_activity,
}
use durable_workflow_engine.Definitions.{
  WorkflowDefinition, DefinitionRegistry, workflow, register_workflow, register_activity,
}
use durable_workflow_engine.Base.Dict.{lookup, insert}
use durable_workflow_engine.Leasing.{
  lease_task, renew_lease, lease_candidate, first_candidate, is_runnable, leased_row, stale_lease,
  lease_row, take_lease, append_started,
}
use durable_workflow_engine.Store.{Task, Store, Execution}
use durable_workflow_engine.Base.{
  zero, suc, ◌≢◌, ℕ, All, List, String, ◌≡◌, some, ◌∷◌, ◌≢◌, ◌+◌, [], arith, false, err, ok, suc,
  none, nat_eqb_iff, refl, ap, nat_eq,
}

tally : ℕ → String
tally zero = String.[]
tally (suc n) = String.◌∷◌ "a" (tally n)

tally_distinct : (u w : ℕ) → tally u ≡ tally w → u ≡ w
unfolding tally
tally_distinct zero zero h = refl
tally_distinct zero (suc w) h = cc
tally_distinct (suc u) zero h = cc
tally_distinct (suc u) (suc w) h =
    let tails : tally u ≡ tally w = cc in ap suc (tally_distinct u w tails)

build_replay_trace-balanced_example :
    All
      (λ f.
        f.snapshot.commands
        ≡ f.snapshot.waiting_entities + f.snapshot.succeeded_entities + f.snapshot.failed_entities)
      (build_replay_trace tally finished_history)
build_replay_trace-balanced_example =
    build_replay_trace-balanced tally tally_distinct finished_history (indexed finished_history)
      finished_index

abbrev waiting_task : Task
waiting_task = record {
  id = 3;
  workflow_id = 1;
  task_type = "activity";
  queue_name = "default";
  status = "pending";
  entity_id = some 7;
  command_id = some 0;
  attempt = 1;
  input = none;
  completed_at = none;
  schedule_to_start_timeout = none;
  schedule_to_start_deadline = none;
  visible_at = 10;
  created_at = 10;
  leased_at = none;
  lease_token = none;
  lease_expires_at = none;
  start_to_close_timeout = none;
  start_to_close_deadline = none;
  heartbeat_timeout = none;
  heartbeat_at = none;
  heartbeat_details = none;
}

abbrev busy_task : Task
busy_task = record waiting_task {
  id = 4;
  status = "leased";
  lease_token = some 90;
  lease_expires_at = some 40;
}

abbrev sample_execution : Execution
sample_execution = record {
  workflow_type = "order";
  definition_version = 1;
  input = "{}";
  status = "running";
  result = none;
  failure = none;
  next_seq = 3;
  queue_name = "default";
  search_attributes = "{}";
  created_at = 5;
  closed_at = none;
  paused_at = none;
  pause_reason = none;
  cancellation_requested_at = none;
  cancellation_reason = none;
  retry_of = none;
  parent_workflow_id = none;
  parent_command_id = none;
  parent_close_policy = none;
  schedule_id = none;
  scheduled_at = none;
  continued_from = none;
  continued_to = none;
}

abbrev sample_store : Store
sample_store = record {
  definitions = [];
  executions = (1, sample_execution) ∷ [];
  history_events = [];
  tasks = (3, waiting_task) ∷ (4, busy_task) ∷ [];
  updates = [];
  audit = [];
  drawn = 0;
}

sample_store-HasIds : HasIds sample_store
unfolding lookup
sample_store-HasIds id t h = ground (arith, nat_eqb_iff 3 id, nat_eqb_iff 4 id)

abbrev leased_store : Store
leased_store =
    (lease_task sample_platform sample_store (λ id. false) 20 "activity" "default" (pos 30) 91).1

leases :
    lease_task sample_platform sample_store (λ id. false) 20 "activity" "default" (pos 30) 91
    ≡ (ok (some (leased_row 20 91 30 waiting_task)), leased_store)
unfolding lease_task lease_candidate first_candidate is_runnable lookup lease_row take_lease
    append_started canonical_json
leases = refl

lease_task-exclusive_example : (◌≢◌ {A = ℕ} 3 4) × (lookup 4 leased_store.tasks ≡ some busy_task)
unfolding lookup
lease_task-exclusive_example =
    lease_task-exclusive sample_platform sample_store leased_store (λ id. false) 20 "activity"
      "default" (pos 30) 91 (leased_row 20 91 30 waiting_task) 4 busy_task sample_store-HasIds
      leases refl refl

lease_task-fences_example :
    renew_lease leased_store 25 3 90 (pos 30) ≡ (err (stale_lease 3), leased_store)
lease_task-fences_example =
    lease_task-fences sample_platform sample_store leased_store (λ id. false) 20 "activity"
      "default" (pos 30) 91 (leased_row 20 91 30 waiting_task) 25 90 29 sample_store-HasIds leases
      (λ e. omega (arith, e))

abbrev order_definition : WorkflowDefinition
order_definition = record { name = "order"; version = 1; function = 5; code_hash = "0102" }

abbrev order_registry : DefinitionRegistry
order_registry = record { workflows = (("order", 1), order_definition) ∷ []; activities = [] }

abbrev order_again : List Registration
order_again =
    of_workflow (record order_definition { function = 6 })
    ∷ of_activity (record { name = "charge_card"; function = 8 })
    ∷ []

abbrev registered : DefinitionRegistry
registered = record {
  workflows = (("order", 1), record order_definition { function = 6 }) ∷ [];
  activities = ("charge_card", record { name = "charge_card"; function = 8 }) ∷ [];
}

registers : register_all order_registry order_again ≡ ok registered
unfolding register_all register register_workflow register_activity lookup insert
registers = refl

order_pinned : workflow order_registry "order" 1 ≡ ok order_definition
unfolding workflow lookup
order_pinned = refl

register_all-Pins_example : Pins registered "order" 1 "0102"
register_all-Pins_example =
    register_all-Pins order_again order_registry registered "order" "0102" 1 registers
      (order_definition, order_pinned, refl)

reclaim_expired_workflow_tasks-IsLive_example :
    lookup 4 (reclaim_expired_workflow_tasks sample_store (λ id. false) 20 (pos 100)).1.tasks
    ≡ lookup 4 sample_store.tasks
reclaim_expired_workflow_tasks-IsLive_example =
    reclaim_expired_workflow_tasks-IsLive sample_store (λ id. false) 20 (pos 100) 4
      ((λ e. absurd (omega (arith, e))), ((λ e. refl), tt))
