-- ===== src/Examples.antt =====
-- The theorems at concrete histories: an order workflow that charges a card, with a platform whose
-- texts and digests are constants.
pub mod Stores
pub mod Steps
pub mod Signals
pub mod Loading
use durable_workflow_engine.Determinism.Steady.{IsSteady, answers, plain, finishes, reraises}
use durable_workflow_engine.Determinism.Gather.{gather-again}
use durable_workflow_engine.Determinism.Hazards.{
  stops_when_cancelled, recovers, stops_when_cancelled-diverges, recovers-diverges, IsLeastCommand,
}
use durable_workflow_engine.Determinism.{with_history, is_settled}
use durable_workflow_engine.Context.{
  WorkflowContext, new_context, returned, unvisited, raised, activity_error,
}
use durable_workflow_engine.Debugger.Comparison.{
  compare_command_histories, IsFirstDifference, compare_streams, commands_of, first_difference,
  compare_command_histories-matched, signatures, command_signature,
  compare_command_histories-compatible,
}
use durable_workflow_engine.History.Commands.{
  index_history-command_once, find_command, scheduled-find_command,
}
use durable_workflow_engine.History.Order.{
  index_history-seq, index_history-terminal_last, index_history-started_once,
}
use durable_workflow_engine.History.Unvisited.{IsLeastFrom, first_unvisited_command_lem}
use durable_workflow_engine.History.Extension.{
  Extends, index_history-Extends, index_history-IsBounded,
}
use durable_workflow_engine.Determinism.Workflows.{answers-append, perform-append}
use durable_workflow_engine.Replay.{
  Workflow, Answer, perform, settle, call, activity, run, finish, reraise, diverged,
  replay_workflow,
}
use durable_workflow_engine.Context.Activity.{
  ActivityCall, gather, evaluate_activity, call_command_id, gather_loop, activity_input, gathered,
  check_options, resolve_activity, end_activity,
}
use durable_workflow_engine.Base.Dict.{lookup, insert}
use durable_workflow_engine.Json.{end, field, null, Fields, str, nil, get, truthy}
use durable_workflow_engine.History.{
  HistoryEvent, index_history, InvalidHistory, HistoryIndex, add_events, add_event, check_order,
  empty_index, note_schedule, note_entity, note_activity_terminal, note_timer_terminal,
  note_child_terminal, note_signal, note_update, note_cancellation, note_terminal,
  first_unvisited_command, remaining, min_by_command,
}
use durable_workflow_engine.Base.{
  ℕ, List, Result, some, String, ◌∷◌, refl, [], ok, none, err, ◌≡◌, ◌==◌, true, ◌++◌, ◌↔◌, nat_eq,
  string_eq, false,
}
use durable_workflow_engine.Determinism.Children.{DumpsMembers}
use durable_workflow_engine.Platform.{Platform, fingerprint, canonical_json, clone_json, value_of}

-- A platform with constant texts; it satisfies `DumpsMembers`.
abbrev pub sample_platform : Platform
sample_platform = record {
  dumps = λ v. some "{}";
  loads = λ t. null;
  sha256 = λ t. 1 ∷ 2 ∷ [];
  hex = λ d. "0102";
  uuid5 = λ t. 7;
  uuid_text = λ u. "00000000-0000-0000-0000-000000000007";
  parse_uuid = λ t. some 7;
  decimal = λ n. "0";
  total_seconds = λ d. 0x3ff0000000000000;
  float_quotient = λ a b. 0;
  fromisoformat = λ t. none;
  isoformat = λ d. "2020-01-01T00:00:00+00:00";
}

sample-DumpsMembers : DumpsMembers sample_platform
sample-DumpsMembers fs t k v h g = ("{}", refl)

abbrev plain_event : ℕ → String → Fields → HistoryEvent
plain_event n t fs = record {
  seq = n;
  event_type = t;
  attributes = fs;
  command_id = none;
  entity_id = none;
  external_id = none;
}

abbrev started : HistoryEvent
started = plain_event 1 "WorkflowExecutionStarted" end

abbrev charged : HistoryEvent
charged = record (plain_event 2 "ActivityScheduled" (field "fingerprint" (str "0102") end)) {
  command_id = some 0;
  entity_id = some 7;
}

abbrev paid : HistoryEvent
paid = record (plain_event 3 "ActivityCompleted" (field "result" (str "paid") end)) {
  entity_id = some 7;
}

abbrev cancelled : HistoryEvent
cancelled = plain_event 3 "WorkflowCancellationRequested" end

abbrev finished : HistoryEvent
finished = plain_event 4 "WorkflowExecutionCompleted" end

abbrev shipped : HistoryEvent
shipped = record (plain_event 3 "ActivityScheduled" (field "fingerprint" (str "0102") end)) {
  command_id = some 1;
  entity_id = some 8;
}

abbrev refused : HistoryEvent
refused = record (plain_event 4 "ActivityFailed" (field "failure" (str "no funds") end)) {
  entity_id = some 7;
}

abbrev scheduled_history : List HistoryEvent
scheduled_history = started ∷ charged ∷ []

abbrev pub paid_history : List HistoryEvent
paid_history = started ∷ charged ∷ paid ∷ []

abbrev pub finished_history : List HistoryEvent
finished_history = started ∷ charged ∷ paid ∷ finished ∷ []

abbrev cancelled_history : List HistoryEvent
cancelled_history = started ∷ charged ∷ cancelled ∷ []

abbrev pub refused_history : List HistoryEvent
refused_history = started ∷ charged ∷ shipped ∷ refused ∷ []

abbrev index_or_empty : Result InvalidHistory HistoryIndex → HistoryIndex
index_or_empty (ok x) = x
index_or_empty (err e) = record { events = []; indexes = empty_index }

abbrev pub indexed : List HistoryEvent → HistoryIndex
indexed es = index_or_empty (index_history es)

scheduled_index : index_history scheduled_history ≡ ok (indexed scheduled_history)
unfolding index_history add_events add_event check_order note_schedule note_entity
    note_activity_terminal note_timer_terminal note_child_terminal note_signal note_update
    note_cancellation note_terminal lookup insert
scheduled_index = refl

pub paid_index : index_history paid_history ≡ ok (indexed paid_history)
unfolding index_history add_events add_event check_order note_schedule note_entity
    note_activity_terminal note_timer_terminal note_child_terminal note_signal note_update
    note_cancellation note_terminal lookup insert
paid_index = refl

pub finished_index : index_history finished_history ≡ ok (indexed finished_history)
unfolding index_history add_events add_event check_order note_schedule note_entity
    note_activity_terminal note_timer_terminal note_child_terminal note_signal note_update
    note_cancellation note_terminal lookup insert
finished_index = refl

cancelled_index : index_history cancelled_history ≡ ok (indexed cancelled_history)
unfolding index_history add_events add_event check_order note_schedule note_entity
    note_activity_terminal note_timer_terminal note_child_terminal note_signal note_update
    note_cancellation note_terminal lookup insert
cancelled_index = refl

refused_index : index_history refused_history ≡ ok (indexed refused_history)
unfolding index_history add_events add_event check_order note_schedule note_entity
    note_activity_terminal note_timer_terminal note_child_terminal note_signal note_update
    note_cancellation note_terminal lookup insert truthy get
refused_index = refl

abbrev charge : ActivityCall
charge = record {
  object = 0;
  own = true;
  name = "charge_card";
  args = nil;
  kwargs = end;
  retry = none;
  schedule_to_start = none;
  start_to_close = none;
  heartbeat_timeout = none;
}

abbrev ship : ActivityCall
ship = record charge { object = 1; name = "ship" }

abbrev order_workflow : Workflow
order_workflow = call (activity charge) (λ a. finish null) reraise

order_workflow-IsSteady : IsSteady order_workflow
order_workflow-IsSteady =
    plain (activity charge) (λ a. finish null) reraise refl (λ a. finishes null) (λ e. reraises e)

answers-append_example :
    (rest : List Answer) × (answers sample_platform order_workflow
        (new_context 1 (indexed finished_history))
      ≡ answers sample_platform order_workflow (new_context 1 (indexed paid_history)) ++ rest)
answers-append_example =
    answers-append sample_platform sample-DumpsMembers paid_history (finished ∷ [])
      (indexed paid_history) (indexed finished_history) 1 paid_index finished_index
      order_workflow-IsSteady

charge_settles :
    is_settled (perform sample_platform (activity charge) (new_context 1 (indexed paid_history))).0
    ≡ true
unfolding index_history add_events add_event check_order note_schedule note_entity
    note_activity_terminal note_timer_terminal note_child_terminal note_signal note_update
    note_cancellation note_terminal lookup insert perform evaluate_activity call_command_id
    activity_input check_options resolve_activity end_activity fingerprint canonical_json clone_json
    get
charge_settles = refl

perform-append_example :
    perform sample_platform (activity charge) (new_context 1 (indexed finished_history)) ≡ (
      (perform sample_platform (activity charge) (new_context 1 (indexed paid_history))).0,
      with_history
          (indexed finished_history)
          (perform sample_platform (activity charge) (new_context 1 (indexed paid_history))).1,
    )
perform-append_example =
    perform-append sample_platform sample-DumpsMembers paid_history (finished ∷ [])
      (indexed finished_history) (activity charge) (new_context 1 (indexed paid_history)) paid_index
      finished_index refl charge_settles

index_history-Extends_example :
    Extends (indexed scheduled_history).indexes (indexed paid_history).indexes
index_history-Extends_example =
    index_history-Extends scheduled_history (paid ∷ []) (indexed scheduled_history)
      (indexed paid_history) scheduled_index paid_index

first_unvisited_command_lem_example :
    IsLeastFrom 1
      (indexed refused_history).scheduled
      (first_unvisited_command (indexed refused_history) 1)
first_unvisited_command_lem_example =
    first_unvisited_command_lem refused_history (indexed refused_history) 1 refused_index

index_history-seq_example : paid.seq ≡ 3
index_history-seq_example =
    index_history-seq paid_history (indexed paid_history) paid_index 2 paid refl

index_history-terminal_last_example : ◌≡◌ {A = List HistoryEvent} [] []
index_history-terminal_last_example =
    index_history-terminal_last paid_history [] finished (indexed finished_history) finished_index
      refl

index_history-started_once_example :
    ((paid.event_type == "WorkflowExecutionStarted") ≡ true) ↔ (◌≡◌ {A = ℕ} 2 0)
index_history-started_once_example =
    index_history-started_once paid_history (indexed paid_history) paid_index 2 paid refl

scheduled-find_command_example :
    lookup 1 (indexed refused_history).scheduled ≡ find_command 1 refused_history
scheduled-find_command_example =
    scheduled-find_command refused_history (indexed refused_history) 1 refused_index

index_history-command_once_example : ◌≡◌ {A = ℕ} 2 2
index_history-command_once_example =
    index_history-command_once refused_history (indexed refused_history) 1 2 2 shipped shipped
      refused_index refl refl refl refl

gathers_charge :
    (gather sample_platform (charge ∷ []) (new_context 1 (indexed paid_history))).0
    ≡ returned (null ∷ [])
unfolding index_history add_events add_event check_order note_schedule note_entity
    note_activity_terminal note_timer_terminal note_child_terminal note_signal note_update
    note_cancellation note_terminal lookup insert gather gather_loop gathered evaluate_activity
    call_command_id activity_input check_options resolve_activity end_activity fingerprint
    canonical_json clone_json get
gathers_charge = refl

gather-again_example :
    gather sample_platform (charge ∷ []) (new_context 1 (indexed finished_history)) ≡ (
      returned (null ∷ []),
      with_history
          (indexed finished_history)
          (gather sample_platform (charge ∷ []) (new_context 1 (indexed paid_history))).1,
    )
gather-again_example =
    gather-again sample_platform (charge ∷ []) (new_context 1 (indexed paid_history))
      (indexed finished_history) (null ∷ [])
      (record {
        bounded = index_history-IsBounded paid_history (indexed paid_history) paid_index;
        extends =
            index_history-Extends paid_history (finished ∷ []) (indexed paid_history)
              (indexed finished_history) paid_index finished_index;
      })
      gathers_charge

compare_command_histories-compatible_example :
    ((compare_command_histories scheduled_history finished_history).compatible ≡ true)
    ↔ (signatures (commands_of scheduled_history) ≡ signatures (commands_of finished_history))
compare_command_histories-compatible_example =
    compare_command_histories-compatible scheduled_history finished_history

shorter : (compare_command_histories scheduled_history refused_history).compatible ≡ false
unfolding compare_command_histories compare_streams first_difference command_signature get
shorter = refl

compare_command_histories-matched_example :
    IsFirstDifference
      (commands_of scheduled_history)
      (commands_of refused_history)
      (compare_command_histories scheduled_history refused_history).matched_commands
compare_command_histories-matched_example =
    compare_command_histories-matched scheduled_history refused_history shorter

charged_found : find_command 0 cancelled_history ≡ some charged
unfolding find_command
charged_found = refl

null_clones : clone_json sample_platform null ≡ value_of null
unfolding clone_json canonical_json
null_clones = refl

stops_when_cancelled-diverges_example :
    (replay_workflow sample_platform
        (λ j. stops_when_cancelled null order_workflow)
        1
        null
        scheduled_history
      ≡ replay_workflow sample_platform (λ j. order_workflow) 1 null scheduled_history)
    × ((n : ℕ) × (u : HistoryEvent) × IsLeastCommand sample_platform n u cancelled_history
        × (replay_workflow sample_platform
              (λ j. stops_when_cancelled null order_workflow)
              1
              null
              cancelled_history
            ≡ err (diverged n (unvisited u.event_type))))
stops_when_cancelled-diverges_example =
    stops_when_cancelled-diverges sample_platform null null null (λ j. order_workflow) 1 0
      scheduled_history (cancelled ∷ []) (indexed scheduled_history) (indexed cancelled_history)
      charged null_clones scheduled_index cancelled_index refl refl charged_found

abbrev after_refusal : WorkflowContext
after_refusal =
    (evaluate_activity sample_platform charge (new_context 1 (indexed refused_history))).1

charge_refused :
    evaluate_activity sample_platform charge (new_context 1 (indexed refused_history))
    ≡ (raised (activity_error "charge_card" null), after_refusal)
unfolding index_history add_events add_event check_order note_schedule note_entity
    note_activity_terminal note_timer_terminal note_child_terminal note_signal note_update
    note_cancellation note_terminal lookup insert evaluate_activity call_command_id activity_input
    check_options resolve_activity end_activity fingerprint canonical_json clone_json get truthy
charge_refused = refl

ship_left :
    first_unvisited_command (indexed refused_history) after_refusal.next_command_id ≡ some shipped
unfolding index_history add_events add_event check_order note_schedule note_entity
    note_activity_terminal note_timer_terminal note_child_terminal note_signal note_update
    note_cancellation note_terminal lookup insert evaluate_activity call_command_id activity_input
    check_options resolve_activity end_activity fingerprint canonical_json clone_json get truthy
    first_unvisited_command remaining min_by_command
ship_left = refl

recovers-diverges_example :
    settle sample_platform (indexed refused_history) (
      run sample_platform
        (recovers (charge ∷ ship ∷ []) null)
        (new_context 1 (indexed refused_history)))
    ≡ err (diverged 1 (unvisited "ActivityScheduled"))
recovers-diverges_example =
    recovers-diverges sample_platform charge (ship ∷ []) null (indexed refused_history) 1 1
      "charge_card" null after_refusal shipped charge_refused ship_left refl
