-- ===== src/Transitions/Append.antt =====
-- engine/persistence/transitions.py: what a command of a workflow task writes.
use durable_workflow_engine.Base.Int.{pos}
use durable_workflow_engine.Context.{opt_string, opt_float}
use durable_workflow_engine.Store.{UpdateRow, first_where}
use durable_workflow_engine.Transitions.Start.{require_definition, insert_workflow, new_execution}
use durable_workflow_engine.Json.{Json, str, Fields, object, float, obj, int, bool}
use durable_workflow_engine.Store.Tx.{
  Session, Tx, Void, append_event, ◌>>=◌, ◌>>◌, encode, require, insert_task, transition_error,
  insert_event, new_task, update_updates, event,
}
use durable_workflow_engine.Base.{
  ℕ, Option, String, ◌+◌, Bool, some, if◌then◌else◌, none, ok, ◌==◌, string_eq, ◌&&◌, ◌∷◌, [],
  nat_eq,
}
use Prim.Native.String.{◌++◌ as ◌++ˢ◌}

-- `workflow_updates` row that is resolved, and what `returning name` gives.
unfoldable pub pending_update : ℕ → String → Tx (Option UpdateRow)
pending_update w id s = ok (
  first_where (λ u. u.workflow_id == w && (u.update_id == id && u.status == "pending")) s.updates,
  s,
)

-- `a or b` of texts.
abbrev pub or_else : Option String → String → String
or_else none b = b
or_else (some a) b = if a == "" then b else a

module _ (x : Session) where
  abbrev pub id_str : ℕ → Json
  id_str u = str (x.platform.uuid_text u)

  abbrev pub later_seconds : ℕ → ℕ
  later_seconds d = x.now + x.seconds d

  abbrev pub map_seconds : (ℕ → ℕ) → Option ℕ → Option ℕ
  map_seconds f none = none
  map_seconds f (some d) = some (f d)

  unfoldable pub append_activity_command :
      ℕ
      → ℕ
      → (command_id entity_id : ℕ) (activity_type : String) (input retry_policy : Fields)
        (to_start to_close heartbeat : Option ℕ) (fingerprint queue_name : String)
      → Tx Void
  append_activity_command w seq c u activity_type input policy to_start to_close heartbeat f
        queue_name =
      do
        attributes ← encode x (
            object (
              ("activity_type", str activity_type)
              ∷ ("fingerprint", str f)
              ∷ ("input", obj input)
              ∷ ("retry_policy", obj policy)
              ∷ ("schedule_to_start_seconds", opt_float to_start)
              ∷ ("start_to_close_seconds", opt_float to_close)
              ∷ ("heartbeat_timeout_seconds", opt_float heartbeat)
              ∷ ("idempotency_key", id_str u)
              ∷ []))
        task_input ← encode x (
            object (
              ("activity_type", str activity_type)
              ∷ ("input", obj input)
              ∷ ("idempotency_key", id_str u)
              ∷ ("retry_policy", obj policy)
              ∷ []))
        insert_event (event w seq "ActivityScheduled" (some c) (some u) attributes)
        insert_task x.uuid4 (λ id. record (new_task x w "activity" queue_name id) {
          entity_id = some u;
          command_id = some c;
          input = some task_input;
          schedule_to_start_deadline = map_seconds later_seconds to_start;
          schedule_to_start_timeout = map_seconds x.seconds to_start;
          start_to_close_timeout = map_seconds x.seconds to_close;
          heartbeat_timeout = map_seconds x.seconds heartbeat;
        })

  unfoldable pub append_timer_command :
      ℕ
      → ℕ
      → (command_id entity_id delay : ℕ) (purpose : String) (signal_name : Option String)
        (fingerprint queue_name : String)
      → Tx Void
  append_timer_command w seq c u delay purpose signal_name f queue_name = do
    append_event x w seq "TimerStarted" (some c) (some u) (
        object (
          ("delay_seconds", float delay)
          ∷ ("fingerprint", str f)
          ∷ ("purpose", str purpose)
          ∷ ("signal_name", opt_string signal_name)
          ∷ []))
    task_input ← encode x (
        object (
          ("delay_seconds", float delay)
          ∷ ("purpose", str purpose)
          ∷ ("signal_name", opt_string signal_name)
          ∷ []))
    insert_task x.uuid4 (λ id. record (new_task x w "timer" queue_name id) {
      entity_id = some u;
      command_id = some c;
      input = some task_input;
      visible_at = later_seconds delay;
    })

  unfoldable pub append_marker_command :
      ℕ
      → ℕ
      → (command_id : ℕ) (marker_type : String) (value : Json) (fingerprint : String) → Tx Void
  append_marker_command w seq c marker_type value f =
      append_event x w seq "MarkerRecorded" (some c) none
        (object (("marker_type", str marker_type) ∷ ("value", value) ∷ ("fingerprint", str f) ∷ []))

  abbrev pub resolved_row : Bool → String → UpdateRow → UpdateRow
  resolved_row accepted text u = record u {
    status = if accepted then "completed" else "rejected";
    result = if accepted then some text else none;
    failure = if accepted then none else some text;
    completed_at = some x.now;
  }

  unfoldable pub append_update_resolution :
      ℕ
      → ℕ
      → (command_id : ℕ) (update_id : String) (accepted : Bool) (outcome : Json)
        (fingerprint : String)
      → Tx Void
  unfolding pending_update
  append_update_resolution w seq c id accepted outcome f = do
    text ← encode x outcome
    found ← pending_update w id
    row ← require found (transition_error "workflow update is missing or already resolved")
    update_updates (λ u. u.workflow_id == w && (u.update_id == id && u.status == "pending"))
        (resolved_row accepted text)
    attributes ← encode x (
        object (
          ("update_id", str id)
          ∷ ("name", str row.name)
          ∷ ("accepted", bool accepted)
          ∷ ("outcome", outcome)
          ∷ ("fingerprint", str f)
          ∷ []))
    insert_event (record (event w seq "WorkflowUpdateResolved" (some c) none attributes) {
      external_id = some ("update-result:" ++ˢ id);
    })

  unfoldable pub append_child_workflow_command :
      ℕ
      → ℕ
      → (command_id child : ℕ) (workflow_type : String) (version : ℕ) (input : Json)
        (queue_name : Option String) (close_policy fingerprint parent_queue_name : String)
      → Tx Void
  unfolding require_definition insert_workflow
  append_child_workflow_command w seq c child workflow_type version input queue_name close_policy f
        parent_queue_name =
      do
        let queue = or_else queue_name parent_queue_name
        let attributes =
            object
              (("dwe.parent_workflow_id", id_str w) ∷ ("dwe.parent_command_id", int (pos c)) ∷ [])
        require_definition workflow_type version
        append_event x w seq "ChildWorkflowStarted" (some c) (some child) (
            object (
              ("workflow_type", str workflow_type)
              ∷ ("definition_version", int (pos version))
              ∷ ("input", input)
              ∷ ("queue_name", str queue)
              ∷ ("parent_close_policy", str close_policy)
              ∷ ("fingerprint", str f)
              ∷ []))
        encoded_input ← encode x input
        encoded_attributes ← encode x attributes
        started ← encode x (
            object (
              ("workflow_type", str workflow_type)
              ∷ ("definition_version", int (pos version))
              ∷ ("input", input)
              ∷ ("search_attributes", attributes)
              ∷ ("started_at", str (x.time_text x.clock))
              ∷ ("parent_workflow_id", id_str w)
              ∷ ("parent_command_id", int (pos c))
              ∷ []))
        insert_workflow x child
            (record (new_execution x workflow_type version encoded_input queue encoded_attributes) {
              parent_workflow_id = some w;
              parent_command_id = some c;
              parent_close_policy = some close_policy;
            })
            started
