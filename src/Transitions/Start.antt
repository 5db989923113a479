-- ===== src/Transitions/Start.antt =====
-- engine/persistence/transitions.py: `register_workflow_definition`, `start_workflow`,
-- `retry_workflow` and `update_search_attributes`.
use durable_workflow_engine.Leasing.{positive}
use durable_workflow_engine.Base.Dict.{lookup, has_key, insert}
use durable_workflow_engine.Store.{Execution, AuditContext, same_option}
use durable_workflow_engine.Json.{
  Json, Fields, null, Items, int, str, remove, nil, obj, cons, field, as_obj, object, put, merge,
  end, arr,
}
use durable_workflow_engine.Base.Int.{ℤ, pos}
use durable_workflow_engine.Store.Tx.{
  Session, Tx, fetch_execution, Void, ◌>>=◌, ◌>>◌, guard, encode, clone, pure, require,
  insert_execution, no_workflow, definition_conflict, not_registered, insert_event, event,
  value_error, wake, transition_error, type_error, record_api_audit, update_execution,
}
use durable_workflow_engine.Base.{
  String, ℕ, Option, List, ok, none, Bool, ◌∷◌, some, if◌then◌else◌, ◌+◌, true, is_some, not, [],
  ◌==◌, ◌||◌, ◌&&◌, string_eq, leb,
}
use durable_workflow_engine.Definitions.{pair_eq}

pub record WorkflowRequest : Type 0 where
  pub workflow_type : String
  pub definition_version : ℤ
  pub workflow_input : Json
  pub queue_name : String
  pub workflow_id : Option ℕ
  pub search_attributes : Fields
  pub retry_of : Option ℕ

-- `insert … on conflict do nothing`.
unfoldable pub add_definition : String × ℕ → String → Tx Void
add_definition key hash s =
    if has_key key s.definitions
    then ok (tt, s)
    else ok (tt, record s { definitions = insert key hash s.definitions })

unfoldable pub fetch_definition : String × ℕ → Tx (Option String)
fetch_definition key s = ok (lookup key s.definitions, s)

unfoldable pub register_workflow_definition : (name : String) → ℕ → (code_hash : String) → Tx Void
unfolding add_definition fetch_definition
register_workflow_definition name version code_hash = do
  add_definition (name, version) code_hash
  stored ← fetch_definition (name, version)
  guard (same_option stored code_hash) (definition_conflict name version)

-- `select exists (… from workflow_definitions …)`.
unfoldable pub require_definition : String → ℕ → Tx Void
unfolding fetch_definition
require_definition name version = do
  stored ← fetch_definition (name, version)
  guard (is_some stored) (not_registered name version)

-- `uuid4()`.
unfoldable pub draw : (ℕ → ℕ) → Tx ℕ
draw uuid4 s = ok (uuid4 s.drawn, record s { drawn = s.drawn + 1 })

abbrev pub opt_int : Option ℕ → Json
opt_int none = null
opt_int (some n) = int (pos n)

module _ (x : Session) where
  -- The columns of a new execution; its next event has the number 2.
  abbrev pub new_execution :
      (workflow_type : String) → ℕ → (input queue_name search_attributes : String) → Execution
  new_execution workflow_type version input queue_name search_attributes = record {
    workflow_type = workflow_type;
    definition_version = version;
    input = input;
    status = "running";
    result = none;
    failure = none;
    next_seq = 2;
    queue_name = queue_name;
    search_attributes = search_attributes;
    created_at = x.clock;
    closed_at = none;
    paused_at = none;
    pause_reason = none;
    cancellation_requested_at = none;
    cancellation_reason = none;
    retry_of = none;
    parent_workflow_id = none;
    parent_command_id = none;
    parent_close_policy = none;
    schedule_id = none;
    scheduled_at = none;
    continued_from = none;
    continued_to = none;
  }

  -- The rows of a new execution: itself, its first event, and its first task.
  unfoldable pub insert_workflow : ℕ → Execution → (started : String) → Tx Void
  insert_workflow w e attributes = do
    insert_execution w e
    insert_event (event w 1 "WorkflowExecutionStarted" none none attributes)
    wake x w e.queue_name

  abbrev pub id_text : Option ℕ → Json
  id_text none = null
  id_text (some u) = str (x.platform.uuid_text u)

  -- The rows of the new execution, and the record of the request.
  unfoldable pub insert_new :
      WorkflowRequest
      → (version id : ℕ) (input : String) (attributes : Fields)
        (encoded_attributes started : String)
      → Option AuditContext
      → Tx ℕ
  unfolding insert_workflow
  insert_new r version id input attributes encoded_attributes started audit = do
    insert_workflow id
        (record (new_execution r.workflow_type version input r.queue_name encoded_attributes) {
          retry_of = r.retry_of;
        })
        started
    record_api_audit x audit (some id) true (
        object (
          ("workflow_type", str r.workflow_type)
          ∷ ("definition_version", int (pos version))
          ∷ ("queue_name", str r.queue_name)
          ∷ ("search_attributes", obj attributes)
          ∷ ("retry_of", id_text r.retry_of)
          ∷ []))
    pure id

  unfoldable pub insert_started : WorkflowRequest → ℕ → ℕ → Option AuditContext → Tx ℕ
  unfolding insert_new require_definition
  insert_started r version id audit = do
    detached ← clone x r.workflow_input
    cloned ← clone x (obj r.search_attributes)
    attributes ← require (as_obj cloned) (value_error "search_attributes must be a JSON object")
    encoded_attributes ← encode x (obj attributes)
    guard (leb (x.byte_length encoded_attributes) 16000)
        (value_error "search_attributes cannot exceed 16 KB")
    encoded_input ← encode x detached
    started ← encode x (
        object (
          ("workflow_type", str r.workflow_type)
          ∷ ("definition_version", int (pos version))
          ∷ ("input", detached)
          ∷ ("search_attributes", obj attributes)
          ∷ ("started_at", str (x.time_text x.clock))
          ∷ []))
    require_definition r.workflow_type version
    insert_new r version id encoded_input attributes encoded_attributes started audit

  -- `workflow_id or uuid4()`.
  abbrev pub chosen_id : Option ℕ → Tx ℕ
  chosen_id none = draw x.uuid4
  chosen_id (some id) = pure id

  -- The result is the identity of the execution.
  unfoldable pub start_workflow : WorkflowRequest → Option AuditContext → Tx ℕ
  unfolding insert_started draw
  start_workflow r audit = do
    guard (not (r.workflow_type == "")) (value_error "workflow_type cannot be empty")
    version ←
        require (positive r.definition_version)
          (value_error "definition_version must be at least 1")
    guard (not (r.queue_name == "")) (value_error "queue_name cannot be empty")
    id ← chosen_id r.workflow_id
    insert_started r version id audit

  abbrev pub decoded : String → Json
  decoded t = x.platform.loads t

  unfoldable pub retry_workflow : ℕ → Option AuditContext → Tx ℕ
  unfolding start_workflow fetch_execution
  retry_workflow w audit = do
    found ← fetch_execution w
    original ← require found (no_workflow w)
    guard (original.status == "failed" || original.status == "terminated")
        (transition_error "only failed or terminated workflows can be retried")
    attributes ←
        require (as_obj (decoded original.search_attributes))
          (type_error "stored search attributes must be a JSON object")
    start_workflow
        (record {
          workflow_type = original.workflow_type;
          definition_version = pos original.definition_version;
          workflow_input = decoded original.input;
          queue_name = original.queue_name;
          workflow_id = none;
          search_attributes = put "dwe.retry_of" (str (x.platform.uuid_text w)) attributes;
          retry_of = some w;
        })
        audit

  abbrev pub keys_valid : Fields → Bool
  keys_valid end = true
  keys_valid (field k v fs) = (not (k == "") && leb (x.text_length k) 200) && keys_valid fs

  abbrev pub names_valid : List String → Bool
  names_valid [] = true
  names_valid (k ∷ ks) = (not (k == "") && leb (x.text_length k) 200) && names_valid ks

  abbrev pub without : List String → Fields → Fields
  without [] fs = fs
  without (k ∷ ks) fs = without ks (remove k fs)

  abbrev pub names : List String → Items
  names [] = nil
  names (k ∷ ks) = cons (str k) (names ks)

  unfoldable pub update_search_attributes :
      ℕ → Fields → List String → Option AuditContext → Tx Fields
  unfolding fetch_execution
  update_search_attributes w attributes unset audit = do
    cloned ← clone x (obj attributes)
    detached ← require (as_obj cloned) (value_error "attributes must be a JSON object")
    guard (keys_valid detached && names_valid unset)
        (value_error "search attribute keys must contain 1 to 200 characters")
    found ← fetch_execution w
    e ← require found (no_workflow w)
    current ←
        require (as_obj (decoded e.search_attributes))
          (type_error "stored search attributes must be a JSON object")
    text ← encode x (obj (without unset (merge current detached)))
    guard (leb (x.byte_length text) 16000) (value_error "search_attributes cannot exceed 16 KB")
    update_execution w (λ e. record e { search_attributes = text })
    record_api_audit x audit (some w) true
        (object (("set", obj detached) ∷ ("unset", arr (names unset)) ∷ []))
    pure (without unset (merge current detached))
