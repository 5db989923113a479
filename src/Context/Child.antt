-- ===== src/Context/Child.antt =====
-- engine/sdk/context.py: `child_workflow` and `_evaluate_child_workflow`.
use durable_workflow_engine.Commands.{start_child_workflow}
use durable_workflow_engine.Base.Int.{pos}
use durable_workflow_engine.History.{HistoryEvent}
use durable_workflow_engine.Context.{
  M, ◌>>◌, guard, value_error, non_determinism, ◌>>=◌, expected, take_command_id, serialized,
  opt_string, has_fingerprint, changed, pure, recorded_entity, raise, new_commands, clone_attribute,
  child_workflow_error, entity_uuid, await_end, recorded_or,
}
use durable_workflow_engine.Json.{Json, Fields, obj, field, truthy, str, get_null, int, end}
use durable_workflow_engine.Platform.{Platform, clone_json, fingerprint}
use durable_workflow_engine.Base.{
  Bool, Option, String, ℕ, false, if◌then◌else◌, some, ◌==◌, ◌||◌, none, not, string_eq, true, ◌∷◌,
  nat_eq, [],
}

-- A `ChildWorkflowCall`; `own` is `call.context is self`.
pub record ChildWorkflowCall : Type 0 where
  pub own : Bool
  pub name : String
  pub version : ℕ
  pub input : Json
  pub queue_name : Option String
  pub parent_close_policy : String

abbrev pub is_empty_name : Option String → Bool
is_empty_name none = false
is_empty_name (some q) = q == ""

module _ (p : Platform) where
  unfoldable pub child_workflow : String → ℕ → Json → Option String → String → M ChildWorkflowCall
  child_workflow name version input queue_name close = do
    guard (close == "terminate" || close == "abandon")
        (value_error "parent_close_policy must be 'terminate' or 'abandon'")
    guard (not (is_empty_name queue_name)) (value_error "child queue_name cannot be empty")
    detached ← serialized (clone_json p input)
    pure (record {
      own = true;
      name = name;
      version = version;
      input = detached;
      queue_name = queue_name;
      parent_close_policy = close;
    })

  abbrev pub child_identity : ChildWorkflowCall → Json
  child_identity call = obj (
      field "command_type" (str "child_workflow") (
        field "workflow_type" (str call.name) (
          field "definition_version" (int (pos call.version)) (
            field "input" call.input (
              field "queue_name" (opt_string call.queue_name)
                (field "parent_close_policy" (str call.parent_close_policy) end))))))

  -- The failure of a child: `attributes.get("failure") or attributes.get("reason")`.
  abbrev failure_or_reason : Fields → Json
  failure_or_reason a =
      if truthy (get_null "failure" a) then get_null "failure" a else get_null "reason" a

  -- The result of a child that has closed, or its failure.
  unfoldable pub end_child : String → HistoryEvent → M Json
  end_child name t =
      if t.event_type == "ChildWorkflowCompleted"
      then clone_attribute p "result" t
      else serialized (clone_json p (failure_or_reason t.attributes)) >>= λ failure.
          raise (child_workflow_error name failure)

  -- A child that the history has started.
  unfoldable pub resolve_child : String → ℕ → String → HistoryEvent → M Json
  resolve_child name n f s = do
    guard (s.event_type == "ChildWorkflowStarted")
        (non_determinism n (expected "child workflow" s.event_type))
    guard (has_fingerprint s f) (non_determinism n (changed "child workflow"))
    entity ← recorded_entity n "child workflow" s
    await_end (λ x. x.child_terminal) entity (end_child name)

  unfoldable pub evaluate_child_workflow : ChildWorkflowCall → M Json
  evaluate_child_workflow call = do
    guard call.own (value_error "child workflow call belongs to a different workflow context")
    n ← take_command_id
    f ← serialized (fingerprint p (child_identity call))
    recorded_or n
        (λ c. serialized (clone_json p call.input) >>= λ input. raise (
          new_commands (
            start_child_workflow n (entity_uuid p c.workflow_id "child" n) call.name call.version
              input call.queue_name call.parent_close_policy f
            ∷ [])))
        (resolve_child call.name n f)
