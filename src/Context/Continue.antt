-- ===== src/Context/Continue.antt =====
-- engine/sdk/context.py: `continue_as_new`.
use durable_workflow_engine.Commands.{Command}
use durable_workflow_engine.Base.Int.{pos}
use durable_workflow_engine.Context.Child.{is_empty_name}
use durable_workflow_engine.Context.{
  M, ◌>>◌, guard, non_determinism, expected, value_error, opt_string, has_fingerprint, ◌>>=◌,
  changed, take_command_id, recorded_entity, serialized, raise, continue_as_new_recorded,
  new_commands, entity_uuid, recorded_or,
}
use durable_workflow_engine.History.{HistoryEvent}
use durable_workflow_engine.Json.{Json, obj, field, str, int, end}
use durable_workflow_engine.Base.{String, ℕ, Option, ◌==◌, not, string_eq, ◌∷◌, []}
use durable_workflow_engine.Platform.{Platform, clone_json, fingerprint}

module _ (p : Platform) where
  abbrev continue_identity : String → ℕ → Json → Option String → Json
  continue_identity name version input queue_name = obj (
      field "command_type" (str "continue_as_new") (
        field "workflow_type" (str name) (
          field "definition_version" (int (pos version))
            (field "input" input (field "queue_name" (opt_string queue_name) end)))))

  -- A continuation that the history has.
  unfoldable pub recorded_continuation : ℕ → String → HistoryEvent → M (Unit {0})
  recorded_continuation n f s = do
    guard (s.event_type == "WorkflowExecutionContinuedAsNew")
        (non_determinism n (expected "continue-as-new" s.event_type))
    guard (has_fingerprint s f) (non_determinism n (changed "continue-as-new"))
    entity ← recorded_entity n "continuation" s
    raise (continue_as_new_recorded entity)

  -- `continue_as_new(definition, input, queue_name=…)`. It never returns.
  unfoldable pub continue_as_new : String → ℕ → Json → Option String → M (Unit {0})
  continue_as_new name version input queue_name = do
    guard (not (is_empty_name queue_name)) (value_error "continuation queue_name cannot be empty")
    n ← take_command_id
    detached ← serialized (clone_json p input)
    f ← serialized (fingerprint p (continue_identity name version detached queue_name))
    recorded_or n
        (λ c. raise (
          new_commands (
            Command.continue_as_new n (entity_uuid p c.workflow_id "continue-as-new" n) name version
              detached queue_name f
            ∷ [])))
        (recorded_continuation n f)
