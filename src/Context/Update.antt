-- ===== src/Context/Update.antt =====
-- engine/sdk/context.py: `wait_update` and `resolve_update`.
use durable_workflow_engine.Commands.{resolve_workflow_update}
use durable_workflow_engine.Context.Signal.{first_matching}
use durable_workflow_engine.Context.{
  M, ◌>>=◌, ◌>>◌, ask, guard, take_command_id, serialized, value_error, non_determinism, expected,
  raise, has_fingerprint, no_identity, blocked, changed, new_commands, modify, clone_attribute,
  pure, recorded_or, if_none, raised,
}
use durable_workflow_engine.History.{HistoryEvent}
use durable_workflow_engine.Json.{Json, obj, field, as_str, str, get_null, bool, end}
use durable_workflow_engine.Platform.{Platform, clone_json, fingerprint}
use durable_workflow_engine.Base.{String, Bool, ℕ, not, ◌==◌, none, some, string_eq, ◌∷◌, []}

pub record WorkflowUpdate : Type 0 where
  pub id : String
  pub name : String
  pub payload : Json

module _ (p : Platform) where
  abbrev pub missing_update_id : M WorkflowUpdate
  missing_update_id c = (raised (non_determinism c.next_command_id (no_identity "update")), c)

  -- The body of the loop for a matching event.
  unfoldable pub consume_update : String → HistoryEvent → M WorkflowUpdate
  consume_update name e = elim (as_str (get_null "update_id" e.attributes)) [
    | none ↦ missing_update_id
    | some update_id ↦ do
      modify (λ c. record c { consumed_update_seqs = e.seq ∷ c.consumed_update_seqs })
      payload ← clone_attribute p "payload" e
      pure (record { id = update_id; name = name; payload = payload })
  ]

  unfoldable pub wait_update : String → M WorkflowUpdate
  wait_update name = do
    guard (not (name == "")) (value_error "update name cannot be empty")
    c ← ask
    if_none (first_matching name c.consumed_update_seqs c.history.updates) (raise blocked)
        (consume_update name)

  abbrev update_identity : String → Bool → Json → Json
  update_identity id accepted outcome = obj (
      field "command_type" (str "resolve_update") (
        field "update_id" (str id)
          (field "accepted" (bool accepted) (field "outcome" outcome end))))

  unfoldable pub check_resolution : ℕ → String → HistoryEvent → M (Unit {0})
  check_resolution n f s = do
    guard (s.event_type == "WorkflowUpdateResolved")
        (non_determinism n (expected "update resolution" s.event_type))
    guard (has_fingerprint s f) (non_determinism n (changed "update resolution"))

  unfoldable pub resolve_update : WorkflowUpdate → Json → Bool → M (Unit {0})
  resolve_update update outcome accepted = do
    n ← take_command_id
    detached ← serialized (clone_json p outcome)
    f ← serialized (fingerprint p (update_identity update.id accepted detached))
    recorded_or n
        (λ c. raise (new_commands (resolve_workflow_update n update.id accepted detached f ∷ [])))
        (check_resolution n f)
