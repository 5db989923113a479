-- ===== src/Commands.antt =====
-- engine/runtime/commands.py: the commands that replay emits. Seconds are floats, so bit patterns.
use durable_workflow_engine.Json.{Fields, Json}
use durable_workflow_engine.Base.{ℕ, String, Option, Bool}

pub data Command : Type 0 where
  schedule_activity :
      (command_id entity_id : ℕ) (activity_type : String) (input retry_policy : Fields)
      (schedule_to_start_seconds start_to_close_seconds heartbeat_timeout_seconds : Option ℕ)
      (fingerprint : String)
      → Command
  schedule_timer :
      (command_id entity_id delay_seconds : ℕ) (purpose : String) (signal_name : Option String)
      (fingerprint : String)
      → Command
  record_marker :
      (command_id : ℕ) (marker_type : String) (value : Json) (fingerprint : String) → Command
  start_child_workflow :
      (command_id child_workflow_id : ℕ) (workflow_type : String) (definition_version : ℕ)
      (input : Json) (queue_name : Option String) (parent_close_policy fingerprint : String)
      → Command
  resolve_workflow_update :
      (command_id : ℕ) (update_id : String) (accepted : Bool) (outcome : Json)
      (fingerprint : String)
      → Command
  continue_as_new :
      (command_id new_workflow_id : ℕ) (workflow_type : String) (definition_version : ℕ)
      (input : Json) (queue_name : Option String) (fingerprint : String)
      → Command

-- The ordinal of the SDK call that emitted the command.
unfoldable pub command_id : Command → ℕ
command_id (schedule_activity c _ _ _ _ _ _ _ _) = c
command_id (schedule_timer c _ _ _ _ _) = c
command_id (record_marker c _ _ _) = c
command_id (start_child_workflow c _ _ _ _ _ _ _) = c
command_id (resolve_workflow_update c _ _ _ _) = c
command_id (continue_as_new c _ _ _ _ _ _) = c
