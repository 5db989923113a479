-- ===== src/Sequence/Origins.antt =====
-- engine/persistence/transitions.py: `register_workflow_definition`, `start_workflow` and
-- `retry_workflow`: the numbers of the events.
use durable_workflow_engine.Json.{Fields}
use durable_workflow_engine.Sequence.Starts.{insert_workflow-Keeps}
use durable_workflow_engine.Store.{AuditContext}
use durable_workflow_engine.Sequence.Stages.{Keeps}
use durable_workflow_engine.Sequence.Whole.{quiet-Keeps, quiet_first-Keeps, bind-Keeps}
use durable_workflow_engine.Sequence.Triples.{
  IsQuiet, quietness, guard-IsQuiet, pure-IsQuiet, require-IsQuiet, record_api_audit-IsQuiet,
  fetch_execution-IsQuiet, encoded-IsQuiet, bind-IsQuiet,
}
use durable_workflow_engine.Base.{String, ℕ, Option, arith, some, none, refl}
use durable_workflow_engine.Store.Tx.{Session}
use durable_workflow_engine.Transitions.Start.{
  fetch_definition, require_definition, add_definition, draw, register_workflow_definition,
  insert_started, start_workflow, retry_workflow, WorkflowRequest, chosen_id, insert_workflow,
  insert_new,
}

pub fetch_definition-IsQuiet : (key : String × ℕ) → IsQuiet (fetch_definition key)
unfolding fetch_definition
fetch_definition-IsQuiet key = record { same = λ s r a h. ground arith }

pub require_definition-IsQuiet : (name : String) (v : ℕ) → IsQuiet (require_definition name v)
unfolding require_definition
require_definition-IsQuiet name v = search (quietness, fetch_definition-IsQuiet)

add_definition-IsQuiet : (key : String × ℕ) (hash : String) → IsQuiet (add_definition key hash)
unfolding add_definition
add_definition-IsQuiet key hash = record { same = λ s r a h. ground arith }

draw-IsQuiet : (uuid4 : ℕ → ℕ) → IsQuiet (draw uuid4)
unfolding draw
draw-IsQuiet uuid4 = record { same = λ s r a h. ground arith }

pub register_workflow_definition-Keeps :
    (name : String) (version : ℕ) (code_hash : String)
    → Keeps (register_workflow_definition name version code_hash)
unfolding register_workflow_definition
register_workflow_definition-Keeps name version code_hash =
    quiet-Keeps _ (search (quietness, fetch_definition-IsQuiet, add_definition-IsQuiet))

module _ (x : Session) where
  insert_new-Keeps :
      (r : WorkflowRequest) (version id : ℕ) (input : String) (attributes : Fields)
      (encoded_attributes first : String) (audit : Option AuditContext)
      → Keeps (insert_new x r version id input attributes encoded_attributes first audit)
  unfolding insert_new
  insert_new-Keeps r version id input attributes encoded_attributes first audit =
      bind-Keeps (insert_workflow x id _ first) _ (insert_workflow-Keeps x id _ first refl)
        (λ _. quiet-Keeps _ (search (bind-IsQuiet, record_api_audit-IsQuiet, pure-IsQuiet)))

  insert_started-Keeps :
      (r : WorkflowRequest) (version id : ℕ) (audit : Option AuditContext)
      → Keeps (insert_started x r version id audit)
  unfolding insert_started
  insert_started-Keeps r version id audit =
      search
        (
          quiet_first-Keeps, encoded-IsQuiet, require-IsQuiet, guard-IsQuiet,
          require_definition-IsQuiet, insert_new-Keeps,
        )
        depth 30

  chosen_id-IsQuiet : (o : Option ℕ) → IsQuiet (chosen_id x o)
  chosen_id-IsQuiet none = draw-IsQuiet x.uuid4
  chosen_id-IsQuiet (some id) = pure-IsQuiet id

  pub start_workflow-Keeps :
      (r : WorkflowRequest) (audit : Option AuditContext) → Keeps (start_workflow x r audit)
  unfolding start_workflow
  start_workflow-Keeps r audit =
      search
        (quiet_first-Keeps, guard-IsQuiet, require-IsQuiet, chosen_id-IsQuiet, insert_started-Keeps)
        depth 20

  pub retry_workflow-Keeps :
      (w : ℕ) (audit : Option AuditContext) → Keeps (retry_workflow x w audit)
  unfolding retry_workflow
  retry_workflow-Keeps w audit =
      search
        (
          quiet_first-Keeps, guard-IsQuiet, require-IsQuiet, fetch_execution-IsQuiet,
          start_workflow-Keeps,
        )
        depth 20
