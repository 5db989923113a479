-- ===== src/Determinism/Steady.antt =====
-- engine/runtime/replay.py: the code whose replay is reproducible, and what replay answers to code.
-- Calls whose answers are stable whatever follows them.
use durable_workflow_engine.Context.Activity.{ActivityCall}
use durable_workflow_engine.Context.{WorkflowContext, Raised, returned, raised}
use durable_workflow_engine.Json.{Json}
use durable_workflow_engine.Base.{Bool, List, false, String, true, [], ◌≡◌, ◌∷◌}
use durable_workflow_engine.Platform.{Platform}
use durable_workflow_engine.Replay.{
  Call, Workflow, finish, gather_all, Answer, fail, cancellation_requested, reraise, call, perform,
  is_suspension,
}

abbrev pub is_plain : Call → Bool
is_plain (gather_all calls) = false
is_plain cancellation_requested = false
is_plain _ = true

-- Workflow code that does not read `ctx.cancellation_requested` and does not catch a failure of
-- `gather`: Determinism/Hazards shows what happens to other code.
pub data IsSteady : Workflow → Type 0 where
  finishes : (v : Json) → IsSteady (finish v)
  fails : (type message : String) → IsSteady (fail type message)
  reraises : (e : Raised) → IsSteady (reraise e)
  plain :
      (k : Call) (next : Answer → Workflow) (handle : Raised → Workflow)
      → is_plain k ≡ true
      → ((a : Answer) → IsSteady (next a))
      → ((e : Raised) → IsSteady (handle e))
      → IsSteady (call k next handle)
  gathers :
      (calls : List ActivityCall) (next : Answer → Workflow)
      → ((a : Answer) → IsSteady (next a))
      → IsSteady (call (gather_all calls) next reraise)

module _ (p : Platform) where
  -- The answers that the code is given, in order, until it ends or is suspended.
  unfoldable pub answers : Workflow → WorkflowContext → List Answer
  answers (finish v) c = []
  answers (fail t m) c = []
  answers (reraise e) c = []
  answers (call k next handle) c =
      let (outcome, c') = perform p k c in
      elim outcome [
        | returned a ↦ a ∷ answers (next a) c'
        | raised e ↦ elim (is_suspension e) [ true ↦ [] | false ↦ answers (handle e) c' ]
      ]
