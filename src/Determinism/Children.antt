-- ===== src/Determinism/Children.antt =====
-- engine/sdk/context.py: `_evaluate_child_workflow`. It detaches the input of a new child after it has
-- hashed a value that holds this input, so here the part of what json.dumps accepts counts too.
use durable_workflow_engine.Commands.{start_child_workflow}
use durable_workflow_engine.Determinism.Calls.{resolve_child-IsStable}
use durable_workflow_engine.Context.{
  M, serialized, recorded_or, ◌>>=◌, raise, new_commands, entity_uuid,
}
use durable_workflow_engine.Determinism.{IsStable, stability, recorded_or-IsStable}
use durable_workflow_engine.Base.{String, ℕ, ◌≡◌, some, none, refl, ◌∷◌, [], Option-cases, inl, inr}
use durable_workflow_engine.Context.Child.{
  ChildWorkflowCall, evaluate_child_workflow, child_identity, resolve_child,
}
use durable_workflow_engine.Json.{Fields, Json, obj, get}
use durable_workflow_engine.Platform.{
  Platform, clone_json, canonical_json, fingerprint, value_of, serialization_error,
}

-- A member of an object that json.dumps accepts is accepted.
abbrev pub DumpsMembers : Platform → Type 0
DumpsMembers p =
    (fs : Fields) (t k : String) (v : Json)
    → p.dumps (obj fs) ≡ some t
    → get k fs ≡ some v
    → (u : String) × (p.dumps v ≡ some u)

module _ (p : Platform) (members : DumpsMembers p) where
  -- The operation after its guard and its identity, for a context.
  abbrev rest : ChildWorkflowCall → ℕ → String → M Json
  rest call n f =
      recorded_or n
        (λ c. serialized (clone_json p call.input) >>= λ input. raise (
          new_commands (
            start_child_workflow n (entity_uuid p c.workflow_id "child" n) call.name call.version
              input call.queue_name call.parent_close_policy f
            ∷ [])))
        (resolve_child p call.name n f)

  clone_json_dumped :
      (v : Json) (u : String) → p.dumps v ≡ some u → clone_json p v ≡ value_of (p.loads u)
  unfolding clone_json canonical_json
  clone_json_dumped v u h = rw (h, clone_json)

  fingerprint_dumped :
      (v : Json) (u : String) → p.dumps v ≡ some u → fingerprint p v ≡ value_of (p.hex (p.sha256 u))
  unfolding fingerprint canonical_json
  fingerprint_dumped v u h = rw (h, fingerprint)

  fingerprint_refused : (v : Json) → p.dumps v ≡ none → fingerprint p v ≡ serialization_error
  unfolding fingerprint canonical_json
  fingerprint_refused v h = rw (h, fingerprint)

  rest-IsStable :
      (call : ChildWorkflowCall) (n : ℕ) (f u : String)
      → p.dumps call.input ≡ some u
      → IsStable (rest call n f)
  rest-IsStable call n f u h =
      recorded_or-IsStable n _ (resolve_child p call.name n f)
        (λ c d. rw (clone_json_dumped call.input u h, serialized) (refl, refl))
        (resolve_child-IsStable p call.name n f)

  input_member :
      (call : ChildWorkflowCall) (t : String)
      → p.dumps (child_identity p call) ≡ some t
      → (u : String) × (p.dumps call.input ≡ some u)
  unfolding get
  input_member call t h = members _ t "input" call.input h refl

  hashed-IsStable :
      (call : ChildWorkflowCall) (n : ℕ)
      → IsStable (serialized (fingerprint p (child_identity p call)) >>= rest call n)
  hashed-IsStable call n = elim (Option-cases (p.dumps (child_identity p call))) [
    | inl e ↦
        rw (fingerprint_refused (child_identity p call) e, serialized)
          (record { keeps = λ c. refl; stays = λ c y l h. refl })
    | inr (t, e) ↦
        let (u, h) = input_member call t e in
        rw (fingerprint_dumped (child_identity p call) t e, serialized) (rest-IsStable call n _ u h)
  ]

  pub evaluate_child_workflow-IsStable :
      (call : ChildWorkflowCall) → IsStable (evaluate_child_workflow p call)
  unfolding evaluate_child_workflow
  evaluate_child_workflow-IsStable call = search (stability, hashed-IsStable)
