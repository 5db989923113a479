-- ===== src/Definitions/Pinned.antt =====
-- engine/runtime/definitions.py: the code of a registered workflow version does not change.
-- A registration of either kind.
use durable_workflow_engine.Base.Dict.{lookup-insert, lookup}
use durable_workflow_engine.Base.{
  ◌>>=◌, List, Result, String, ℕ, ok, ◌≡◌, ◌∷◌, arith, ok-injective, Bool-cases, >>=-eq-ok, [], inl,
  some, string_eq, sym, ◌∙◌, inr,
}
use durable_workflow_engine.Definitions.{
  WorkflowDefinition, DefinitionRegistry, register_workflow, ActivityDefinition, register_activity,
  DefinitionError, workflow, pair_eq, same_pair, same_pair_iff,
}

pub data Registration : Type 0 where
  of_workflow : WorkflowDefinition → Registration
  of_activity : ActivityDefinition → Registration

unfoldable pub register :
    DefinitionRegistry → Registration → Result DefinitionError DefinitionRegistry
register r (of_workflow d) = register_workflow r d
register r (of_activity d) = register_activity r d

unfoldable pub register_all :
    DefinitionRegistry → List Registration → Result DefinitionError DefinitionRegistry
register_all r [] = ok r
register_all r (d ∷ ds) = register r d >>= λ q. register_all q ds

abbrev pub Pins : DefinitionRegistry → String → ℕ → String → Type 0
Pins r name version hash =
    (d : WorkflowDefinition) × (workflow r name version ≡ ok d) × (d.code_hash ≡ hash)

register-Pins :
    (r q : DefinitionRegistry) (g : Registration) (name hash : String) (version : ℕ)
    → register r g ≡ ok q
    → Pins r name version hash
    → Pins q name version hash
unfolding register register_workflow register_activity workflow
register-Pins r q (of_activity a) name hash version h (d, found, same) = (d, ground arith, same)
register-Pins r q (of_workflow w) name hash version h (d, found, same) =
    elim (Bool-cases (same_pair (w.name, w.version) (name, version))) [
      | inl k ↦ (
        w,
        ground (arith, lookup-insert (w.name, w.version) (name, version) w r.workflows),
        let key : ◌≡◌ {A = String × ℕ} (w.name, w.version) (name, version) =
              (same_pair_iff (w.name, w.version) (name, version)).0 k in
            let old : lookup (w.name, w.version) r.workflows ≡ some d = rw key (ground arith) in
            let kept : d.code_hash ≡ w.code_hash =
              ground (arith, string_eq.same_iff d.code_hash w.code_hash) in
            sym kept ∙ same,
      )
      | inr k ↦
          (d, ground (arith, lookup-insert (w.name, w.version) (name, version) w r.workflows), same)
    ]

-- Whatever is registered later: as long as the registrations are accepted, looking up a registered
-- workflow version gives a definition with the code hash it had.
pub register_all-Pins :
    (gs : List Registration) (r q : DefinitionRegistry) (name hash : String) (version : ℕ)
    → register_all r gs ≡ ok q
    → Pins r name version hash
    → Pins q name version hash
unfolding register_all
register_all-Pins [] r q name hash version h pins = rw (← ok-injective h) pins
register_all-Pins (g ∷ gs) r q name hash version h pins =
    let (m, first, rest) = >>=-eq-ok (register r g) _ h in
    register_all-Pins gs m q name hash version rest
      (register-Pins r m g name hash version first pins)
