-- ===== src/Definitions.antt =====
-- engine/runtime/definitions.py: the definitions that a worker has. `function` is the identity of a
-- Python function; its source text and its name are parameters.
pub mod Pinned
use durable_workflow_engine.Base.Int.{ℤ, pos}
use durable_workflow_engine.Base.Dict.{Dict, insert, lookup}
use durable_workflow_engine.Base.{
  String, ℕ, Eq, Option, Result, ◌==◌, some, ◌&&◌, if◌then◌else◌, none, arith, ok, err, suc,
  string_eq, nat_eq, not, Bool, ◌≡◌, true, ◌↔◌,
}

pub record WorkflowDefinition : Type 0 where
  pub name : String
  pub version : ℕ
  pub function : ℕ
  pub code_hash : String

pub record ActivityDefinition : Type 0 where
  pub name : String
  pub function : ℕ

pub data DefinitionError : Type 0 where
  not_inspectable : ℕ → DefinitionError
  bad_version : DefinitionError
  workflow_conflict : String → ℕ → DefinitionError
  activity_conflict : String → DefinitionError
  unknown_workflow : String → ℕ → DefinitionError
  unknown_activity : String → DefinitionError

abbrev pub same_pair : String × ℕ → String × ℕ → Bool
same_pair (name, version) (other, number) = name == other && version == number

pub same_pair_iff : (j k : String × ℕ) → (same_pair j k ≡ true) ↔ (j ≡ k)
same_pair_iff (name, version) (other, number) =
    ground (arith, string_eq.same_iff name other, nat_eq.same_iff version number)

instance abbrev pub pair_eq : Eq (String × ℕ)
pair_eq = record { same = same_pair; same_iff = same_pair_iff }

-- `name or function.__name__`.
abbrev pub name_or : Option String → String → String
name_or none fallback = fallback
name_or (some name) fallback = if name == "" then fallback else name

module _ (function_name : ℕ → String) where
  -- `identity f` is the text of `_code_hash`, or `none` where the source cannot be read.
  unfoldable pub create_workflow :
      (identity : ℕ → Option String)
      → (String → String)
      → ℕ
      → ℤ
      → Option String
      → Result DefinitionError WorkflowDefinition
  create_workflow identity sha256_hex function (pos (suc n)) name = elim (identity function) [
    | none ↦ err (not_inspectable function)
    | some text ↦ ok (record {
      name = name_or name (function_name function);
      version = suc n;
      function = function;
      code_hash = sha256_hex text;
    })
  ]
  create_workflow identity sha256_hex function _ name = err bad_version

  unfoldable pub create_activity : ℕ → Option String → ActivityDefinition
  create_activity function name = record {
    name = name_or name (function_name function);
    function = function;
  }

pub record DefinitionRegistry : Type 0 where
  pub workflows : Dict (String × ℕ) WorkflowDefinition
  pub activities : Dict String ActivityDefinition

unfoldable pub register_workflow :
    DefinitionRegistry → WorkflowDefinition → Result DefinitionError DefinitionRegistry
register_workflow r d =
    let stored : DefinitionRegistry = record r {
      workflows = insert (d.name, d.version) d r.workflows;
    } in
    elim (lookup (d.name, d.version) r.workflows) [
      | none ↦ ok stored
      | some existing ↦
          if not (existing.code_hash == d.code_hash)
          then err (workflow_conflict d.name d.version)
          else ok stored
    ]

unfoldable pub register_activity :
    DefinitionRegistry → ActivityDefinition → Result DefinitionError DefinitionRegistry
register_activity r d =
    let stored : DefinitionRegistry = record r { activities = insert d.name d r.activities } in
    elim (lookup d.name r.activities) [
      | none ↦ ok stored
      | some existing ↦
          if not (existing.function == d.function)
          then err (activity_conflict d.name)
          else ok stored
    ]

unfoldable pub workflow :
    DefinitionRegistry → String → ℕ → Result DefinitionError WorkflowDefinition
workflow r name version = elim (lookup (name, version) r.workflows) [
  | none ↦ err (unknown_workflow name version)
  | some d ↦ ok d
]

unfoldable pub find_activity :
    DefinitionRegistry → String → Result DefinitionError ActivityDefinition
find_activity r name = elim (lookup name r.activities) [
  | none ↦ err (unknown_activity name)
  | some d ↦ ok d
]
