-- ===== src/Context.antt =====
-- engine/sdk/context.py: the state of a `WorkflowContext`, the ways in which one of its operations
-- ends, and what the operations share. An operation is a function of the context that returns or
-- raises, and the context after it: what an operation has changed stays changed when it raises.
pub mod Activity
pub mod Timer
pub mod Signal
pub mod Update
pub mod Marker
pub mod Child
pub mod Continue
use durable_workflow_engine.Base.Dict.{lookup, Dict}
use durable_workflow_engine.Commands.{Command}
use durable_workflow_engine.History.{HistoryEvent, HistoryIndex}
use durable_workflow_engine.Json.{Json, as_str, get_null, null, str, float}
use durable_workflow_engine.Platform.{
  Serialized, Platform, clone_json, value_of, serialization_error,
}
use durable_workflow_engine.Base.{
  String, List, ℕ, Bool, Option, ◌+◌, none, [], false, some, ◌==◌, true, nat_eq, string_eq,
}
use Prim.Native.String.{◌++◌ as ◌++ˢ◌}

-- The `detail` of a NonDeterminismError.
pub data Detail : Type 0 where
  expected : (kind found : String) → Detail
  changed : String → Detail
  no_identity : String → Detail
  invalid_value : String → Detail
  unvisited : String → Detail
  unvisited_without_id : Detail

-- What an operation raises. The first three are the suspensions, which are no `Exception`.
pub data Raised : Type 0 where
  new_commands : List Command → Raised
  blocked : Raised
  continue_as_new_recorded : ℕ → Raised
  non_determinism : ℕ → Detail → Raised
  activity_error : String → Json → Raised
  child_workflow_error : String → Json → Raised
  signal_timeout : String → Raised
  value_error : String → Raised
  runtime_error : String → Raised
  serialization_failure : Raised
  user_error : (type message : String) → Raised

pub data Outcome {ℓ} (A : Type ℓ) : Type ℓ where
  returned : A → Outcome A
  raised : Raised → Outcome A

-- `assigned` holds the attribute `command_id` of the call objects that have one.
pub record WorkflowContext : Type 0 where
  pub workflow_id : ℕ
  pub history : HistoryIndex
  pub next_command_id : ℕ
  pub consumed_signal_seqs : List ℕ
  pub consumed_update_seqs : List ℕ
  pub assigned : Dict ℕ ℕ

abbrev pub new_context : ℕ → HistoryIndex → WorkflowContext
new_context w x = record {
  workflow_id = w;
  history = x;
  next_command_id = 0;
  consumed_signal_seqs = [];
  consumed_update_seqs = [];
  assigned = [];
}

abbrev pub M : Type 0 → Type 0
M A = WorkflowContext → Outcome A × WorkflowContext

abbrev pub pure : {A : Type 0} → A → M A
pure a c = (returned a, c)

abbrev pub raise : {A : Type 0} → Raised → M A
raise e c = (raised e, c)

abbrev pub bind :
    {A B : Type 0} → Outcome A × WorkflowContext → (A → M B) → Outcome B × WorkflowContext
bind (returned a, c) f = f a c
bind (raised e, c) f = (raised e, c)

infixl 5 ◌>>=◌ ◌>>◌
abbrev pub ◌>>=◌ : {A B : Type 0} → M A → (A → M B) → M B
◌>>=◌ m f c = bind (m c) f

abbrev pub ◌>>◌ : {A B : Type 0} → M A → M B → M B
m >> k = m >>= λ _. k

abbrev pub ask : M WorkflowContext
ask c = (returned c, c)

abbrev pub modify : (WorkflowContext → WorkflowContext) → M (Unit {0})
modify f c = (returned tt, f c)

abbrev pub guard : Bool → Raised → M (Unit {0})
guard true e c = (returned tt, c)
guard false e c = (raised e, c)

abbrev pub serialized : {A : Type 0} → Serialized A → M A
serialized (value_of a) c = (returned a, c)
serialized serialization_error c = (raised serialization_failure, c)

-- `command_id = self._next_command_id; self._next_command_id += 1`.
abbrev pub take_command_id : M ℕ
take_command_id c =
    (returned c.next_command_id, record c { next_command_id = c.next_command_id + 1 })

-- A test of `None` on the result of a look-up.
abbrev pub if_none : {A : Type 0} → Option HistoryEvent → M A → (HistoryEvent → M A) → M A
if_none none missing found = missing
if_none (some e) missing found = found e

-- `scheduled = self._history.scheduled.get(command_id); if scheduled is None: …`.
abbrev pub recorded_or : {A : Type 0} → ℕ → (WorkflowContext → M A) → (HistoryEvent → M A) → M A
recorded_or n missing found c = if_none (lookup n c.history.scheduled) (missing c) found c

-- `terminal = ends.get(entity_id); if terminal is None: raise _Blocked`.
abbrev pub await_end :
    {A : Type 0} → (HistoryIndex → Dict ℕ HistoryEvent) → ℕ → (HistoryEvent → M A) → M A
await_end ends u found c = if_none (lookup u (ends c.history)) (raise blocked) found c

-- `attributes.get(key) == text`.
abbrev pub is_str : Json → String → Bool
is_str v t = elim (as_str v) [ none ↦ false | some s ↦ s == t ]

abbrev pub has_fingerprint : HistoryEvent → String → Bool
has_fingerprint e f = is_str (get_null "fingerprint" e.attributes) f

-- `clone_json(event.attributes.get(key))`.
abbrev pub clone_attribute : Platform → String → HistoryEvent → M Json
clone_attribute p key e = serialized (clone_json p (get_null key e.attributes))

-- The text from which the identity of an entity is derived.
abbrev pub entity_seed : Platform → ℕ → String → ℕ → String
entity_seed p w kind n = p.uuid_text w ++ˢ (":" ++ˢ (kind ++ˢ (":" ++ˢ p.decimal n)))

abbrev pub entity_uuid : Platform → ℕ → String → ℕ → ℕ
entity_uuid p w kind n = p.uuid5 (entity_seed p w kind n)

abbrev pub opt_string : Option String → Json
opt_string none = null
opt_string (some s) = str s

abbrev pub opt_float : Option ℕ → Json
opt_float none = null
opt_float (some b) = float b

-- The identity of a recorded entity, or the NonDeterminismError for an event that lacks it.
abbrev pub recorded_entity : ℕ → String → HistoryEvent → M ℕ
recorded_entity n what e = elim e.entity_id [
  | none ↦ raise (non_determinism n (no_identity what))
  | some u ↦ pure u
]
