-- ===== src/Debugger/Frames.antt =====
-- engine/runtime/replay_debugger.py: `build_replay_trace`. `text` is `str` of a UUID. A set of texts
-- is a list without repetitions.
-- The variables of the loop.
use durable_workflow_engine.Json.{as_str, get_null}
use durable_workflow_engine.Debugger.{
  ActiveEntity, ReplaySnapshot, ReplayFrame, schedule_kinds, terminal_entity_events,
  workflow_terminals, category, summary, label,
}
use durable_workflow_engine.History.{HistoryEvent, schedule_event_types, is_final}
use durable_workflow_engine.Base.{
  [], List, ℕ, String, Option, none, ◌∷◌, if◌then◌else◌, keep, length, contains, ◌==◌, not, leb,
  take, ◌+◌, ◌++◌, some, string_eq,
}
use durable_workflow_engine.Base.Dict.{Dict, lookup, erase, insert}

pub record Trace : Type 0 where
  pub entities : Dict String ActiveEntity
  pub commands : ℕ
  pub succeeded : ℕ
  pub failed : ℕ
  pub signals : ℕ
  pub pending_updates : List String
  pub terminal_status : Option String

abbrev pub empty_trace : Trace
empty_trace = record {
  entities = [];
  commands = 0;
  succeeded = 0;
  failed = 0;
  signals = 0;
  pending_updates = [];
  terminal_status = none;
}

abbrev pub immediate_event_types : List String
immediate_event_types =
    "MarkerRecorded" ∷ "WorkflowUpdateResolved" ∷ "WorkflowExecutionContinuedAsNew" ∷ []

unfoldable pub count_command : HistoryEvent → Trace → Trace
count_command e t =
    if contains schedule_event_types e.event_type then record t { commands = t.commands + 1 } else t

abbrev pub note_immediate : HistoryEvent → Trace → Trace
note_immediate e t =
    if contains immediate_event_types e.event_type
    then record t { succeeded = t.succeeded + 1 }
    else t

abbrev pub waiting_entity : (ℕ → String) → HistoryEvent → String → ℕ → ActiveEntity
waiting_entity text e kind u = record {
  entity_id = text u;
  kind = kind;
  label = label e;
  scheduled_seq = e.seq;
  status = "waiting";
}

unfoldable pub note_started : (ℕ → String) → HistoryEvent → Trace → Trace
note_started text e t = elim (lookup e.event_type schedule_kinds) [
  | none ↦ note_immediate e t
  | some kind ↦ elim e.entity_id [
    | none ↦ note_immediate e t
    | some u ↦ record t { entities = insert (text u) (waiting_entity text e kind u) t.entities }
  ]
]

-- An entity that ends for good leaves the trace.
abbrev pub settled_entity : String → String → Trace → Trace
settled_entity key status t =
    if status == "succeeded"
    then record t { entities = erase key t.entities; succeeded = t.succeeded + 1 }
    else record t { entities = erase key t.entities; failed = t.failed + 1 }

-- An outcome of an entity that waits, with the number of the event that caused it.
unfoldable pub note_outcome : (ℕ → String) → HistoryEvent → Trace → Trace × Option ℕ
note_outcome text e t = elim (lookup e.event_type terminal_entity_events) [
  | none ↦ (t, none)
  | some status ↦ elim e.entity_id [
    | none ↦ (t, none)
    | some u ↦ elim (lookup (text u) t.entities) [
      | none ↦ (t, none)
      | some a ↦ (
        if is_final e then settled_entity (text u) status t else record t {
          entities = insert (text u) (record a { status = "retrying" }) t.entities;
        },
        some a.scheduled_seq,
      )
    ]
  ]
]

abbrev pub add_text : String → List String → List String
add_text s ss = if contains ss s then ss else ss ++ s ∷ []

abbrev pub discard : String → List String → List String
discard s ss = keep (λ r. not (r == s)) ss

abbrev pub change_updates : (String → List String → List String) → HistoryEvent → Trace → Trace
change_updates f e t = elim (as_str (get_null "update_id" e.attributes)) [
  | none ↦ t
  | some s ↦ record t { pending_updates = f s t.pending_updates }
]

unfoldable pub note_external : HistoryEvent → Trace → Trace
note_external e t =
    if e.event_type == "SignalReceived"
    then record t { signals = t.signals + 1 }
    else if e.event_type == "WorkflowUpdateReceived"
    then change_updates add_text e t
    else if e.event_type == "WorkflowUpdateResolved"
    then change_updates discard e t
    else t

unfoldable pub note_status : HistoryEvent → Trace → Trace
note_status e t = elim (lookup e.event_type workflow_terminals) [
  | none ↦ t
  | some s ↦ record t { terminal_status = some s }
]

-- `sorted` by `scheduled_seq` is stable.
unfoldable pub insert_by_seq : ActiveEntity → List ActiveEntity → List ActiveEntity
insert_by_seq a [] = a ∷ []
insert_by_seq a (b ∷ bs) =
    if leb a.scheduled_seq b.scheduled_seq then a ∷ b ∷ bs else b ∷ insert_by_seq a bs

unfoldable pub sorted_by_seq : Dict String ActiveEntity → List ActiveEntity
unfolding insert_by_seq
sorted_by_seq [] = []
sorted_by_seq ((k, a) ∷ m) = insert_by_seq a (sorted_by_seq m)

unfoldable pub snapshot : Trace → ReplaySnapshot
snapshot t = record {
  commands = t.commands;
  waiting_entities = length t.entities;
  succeeded_entities = t.succeeded;
  failed_entities = t.failed;
  signals_received = t.signals;
  pending_updates = length t.pending_updates;
  terminal_status = t.terminal_status;
  active_entities = take 20 (sorted_by_seq t.entities);
}

module _ (text : ℕ → String) where
  unfoldable pub trace_event : HistoryEvent → Trace → Trace × Option ℕ
  trace_event e t =
      let (ended, caused_by_seq) = note_outcome text e (note_started text e (count_command e t)) in
      (note_status e (note_external e ended), caused_by_seq)

  unfoldable pub frame : ℕ → HistoryEvent → Trace × Option ℕ → ReplayFrame
  unfolding snapshot
  frame index e (t, caused_by_seq) = record {
    index = index;
    seq = e.seq;
    event_type = e.event_type;
    category = category e.event_type;
    summary = summary e;
    command_id = e.command_id;
    entity_id = elim e.entity_id [ none ↦ none | some u ↦ some (text u) ];
    caused_by_seq = caused_by_seq;
    snapshot = snapshot t;
  }

  unfoldable pub trace_events : ℕ → List HistoryEvent → Trace → List ReplayFrame
  trace_events index [] t = []
  trace_events index (e ∷ es) t =
      frame index e (trace_event e t) ∷ trace_events (index + 1) es (trace_event e t).0

  unfoldable pub build_replay_trace : List HistoryEvent → List ReplayFrame
  build_replay_trace es = trace_events 0 es empty_trace
