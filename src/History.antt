-- ===== src/History.antt =====
-- engine/runtime/history.py: committed events, and the indexes that replay reads. `index_history`
-- is `HistoryIndex.__init__`; the body of its loop is one function for each block of tests.
pub mod Effects
pub mod Extension
pub mod Order
pub mod Commands
pub mod Unvisited
pub mod Cancellation
use durable_workflow_engine.Base.{
  ℕ, ◌+◌, String, Bool, true, false, not, ◌&&◌, ◌||◌, ◌==◌, nat_eq, string_eq, List, [], ◌∷◌, ◌++◌,
  Option, none, some, Result, ok, err, ◌>>=◌, if◌then◌else◌, contains, is_none, is_some, leb, ltb,
}
use durable_workflow_engine.Base.Dict.{Dict, lookup, insert, has_key}
use durable_workflow_engine.Json.{Json, bool, Fields, get_default, get_null, truthy, as_str}

pub record HistoryEvent : Type 0 where
  pub seq : ℕ
  pub event_type : String
  pub attributes : Fields
  pub command_id : Option ℕ
  pub entity_id : Option ℕ
  pub external_id : Option String

abbrev pub schedule_event_types : List String
schedule_event_types =
    "ActivityScheduled" ∷ "TimerStarted" ∷ "MarkerRecorded" ∷ "ChildWorkflowStarted"
    ∷ "WorkflowUpdateResolved" ∷ "WorkflowExecutionContinuedAsNew" ∷ []

abbrev pub entity_event_types : List String
entity_event_types =
    "ActivityScheduled" ∷ "TimerStarted" ∷ "ChildWorkflowStarted"
    ∷ "WorkflowExecutionContinuedAsNew" ∷ []

abbrev pub activity_terminal_event_types : List String
activity_terminal_event_types = "ActivityCompleted" ∷ "ActivityFailed" ∷ "ActivityTimedOut" ∷ []

abbrev pub timer_terminal_event_types : List String
timer_terminal_event_types = "TimerFired" ∷ "TimerCanceled" ∷ []

abbrev pub child_terminal_event_types : List String
child_terminal_event_types =
    "ChildWorkflowCompleted" ∷ "ChildWorkflowFailed" ∷ "ChildWorkflowTerminated" ∷ []

abbrev pub workflow_terminal_event_types : List String
workflow_terminal_event_types =
    "WorkflowExecutionCompleted" ∷ "WorkflowExecutionFailed" ∷ "WorkflowExecutionTerminated" ∷ []

-- The reasons of `InvalidHistoryError`, with what each message names.
pub data InvalidHistory : Type 0 where
  must_begin_with_started : InvalidHistory
  not_contiguous : (expected found : ℕ) → InvalidHistory
  after_terminal : (event_type terminal_type : String) → InvalidHistory
  started_more_than_once : InvalidHistory
  lacks_command_identity : String → ℕ → InvalidHistory
  lacks_entity_identity : String → ℕ → InvalidHistory
  lacks_child_identity : String → ℕ → InvalidHistory
  command_scheduled_twice : ℕ → InvalidHistory
  entity_scheduled_twice : ℕ → InvalidHistory
  multiple_terminal_events : ℕ → InvalidHistory
  no_prior_activity_schedule : String → ℕ → InvalidHistory
  no_prior_timer_start : String → ℕ → InvalidHistory
  timer_multiple_terminal_events : ℕ → InvalidHistory
  no_prior_child_start : String → ℕ → InvalidHistory
  child_multiple_terminal_events : ℕ → InvalidHistory
  no_signal_name : ℕ → InvalidHistory
  no_external_identity : ℕ → InvalidHistory
  no_update_name : ℕ → InvalidHistory
  no_update_id : ℕ → InvalidHistory
  cancellation_more_than_once : InvalidHistory

-- What the loop over the events updates; `previous_seq` is its variable.
pub record Indexes : Type 0 where
  pub scheduled : Dict ℕ HistoryEvent
  pub scheduled_entities : Dict ℕ HistoryEvent
  pub activity_terminal : Dict ℕ HistoryEvent
  pub timer_terminal : Dict ℕ HistoryEvent
  pub child_terminal : Dict ℕ HistoryEvent
  pub signals : List HistoryEvent
  pub updates : List HistoryEvent
  pub cancellation_requested : Option HistoryEvent
  pub workflow_terminal : Option HistoryEvent
  pub previous_seq : ℕ

pub record HistoryIndex : Type 0 where
  pub events : List HistoryEvent
  pub indexes : Indexes
  pub open indexes use *

abbrev pub Indexed : Type 0
Indexed = Result InvalidHistory Indexes

-- The sequence number, the end of the history, and the single start.
unfoldable pub check_order : Indexes → HistoryEvent → Indexed
check_order i e =
    if not (e.seq == i.previous_seq + 1)
    then err (not_contiguous (i.previous_seq + 1) e.seq)
    else (elim i.workflow_terminal [
      | some t ↦ err (after_terminal e.event_type t.event_type)
      | none ↦
          if e.event_type == "WorkflowExecutionStarted" && not (e.seq == 1)
          then err started_more_than_once
          else ok (record i { previous_seq = e.seq })
    ])

unfoldable pub note_entity : Indexes → HistoryEvent → Indexed
note_entity i e = elim e.entity_id [
  | none ↦ ok i
  | some u ↦
      if has_key u i.scheduled_entities
      then err (entity_scheduled_twice u)
      else ok (record i { scheduled_entities = insert u e i.scheduled_entities })
]

-- A command that workflow code emitted.
unfoldable pub note_schedule : Indexes → HistoryEvent → Indexed
note_schedule i e =
    if contains schedule_event_types e.event_type
    then (elim e.command_id [
      | none ↦ err (lacks_command_identity e.event_type e.seq)
      | some c ↦
          if contains entity_event_types e.event_type && is_none e.entity_id
          then err (lacks_entity_identity e.event_type e.seq)
          else if has_key c i.scheduled
          then err (command_scheduled_twice c)
          else note_entity (record i { scheduled = insert c e i.scheduled }) e
    ])
    else ok i

-- The entity was scheduled before by an event of this type.
abbrev pub scheduled_as : String → ℕ → Indexes → Bool
scheduled_as t u i = elim (lookup u i.scheduled_entities) [
  | none ↦ false
  | some s ↦ s.event_type == t
]

-- `event.event_type == "ActivityCompleted" or event.attributes.get("final", True)`.
abbrev pub is_final : HistoryEvent → Bool
is_final e =
    e.event_type == "ActivityCompleted" || truthy (get_default "final" (bool true) e.attributes)

unfoldable pub note_activity_terminal : Indexes → HistoryEvent → Indexed
note_activity_terminal i e =
    if contains activity_terminal_event_types e.event_type
    then (elim e.entity_id [
      | none ↦ err (lacks_entity_identity e.event_type e.seq)
      | some u ↦
          if has_key u i.activity_terminal
          then err (multiple_terminal_events u)
          else if not (scheduled_as "ActivityScheduled" u i)
          then err (no_prior_activity_schedule e.event_type u)
          else if is_final e
          then ok (record i { activity_terminal = insert u e i.activity_terminal })
          else ok i
    ])
    else ok i

unfoldable pub note_timer_terminal : Indexes → HistoryEvent → Indexed
note_timer_terminal i e =
    if contains timer_terminal_event_types e.event_type
    then (elim e.entity_id [
      | none ↦ err (lacks_entity_identity e.event_type e.seq)
      | some u ↦
          if not (scheduled_as "TimerStarted" u i)
          then err (no_prior_timer_start e.event_type u)
          else if has_key u i.timer_terminal
          then err (timer_multiple_terminal_events u)
          else ok (record i { timer_terminal = insert u e i.timer_terminal })
    ])
    else ok i

unfoldable pub note_child_terminal : Indexes → HistoryEvent → Indexed
note_child_terminal i e =
    if contains child_terminal_event_types e.event_type
    then (elim e.entity_id [
      | none ↦ err (lacks_child_identity e.event_type e.seq)
      | some u ↦
          if not (scheduled_as "ChildWorkflowStarted" u i)
          then err (no_prior_child_start e.event_type u)
          else if has_key u i.child_terminal
          then err (child_multiple_terminal_events u)
          else ok (record i { child_terminal = insert u e i.child_terminal })
    ])
    else ok i

-- `not isinstance(value, str) or not value`, negated.
abbrev pub is_text : Json → Bool
is_text v = elim (as_str v) [ none ↦ false | some s ↦ not (s == "") ]

unfoldable pub note_signal : Indexes → HistoryEvent → Indexed
note_signal i e =
    if e.event_type == "SignalReceived"
    then if not (is_text (get_null "name" e.attributes))
      then err (no_signal_name e.seq)
      else if is_none e.external_id
      then err (no_external_identity e.seq)
      else ok (record i { signals = i.signals ++ e ∷ [] })
    else ok i

unfoldable pub note_update : Indexes → HistoryEvent → Indexed
note_update i e =
    if e.event_type == "WorkflowUpdateReceived"
    then if not (is_text (get_null "name" e.attributes))
      then err (no_update_name e.seq)
      else if not (is_text (get_null "update_id" e.attributes))
      then err (no_update_id e.seq)
      else ok (record i { updates = i.updates ++ e ∷ [] })
    else ok i

unfoldable pub note_cancellation : Indexes → HistoryEvent → Indexed
note_cancellation i e =
    if e.event_type == "WorkflowCancellationRequested"
    then if is_some i.cancellation_requested
      then err cancellation_more_than_once
      else ok (record i { cancellation_requested = some e })
    else ok i

unfoldable pub note_terminal : Indexes → HistoryEvent → Indexes
note_terminal i e =
    if contains workflow_terminal_event_types e.event_type
    then record i { workflow_terminal = some e }
    else i

-- One round of the loop.
unfoldable pub add_event : Indexes → HistoryEvent → Indexed
add_event i e = do
  i1 ← check_order i e
  i2 ← note_schedule i1 e
  i3 ← note_activity_terminal i2 e
  i4 ← note_timer_terminal i3 e
  i5 ← note_child_terminal i4 e
  i6 ← note_signal i5 e
  i7 ← note_update i6 e
  i8 ← note_cancellation i7 e
  ok (note_terminal i8 e)

unfoldable pub add_events : Indexes → List HistoryEvent → Indexed
add_events i [] = ok i
add_events i (e ∷ es) = add_event i e >>= λ j. add_events j es

abbrev pub empty_index : Indexes
empty_index = record {
  scheduled = [];
  scheduled_entities = [];
  activity_terminal = [];
  timer_terminal = [];
  child_terminal = [];
  signals = [];
  updates = [];
  cancellation_requested = none;
  workflow_terminal = none;
  previous_seq = 0;
}

unfoldable pub index_history : List HistoryEvent → Result InvalidHistory HistoryIndex
index_history [] = err must_begin_with_started
index_history (e ∷ es) =
    if not (e.event_type == "WorkflowExecutionStarted")
    then err must_begin_with_started
    else do i ← add_events empty_index (e ∷ es); ok (record { events = e ∷ es; indexes = i })

-- `event.command_id or 0`.
abbrev pub id_or_zero : HistoryEvent → ℕ
id_or_zero e = elim e.command_id [ none ↦ 0 | some c ↦ c ]

-- `min` keeps the first of the least.
unfoldable pub min_by_command : HistoryEvent → List HistoryEvent → HistoryEvent
min_by_command best [] = best
min_by_command best (e ∷ es) =
    min_by_command (if ltb (id_or_zero e) (id_or_zero best) then e else best) es

unfoldable pub remaining : ℕ → Dict ℕ HistoryEvent → List HistoryEvent
remaining next [] = []
remaining next ((c, e) ∷ m) = if leb next c then e ∷ remaining next m else remaining next m

unfoldable pub first_unvisited_command : HistoryIndex → ℕ → Option HistoryEvent
first_unvisited_command i next = elim (remaining next i.scheduled) [
  | [] ↦ none
  | e ∷ es ↦ some (min_by_command e es)
]
