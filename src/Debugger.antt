-- ===== src/Debugger.antt =====
-- engine/runtime/replay_debugger.py: the frames of a committed history. `text` is `str` of a UUID.
pub mod Comparison
pub mod Frames
pub mod Balance
use durable_workflow_engine.Json.{Fields, get_null, as_str}
use durable_workflow_engine.History.{HistoryEvent, is_text, schedule_event_types}
use durable_workflow_engine.Base.Dict.{Dict, lookup, has_key}
use durable_workflow_engine.Base.{
  String, ℕ, List, Option, ◌∷◌, if◌then◌else◌, [], none, contains, some, string_eq,
}
use Prim.Native.String.{◌++◌ as ◌++ˢ◌}

pub record ActiveEntity : Type 0 where
  pub entity_id : String
  pub kind : String
  pub label : String
  pub scheduled_seq : ℕ
  pub status : String

pub record ReplaySnapshot : Type 0 where
  pub commands : ℕ
  pub waiting_entities : ℕ
  pub succeeded_entities : ℕ
  pub failed_entities : ℕ
  pub signals_received : ℕ
  pub pending_updates : ℕ
  pub terminal_status : Option String
  pub active_entities : List ActiveEntity

pub record ReplayFrame : Type 0 where
  pub index : ℕ
  pub seq : ℕ
  pub event_type : String
  pub category : String
  pub summary : String
  pub command_id : Option ℕ
  pub entity_id : Option String
  pub caused_by_seq : Option ℕ
  pub snapshot : ReplaySnapshot

abbrev pub schedule_kinds : Dict String String
schedule_kinds =
    ("ActivityScheduled", "activity")
    ∷ ("TimerStarted", "timer")
    ∷ ("ChildWorkflowStarted", "child")
    ∷ []

abbrev pub terminal_entity_events : Dict String String
terminal_entity_events =
    ("ActivityCompleted", "succeeded")
    ∷ ("ActivityFailed", "failed")
    ∷ ("ActivityTimedOut", "failed")
    ∷ ("TimerFired", "succeeded")
    ∷ ("TimerCanceled", "failed")
    ∷ ("ChildWorkflowCompleted", "succeeded")
    ∷ ("ChildWorkflowFailed", "failed")
    ∷ ("ChildWorkflowTerminated", "failed")
    ∷ []

abbrev pub workflow_terminals : Dict String String
workflow_terminals =
    ("WorkflowExecutionCompleted", "completed")
    ∷ ("WorkflowExecutionFailed", "failed")
    ∷ ("WorkflowExecutionTerminated", "terminated")
    ∷ []

-- The first of these attributes that is a text and not empty.
first_text : List String → Fields → Option String
first_text [] a = none
first_text (k ∷ ks) a = if is_text (get_null k a) then as_str (get_null k a) else first_text ks a

unfoldable pub label : HistoryEvent → String
unfolding first_text
label e =
    elim (first_text ("activity_type" ∷ "workflow_type" ∷ "purpose" ∷ "marker_type" ∷ "name" ∷ [])
      e.attributes) [ none ↦ e.event_type | some t ↦ t ]

unfoldable pub category : String → String
category t =
    if contains schedule_event_types t
    then "command"
    else if has_key t workflow_terminals
    then "terminal"
    else if has_key t terminal_entity_events
    then "outcome"
    else if contains
        ("SignalReceived" ∷ "WorkflowUpdateReceived" ∷ "WorkflowCancellationRequested" ∷ []) t
    then "external"
    else if contains ("WorkflowExecutionPaused" ∷ "WorkflowExecutionResumed" ∷ []) t
    then "control"
    else "lifecycle"

unfoldable pub summary : HistoryEvent → String
summary e =
    elim (lookup e.event_type (
      ("WorkflowExecutionStarted", "Started " ++ˢ label e)
      ∷ ("ActivityScheduled", "Scheduled activity " ++ˢ label e)
      ∷ ("ActivityCompleted", "Activity returned a durable result")
      ∷ ("ActivityFailed", "Activity attempt failed")
      ∷ ("ActivityTimedOut", "Activity attempt timed out")
      ∷ ("TimerStarted", "Started timer " ++ˢ label e)
      ∷ ("TimerFired", "Timer deadline became durable")
      ∷ ("TimerCanceled", "Timer was canceled")
      ∷ ("SignalReceived", "Received signal " ++ˢ label e)
      ∷ ("ChildWorkflowStarted", "Started child workflow " ++ˢ label e)
      ∷ ("ChildWorkflowCompleted", "Child workflow completed")
      ∷ ("ChildWorkflowFailed", "Child workflow failed")
      ∷ ("ChildWorkflowTerminated", "Child workflow was terminated")
      ∷ ("WorkflowUpdateReceived", "Received update " ++ˢ label e)
      ∷ ("WorkflowUpdateResolved", "Workflow update was resolved")
      ∷ ("MarkerRecorded", ("Recorded deterministic " ++ˢ label e) ++ˢ " value")
      ∷ ("WorkflowExecutionContinuedAsNew", "Continued as " ++ˢ label e)
      ∷ ("WorkflowExecutionCompleted", "Workflow completed")
      ∷ ("WorkflowExecutionFailed", "Workflow failed")
      ∷ ("WorkflowExecutionTerminated", "Workflow terminated")
      ∷ ("WorkflowCancellationRequested", "Cancellation was requested")
      ∷ ("WorkflowExecutionPaused", "Dispatch and deadlines were paused")
      ∷ ("WorkflowExecutionResumed", "Dispatch and deadlines resumed")
      ∷ [])) [ none ↦ e.event_type | some t ↦ t ]
