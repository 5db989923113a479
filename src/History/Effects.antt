-- ===== src/History/Effects.antt =====
-- engine/runtime/history.py: what an event that the loop of `HistoryIndex` accepts does to the index,
-- and which tests it has passed.
use durable_workflow_engine.Base.{
  ℕ, ◌+◌, ◌≡◌, Bool, true, false, ◌&&◌, ◌==◌, nat_eq, string_eq, List, [], ◌∷◌, ◌++◌, Option, none,
  some, ok, contains, arith, >>=-eq-ok, if◌then◌else◌, sym, ok-injective, ◌>>=◌, ◌∙◌, String,
}
use durable_workflow_engine.Base.Dict.{Dict, lookup, insert}
use durable_workflow_engine.History.{
  HistoryEvent, Indexes, check_order, note_entity, note_schedule, note_activity_terminal,
  note_timer_terminal, note_child_terminal, note_signal, note_update, schedule_event_types,
  activity_terminal_event_types, timer_terminal_event_types, child_terminal_event_types,
  workflow_terminal_event_types, is_final, note_cancellation, note_terminal, add_event,
  entity_event_types,
}

-- The dictionary after the event is noted under this key, if it has one.
abbrev pub noted : Bool → Option ℕ → HistoryEvent → Dict ℕ HistoryEvent → Dict ℕ HistoryEvent
noted false k e m = m
noted true none e m = m
noted true (some k) e m = insert k e m

-- A key under which the event is noted is new.
abbrev pub IsFresh : Bool → Option ℕ → Dict ℕ HistoryEvent → Type 0
IsFresh false k m = Unit
IsFresh true none m = Unit
IsFresh true (some k) m = lookup k m ≡ none

-- The entity was scheduled before by an event of this type.
abbrev pub HasPrior : Bool → String → Option ℕ → Dict ℕ HistoryEvent → Type 0
HasPrior false t k m = Unit
HasPrior true t none m = ⊥
HasPrior true t (some u) m =
    (s : HistoryEvent) × (lookup u m ≡ some s) × ((s.event_type == t) ≡ true)

abbrev pub HasCommand : Bool → Option ℕ → Type 0
HasCommand false k = Unit
HasCommand true k = (c : ℕ) × (k ≡ some c)

-- Only the first event starts the execution.
abbrev pub IsFirstStart : HistoryEvent → Type 0
IsFirstStart e = (e.event_type == "WorkflowExecutionStarted") ≡ true → e.seq ≡ 1

-- Only one cancellation is requested.
abbrev pub IsFirstCancellation : Indexes → HistoryEvent → Type 0
IsFirstCancellation i e =
    (e.event_type == "WorkflowCancellationRequested") ≡ true → i.cancellation_requested ≡ none

abbrev pub appended : Bool → HistoryEvent → List HistoryEvent → List HistoryEvent
appended false e es = es
appended true e es = es ++ e ∷ []

abbrev pub schedules : HistoryEvent → Bool
schedules e = contains schedule_event_types e.event_type

abbrev pub needs_entity : HistoryEvent → Bool
needs_entity e = schedules e && contains entity_event_types e.event_type

abbrev pub ends_activity : HistoryEvent → Bool
ends_activity e = contains activity_terminal_event_types e.event_type && is_final e

abbrev pub ends_timer : HistoryEvent → Bool
ends_timer e = contains timer_terminal_event_types e.event_type

abbrev pub ends_child : HistoryEvent → Bool
ends_child e = contains child_terminal_event_types e.event_type

abbrev pub ends_workflow : HistoryEvent → Bool
ends_workflow e = contains workflow_terminal_event_types e.event_type

check_order_lem :
    (i : Indexes) (e : HistoryEvent) (j : Indexes)
    → check_order i e ≡ ok j
    → (j ≡ record i { previous_seq = e.seq })
      × (e.seq ≡ i.previous_seq + 1)
      × (i.workflow_terminal ≡ none)
      × IsFirstStart e
unfolding check_order
check_order_lem i e j h = ground arith

note_schedule_lem :
    (i : Indexes) (e : HistoryEvent) (j : Indexes)
    → note_schedule i e ≡ ok j
    → (j ≡ record i {
      scheduled = noted (schedules e) e.command_id e i.scheduled;
      scheduled_entities = noted (schedules e) e.entity_id e i.scheduled_entities;
    })
      × IsFresh (schedules e) e.command_id i.scheduled
      × IsFresh (schedules e) e.entity_id i.scheduled_entities
      × HasCommand (schedules e) e.command_id
      × HasCommand (needs_entity e) e.entity_id
unfolding note_schedule note_entity
note_schedule_lem i e j h = ground arith

note_activity_terminal_lem :
    (i : Indexes) (e : HistoryEvent) (j : Indexes)
    → note_activity_terminal i e ≡ ok j
    → (j ≡ record i {
      activity_terminal = noted (ends_activity e) e.entity_id e i.activity_terminal;
    })
      × IsFresh (ends_activity e) e.entity_id i.activity_terminal
      × HasPrior (ends_activity e) "ActivityScheduled" e.entity_id i.scheduled_entities
unfolding note_activity_terminal
note_activity_terminal_lem i e j h = ground arith

note_timer_terminal_lem :
    (i : Indexes) (e : HistoryEvent) (j : Indexes)
    → note_timer_terminal i e ≡ ok j
    → (j ≡ record i { timer_terminal = noted (ends_timer e) e.entity_id e i.timer_terminal })
      × IsFresh (ends_timer e) e.entity_id i.timer_terminal
      × HasPrior (ends_timer e) "TimerStarted" e.entity_id i.scheduled_entities
unfolding note_timer_terminal
note_timer_terminal_lem i e j h = ground arith

note_child_terminal_lem :
    (i : Indexes) (e : HistoryEvent) (j : Indexes)
    → note_child_terminal i e ≡ ok j
    → (j ≡ record i { child_terminal = noted (ends_child e) e.entity_id e i.child_terminal })
      × IsFresh (ends_child e) e.entity_id i.child_terminal
      × HasPrior (ends_child e) "ChildWorkflowStarted" e.entity_id i.scheduled_entities
unfolding note_child_terminal
note_child_terminal_lem i e j h = ground arith

note_signal_lem :
    (i : Indexes) (e : HistoryEvent) (j : Indexes)
    → note_signal i e ≡ ok j
    → j ≡ record i { signals = appended (e.event_type == "SignalReceived") e i.signals }
unfolding note_signal
note_signal_lem i e j h = ground arith

note_update_lem :
    (i : Indexes) (e : HistoryEvent) (j : Indexes)
    → note_update i e ≡ ok j
    → j ≡ record i { updates = appended (e.event_type == "WorkflowUpdateReceived") e i.updates }
unfolding note_update
note_update_lem i e j h = ground arith

note_cancellation_lem :
    (i : Indexes) (e : HistoryEvent) (j : Indexes)
    → note_cancellation i e ≡ ok j
    → (j ≡ record i {
      cancellation_requested =
          if e.event_type == "WorkflowCancellationRequested"
          then some e
          else i.cancellation_requested;
    })
      × IsFirstCancellation i e
unfolding note_cancellation
note_cancellation_lem i e j h = ground arith

-- The index after an accepted event.
unfoldable pub advance : Indexes → HistoryEvent → Indexes
advance i e = record i {
  scheduled = noted (schedules e) e.command_id e i.scheduled;
  scheduled_entities = noted (schedules e) e.entity_id e i.scheduled_entities;
  activity_terminal = noted (ends_activity e) e.entity_id e i.activity_terminal;
  timer_terminal = noted (ends_timer e) e.entity_id e i.timer_terminal;
  child_terminal = noted (ends_child e) e.entity_id e i.child_terminal;
  signals = appended (e.event_type == "SignalReceived") e i.signals;
  updates = appended (e.event_type == "WorkflowUpdateReceived") e i.updates;
  cancellation_requested =
      if e.event_type == "WorkflowCancellationRequested" then some e else i.cancellation_requested;
  workflow_terminal = if ends_workflow e then some e else i.workflow_terminal;
  previous_seq = e.seq;
}

note_terminal_lem :
    (i : Indexes) (e : HistoryEvent)
    → note_terminal i e
      ≡ record i { workflow_terminal = if ends_workflow e then some e else i.workflow_terminal }
unfolding note_terminal
note_terminal_lem i e = ground arith

pub record IsAccepted (i : Indexes) (e : HistoryEvent) : Type 0 where
  pub in_order : e.seq ≡ i.previous_seq + 1
  pub still_open : i.workflow_terminal ≡ none
  pub new_command : IsFresh (schedules e) e.command_id i.scheduled
  pub new_entity : IsFresh (schedules e) e.entity_id i.scheduled_entities
  pub new_activity : IsFresh (ends_activity e) e.entity_id i.activity_terminal
  pub new_timer : IsFresh (ends_timer e) e.entity_id i.timer_terminal
  pub new_child : IsFresh (ends_child e) e.entity_id i.child_terminal
  pub first_start : IsFirstStart e
  pub first_cancellation : IsFirstCancellation i e
  pub has_command : HasCommand (schedules e) e.command_id
  pub has_entity : HasCommand (needs_entity e) e.entity_id
  pub prior_activity :
      HasPrior (ends_activity e) "ActivityScheduled" e.entity_id (advance i e).scheduled_entities
  pub prior_timer :
      HasPrior (ends_timer e) "TimerStarted" e.entity_id (advance i e).scheduled_entities
  pub prior_child :
      HasPrior (ends_child e) "ChildWorkflowStarted" e.entity_id (advance i e).scheduled_entities

-- The tests after the entities', for any index.
external_lem :
    (i : Indexes) (e : HistoryEvent) (j : Indexes)
    → (note_signal i e >>= λ i6.
        note_update i6 e >>= λ i7. note_cancellation i7 e >>= λ i8. ok (note_terminal i8 e))
      ≡ ok j
    → (j
        ≡ note_terminal
            (record i {
              signals = appended (e.event_type == "SignalReceived") e i.signals;
              updates = appended (e.event_type == "WorkflowUpdateReceived") e i.updates;
              cancellation_requested =
                  if e.event_type == "WorkflowCancellationRequested"
                  then some e
                  else i.cancellation_requested;
            })
            e)
      × IsFirstCancellation i e
external_lem i e j h =
    let (i6, h6, r6) = >>=-eq-ok (note_signal i e) _ h in
    let (i7, h7, r7) = >>=-eq-ok (note_update _ e) _ (rw (note_signal_lem _ e i6 h6) at r6) in
    let (i8, h8, r8) = >>=-eq-ok (note_cancellation _ e) _ (rw (note_update_lem _ e i7 h7) at r7) in
    let (e8, f8) = note_cancellation_lem _ e i8 h8 in (sym (ok-injective (rw e8 at r8)), f8)

pub add_event_lem :
    (i : Indexes) (e : HistoryEvent) (j : Indexes)
    → add_event i e ≡ ok j
    → IsAccepted i e × (j ≡ advance i e)
unfolding add_event advance
add_event_lem i e j h =
    let (i1, h1, r1) = >>=-eq-ok (check_order i e) _ h in
    let (e1, f1, g1, s1) = check_order_lem i e i1 h1 in
    let (i2, h2, r2) = >>=-eq-ok (note_schedule _ e) _ (rw e1 at r1) in
    let (e2, f2, g2, c2, n2) = note_schedule_lem _ e i2 h2 in
    let (i3, h3, r3) = >>=-eq-ok (note_activity_terminal _ e) _ (rw e2 at r2) in
    let (e3, f3, p3) = note_activity_terminal_lem _ e i3 h3 in
    let (i4, h4, r4) = >>=-eq-ok (note_timer_terminal _ e) _ (rw e3 at r3) in
    let (e4, f4, p4) = note_timer_terminal_lem _ e i4 h4 in
    let (i5, h5, r5) = >>=-eq-ok (note_child_terminal _ e) _ (rw e4 at r4) in
    let (e5, f5, p5) = note_child_terminal_lem _ e i5 h5 in
    let (e6, f6) = external_lem _ e j (rw e5 at r5) in
    (
      record {
        in_order = f1;
        still_open = g1;
        new_command = f2;
        new_entity = g2;
        new_activity = f3;
        new_timer = f4;
        new_child = f5;
        first_start = s1;
        first_cancellation = f6;
        has_command = c2;
        has_entity = n2;
        prior_activity = p3;
        prior_timer = p4;
        prior_child = p5;
      },
      e6 ∙ note_terminal_lem _ e,
    )
