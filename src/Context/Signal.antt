-- ===== src/Context/Signal.antt =====
-- engine/sdk/context.py: `wait_signal`.
use durable_workflow_engine.Commands.{schedule_timer}
use durable_workflow_engine.Base.Dict.{lookup}
use durable_workflow_engine.Base.Int.{ℤ}
use durable_workflow_engine.Json.{Json, obj, field, str, float, end, get_null, float_is_negative}
use durable_workflow_engine.Context.{
  M, is_str, ◌>>◌, modify, guard, clone_attribute, non_determinism, value_error, expected, ◌>>=◌,
  has_fingerprint, ask, changed, raise, recorded_entity, blocked, take_command_id, signal_timeout,
  serialized, new_commands, entity_uuid, recorded_or, if_none,
}
use durable_workflow_engine.Platform.{Platform, fingerprint}
use durable_workflow_engine.History.{HistoryEvent}
use durable_workflow_engine.Base.{
  String, List, Option, ℕ, none, Bool, ◌∷◌, true, if◌then◌else◌, some, not, ltb, contains, ◌&&◌, [],
  nat_eq, ◌==◌, string_eq,
}

abbrev pub is_candidate : String → List ℕ → HistoryEvent → Bool
is_candidate name consumed e =
    not (contains consumed e.seq) && is_str (get_null "name" e.attributes) name

-- The first event that is not consumed and has this name.
unfoldable pub first_matching : String → List ℕ → List HistoryEvent → Option HistoryEvent
first_matching name consumed [] = none
first_matching name consumed (e ∷ es) =
    if is_candidate name consumed e then some e else first_matching name consumed es

abbrev pub seq_before : HistoryEvent → Option HistoryEvent → Bool
seq_before m none = true
seq_before m (some t) = ltb m.seq t.seq

-- No signal wins: SignalTimeoutError if the timer has fired.
abbrev pub timed_out : String → Option HistoryEvent → M Json
timed_out name none = raise blocked
timed_out name (some t) =
    if t.event_type == "TimerFired" then raise (signal_timeout name) else raise blocked

module _ (p : Platform) where
  -- `self._consumed_signal_seqs.add(seq); return clone_json(payload)`.
  unfoldable pub consume_signal : HistoryEvent → M Json
  consume_signal e = do
    modify (λ c. record c { consumed_signal_seqs = e.seq ∷ c.consumed_signal_seqs })
    clone_attribute p "payload" e

  -- The signal wins if the timer has not ended, or ended later.
  unfoldable pub race : String → Option HistoryEvent → Option HistoryEvent → M Json
  race name none ending = timed_out name ending
  race name (some m) ending =
      if seq_before m ending then consume_signal m else timed_out name ending

  abbrev pub signal_identity : String → ℕ → Json
  signal_identity name delay = obj (
      field "command_type" (str "signal_timeout")
        (field "signal_name" (str name) (field "delay_seconds" (float delay) end)))

  -- The race of a signal with a timer that the history has.
  unfoldable pub resolve_signal : String → ℕ → String → Option HistoryEvent → HistoryEvent → M Json
  resolve_signal name n f matching s = do
    guard (s.event_type == "TimerStarted")
        (non_determinism n (expected "signal timeout" s.event_type))
    guard (has_fingerprint s f) (non_determinism n (changed "signal timeout"))
    entity ← recorded_entity n "signal timeout" s
    c ← ask
    race name matching (lookup entity c.history.timer_terminal)

  -- `wait_signal(name, timeout=…)`, for a timeout in microseconds.
  unfoldable pub wait_signal : String → Option ℤ → M Json
  wait_signal name timeout = do
    guard (not (name == "")) (value_error "signal name cannot be empty")
    c0 ← ask
    let matching = first_matching name c0.consumed_signal_seqs c0.history.signals
    elim timeout [
      | none ↦ if_none matching (raise blocked) consume_signal
      | some duration ↦ do
        n ← take_command_id
        let delay = p.total_seconds duration
        guard (not (float_is_negative delay)) (value_error "signal timeout cannot be negative")
        f ← serialized (fingerprint p (signal_identity name delay))
        recorded_or n
            (λ c. raise (
              new_commands (
                schedule_timer n (entity_uuid p c.workflow_id "signal-timeout" n) delay
                  "signal_timeout" (some name) f
                ∷ [])))
            (resolve_signal name n f matching)
    ]
