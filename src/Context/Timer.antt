-- ===== src/Context/Timer.antt =====
-- engine/sdk/context.py: `sleep`.
use durable_workflow_engine.Commands.{schedule_timer}
use durable_workflow_engine.History.{HistoryEvent}
use durable_workflow_engine.Context.{
  M, ◌>>=◌, ◌>>◌, guard, take_command_id, non_determinism, expected, value_error, has_fingerprint,
  serialized, changed, recorded_entity, raise, new_commands, entity_uuid, runtime_error, pure,
  await_end, recorded_or,
}
use durable_workflow_engine.Json.{Json, obj, field, str, float, end, float_is_negative}
use durable_workflow_engine.Base.Int.{ℤ}
use durable_workflow_engine.Base.{
  ℕ, String, ◌==◌, not, none, if◌then◌else◌, ◌∷◌, [], string_eq, nat_eq,
}
use durable_workflow_engine.Platform.{Platform, fingerprint}

module _ (p : Platform) where
  -- A timer that the history has.
  unfoldable pub resolve_timer : ℕ → String → HistoryEvent → M (Unit {0})
  resolve_timer n f s = do
    guard (s.event_type == "TimerStarted") (non_determinism n (expected "timer" s.event_type))
    guard (has_fingerprint s f) (non_determinism n (changed "timer"))
    entity ← recorded_entity n "timer" s
    await_end (λ x. x.timer_terminal) entity
        λ t.
          if t.event_type == "TimerCanceled"
          then raise (runtime_error "timer was canceled")
          else pure tt

  abbrev timer_identity : ℕ → Json
  timer_identity delay =
      obj (field "command_type" (str "timer") (field "delay_seconds" (float delay) end))

  -- `sleep(duration)`, for a duration in microseconds.
  unfoldable pub sleep : ℤ → M (Unit {0})
  sleep duration = do
    n ← take_command_id
    let delay = p.total_seconds duration
    guard (not (float_is_negative delay)) (value_error "sleep duration cannot be negative")
    f ← serialized (fingerprint p (timer_identity delay))
    recorded_or n
        (λ c. raise (
          new_commands
            (schedule_timer n (entity_uuid p c.workflow_id "timer" n) delay "sleep" none f ∷ [])))
        (resolve_timer n f)
