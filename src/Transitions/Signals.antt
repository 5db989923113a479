-- ===== src/Transitions/Signals.antt =====
-- engine/persistence/signals.py: `send_signal`.
use durable_workflow_engine.Json.{Json, object, str, bool}
use durable_workflow_engine.Store.{Execution, AuditContext, any, same_option}
use durable_workflow_engine.Store.Tx.{
  Session, fetch_execution, Tx, ◌>>=◌, ◌>>◌, encode, record_api_audit, guard, value_error, clone,
  require, insert_event, no_workflow, event, pure, terminal_workflow, wake, update_execution,
}
use durable_workflow_engine.Base.{
  ℕ, String, Option, Bool, ok, ◌==◌, some, not, ◌&&◌, false, ◌∷◌, [], nat_eq, true, string_eq,
  if◌then◌else◌, none, ◌+◌,
}

-- `select exists (… where workflow_id = $1 and external_id = $2)`.
unfoldable pub has_external : ℕ → String → Tx Bool
has_external w id s =
    ok (any (λ r. r.workflow_id == w && same_option r.external_id id) s.history_events, s)

module _ (x : Session) where
  unfoldable pub receive_signal :
      ℕ → Execution → (signal_id name : String) → Json → Option AuditContext → Tx Bool
  receive_signal w e signal_id name payload audit = do
    attributes ← encode x (object (("name", str name) ∷ ("payload", payload) ∷ []))
    insert_event (record (event w e.next_seq "SignalReceived" none none attributes) {
      external_id = some signal_id;
    })
    wake x w e.queue_name
    update_execution w (λ d. record d { next_seq = e.next_seq + 1 })
    record_api_audit x audit (some w) true
        (object (("signal_id", str signal_id) ∷ ("name", str name) ∷ []))
    pure true

  unfoldable pub repeated_signal : ℕ → (signal_id name : String) → Option AuditContext → Tx Bool
  repeated_signal w signal_id name audit = do
    record_api_audit x audit (some w) false
        (object (("signal_id", str signal_id) ∷ ("name", str name) ∷ ("duplicate", bool true) ∷ []))
    pure false

  unfoldable pub send_signal : ℕ → (signal_id name : String) → Json → Option AuditContext → Tx Bool
  unfolding fetch_execution has_external receive_signal repeated_signal
  send_signal w signal_id name payload audit = do
    guard (not (signal_id == "")) (value_error "signal_id cannot be empty")
    guard (not (name == "")) (value_error "signal name cannot be empty")
    detached ← clone x payload
    found ← fetch_execution w
    e ← require found (no_workflow w)
    duplicate ← has_external w signal_id
    if duplicate then repeated_signal w signal_id name audit else do
      guard (e.status == "running") (terminal_workflow w e.status)
      receive_signal w e signal_id name detached audit
