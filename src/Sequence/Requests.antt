-- ===== src/Sequence/Requests.antt =====
-- engine/persistence: the requests of clients: the numbers of the events.
use durable_workflow_engine.Json.{Json}
use durable_workflow_engine.Transitions.Updates.{
  receive_update, repeated_update, send_update, new_update,
}
use durable_workflow_engine.Transitions.Signals.{receive_signal, repeated_signal, send_signal}
use Prim.Native.String.{◌++◌ as ◌++ˢ◌}
use durable_workflow_engine.Sequence.Rules.{
  steps, Found-quiet, Found-writes, quiet-then, insert-then, insert_update-IsQuiet,
  has_external-IsQuiet, fetch_update-IsQuiet, prefix,
}
use durable_workflow_engine.Sequence.Stages.{Keeps, Found, Base}
use durable_workflow_engine.Sequence.Whole.{running-Keeps}
use durable_workflow_engine.Sequence.Triples.{
  IsQuiet, Triple, quietness, record_api_audit-IsQuiet, if-Triple, encoded-IsQuiet, guard-IsQuiet,
}
use durable_workflow_engine.Store.{Execution, AuditContext, UpdateRow}
use durable_workflow_engine.Sequence.{View}
use durable_workflow_engine.Base.{ℕ, Option, String, Bool, none, some, ◌==◌, string_eq}
use durable_workflow_engine.Transitions.Control.{
  repeated, pause_running, pause_workflow, resume_paused, resume_workflow, request_cancellation,
  request_workflow_cancellation,
}
use durable_workflow_engine.Store.Tx.{Session, Tx, guard, event, terminal_workflow, ◌>>◌}

module _ (x : Session) where
  pub repeated-IsQuiet :
      (w : ℕ) (reason : Option String) (audit : Option AuditContext)
      → IsQuiet (repeated x w reason audit)
  unfolding repeated
  repeated-IsQuiet w reason audit = search (quietness, record_api_audit-IsQuiet)

  pause_running-Triple :
      (X : ℕ → Type 0) (u : View) (w : ℕ) (e : Execution) (reason : Option String)
      (audit : Option AuditContext)
      → Triple (Found X u w e) (pause_running x w e reason audit) (λ _. Base X u)
  unfolding pause_running
  pause_running-Triple X u w e reason audit = search (steps, quietness) depth 14

  pub pause_workflow-Keeps :
      (w : ℕ) (reason : Option String) (audit : Option AuditContext)
      → Keeps (pause_workflow x w reason audit)
  unfolding pause_workflow
  pause_workflow-Keeps w reason audit = running-Keeps w _ (λ X u e.
      if-Triple _ _ _ (Found-quiet X u w e _ (repeated-IsQuiet w reason audit))
        (pause_running-Triple X u w e reason audit))

  resume_paused-Triple :
      (X : ℕ → Type 0) (u : View) (w : ℕ) (e : Execution) (t : ℕ) (reason : Option String)
      (audit : Option AuditContext)
      → Triple (Found X u w e) (resume_paused x w e t reason audit) (λ _. Base X u)
  unfolding resume_paused
  resume_paused-Triple X u w e t reason audit = search (steps, quietness) depth 16

  pub resume_workflow-Keeps :
      (w : ℕ) (reason : Option String) (audit : Option AuditContext)
      → Keeps (resume_workflow x w reason audit)
  unfolding resume_workflow
  resume_workflow-Keeps w reason audit = running-Keeps w _ (λ X u e. by_time X u e e.paused_at)
    where
      by_time :
          (X : ℕ → Type 0) (u : View) (e : Execution) (o : Option ℕ)
          → Triple
              (Found X u w e)
              (elim o as (λ _. Tx Bool) [
                | none ↦ repeated x w reason audit
                | some t ↦ resume_paused x w e t reason audit
              ])
              (λ _. Base X u)
      by_time X u e none = Found-quiet X u w e _ (repeated-IsQuiet w reason audit)
      by_time X u e (some t) = resume_paused-Triple X u w e t reason audit

  request_cancellation-Triple :
      (X : ℕ → Type 0) (u : View) (w : ℕ) (e : Execution) (reason : Option String)
      (audit : Option AuditContext)
      → Triple (Found X u w e) (request_cancellation x w e reason audit) (λ _. Base X u)
  unfolding request_cancellation
  request_cancellation-Triple X u w e reason audit = search (steps, quietness) depth 18

  pub request_workflow_cancellation-Keeps :
      (w : ℕ) (reason : Option String) (audit : Option AuditContext)
      → Keeps (request_workflow_cancellation x w reason audit)
  unfolding request_workflow_cancellation
  request_workflow_cancellation-Keeps w reason audit = running-Keeps w _ (λ X u e.
      if-Triple _ _ _ (Found-quiet X u w e _ (repeated-IsQuiet w reason audit))
        (request_cancellation-Triple X u w e reason audit))

  receive_signal-Triple :
      (X : ℕ → Type 0) (u : View) (w : ℕ) (e : Execution) (id name : String) (payload : Json)
      (audit : Option AuditContext)
      → Triple (Found X u w e) (receive_signal x w e id name payload audit) (λ _. Base X u)
  unfolding receive_signal
  receive_signal-Triple X u w e id name payload audit = Found-writes X u w e _ (
      quiet-then _ _ (encoded-IsQuiet _) (λ text.
        insert-then X u
          (record (event w e.next_seq "SignalReceived" none none text) { external_id = some id }) _
          (λ _. search (steps, quietness) depth 16)))

  repeated_signal-IsQuiet :
      (w : ℕ) (id name : String) (audit : Option AuditContext)
      → IsQuiet (repeated_signal x w id name audit)
  unfolding repeated_signal
  repeated_signal-IsQuiet w id name audit = search (quietness, record_api_audit-IsQuiet)

  pub send_signal-Keeps :
      (w : ℕ) (id name : String) (payload : Json) (audit : Option AuditContext)
      → Keeps (send_signal x w id name payload audit)
  unfolding send_signal
  send_signal-Keeps w id name payload audit =
      search (prefix, has_external-IsQuiet, receive_signal-Triple, repeated_signal-IsQuiet) depth 24

  receive_update-Triple :
      (X : ℕ → Type 0) (u : View) (w : ℕ) (e : Execution) (id name : String) (payload : Json)
      (audit : Option AuditContext)
      → Triple (Found X u w e) (receive_update x w e id name payload audit) (λ _. Base X u)
  unfolding receive_update
  receive_update-Triple X u w e id name payload audit = Found-writes X u w e _ (
      quiet-then _ _ (encoded-IsQuiet _) (λ text.
        quiet-then _ _ (insert_update-IsQuiet (new_update x w id name text)) (λ _.
          quiet-then _ _ (encoded-IsQuiet _) (λ attributes.
            insert-then X u
              (record (event w e.next_seq "WorkflowUpdateReceived" none none attributes) {
                external_id = some ("update:" ++ˢ id);
              })
              _ (λ _. search (steps, quietness) depth 16)))))

  repeated_update-IsQuiet :
      (w : ℕ) (row : UpdateRow) (id name : String) (audit : Option AuditContext)
      → IsQuiet (repeated_update x w row id name audit)
  unfolding repeated_update
  repeated_update-IsQuiet w row id name audit = search (quietness, record_api_audit-IsQuiet)

  pub send_update-Keeps :
      (w : ℕ) (id name : String) (payload : Json) (audit : Option AuditContext)
      → Keeps (send_update x w id name payload audit)
  unfolding send_update
  send_update-Keeps w id name payload audit = search (prefix, fetch_update-IsQuiet, by_row) depth 24
    where
      by_row :
          (X : ℕ → Type 0) (u : View) (e : Execution) (detached : Json) (o : Option UpdateRow)
          → Triple
              (Found X u w e)
              (elim o as (λ _. Tx (UpdateRow × Bool)) [
                | some row ↦ repeated_update x w row id name audit
                | none ↦
                    guard (e.status == "running") (terminal_workflow w e.status)
                    >> receive_update x w e id name detached audit
              ])
              (λ _. Base X u)
      by_row X u e detached none = search (quiet-then, guard-IsQuiet, receive_update-Triple)
      by_row X u e detached (some row) =
          Found-quiet X u w e _ (repeated_update-IsQuiet w row id name audit)
