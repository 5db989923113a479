-- ===== src/Transitions/Updates.antt =====
-- engine/persistence/updates.py: `send_update`.
use durable_workflow_engine.Json.{Json, object, str, bool}
use durable_workflow_engine.Store.Tx.{
  unique_violation, Session, Tx, fetch_execution, Void, ◌>>=◌, ◌>>◌, encode, record_api_audit,
  guard, value_error, clone, require, no_workflow, insert_event, terminal_workflow, event, pure,
  wake, update_execution,
}
use durable_workflow_engine.Store.{UpdateRow, Execution, AuditContext, first_where, any}
use durable_workflow_engine.Base.{
  ℕ, String, Option, Bool, none, ok, if◌then◌else◌, not, ◌==◌, ◌&&◌, err, leb, some, nat_eq, false,
  string_eq, ◌++◌, ◌∷◌, [], true, ◌+◌,
}
use Prim.Native.String.{◌++◌ as ◌++ˢ◌}

unfoldable pub fetch_update : ℕ → String → Tx (Option UpdateRow)
fetch_update w id s = ok (first_where (λ u. u.workflow_id == w && u.update_id == id) s.updates, s)

unfoldable pub insert_update : UpdateRow → Tx Void
insert_update u s =
    if any (λ v. v.workflow_id == u.workflow_id && v.update_id == u.update_id) s.updates
    then err unique_violation
    else ok (tt, record s { updates = s.updates ++ u ∷ [] })

module _ (x : Session) where
  abbrev pub name_valid : String → Bool
  name_valid t = not (t == "") && leb (x.text_length t) 200

  abbrev pub new_update : ℕ → (update_id name payload : String) → UpdateRow
  new_update w update_id name payload = record {
    workflow_id = w;
    update_id = update_id;
    name = name;
    payload = payload;
    status = "pending";
    result = none;
    failure = none;
    created_at = x.now;
    completed_at = none;
  }

  unfoldable pub receive_update :
      ℕ → Execution → (update_id name : String) → Json → Option AuditContext → Tx (UpdateRow × Bool)
  unfolding insert_update
  receive_update w e update_id name payload audit = do
    text ← encode x payload
    let row = new_update w update_id name text
    insert_update row
    attributes ←
        encode x
          (object (("update_id", str update_id) ∷ ("name", str name) ∷ ("payload", payload) ∷ []))
    insert_event (record (event w e.next_seq "WorkflowUpdateReceived" none none attributes) {
      external_id = some ("update:" ++ˢ update_id);
    })
    wake x w e.queue_name
    update_execution w (λ d. record d { next_seq = e.next_seq + 1 })
    record_api_audit x audit (some w) true
        (object (("update_id", str update_id) ∷ ("name", str name) ∷ []))
    pure (row, true)

  unfoldable pub repeated_update :
      ℕ → UpdateRow → (update_id name : String) → Option AuditContext → Tx (UpdateRow × Bool)
  repeated_update w row update_id name audit = do
    record_api_audit x audit (some w) false
        (object (("update_id", str update_id) ∷ ("name", str name) ∷ ("duplicate", bool true) ∷ []))
    pure (row, false)

  unfoldable pub send_update :
      ℕ → (update_id name : String) → Json → Option AuditContext → Tx (UpdateRow × Bool)
  unfolding fetch_execution fetch_update receive_update repeated_update
  send_update w update_id name payload audit = do
    guard (name_valid update_id) (value_error "update_id must contain 1 to 200 characters")
    guard (name_valid name) (value_error "update name must contain 1 to 200 characters")
    detached ← clone x payload
    found ← fetch_execution w
    e ← require found (no_workflow w)
    existing ← fetch_update w update_id
    elim existing [
      | some row ↦ repeated_update w row update_id name audit
      | none ↦
          guard (e.status == "running") (terminal_workflow w e.status)
          >> receive_update w e update_id name detached audit
    ]
