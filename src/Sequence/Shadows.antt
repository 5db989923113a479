-- ===== src/Sequence/Shadows.antt =====
-- engine/persistence/updates.py and signals.py: an update and a signal with one external identity.
use durable_workflow_engine.Transitions.Activities.{Floats}
use durable_workflow_engine.Sequence.Steps.{
  transact, IsReachable, IsLater, update_workflow, committed, later-Grows,
}
use text.Mathlib.TextLemmas.{append-eq-nil_iff, cons≢nil}
use durable_workflow_engine.Transitions.Signals.{send_signal}
use durable_workflow_engine.Platform.{clone_json, value_of}
use durable_workflow_engine.Sequence.Rules.{quiet-then, insert_update-IsQuiet, fetch_update-IsQuiet}
use durable_workflow_engine.Sequence.Stages.{pre-Triple, post-Triple}
use mathlib.Core.Bool.{false≢true}
use durable_workflow_engine.Base.Dict.{lookup}
use durable_workflow_engine.Sequence.Delivery.{
  Known, Delivered, insert_event-Delivered, update_execution-Delivered, found-lookup,
  Delivered-duplicate, duplicate_details, Delivered-Grows,
}
use durable_workflow_engine.Sequence.Triples.{
  Triple, bind-Triple, quiet-Triple, record_api_audit-IsQuiet, encoded-IsQuiet, guard-IsQuiet,
  wake-IsQuiet, quietness,
}
use durable_workflow_engine.Sequence.{View, view}
use durable_workflow_engine.Json.{Json}
use durable_workflow_engine.Store.{UpdateRow, Execution, AuditContext, same_option, Store}
use durable_workflow_engine.Transitions.Updates.{
  receive_update, repeated_update, new_update, send_update, name_valid, fetch_update,
}
use Prim.Native.String.{◌++◌ as ◌++ˢ◌}
use durable_workflow_engine.Base.{
  ℕ, String, Bool, Option, ◌≡◌, true, some, ◌==◌, ◌&&◌, false, arith, nat_eqb_iff, string_eq, sym,
  ◌∙◌, nat_eq, none, refl, ok, not, Bool-cases, inl, inr,
}
use durable_workflow_engine.Store.Tx.{
  Session, Tx, guard, terminal_workflow, ◌>>◌, event, require, no_workflow, ◌>>=◌, clone,
  fetch_execution, record_api_audit,
}

module _ (x : Session) (w : ℕ) (id : String) where
  abbrev external : String
  external = "update:" ++ˢ id

  receive_update-Delivered :
      (e : Execution) (name : String) (payload : Json) (audit : Option AuditContext)
      → Triple (Known w) (receive_update x w e id name payload audit) (λ _. Delivered w external)
  unfolding receive_update
  receive_update-Delivered e name payload audit = quiet-then _ _ (encoded-IsQuiet _) (λ text.
      quiet-then _ _ (insert_update-IsQuiet (new_update x w id name text)) (λ _.
        quiet-then _ _ (encoded-IsQuiet _) (λ attributes.
          bind-Triple _ _
            (insert_event-Delivered w external
              (record (event w e.next_seq "WorkflowUpdateReceived" none none attributes) {
                external_id = some external;
              })
              own)
            (λ _. quiet-then _ _ (wake-IsQuiet x w e.queue_name) (λ _.
              bind-Triple _ _ (update_execution-Delivered w external _)
                (λ _. quiet-Triple _ (search (quietness, record_api_audit-IsQuiet))))))))
    where
      own : (w == w && same_option (some external) external) ≡ true
      own = rw ((nat_eqb_iff w w).1 refl, (string_eq.same_iff external external).1 refl) refl

  -- What holds if the update is new.
  New : UpdateRow × Bool → View → Type 0
  New r v = r.1 ≡ true → Delivered w external v

  repeated-New :
      (row : UpdateRow) (name : String) (audit : Option AuditContext) (P : View → Type 0)
      → Triple P (repeated_update x w row id name audit) New
  unfolding repeated_update New
  repeated-New row name audit P =
      bind-Triple {Q = λ _. P} _ _ (quiet-Triple _ (record_api_audit-IsQuiet _ _ _ _ _)) (λ _.
        record {
          run = λ s t r h e p.
              let old : r.1 ≡ false = ground arith in absurd (false≢true (sym old ∙ p));
        })

  by_row :
      (e : Execution) (o : Option UpdateRow) (name : String) (payload : Json)
      (audit : Option AuditContext)
      → Triple
          (λ v. lookup w v.executions ≡ some e)
          (elim o as (λ _. Tx (UpdateRow × Bool)) [
            | some row ↦ repeated_update x w row id name audit
            | none ↦
                guard (e.status == "running") (terminal_workflow w e.status)
                >> receive_update x w e id name payload audit
          ])
          New
  unfolding New
  by_row e (some row) name payload audit = repeated-New row name audit _
  by_row e none name payload audit =
      pre-Triple _ (λ v h. record { known = e; stored = h })
        (quiet-then _ _ (guard-IsQuiet (e.status == "running") (terminal_workflow w e.status))
          (λ _. post-Triple _ (λ r v d p. d) (receive_update-Delivered e name payload audit)))

  by_execution :
      (o : Option Execution) (name : String) (payload : Json) (audit : Option AuditContext)
      → Triple
          (λ v. lookup w v.executions ≡ o)
          (require o (no_workflow w) >>= λ e. fetch_update w id >>= λ existing.
            elim existing as (λ _. Tx (UpdateRow × Bool)) [
              | some row ↦ repeated_update x w row id name audit
              | none ↦
                  guard (e.status == "running") (terminal_workflow w e.status)
                  >> receive_update x w e id name payload audit
            ])
          New
  by_execution none name payload audit = record { run = λ s t a h e. absurd (ground arith) }
  by_execution (some e) name payload audit =
      quiet-then (fetch_update w id) _ (fetch_update-IsQuiet w id)
        (λ o. by_row e o name payload audit)

  send_update-New :
      (name : String) (payload : Json) (audit : Option AuditContext)
      → Triple (λ _. Unit) (send_update x w id name payload audit) New
  unfolding send_update
  send_update-New name payload audit =
      quiet-then (guard (name_valid x id) _) _ (guard-IsQuiet _ _) (λ _.
        quiet-then (guard (name_valid x name) _) _ (guard-IsQuiet _ _) (λ _.
          quiet-then (clone x payload) _ (encoded-IsQuiet _) (λ detached.
            bind-Triple (fetch_execution w) _ (found-lookup x w id)
              (λ o. by_execution o name detached audit))))

external-not_empty : (id : String) → not (("update:" ++ˢ id) == "") ≡ true
external-not_empty id = elim (Bool-cases (("update:" ++ˢ id) == "")) [
  | inl b ↦
      let parts = append-eq-nil_iff.0 ((string_eq.same_iff ("update:" ++ˢ id) "").0 b) in
      absurd (cons≢nil parts.0)
  | inr b ↦ rw b refl
]

-- In tables that requests, leases of tasks (where each row of the tasks stands under
-- its own identity, and once), and transactions that write neither executions nor events, lead to from
-- empty ones: after an update that is new, and whatever such transactions come after it, a signal for the
-- same execution whose identity is "update:" and then the update's identity is a duplicate: its result is
-- false, and it writes no table but the audit log, which it writes as record_api_audit does for a
-- duplicate. This is provided that its name is not empty, that its payload can be encoded, and that
-- record_api_audit does not raise.
pub send_update-shadows :
    (fl : Floats) (x y : Session) (w : ℕ) (id name later : String) (payload other detached : Json)
    (audit late : Option AuditContext) (s t t' u : Store) (row : UpdateRow)
    → IsReachable fl s
    → send_update x w id name payload audit s ≡ ok ((row, true), t)
    → IsLater fl t t'
    → not (later == "") ≡ true
    → clone_json y.platform other ≡ value_of detached
    → record_api_audit y late (some w) false (duplicate_details y w ("update:" ++ˢ id) later) t'
      ≡ ok (tt, u)
    → (send_signal y w ("update:" ++ˢ id) later other late t' ≡ ok (false, u))
      × (u ≡ record t' { audit = u.audit })
unfolding New transact
send_update-shadows fl x y w id name later payload other detached audit late s t t' u row q h l n c
      r =
    let d = (send_update-New x w id name payload audit).run s t (row, true) tt h refl in
    let done : transact x fl (update_workflow w id name payload audit) s ≡ ok (tt, t) = rw h refl in
    let reached = committed x (update_workflow w id name payload audit) s t q done in
    let kept =
      Delivered-Grows w ("update:" ++ˢ id) (view t) (view t') (later-Grows fl t t' reached l) d in
    Delivered-duplicate y w ("update:" ++ˢ id) t' u later other detached late kept
      (external-not_empty id) n c r
