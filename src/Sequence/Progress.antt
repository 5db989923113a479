-- ===== src/Sequence/Progress.antt =====
-- engine/persistence: the place of a new event.
use durable_workflow_engine.Sequence.Delivery.{audit_only}
use durable_workflow_engine.Base.{[], string_eq, nat_eq, refl, ◌++◌}
use durable_workflow_engine.Platform.{canonical_json, value_of}
use mathlib.Core.Path.{subst}
use durable_workflow_engine.Base.Dict.{lookup, insert, lookup-insert}
use durable_workflow_engine.Sequence.Steps.{IsReachable, histories-IsNumbered}
use durable_workflow_engine.Transitions.Activities.{Floats}
use durable_workflow_engine.Sequence.{IsNumbered}
use durable_workflow_engine.Base.{
  ℕ, String, Option, List, ◌+◌, length, ◌≤◌, none, ◌≡◌, false, some, ◌∷◌, ◌==◌, true, Bool-cases,
  inl, arith, ok, nat_eqb_iff, inr, nat_eq, [], string_eq,
}
use durable_workflow_engine.Store.Tx.{
  running_execution, fetch_execution, append_event, insert_event, update_execution,
  record_api_audit, Session, event,
}
use durable_workflow_engine.Transitions.Control.{pause_workflow, pause_running, reason_only}
use durable_workflow_engine.Store.{
  rows_of, conflicts, EventRow, Execution, any, Store, AuditContext,
}

later_free :
    (w n k : ℕ) (type text : String) (entity_id : Option ℕ) (rows : List EventRow)
    → IsNumbered k (rows_of w rows)
    → k + length (rows_of w rows) ≤ n
    → any (conflicts (event w n type none entity_id text)) rows ≡ false
unfolding rows_of conflicts
later_free w n k type text u [] p h = refl
later_free w n k type text u (o ∷ rows) p h = elim (Bool-cases (o.workflow_id == w)) [
  | inl own ↦
      let q : IsNumbered k (o ∷ rows_of w rows) = here own p in
      let size : k + length (o ∷ rows_of w rows) ≤ n = fits_here own h in
      let other : (o.seq == n) ≡ false = elim (Bool-cases (o.seq == n)) [
        | inl b ↦ absurd (omega (arith, (nat_eqb_iff o.seq n).0 b, q.0, size))
        | inr b ↦ b
      ] in
      rw (own, other) (later_free w n (k + 1) type text u rows q.1 (omega (arith, size)))
  | inr b ↦ rw b (later_free w n k type text u rows (elsewhere b p) (fits_elsewhere b h))
]
  where
    here :
        (o.workflow_id == w) ≡ true
        → IsNumbered k (rows_of w (o ∷ rows))
        → IsNumbered k (o ∷ rows_of w rows)
    here own p =
        let same : rows_of w (o ∷ rows) ≡ o ∷ rows_of w rows = rw own refl in
        subst (IsNumbered k) same p

    fits_here :
        (o.workflow_id == w) ≡ true
        → k + length (rows_of w (o ∷ rows)) ≤ n
        → k + length (o ∷ rows_of w rows) ≤ n
    fits_here own h =
        let same : rows_of w (o ∷ rows) ≡ o ∷ rows_of w rows = rw own refl in
        subst (λ r. k + length r ≤ n) same h

    elsewhere :
        (o.workflow_id == w) ≡ false
        → IsNumbered k (rows_of w (o ∷ rows))
        → IsNumbered k (rows_of w rows)
    elsewhere b p =
        let same : rows_of w (o ∷ rows) ≡ rows_of w rows = rw b refl in subst (IsNumbered k) same p

    fits_elsewhere :
        (o.workflow_id == w) ≡ false
        → k + length (rows_of w (o ∷ rows)) ≤ n
        → k + length (rows_of w rows) ≤ n
    fits_elsewhere b h =
        let same : rows_of w (o ∷ rows) ≡ rows_of w rows = rw b refl in
        subst (λ r. k + length r ≤ n) same h

-- The tables after a pause: the event under the next number, and the row of the execution.
abbrev pub paused_execution : ℕ → Option String → Execution → Execution
paused_execution time reason e = record e {
  paused_at = some time;
  pause_reason = reason;
  next_seq = e.next_seq + 1;
}

abbrev pub with_pause : ℕ → Execution → ℕ → Option String → String → Store → Store
with_pause w e time reason text s = record s {
  history_events =
      s.history_events ++ event w e.next_seq "WorkflowExecutionPaused" none none text ∷ [];
  executions = insert w (paused_execution time reason e) s.executions;
}

-- In tables that requests, leases of tasks (where each row of the tasks stands under
-- its own identity, and once), and transactions that write neither executions nor events, lead to from
-- empty ones, an execution that runs and is not paused is paused by a request whose reason can be encoded
-- and is accepted as jsonb, and whose audit record does not raise: the result is true, and in the tables
-- after it the execution's row is as before but for paused_at, which is the time of the transaction, the
-- reason, and next_seq, which is one more; the event WorkflowExecutionPaused with the old next_seq and
-- the encoded reason has come last; and no other table but the audit log is written.
pub pause_workflow-commits :
    (x : Session) (fl : Floats) (w : ℕ) (e : Execution) (reason : Option String) (text : String)
    (audit : Option AuditContext) (s u : Store)
    → IsReachable fl s
    → lookup w s.executions ≡ some e
    → (e.status == "running") ≡ true
    → e.paused_at ≡ none
    → canonical_json x.platform (reason_only x reason) ≡ value_of text
    → x.accepts_jsonb text ≡ true
    → record_api_audit x audit
        (some w)
        true
        (reason_only x reason)
        (with_pause w e x.now reason text s)
      ≡ ok (tt, u)
    → (pause_workflow x w reason audit s ≡ ok (true, u))
      × (lookup w u.executions ≡ some (paused_execution x.now reason e))
      × (u ≡ record (with_pause w e x.now reason text s) { audit = u.audit })
unfolding pause_workflow running_execution fetch_execution pause_running append_event insert_event
    update_execution
pause_workflow-commits x fl w e reason text audit s u q found runs free encodes accepted r =
    let (numbered, next) = histories-IsNumbered fl s w e q found in
    let empty =
      later_free w e.next_seq 1 "WorkflowExecutionPaused" text none s.history_events numbered
        (omega (arith, next)) in
    let written =
      audit_only x audit (some w) true (reason_only x reason) (with_pause w e x.now reason text s) u
        r in
    let row : lookup w (insert w (paused_execution x.now reason e) s.executions)
        ≡ some (paused_execution x.now reason e) =
      rw
        (lookup-insert w w (paused_execution x.now reason e) s.executions, (nat_eqb_iff w w).1 refl)
        refl in
    (ground (arith, found, runs, free, encodes, accepted, empty, r), rw written row, written)
