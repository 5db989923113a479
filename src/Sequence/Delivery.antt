-- ===== src/Sequence/Delivery.antt =====
-- engine/persistence/signals.py and updates.py: what is received twice.
use durable_workflow_engine.Transitions.Activities.{Floats}
use durable_workflow_engine.Sequence.Steps.{
  transact, IsReachable, IsLater, signal_workflow, committed, later-Grows,
}
use durable_workflow_engine.Sequence.Stages.{pre-Triple}
use durable_workflow_engine.Platform.{
  clone_json, value_of, Serialized, serialization_error, canonical_json,
}
use durable_workflow_engine.Sequence.Rules.{quiet-then}
use durable_workflow_engine.Json.{Json, object, str, bool}
use durable_workflow_engine.Sequence.Triples.{
  Triple, encoded-IsQuiet, bind-Triple, wake-IsQuiet, quiet-Triple, quietness,
  record_api_audit-IsQuiet, guard-IsQuiet, bind-eq-ok,
}
use durable_workflow_engine.Base.Dict.{lookup, insert, lookup-insert}
use durable_workflow_engine.Transitions.Signals.{
  receive_signal, send_signal, has_external, repeated_signal,
}
use durable_workflow_engine.Store.{
  EventRow, any, Execution, Store, same_option, conflicts, AuditContext,
}
use durable_workflow_engine.Sequence.{View, view, Grows}
use durable_workflow_engine.Store.Tx.{
  Session, insert_event, update_execution, fetch_execution, Void, record_api_audit, event, require,
  guard, terminal_workflow, no_workflow, ◌>>◌, ◌>>=◌, clone, append_audit, encoded, encode,
  as_jsonb,
}
use durable_workflow_engine.Base.{
  ℕ, Bool, String, List, ◌≡◌, ◌==◌, true, ◌&&◌, some, ◌++◌, Bool-cases, Option, ◌∷◌, nat_eq, [], ok,
  nat_eqb_iff, inl, string_eq, arith, not, inr, refl, none, false, sym, if◌then◌else◌, ◌∙◌,
}

abbrev pub is_received : ℕ → String → EventRow → Bool
is_received w id r = r.workflow_id == w && same_option r.external_id id

-- The execution has an event under the external identity.
pub record Delivered (w : ℕ) (id : String) (v : View) : Type 0 where
  pub received : any (is_received w id) v.rows ≡ true
  pub known : Execution
  pub stored : lookup w v.executions ≡ some known

-- The execution was read.
pub record Known (w : ℕ) (v : View) : Type 0 where
  pub known : Execution
  pub stored : lookup w v.executions ≡ some known

any-last {ℓ} :
    {A : Type ℓ} (test : A → Bool) (as' : List A) (a : A)
    → test a ≡ true
    → any test (as' ++ a ∷ []) ≡ true
any-last test [] a h = rw h refl
any-last test (b ∷ as') a h = let rest = any-last test as' a h in ground (arith, rest)

module _ (w : ℕ) (id : String) where
  pub insert_event-Delivered :
      (r : EventRow)
      → is_received w id r ≡ true
      → Triple (Known w) (insert_event r) (λ _. Delivered w id)
  unfolding insert_event
  insert_event-Delivered r own = record {
    run = λ s t a h e. elim (Bool-cases (any (conflicts r) s.history_events)) [
      | inl b ↦ absurd (ground arith)
      | inr free ↦
          let same : t ≡ record s { history_events = s.history_events ++ r ∷ [] } = ground arith in
          rw same (record {
            received = any-last (is_received w id) s.history_events r own;
            known = h.known;
            stored = h.stored;
          })
    ];
  }

  pub update_execution-Delivered :
      (change : Execution → Execution)
      → Triple (Delivered w id) (update_execution w change) (λ _. Delivered w id)
  unfolding update_execution
  update_execution-Delivered change = record {
    run = λ s t a h e.
        let same : t ≡ record s { executions = insert w (change h.known) s.executions } =
          written s t a h.known h.stored e in
        rw same (record {
          received = h.received;
          known = change h.known;
          stored =
              rw (lookup-insert w w (change h.known) s.executions, (nat_eqb_iff w w).1 refl) refl;
        });
  }
    where
      written :
          (s t : Store) (a : Void) (d : Execution)
          → lookup w s.executions ≡ some d
          → update_execution w change s ≡ ok (a, t)
          → t ≡ record s { executions = insert w (change d) s.executions }
      written s t a d h e = ground arith

encoded_same :
    {A : Type 0} (v : Serialized A) (s u : Store) (a : A) → encoded v s ≡ ok (a, u) → u ≡ s
encoded_same (value_of b) s u a h = ground arith
encoded_same serialization_error s u a h = absurd (ground arith)

-- The audit log is written, and no other table.
pub audit_only :
    (x : Session) (audit : Option AuditContext) (w : Option ℕ) (accepted : Bool) (details : Json)
    (s u : Store)
    → record_api_audit x audit w accepted details s ≡ ok (tt, u)
    → u ≡ record s { audit = u.audit }
unfolding record_api_audit append_audit
audit_only x none w accepted details s u h = let same : s ≡ u = ground arith in rw (sym same) refl
audit_only x (some c) w accepted details s u h =
    let (detached, s1, first, h1) = bind-eq-ok (clone x details s) _ tt u h in
    let (text, s2, second, h2) = bind-eq-ok (encode x detached s1) _ tt u h1 in
    let same : s2 ≡ s =
      encoded_same (as_jsonb x (canonical_json x.platform detached)) s1 s2 text second
      ∙ encoded_same (clone_json x.platform details) s s1 detached first in
    let written : record s2 {
      audit =
          s2.audit
          ++ (record { context = c; workflow_id = w; accepted = accepted; details = text }) ∷ [];
    }
        ≡ u =
      ground arith in
    rw (sym written, same) refl

-- What is received stays received.
pub Delivered-Grows :
    (w : ℕ) (id : String) (u v : View) → Grows u v → Delivered w id u → Delivered w id v
Delivered-Grows w id u v g d =
    let (f, stored) = g.stays w d.known d.stored in
    record { received = g.kept (is_received w id) d.received; known = f; stored = stored }

module _ (x : Session) (w : ℕ) (id : String) where
  receive_signal-Delivered :
      (e : Execution) (name : String) (payload : Json) (audit : Option AuditContext)
      → Triple (Known w) (receive_signal x w e id name payload audit) (λ _. Delivered w id)
  unfolding receive_signal
  receive_signal-Delivered e name payload audit = quiet-then _ _ (encoded-IsQuiet _) (λ text.
      bind-Triple _ _
        (insert_event-Delivered w id
          (record (event w e.next_seq "SignalReceived" none none text) { external_id = some id })
          own)
        (λ _. quiet-then _ _ (wake-IsQuiet x w e.queue_name) (λ _.
          bind-Triple _ _ (update_execution-Delivered w id _)
            (λ _. quiet-Triple _ (search (quietness, record_api_audit-IsQuiet))))))
    where
      own : (w == w && same_option (some id) id) ≡ true
      own = rw ((nat_eqb_iff w w).1 refl, (string_eq.same_iff id id).1 refl) refl

  -- What is recorded about a duplicate.
  abbrev pub duplicate_details : String → Json
  duplicate_details name =
      object (("signal_id", str id) ∷ ("name", str name) ∷ ("duplicate", bool true) ∷ [])

  -- Where the execution has an event under the identity, a signal with it is a duplicate.
  pub Delivered-duplicate :
      (s u : Store) (name : String) (payload detached : Json) (audit : Option AuditContext)
      → Delivered w id (view s)
      → not (id == "") ≡ true
      → not (name == "") ≡ true
      → clone_json x.platform payload ≡ value_of detached
      → record_api_audit x audit (some w) false (duplicate_details name) s ≡ ok (tt, u)
      → (send_signal x w id name payload audit s ≡ ok (false, u))
        × (u ≡ record s { audit = u.audit })
  unfolding send_signal fetch_execution has_external repeated_signal
  Delivered-duplicate s u name payload detached audit d i n c h =
      let found = d.received in
      let stored = d.stored in
      (
        rw (i, n, c, stored, found, h) refl,
        audit_only x audit (some w) false (duplicate_details name) s u h,
      )

  -- The execution was read, and it is known whether it has an event under the identity.
  Looked : Execution → Bool → View → Type 0
  Looked e b v = (lookup w v.executions ≡ some e) × (any (is_received w id) v.rows ≡ b)

  has_external-Looked :
      (e : Execution)
      → Triple (λ v. lookup w v.executions ≡ some e) (has_external w id) (λ b. Looked e b)
  unfolding has_external Looked
  has_external-Looked e = record {
    run = λ s t b h p.
        let same : s ≡ t = ground arith in
        let answer : any (is_received w id) s.history_events ≡ b = ground arith in
        rw (sym same) (h, answer);
  }

  by_duplicate :
      (e : Execution) (b : Bool) (name : String) (payload : Json) (audit : Option AuditContext)
      → Triple
          (Looked e b)
          (if b
            then repeated_signal x w id name audit
            else (guard (e.status == "running") (terminal_workflow w e.status)
                >> receive_signal x w e id name payload audit))
          (λ _. Delivered w id)
  unfolding Looked repeated_signal
  by_duplicate e true name payload audit =
      pre-Triple _ (λ v h. record { received = h.1; known = e; stored = h.0 })
        (quiet-Triple _ (search (quietness, record_api_audit-IsQuiet)))
  by_duplicate e false name payload audit =
      pre-Triple _ (λ v h. record { known = e; stored = h.0 })
        (quiet-then _ _ (guard-IsQuiet (e.status == "running") (terminal_workflow w e.status))
          (λ _. receive_signal-Delivered e name payload audit))

  by_execution :
      (o : Option Execution) (name : String) (payload : Json) (audit : Option AuditContext)
      → Triple
          (λ v. lookup w v.executions ≡ o)
          (require o (no_workflow w) >>= λ e. has_external w id >>= λ duplicate.
            if duplicate
            then repeated_signal x w id name audit
            else (guard (e.status == "running") (terminal_workflow w e.status)
                >> receive_signal x w e id name payload audit))
          (λ _. Delivered w id)
  by_execution none name payload audit = record { run = λ s t a h e. absurd (ground arith) }
  by_execution (some e) name payload audit =
      bind-Triple (has_external w id) _ (has_external-Looked e)
        (λ b. by_duplicate e b name payload audit)

  pub found-lookup : Triple (λ _. Unit) (fetch_execution w) (λ o v. lookup w v.executions ≡ o)
  unfolding fetch_execution
  found-lookup = record {
    run = λ s t o h p.
        let same : s ≡ t = ground arith in
        let answer : lookup w s.executions ≡ o = ground arith in rw (sym same) answer;
  }

  send_signal-Delivered :
      (name : String) (payload : Json) (audit : Option AuditContext)
      → Triple (λ _. Unit) (send_signal x w id name payload audit) (λ _. Delivered w id)
  unfolding send_signal
  send_signal-Delivered name payload audit =
      quiet-then (guard (not (id == "")) _) _ (guard-IsQuiet _ _) (λ _.
        quiet-then (guard (not (name == "")) _) _ (guard-IsQuiet _ _) (λ _.
          quiet-then (clone x payload) _ (encoded-IsQuiet _) (λ detached.
            bind-Triple (fetch_execution w) _ found-lookup
              (λ o. by_execution o name detached audit))))

  send_signal-named :
      (s t : Store) (b : Bool) (name : String) (payload : Json) (audit : Option AuditContext)
      → send_signal x w id name payload audit s ≡ ok (b, t)
      → not (id == "") ≡ true
  unfolding send_signal
  send_signal-named s t b name payload audit h = elim (Bool-cases (not (id == ""))) [
    | inl p ↦ p
    | inr p ↦ absurd (ground arith)
  ]

-- In tables that requests, leases of tasks (where each row of the tasks stands under
-- its own identity, and once), and transactions that write neither executions nor events, lead to from
-- empty ones: after a signal that did not raise, whether it was new or not, and whatever such
-- transactions come after it, a signal for the same execution with the same identity, whatever its name
-- and payload, is a duplicate: its result is false, and it writes no table but the audit log, which it
-- writes as record_api_audit does for a duplicate. This is provided that its name is not empty, that its
-- payload can be encoded, and that record_api_audit does not raise.
pub send_signal-again :
    (fl : Floats) (x y : Session) (w : ℕ) (id name later : String) (payload other detached : Json)
    (audit late : Option AuditContext) (s t t' u : Store) (b : Bool)
    → IsReachable fl s
    → send_signal x w id name payload audit s ≡ ok (b, t)
    → IsLater fl t t'
    → not (later == "") ≡ true
    → clone_json y.platform other ≡ value_of detached
    → record_api_audit y late (some w) false (duplicate_details y w id later) t' ≡ ok (tt, u)
    → (send_signal y w id later other late t' ≡ ok (false, u)) × (u ≡ record t' { audit = u.audit })
unfolding transact
send_signal-again fl x y w id name later payload other detached audit late s t t' u b q h l n c r =
    let d = (send_signal-Delivered x w id name payload audit).run s t b tt h in
    let done : transact x fl (signal_workflow w id name payload audit) s ≡ ok (tt, t) = rw h refl in
    let reached = committed x (signal_workflow w id name payload audit) s t q done in
    let kept = Delivered-Grows w id (view t) (view t') (later-Grows fl t t' reached l) d in
    Delivered-duplicate y w id t' u later other detached late kept
      (send_signal-named x w id s t b name payload audit h) n c r
