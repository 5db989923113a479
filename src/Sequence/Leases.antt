-- ===== src/Sequence/Leases.antt =====
-- engine/persistence/leasing.py: `lease_task`: the numbers of the events.
-- Each row of the tasks stands under its own identity, and once.
use durable_workflow_engine.Sequence.Stages.{Base, Found-Ready, inserted, updated}
use mathlib.Core.Path.{subst}
use durable_workflow_engine.Base.{sym, ◌⊎◌, ◌∙◌, ◌==◌, Option-cases, contains, string_eq}
use durable_workflow_engine.Base.Int.{pos, ℤ}
use durable_workflow_engine.Store.Tx.{event}
use durable_workflow_engine.Json.{Json, obj, field, int, str, end}
use durable_workflow_engine.Sequence.{view, View, IsSequenced, Grows-refl}
use durable_workflow_engine.Base.Dict.{Dict, lookup, insert}
use durable_workflow_engine.Store.Rows.{IsRow}
use durable_workflow_engine.Base.{
  ℕ, Bool, ◌≡◌, String, some, ok, nat_eq, none, false, ◌++◌, ◌∷◌, Option, [], if◌then◌else◌, ◌+◌,
  Result, inr, inl, eq_of_some, err, Bool-cases, true, arith, refl, ap, sym,
}
use durable_workflow_engine.Platform.{
  Platform, Serialized, serialization_error, value_of, canonical_json,
}
use durable_workflow_engine.Leasing.{
  first_candidate, append_started, earlier, LeaseError, not_json, comes_before, unique_violation,
  lease_row, lease_task, take_lease, lease_candidate, write_task, is_runnable, leased_row, positive,
}
use durable_workflow_engine.Store.{Store, Task, Execution, any, conflicts}

abbrev pub IsTable : Store → Type 0
IsTable s = (k : ℕ) (t : Task) → IsRow k t s.tasks → (t.id ≡ k) × (lookup k s.tasks ≡ some t)

first_candidate-IsRow :
    (test : Task → Bool) (d : Dict ℕ Task) (c : Task)
    → first_candidate test d ≡ some c
    → (k : ℕ) × IsRow k c d
unfolding first_candidate
first_candidate-IsRow test [] c h = cc
first_candidate-IsRow test ((k, t) ∷ rest) c h =
    by_test (test t) (first_candidate test rest) h (first_candidate-IsRow test rest)
  where
    by_test :
        (b : Bool) (later : Option Task)
        → (if b then some (earlier t later) else later) ≡ some c
        → ((c : Task) → later ≡ some c → (j : ℕ) × IsRow j c rest)
        → (j : ℕ) × IsRow j c ((k, t) ∷ rest)
    by_test false later e f = let (j, row) = f c e in (j, inr row)
    by_test true none e f = (k, inl (refl, eq_of_some e))
    by_test true (some u) e f = elim (Bool-cases (comes_before u t)) [
      | inl b ↦ let (j, row) = f c (rw b at e) in (j, inr row)
      | inr b ↦ (k, inl (refl, eq_of_some (rw b at e)))
    ]

-- The event that a lease of an activity writes, and the row of its execution.
record Started (p : Platform) (s t : Store) (c : Task) : Type 0 where
  execution : Execution
  text : String
  found : lookup c.workflow_id s.executions ≡ some execution
  free :
      any
        (conflicts (event c.workflow_id execution.next_seq "ActivityStarted" none c.entity_id text))
        s.history_events
      ≡ false
  written : view t ≡ record {
    rows =
        s.history_events
        ++ event c.workflow_id execution.next_seq "ActivityStarted" none c.entity_id text ∷ [];
    executions =
        insert c.workflow_id (record execution { next_seq = execution.next_seq + 1 }) s.executions;
  }

module _ (p : Platform) (s t : Store) where
  append_started_lem :
      (u : Store) (c : Task) (e : Execution)
      → view u ≡ view s
      → lookup c.workflow_id s.executions ≡ some e
      → append_started p u c e.next_seq e ≡ ok t
      → Started p s t c
  unfolding append_started
  append_started_lem u c e same found h = by_text (canonical_json p (attributes c)) h
    where
      attributes : Task → Json
      attributes t =
          obj (field "attempt" (int (pos t.attempt)) (field "task_id" (str (p.uuid_text t.id)) end))

      by_text :
          (v : Serialized String)
          → (elim v as (λ _. Result LeaseError Store) [
            | serialization_error ↦ err not_json
            | value_of text ↦
                if any
                  (conflicts
                    (event c.workflow_id e.next_seq "ActivityStarted" none c.entity_id text))
                  u.history_events
                then err unique_violation
                else ok (record u {
                  history_events =
                      u.history_events
                      ++ event c.workflow_id e.next_seq "ActivityStarted" none c.entity_id text
                        ∷ [];
                  executions =
                      insert c.workflow_id (record e { next_seq = e.next_seq + 1 }) u.executions;
                })
          ])
            ≡ ok t
          → Started p s t c
      by_text serialization_error k = absurd (ground arith)
      by_text (value_of text) k =
          let rows : u.history_events ≡ s.history_events = ap (λ (v : View). v.rows) same in
          let executions : u.executions ≡ s.executions = ap (λ (v : View). v.executions) same in
          elim (Bool-cases (
            any (conflicts (event c.workflow_id e.next_seq "ActivityStarted" none c.entity_id text))
              u.history_events)) [
                | inl b ↦ absurd (ground arith)
                | inr b ↦
                    let stored : record u {
                      history_events =
                          u.history_events
                          ++ event c.workflow_id e.next_seq "ActivityStarted" none c.entity_id text
                            ∷ [];
                      executions =
                          insert c.workflow_id (record e { next_seq = e.next_seq + 1 })
                            u.executions;
                    }
                        ≡ t =
                      ground arith in
                    record {
                      execution = e;
                      text = text;
                      found = found;
                      free = rw rows at b;
                      written = rw (sym stored, rows, executions) refl;
                    }
              ]

  -- What a lease does to the executions and the events.
  IsLeased : Type 0
  IsLeased = (view t ≡ view s) ⊎ ((c : Task) × Started p s t c)

  by_append :
      (u : Store) (c : Task) (e : Execution) (r : Result LeaseError (Option Task))
      (o : Result LeaseError Store)
      → append_started p u c e.next_seq e ≡ o
      → view u ≡ view s
      → lookup c.workflow_id s.executions ≡ some e
      → (elim o as (λ _. Result LeaseError (Option Task) × Store) [
        | err x ↦ (err x, s)
        | ok stored ↦ (ok (some c), stored)
      ])
        ≡ (r, t)
      → IsLeased
  unfolding IsLeased
  by_append u c e r (err x) a same found h =
      let rest : s ≡ t = ap (λ (q : Result LeaseError (Option Task) × Store). q.1) h in
      inl (ap view (sym rest))
  by_append u c e r (ok stored) a same found h =
      let rest : stored ≡ t = ap (λ (q : Result LeaseError (Option Task) × Store). q.1) h in
      inr (c, append_started_lem u c e same found (a ∙ ap ok rest))

  lease_row_lem :
      (now : ℕ) (task_type : String) (token d : ℕ) (c : Task) (r : Result LeaseError (Option Task))
      → lookup c.id s.tasks ≡ some c
      → lease_row p s now task_type token d c ≡ (r, t)
      → IsLeased
  unfolding IsLeased lease_row take_lease
  lease_row_lem now task_type token d c r own h = elim (Bool-cases (task_type == "activity")) [
    | inr b ↦ elim (Bool-cases (c.status == "pending")) [
      | inl pending ↦ inl (ground arith)
      | inr busy ↦ inl (ground arith)
    ]
    | inl b ↦ elim (Option-cases (lookup c.workflow_id s.executions)) [
      | inl missing ↦ inl (ground arith)
      | inr (e, found) ↦ elim (Bool-cases (e.status == "running")) [
        | inr closed ↦ inl (ground arith)
        | inl runs ↦ elim (Bool-cases (c.status == "pending")) [
          | inr busy ↦ inl (ground arith)
          | inl pending ↦
              by_append (write_task c.id (leased_row now token d c) s) (leased_row now token d c) e
                r
                (append_started p (write_task c.id (leased_row now token d c) s)
                  (leased_row now token d c) e.next_seq e)
                refl refl found (rw (b, found, runs, own, pending) at h)
        ]
      ]
    ]
  ]

  lease_task_lem :
      (locked : ℕ → Bool) (now : ℕ) (task_type queue_name : String) (duration : ℤ) (token : ℕ)
      (r : Result LeaseError (Option Task))
      → IsTable s
      → lease_task p s locked now task_type queue_name duration token ≡ (r, t)
      → IsLeased
  unfolding IsLeased lease_task lease_candidate
  lease_task_lem locked now task_type queue_name duration token r table h =
      elim (Option-cases (lease_candidate s locked now task_type queue_name)) [
        | inl missing ↦ inl (ground arith)
        | inr (c, found) ↦
            let (k, row) =
              first_candidate-IsRow (is_runnable s locked now task_type queue_name) s.tasks c
                found in
            let (id, stored) = table k c row in
            let own : lookup c.id s.tasks ≡ some c =
              subst (λ j. lookup j s.tasks ≡ some c) (sym id) stored in
            elim (Option-cases (positive duration)) [
              | inl bad ↦ inl (ground arith)
              | inr (d, good) ↦
                  elim (Bool-cases (contains ("workflow" ∷ "activity" ∷ "timer" ∷ []) task_type)) [
                    | inr unknown ↦ inl (ground arith)
                    | inl type_known ↦ elim (Bool-cases (queue_name == "")) [
                      | inl empty ↦ inl (ground arith)
                      | inr named ↦
                          lease_row_lem now task_type token d c r own
                            (rw (type_known, named, good, found) at h)
                    ]
                  ]
            ]
      ]

module _ (p : Platform) (s t : Store) where
  Started-IsSequenced :
      (c : Task) → Started p s t c → IsSequenced (λ _. ⊥) (view s) → Base (λ _. ⊥) (view s) (view t)
  Started-IsSequenced c d q =
      let row =
        event c.workflow_id d.execution.next_seq "ActivityStarted" none c.entity_id d.text in
      let ready =
        Found-Ready (λ _. ⊥) (view s) c.workflow_id d.execution (view s)
          (record {
            base = record { sequenced = q; grown = Grows-refl (view s) };
            stored = d.found;
          }) in
      let written = inserted (λ _. ⊥) (view s) row (view s) ready d.free in
      rw d.written (
        updated (λ _. ⊥) (view s) c.workflow_id d.execution.next_seq
          (record (view s) { rows = s.history_events ++ row ∷ [] }) d.execution
          (record d.execution { next_seq = d.execution.next_seq + 1 }) written d.found refl)

  -- A lease of a task, whether it is given or not, keeps what requests keep.
  pub lease_task-IsSequenced :
      (locked : ℕ → Bool) (now : ℕ) (task_type queue_name : String) (duration : ℤ) (token : ℕ)
      (r : Result LeaseError (Option Task))
      → IsTable s
      → lease_task p s locked now task_type queue_name duration token ≡ (r, t)
      → IsSequenced (λ _. ⊥) (view s)
      → Base (λ _. ⊥) (view s) (view t)
  unfolding IsLeased
  lease_task-IsSequenced locked now task_type queue_name duration token r table h q =
      elim (lease_task_lem p s t locked now task_type queue_name duration token r table h) [
        | inl same ↦ rw same (record { sequenced = q; grown = Grows-refl (view s) })
        | inr (c, d) ↦ Started-IsSequenced c d q
      ]
