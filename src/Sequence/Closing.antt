-- ===== src/Sequence/Closing.antt =====
-- engine/persistence/transitions.py: the closing of an execution, its descendants and its timers:
-- the numbers of the events.
use durable_workflow_engine.Json.{object, str}
use durable_workflow_engine.Base.Dict.{lookup}
use durable_workflow_engine.Sequence.Rules.{steps, Keeps-then-Ready, quiet-then, put_task-IsQuiet}
use durable_workflow_engine.Store.Rows.{IsRow, rows_where-IsRow, order_by-IsRow, IsRow-known}
use durable_workflow_engine.Sequence.Stages.{
  Keeps, Base, Ready, pre-Triple, post-Triple, next-Ready, append_event-Triple,
}
use durable_workflow_engine.Sequence.Whole.{raise-Keeps}
use durable_workflow_engine.Store.{Execution, Store, order_by, rows_where, Task}
use durable_workflow_engine.Sequence.Triples.{
  IsQuiet, quietness, Triple, encoded-IsQuiet, bind-Triple, quiet-Triple, pure-IsQuiet, if-Triple,
}
use durable_workflow_engine.Sequence.{
  View, view, count, weaken-IsSequenced, Or, Grows-refl, Grows-trans,
}
use durable_workflow_engine.Store.Tx.{
  Session, for_each, Tx, Void, recursion_error, pure, ◌>>◌, append_event, kill_task,
}
use durable_workflow_engine.Transitions.Closing.{
  kill_tasks, reject_pending_updates, pending_timers, terminate_child, terminate_descendants,
  running_children, older, is_running_child, cancel_timers, cancel_pending_timers, put_task,
}
use durable_workflow_engine.Base.{
  ℕ, Option, String, List, arith, ◌≤◌, ◌∷◌, suc, inl, ◌+◌, zero, ◌≡◌, some, inr, nat_eq, [], refl,
  sym, none, if◌then◌else◌, ◌==◌, string_eq,
}

-- Rows that were read, each of which may still get an event under its `next_seq`.
record Pending (X : ℕ → Type 0) (u : View) (rows : List (ℕ × Execution)) (v : View) : Type 0 where
  base : Base X u v
  reach : (w : ℕ) (e : Execution) → IsRow w e rows → (1 ≤ e.next_seq) × (e.next_seq ≤ count w v + 1)
  stored :
      (w : ℕ) (e : Execution) → IsRow w e rows → (f : Execution) × (lookup w v.executions ≡ some f)

module _ (X : ℕ → Type 0) (u : View) where
  running_children-Triple :
      (w : ℕ) → Triple (Base X u) (running_children w) (λ rows. Pending X u rows)
  unfolding running_children
  running_children-Triple w = record {
    run = λ s t a h p.
        let same : s ≡ t = ground arith in
        let rows : order_by older (rows_where (is_running_child w) s.executions) ≡ a =
          ground arith in
        rw (sym same, sym rows) (pending s h);
  }
    where
      pending :
          (s : Store)
          → Base X u (view s)
          → Pending X u (order_by older (rows_where (is_running_child w) s.executions)) (view s)
      pending s h =
          let row : (i : ℕ) (e : Execution)
              → IsRow i e (order_by older (rows_where (is_running_child w) s.executions))
              → IsRow i e s.executions =
            λ i e r.
              rows_where-IsRow (is_running_child w) i e s.executions
                (order_by-IsRow older i e (rows_where (is_running_child w) s.executions) r) in
          record {
            base = h;
            reach = λ i e r. h.sequenced.reach i e (row i e r);
            stored = λ i e r. IsRow-known i e s.executions (row i e r);
          }

  -- The first row gets its event.
  close_first :
      (w : ℕ) (e : Execution) (rows : List (ℕ × Execution)) (m : Tx Void)
      → ((X : ℕ → Type 0) (u : View) → Triple (Ready X u w e.next_seq) m (λ _. Base X u))
      → Triple (Pending X u ((w, e) ∷ rows)) m (λ _. Pending X u rows)
  close_first w e rows m k = record {
    run = λ s t a h p.
        let (low, high) = h.reach w e (inl (refl, refl)) in
        let (known, stored) = h.stored w e (inl (refl, refl)) in
        let after =
          (k X (view s)).run s t a
            (record {
              sequenced = weaken-IsSequenced X (Or X w) (view s) (λ i q. inl q) h.base.sequenced;
              grown = Grows-refl (view s);
              low = low;
              high = high;
              known = known;
              stored = stored;
            })
            p in
        record {
          base = record {
            sequenced = after.sequenced;
            grown = Grows-trans u (view s) (view t) h.base.grown after.grown;
          };
          reach = λ i d r.
              let (lower, upper) = h.reach i d (inr r) in
              (lower, omega (arith, upper, after.grown.more i));
          stored = λ i d r. let (f, here) = h.stored i d (inr r) in after.grown.stays i f here;
        };
  }

  close_each :
      (body : ℕ × Execution → Tx Void) (rows : List (ℕ × Execution))
      → ((w : ℕ) (e : Execution) (X : ℕ → Type 0) (u : View)
          → Triple (Ready X u w e.next_seq) (body (w, e)) (λ _. Base X u))
      → Triple (Pending X u rows) (for_each body rows) (λ _. Base X u)
  unfolding for_each
  close_each body [] k =
      pre-Triple (pure tt) (λ v h. h.base) (quiet-Triple (pure tt) (pure-IsQuiet tt))
  close_each body ((w, e) ∷ rows) k =
      bind-Triple (body (w, e)) (λ _. for_each body rows)
        (close_first w e rows (body (w, e)) (k w e)) (λ _. close_each body rows k)

pub kill_tasks-IsQuiet :
    (x : Session) (w : ℕ) (current : Option ℕ) → IsQuiet (kill_tasks x w current)
unfolding kill_tasks
kill_tasks-IsQuiet x w current = search quietness

pub reject_pending_updates-IsQuiet :
    (x : Session) (w : ℕ) (reason : String) → IsQuiet (reject_pending_updates x w reason)
unfolding reject_pending_updates
reject_pending_updates-IsQuiet x w reason = search quietness

pending_timers-IsQuiet : (w : ℕ) → IsQuiet (pending_timers w)
unfolding pending_timers
pending_timers-IsQuiet w = record { same = λ s r a h. ground arith }

module _ (x : Session) where
  terminate_child-Triple :
      (w : ℕ) (e : Execution) (X : ℕ → Type 0) (u : View)
      → Triple (Ready X u w e.next_seq) (terminate_child x w e) (λ _. Base X u)
  unfolding terminate_child
  terminate_child-Triple w e X u =
      search (steps, kill_tasks-IsQuiet, reject_pending_updates-IsQuiet, encoded-IsQuiet) depth 16

  pub terminate_descendants-Keeps : (depth w : ℕ) → Keeps (terminate_descendants x depth w)
  unfolding terminate_descendants
  terminate_descendants-Keeps zero w = raise-Keeps recursion_error
  terminate_descendants-Keeps (suc depth) w = record {
    keeps = λ X u. bind-Triple (running_children w) _ (running_children-Triple X u w) (λ rows.
        close_each X u (λ r. terminate_descendants x depth r.0 >> terminate_child x r.0 r.1) rows
          (λ c e X u.
            Keeps-then-Ready X u c e.next_seq (terminate_descendants x depth c)
              (λ _. terminate_child x c e) (terminate_descendants-Keeps depth c)
              (λ _. terminate_child-Triple c e X u)));
  }

  cancel_timers-Triple :
      (X : ℕ → Type 0) (u : View) (w : ℕ) (reason : String) (rows : List (ℕ × Task)) (n : ℕ)
      → Triple (Ready X u w n) (cancel_timers x w reason rows n) (λ m. Ready X u w m)
  unfolding cancel_timers
  cancel_timers-Triple X u w reason [] n = record {
    run = λ s t m h p.
        let same : s ≡ t = ground arith in
        let number : n ≡ m = ground arith in rw (sym same, sym number) h;
  }
  cancel_timers-Triple X u w reason ((i, t) ∷ rest) n = record {
    run = λ s r m h p.
        (by_row (lookup i s.tasks) (cancel_timers-Triple X u w reason rest n)
            (cancel_timers-Triple X u w reason rest (n + 1))).run
          s r m h p;
  }
    where
      canceled :
          Triple
            (Ready X u w n)
            (append_event x w n "TimerCanceled" none t.entity_id
              (object (("reason", str reason) ∷ [])))
            (λ _. Ready X u w (n + 1))
      canceled =
          post-Triple _ (λ _ v h. next-Ready X u w n v h)
            (append_event-Triple X u w n x "TimerCanceled" none t.entity_id
              (object (("reason", str reason) ∷ [])))

      by_row :
          (o : Option Task)
          → Triple (Ready X u w n) (cancel_timers x w reason rest n) (λ m. Ready X u w m)
          → Triple
              (Ready X u w (n + 1))
              (cancel_timers x w reason rest (n + 1))
              (λ m. Ready X u w m)
          → Triple
              (Ready X u w n)
              (elim o as (λ _. Tx ℕ) [
                | none ↦ cancel_timers x w reason rest n
                | some row ↦
                    if row.status == "pending"
                    then (put_task i (kill_task x row)
                        >> (append_event x w n "TimerCanceled" none t.entity_id
                              (object (("reason", str reason) ∷ []))
                            >> cancel_timers x w reason rest (n + 1)))
                    else cancel_timers x w reason rest n
              ])
              (λ m. Ready X u w m)
      by_row none later next = later
      by_row (some row) later next =
          if-Triple (row.status == "pending") _ _
            (quiet-then (put_task i (kill_task x row)) _ (put_task-IsQuiet i (kill_task x row))
              (λ _. bind-Triple _ _ canceled (λ _. next)))
            later

  pub cancel_pending_timers-Triple :
      (X : ℕ → Type 0) (u : View) (w n : ℕ) (reason : String)
      → Triple (Ready X u w n) (cancel_pending_timers x w n reason) (λ m. Ready X u w m)
  unfolding cancel_pending_timers
  cancel_pending_timers-Triple X u w n reason =
      quiet-then (pending_timers w) (λ timers. cancel_timers x w reason timers n)
        (pending_timers-IsQuiet w) (λ timers. cancel_timers-Triple X u w reason timers n)
