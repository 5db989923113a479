-- ===== src/Sequence/Triples.antt =====
-- engine/persistence: reasoning about transactions. `Triple P m Q`: where `P` holds of the tables and
-- `m` does not raise, `Q` holds of its result and of the tables after it.
use durable_workflow_engine.Json.{Json}
use durable_workflow_engine.Store.{Store, Task, UpdateRow, AuditContext}
use durable_workflow_engine.Platform.{Serialized, value_of, serialization_error}
use durable_workflow_engine.Base.{
  Result, Option, Bool, arith, if◌then◌else◌, ℕ, ◌≡◌, ◌∙◌, String, some, ok, none, true, err, false,
  refl,
}
use durable_workflow_engine.Store.Tx.{
  serialization_failure, Tx, pure, TxError, fetch_execution, update_tasks, update_updates,
  insert_task, wake, append_audit, running_execution, record_api_audit, ◌>>=◌, raise, require,
  encoded, guard, Void, Session, bind, when, new_task,
}
use durable_workflow_engine.Sequence.{View, view}

pub record Triple {A : Type 0} (P : View → Type 0) (m : Tx A) (Q : A → View → Type 0) : Type 0 where
  pub run : (s t : Store) (a : A) → P (view s) → m s ≡ ok (a, t) → Q a (view t)

-- The statement writes neither events nor executions.
pub record IsQuiet {A : Type 0} (m : Tx A) : Type 0 where
  pub same : (s t : Store) (a : A) → m s ≡ ok (a, t) → view t ≡ view s

-- What the bind of a transaction that did not raise has done first.
pub bind-eq-ok :
    {A B : Type 0} (r : Result TxError (A × Store)) (f : A → Tx B) (b : B) (t : Store)
    → bind r f ≡ ok (b, t)
    → (a : A) × (u : Store) × (r ≡ ok (a, u)) × (f a u ≡ ok (b, t))
bind-eq-ok (ok (a, u)) f b t h = (a, u, refl, h)
bind-eq-ok (err e) f b t h = cc

module _ {A B : Type 0} where
  pub bind-Triple :
      {P : View → Type 0} {Q : A → View → Type 0} {R : B → View → Type 0} (m : Tx A) (f : A → Tx B)
      → Triple P m Q
      → ((a : A) → Triple (Q a) (f a) R)
      → Triple P (m >>= f) R
  bind-Triple m f p q = record {
    run = λ s t b h e.
        let (a, u, first, rest) = bind-eq-ok (m s) f b t e in
        (q a).run u t b (p.run s u a h first) rest;
  }

  pub bind-IsQuiet :
      (m : Tx A) (f : A → Tx B) → IsQuiet m → ((a : A) → IsQuiet (f a)) → IsQuiet (m >>= f)
  bind-IsQuiet m f p q = record {
    same = λ s t b e.
        let (a, u, first, rest) = bind-eq-ok (m s) f b t e in
        (q a).same u t b rest ∙ p.same s u a first;
  }

module _ {A : Type 0} where
  pub quiet-Triple : {P : View → Type 0} (m : Tx A) → IsQuiet m → Triple P m (λ _. P)
  quiet-Triple m q = record { run = λ s t a h e. rw (q.same s t a e) h }

  pub pure-IsQuiet : (a : A) → IsQuiet (pure a)
  pure-IsQuiet a = record { same = λ s t b h. ground arith }

  pub raise-IsQuiet : (e : TxError) → IsQuiet (raise {A = A} e)
  raise-IsQuiet e = record { same = λ s t b h. absurd (ground arith) }

  pub require-IsQuiet : (o : Option A) (e : TxError) → IsQuiet (require o e)
  require-IsQuiet none e = raise-IsQuiet e
  require-IsQuiet (some a) e = pure-IsQuiet a

  pub encoded-IsQuiet : (v : Serialized A) → IsQuiet (encoded v)
  encoded-IsQuiet (value_of a) = pure-IsQuiet a
  encoded-IsQuiet serialization_error = raise-IsQuiet serialization_failure

  pub if-IsQuiet : (b : Bool) (m k : Tx A) → IsQuiet m → IsQuiet k → IsQuiet (if b then m else k)
  if-IsQuiet true m k p q = p
  if-IsQuiet false m k p q = q

  pub if-Triple :
      {P : View → Type 0} {Q : A → View → Type 0} (b : Bool) (m k : Tx A)
      → Triple P m Q
      → Triple P k Q
      → Triple P (if b then m else k) Q
  if-Triple true m k p q = p
  if-Triple false m k p q = q

pub guard-IsQuiet : (b : Bool) (e : TxError) → IsQuiet (guard b e)
guard-IsQuiet true e = pure-IsQuiet tt
guard-IsQuiet false e = raise-IsQuiet e

pub when-IsQuiet : (b : Bool) (m : Tx Void) → IsQuiet m → IsQuiet (when b m)
when-IsQuiet true m q = q
when-IsQuiet false m q = pure-IsQuiet tt

pub fetch_execution-IsQuiet : (w : ℕ) → IsQuiet (fetch_execution w)
unfolding fetch_execution
fetch_execution-IsQuiet w = record { same = λ s t a h. ground arith }

pub update_tasks-IsQuiet :
    (test : Task → Bool) (change : Task → Task) → IsQuiet (update_tasks test change)
unfolding update_tasks
update_tasks-IsQuiet test change = record { same = λ s t a h. ground arith }

pub update_updates-IsQuiet :
    (test : UpdateRow → Bool) (change : UpdateRow → UpdateRow)
    → IsQuiet (update_updates test change)
unfolding update_updates
update_updates-IsQuiet test change = record { same = λ s t a h. ground arith }

pub insert_task-IsQuiet : (uuid4 : ℕ → ℕ) (row : ℕ → Task) → IsQuiet (insert_task uuid4 row)
unfolding insert_task
insert_task-IsQuiet uuid4 row = record { same = λ s t a h. ground arith }

pub wake-IsQuiet : (x : Session) (w : ℕ) (queue_name : String) → IsQuiet (wake x w queue_name)
unfolding wake
wake-IsQuiet x w queue_name = insert_task-IsQuiet x.uuid4 (new_task x w "workflow" queue_name)

append_audit-IsQuiet :
    (x : Session) (c : AuditContext) (w : Option ℕ) (accepted : Bool) (text : String)
    → IsQuiet (append_audit x c w accepted text)
unfolding append_audit
append_audit-IsQuiet x c w accepted text = record { same = λ s t a h. ground arith }

pub ruleset quietness = (
  bind-IsQuiet, pure-IsQuiet, raise-IsQuiet, require-IsQuiet, encoded-IsQuiet, if-IsQuiet,
  guard-IsQuiet, when-IsQuiet, fetch_execution-IsQuiet, update_tasks-IsQuiet,
  update_updates-IsQuiet, insert_task-IsQuiet, wake-IsQuiet,
)

pub record_api_audit-IsQuiet :
    (x : Session) (c : Option AuditContext) (w : Option ℕ) (accepted : Bool) (details : Json)
    → IsQuiet (record_api_audit x c w accepted details)
unfolding record_api_audit
record_api_audit-IsQuiet x none w accepted details = pure-IsQuiet tt
record_api_audit-IsQuiet x (some c) w accepted details = search (quietness, append_audit-IsQuiet)

pub running_execution-IsQuiet : (w : ℕ) → IsQuiet (running_execution w)
unfolding running_execution
running_execution-IsQuiet w = search quietness
