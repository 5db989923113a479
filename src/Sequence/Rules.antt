-- ===== src/Sequence/Rules.antt =====
-- engine/persistence: one rule for each kind of statement that a transition makes, for `search`.
use durable_workflow_engine.Json.{Json}
use durable_workflow_engine.Sequence.Stages.{
  Keeps, Base, Ready, Found, At, pre-Triple, Found-Ready, Found-Base, Keeps-Ready,
  append_event-Triple, insert_event-Triple, update_execution-Triple,
}
use durable_workflow_engine.Sequence.Whole.{
  fetch-Keeps, running-Keeps, quiet-Keeps, bind-Keeps, if-Keeps, required-Keeps, quiet_first-Keeps,
}
use durable_workflow_engine.Store.{Execution, EventRow, Task, UpdateRow}
use durable_workflow_engine.Store.Tx.{
  Tx, Session, Void, ◌>>=◌, append_event, insert_event, update_execution,
}
use durable_workflow_engine.Sequence.Triples.{
  if-Triple, IsQuiet, record_api_audit-IsQuiet, Triple, bind-Triple, quiet-Triple, guard-IsQuiet,
  encoded-IsQuiet, require-IsQuiet,
}
use durable_workflow_engine.Transitions.Timeouts.{timed_out_task}
use durable_workflow_engine.Transitions.Timers.{due_timer}
use durable_workflow_engine.Transitions.Updates.{fetch_update, insert_update}
use durable_workflow_engine.Transitions.Signals.{has_external}
use durable_workflow_engine.Transitions.Activities.{fetch_ending}
use durable_workflow_engine.Transitions.Commit.{finish_task, fetch_leased}
use durable_workflow_engine.Transitions.Closing.{put_task}
use durable_workflow_engine.Base.{ℕ, String, Bool, Option, arith, ◌≡◌, ◌+◌}
use durable_workflow_engine.Sequence.{View}

module _ {A : Type 0} where
  pub quiet-then :
      {B : Type 0} {P : View → Type 0} {R : B → View → Type 0} (m : Tx A) (f : A → Tx B)
      → IsQuiet m
      → ((a : A) → Triple P (f a) R)
      → Triple P (m >>= f) R
  quiet-then m f q t = bind-Triple m f (quiet-Triple m q) t

  module _ (X : ℕ → Type 0) (u : View) where
    pub quiet-last : (m : Tx A) → IsQuiet m → Triple (Base X u) m (λ _. Base X u)
    quiet-last m q = quiet-Triple m q

    pub Keeps-last : (m : Tx A) → Keeps m → Triple (Base X u) m (λ _. Base X u)
    Keeps-last m k = k.keeps X u

    pub Keeps-then :
        {B : Type 0} {R : B → View → Type 0} (m : Tx A) (f : A → Tx B)
        → Keeps m
        → ((a : A) → Triple (Base X u) (f a) R)
        → Triple (Base X u) (m >>= f) R
    Keeps-then m f k t = bind-Triple m f (k.keeps X u) t

    module _ (w : ℕ) where
      pub Found-writes :
          {R : A → View → Type 0} (e : Execution) (m : Tx A)
          → Triple (Ready X u w e.next_seq) m R
          → Triple (Found X u w e) m R
      Found-writes e m t = pre-Triple m (Found-Ready X u w e) t

      pub Found-quiet :
          (e : Execution) (m : Tx A) → IsQuiet m → Triple (Found X u w e) m (λ _. Base X u)
      Found-quiet e m q = pre-Triple m (Found-Base X u w e) (quiet-Triple m q)

      pub Keeps-then-Ready :
          {B : Type 0} {R : B → View → Type 0} (n : ℕ) (m : Tx A) (f : A → Tx B)
          → Keeps m
          → ((a : A) → Triple (Ready X u w n) (f a) R)
          → Triple (Ready X u w n) (m >>= f) R
      Keeps-then-Ready n m f k t = bind-Triple m f (Keeps-Ready X u w n m k) t

      pub append-then :
          {R : A → View → Type 0} (n : ℕ) (x : Session) (type : String)
          (command_id entity_id : Option ℕ) (attributes : Json) (k : Void → Tx A)
          → ((a : Void) → Triple (At X u w n) (k a) R)
          → Triple (Ready X u w n) (append_event x w n type command_id entity_id attributes >>= k) R
      append-then n x type c e attributes k t =
          bind-Triple (append_event x w n type c e attributes) k
            (append_event-Triple X u w n x type c e attributes) t

      pub update-then :
          (n : ℕ) (change : Execution → Execution) (k : Void → Tx A)
          → ((e : Execution) → (change e).next_seq ≡ n + 1)
          → ((a : Void) → Triple (Base X u) (k a) (λ _. Base X u))
          → Triple (At X u w n) (update_execution w change >>= k) (λ _. Base X u)
      update-then n change k f t =
          bind-Triple (update_execution w change) k (update_execution-Triple X u w n change f) t

  pub insert-then :
      (X : ℕ → Type 0) (u : View) {R : A → View → Type 0} (r : EventRow) (k : Void → Tx A)
      → ((a : Void) → Triple (At X u r.workflow_id r.seq) (k a) R)
      → Triple (Ready X u r.workflow_id r.seq) (insert_event r >>= k) R
  insert-then X u r k t = bind-Triple (insert_event r) k (insert_event-Triple X u r) t

pub put_task-IsQuiet : (i : ℕ) (t : Task) → IsQuiet (put_task i t)
unfolding put_task
put_task-IsQuiet i t = record { same = λ s r a h. ground arith }

pub finish_task-IsQuiet :
    (id token : ℕ) (change : Task → Task) → IsQuiet (finish_task id token change)
unfolding finish_task
finish_task-IsQuiet id token change = record { same = λ s r a h. ground arith }

pub fetch_ending-IsQuiet : (now id token : ℕ) → IsQuiet (fetch_ending now id token)
unfolding fetch_ending
fetch_ending-IsQuiet now id token = record { same = λ s r a h. ground arith }

pub fetch_leased-IsQuiet : (now id token : ℕ) → IsQuiet (fetch_leased now id token)
unfolding fetch_leased
fetch_leased-IsQuiet now id token = record { same = λ s r a h. ground arith }

pub has_external-IsQuiet : (w : ℕ) (id : String) → IsQuiet (has_external w id)
unfolding has_external
has_external-IsQuiet w id = record { same = λ s r a h. ground arith }

pub fetch_update-IsQuiet : (w : ℕ) (id : String) → IsQuiet (fetch_update w id)
unfolding fetch_update
fetch_update-IsQuiet w id = record { same = λ s r a h. ground arith }

pub insert_update-IsQuiet : (u : UpdateRow) → IsQuiet (insert_update u)
unfolding insert_update
insert_update-IsQuiet u = record { same = λ s r a h. ground arith }

pub due_timer-IsQuiet :
    (locked : ℕ → Bool) (due : ℕ) (q : Option String) → IsQuiet (due_timer locked due q)
unfolding due_timer
due_timer-IsQuiet locked due q = record { same = λ s r a h. ground arith }

pub timed_out_task-IsQuiet :
    (locked : ℕ → Bool) (now : ℕ) (q : Option String) → IsQuiet (timed_out_task locked now q)
unfolding timed_out_task
timed_out_task-IsQuiet locked now q = record { same = λ s r a h. ground arith }

pub ruleset steps = (
  quiet-then, quiet-last, Found-writes, Found-quiet, append-then, update-then, if-Triple,
  record_api_audit-IsQuiet, put_task-IsQuiet, finish_task-IsQuiet, fetch_ending-IsQuiet,
  has_external-IsQuiet, fetch_update-IsQuiet, insert_update-IsQuiet,
)

pub ruleset prefix = (
  required-Keeps, running-Keeps, quiet_first-Keeps, quiet-then, if-Triple, Found-quiet,
  guard-IsQuiet, encoded-IsQuiet, require-IsQuiet,
)
