-- ===== src/Sequence/Whole.antt =====
-- engine/persistence: transitions that leave the events in sequence, put together.

use mathlib.Core.Path.{subst}
use durable_workflow_engine.Sequence.Triples.{
  Triple, bind-Triple, quiet-Triple, IsQuiet, raise-IsQuiet, pure-IsQuiet, guard-IsQuiet,
}
use durable_workflow_engine.Store.{Execution, Store}
use durable_workflow_engine.Sequence.{View, view}
use durable_workflow_engine.Store.Tx.{
  Tx, fetch_execution, Void, ◌>>=◌, TxError, for_each, running_execution, raise, require, pure,
  no_workflow, guard, terminal_workflow, ◌>>◌,
}
use durable_workflow_engine.Base.{
  ℕ, arith, ◌≡◌, none, some, Option, false, nat_eq, ok, ◌∷◌, [], ◌==◌, Bool, if◌then◌else◌, List,
  true, string_eq,
}
use durable_workflow_engine.Sequence.Stages.{Keeps, Base, Found, Fetched, fetch_execution-Triple}

module _ {A : Type 0} where
  -- A transition that reads an execution, for each result.
  pub fetch-Keeps :
      (w : ℕ) (f : Option Execution → Tx A)
      → Keeps (f none)
      → ((X : ℕ → Type 0) (u : View) (e : Execution)
          → Triple (Found X u w e) (f (some e)) (λ _. Base X u))
      → Keeps (fetch_execution w >>= f)
  fetch-Keeps w f k t = record {
    keeps = λ X u.
        bind-Triple (fetch_execution w) f (fetch_execution-Triple X u w) (λ o. by_result X u o);
  }
    where
      by_result :
          (X : ℕ → Type 0) (u : View) (o : Option Execution)
          → Triple (Fetched X u w o) (f o) (λ _. Base X u)
      by_result X u none = k.keeps X u
      by_result X u (some e) = t X u e

  pub quiet-Keeps : (m : Tx A) → IsQuiet m → Keeps m
  quiet-Keeps m q = record { keeps = λ X u. quiet-Triple m q }

  pub raise-Keeps : (e : TxError) → Keeps (raise {A = A} e)
  raise-Keeps e = quiet-Keeps (raise e) (raise-IsQuiet e)

  pub if-Keeps : (b : Bool) (m k : Tx A) → Keeps m → Keeps k → Keeps (if b then m else k)
  if-Keeps true m k p q = p
  if-Keeps false m k p q = q

  pub bind-Keeps :
      {B : Type 0} (m : Tx A) (f : A → Tx B) → Keeps m → ((a : A) → Keeps (f a)) → Keeps (m >>= f)
  bind-Keeps m f p q = record {
    keeps = λ X u. bind-Triple m f (p.keeps X u) (λ a. (q a).keeps X u);
  }

pub for_each-Keeps :
    {A : Type 0} (body : A → Tx Void) (as' : List A)
    → ((a : A) → Keeps (body a))
    → Keeps (for_each body as')
unfolding for_each
for_each-Keeps body [] k = quiet-Keeps (pure tt) (pure-IsQuiet tt)
for_each-Keeps body (a ∷ as') k =
    bind-Keeps (body a) (λ _. for_each body as') (k a) (λ _. for_each-Keeps body as' k)

-- A transition of an execution that has to run.
pub running-Keeps :
    {A : Type 0} (w : ℕ) (f : Execution → Tx A)
    → ((X : ℕ → Type 0) (u : View) (e : Execution) → Triple (Found X u w e) (f e) (λ _. Base X u))
    → Keeps (running_execution w >>= f)
unfolding running_execution
running-Keeps w f t = record {
  keeps = λ X u.
      bind-Triple (running_execution w) f
        (bind-Triple (fetch_execution w) _ (fetch_execution-Triple X u w) (λ o. found X u o))
        (t X u);
}
  where
    found :
        (X : ℕ → Type 0) (u : View) (o : Option Execution)
        → Triple
            (Fetched X u w o)
            (require o (no_workflow w) >>= λ e.
              guard (e.status == "running") (terminal_workflow w e.status) >> pure e)
            (λ e. Found X u w e)
    found X u none = record { run = λ s t a h e. absurd (ground arith) }
    found X u (some e) =
        bind-Triple (guard (e.status == "running") (terminal_workflow w e.status)) _
          (quiet-Triple _ (guard-IsQuiet (e.status == "running") (terminal_workflow w e.status)))
          (λ _. record { run = λ s t a h p. by_pure s t a h p })
      where
        by_pure :
            (s t : Store) (a : Execution)
            → Found X u w e (view s)
            → pure e s ≡ ok (a, t)
            → Found X u w a (view t)
        by_pure s t a h p =
            let same : e ≡ a = ground arith in
            let tables : s ≡ t = ground arith in
            subst (λ r. Found X u w a (view r)) tables (subst (λ d. Found X u w d (view s)) same h)

-- A transition of an execution that has to exist.
pub required-Keeps :
    {A : Type 0} (w : ℕ) (error : TxError) (f : Execution → Tx A)
    → ((X : ℕ → Type 0) (u : View) (e : Execution) → Triple (Found X u w e) (f e) (λ _. Base X u))
    → Keeps (fetch_execution w >>= λ o. require o error >>= f)
required-Keeps w error f t =
    fetch-Keeps w (λ o. require o error >>= f)
      (record { keeps = λ X u. record { run = λ s r a h e. absurd (ground arith) } }) t

pub quiet_first-Keeps :
    {A B : Type 0} (m : Tx A) (f : A → Tx B) → IsQuiet m → ((a : A) → Keeps (f a)) → Keeps (m >>= f)
quiet_first-Keeps m f q k = bind-Keeps m f (quiet-Keeps m q) k
