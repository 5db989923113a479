-- ===== src/Sequence/Ends.antt =====
-- engine/persistence/transitions.py: `_notify_parent_of_child_terminal` and `terminate_workflow`:
-- the numbers of the events.
use durable_workflow_engine.Sequence.Closing.{
  cancel_pending_timers-Triple, terminate_descendants-Keeps, reject_pending_updates-IsQuiet,
  kill_tasks-IsQuiet,
}
use durable_workflow_engine.Sequence.Requests.{repeated-IsQuiet}
use durable_workflow_engine.Sequence.Rules.{
  steps, Found-writes, Found-quiet, Keeps-then-Ready, quiet-then, append-then, update-then,
  Keeps-then, quiet-last,
}
use durable_workflow_engine.Sequence.Stages.{Keeps, Found, Ready, Base}
use durable_workflow_engine.Sequence.Whole.{quiet-Keeps, required-Keeps, fetch-Keeps}
use durable_workflow_engine.Sequence.Triples.{
  Triple, if-Triple, pure-IsQuiet, encoded-IsQuiet, bind-Triple, wake-IsQuiet, guard-IsQuiet,
  record_api_audit-IsQuiet,
}
use durable_workflow_engine.Json.{Json}
use durable_workflow_engine.Store.{Execution, AuditContext}
use durable_workflow_engine.Sequence.{View}
use durable_workflow_engine.Base.{ℕ, Option, String, some, none, ◌==◌, string_eq}
use durable_workflow_engine.Transitions.Closing.{
  notify_running_parent, notify_parent_of_child_terminal, terminate_running, terminate_workflow,
  cancel_pending_timers, notify_found,
}
use durable_workflow_engine.Store.Tx.{Session, Tx, pure, ◌>>=◌, terminal_workflow}

module _ (x : Session) where
  notify_running_parent-Triple :
      (X : ℕ → Type 0) (u : View) (child w : ℕ) (parent : Execution) (status : String)
      (payload : Json)
      → Triple
          (Found X u w parent)
          (notify_running_parent x child w parent status payload)
          (λ _. Base X u)
  unfolding notify_running_parent
  notify_running_parent-Triple X u child w parent status payload =
      search (steps, encoded-IsQuiet, wake-IsQuiet) depth 16

  pub notify_parent_of_child_terminal-Keeps :
      (child : ℕ) (parent : Option ℕ) (status : String) (payload : Json)
      → Keeps (notify_parent_of_child_terminal x child parent status payload)
  unfolding notify_parent_of_child_terminal notify_found
  notify_parent_of_child_terminal-Keeps child none status payload =
      quiet-Keeps (pure tt) (pure-IsQuiet tt)
  notify_parent_of_child_terminal-Keeps child (some w) status payload =
      fetch-Keeps w (notify_found x child w status payload)
        (quiet-Keeps (pure tt) (pure-IsQuiet tt))
        (λ X u parent.
          if-Triple _ _ _ (notify_running_parent-Triple X u child w parent status payload)
            (Found-quiet X u w parent (pure tt) (pure-IsQuiet tt)))

  pub cancel-then :
      {A : Type 0} (X : ℕ → Type 0) (u : View) {R : A → View → Type 0} (w n : ℕ) (reason : String)
      (f : ℕ → Tx A)
      → ((m : ℕ) → Triple (Ready X u w m) (f m) R)
      → Triple (Ready X u w n) (cancel_pending_timers x w n reason >>= f) R
  cancel-then X u w n reason f k =
      bind-Triple (cancel_pending_timers x w n reason) f
        (cancel_pending_timers-Triple x X u w n reason) k

  terminate_running-Triple :
      (X : ℕ → Type 0) (u : View) (w : ℕ) (e : Execution) (reason : Option String)
      (audit : Option AuditContext)
      → Triple (Found X u w e) (terminate_running x w e reason audit) (λ _. Base X u)
  unfolding terminate_running
  terminate_running-Triple X u w e reason audit = Found-writes X u w e _ (
      search
        (
          Keeps-then-Ready, terminate_descendants-Keeps, quiet-then, reject_pending_updates-IsQuiet,
          cancel-then, append-then, update-then, kill_tasks-IsQuiet, Keeps-then,
          notify_parent_of_child_terminal-Keeps, record_api_audit-IsQuiet, quiet-last, pure-IsQuiet,
        )
        depth 24)

  pub terminate_workflow-Keeps :
      (w : ℕ) (reason : Option String) (audit : Option AuditContext)
      → Keeps (terminate_workflow x w reason audit)
  unfolding terminate_workflow
  terminate_workflow-Keeps w reason audit = required-Keeps w _ _ (λ X u e.
      if-Triple _ _ _ (Found-quiet X u w e _ (repeated-IsQuiet x w reason audit)) (
        quiet-then _ _ (guard-IsQuiet (e.status == "running") (terminal_workflow w e.status))
          (λ _. terminate_running-Triple X u w e reason audit)))
