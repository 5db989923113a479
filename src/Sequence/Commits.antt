-- ===== src/Sequence/Commits.antt =====
-- engine/persistence/transitions.py: `commit_workflow_replay`: the numbers of the events.
use durable_workflow_engine.Sequence.Ends.{cancel-then, notify_parent_of_child_terminal-Keeps}
use durable_workflow_engine.Replay.{ReplayResult, commands, completed, failed, is_blocked}
use durable_workflow_engine.Context.{Raised}
use durable_workflow_engine.Commands.{Command, continue_as_new}
use durable_workflow_engine.Sequence.Origins.{require_definition-IsQuiet}
use durable_workflow_engine.Sequence.Closing.{
  reject_pending_updates-IsQuiet, kill_tasks-IsQuiet, terminate_descendants-Keeps,
}
use durable_workflow_engine.Transitions.Closing.{
  reject_pending_updates, kill_tasks, terminate_descendants,
}
use durable_workflow_engine.Sequence.Appends.{
  insert_workflow-At, append_commands-Triple, update-Done-Triple,
}
use durable_workflow_engine.Sequence.Triples.{
  bind-Triple, bind-IsQuiet, fetch_execution-IsQuiet, require-IsQuiet, guard-IsQuiet,
  encoded-IsQuiet, raise-IsQuiet, if-Triple, pure-IsQuiet, quiet-Triple, when-IsQuiet, wake-IsQuiet,
}
use durable_workflow_engine.Transitions.Start.{insert_workflow, new_execution}
use durable_workflow_engine.Store.{Execution, Task}
use durable_workflow_engine.Sequence.Rules.{
  append-then, update-then, quiet-last, quiet-then, Found-writes, Found-quiet, Keeps-then-Ready,
  Keeps-last, finish_task-IsQuiet, prefix, fetch_leased-IsQuiet,
}
use durable_workflow_engine.Sequence.Stages.{Ready, Base, At, pre-Triple, next-Ready, Found, Keeps}
use durable_workflow_engine.Sequence.Triples.{Triple, bind-Triple}
use durable_workflow_engine.Json.{Json}
use durable_workflow_engine.Sequence.{View}
use durable_workflow_engine.Base.{
  ℕ, String, Option, ◌+◌, none, some, arith, refl, Bool, List, if◌then◌else◌, ◌∷◌, false, true,
  Bool-cases, inl, inr, [],
}
use durable_workflow_engine.Transitions.Commit.{
  commit_continue_as_new, commit_cancellation, commit_closed, commit_commands, commit_result,
  commit_workflow_replay, has_continuation, finish_task, append_commands,
}
use durable_workflow_engine.Store.Tx.{
  Session, Void, Tx, append_event, ◌>>=◌, update_execution, ◌>>◌, raise, pure, complete_task,
  transition_error, when, wake,
}

module _ (x : Session) where
  continued-Triple :
      (X : ℕ → Type 0) (u : View) (w current n c target : ℕ) (type : String) (version : ℕ)
      (input : Json) (queue : Option String) (f : String)
      → Triple
          (Ready X u w n)
          (commit_continue_as_new x w current n c target type version input queue f)
          (λ _. Base X u)
  unfolding commit_continue_as_new
  continued-Triple X u w current n c target type version input queue f =
      search
        (
          quiet-then, fetch_execution-IsQuiet, require-IsQuiet, guard-IsQuiet,
          require_definition-IsQuiet, append-then, next_event, encoded-IsQuiet, new_execution_of,
          closed,
        )
        depth 40
    where
      next_event :
          (type : String) (attributes : Json) (k : Void → Tx Void)
          → ((z : Void) → Triple (At X u w (n + 1)) (k z) (λ _. Base X u))
          → Triple
              (At X u w n)
              (append_event x w (n + 1) type none none attributes >>= k)
              (λ _. Base X u)
      next_event type attributes k t =
          pre-Triple _ (λ v h. next-Ready X u w n v h)
            (append-then X u w (n + 1) x type none none attributes k t)

      new_execution_of :
          (e : Execution) (input attributes text : String) (queue : String) (k : Void → Tx Void)
          → ((z : Void) → Triple (At X u w (n + 1)) (k z) (λ _. Base X u))
          → Triple
              (At X u w (n + 1))
              (insert_workflow x target
                  (record (new_execution x type version input queue attributes) {
                    continued_from = some w;
                    schedule_id = e.schedule_id;
                    scheduled_at = e.scheduled_at;
                  })
                  text
                >>= k)
              (λ _. Base X u)
      new_execution_of e input attributes text queue k t =
          bind-Triple _ k (insert_workflow-At x X u w (n + 1) target _ text refl) t

      closed :
          (text : String)
          → Triple
              (At X u w (n + 1))
              (update_execution w (λ d. record d {
                status = "completed";
                result = some text;
                next_seq = n + 2;
                closed_at = some x.now;
                continued_to = some target;
              })
                >> (reject_pending_updates x w "workflow continued as new"
                    >> kill_tasks x w (some current)))
              (λ _. Base X u)
      closed text =
          update-then X u w (n + 1) _ _ (λ d. omega arith)
            (λ _.
              search (quiet-last, bind-IsQuiet, reject_pending_updates-IsQuiet, kill_tasks-IsQuiet))

  cancelled-Triple :
      (X : ℕ → Type 0) (u : View) (id w : ℕ) (e : Execution)
      → Triple (Found X u w e) (commit_cancellation x id w e) (λ _. Base X u)
  unfolding commit_cancellation
  cancelled-Triple X u id w e = Found-writes X u w e _ (
      search
        (
          cancel-then, Keeps-then-Ready, terminate_descendants-Keeps, quiet-then,
          reject_pending_updates-IsQuiet, append-then, update-then, kill_tasks-IsQuiet, Keeps-last,
          notify_parent_of_child_terminal-Keeps,
        )
        depth 24)

  closed-Triple :
      (X : ℕ → Type 0) (u : View) (id w : ℕ) (e : Execution) (done : Bool) (payload : Json)
      → Triple (Found X u w e) (commit_closed x id w e done payload) (λ _. Base X u)
  unfolding commit_closed
  closed-Triple X u id w e done payload = Found-writes X u w e _ (
      search
        (
          cancel-then, Keeps-then-Ready, terminate_descendants-Keeps, quiet-then, encoded-IsQuiet,
          reject_pending_updates-IsQuiet, append-then, update-then, kill_tasks-IsQuiet, Keeps-last,
          notify_parent_of_child_terminal-Keeps,
        )
        depth 24)

  appended-Triple :
      (X : ℕ → Type 0) (u : View) (w : ℕ) (e : Execution) (queue : String) (c : Command)
      (cs : List Command)
      → Triple
          (Found X u w e)
          (if has_continuation (c ∷ cs)
            then raise (transition_error "continue-as-new must be the only emitted command")
            else (append_commands x w queue e.next_seq false (c ∷ cs) >>= λ done.
                when done.1 (wake x w queue)
                >> update_execution w (λ d. record d { next_seq = done.0 })))
          (λ _. Base X u)
  appended-Triple X u w e queue c cs = elim (Bool-cases (has_continuation (c ∷ cs))) [
    | inl b ↦ rw b (Found-quiet X u w e _ (raise-IsQuiet _))
    | inr b ↦ rw b (
        Found-writes X u w e _ (
          bind-Triple (append_commands x w queue e.next_seq false (c ∷ cs)) _
            (append_commands-Triple x X u w queue e.next_seq false c cs b)
            (λ done.
              quiet-then (when done.1 (wake x w queue)) _
                (when-IsQuiet done.1 (wake x w queue) (wake-IsQuiet x w queue))
                (λ _. update-Done-Triple x X u w done.0))))
  ]

  commands-Triple :
      (X : ℕ → Type 0) (u : View) (id : ℕ) (locked : Task) (e : Execution) (cs : List Command)
      → Triple (Found X u locked.workflow_id e) (commit_commands x id locked e cs) (λ _. Base X u)
  unfolding commit_commands
  commands-Triple X u id t e [] = Found-quiet X u t.workflow_id e _ (raise-IsQuiet _)
  commands-Triple X u id t e (continue_as_new c i n v j q f ∷ []) =
      Found-writes X u t.workflow_id e _ (
        Keeps-then-Ready X u t.workflow_id e.next_seq
          (terminate_descendants x x.recursion_limit t.workflow_id) _
          (terminate_descendants-Keeps x x.recursion_limit t.workflow_id)
          (λ _. continued-Triple X u t.workflow_id id e.next_seq c i n v j q f))
  commands-Triple X u id t e (c ∷ cs) = appended-Triple X u t.workflow_id e t.queue_name c cs

  result-Triple :
      (X : ℕ → Type 0) (u : View) (failure_of : Raised → Json) (id : ℕ) (locked : Task)
      (e : Execution) (r : ReplayResult)
      → Triple
          (Found X u locked.workflow_id e)
          (commit_result x failure_of id locked e r)
          (λ _. Base X u)
  unfolding commit_result
  result-Triple X u failure_of id t e (commands cs) =
      if-Triple _ _ _ (cancelled-Triple X u id t.workflow_id e) (commands-Triple X u id t e cs)
  result-Triple X u failure_of id t e is_blocked =
      if-Triple _ _ _ (cancelled-Triple X u id t.workflow_id e)
        (Found-quiet X u t.workflow_id e (pure tt) (pure-IsQuiet tt))
  result-Triple X u failure_of id t e (completed v) = closed-Triple X u id t.workflow_id e true v
  result-Triple X u failure_of id t e (failed r) =
      closed-Triple X u id t.workflow_id e false (failure_of r)

  pub commit_workflow_replay-Keeps :
      (failure_of : Raised → Json) (task_type : String) (id w token : ℕ) (replay : ReplayResult)
      → Keeps (commit_workflow_replay x failure_of task_type id w token replay)
  unfolding commit_workflow_replay
  commit_workflow_replay-Keeps failure_of task_type id w token replay =
      search (prefix, fetch_leased-IsQuiet, committed) depth 24
    where
      committed :
          (X : ℕ → Type 0) (u : View) (locked : Task) (e : Execution)
          → Triple
              (Found X u w e)
              (commit_result x failure_of id (record locked { workflow_id = w }) e replay
                >> finish_task id token (complete_task x))
              (λ _. Base X u)
      committed X u locked e =
          bind-Triple (commit_result x failure_of id (record locked { workflow_id = w }) e replay) _
            (result-Triple X u failure_of id (record locked { workflow_id = w }) e replay)
            (λ _. quiet-Triple _ (finish_task-IsQuiet id token (complete_task x)))
