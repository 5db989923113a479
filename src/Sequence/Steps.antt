-- ===== src/Sequence/Steps.antt =====
-- engine/persistence: the transactions of the engine as steps on the tables, and what they keep.
-- A request of a client, a worker or the maintenance worker, with its arguments.
use durable_workflow_engine.Leasing.{LeaseError, lease_task}
use durable_workflow_engine.Base.Int.{ℤ}
use durable_workflow_engine.Sequence.Leases.{lease_task-IsSequenced, IsTable}
use durable_workflow_engine.Platform.{Platform}
use durable_workflow_engine.Sequence.Attributes.{update_search_attributes-Keeps}
use mathlib.Core.Path.{subst}
use durable_workflow_engine.Transitions.Timeouts.{process_activity_timeout}
use durable_workflow_engine.Transitions.Timers.{fire_due_timer}
use durable_workflow_engine.Sequence.Tasks.{
  complete_activity-Keeps, fail_activity-Keeps, fire_due_timer-Keeps,
  process_activity_timeout-Keeps,
}
use durable_workflow_engine.Sequence.Commits.{commit_workflow_replay-Keeps}
use durable_workflow_engine.Transitions.Commit.{commit_workflow_replay}
use durable_workflow_engine.Transitions.Updates.{send_update}
use durable_workflow_engine.Sequence.Ends.{terminate_workflow-Keeps}
use durable_workflow_engine.Transitions.Signals.{send_signal}
use durable_workflow_engine.Transitions.Closing.{terminate_workflow}
use durable_workflow_engine.Replay.{ReplayResult}
use durable_workflow_engine.Sequence.Triples.{pure-IsQuiet}
use durable_workflow_engine.Context.{Raised}
use durable_workflow_engine.Sequence.Requests.{
  pause_workflow-Keeps, resume_workflow-Keeps, request_workflow_cancellation-Keeps,
  send_signal-Keeps, send_update-Keeps,
}
use durable_workflow_engine.Json.{Json, Fields}
use durable_workflow_engine.Transitions.Control.{
  pause_workflow, resume_workflow, request_workflow_cancellation,
}
use durable_workflow_engine.Base.Dict.{lookup}
use durable_workflow_engine.Sequence.Origins.{
  register_workflow_definition-Keeps, start_workflow-Keeps, retry_workflow-Keeps,
}
use durable_workflow_engine.Sequence.Stages.{Keeps}
use durable_workflow_engine.Sequence.Whole.{bind-Keeps, quiet-Keeps}
use durable_workflow_engine.Store.{Store, rows_of, no_rows, Execution, AuditContext, Task}
use durable_workflow_engine.Transitions.Start.{
  register_workflow_definition, WorkflowRequest, start_workflow, retry_workflow,
  update_search_attributes,
}
use durable_workflow_engine.Sequence.{
  count, IsSequenced, view, Grows, IsNumbered, Grows-refl, Grows-trans,
}
use durable_workflow_engine.Transitions.Activities.{Floats, complete_activity, fail_activity}
use durable_workflow_engine.Store.Tx.{Session, Tx, ◌>>◌, pure, Void}
use durable_workflow_engine.Base.{
  String, ℕ, Option, ◌≡◌, ok, some, length, ◌+◌, Bool, refl, nat_eq, sym, List, Result,
}

pub data Request : Type 0 where
  register_definition : (name : String) (version : ℕ) (code_hash : String) → Request
  start : WorkflowRequest → Option AuditContext → Request
  retry : ℕ → Option AuditContext → Request
  pause : ℕ → Option String → Option AuditContext → Request
  resume : ℕ → Option String → Option AuditContext → Request
  cancel : ℕ → Option String → Option AuditContext → Request
  terminate : ℕ → Option String → Option AuditContext → Request
  set_attributes : ℕ → Fields → List String → Option AuditContext → Request
  signal_workflow : ℕ → (id name : String) → Json → Option AuditContext → Request
  update_workflow : ℕ → (id name : String) → Json → Option AuditContext → Request
  commit_replay :
      (failure_of : Raised → Json) (task_type : String) (id w token : ℕ) → ReplayResult → Request
  complete : Task → (token : ℕ) → Json → Request
  fail : Task → (token : ℕ) (input failure : Json) (random_value : ℕ) → Request
  fire_timer_of : (locked : ℕ → Bool) → Option String → Option ℕ → Request
  time_out_activity : (locked : ℕ → Bool) → Option String → (random_value : ℕ) → Request

module _ (x : Session) (fl : Floats) where
  unfoldable pub transact : Request → Tx Void
  unfolding register_workflow_definition start_workflow retry_workflow update_search_attributes
      pause_workflow resume_workflow request_workflow_cancellation terminate_workflow send_signal
      send_update commit_workflow_replay complete_activity fail_activity fire_due_timer
      process_activity_timeout
  transact (register_definition name version hash) = register_workflow_definition name version hash
  transact (start r audit) = start_workflow x r audit >> pure tt
  transact (retry w audit) = retry_workflow x w audit >> pure tt
  transact (pause w reason audit) = pause_workflow x w reason audit >> pure tt
  transact (resume w reason audit) = resume_workflow x w reason audit >> pure tt
  transact (cancel w reason audit) = request_workflow_cancellation x w reason audit >> pure tt
  transact (terminate w reason audit) = terminate_workflow x w reason audit >> pure tt
  transact (set_attributes w attributes unset audit) =
      update_search_attributes x w attributes unset audit >> pure tt
  transact (signal_workflow w id name payload audit) =
      send_signal x w id name payload audit >> pure tt
  transact (update_workflow w id name payload audit) =
      send_update x w id name payload audit >> pure tt
  transact (commit_replay failure_of type id w token r) =
      commit_workflow_replay x failure_of type id w token r
  transact (complete t token result) = complete_activity x fl t token result >> pure tt
  transact (fail t token input failure r) = fail_activity x fl t token input failure r >> pure tt
  transact (fire_timer_of locked queue time) = fire_due_timer x locked queue time >> pure tt
  transact (time_out_activity locked queue r) =
      process_activity_timeout x fl locked queue r >> pure tt

-- The transactions that were committed, one after the other, from empty tables; each has its own time.
-- Among them are leases of tasks, where each row of the tasks stands under its own identity and once, and
-- others that write neither executions nor events.
pub data IsReachable (fl : Floats) : Store → Type 0 where
  at_first : IsReachable fl no_rows
  committed :
      (x : Session) (r : Request) (s t : Store)
      → IsReachable fl s
      → transact x fl r s ≡ ok (tt, t)
      → IsReachable fl t
  leased :
      (p : Platform) (locked : ℕ → Bool) (now : ℕ) (task_type queue_name : String) (duration : ℤ)
      (token : ℕ) (r : Result LeaseError (Option Task)) (s t : Store)
      → IsReachable fl s
      → IsTable s
      → lease_task p s locked now task_type queue_name duration token ≡ (r, t)
      → IsReachable fl t
  unrelated : (s t : Store) → IsReachable fl s → view t ≡ view s → IsReachable fl t

ended-Keeps : {A : Type 0} (m : Tx A) → Keeps m → Keeps (m >> pure tt)
ended-Keeps m k = bind-Keeps m (λ _. pure tt) k (λ _. quiet-Keeps (pure tt) (pure-IsQuiet tt))

module _ (x : Session) (fl : Floats) where
  transact-Keeps : (r : Request) → Keeps (transact x fl r)
  unfolding transact
  transact-Keeps (register_definition name version hash) =
      register_workflow_definition-Keeps name version hash
  transact-Keeps (start r audit) =
      ended-Keeps (start_workflow x r audit) (start_workflow-Keeps x r audit)
  transact-Keeps (retry w audit) =
      ended-Keeps (retry_workflow x w audit) (retry_workflow-Keeps x w audit)
  transact-Keeps (pause w reason audit) =
      ended-Keeps (pause_workflow x w reason audit) (pause_workflow-Keeps x w reason audit)
  transact-Keeps (resume w reason audit) =
      ended-Keeps (resume_workflow x w reason audit) (resume_workflow-Keeps x w reason audit)
  transact-Keeps (cancel w reason audit) =
      ended-Keeps (request_workflow_cancellation x w reason audit)
        (request_workflow_cancellation-Keeps x w reason audit)
  transact-Keeps (terminate w reason audit) =
      ended-Keeps (terminate_workflow x w reason audit) (terminate_workflow-Keeps x w reason audit)
  transact-Keeps (set_attributes w attributes unset audit) =
      ended-Keeps (update_search_attributes x w attributes unset audit)
        (update_search_attributes-Keeps x w attributes unset audit)
  transact-Keeps (signal_workflow w id name payload audit) =
      ended-Keeps (send_signal x w id name payload audit)
        (send_signal-Keeps x w id name payload audit)
  transact-Keeps (update_workflow w id name payload audit) =
      ended-Keeps (send_update x w id name payload audit)
        (send_update-Keeps x w id name payload audit)
  transact-Keeps (commit_replay failure_of type id w token r) =
      commit_workflow_replay-Keeps x failure_of type id w token r
  transact-Keeps (complete t token result) =
      ended-Keeps (complete_activity x fl t token result)
        (complete_activity-Keeps x fl t token result)
  transact-Keeps (fail t token input failure r) =
      ended-Keeps (fail_activity x fl t token input failure r)
        (fail_activity-Keeps x fl t token input failure r)
  transact-Keeps (fire_timer_of locked queue time) =
      ended-Keeps (fire_due_timer x locked queue time) (fire_due_timer-Keeps x locked queue time)
  transact-Keeps (time_out_activity locked queue r) =
      ended-Keeps (process_activity_timeout x fl locked queue r)
        (process_activity_timeout-Keeps x fl locked queue r)

  -- If in the tables the events of each execution are numbered from 1 without a gap, `next_seq` of each
  -- execution is the next number, and an identity without an execution has no events, then all this
  -- holds after every request that is committed, and no execution and no event is lost.
  pub transact-IsSequenced :
      (r : Request) (s t : Store)
      → IsSequenced (λ _. ⊥) (view s)
      → transact x fl r s ≡ ok (tt, t)
      → IsSequenced (λ _. ⊥) (view t) × Grows (view s) (view t)
  transact-IsSequenced r s t q h =
      let after =
        ((transact-Keeps r).keeps (λ _. ⊥) (view s)).run s t tt
          (record { sequenced = q; grown = Grows-refl (view s) }) h in
      (after.sequenced, after.grown)

pub reachable-IsSequenced :
    (fl : Floats) (s : Store) → IsReachable fl s → IsSequenced (λ _. ⊥) (view s)
unfolding count rows_of lookup
reachable-IsSequenced fl _ at_first = record {
  numbered = λ w. tt;
  missing = λ w h. refl;
  reach = λ w e h. absurd h;
  next = λ w e h p. cc;
}
reachable-IsSequenced fl _ (committed x r s t q h) =
    (transact-IsSequenced x fl r s t (reachable-IsSequenced fl s q) h).0
reachable-IsSequenced fl _ (leased p locked now type queue d token r s t q rows h) =
    (lease_task-IsSequenced p s t locked now type queue d token r rows h
      (reachable-IsSequenced fl s q)).sequenced
reachable-IsSequenced fl _ (unrelated s t q h) =
    subst (IsSequenced (λ _. ⊥)) (sym h) (reachable-IsSequenced fl s q)

-- In all tables that requests, leases of tasks (where each row of the tasks stands under
-- its own identity, and once), and transactions that write neither executions nor events, lead to from
-- empty ones: the events of each execution are numbered from 1
-- without a gap, and its `next_seq` is one more than the number of its events.
pub histories-IsNumbered :
    (fl : Floats) (s : Store) (w : ℕ) (e : Execution)
    → IsReachable fl s
    → lookup w s.executions ≡ some e
    → IsNumbered 1 (rows_of w s.history_events)
      × (e.next_seq ≡ length (rows_of w s.history_events) + 1)
unfolding count
histories-IsNumbered fl s w e q h =
    let sequenced = reachable-IsSequenced fl s q in
    (sequenced.numbered w, sequenced.next w e h (λ p. p))

-- What the committed transactions make of tables, as in `IsReachable`.
pub data IsLater (fl : Floats) (s : Store) : Store → Type 0 where
  at_once : IsLater fl s s
  after_request :
      (x : Session) (r : Request) (t u : Store)
      → IsLater fl s t
      → transact x fl r t ≡ ok (tt, u)
      → IsLater fl s u
  after_lease :
      (p : Platform) (locked : ℕ → Bool) (now : ℕ) (task_type queue_name : String) (duration : ℤ)
      (token : ℕ) (r : Result LeaseError (Option Task)) (t u : Store)
      → IsLater fl s t
      → IsTable t
      → lease_task p t locked now task_type queue_name duration token ≡ (r, u)
      → IsLater fl s u
  after_other : (t u : Store) → IsLater fl s t → view u ≡ view t → IsLater fl s u

pub later-IsReachable :
    (fl : Floats) (s t : Store) → IsReachable fl s → IsLater fl s t → IsReachable fl t
later-IsReachable fl s _ q at_once = q
later-IsReachable fl s _ q (after_request x r t u l h) =
    committed x r t u (later-IsReachable fl s t q l) h
later-IsReachable fl s _ q (after_lease p locked now type queue d token r t u l rows h) =
    leased p locked now type queue d token r t u (later-IsReachable fl s t q l) rows h
later-IsReachable fl s _ q (after_other t u l h) = unrelated t u (later-IsReachable fl s t q l) h

pub later-Grows :
    (fl : Floats) (s t : Store) → IsReachable fl s → IsLater fl s t → Grows (view s) (view t)
later-Grows fl s _ q at_once = Grows-refl (view s)
later-Grows fl s _ q (after_request x r t u l h) =
    let before = reachable-IsSequenced fl t (later-IsReachable fl s t q l) in
    Grows-trans (view s) (view t) (view u) (later-Grows fl s t q l)
      (transact-IsSequenced x fl r t u before h).1
later-Grows fl s _ q (after_lease p locked now type queue d token r t u l rows h) =
    let before = reachable-IsSequenced fl t (later-IsReachable fl s t q l) in
    Grows-trans (view s) (view t) (view u) (later-Grows fl s t q l)
      (lease_task-IsSequenced p t u locked now type queue d token r rows h before).grown
later-Grows fl s _ q (after_other t u l h) = subst (Grows (view s)) (sym h) (later-Grows fl s t q l)
