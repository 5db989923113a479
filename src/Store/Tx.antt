-- ===== src/Store/Tx.antt =====
-- A transaction of engine/persistence: what raises rolls it back, so an error carries no tables. The
-- parameters are the time of the transaction (`now()`), the process's clock (`datetime.now(UTC)`), and
-- what the code uses of PostgreSQL and of Python's libraries.
use durable_workflow_engine.Base.Dict.{lookup, has_key, insert}
use durable_workflow_engine.Json.{Json}
use durable_workflow_engine.Store.{
  Store, EventRow, Task, UpdateRow, AuditContext, Execution, update_where, update_all, any,
  conflicts,
}
use durable_workflow_engine.Base.{
  String, ok, err, Result, Bool, Option, ℕ, if◌then◌else◌, none, ◌==◌, ◌++◌, some, true, ◌||◌, ◌∷◌,
  false, string_eq, [], nat_eq, ◌+◌, List,
}
use durable_workflow_engine.Platform.{
  Platform, Serialized, canonical_json, clone_json, value_of, serialization_error,
}

pub record Session : Type 0 where
  pub platform : Platform
  pub now : ℕ
  pub clock : ℕ
  -- The UUIDs that `uuid4` gives, in order.
  pub uuid4 : ℕ → ℕ
  -- `isoformat` of a time.
  pub time_text : ℕ → String
  -- `x * interval '1 second'` of a float that is not negative.
  pub seconds : ℕ → ℕ
  -- `len(text.encode())` and `len(text)`.
  pub byte_length : String → ℕ
  pub text_length : String → ℕ
  -- Whether PostgreSQL takes a JSON text as `jsonb`: it refuses U+0000 and unpaired surrogates.
  pub accepts_jsonb : String → Bool
  -- How deep Python's calls may nest.
  pub recursion_limit : ℕ

pub data TxError : Type 0 where
  value_error : String → TxError
  type_error : String → TxError
  -- Of `json.dumps`, or of PostgreSQL for a JSON text.
  serialization_failure : TxError
  transition_error : String → TxError
  no_workflow : ℕ → TxError
  not_registered : String → ℕ → TxError
  definition_conflict : String → ℕ → TxError
  terminal_workflow : ℕ → String → TxError
  stale_lease : ℕ → TxError
  unique_violation : TxError
  recursion_error : TxError
  overflow_error : TxError

abbrev pub Tx : Type 0 → Type 0
Tx A = Store → Result TxError (A × Store)

abbrev pub Void : Type 0
Void = Unit {0}

abbrev pub pure : {A : Type 0} → A → Tx A
pure a s = ok (a, s)

abbrev pub raise : {A : Type 0} → TxError → Tx A
raise e s = err e

abbrev pub bind :
    {A B : Type 0} → Result TxError (A × Store) → (A → Tx B) → Result TxError (B × Store)
bind (ok (a, s)) f = f a s
bind (err e) f = err e

infixl 5 ◌>>=◌ ◌>>◌
abbrev pub ◌>>=◌ : {A B : Type 0} → Tx A → (A → Tx B) → Tx B
◌>>=◌ m f s = bind (m s) f

abbrev pub ◌>>◌ : {A B : Type 0} → Tx A → Tx B → Tx B
m >> k = m >>= λ _. k

abbrev pub guard : Bool → TxError → Tx Void
guard true e s = ok (tt, s)
guard false e s = err e

abbrev pub require : {A : Type 0} → Option A → TxError → Tx A
require none e = raise e
require (some a) e = pure a

-- A loop over rows.
unfoldable pub for_each : {A : Type 0} → (A → Tx Void) → List A → Tx Void
for_each body [] = pure tt
for_each body (a ∷ as') = body a >> for_each body as'

abbrev pub ask : Tx Store
ask s = ok (s, s)

abbrev pub when : Bool → Tx Void → Tx Void
when true m = m
when false m = pure tt

abbrev pub encoded : {A : Type 0} → Serialized A → Tx A
encoded (value_of a) = pure a
encoded serialization_error = raise serialization_failure

-- `select … from workflow_executions where id = $1`.
unfoldable pub fetch_execution : ℕ → Tx (Option Execution)
fetch_execution w s = ok (lookup w s.executions, s)

-- `insert into history_events …`.
unfoldable pub insert_event : EventRow → Tx Void
insert_event r s =
    if any (conflicts r) s.history_events
    then err unique_violation
    else ok (tt, record s { history_events = s.history_events ++ r ∷ [] })

-- `update workflow_executions set … where id = $1`.
unfoldable pub update_execution : ℕ → (Execution → Execution) → Tx Void
update_execution w change s = elim (lookup w s.executions) [
  | none ↦ ok (tt, s)
  | some e ↦ ok (tt, record s { executions = insert w (change e) s.executions })
]

-- `insert into workflow_executions …`.
unfoldable pub insert_execution : ℕ → Execution → Tx Void
insert_execution w e s =
    if has_key w s.executions
    then err unique_violation
    else ok (tt, record s { executions = insert w e s.executions })

-- `insert into tasks …`, under a UUID of `uuid4`.
unfoldable pub insert_task : (ℕ → ℕ) → (ℕ → Task) → Tx Void
insert_task uuid4 row s =
    if has_key (uuid4 s.drawn) s.tasks
    then err unique_violation
    else ok (
      tt,
      record s {
        tasks = insert (uuid4 s.drawn) (row (uuid4 s.drawn)) s.tasks;
        drawn = s.drawn + 1;
      },
    )

-- `update tasks set … where …`.
unfoldable pub update_tasks : (Task → Bool) → (Task → Task) → Tx Void
update_tasks test change s = ok (tt, record s { tasks = update_where test change s.tasks })

-- `update workflow_updates set … where …`.
unfoldable pub update_updates : (UpdateRow → Bool) → (UpdateRow → UpdateRow) → Tx Void
update_updates test change s = ok (tt, record s { updates = update_all test change s.updates })

-- The execution of a transition, which has to run.
unfoldable pub running_execution : ℕ → Tx Execution
unfolding fetch_execution
running_execution w = do
  found ← fetch_execution w
  e ← require found (no_workflow w)
  guard (e.status == "running") (terminal_workflow w e.status)
  pure e

-- `insert into history_events …` for an event without an external identity.
abbrev pub event : ℕ → ℕ → String → (command_id entity_id : Option ℕ) → String → EventRow
event w seq event_type command_id entity_id attributes = record {
  workflow_id = w;
  seq = seq;
  event_type = event_type;
  command_id = command_id;
  entity_id = entity_id;
  external_id = none;
  attributes = attributes;
}

-- `status in ('pending', 'leased')`.
abbrev pub is_outstanding : Task → Bool
is_outstanding t = t.status == "pending" || t.status == "leased"

module _ (x : Session) where
  abbrev pub as_jsonb : Serialized String → Serialized String
  as_jsonb serialization_error = serialization_error
  as_jsonb (value_of text) = if x.accepts_jsonb text then value_of text else serialization_error

  -- A text for a `jsonb` column. What PostgreSQL refuses is refused here, and rolls back as there.
  abbrev pub encode : Json → Tx String
  encode v = encoded (as_jsonb (canonical_json x.platform v))

  abbrev pub clone : Json → Tx Json
  clone v = encoded (clone_json x.platform v)

  -- The columns that a new task has by default.
  abbrev pub new_task : ℕ → (task_type queue_name : String) → ℕ → Task
  new_task w task_type queue_name id = record {
    id = id;
    workflow_id = w;
    task_type = task_type;
    queue_name = queue_name;
    status = "pending";
    entity_id = none;
    command_id = none;
    attempt = 1;
    input = none;
    visible_at = x.now;
    created_at = x.now;
    completed_at = none;
    leased_at = none;
    lease_token = none;
    lease_expires_at = none;
    schedule_to_start_timeout = none;
    schedule_to_start_deadline = none;
    start_to_close_timeout = none;
    start_to_close_deadline = none;
    heartbeat_timeout = none;
    heartbeat_at = none;
    heartbeat_details = none;
  }

  -- The task that wakes replay of an execution.
  unfoldable pub wake : ℕ → String → Tx Void
  wake w queue_name = insert_task x.uuid4 (new_task w "workflow" queue_name)

  unfoldable pub append_audit : AuditContext → Option ℕ → Bool → String → Tx Void
  append_audit context w accepted text s = ok (
    tt,
    record s {
      audit =
          s.audit
          ++ (record { context = context; workflow_id = w; accepted = accepted; details = text })
            ∷ [];
    },
  )

  -- `record_api_audit`.
  unfoldable pub record_api_audit : Option AuditContext → Option ℕ → Bool → Json → Tx Void
  unfolding append_audit
  record_api_audit none w accepted details = pure tt
  record_api_audit (some context) w accepted details = do
    detached ← clone details
    text ← encode detached
    append_audit context w accepted text

  unfoldable pub append_event : ℕ → ℕ → String → (command_id entity_id : Option ℕ) → Json → Tx Void
  append_event w seq event_type command_id entity_id attributes = do
    text ← encode attributes
    insert_event (event w seq event_type command_id entity_id text)

  abbrev pub kill_task : Task → Task
  kill_task t = record t { status = "dead"; completed_at = some x.now }

  abbrev pub complete_task : Task → Task
  complete_task t = record t { status = "completed"; completed_at = some x.now }
