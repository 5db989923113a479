-- ===== src/Store.antt =====
-- The tables that engine/persistence/transitions.py and its neighbours write (migrations/*.sql): what a
-- row holds, and the statements on them. A `jsonb` column holds the text that was written to it; a time
-- or an interval is in microseconds.
pub mod Tx
pub mod Rows
use durable_workflow_engine.History.{schedule_event_types}
use durable_workflow_engine.Base.Dict.{Dict}
use durable_workflow_engine.Base.{
  ℕ, String, Option, Eq, Bool, List, false, ◌==◌, ◌&&◌, ◌∷◌, keep, map, some, ◌||◌, if◌then◌else◌,
  none, [], nat_eq, contains, string_eq,
}

-- A row of `tasks`.
pub record Task : Type 0 where
  pub id : ℕ
  pub workflow_id : ℕ
  pub task_type : String
  pub queue_name : String
  pub status : String
  pub entity_id : Option ℕ
  pub command_id : Option ℕ
  pub attempt : ℕ
  pub input : Option String
  pub visible_at : ℕ
  pub created_at : ℕ
  pub completed_at : Option ℕ
  pub leased_at : Option ℕ
  pub lease_token : Option ℕ
  pub lease_expires_at : Option ℕ
  pub schedule_to_start_timeout : Option ℕ
  pub schedule_to_start_deadline : Option ℕ
  pub start_to_close_timeout : Option ℕ
  pub start_to_close_deadline : Option ℕ
  pub heartbeat_timeout : Option ℕ
  pub heartbeat_at : Option ℕ
  pub heartbeat_details : Option String

-- A row of `workflow_executions`.
pub record Execution : Type 0 where
  pub workflow_type : String
  pub definition_version : ℕ
  pub input : String
  pub status : String
  pub result : Option String
  pub failure : Option String
  pub next_seq : ℕ
  pub queue_name : String
  pub search_attributes : String
  pub created_at : ℕ
  pub closed_at : Option ℕ
  pub paused_at : Option ℕ
  pub pause_reason : Option String
  pub cancellation_requested_at : Option ℕ
  pub cancellation_reason : Option String
  pub retry_of : Option ℕ
  pub parent_workflow_id : Option ℕ
  pub parent_command_id : Option ℕ
  pub parent_close_policy : Option String
  pub schedule_id : Option ℕ
  pub scheduled_at : Option ℕ
  pub continued_from : Option ℕ
  pub continued_to : Option ℕ

-- A row of `history_events`.
pub record EventRow : Type 0 where
  pub workflow_id : ℕ
  pub seq : ℕ
  pub event_type : String
  pub command_id : Option ℕ
  pub entity_id : Option ℕ
  pub external_id : Option String
  pub attributes : String

-- A row of `workflow_updates`.
pub record UpdateRow : Type 0 where
  pub workflow_id : ℕ
  pub update_id : String
  pub name : String
  pub payload : String
  pub status : String
  pub result : Option String
  pub failure : Option String
  pub created_at : ℕ
  pub completed_at : Option ℕ

pub record AuditContext : Type 0 where
  pub request_id : ℕ
  pub actor_key_id : String
  pub actor_role : String
  pub action : String

-- A row of `api_audit_log`.
pub record AuditRow : Type 0 where
  pub context : AuditContext
  pub workflow_id : Option ℕ
  pub accepted : Bool
  pub details : String

-- `drawn` counts the UUIDs that `uuid4` has given.
pub record Store : Type 0 where
  pub definitions : Dict (String × ℕ) String
  pub executions : Dict ℕ Execution
  pub history_events : List EventRow
  pub tasks : Dict ℕ Task
  pub updates : List UpdateRow
  pub audit : List AuditRow
  pub drawn : ℕ

-- The tables as the migrations leave them.
abbrev pub no_rows : Store
no_rows = record {
  definitions = [];
  executions = [];
  history_events = [];
  tasks = [];
  updates = [];
  audit = [];
  drawn = 0;
}

abbrev pub same_option {ℓ} : {A : Type ℓ} ⦃e : Eq A⦄ → Option A → A → Bool
same_option none a = false
same_option (some b) a = b == a

-- `where external_id is not null`, and the same for the commands that events schedule.
abbrev pub shares {ℓ} : {A : Type ℓ} ⦃e : Eq A⦄ → Option A → Option A → Bool
shares a none = false
shares a (some b) = same_option a b

-- A row with which the new row would violate the primary key of `history_events`, or the index
-- `one_external_event` or `one_scheduled_command`.
unfoldable pub conflicts : EventRow → EventRow → Bool
conflicts r old =
    old.workflow_id == r.workflow_id
    && (old.seq == r.seq
        || (shares old.external_id r.external_id
            || (shares old.command_id r.command_id
                && (contains schedule_event_types old.event_type
                    && contains schedule_event_types r.event_type))))

abbrev pub any {ℓ} : {A : Type ℓ} → (A → Bool) → List A → Bool
any test [] = false
any test (x ∷ xs) = test x || any test xs

-- The events of an execution; they are stored in the order of their numbers.
unfoldable pub rows_of : ℕ → List EventRow → List EventRow
rows_of w rows = keep (λ r. r.workflow_id == w) rows

-- `update … set … where …`.
unfoldable pub update_where {ℓ κ} :
    {K : Type ℓ} {V : Type κ} → (V → Bool) → (V → V) → Dict K V → Dict K V
update_where test change [] = []
update_where test change ((k, v) ∷ rest) =
    (k, if test v then change v else v) ∷ update_where test change rest

unfoldable pub update_all {ℓ} : {A : Type ℓ} → (A → Bool) → (A → A) → List A → List A
update_all test change rows = map (λ r. if test r then change r else r) rows

-- `order by`, where `before` is the order of the columns that it names.
abbrev pub place {ℓ} : {A : Type ℓ} → (A → A → Bool) → A → List A → List A
place before a [] = a ∷ []
place before a (b ∷ bs) = if before b a then b ∷ place before a bs else a ∷ b ∷ bs

abbrev pub order_by {ℓ} : {A : Type ℓ} → (A → A → Bool) → List A → List A
order_by before [] = []
order_by before (a ∷ as') = place before a (order_by before as')

abbrev pub rows_where {ℓ κ} : {K : Type ℓ} {V : Type κ} → (K → V → Bool) → Dict K V → List (K × V)
rows_where test [] = []
rows_where test ((k, v) ∷ rest) =
    if test k v then (k, v) ∷ rows_where test rest else rows_where test rest

abbrev pub first_where {ℓ} : {A : Type ℓ} → (A → Bool) → List A → Option A
first_where test [] = none
first_where test (a ∷ as') = if test a then some a else first_where test as'
