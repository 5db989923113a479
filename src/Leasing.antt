-- ===== src/Leasing.antt =====
-- engine/persistence/leasing.py: leases on tasks. The tables are dictionaries by primary key, a
-- transaction is one step, and `now` is its time in microseconds. `locked` are the rows that other
-- transactions hold, which `skip locked` passes over.
pub mod Fencing
pub mod Reclaim
use durable_workflow_engine.Store.{Task, Execution, Store, any, conflicts}
use durable_workflow_engine.Store.Tx.{event}
use durable_workflow_engine.Json.{Json, obj, field, int, str, end}
use durable_workflow_engine.Platform.{Platform, canonical_json, serialization_error, value_of}
use durable_workflow_engine.Base.Int.{ℤ, pos, negsuc}
use durable_workflow_engine.Base.Dict.{Dict, lookup, insert}
use durable_workflow_engine.Base.{
  ℕ, String, Option, Bool, List, false, ◌==◌, Result, ltb, none, some, ◌&&◌, if◌then◌else◌, err,
  ◌||◌, ◌+◌, suc, nat_eq, string_eq, ok, not, leb, is_some, is_none, contains, ◌∷◌, [], ◌++◌,
}

pub data LeaseError : Type 0 where
  invalid : String → LeaseError
  stale_lease : ℕ → LeaseError
  cancellation : ℕ → Option String → LeaseError
  not_json : LeaseError
  unique_violation : LeaseError

-- A duration in microseconds that is positive.
abbrev pub positive : ℤ → Option ℕ
positive (pos (suc n)) = some (suc n)
positive _ = none

abbrev pub later_than : Option ℕ → ℕ → Bool
later_than none now = false
later_than (some t) now = ltb now t

abbrev pub is_token : Option ℕ → ℕ → Bool
is_token none token = false
is_token (some t) token = t == token

-- `status = 'leased' and lease_token = $2 and lease_expires_at > now()`.
abbrev pub holds_lease : ℕ → ℕ → Task → Bool
holds_lease now token t =
    t.status == "leased" && (is_token t.lease_token token && later_than t.lease_expires_at now)

-- The row with this identity, if it passes the test.
abbrev pub row_where : ℕ → (Task → Bool) → Store → Option Task
row_where id test s = elim (lookup id s.tasks) [
  | none ↦ none
  | some t ↦ if test t then some t else none
]

abbrev pub write_task : ℕ → Task → Store → Store
write_task id t s = record s { tasks = insert id t s.tasks }

unfoldable pub renew_lease : Store → ℕ → ℕ → ℕ → ℤ → Result LeaseError ℕ × Store
renew_lease s now id token duration = elim (positive duration) [
  | none ↦ (err (invalid "lease_duration must be positive"), s)
  | some d ↦ elim (row_where id (holds_lease now token) s) [
    | none ↦ (err (stale_lease id), s)
    | some t ↦ (ok (now + d), write_task id (record t { lease_expires_at = some (now + d) }) s)
  ]
]

unfoldable pub release_workflow_task :
    Store
    → ℕ
    → (id : ℕ) → (token : ℕ) → (task_type : String) → ℤ
    → Result LeaseError (Unit {0}) × Store
release_workflow_task s now id token task_type (negsuc n) =
    if not (task_type == "workflow")
    then (err (invalid "only workflow tasks can be released for version routing"), s)
    else (err (invalid "retry_delay cannot be negative"), s)
release_workflow_task s now id token task_type (pos delay) =
    if not (task_type == "workflow")
    then (err (invalid "only workflow tasks can be released for version routing"), s)
    else (elim (row_where id (holds_lease now token) s) [
      | none ↦ (err (stale_lease id), s)
      | some t ↦ (
        ok tt,
        write_task id
            (record t {
              status = "pending";
              visible_at = now + delay;
              leased_at = none;
              lease_token = none;
              lease_expires_at = none;
            })
            s,
      )
    ])

-- A task that a worker may take.
unfoldable pub is_runnable : Store → (ℕ → Bool) → ℕ → (task_type queue_name : String) → Task → Bool
is_runnable s locked now task_type queue_name t =
    t.status == "pending"
    && (t.task_type == task_type
        && (t.queue_name == queue_name
            && (leb t.visible_at now
                && (not (locked t.id) && (elim (lookup t.workflow_id s.executions) [
                  | none ↦ false
                  | some e ↦
                      e.status == "running"
                      && (is_none e.paused_at
                          && (not (t.task_type == "activity")
                              || is_none e.cancellation_requested_at))
                ])))))

-- `order by t.visible_at, t.created_at, t.id`.
abbrev pub comes_before : Task → Task → Bool
comes_before a b =
    ltb a.visible_at b.visible_at
    || (a.visible_at == b.visible_at
        && (ltb a.created_at b.created_at || (a.created_at == b.created_at && ltb a.id b.id)))

abbrev pub earlier : Task → Option Task → Task
earlier t none = t
earlier t (some u) = if comes_before u t then u else t

unfoldable pub first_candidate : (Task → Bool) → Dict ℕ Task → Option Task
first_candidate test [] = none
first_candidate test ((id, t) ∷ rest) =
    let later = first_candidate test rest in if test t then some (earlier t later) else later

unfoldable pub lease_candidate :
    Store → (ℕ → Bool) → ℕ → (task_type queue_name : String) → Option Task
unfolding first_candidate is_runnable
lease_candidate s locked now task_type queue_name =
    first_candidate (is_runnable s locked now task_type queue_name) s.tasks

-- The row after `update tasks set status = 'leased', …`.
abbrev pub leased_row : ℕ → ℕ → ℕ → Task → Task
leased_row now token d t = record t {
  status = "leased";
  leased_at = some now;
  lease_token = some token;
  lease_expires_at = some (now + d);
  start_to_close_deadline =
      if t.task_type == "activity"
      then some (now + (elim t.start_to_close_timeout [ none ↦ d | some c ↦ c ]))
      else none;
  heartbeat_at =
      if t.task_type == "activity" && is_some t.heartbeat_timeout then some now else t.heartbeat_at;
}

module _ (p : Platform) where
  -- The event of an activity attempt, in the transaction that leases the task.
  unfoldable pub append_started : Store → Task → ℕ → Execution → Result LeaseError Store
  append_started s t seq e =
      elim (canonical_json p (
        obj
          (field "attempt" (int (pos t.attempt)) (field "task_id" (str (p.uuid_text t.id)) end)))) [
            | serialization_error ↦ err not_json
            | value_of attributes ↦
                let row = event t.workflow_id seq "ActivityStarted" none t.entity_id attributes in
                if any (conflicts row) s.history_events
                then err unique_violation
                else ok (record s {
                  history_events = s.history_events ++ row ∷ [];
                  executions = insert t.workflow_id (record e { next_seq = seq + 1 }) s.executions;
                })
          ]

  -- `where id = $1 and status = 'pending' returning *`.
  unfoldable pub take_lease : Store → ℕ → ℕ → ℕ → ℕ → Option (Task × Store)
  take_lease s now id token d = elim (row_where id (λ t. t.status == "pending") s) [
    | none ↦ none
    | some t ↦ some (leased_row now token d t, write_task id (leased_row now token d t) s)
  ]

  -- The transaction: an error rolls it back.
  unfoldable pub lease_row :
      Store
      → ℕ
      → (task_type : String) → (token d : ℕ) → Task
      → Result LeaseError (Option Task) × Store
  unfolding take_lease append_started
  lease_row s now task_type token d candidate =
      if task_type == "activity"
      then (elim (lookup candidate.workflow_id s.executions) [
        | none ↦ (ok none, s)
        | some e ↦
            if not (e.status == "running")
            then (ok none, s)
            else (elim (take_lease s now candidate.id token d) [
              | none ↦ (ok none, s)
              | some (t, taken) ↦ elim (append_started taken t e.next_seq e) [
                | err x ↦ (err x, s)
                | ok stored ↦ (ok (some t), stored)
              ]
            ])
      ])
      else (elim (take_lease s now candidate.id token d) [
        | none ↦ (ok none, s)
        | some (t, taken) ↦ (ok (some t), taken)
      ])

  -- `token` is the UUID that `uuid4` has given; the result has the fields of the row.
  unfoldable pub lease_task :
      Store
      → (ℕ → Bool)
      → ℕ
      → (task_type queue_name : String) → ℤ
      → (token : ℕ) → Result LeaseError (Option Task) × Store
  unfolding lease_candidate lease_row
  lease_task s locked now task_type queue_name duration token =
      if not (contains ("workflow" ∷ "activity" ∷ "timer" ∷ []) task_type)
      then (err (invalid "unknown task type"), s)
      else if queue_name == ""
      then (err (invalid "queue_name cannot be empty"), s)
      else (elim (positive duration) [
        | none ↦ (err (invalid "lease_duration must be positive"), s)
        | some d ↦ elim (lease_candidate s locked now task_type queue_name) [
          | none ↦ (ok none, s)
          | some candidate ↦ lease_row s now task_type token d candidate
        ]
      ])

  unfoldable pub heartbeat_activity :
      Store → ℕ → (id token : ℕ) → Json → ℤ → Result LeaseError ℕ × Store
  heartbeat_activity s now id token details duration = elim (positive duration) [
    | none ↦ (err (invalid "lease_duration must be positive"), s)
    | some d ↦ elim (canonical_json p details) [
      | serialization_error ↦ (err not_json, s)
      | value_of encoded ↦
          elim (row_where id (λ t. t.task_type == "activity" && holds_lease now token t) s) [
            | none ↦ (err (stale_lease id), s)
            | some t ↦ elim (lookup t.workflow_id s.executions) [
              | none ↦ (err (stale_lease id), s)
              | some e ↦
                  if is_some e.cancellation_requested_at
                  then (err (cancellation id e.cancellation_reason), s)
                  else (
                    ok (now + d),
                    write_task id
                        (record t {
                          heartbeat_at = some now;
                          heartbeat_details = some encoded;
                          lease_expires_at = some (now + d);
                        })
                        s,
                  )
            ]
          ]
    ]
  ]
