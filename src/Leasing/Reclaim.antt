-- ===== src/Leasing/Reclaim.antt =====
-- engine/persistence/leasing.py: `reclaim_expired_workflow_tasks`.
-- A workflow task whose lease has run out, of an execution that runs, in a row that is not locked.
use durable_workflow_engine.Base.Int.{ℤ}
use durable_workflow_engine.Base.Dict.{Dict, lookup, lookup-insert}
use durable_workflow_engine.Base.{
  ℕ, Bool, List, none, ◌==◌, false, ◌∷◌, All, ◌≡◌, ◌&&◌, if◌then◌else◌, Result, Bool-cases, take,
  true, some, leb, ltb, [], inl, suc, not, ◌||◌, zero, inr, err, nat_eq, string_eq, ok, length, ◌≢◌,
  arith, All-map, nat_eqb_iff, Option, refl,
}
use durable_workflow_engine.Leasing.{write_task, LeaseError, positive, invalid, later_than}
use durable_workflow_engine.Store.{Store, Task}

unfoldable pub is_expired : Store → (ℕ → Bool) → ℕ → Task → Bool
is_expired s locked now t =
    t.task_type == "workflow"
    && (t.status == "leased"
        && ((elim t.lease_expires_at [ none ↦ false | some d ↦ leb d now ])
            && (not (locked t.id) && (elim (lookup t.workflow_id s.executions) [
              | none ↦ false
              | some e ↦ e.status == "running"
            ]))))

-- `order by t.lease_expires_at, t.id`; the rows that are ordered have a time.
abbrev pub expires_before : Task → Task → Bool
expires_before a b = elim a.lease_expires_at [
  | none ↦ false
  | some d ↦ elim b.lease_expires_at [ none ↦ true | some e ↦ ltb d e || (d == e && ltb a.id b.id) ]
]

unfoldable pub insert_expired : Task → List Task → List Task
insert_expired t [] = t ∷ []
insert_expired t (u ∷ us) = if expires_before u t then u ∷ insert_expired t us else t ∷ u ∷ us

unfoldable pub expired_tasks : (Task → Bool) → Dict ℕ Task → List Task
unfolding insert_expired
expired_tasks test [] = []
expired_tasks test ((id, t) ∷ rest) =
    if test t then insert_expired t (expired_tasks test rest) else expired_tasks test rest

abbrev pub reclaimed_row : ℕ → Task → Task
reclaimed_row now t = record t {
  status = "pending";
  visible_at = now;
  leased_at = none;
  lease_token = none;
  lease_expires_at = none;
  start_to_close_deadline = none;
  heartbeat_at = none;
  heartbeat_details = none;
}

unfoldable pub write_all : ℕ → List Task → Store → Store
write_all now [] s = s
write_all now (t ∷ ts) s = write_task t.id (reclaimed_row now t) (write_all now ts s)

unfoldable pub reclaim_expired_workflow_tasks :
    Store → (ℕ → Bool) → ℕ → (limit : ℤ) → Result LeaseError ℕ × Store
unfolding expired_tasks write_all is_expired
reclaim_expired_workflow_tasks s locked now limit = elim (positive limit) [
  | none ↦ (err (invalid "limit must be at least 1"), s)
  | some n ↦
      let rows = take n (expired_tasks (is_expired s locked now) s.tasks) in
      (ok (length rows), write_all now rows s)
]

module _ (P : Task → Type 0) where
  insert_expired-All : (t : Task) (ts : List Task) → P t → All P ts → All P (insert_expired t ts)
  unfolding insert_expired
  insert_expired-All t [] p ps = (p, tt)
  insert_expired-All t (u ∷ us) p (q, qs) = elim (Bool-cases (expires_before u t)) [
    | inl b ↦ rw b (q, insert_expired-All t us p qs)
    | inr b ↦ rw b (p, (q, qs))
  ]

  take-All : (n : ℕ) (ts : List Task) → All P ts → All P (take n ts)
  take-All zero ts ps = tt
  take-All (suc n) [] ps = tt
  take-All (suc n) (t ∷ ts) (p, ps) = (p, take-All n ts ps)

  expired_tasks-All :
      (test : Task → Bool) (d : Dict ℕ Task)
      → All (λ (r : ℕ × Task). test r.1 ≡ true → P r.1) d
      → All P (expired_tasks test d)
  unfolding expired_tasks
  expired_tasks-All test [] f = tt
  expired_tasks-All test ((id, t) ∷ rest) (f, fs) = elim (Bool-cases (test t)) [
    | inl b ↦
        rw b (insert_expired-All t (expired_tasks test rest) (f b) (expired_tasks-All test rest fs))
    | inr b ↦ rw b (expired_tasks-All test rest fs)
  ]

lookup-write_all :
    (now id : ℕ) (ts : List Task) (s : Store)
    → All (λ t. t.id ≢ id) ts
    → lookup id (write_all now ts s).tasks ≡ lookup id s.tasks
unfolding write_all
lookup-write_all now id [] s f = refl
lookup-write_all now id (t ∷ ts) s (f, fs) =
    let rest = lookup-write_all now id ts s fs in
    ground (
      arith,
      f,
      rest,
      nat_eqb_iff t.id id,
      lookup-insert t.id id (reclaimed_row now t) (write_all now ts s).tasks,
    )

live_not_expired :
    (s : Store) (locked : ℕ → Bool) (now : ℕ) (t : Task)
    → later_than t.lease_expires_at now ≡ true
    → ¬ (is_expired s locked now t ≡ true)
unfolding is_expired
live_not_expired s locked now t live h = ground arith

-- The rows with this identity have leases that have not run out.
abbrev pub IsLive : Store → ℕ → ℕ → Type 0
IsLive s now id =
    All (λ (r : ℕ × Task). r.1.id ≡ id → later_than r.1.lease_expires_at now ≡ true) s.tasks

-- A task whose lease has not run out keeps its row when expired workflow tasks are reclaimed.
pub reclaim_expired_workflow_tasks-IsLive :
    (s : Store) (locked : ℕ → Bool) (now : ℕ) (limit : ℤ) (id : ℕ)
    → IsLive s now id
    → lookup id (reclaim_expired_workflow_tasks s locked now limit).1.tasks ≡ lookup id s.tasks
unfolding reclaim_expired_workflow_tasks
reclaim_expired_workflow_tasks-IsLive s locked now limit id live = by_limit (positive limit)
  where
    others : All (λ (t : Task). t.id ≢ id) (expired_tasks (is_expired s locked now) s.tasks)
    others =
        expired_tasks-All (λ t. t.id ≢ id) (is_expired s locked now) s.tasks
          (All-map _ _ s.tasks (λ r f b same. live_not_expired s locked now r.1 (f same) b) live)

    by_limit :
        (o : Option ℕ)
        → lookup id
            (elim o as (λ _. Result LeaseError ℕ × Store) [
              | none ↦ (err (invalid "limit must be at least 1"), s)
              | some n ↦
                  let rows = take n (expired_tasks (is_expired s locked now) s.tasks) in
                  (ok (length rows), write_all now rows s)
            ]).1.tasks
          ≡ lookup id s.tasks
    by_limit none = refl
    by_limit (some n) = lookup-write_all now id _ s (take-All (λ t. t.id ≢ id) n _ others)
