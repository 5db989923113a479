-- ===== src/Leasing/Fencing.antt =====
-- engine/persistence/leasing.py: what a lease excludes.
-- Each row stands under its own identity.

use durable_workflow_engine.Base.Int.{ℤ, pos}
use durable_workflow_engine.Base.Dict.{lookup, insert, lookup-insert}
use durable_workflow_engine.Base.{
  ℕ, Bool, String, ◌≡◌, some, ok, ◌==◌, Option-cases, ◌≢◌, nat_eq, true, false, inl, arith, suc,
  err, inr, nat_eqb_iff, string_eq, ap, ◌∙◌,
}
use durable_workflow_engine.Platform.{Platform}
use durable_workflow_engine.Leasing.{
  lease_row, lease_task, renew_lease, take_lease, append_started, positive, leased_row,
  lease_candidate, stale_lease,
}
use durable_workflow_engine.Store.{Store, Task}

abbrev pub HasIds : Store → Type 0
HasIds s = (id : ℕ) (t : Task) → lookup id s.tasks ≡ some t → t.id ≡ id

module _ (p : Platform) (s s' : Store) where
  -- What a lease that was given has done to the table of tasks.
  abbrev IsTaken : ℕ → ℕ → ℕ → ℕ → Task → Type 0
  IsTaken now token d id l =
      (t : Task) × (lookup id s.tasks ≡ some t)
      × ((t.status == "pending") ≡ true)
      × (l ≡ leased_row now token d t)
      × (s'.tasks ≡ insert id l s.tasks)

  lease_row-IsTaken :
      (now : ℕ) (task_type : String) (token d : ℕ) (candidate l : Task)
      → lease_row p s now task_type token d candidate ≡ (ok (some l), s')
      → IsTaken now token d candidate.id l
  unfolding lease_row take_lease append_started
  lease_row-IsTaken now task_type token d candidate l h =
      elim (Option-cases (lookup candidate.id s.tasks)) [
        | inl e ↦ absurd (ground arith)
        | inr (t, e) ↦ (t, e, ground arith, ground arith, ground arith)
      ]

  lease_task-IsTaken :
      (locked : ℕ → Bool) (now : ℕ) (task_type queue_name : String) (duration : ℤ) (token : ℕ)
      (l : Task)
      → lease_task p s locked now task_type queue_name duration token ≡ (ok (some l), s')
      → (d : ℕ) × (id : ℕ) × IsTaken now token d id l
  unfolding lease_task
  lease_task-IsTaken locked now task_type queue_name duration token l h =
      elim (Option-cases (positive duration)) [
        | inl e ↦ absurd (ground arith)
        | inr (d, e) ↦ elim (Option-cases (lease_candidate s locked now task_type queue_name)) [
          | inl n ↦ absurd (ground arith)
          | inr (c, n) ↦
              let row : lease_row p s now task_type token d c ≡ (ok (some l), s') = ground arith in
              (d, c.id, lease_row-IsTaken now task_type token d c l row)
        ]
      ]

  -- Where each row stands under its own identity: a task that is not pending is not leased, and a lease
  -- that is given to another task leaves its row as it was.
  pub lease_task-exclusive :
      (locked : ℕ → Bool) (now : ℕ) (task_type queue_name : String) (duration : ℤ) (token : ℕ)
      (l : Task) (id : ℕ) (t : Task)
      → HasIds s
      → lease_task p s locked now task_type queue_name duration token ≡ (ok (some l), s')
      → lookup id s.tasks ≡ some t
      → (t.status == "pending") ≡ false
      → (l.id ≢ id) × (lookup id s'.tasks ≡ some t)
  lease_task-exclusive locked now task_type queue_name duration token l id t ids h found busy =
      let (d, key, (u, e, pending, same, stored)) =
        lease_task-IsTaken locked now task_type queue_name duration token l h in
      let own : u.id ≡ key = ids key u e in
      let other : key ≢ id = λ k. cc in
      (
        λ k. other (cc),
        ground (arith, stored, lookup-insert key id l s.tasks, nat_eqb_iff key id, other),
      )

  -- Where each row stands under its own identity: after a lease is given, whoever presents another
  -- token at whatever time cannot renew it, and the tables stay as they are.
  pub lease_task-fences :
      (locked : ℕ → Bool) (now : ℕ) (task_type queue_name : String) (duration : ℤ) (token : ℕ)
      (l : Task) (later other n : ℕ)
      → HasIds s
      → lease_task p s locked now task_type queue_name duration token ≡ (ok (some l), s')
      → other ≢ token
      → renew_lease s' later l.id other (pos (suc n)) ≡ (err (stale_lease l.id), s')
  unfolding renew_lease
  lease_task-fences locked now task_type queue_name duration token l later other n ids h stranger =
      let (d, key, (u, e, pending, same, stored)) =
        lease_task-IsTaken locked now task_type queue_name duration token l h in
      let own : l.id ≡ key = ap (λ (t : Task). t.id) same ∙ ids key u e in
      let row : lookup l.id s'.tasks ≡ some l =
        ground (arith, stored, lookup-insert key l.id l s.tasks, nat_eqb_iff key l.id) in
      let held : l.lease_token ≡ some token = ap (λ (t : Task). t.lease_token) same in
      ground (arith, nat_eqb_iff token other)
