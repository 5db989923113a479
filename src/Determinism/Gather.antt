-- ===== src/Determinism/Gather.antt =====
-- engine/sdk/context.py: `gather`. When it has returned the results of all its calls, it returns them
-- again. (Which of several failures it raises first is not stable: see Determinism/Hazards.)
use durable_workflow_engine.Determinism.Calls.{evaluate_activity-IsStable}
use durable_workflow_engine.Determinism.{Longer, with_history, is_settled}
use durable_workflow_engine.History.{HistoryIndex}
use durable_workflow_engine.Commands.{Command}
use durable_workflow_engine.Context.{
  WorkflowContext, raised, M, Outcome, new_commands, ◌>>=◌, returned, blocked,
}
use durable_workflow_engine.Json.{Json, null}
use durable_workflow_engine.Base.{
  List, ◌≢◌, Bool, ◌∷◌, ◌≡◌, [], ◌++◌, arith, true, ◌⊎◌, inl, inr, refl, false, ◌∙◌,
}
use durable_workflow_engine.Context.Activity.{
  evaluate_activity, gather_loop, resolve_activity, ActivityCall, end_activity, gathered, gather,
}
use durable_workflow_engine.Platform.{Platform}

module _ (p : Platform) where
  emits_something :
      (call : ActivityCall) (c : WorkflowContext)
      → (evaluate_activity p call c).0 ≢ raised (new_commands [])
  unfolding evaluate_activity resolve_activity end_activity
  emits_something call c h = ground arith

  -- The loop and what follows it.
  abbrev collect : List ActivityCall → List Json → List Command → Bool → M (List Json)
  collect calls results missing waits = gather_loop p calls results missing waits >>= gathered p

  -- A call of the loop, for each way in which its evaluation ends.
  abbrev step :
      List ActivityCall
      → List Json
      → List Command
      → Bool
      → Outcome Json × WorkflowContext
      → Outcome (List Json) × WorkflowContext
  step calls results missing waits (returned v, c) =
      collect calls (results ++ v ∷ []) missing waits c
  step calls results missing waits (raised (new_commands more), c) =
      collect calls (results ++ null ∷ []) (missing ++ more) waits c
  step calls results missing waits (raised blocked, c) =
      collect calls (results ++ null ∷ []) missing true c
  step calls results missing waits (raised e, c) = (raised e, c)

  collect-cons :
      (call : ActivityCall) (calls : List ActivityCall) (results : List Json)
      (missing : List Command) (waits : Bool) (c : WorkflowContext)
      → collect (call ∷ calls) results missing waits c
        ≡ step calls results missing waits (evaluate_activity p call c)
  unfolding gather_loop
  collect-cons call calls results missing waits c = ground arith

  append-ne_nil : (ms more : List Command) → ms ≢ [] → ms ++ more ≢ []
  append-ne_nil [] more h e = absurd (h refl)
  append-ne_nil (m ∷ ms) more h e = cc

  -- Once a command is missing, or a call waits, the operation does not return.
  never_returns :
      (calls : List ActivityCall) (results : List Json) (missing : List Command) (waits : Bool)
      (c : WorkflowContext) (rs : List Json)
      → ((missing ≢ []) ⊎ (waits ≡ true))
      → (collect calls results missing waits c).0 ≢ returned rs
  unfolding gather_loop gathered
  never_returns [] results [] waits c rs (inl some_missing) h = absurd (some_missing refl)
  never_returns [] results [] waits c rs (inr waiting) h = ground arith
  never_returns [] results (m ∷ missing) waits c rs bad h = cc
  never_returns (call ∷ calls) results missing waits c rs bad h =
      step_never (evaluate_activity p call c)
        (λ results missing waits c'. never_returns calls results missing waits c' rs) bad
        (rw (collect-cons call calls results missing waits c) at h)
    where
      step_never :
          (r : Outcome Json × WorkflowContext)
          → ((results : List Json) (missing : List Command) (waits : Bool) (c' : WorkflowContext)
              → ((missing ≢ []) ⊎ (waits ≡ true))
              → (collect calls results missing waits c').0 ≢ returned rs)
          → ((missing ≢ []) ⊎ (waits ≡ true))
          → (step calls results missing waits r).0 ≢ returned rs
      step_never (returned v, c') ih bad h = ih _ _ _ c' bad h
      step_never (raised (new_commands more), c') ih (inl b) h =
          ih _ _ _ c' (inl (append-ne_nil missing more b)) h
      step_never (raised (new_commands more), c') ih (inr b) h = ih _ _ _ c' (inr b) h
      step_never (raised blocked, c') ih bad h = ih _ _ _ c' (inr refl) h
      step_never (raised _, c') ih bad h = cc

  append-ne_nil_right : (ms more : List Command) → more ≢ [] → ms ++ more ≢ []
  append-ne_nil_right [] more h e = h e
  append-ne_nil_right (m ∷ ms) more h e = cc

  -- The round of a call, given what the rounds after it do.
  step_again :
      (calls : List ActivityCall) (results : List Json) (missing : List Command) (waits : Bool)
      (y : HistoryIndex) (rs : List Json) (r q : Outcome Json × WorkflowContext)
      → Longer r.1.history y
      → (is_settled r.0 ≡ true → q ≡ (r.0, with_history y r.1))
      → (r.0 ≢ raised (new_commands []))
      → ((results : List Json) (c : WorkflowContext)
          → Longer c.history y
          → (collect calls results missing waits c).0 ≡ returned rs
          → collect calls results missing waits (with_history y c)
            ≡ (returned rs, with_history y (collect calls results missing waits c).1))
      → (step calls results missing waits r).0 ≡ returned rs
      → step calls results missing waits q
        ≡ (returned rs, with_history y (step calls results missing waits r).1)
  step_again calls results missing waits y rs (returned v, c) q l same emits ih h =
      rw (same refl) (ih _ c l h)
  step_again calls results missing waits y rs (raised (new_commands []), c) q l same emits ih h =
      absurd (emits refl)
  step_again calls results missing waits y rs (raised (new_commands (m ∷ more)), c) q l same emits
        ih h =
      absurd (
        never_returns calls _ (missing ++ m ∷ more) waits c rs
          (inl (append-ne_nil_right missing (m ∷ more) (λ e. cc))) h)
  step_again calls results missing waits y rs (raised blocked, c) q l same emits ih h =
      absurd (never_returns calls _ missing true c rs (inr refl) h)
  step_again calls results missing waits y rs (raised _, c) q l same emits ih h = cc

  collect-again :
      (calls : List ActivityCall) (results : List Json) (missing : List Command) (waits : Bool)
      (c : WorkflowContext) (y : HistoryIndex) (rs : List Json)
      → Longer c.history y
      → (collect calls results missing waits c).0 ≡ returned rs
      → collect calls results missing waits (with_history y c)
        ≡ (returned rs, with_history y (collect calls results missing waits c).1)
  unfolding gather_loop gathered
  collect-again [] results missing waits c y rs l h = ground arith
  collect-again (call ∷ calls) results missing waits c y rs l h =
      rw
        (
          collect-cons call calls results missing waits c,
          collect-cons call calls results missing waits (with_history y c),
        )
        (step_again calls results missing waits y rs (evaluate_activity p call c)
          (evaluate_activity p call (with_history y c))
          (rw (← (evaluate_activity-IsStable p call).keeps c) at l)
          ((evaluate_activity-IsStable p call).stays c y l) (emits_something call c)
          (λ results c' l' h'. collect-again calls results missing waits c' y rs l' h')
          (rw (collect-cons call calls results missing waits c) at h))

  -- At a history at which `gather` returns results, it returns the same at every longer history.
  pub gather-again :
      (calls : List ActivityCall) (c : WorkflowContext) (y : HistoryIndex) (rs : List Json)
      → Longer c.history y
      → (gather p calls c).0 ≡ returned rs
      → gather p calls (with_history y c) ≡ (returned rs, with_history y (gather p calls c).1)
  unfolding gather
  gather-again [] c y rs l h = ground arith
  gather-again (call ∷ calls) c y rs l h = collect-again (call ∷ calls) [] [] false c y rs l h

  gathered-keeps :
      (results : List Json) (missing : List Command) (waits : Bool) (c : WorkflowContext)
      → (gathered p (results, missing, waits) c).1.history ≡ c.history
  unfolding gathered
  gathered-keeps results [] true c = refl
  gathered-keeps results [] false c = refl
  gathered-keeps results (m ∷ missing) waits c = refl

  collect-keeps :
      (calls : List ActivityCall) (results : List Json) (missing : List Command) (waits : Bool)
      (c : WorkflowContext)
      → (collect calls results missing waits c).1.history ≡ c.history
  unfolding gather_loop
  collect-keeps [] results missing waits c = gathered-keeps results missing waits c
  collect-keeps (call ∷ calls) results missing waits c =
      rw (collect-cons call calls results missing waits c) (
        after_step (evaluate_activity p call c)
          (λ results missing waits c'. collect-keeps calls results missing waits c')
        ∙ (evaluate_activity-IsStable p call).keeps c)
    where
      after_step :
          (r : Outcome Json × WorkflowContext)
          → ((results : List Json) (missing : List Command) (waits : Bool) (c' : WorkflowContext)
              → (collect calls results missing waits c').1.history ≡ c'.history)
          → (step calls results missing waits r).1.history ≡ r.1.history
      after_step (returned v, c') ih = ih _ _ _ c'
      after_step (raised (new_commands more), c') ih = ih _ _ _ c'
      after_step (raised blocked, c') ih = ih _ _ _ c'
      after_step (raised _, c') ih = refl

  pub gather-keeps :
      (calls : List ActivityCall) (c : WorkflowContext) → (gather p calls c).1.history ≡ c.history
  unfolding gather
  gather-keeps [] c = refl
  gather-keeps (call ∷ calls) c = collect-keeps (call ∷ calls) [] [] false c
