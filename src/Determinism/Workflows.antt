-- ===== src/Determinism/Workflows.antt =====
-- engine/runtime/replay.py: a whole workflow function replayed against a history and a longer one.
use durable_workflow_engine.Determinism.Steady.{
  is_plain, answers, IsSteady, finishes, fails, reraises, plain, gathers,
}
use durable_workflow_engine.History.Extension.{index_history-IsBounded, index_history-Extends}
use durable_workflow_engine.Determinism.Gather.{gather-again, gather-keeps}
use durable_workflow_engine.Context.Activity.{ActivityCall, gather}
use durable_workflow_engine.History.{HistoryIndex, HistoryEvent, index_history}
use durable_workflow_engine.Determinism.Markers.{now-IsStable, random-IsStable, uuid-IsStable}
use durable_workflow_engine.Determinism.Updates.{wait_update-IsStable}
use durable_workflow_engine.Determinism.Signals.{wait_signal-IsStable}
use durable_workflow_engine.Context.Child.{evaluate_child_workflow, child_workflow}
use durable_workflow_engine.Determinism.Calls.{
  evaluate_activity-IsStable, child_workflow-IsStable, continue_as_new-IsStable, sleep-IsStable,
  resolve_update-IsStable,
}
use durable_workflow_engine.Determinism.{
  IsStable, bind-IsStable, pure-IsStable, Longer, with_history, is_settled,
}
use durable_workflow_engine.Context.{
  M, WorkflowContext, pure, Raised, returned, Outcome, bind, raised, new_commands, blocked,
  new_context,
}
use durable_workflow_engine.Determinism.Children.{DumpsMembers, evaluate_child_workflow-IsStable}
use durable_workflow_engine.Json.{Json}
use durable_workflow_engine.Base.{
  false, ◌≡◌, true, List, ◌∙◌, [], arith, ◌∷◌, ap, refl, ◌++◌, Bool-cases, inl, inr, ℕ, ok,
}
use durable_workflow_engine.Platform.{Platform}
use durable_workflow_engine.Replay.{
  Call, Workflow, Answer, perform, gather_all, activity, child, continue_to, sleep_for, signal,
  update, resolution, answer, cancellation_requested, time, random_number, random_uuid, reraise,
  call, jsons, is_suspension,
}

module _ (p : Platform) (members : DumpsMembers p) where
  answer-IsStable : {A : Type 0} (f : A → Answer) (m : M A) → IsStable m → IsStable (answer f m)
  answer-IsStable f m s = bind-IsStable (λ a. pure (f a)) m s (λ a. pure-IsStable (f a))

  pub perform-IsStable : (k : Call) → is_plain k ≡ true → IsStable (perform p k)
  unfolding perform
  perform-IsStable (activity a) h = answer-IsStable _ _ (evaluate_activity-IsStable p a)
  perform-IsStable (gather_all calls) h = cc
  perform-IsStable (child n v i q k) h = answer-IsStable _ _ (
      bind-IsStable (λ c. evaluate_child_workflow p c) (child_workflow p n v i q k)
        (child_workflow-IsStable p n v i q k) (evaluate_child_workflow-IsStable p members))
  perform-IsStable (continue_to n v i q) h =
      answer-IsStable _ _ (continue_as_new-IsStable p n v i q)
  perform-IsStable (sleep_for d) h = answer-IsStable _ _ (sleep-IsStable p d)
  perform-IsStable (signal n t) h = answer-IsStable _ _ (wait_signal-IsStable p n t)
  perform-IsStable (update n) h = answer-IsStable _ _ (wait_update-IsStable p n)
  perform-IsStable (resolution u o a) h = answer-IsStable _ _ (resolve_update-IsStable p u o a)
  perform-IsStable time h = answer-IsStable _ _ (now-IsStable p)
  perform-IsStable random_number h = answer-IsStable _ _ (random-IsStable p)
  perform-IsStable random_uuid h = answer-IsStable _ _ (uuid-IsStable p)
  perform-IsStable cancellation_requested h = cc

  answered_again :
      {A : Type 0} (f : A → Answer) (y : HistoryIndex) (a : Answer)
      (r q : Outcome A × WorkflowContext)
      → ((v : A) → r.0 ≡ returned v → q ≡ (returned v, with_history y r.1))
      → (bind r (λ v. pure (f v))).0 ≡ returned a
      → bind q (λ v. pure (f v)) ≡ (returned a, with_history y (bind r (λ v. pure (f v))).1)
  answered_again f y a (returned v, c) q same h =
      rw (same v refl) (ap (λ o. (o, with_history y c)) h)
  answered_again f y a (raised e, c) q same h = cc

  gather_all-again :
      (calls : List ActivityCall) (c : WorkflowContext) (y : HistoryIndex) (a : Answer)
      → Longer c.history y
      → (perform p (gather_all calls) c).0 ≡ returned a
      → perform p (gather_all calls) (with_history y c)
        ≡ (returned a, with_history y (perform p (gather_all calls) c).1)
  unfolding perform
  gather_all-again calls c y a l h =
      answered_again jsons y a (gather p calls c) (gather p calls (with_history y c))
        (λ rs e. gather-again p calls c y rs l e) h

  gather_all-keeps :
      (calls : List ActivityCall) (c : WorkflowContext)
      → (perform p (gather_all calls) c).1.history ≡ c.history
  unfolding perform
  gather_all-keeps calls c = same (gather p calls c) ∙ gather-keeps p calls c
    where
      same :
          (r : Outcome (List Json) × WorkflowContext)
          → (bind r (λ v. pure (jsons v))).1.history ≡ r.1.history
      same (returned v, c) = refl
      same (raised e, c) = refl

  -- What follows a call.
  abbrev following :
      (Answer → Workflow) → (Raised → Workflow) → Outcome Answer × WorkflowContext → List Answer
  following next handle (returned a, c) = a ∷ answers p (next a) c
  following next handle (raised e, c) = elim (is_suspension e) [
    | true ↦ []
    | false ↦ answers p (handle e) c
  ]

  answers-call :
      (k : Call) (next : Answer → Workflow) (handle : Raised → Workflow) (c : WorkflowContext)
      → answers p (call k next handle) c ≡ following next handle (perform p k c)
  unfolding answers
  answers-call k next handle c = ground arith

  settled_of_caught :
      (e : Raised) → is_suspension e ≡ false → is_settled {A = Answer} (raised e) ≡ true
  unfolding is_suspension
  settled_of_caught (new_commands cs) h = cc
  settled_of_caught blocked h = cc
  settled_of_caught _ h = refl

  module _ (next : Answer → Workflow) (handle : Raised → Workflow) (e : Raised)
      (c : WorkflowContext) where
    following-suspended : is_suspension e ≡ true → following next handle (raised e, c) ≡ []
    following-suspended h = rw (h, following)

    following-caught :
        is_suspension e ≡ false → following next handle (raised e, c) ≡ answers p (handle e) c
    following-caught h = rw (h, following)

  abbrev GoesOn : List Answer → List Answer → Type 0
  GoesOn longer shorter = (rest : List Answer) × (longer ≡ shorter ++ rest)

  -- After a plain call, given what the code after it is given.
  plain_following :
      (next : Answer → Workflow) (handle : Raised → Workflow) (y : HistoryIndex)
      (r q : Outcome Answer × WorkflowContext)
      → Longer r.1.history y
      → (is_settled r.0 ≡ true → q ≡ (r.0, with_history y r.1))
      → ((a : Answer) (c : WorkflowContext)
          → Longer c.history y
          → GoesOn (answers p (next a) (with_history y c)) (answers p (next a) c))
      → ((e : Raised) (c : WorkflowContext)
          → Longer c.history y
          → GoesOn (answers p (handle e) (with_history y c)) (answers p (handle e) c))
      → GoesOn (following next handle q) (following next handle r)
  plain_following next handle y (returned a, c) q l same s t =
      let (rest, e) = s a c l in (rest, rw (same refl) (ap (λ as'. a ∷ as') e))
  plain_following next handle y (raised e, c) q l same s t = elim (Bool-cases (is_suspension e)) [
    | inl suspended ↦ (following next handle q, rw (following-suspended next handle e c suspended))
    | inr caught ↦
        let (rest, goes_on) = t e c l in
        (
          rest,
          rw
              (
                same (settled_of_caught e caught),
                following-caught next handle e (with_history y c) caught,
                following-caught next handle e c caught,
              )
              goes_on,
        )
  ]

  gather_following :
      (next : Answer → Workflow) (y : HistoryIndex) (r q : Outcome Answer × WorkflowContext)
      → Longer r.1.history y
      → ((a : Answer) → r.0 ≡ returned a → q ≡ (returned a, with_history y r.1))
      → ((a : Answer) (c : WorkflowContext)
          → Longer c.history y
          → GoesOn (answers p (next a) (with_history y c)) (answers p (next a) c))
      → GoesOn (following next reraise q) (following next reraise r)
  unfolding answers
  gather_following next y (returned a, c) q l same s =
      let (rest, e) = s a c l in (rest, rw (same a refl) (ap (λ as'. a ∷ as') e))
  gather_following next y (raised e, c) q l same s = elim (Bool-cases (is_suspension e)) [
    | inl suspended ↦
        (following next reraise q, rw (following-suspended next reraise e c suspended))
    | inr caught ↦ (following next reraise q, rw (following-caught next reraise e c caught))
  ]

  answers-GoesOn :
      {w : Workflow}
      → IsSteady w
      → (c : WorkflowContext) (y : HistoryIndex) → Longer c.history y
      → GoesOn (answers p w (with_history y c)) (answers p w c)
  unfolding answers
  answers-GoesOn (finishes v) c y l = ([], refl)
  answers-GoesOn (fails t m) c y l = ([], refl)
  answers-GoesOn (reraises e) c y l = ([], refl)
  answers-GoesOn (plain k next handle h s t) c y l =
      rw (answers-call k next handle c, answers-call k next handle (with_history y c))
        (plain_following next handle y (perform p k c) (perform p k (with_history y c))
          (rw (← (perform-IsStable k h).keeps c) at l) ((perform-IsStable k h).stays c y l)
          (λ a c' l'. answers-GoesOn (s a) c' y l') (λ e c' l'. answers-GoesOn (t e) c' y l'))
  answers-GoesOn (gathers calls next s) c y l =
      rw
        (
          answers-call (gather_all calls) next reraise c,
          answers-call (gather_all calls) next reraise (with_history y c),
        )
        (gather_following next y (perform p (gather_all calls) c)
          (perform p (gather_all calls) (with_history y c)) (rw (← gather_all-keeps calls c) at l)
          (λ a. gather_all-again calls c y a l) (λ a c' l'. answers-GoesOn (s a) c' y l'))

  -- Provided `json.dumps` accepts each member of an object that it accepts: for accepted histories
  -- `es` and `es ++ fs` and for code that does not read
  -- `ctx.cancellation_requested` and does not catch a failure of `gather`: the answers that replay gives
  -- to the code at `es` are the first answers that it gives at `es ++ fs`.
  pub answers-append :
      (es fs : List HistoryEvent) (x y : HistoryIndex) (workflow_id : ℕ) {w : Workflow}
      → index_history es ≡ ok x
      → index_history (es ++ fs) ≡ ok y
      → IsSteady w
      → (rest : List Answer) × (answers p w (new_context workflow_id y)
          ≡ answers p w (new_context workflow_id x) ++ rest)
  answers-append es fs x y workflow_id h k s =
      answers-GoesOn s (new_context workflow_id x) y (record {
        bounded = index_history-IsBounded es x h;
        extends = index_history-Extends es fs x y h k;
      })

  -- Provided `json.dumps` accepts each member of an object that it accepts: for one call of the context,
  -- other than `gather` and the cancellation flag, if it returns or raises
  -- at a history, and does not wait, it does the same at every longer accepted history, and leaves the
  -- same context.
  pub perform-append :
      (es fs : List HistoryEvent) (y : HistoryIndex) (k : Call) (c : WorkflowContext)
      → index_history es ≡ ok c.history
      → index_history (es ++ fs) ≡ ok y
      → is_plain k ≡ true
      → is_settled (perform p k c).0 ≡ true
      → perform p k (with_history y c) ≡ ((perform p k c).0, with_history y (perform p k c).1)
  perform-append es fs y k c h1 h2 plain_call settled =
      (perform-IsStable k plain_call).stays c y
        (record {
          bounded = index_history-IsBounded es c.history h1;
          extends = index_history-Extends es fs c.history y h1 h2;
        })
        settled
