-- ===== src/Determinism/Hazards.antt =====
-- engine/sdk/context.py and engine/runtime/replay.py: code for which replay does not reproduce what it
-- did, so that a longer history makes it fail with a NonDeterminismError.
use durable_workflow_engine.History.Cancellation.{
  requests_cancellation, index_history-not_cancelled, index_history-cancelled,
}
use durable_workflow_engine.History.Unvisited.{IsLeastFrom, first_unvisited_command_lem}
use durable_workflow_engine.History.Commands.{
  find_command, scheduled-find_command, find_command-command_id,
}
use durable_workflow_engine.Context.{
  WorkflowContext, new_context, raised, activity_error, unvisited, returned,
}
use durable_workflow_engine.History.{
  HistoryIndex, HistoryEvent, first_unvisited_command, index_history,
}
use durable_workflow_engine.Context.Activity.{ActivityCall, gather, evaluate_activity}
use durable_workflow_engine.Base.{
  List, ℕ, String, ◌≡◌, some, err, ◌∷◌, arith, true, none, ◌≤◌, ok, Option, ◌++◌, ◌∙◌, sym, false,
  refl, ap,
}
use durable_workflow_engine.Replay.{
  Workflow, settle, call, run, cancellation_requested, perform, gather_all, finish, flag, reraise,
  is_suspension, diverged, Answer, replay_workflow, run_function,
}
use durable_workflow_engine.Platform.{Platform, clone_json, value_of}
use durable_workflow_engine.Json.{Json}

abbrev when_flagged : Json → Workflow → Answer → Workflow
when_flagged early body (flag true) = finish early
when_flagged early body _ = body

-- `if ctx.cancellation_requested: return early`, before anything else.
pub stops_when_cancelled : Json → Workflow → Workflow
stops_when_cancelled early body = call cancellation_requested (when_flagged early body) reraise

-- Code that catches whatever `gather` raises, and finishes.
pub recovers : List ActivityCall → Json → Workflow
recovers calls v = call (gather_all calls) (λ a. finish v) (λ e. finish v)

module _ (p : Platform) where
  gather_raises :
      (first : ActivityCall) (calls : List ActivityCall) (c c' : WorkflowContext) (name : String)
      (failure : Json)
      → evaluate_activity p first c ≡ (raised (activity_error name failure), c')
      → gather p (first ∷ calls) c ≡ (raised (activity_error name failure), c')
  unfolding gather
  gather_raises first calls c c' name failure h = ground arith

  run-recovers :
      (calls : List ActivityCall) (v : Json) (c c' : WorkflowContext) (name : String)
      (failure : Json)
      → gather p calls c ≡ (raised (activity_error name failure), c')
      → run p (recovers calls v) c ≡ (returned v, c')
  unfolding run perform recovers is_suspension
  run-recovers calls v c c' name failure h = ground arith

  -- If the first of the gathered calls has failed, `gather` raises before it numbers the others; so
  -- when the history has commands beyond the first, replay of code that catches the failure ends with a
  -- NonDeterminismError at the least of them.
  pub recovers-diverges :
      (first : ActivityCall) (calls : List ActivityCall) (v : Json) (x : HistoryIndex)
      (workflow_id n : ℕ) (name : String) (failure : Json) (c' : WorkflowContext) (u : HistoryEvent)
      → evaluate_activity p first (new_context workflow_id x)
        ≡ (raised (activity_error name failure), c')
      → first_unvisited_command x c'.next_command_id ≡ some u
      → u.command_id ≡ some n
      → settle p x (run p (recovers (first ∷ calls) v) (new_context workflow_id x))
        ≡ err (diverged n (unvisited u.event_type))
  unfolding settle
  recovers-diverges first calls v x workflow_id n name failure c' u fails left named =
      rw
        (run-recovers (first ∷ calls) v _ c' name failure
          (gather_raises first calls _ c' name failure fails))
        (ground arith)

  -- Without a request in the index, the code goes on with its body.
  run-not_cancelled :
      (early : Json) (body : Workflow) (x : HistoryIndex) (workflow_id : ℕ)
      → x.cancellation_requested ≡ none
      → run p (stops_when_cancelled early body) (new_context workflow_id x)
        ≡ run p body (new_context workflow_id x)
  unfolding run perform stops_when_cancelled
  run-not_cancelled early body x workflow_id h = rw h refl

  run-cancelled :
      (early : Json) (body : Workflow) (x : HistoryIndex) (workflow_id : ℕ) (r : HistoryEvent)
      → x.cancellation_requested ≡ some r
      → run p (stops_when_cancelled early body) (new_context workflow_id x)
        ≡ (returned early, new_context workflow_id x)
  unfolding run perform stops_when_cancelled
  run-cancelled early body x workflow_id r h = rw h refl

  -- The least command that events schedule, with the first event that schedules it.
  abbrev pub IsLeastCommand : ℕ → HistoryEvent → List HistoryEvent → Type 0
  IsLeastCommand n u es =
      (find_command n es ≡ some u)
      × ((d : ℕ) (v : HistoryEvent) → find_command d es ≡ some v → n ≤ d)

  least_command :
      (es : List HistoryEvent) (y : HistoryIndex) (c : ℕ) (v : HistoryEvent)
      → index_history es ≡ ok y
      → find_command c es ≡ some v
      → (n : ℕ) × (u : HistoryEvent) × IsLeastCommand n u es
        × (first_unvisited_command y 0 ≡ some u)
  least_command es y c v h found =
      by_first (first_unvisited_command y 0) refl (first_unvisited_command_lem es y 0 h)
    where
      by_first :
          (o : Option HistoryEvent)
          → first_unvisited_command y 0 ≡ o
          → IsLeastFrom 0 y.scheduled o
          → (n : ℕ) × (u : HistoryEvent) × IsLeastCommand n u es
            × (first_unvisited_command y 0 ≡ some u)
      by_first none same least =
          absurd (omega (arith, least c v (scheduled-find_command es y c h ∙ found)))
      by_first (some u) same (n, at, low, least) = (
        n,
        u,
        (
          sym (scheduled-find_command es y n h) ∙ at,
          λ d w g. least d w (scheduled-find_command es y d h ∙ g) (omega arith),
        ),
        same,
      )

  settled :
      (y : HistoryIndex) (early : Json) (workflow_id n : ℕ) (u : HistoryEvent)
      → first_unvisited_command y 0 ≡ some u
      → u.command_id ≡ some n
      → settle p y (returned early, new_context workflow_id y)
        ≡ err (diverged n (unvisited u.event_type))
  unfolding settle
  settled y early workflow_id n u left named = ground arith

  replay-settle :
      (function : Json → Workflow) (workflow_id : ℕ) (input detached : Json)
      (es : List HistoryEvent) (x : HistoryIndex)
      → index_history es ≡ ok x
      → clone_json p input ≡ value_of detached
      → replay_workflow p function workflow_id input es
        ≡ settle p x (run p (function detached) (new_context workflow_id x))
  unfolding replay_workflow run_function
  replay-settle function workflow_id input detached es x h c = ground (arith, h, c)

  -- Take code that first reads `ctx.cancellation_requested`, returns early if it is set, and otherwise goes
  -- on with any body. At every accepted history without a cancellation request its replay is that of the
  -- body. At every longer accepted history whose further events have a request, if some command is
  -- scheduled, its replay fails with a NonDeterminismError at the least scheduled command.
  pub stops_when_cancelled-diverges :
      (early input detached : Json) (body : Json → Workflow) (workflow_id c : ℕ)
      (es fs : List HistoryEvent) (x y : HistoryIndex) (v : HistoryEvent)
      → clone_json p input ≡ value_of detached
      → index_history es ≡ ok x
      → index_history (es ++ fs) ≡ ok y
      → requests_cancellation es ≡ false
      → requests_cancellation fs ≡ true
      → find_command c (es ++ fs) ≡ some v
      → (replay_workflow p (λ j. stops_when_cancelled early (body j)) workflow_id input es
          ≡ replay_workflow p body workflow_id input es)
        × ((n : ℕ) × (u : HistoryEvent) × IsLeastCommand n u (es ++ fs)
            × (replay_workflow p
                  (λ j. stops_when_cancelled early (body j))
                  workflow_id
                  input
                  (es ++ fs)
                ≡ err (diverged n (unvisited u.event_type))))
  stops_when_cancelled-diverges early input detached body workflow_id c es fs x y v clones h k
        without later found =
      let none_yet = index_history-not_cancelled es x h without in
      let (r, requested) = index_history-cancelled es fs x y h k later in
      let (n, u, least, first) = least_command (es ++ fs) y c v k found in
      let named = find_command-command_id n (es ++ fs) u least.0 in
      (
        replay-settle _ workflow_id input detached es x h clones
            ∙ ap (settle p x) (run-not_cancelled early (body detached) x workflow_id none_yet)
            ∙ sym (replay-settle body workflow_id input detached es x h clones),
        (
          n,
          u,
          least,
          replay-settle _ workflow_id input detached (es ++ fs) y k clones
              ∙ ap (settle p y) (run-cancelled early (body detached) y workflow_id r requested)
              ∙ settled y early workflow_id n u first named,
        ),
      )
