-- ===== src/Determinism/Traces.antt =====
-- engine/runtime/replay.py: the answers of a replay against its run.
use durable_workflow_engine.Base.{refl}
use durable_workflow_engine.Json.{Json}
use durable_workflow_engine.Base.{◌≡◌, List, [], ◌∷◌, true, Bool, false}
use durable_workflow_engine.Determinism.Steady.{answers}
use durable_workflow_engine.Context.{WorkflowContext, Outcome, returned, raised, Raised, user_error}
use durable_workflow_engine.Replay.{
  Workflow, run, finish, fail, Answer, reraise, call, perform, is_suspension,
}
use durable_workflow_engine.Platform.{Platform}

module _ (p : Platform) where
  -- A run that also lists its answers.
  traced : Workflow → WorkflowContext → (Outcome Json × WorkflowContext) × List Answer
  traced (finish v) c = ((returned v, c), [])
  traced (fail t m) c = ((raised (user_error t m), c), [])
  traced (reraise e) c = ((raised e, c), [])
  traced (call k next handle) c =
      let (outcome, c') = perform p k c in
      elim outcome [
        | returned a ↦ (let rest = traced (next a) c' in (rest.0, a ∷ rest.1))
        | raised e ↦ elim (is_suspension e) [
          | true ↦ ((raised e, c'), [])
          | false ↦ traced (handle e) c'
        ]
      ]

  -- `run` and `answers` are two sides of the same run.
  traced-run : (f : Workflow) (c : WorkflowContext) → traced f c ≡ (run p f c, answers p f c)
  unfolding traced run answers
  traced-run (finish v) c = refl
  traced-run (fail t m) c = refl
  traced-run (reraise e) c = refl
  traced-run (call k next handle) c =
      by_outcome (perform p k c).0 (λ a. traced-run (next a) (perform p k c).1)
        (λ e. traced-run (handle e) (perform p k c).1)
    where
      by_outcome :
          (o : Outcome Answer)
          → ((a : Answer)
              → traced (next a) (perform p k c).1
                ≡ (run p (next a) (perform p k c).1, answers p (next a) (perform p k c).1))
          → ((e : Raised)
              → traced (handle e) (perform p k c).1
                ≡ (run p (handle e) (perform p k c).1, answers p (handle e) (perform p k c).1))
          → (elim o as (λ _. (Outcome Json × WorkflowContext) × List Answer) [
            | returned a ↦ (let rest = traced (next a) (perform p k c).1 in (rest.0, a ∷ rest.1))
            | raised e ↦ elim (is_suspension e) [
              | true ↦ ((raised e, (perform p k c).1), [])
              | false ↦ traced (handle e) (perform p k c).1
            ]
          ])
            ≡ (
              elim o as (λ _. Outcome Json × WorkflowContext) [
                | returned a ↦ run p (next a) (perform p k c).1
                | raised e ↦ elim (is_suspension e) [
                  | true ↦ (raised e, (perform p k c).1)
                  | false ↦ run p (handle e) (perform p k c).1
                ]
              ],
              elim o as (λ _. List Answer) [
                | returned a ↦ a ∷ answers p (next a) (perform p k c).1
                | raised e ↦ elim (is_suspension e) [
                  | true ↦ []
                  | false ↦ answers p (handle e) (perform p k c).1
                ]
              ],
            )
      by_outcome (returned a) f g = let same = f a in rw same refl
      by_outcome (raised e) f g = by_flag (is_suspension e) e g
        where
          by_flag :
              (b : Bool) (e : Raised)
              → ((e : Raised)
                  → traced (handle e) (perform p k c).1
                    ≡ (run p (handle e) (perform p k c).1, answers p (handle e) (perform p k c).1))
              → (elim b as (λ _. (Outcome Json × WorkflowContext) × List Answer) [
                | true ↦ ((raised e, (perform p k c).1), [])
                | false ↦ traced (handle e) (perform p k c).1
              ])
                ≡ (
                  elim b as (λ _. Outcome Json × WorkflowContext) [
                    | true ↦ (raised e, (perform p k c).1)
                    | false ↦ run p (handle e) (perform p k c).1
                  ],
                  elim b as (λ _. List Answer) [
                    | true ↦ []
                    | false ↦ answers p (handle e) (perform p k c).1
                  ],
                )
          by_flag true e g = refl
          by_flag false e g = g e
