-- ===== src/Determinism/Updates.antt =====
-- engine/sdk/context.py: `wait_update`.
use durable_workflow_engine.Determinism.Signals.{first_matching-append}
use durable_workflow_engine.Json.{as_str, get_null}
use durable_workflow_engine.Context.Signal.{first_matching}
use durable_workflow_engine.History.{HistoryEvent}
use durable_workflow_engine.Context.{modify, if_none, raise, blocked}
use durable_workflow_engine.Context.Update.{consume_update, wait_update, missing_update_id}
use durable_workflow_engine.Determinism.{IsStable, stability, look_keeps, look_stays}
use durable_workflow_engine.Base.{ℕ, String, ◌∷◌, Option-cases, inl, none, inr, refl}
use durable_workflow_engine.Platform.{Platform}

module _ (p : Platform) where
  mark_update-IsStable :
      (n : ℕ)
      → IsStable (modify (λ c. record c { consumed_update_seqs = n ∷ c.consumed_update_seqs }))
  mark_update-IsStable n = record { keeps = λ c. refl; stays = λ c y l h. refl }

  missing_update_id-IsStable : IsStable (missing_update_id p)
  missing_update_id-IsStable = record { keeps = λ c. refl; stays = λ c y l h. refl }

  consume_update-IsStable : (name : String) (e : HistoryEvent) → IsStable (consume_update p name e)
  unfolding consume_update
  consume_update-IsStable name e =
      elim (Option-cases (as_str (get_null "update_id" e.attributes))) [
        | inl q ↦ rw (q, consume_update) missing_update_id-IsStable
        | inr (u, q) ↦ rw (q, consume_update) (search (stability, mark_update-IsStable))
      ]

  next_update-IsStable :
      (name : String)
      → IsStable (λ c.
        if_none
          (first_matching name c.consumed_update_seqs c.history.updates)
          (raise blocked)
          (consume_update p name)
          c)
  next_update-IsStable name = record {
    keeps = λ c.
        look_keeps (λ x. none) (λ c. raise blocked) (consume_update p name) (λ c d. (refl, refl))
          (consume_update-IsStable name) c
          (first_matching name c.consumed_update_seqs c.history.updates);
    stays = λ c y l h.
        look_stays (λ x. none) (λ c. raise blocked) (consume_update p name) (λ c d. (refl, refl))
          (consume_update-IsStable name) c y
          (first_matching name c.consumed_update_seqs c.history.updates)
          (first_matching name c.consumed_update_seqs y.updates) l
          (λ e found. rw l.extends.updates (
            first_matching-append name c.consumed_update_seqs c.history.updates
              l.extends.new_updates e found))
          h;
  }

  pub wait_update-IsStable : (name : String) → IsStable (wait_update p name)
  unfolding wait_update
  wait_update-IsStable name = search (stability, next_update-IsStable)
