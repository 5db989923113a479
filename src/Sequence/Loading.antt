-- ===== src/Sequence/Loading.antt =====
-- engine/persistence/transitions.py: the history that `load_workflow_replay_state` gives to replay.
-- The numbers of the events go up by one from `k`.
use durable_workflow_engine.Sequence.Steps.{IsReachable, reachable-IsSequenced}
use durable_workflow_engine.Sequence.Rules.{quiet-then, fetch_leased-IsQuiet}
use durable_workflow_engine.Transitions.Activities.{Floats}
use durable_workflow_engine.Json.{Fields, as_obj}
use mathlib.Core.Path.{subst}
use durable_workflow_engine.Sequence.{IsNumbered}
use durable_workflow_engine.Store.{EventRow, order_by, rows_of, Execution, Store}
use durable_workflow_engine.History.{HistoryEvent}
use durable_workflow_engine.Sequence.Triples.{
  Triple, bind-Triple, bind-eq-ok, guard-IsQuiet, running_execution-IsQuiet,
}
use durable_workflow_engine.Store.Tx.{Session, require, type_error, ◌>>=◌, pure}
use durable_workflow_engine.Transitions.Load.{
  fetch_history, history_event_from_row, decoded_history, seq_before, event_of,
  load_workflow_replay_state, WorkflowReplayState, state_of,
}
use durable_workflow_engine.Base.{
  ℕ, List, ◌∷◌, ◌≡◌, ◌+◌, Option, arith, ltb, [], false, sym, ◌∙◌, refl, some, String, none, ok,
}

abbrev pub IsInOrder : ℕ → List HistoryEvent → Type 0
IsInOrder k [] = Unit
IsInOrder k (e ∷ es) = (e.seq ≡ k) × IsInOrder (k + 1) es

order_by-IsNumbered : (k : ℕ) (rs : List EventRow) → IsNumbered k rs → order_by seq_before rs ≡ rs
order_by-IsNumbered k [] p = refl
order_by-IsNumbered k (r ∷ []) p = refl
order_by-IsNumbered k (r ∷ b ∷ rs) (p, (q, ps)) =
    let rest = order_by-IsNumbered (k + 1) (b ∷ rs) (q, ps) in
    let later : ltb b.seq r.seq ≡ false = ground (arith, p, q) in rw (rest, later) refl

fetch_history-IsNumbered :
    (w : ℕ)
    → Triple (λ v. IsNumbered 1 (rows_of w v.rows)) (fetch_history w) (λ rows _. IsNumbered 1 rows)
unfolding fetch_history
fetch_history-IsNumbered w = record {
  run = λ s t rows h p.
      let answer : order_by seq_before (rows_of w s.history_events) ≡ rows = ground arith in
      let same = order_by-IsNumbered 1 (rows_of w s.history_events) h in
      subst (IsNumbered 1) (sym same ∙ answer) h;
}

module _ (x : Session) where
  event-IsInOrder :
      (r : EventRow) → Triple (λ _. Unit) (history_event_from_row x r) (λ e _. e.seq ≡ r.seq)
  unfolding history_event_from_row
  event-IsInOrder r = by_attributes (as_obj (x.platform.loads r.attributes))
    where
      by_attributes :
          (o : Option Fields)
          → Triple
              (λ _. Unit)
              (require o (type_error "history attributes must be a JSON object") >>= λ attributes.
                pure (event_of r attributes))
              (λ e _. e.seq ≡ r.seq)
      by_attributes none = record { run = λ s t a h e. absurd (ground arith) }
      by_attributes (some fs) = record { run = λ s t a h e. ground arith }

  decoded_history-IsInOrder :
      (k : ℕ) (rs : List EventRow)
      → IsNumbered k rs
      → Triple (λ _. Unit) (decoded_history x rs) (λ es _. IsInOrder k es)
  unfolding decoded_history
  decoded_history-IsInOrder k [] p = record {
    run = λ s t es h e. let same : [] ≡ es = ground arith in subst (IsInOrder k) same tt;
  }
  decoded_history-IsInOrder k (r ∷ rs) (p, ps) =
      bind-Triple (history_event_from_row x r) _ (event-IsInOrder r) (λ e. record {
        run = λ s t es h q.
            let (rest, u, first, last) = bind-eq-ok (decoded_history x rs s) _ es t q in
            let tail = (decoded_history-IsInOrder (k + 1) rs ps).run s u rest tt first in
            let same : e ∷ rest ≡ es = ground arith in subst (IsInOrder k) same (h ∙ p, tail);
      })

  load_workflow_replay_state-IsInOrder :
      (task_type : String) (id w token : ℕ)
      → Triple
          (λ v. IsNumbered 1 (rows_of w v.rows))
          (load_workflow_replay_state x task_type id w token)
          (λ state _. IsInOrder 1 state.history)
  unfolding load_workflow_replay_state
  load_workflow_replay_state-IsInOrder task_type id w token =
      search (quiet-then, guard-IsQuiet, fetch_leased-IsQuiet, running_execution-IsQuiet, from_rows)
        depth 16
    where
      from_rows :
          (e : Execution)
          → Triple
              (λ v. IsNumbered 1 (rows_of w v.rows))
              (fetch_history w >>= λ rows.
                decoded_history x rows >>= λ history. pure (state_of x w e history))
              (λ state _. IsInOrder 1 state.history)
      from_rows e = bind-Triple (fetch_history w) _ (fetch_history-IsNumbered w) (λ rows. record {
        run = λ s t state p q.
            let (history, u, first, last) =
              bind-eq-ok (decoded_history x rows s) (λ history. pure (state_of x w e history)) state
                t q in
            let ordered = (decoded_history-IsInOrder 1 rows p).run s u history tt first in
            let same : history ≡ state.history = ground arith in subst (IsInOrder 1) same ordered;
      })

-- In tables that requests, leases of tasks (where each row of the tasks stands under
-- its own identity, and once), and transactions that write neither executions nor events, lead to from
-- empty ones, a history that is loaded for replay has events that are numbered from 1 without a gap.
pub load_workflow_replay_state-numbered :
    (x : Session) (fl : Floats) (task_type : String) (id w token : ℕ) (s t : Store)
    (state : WorkflowReplayState)
    → IsReachable fl s
    → load_workflow_replay_state x task_type id w token s ≡ ok (state, t)
    → IsInOrder 1 state.history
load_workflow_replay_state-numbered x fl task_type id w token s t state q h =
    (load_workflow_replay_state-IsInOrder x task_type id w token).run s t state
      ((reachable-IsSequenced fl s q).numbered w) h
