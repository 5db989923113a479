-- ===== src/History/Order.antt =====
-- engine/runtime/history.py: how the events of an accepted history are numbered and how it ends.
use durable_workflow_engine.Base.{
  List, ◌≡◌, ◌++◌, ok, ◌∷◌, ℕ, some, true, get_elem?, [], ◌+◌, >>=-eq-ok, ◌==◌, arith, sym, ◌↔◌,
  refl, suc, string_eq, ap, ◌∙◌, zero,
}
use durable_workflow_engine.History.{
  HistoryEvent, Indexes, HistoryIndex, add_event, add_events, index_history, empty_index,
}
use durable_workflow_engine.History.Effects.{advance, add_event_lem, ends_workflow, IsFirstStart}
use durable_workflow_engine.History.Extension.{index_history-add_events, add_events-append}

add_events-seq :
    (es : List HistoryEvent) (i j : Indexes)
    → add_events i es ≡ ok j
    → (k : ℕ) (e : HistoryEvent) → get_elem? es k ≡ some e
    → e.seq ≡ i.previous_seq + k + 1
unfolding add_events
add_events-seq [] i j h k e p = cc
add_events-seq (x ∷ es) i j h zero e p =
    let (m, first, rest) = >>=-eq-ok (add_event i x) _ h in
    let (a, same) = add_event_lem i x m first in ground (arith, a.in_order)
add_events-seq (x ∷ es) i j h (suc k) e p =
    let (m, first, rest) = >>=-eq-ok (add_event i x) _ h in
    let (a, same) = add_event_lem i x m first in
    let after : m.previous_seq ≡ x.seq =
      unfold advance in ap (λ (n : Indexes). n.previous_seq) same in
    omega (arith, add_events-seq es m j rest k e p, after, a.in_order)

-- The event at place k (from 0) of an accepted history has the number k + 1.
pub index_history-seq :
    (es : List HistoryEvent) (x : HistoryIndex)
    → index_history es ≡ ok x
    → (k : ℕ) (e : HistoryEvent) → get_elem? es k ≡ some e
    → e.seq ≡ k + 1
index_history-seq es x h k e p =
    omega (arith, add_events-seq es empty_index x.indexes (index_history-add_events es x h).1 k e p)

add_events-closed :
    (es : List HistoryEvent) (i j : Indexes) (t : HistoryEvent)
    → add_events i es ≡ ok j
    → i.workflow_terminal ≡ some t
    → es ≡ []
unfolding add_events
add_events-closed [] i j t h p = refl
add_events-closed (x ∷ es) i j t h p =
    let (m, first, rest) = >>=-eq-ok (add_event i x) _ h in
    let open_still = (add_event_lem i x m first).0.still_open in cc

-- Nothing stands after an event that closes the execution.
pub index_history-terminal_last :
    (es fs : List HistoryEvent) (t : HistoryEvent) (x : HistoryIndex)
    → index_history (es ++ t ∷ fs) ≡ ok x
    → ends_workflow t ≡ true
    → fs ≡ []
unfolding add_events advance
index_history-terminal_last es fs t x h closes =
    let whole = (index_history-add_events (es ++ t ∷ fs) x h).1 in
    let (i, _, rest) =
      >>=-eq-ok (add_events empty_index es) _
        (sym (add_events-append es (t ∷ fs) empty_index) ∙ whole) in
    let (m, first, last) = >>=-eq-ok (add_event i t) _ rest in
    let same = (add_event_lem i t m first).1 in
    add_events-closed fs m x.indexes t last
      (ap (λ (n : Indexes). n.workflow_terminal) same ∙ rw closes)

add_events-IsFirstStart :
    (es : List HistoryEvent) (i j : Indexes)
    → add_events i es ≡ ok j
    → (k : ℕ) (e : HistoryEvent) → get_elem? es k ≡ some e
    → IsFirstStart e
unfolding add_events
add_events-IsFirstStart [] i j h k e p = cc
add_events-IsFirstStart (x ∷ es) i j h zero e p =
    let (m, first, rest) = >>=-eq-ok (add_event i x) _ h in
    let same : x ≡ e = cc in rw same at ((add_event_lem i x m first).0.first_start)
add_events-IsFirstStart (x ∷ es) i j h (suc k) e p =
    let (m, first, rest) = >>=-eq-ok (add_event i x) _ h in
    add_events-IsFirstStart es m j rest k e p

starts_history :
    (es : List HistoryEvent) (x : HistoryIndex) (e : HistoryEvent)
    → index_history es ≡ ok x
    → get_elem? es 0 ≡ some e
    → (e.event_type == "WorkflowExecutionStarted") ≡ true
unfolding index_history
starts_history [] x e h p = cc
starts_history (f ∷ es) x e h p = ground arith

-- The event that starts the execution is the first one, and no other event starts it.
pub index_history-started_once :
    (es : List HistoryEvent) (x : HistoryIndex)
    → index_history es ≡ ok x
    → (k : ℕ) (e : HistoryEvent) → get_elem? es k ≡ some e
    → ((e.event_type == "WorkflowExecutionStarted") ≡ true) ↔ (k ≡ 0)
index_history-started_once es x h k e p = (
  λ starts.
      let first =
        add_events-IsFirstStart es empty_index x.indexes (index_history-add_events es x h).1 k e p
          starts in
      omega (arith, index_history-seq es x h k e p),
  λ zeroth. starts_history es x e h (rw zeroth at p),
)
