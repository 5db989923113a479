-- ===== src/History/Cancellation.antt =====
-- engine/runtime/history.py: the cancellation request of an index against the events.
use mathlib.Core.Bool.{false≢true}
use durable_workflow_engine.History.Extension.{
  index_history-add_events, index_history-rest, add_events-Extends,
}
use durable_workflow_engine.History.Effects.{advance, add_event_lem}
use durable_workflow_engine.Base.{
  List, Bool, ◌==◌, false, ◌||◌, ◌∷◌, ◌≡◌, string_eq, arith, ok, [], ok-injective, none, true, ◌++◌,
  >>=-eq-ok, some, ◌∙◌, Bool-cases, inl, refl, inr,
}
use durable_workflow_engine.History.{
  HistoryEvent, add_events, HistoryIndex, Indexes, index_history, empty_index, add_event,
}

abbrev pub is_cancellation : HistoryEvent → Bool
is_cancellation e = e.event_type == "WorkflowCancellationRequested"

abbrev pub requests_cancellation : List HistoryEvent → Bool
requests_cancellation [] = false
requests_cancellation (e ∷ es) = is_cancellation e || requests_cancellation es

not_either : (a b : Bool) → (a || b) ≡ false → (a ≡ false) × (b ≡ false)
not_either a b h = ground arith

not_cancelled :
    (es : List HistoryEvent) (i j : Indexes)
    → add_events i es ≡ ok j
    → requests_cancellation es ≡ false
    → j.cancellation_requested ≡ i.cancellation_requested
unfolding add_events advance
not_cancelled [] i j h f = rw (← ok-injective h) refl
not_cancelled (e ∷ es) i j h f =
    let (here, later) = not_either (is_cancellation e) (requests_cancellation es) f in
    let (m, first, rest) = >>=-eq-ok (add_event i e) _ h in
    let (a, same) = add_event_lem i e m first in
    let kept : m.cancellation_requested ≡ i.cancellation_requested = rw (same, here) refl in
    not_cancelled es m j rest later ∙ kept

-- Without a request among the events, the index has none.
pub index_history-not_cancelled :
    (es : List HistoryEvent) (x : HistoryIndex)
    → index_history es ≡ ok x
    → requests_cancellation es ≡ false
    → x.cancellation_requested ≡ none
index_history-not_cancelled es x h f =
    not_cancelled es empty_index x.indexes (index_history-add_events es x h).1 f

cancelled_at :
    (es : List HistoryEvent) (i j : Indexes)
    → add_events i es ≡ ok j
    → requests_cancellation es ≡ true
    → (r : HistoryEvent) × (j.cancellation_requested ≡ some r)
unfolding add_events advance
cancelled_at [] i j h f = absurd (false≢true f)
cancelled_at (e ∷ es) i j h f =
    let (m, first, rest) = >>=-eq-ok (add_event i e) _ h in
    let (a, same) = add_event_lem i e m first in
    elim (Bool-cases (is_cancellation e)) [
      | inl b ↦
          let noted : m.cancellation_requested ≡ some e = rw (same, b) refl in
          (e, (add_events-Extends es m j rest).cancellation e noted)
      | inr b ↦ cancelled_at es m j rest (rw b at f)
    ]

-- With a request among the later events, the index has one.
pub index_history-cancelled :
    (es fs : List HistoryEvent) (x y : HistoryIndex)
    → index_history es ≡ ok x
    → index_history (es ++ fs) ≡ ok y
    → requests_cancellation fs ≡ true
    → (r : HistoryEvent) × (y.cancellation_requested ≡ some r)
index_history-cancelled es fs x y h k f =
    cancelled_at fs x.indexes y.indexes (index_history-rest es fs x y h k) f
