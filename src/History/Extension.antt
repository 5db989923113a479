-- ===== src/History/Extension.antt =====
-- engine/runtime/history.py: the index of a history against the index of a longer one.
use mathlib.Core.List.{append_assoc, append-nil}
use durable_workflow_engine.Base.{
  ℕ, ◌≤◌, All, Bool, List, Option, ◌≡◌, ◌<◌, some, none, ◌++◌, arith, nat_eq, nat_eqb_iff, [], ◌==◌,
  Option-cases, ok, false, sym, All-append, ok-injective, All-map, ◌∷◌, >>=-eq-ok, string_eq, true,
  inl, inr, refl, ◌>>=◌, Result, ◌∙◌, err, if◌then◌else◌, eq_of_some,
}
use durable_workflow_engine.Base.Dict.{Dict, lookup, lookup-insert}
use durable_workflow_engine.History.{
  HistoryEvent, Indexes, add_event, add_events, empty_index, index_history, HistoryIndex,
  InvalidHistory,
}
use durable_workflow_engine.History.Effects.{
  noted, IsFresh, appended, advance, IsAccepted, add_event_lem, ends_timer, schedules,
  ends_activity, ends_child, ends_workflow,
}

-- What one dictionary has, the other has too.
abbrev pub Keeps : Dict ℕ HistoryEvent → Dict ℕ HistoryEvent → Type 0
Keeps m n = (k : ℕ) (e : HistoryEvent) → lookup k m ≡ some e → lookup k n ≡ some e

abbrev pub IsAfter : ℕ → List HistoryEvent → Type 0
IsAfter n = All (λ e. n < e.seq)

-- What the other dictionary has more came later.
abbrev pub HasNew : ℕ → Dict ℕ HistoryEvent → Dict ℕ HistoryEvent → Type 0
HasNew n m m' = (u : ℕ) (t : HistoryEvent) → lookup u m ≡ none → lookup u m' ≡ some t → n < t.seq

-- The same for an event that may be there.
abbrev pub KeepsOne : Option HistoryEvent → Option HistoryEvent → Type 0
KeepsOne o o' = (e : HistoryEvent) → o ≡ some e → o' ≡ some e

abbrev pub HasNewOne : ℕ → Option HistoryEvent → Option HistoryEvent → Type 0
HasNewOne n o o' = (e : HistoryEvent) → o ≡ none → o' ≡ some e → n < e.seq

-- `j` knows all that `i` knows, and what it has learnt since came later.
pub record Extends (i j : Indexes) : Type 0 where
  pub later : i.previous_seq ≤ j.previous_seq
  pub scheduled : Keeps i.scheduled j.scheduled
  pub activity : Keeps i.activity_terminal j.activity_terminal
  pub timer : Keeps i.timer_terminal j.timer_terminal
  pub child : Keeps i.child_terminal j.child_terminal
  pub entities : Keeps i.scheduled_entities j.scheduled_entities
  pub scheduled_new : HasNew i.previous_seq i.scheduled j.scheduled
  pub entities_new : HasNew i.previous_seq i.scheduled_entities j.scheduled_entities
  pub activity_new : HasNew i.previous_seq i.activity_terminal j.activity_terminal
  pub timer_new : HasNew i.previous_seq i.timer_terminal j.timer_terminal
  pub child_new : HasNew i.previous_seq i.child_terminal j.child_terminal
  pub cancellation : KeepsOne i.cancellation_requested j.cancellation_requested
  pub cancellation_new : HasNewOne i.previous_seq i.cancellation_requested j.cancellation_requested
  pub terminal : KeepsOne i.workflow_terminal j.workflow_terminal
  pub terminal_new : HasNewOne i.previous_seq i.workflow_terminal j.workflow_terminal
  pub new_signals : List HistoryEvent
  pub signals : j.signals ≡ i.signals ++ new_signals
  pub signals_after : IsAfter i.previous_seq new_signals
  pub new_updates : List HistoryEvent
  pub updates : j.updates ≡ i.updates ++ new_updates
  pub updates_after : IsAfter i.previous_seq new_updates

-- The events that replay compares by their numbers are not beyond the last one read.
pub record IsBounded (i : Indexes) : Type 0 where
  pub signals : All (λ s. s.seq ≤ i.previous_seq) i.signals
  pub timers :
      (u : ℕ) (t : HistoryEvent) → lookup u i.timer_terminal ≡ some t → t.seq ≤ i.previous_seq

pub noted-Keeps :
    (b : Bool) (k : Option ℕ) (e : HistoryEvent) (m : Dict ℕ HistoryEvent)
    → IsFresh b k m
    → Keeps m (noted b k e m)
noted-Keeps false k e m f = λ j v h. h
noted-Keeps true none e m f = λ j v h. h
noted-Keeps true (some k) e m f = λ j v h. ground (arith, lookup-insert k j e m, nat_eqb_iff k j)

noted_new :
    (b : Bool) (k : Option ℕ) (e : HistoryEvent) (m : Dict ℕ HistoryEvent) (u : ℕ)
    (t : HistoryEvent)
    → lookup u m ≡ none
    → lookup u (noted b k e m) ≡ some t
    → t ≡ e
noted_new false k e m u t p q = cc
noted_new true none e m u t p q = cc
noted_new true (some k) e m u t p q = ground (arith, lookup-insert k u e m, nat_eqb_iff k u)

module _ (i : Indexes) (e : HistoryEvent) (a : IsAccepted i e) where
  advance_new :
      (b : Bool) (k : Option ℕ) (m : Dict ℕ HistoryEvent) → HasNew i.previous_seq m (noted b k e m)
  advance_new b k m u t p q =
      let same = noted_new b k e m u t p q in rw same (omega (arith, a.in_order))

  advance_kept :
      (b : Bool) (o : Option HistoryEvent)
      → (b ≡ true → o ≡ none)
      → KeepsOne o (if b then some e else o)
  advance_kept true o f d h = let none_there = f refl in cc
  advance_kept false o f d h = h

  advance_one :
      (b : Bool) (o : Option HistoryEvent) → HasNewOne i.previous_seq o (if b then some e else o)
  advance_one true o d p q =
      let same : e ≡ d = eq_of_some q in rw (← same) (omega (arith, a.in_order))
  advance_one false o d p q = cc

  appended_lem :
      (b : Bool) (es : List HistoryEvent)
      → (new : List HistoryEvent) × (appended b e es ≡ es ++ new) × IsAfter i.previous_seq new
  appended_lem false es = ([], sym (append-nil es), tt)
  appended_lem true es = (e ∷ [], refl, (omega (arith, a.in_order), tt))

  advance-Extends : Extends i (advance i e)
  unfolding advance
  advance-Extends =
      let (ss, s, after) = appended_lem (e.event_type == "SignalReceived") i.signals in
      let (us, u, later) = appended_lem (e.event_type == "WorkflowUpdateReceived") i.updates in
      record {
        later = omega (arith, a.in_order);
        scheduled = noted-Keeps (schedules e) e.command_id e i.scheduled a.new_command;
        activity = noted-Keeps (ends_activity e) e.entity_id e i.activity_terminal a.new_activity;
        timer = noted-Keeps (ends_timer e) e.entity_id e i.timer_terminal a.new_timer;
        child = noted-Keeps (ends_child e) e.entity_id e i.child_terminal a.new_child;
        entities = noted-Keeps (schedules e) e.entity_id e i.scheduled_entities a.new_entity;
        scheduled_new = advance_new (schedules e) e.command_id i.scheduled;
        entities_new = advance_new (schedules e) e.entity_id i.scheduled_entities;
        activity_new = advance_new (ends_activity e) e.entity_id i.activity_terminal;
        timer_new = advance_new (ends_timer e) e.entity_id i.timer_terminal;
        child_new = advance_new (ends_child e) e.entity_id i.child_terminal;
        cancellation = advance_kept _ i.cancellation_requested a.first_cancellation;
        cancellation_new = advance_one _ i.cancellation_requested;
        terminal = advance_kept (ends_workflow e) i.workflow_terminal (λ _. a.still_open);
        terminal_new = advance_one (ends_workflow e) i.workflow_terminal;
        new_signals = ss;
        signals = s;
        signals_after = after;
        new_updates = us;
        updates = u;
        updates_after = later;
      }

Extends-refl : (i : Indexes) → Extends i i
Extends-refl i = record {
  later = omega arith;
  scheduled = λ k e h. h;
  activity = λ k e h. h;
  timer = λ k e h. h;
  child = λ k e h. h;
  entities = λ k e h. h;
  scheduled_new = λ u t p q. cc;
  entities_new = λ u t p q. cc;
  activity_new = λ u t p q. cc;
  timer_new = λ u t p q. cc;
  child_new = λ u t p q. cc;
  cancellation = λ e h. h;
  cancellation_new = λ e p q. cc;
  terminal = λ e h. h;
  terminal_new = λ e p q. cc;
  new_signals = [];
  signals = sym (append-nil i.signals);
  signals_after = tt;
  new_updates = [];
  updates = sym (append-nil i.updates);
  updates_after = tt;
}

module _ (i j k : Indexes) (x : Extends i j) (y : Extends j k) where
  trans_new :
      (m n o : Dict ℕ HistoryEvent)
      → HasNew i.previous_seq m n
      → Keeps n o
      → HasNew j.previous_seq n o
      → HasNew i.previous_seq m o
  trans_new m n o f kept g u t p q = elim (Option-cases (lookup u n)) [
    | inl unknown ↦ omega (arith, g u t unknown q, x.later)
    | inr (t', known) ↦ let same : t' ≡ t = cc (kept u t' known) in rw (← same) (f u t' p known)
  ]

  trans_one :
      (m n o : Option HistoryEvent)
      → HasNewOne i.previous_seq m n
      → KeepsOne n o
      → HasNewOne j.previous_seq n o
      → HasNewOne i.previous_seq m o
  trans_one m n o f kept g t p q = elim (Option-cases n) [
    | inl unknown ↦ omega (arith, g t unknown q, x.later)
    | inr (t', known) ↦ let same : t' ≡ t = cc (kept t' known) in rw (← same) (f t' p known)
  ]

  Extends-trans : Extends i k
  Extends-trans = record {
    later = omega (arith, x.later, y.later);
    scheduled = λ c e h. y.scheduled c e (x.scheduled c e h);
    activity = λ c e h. y.activity c e (x.activity c e h);
    timer = λ c e h. y.timer c e (x.timer c e h);
    child = λ c e h. y.child c e (x.child c e h);
    entities = λ c e h. y.entities c e (x.entities c e h);
    scheduled_new = trans_new _ _ _ x.scheduled_new y.scheduled y.scheduled_new;
    entities_new = trans_new _ _ _ x.entities_new y.entities y.entities_new;
    activity_new = trans_new _ _ _ x.activity_new y.activity y.activity_new;
    timer_new = trans_new _ _ _ x.timer_new y.timer y.timer_new;
    child_new = trans_new _ _ _ x.child_new y.child y.child_new;
    cancellation = λ e h. y.cancellation e (x.cancellation e h);
    cancellation_new = trans_one _ _ _ x.cancellation_new y.cancellation y.cancellation_new;
    terminal = λ e h. y.terminal e (x.terminal e h);
    terminal_new = trans_one _ _ _ x.terminal_new y.terminal y.terminal_new;
    new_signals = x.new_signals ++ y.new_signals;
    signals = rw (y.signals, x.signals) (append_assoc i.signals x.new_signals y.new_signals);
    signals_after =
        All-append (λ e. i.previous_seq < e.seq) x.new_signals y.new_signals x.signals_after
          (All-map _ _ y.new_signals (λ e h. omega (arith, x.later)) y.signals_after);
    new_updates = x.new_updates ++ y.new_updates;
    updates = rw (y.updates, x.updates) (append_assoc i.updates x.new_updates y.new_updates);
    updates_after =
        All-append (λ e. i.previous_seq < e.seq) x.new_updates y.new_updates x.updates_after
          (All-map _ _ y.new_updates (λ e h. omega (arith, x.later)) y.updates_after);
  }

pub add_events-Extends :
    (es : List HistoryEvent) (i j : Indexes) → add_events i es ≡ ok j → Extends i j
unfolding add_events
add_events-Extends [] i j h = rw (← ok-injective h) (Extends-refl i)
add_events-Extends (e ∷ es) i j h =
    let (m, first, rest) = >>=-eq-ok (add_event i e) _ h in
    let (a, same) = add_event_lem i e m first in
    Extends-trans i m j (rw same (advance-Extends i e a)) (add_events-Extends es m j rest)

-- Adding events in two parts.
pub add_events-append :
    (es fs : List HistoryEvent) (i : Indexes)
    → add_events i (es ++ fs) ≡ (add_events i es >>= λ j. add_events j fs)
unfolding add_events
add_events-append [] fs i = refl
add_events-append (e ∷ es) fs i = after_first (add_event i e) (λ j. add_events-append es fs j)
  where
    after_first :
        (r : Result InvalidHistory Indexes)
        → ((j : Indexes) → add_events j (es ++ fs) ≡ (add_events j es >>= λ k. add_events k fs))
        → (r >>= λ j. add_events j (es ++ fs))
          ≡ ((r >>= λ j. add_events j es) >>= λ j. add_events j fs)
    after_first (ok j) step = step j
    after_first (err x) step = refl

bounded_signals :
    (b : Bool) (e : HistoryEvent) (n : ℕ) (es : List HistoryEvent)
    → n ≤ e.seq
    → All (λ s. s.seq ≤ n) es
    → All (λ s. s.seq ≤ e.seq) (appended b e es)
bounded_signals false e n es le h = All-map _ _ es (λ s k. omega arith) h
bounded_signals true e n es le h =
    All-append (λ s. s.seq ≤ e.seq) es (e ∷ []) (All-map _ _ es (λ s k. omega arith) h)
      (omega arith, tt)

advance-IsBounded :
    (i : Indexes) (e : HistoryEvent) → IsAccepted i e → IsBounded i → IsBounded (advance i e)
unfolding advance
advance-IsBounded i e a b = record {
  signals = bounded_signals _ e i.previous_seq i.signals (omega (arith, a.in_order)) b.signals;
  timers = λ u t h. elim (Option-cases (lookup u i.timer_terminal)) [
    | inl p ↦
        let same = noted_new (ends_timer e) e.entity_id e i.timer_terminal u t p h in
        rw same (omega arith)
    | inr (t', p) ↦
        let kept = noted-Keeps (ends_timer e) e.entity_id e i.timer_terminal a.new_timer u t' p in
        let same : t ≡ t' = cc in rw same (omega (arith, a.in_order, b.timers u t' p))
  ];
}

pub add_events-IsBounded :
    (es : List HistoryEvent) (i j : Indexes) → add_events i es ≡ ok j → IsBounded i → IsBounded j
unfolding add_events
add_events-IsBounded [] i j h b = rw (← ok-injective h) b
add_events-IsBounded (e ∷ es) i j h b =
    let (m, first, rest) = >>=-eq-ok (add_event i e) _ h in
    let (a, same) = add_event_lem i e m first in
    add_events-IsBounded es m j rest (rw same (advance-IsBounded i e a b))

empty-IsBounded : IsBounded empty_index
unfolding lookup
empty-IsBounded = record { signals = tt; timers = λ u t h. cc }

-- An index that a history has given.
pub index_history-add_events :
    (es : List HistoryEvent) (x : HistoryIndex)
    → index_history es ≡ ok x
    → (x.events ≡ es) × (add_events empty_index es ≡ ok x.indexes)
unfolding index_history
index_history-add_events [] x h = cc
index_history-add_events (e ∷ es) x h = ground arith

pub index_history-IsBounded :
    (es : List HistoryEvent) (x : HistoryIndex) → index_history es ≡ ok x → IsBounded x.indexes
index_history-IsBounded es x h =
    add_events-IsBounded es empty_index x.indexes (index_history-add_events es x h).1
      empty-IsBounded

-- The rest of a longer history, from the index of the shorter one.
pub index_history-rest :
    (es fs : List HistoryEvent) (x y : HistoryIndex)
    → index_history es ≡ ok x
    → index_history (es ++ fs) ≡ ok y
    → add_events x.indexes fs ≡ ok y.indexes
index_history-rest es fs x y h k =
    let whole = (index_history-add_events (es ++ fs) y k).1 in
    let part = (index_history-add_events es x h).1 in
    sym (rw part at (add_events-append es fs empty_index)) ∙ whole

-- Whatever the index of a history holds (the commands and entities scheduled, the ends of activities,
-- timers and children, the signals, the updates, the cancellation request and the end of the workflow),
-- the index of every longer history that is accepted holds too, the signals and updates in the same order
-- and first; and whatever the longer one adds to any of these has a higher number than the last event of
-- the shorter one.
pub index_history-Extends :
    (es fs : List HistoryEvent) (x y : HistoryIndex)
    → index_history es ≡ ok x
    → index_history (es ++ fs) ≡ ok y
    → Extends x.indexes y.indexes
index_history-Extends es fs x y h k =
    add_events-Extends fs x.indexes y.indexes (index_history-rest es fs x y h k)
