-- ===== src/Debugger/Balance.antt =====
-- engine/runtime/replay_debugger.py: what the frames of an accepted history count.
use durable_workflow_engine.History.Extension.{index_history-add_events, noted-Keeps}
use durable_workflow_engine.Base.Keys.{
  AllKeys, lookup-AllKeys, AllKeys-map, length-erase, length-insert_old, length-insert_new,
  erase-AllKeys, insert-AllKeys,
}
use durable_workflow_engine.Debugger.{schedule_kinds, ActiveEntity, terminal_entity_events}
use durable_workflow_engine.History.Effects.{
  schedules, needs_entity, advance, IsAccepted, add_event_lem, IsFresh, noted,
}
use durable_workflow_engine.Base.{
  ℕ, ◌≡◌, arith, String, length, false, ◌+◌, some, none, contains, Option-cases, nat_eq, inl, ◌⊎◌,
  inr, true, string_eq, Bool, List, nat_eqb_iff, Option, ok, refl, Bool-cases, All, ◌==◌, ◌∷◌,
  >>=-eq-ok, [], eq_of_some,
}
use durable_workflow_engine.Base.Dict.{lookup, lookup-insert, insert, Dict}
use durable_workflow_engine.History.{
  HistoryEvent, Indexes, add_events, HistoryIndex, index_history, is_final, empty_index, add_event,
}
use durable_workflow_engine.Debugger.Frames.{
  Trace, immediate_event_types, note_started, note_outcome, note_status, trace_event,
  build_replay_trace, count_command, settled_entity, note_external, trace_events, frame,
  empty_trace, waiting_entity,
}

-- The trace counts each command once: as an entity that waits, as a success or as a failure.
abbrev pub IsBalanced : Trace → Type 0
IsBalanced t = t.commands ≡ length t.entities + t.succeeded + t.failed

-- What the tests on the type of an event say together.
abbrev TypeCases : HistoryEvent → Type 0
TypeCases e =
    ((schedules e ≡ false)
      × (lookup e.event_type schedule_kinds ≡ none)
      × (contains immediate_event_types e.event_type ≡ false))
    ⊎ ((schedules e ≡ true)
        × (lookup e.event_type schedule_kinds ≡ none)
        × (contains immediate_event_types e.event_type ≡ true))
    ⊎ ((kind : String) × (schedules e ≡ true)
        × (needs_entity e ≡ true)
        × (lookup e.event_type schedule_kinds ≡ some kind))

type_cases : (e : HistoryEvent) → TypeCases e
unfolding lookup
type_cases e = ground arith

module _ (text : ℕ → String) (distinct : (u w : ℕ) → text u ≡ text w → u ≡ w) where
  -- The key names an entity that the index has.
  abbrev IsKnown : Indexes → String → Type 0
  IsKnown i key =
      (u : ℕ) × (s : HistoryEvent) × (text u ≡ key) × (lookup u i.scheduled_entities ≡ some s)

  abbrev IsTracked : Indexes → Trace → Type 0
  IsTracked i t = AllKeys (IsKnown i) t.entities

  new_key :
      (i : Indexes) (t : Trace) (u : ℕ)
      → IsTracked i t
      → lookup u i.scheduled_entities ≡ none
      → lookup (text u) t.entities ≡ none
  new_key i t u tracked h = elim (Option-cases (lookup (text u) t.entities)) [
    | inl e ↦ e
    | inr (a, e) ↦
        let (w, s, same, found) = lookup-AllKeys (IsKnown i) (text u) a t.entities tracked e in
        let here : w ≡ u = distinct w u same in absurd (cc)
  ]

  none_before :
      (b : Bool) (k : Option ℕ) (d : Dict ℕ HistoryEvent) (u : ℕ)
      → b ≡ true
      → k ≡ some u
      → IsFresh b k d
      → lookup u d ≡ none
  none_before false k d u h p f = cc
  none_before true none d u h p f = cc
  none_before true (some w) d u h p f = rw (eq_of_some p) at f

  stays-IsKnown :
      (i : Indexes) (e : HistoryEvent)
      → IsAccepted i e
      → (key : String) → IsKnown i key
      → IsKnown (advance i e) key
  unfolding advance
  stays-IsKnown i e a key (u, s, same, found) = (
    u,
    s,
    same,
    noted-Keeps (schedules e) e.entity_id e i.scheduled_entities a.new_entity u s found,
  )

  lookup-noted :
      (b : Bool) (k : Option ℕ) (e : HistoryEvent) (d : Dict ℕ HistoryEvent) (u : ℕ)
      → b ≡ true
      → k ≡ some u
      → lookup u (noted b k e d) ≡ some e
  lookup-noted false k e d u h p = cc
  lookup-noted true none e d u h p = cc
  lookup-noted true (some w) e d u h p = ground (arith, lookup-insert w u e d, nat_eqb_iff w u)

  started-IsKnown :
      (i : Indexes) (e : HistoryEvent) (u : ℕ)
      → schedules e ≡ true
      → e.entity_id ≡ some u
      → IsKnown (advance i e) (text u)
  unfolding advance
  started-IsKnown i e u s h =
      (u, e, refl, lookup-noted (schedules e) e.entity_id e i.scheduled_entities u s h)

  abbrev IsGood : Indexes → Trace → Type 0
  IsGood i t = IsBalanced t × IsTracked i t

  started-IsGood :
      (i : Indexes) (e : HistoryEvent) (t : Trace)
      → IsAccepted i e
      → IsGood i t
      → IsGood (advance i e) (note_started text e (count_command e t))
  unfolding note_started count_command
  started-IsGood i e t a (b, tracked) =
      let kept =
        AllKeys-map (IsKnown i) (IsKnown (advance i e)) t.entities (stays-IsKnown i e a) tracked in
      elim (type_cases e) [
        | inl (s, k, m) ↦
            let same : note_started text e (count_command e t) ≡ t = ground arith in
            rw same (b, kept)
        | inr (inl (s, k, m)) ↦
            let same : note_started text e (count_command e t)
                ≡ record t { commands = t.commands + 1; succeeded = t.succeeded + 1 } =
              ground arith in
            rw same (omega (arith, b), kept)
        | inr (inr (kind, s, n, k)) ↦
            let (u, h) = rw n at a.has_entity in
            let fresh =
              none_before (schedules e) e.entity_id i.scheduled_entities u s h a.new_entity in
            let new = new_key i t u tracked fresh in
            let same : note_started text e (count_command e t) ≡ record t {
              commands = t.commands + 1;
              entities = insert (text u) (waiting_entity text e kind u) t.entities;
            } =
              ground arith in
            rw same (
              omega (
                arith,
                b,
                length-insert_new (text u) (waiting_entity text e kind u) t.entities new,
              ),
              insert-AllKeys (IsKnown (advance i e)) (text u) _ t.entities
                  (started-IsKnown i e u s h) kept,
            )
      ]

  settled-IsGood :
      (i : Indexes) (t : Trace) (key status : String) (a : ActiveEntity)
      → lookup key t.entities ≡ some a
      → IsGood i t
      → IsGood i (settled_entity key status t)
  settled-IsGood i t key status a h (b, tracked) =
      let less = length-erase key a t.entities h in
      let left = erase-AllKeys (IsKnown i) key t.entities tracked in
      elim (Bool-cases (status == "succeeded")) [
        | inl s ↦ rw s (omega (arith, b, less), left)
        | inr s ↦ rw s (omega (arith, b, less), left)
      ]

  retried-IsGood :
      (i : Indexes) (t : Trace) (key : String) (a new : ActiveEntity)
      → lookup key t.entities ≡ some a
      → IsGood i t
      → IsGood i (record t { entities = insert key new t.entities })
  retried-IsGood i t key a new h (b, tracked) = (
    omega (arith, b, length-insert_old key new a t.entities h),
    insert-AllKeys (IsKnown i) key new t.entities
        (lookup-AllKeys (IsKnown i) key a t.entities tracked h) tracked,
  )

  abbrev OutcomeCases : HistoryEvent → Trace → Type 0
  OutcomeCases e t =
      ((note_outcome text e t).0 ≡ t)
      ⊎ ((u : ℕ) × (a : ActiveEntity) × (lookup (text u) t.entities ≡ some a)
          × (((status : String) × ((note_outcome text e t).0 ≡ settled_entity (text u) status t))
              ⊎ ((note_outcome text e t).0 ≡ record t {
                entities = insert (text u) (record a { status = "retrying" }) t.entities;
              })))

  outcome_cases : (e : HistoryEvent) (t : Trace) → OutcomeCases e t
  unfolding note_outcome
  outcome_cases e t = elim (Option-cases (lookup e.event_type terminal_entity_events)) [
    | inl k ↦ inl (ground arith)
    | inr (status, k) ↦ elim (Option-cases e.entity_id) [
      | inl n ↦ inl (ground arith)
      | inr (u, n) ↦ elim (Option-cases (lookup (text u) t.entities)) [
        | inl o ↦ inl (ground arith)
        | inr (a, o) ↦ elim (Bool-cases (is_final e)) [
          | inl f ↦ inr (u, a, o, inl (status, ground arith))
          | inr f ↦ inr (u, a, o, inr (ground arith))
        ]
      ]
    ]
  ]

  outcome-IsGood :
      (i : Indexes) (e : HistoryEvent) (t : Trace) → IsGood i t → IsGood i (note_outcome text e t).0
  outcome-IsGood i e t g = elim (outcome_cases e t) [
    | inl same ↦ rw same g
    | inr (u, a, h, inl (status, same)) ↦ rw same (settled-IsGood i t (text u) status a h g)
    | inr (u, a, h, inr same) ↦ rw same (retried-IsGood i t (text u) a _ h g)
  ]

  external-IsGood :
      (i : Indexes) (e : HistoryEvent) (t : Trace)
      → IsGood i t
      → IsGood i (note_status e (note_external e t))
  unfolding note_status note_external
  external-IsGood i e t g = ground arith

  event-IsGood :
      (i : Indexes) (e : HistoryEvent) (t : Trace)
      → IsAccepted i e
      → IsGood i t
      → IsGood (advance i e) (trace_event text e t).0
  unfolding trace_event
  event-IsGood i e t a g =
      external-IsGood (advance i e) e _
        (outcome-IsGood (advance i e) e _ (started-IsGood i e t a g))

  frames-IsBalanced :
      (es : List HistoryEvent) (n : ℕ) (i j : Indexes) (t : Trace)
      → add_events i es ≡ ok j
      → IsGood i t
      → All
          (λ f.
            f.snapshot.commands
            ≡ f.snapshot.waiting_entities + f.snapshot.succeeded_entities
              + f.snapshot.failed_entities)
          (trace_events text n es t)
  unfolding add_events trace_events frame
  frames-IsBalanced [] n i j t h g = tt
  frames-IsBalanced (e ∷ es) n i j t h g =
      let (m, first, rest) = >>=-eq-ok (add_event i e) _ h in
      let (a, same) = add_event_lem i e m first in
      let now = event-IsGood i e t a g in
      (now.0, frames-IsBalanced es (n + 1) m j _ rest (rw same now))

  -- If distinct entities have distinct texts: in every frame of an accepted history the commands so
  -- far are as many as the entities that wait, those that succeeded and those that failed together.
  pub build_replay_trace-balanced :
      (es : List HistoryEvent) (x : HistoryIndex)
      → index_history es ≡ ok x
      → All
          (λ f.
            f.snapshot.commands
            ≡ f.snapshot.waiting_entities + f.snapshot.succeeded_entities
              + f.snapshot.failed_entities)
          (build_replay_trace text es)
  unfolding build_replay_trace
  build_replay_trace-balanced es x h =
      frames-IsBalanced es 0 empty_index x.indexes empty_trace (index_history-add_events es x h).1
        (refl, tt)
