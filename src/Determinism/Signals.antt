-- ===== src/Determinism/Signals.antt =====
-- engine/sdk/context.py: the waits for signals and updates. Both read the first matching event of a
-- list that only grows at its end; a signal also races a timer.
use durable_workflow_engine.Commands.{schedule_timer}
use durable_workflow_engine.Base.Dict.{lookup}
use mathlib.Core.Path.{subst, fun_ext}
use durable_workflow_engine.Json.{Json, float_is_negative}
use durable_workflow_engine.Base.Int.{ℤ}
use durable_workflow_engine.Context.{
  if_none, raise, blocked, modify, WorkflowContext, M, ◌>>◌, guard, non_determinism, value_error,
  expected, ◌>>=◌, has_fingerprint, take_command_id, changed, recorded_entity, serialized,
  recorded_or, new_commands, entity_uuid,
}
use durable_workflow_engine.Determinism.{
  IsStable, look_keeps, look_stays, stability, if-IsStable, raise-IsStable, is_settled, Longer,
  new_commands-Waits, with_history,
}
use durable_workflow_engine.History.{HistoryEvent, HistoryIndex}
use durable_workflow_engine.Base.{
  String, List, ℕ, ◌≡◌, some, none, ◌++◌, All, ◌∷◌, arith, Bool-cases, refl, [], inl, inr,
  eq_of_some, Option, ◌≤◌, ◌<◌, true, ltb, false, sym, ◌∙◌, nat_eq, ◌==◌, not, string_eq,
}
use durable_workflow_engine.Platform.{Platform, fingerprint}
use durable_workflow_engine.Context.Signal.{
  first_matching, consume_signal, is_candidate, race, timed_out, wait_signal, resolve_signal,
  signal_identity,
}

-- What is found stays found when the list grows.
pub first_matching-append :
    (name : String) (consumed : List ℕ) (es fs : List HistoryEvent) (e : HistoryEvent)
    → first_matching name consumed es ≡ some e
    → first_matching name consumed (es ++ fs) ≡ some e
unfolding first_matching
first_matching-append name consumed [] fs e h = cc
first_matching-append name consumed (x ∷ es) fs e h =
    ground (arith, first_matching-append name consumed es fs e)

-- What is found satisfies what all events of the list satisfy.
first_matching-All {ℓ} :
    (P : HistoryEvent → Type ℓ) (name : String) (consumed : List ℕ) (es : List HistoryEvent)
    (e : HistoryEvent)
    → first_matching name consumed es ≡ some e
    → All P es
    → P e
unfolding first_matching
first_matching-All P name consumed [] e h all = cc
first_matching-All P name consumed (x ∷ es) e h all =
    elim (Bool-cases (is_candidate name consumed x)) [
      | inl hit ↦ let same : x ≡ e = eq_of_some (rw hit at h) in rw same at (all.0)
      | inr miss ↦ first_matching-All P name consumed es e (rw miss at h) all.1
    ]

-- What is found only in the longer list is one of the new events.
first_matching_new :
    (name : String) (consumed : List ℕ) (es fs : List HistoryEvent)
    → first_matching name consumed es ≡ none
    → first_matching name consumed (es ++ fs) ≡ first_matching name consumed fs
unfolding first_matching
first_matching_new name consumed [] fs h = refl
first_matching_new name consumed (x ∷ es) fs h =
    ground (arith, first_matching_new name consumed es fs)

module _ (p : Platform) where
  mark_signal-IsStable :
      (n : ℕ)
      → IsStable (modify (λ c. record c { consumed_signal_seqs = n ∷ c.consumed_signal_seqs }))
  mark_signal-IsStable n = record { keeps = λ c. refl; stays = λ c y l h. refl }

  consume_signal-IsStable : (e : HistoryEvent) → IsStable (consume_signal p e)
  unfolding consume_signal
  consume_signal-IsStable e = search (stability, mark_signal-IsStable)

  next_signal-IsStable :
      (name : String)
      → IsStable (λ c.
        if_none
          (first_matching name c.consumed_signal_seqs c.history.signals)
          (raise blocked)
          (consume_signal p)
          c)
  next_signal-IsStable name = record {
    keeps = λ c.
        look_keeps (λ x. none) (λ c. raise blocked) (consume_signal p) (λ c d. (refl, refl))
          consume_signal-IsStable c (first_matching name c.consumed_signal_seqs c.history.signals);
    stays = λ c y l h.
        look_stays (λ x. none) (λ c. raise blocked) (consume_signal p) (λ c d. (refl, refl))
          consume_signal-IsStable c y (first_matching name c.consumed_signal_seqs c.history.signals)
          (first_matching name c.consumed_signal_seqs y.signals) l
          (λ e found. rw l.extends.signals (
            first_matching-append name c.consumed_signal_seqs c.history.signals
              l.extends.new_signals e found))
          h;
  }

  -- What the signals and the end of the timer are at a history and at a longer one.
  timed_out-IsStable : (name : String) (o : Option HistoryEvent) → IsStable (timed_out name o)
  timed_out-IsStable name none = raise-IsStable blocked
  timed_out-IsStable name (some t) = if-IsStable _ _ _ (raise-IsStable _) (raise-IsStable _)

  race-IsStable : (name : String) (m t : Option HistoryEvent) → IsStable (race p name m t)
  unfolding race
  race-IsStable name none t = timed_out-IsStable name t
  race-IsStable name (some m) t =
      if-IsStable _ _ _ (consume_signal-IsStable m) (timed_out-IsStable name t)

  -- The race is not run again with another winner.
  race_same :
      (name : String) (c : WorkflowContext) (n : ℕ) (m t m' t' : Option HistoryEvent)
      → ((e : HistoryEvent) → m ≡ some e → (m' ≡ some e) × (e.seq ≤ n))
      → ((e : HistoryEvent) → m ≡ none → m' ≡ some e → n < e.seq)
      → ((e : HistoryEvent) → t ≡ some e → (t' ≡ some e) × (e.seq ≤ n))
      → ((e : HistoryEvent) → t ≡ none → t' ≡ some e → n < e.seq)
      → is_settled (race p name m t c).0 ≡ true
      → race p name m' t' ≡ race p name m t
  unfolding race
  race_same name c n none none m' t' m1 m2 t1 t2 h = cc
  race_same name c n none (some t) none t' m1 m2 t1 t2 h = rw ((t1 t refl).0)
  race_same name c n none (some t) (some m) t' m1 m2 t1 t2 h =
      let late : ltb m.seq t.seq ≡ false = ground (arith, (t1 t refl).1, m2 m refl refl) in
      rw ((t1 t refl).0, late)
  race_same name c n (some m) none m' none m1 m2 t1 t2 h = rw ((m1 m refl).0)
  race_same name c n (some m) none m' (some t) m1 m2 t1 t2 h =
      let early : ltb m.seq t.seq ≡ true = ground (arith, (m1 m refl).1, t2 t refl refl) in
      rw ((m1 m refl).0, early)
  race_same name c n (some m) (some t) m' t' m1 m2 t1 t2 h = rw ((m1 m refl).0, (t1 t refl).0)

  abbrev matching_at : String → WorkflowContext → Option HistoryEvent
  matching_at name c = first_matching name c.consumed_signal_seqs c.history.signals

  -- The race, with its signal looked up when it is run: between the two nothing changes it.
  race_at : String → ℕ → M Json
  race_at name u c = race p name (matching_at name c) (lookup u c.history.timer_terminal) c

  race_at-IsStable : (name : String) (u : ℕ) → IsStable (race_at name u)
  unfolding race_at
  race_at-IsStable name u = record {
    keeps =
        λ c. (race-IsStable name (matching_at name c) (lookup u c.history.timer_terminal)).keeps c;
    stays = λ c y l h.
        rw
          (race_same name c c.history.previous_seq (matching_at name c)
            (lookup u c.history.timer_terminal) (matching_at name (with_history y c))
            (lookup u y.timer_terminal)
            (λ e found. (kept c y l name e found, seen c y l name e found))
            (λ e missing found. fresh c y l name e missing found)
            (λ e found. (l.extends.timer u e found, l.bounded.timers u e found))
            (λ e missing found. l.extends.timer_new u e missing found) h)
          ((race-IsStable name (matching_at name c) (lookup u c.history.timer_terminal)).stays c y l
            h);
  }
    where
      kept :
          (c : WorkflowContext) (y : HistoryIndex)
          → Longer c.history y
          → (name : String) (e : HistoryEvent) → matching_at name c ≡ some e
          → matching_at name (with_history y c) ≡ some e
      kept c y l name e found = rw l.extends.signals (
          first_matching-append name c.consumed_signal_seqs c.history.signals l.extends.new_signals
            e found)

      seen :
          (c : WorkflowContext) (y : HistoryIndex)
          → Longer c.history y
          → (name : String) (e : HistoryEvent) → matching_at name c ≡ some e
          → e.seq ≤ c.history.previous_seq
      seen c y l name e found =
          first_matching-All (λ s. s.seq ≤ c.history.previous_seq) name c.consumed_signal_seqs
            c.history.signals e found l.bounded.signals

      fresh :
          (c : WorkflowContext) (y : HistoryIndex)
          → Longer c.history y
          → (name : String) (e : HistoryEvent) → matching_at name c ≡ none
          → matching_at name (with_history y c) ≡ some e
          → c.history.previous_seq < e.seq
      fresh c y l name e missing found =
          first_matching-All (λ s. c.history.previous_seq < s.seq) name c.consumed_signal_seqs
            l.extends.new_signals e
            (sym (
                first_matching_new name c.consumed_signal_seqs c.history.signals
                  l.extends.new_signals missing)
              ∙ rw l.extends.signals at found)
            l.extends.signals_after

  resolve_at : String → ℕ → String → HistoryEvent → M Json
  resolve_at name n f s = do
    guard (s.event_type == "TimerStarted")
        (non_determinism n (expected "signal timeout" s.event_type))
    guard (has_fingerprint s f) (non_determinism n (changed "signal timeout"))
    entity ← recorded_entity n "signal timeout" s
    race_at name entity

  resolve_at-IsStable :
      (name : String) (n : ℕ) (f : String) (s : HistoryEvent) → IsStable (resolve_at name n f s)
  unfolding resolve_at
  resolve_at-IsStable name n f s = search (stability, race_at-IsStable) depth 9

  wait_at : String → ℤ → M Json
  wait_at name duration = do
    guard (not (name == "")) (value_error "signal name cannot be empty")
    n ← take_command_id
    let delay = p.total_seconds duration
    guard (not (float_is_negative delay)) (value_error "signal timeout cannot be negative")
    f ← serialized (fingerprint p (signal_identity p name delay))
    recorded_or n
        (λ c. raise (
          new_commands (
            schedule_timer n (entity_uuid p c.workflow_id "signal-timeout" n) delay "signal_timeout"
              (some name) f
            ∷ [])))
        (resolve_at name n f)

  wait_at-IsStable : (name : String) (duration : ℤ) → IsStable (wait_at name duration)
  unfolding wait_at
  wait_at-IsStable name duration =
      search (stability, new_commands-Waits, resolve_at-IsStable) depth 12

  wait_signal-eq-wait_at :
      (name : String) (duration : ℤ) (c : WorkflowContext)
      → wait_signal p name (some duration) c ≡ wait_at name duration c
  unfolding wait_signal wait_at resolve_at resolve_signal race_at
  wait_signal-eq-wait_at name duration c = ground arith

  pub wait_signal-IsStable :
      (name : String) (timeout : Option ℤ) → IsStable (wait_signal p name timeout)
  unfolding wait_signal
  wait_signal-IsStable name none = search (stability, next_signal-IsStable)
  wait_signal-IsStable name (some duration) =
      subst IsStable (sym (fun_ext (wait_signal-eq-wait_at name duration)))
        (wait_at-IsStable name duration)
