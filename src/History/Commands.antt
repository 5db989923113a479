-- ===== src/History/Commands.antt =====
-- engine/runtime/history.py: the dictionary `scheduled` against the events themselves.

use durable_workflow_engine.Base.Dict.{lookup, Dict, lookup-insert}
use durable_workflow_engine.Base.{
  ℕ, Option, Bool, List, ◌&&◌, none, ◌≡◌, ◌∷◌, some, false, if◌then◌else◌, ok, true, ◌==◌,
  ok-injective, get_elem?, [], nat_eq, arith, nat_eqb_iff, >>=-eq-ok, suc, zero, ap, refl,
  Bool-cases, inl, eq_of_some, inr,
}
use durable_workflow_engine.History.{
  HistoryEvent, Indexes, HistoryIndex, add_event, add_events, index_history, empty_index,
}
use durable_workflow_engine.History.Effects.{
  advance, IsAccepted, add_event_lem, schedules, noted, IsFresh,
}
use durable_workflow_engine.History.Extension.{index_history-add_events}

-- The event schedules this command.
abbrev pub is_command : ℕ → HistoryEvent → Bool
is_command c e = schedules e && (elim e.command_id [ none ↦ false | some d ↦ d == c ])

-- The first event that schedules the command.
unfoldable pub find_command : ℕ → List HistoryEvent → Option HistoryEvent
find_command c [] = none
find_command c (e ∷ es) = if is_command c e then some e else find_command c es

abbrev or_else : Option HistoryEvent → Option HistoryEvent → Option HistoryEvent
or_else none b = b
or_else (some a) b = some a

noted_command :
    (b : Bool) (k : Option ℕ) (e : HistoryEvent) (m : Dict ℕ HistoryEvent) (c : ℕ)
    → IsFresh b k m
    → lookup c (noted b k e m)
      ≡ or_else
          (lookup c m)
          (if b && (elim k [ none ↦ false | some d ↦ d == c ]) then some e else none)
noted_command false k e m c f = ground arith
noted_command true none e m c f = ground arith
noted_command true (some d) e m c f = ground (arith, lookup-insert d c e m, nat_eqb_iff d c)

advance_scheduled :
    (i : Indexes) (e : HistoryEvent) (c : ℕ)
    → IsAccepted i e
    → lookup c (advance i e).scheduled
      ≡ or_else (lookup c i.scheduled) (if is_command c e then some e else none)
unfolding advance
advance_scheduled i e c a = noted_command (schedules e) e.command_id e i.scheduled c a.new_command

add_events-scheduled :
    (es : List HistoryEvent) (i j : Indexes) (c : ℕ)
    → add_events i es ≡ ok j
    → lookup c j.scheduled ≡ or_else (lookup c i.scheduled) (find_command c es)
unfolding add_events find_command
add_events-scheduled [] i j c h = rw (← ok-injective h) (ground arith)
add_events-scheduled (e ∷ es) i j c h =
    let (m, first, rest) = >>=-eq-ok (add_event i e) _ h in
    let (a, same) = add_event_lem i e m first in
    let now : lookup c m.scheduled
        ≡ or_else (lookup c i.scheduled) (if is_command c e then some e else none) =
      rw same (advance_scheduled i e c a) in
    let later = add_events-scheduled es m j c rest in rw (later, now) (ground arith)

-- Looking a command up in the index of a history finds the first event that schedules it.
pub scheduled-find_command :
    (es : List HistoryEvent) (x : HistoryIndex) (c : ℕ)
    → index_history es ≡ ok x
    → lookup c x.scheduled ≡ find_command c es
unfolding lookup
scheduled-find_command es x c h =
    add_events-scheduled es empty_index x.indexes c (index_history-add_events es x h).1

is_command_fresh :
    (i : Indexes) (e : HistoryEvent) (c : ℕ)
    → IsAccepted i e
    → is_command c e ≡ true
    → lookup c i.scheduled ≡ none
is_command_fresh i e c a h = fresh (schedules e) e.command_id a.new_command h
  where
    fresh :
        (b : Bool) (k : Option ℕ)
        → IsFresh b k i.scheduled
        → (b && (elim k [ none ↦ false | some d ↦ d == c ])) ≡ true
        → lookup c i.scheduled ≡ none
    fresh false k f p = cc
    fresh true none f p = cc
    fresh true (some d) f p = rw ((nat_eqb_iff d c).0 p) at f

-- A command that the index has is not scheduled again.
not_again :
    (es : List HistoryEvent) (i j : Indexes) (c : ℕ) (s : HistoryEvent)
    → add_events i es ≡ ok j
    → lookup c i.scheduled ≡ some s
    → (k : ℕ) (e : HistoryEvent) → get_elem? es k ≡ some e
    → ¬ (is_command c e ≡ true)
unfolding add_events
not_again [] i j c s h p k e q r = cc
not_again (x ∷ es) i j c s h p zero e q r =
    let (m, first, rest) = >>=-eq-ok (add_event i x) _ h in
    let (a, same) = add_event_lem i x m first in
    let here : x ≡ e = cc in let unknown = is_command_fresh i x c a (rw here r) in cc
not_again (x ∷ es) i j c s h p (suc k) e q r =
    let (m, first, rest) = >>=-eq-ok (add_event i x) _ h in
    let (a, same) = add_event_lem i x m first in
    not_again es m j c s rest (rw (same, advance_scheduled i x c a, p) (refl)) k e q r

first_only :
    (x : HistoryEvent) (es : List HistoryEvent) (i j : Indexes) (c : ℕ)
    → add_events i (x ∷ es) ≡ ok j
    → (e f : HistoryEvent) (l : ℕ) → some x ≡ some e
    → get_elem? es l ≡ some f
    → is_command c e ≡ true
    → ¬ (is_command c f ≡ true)
unfolding add_events
first_only x es i j c h e f l p q a b =
    let (m, first, rest) = >>=-eq-ok (add_event i x) _ h in
    let (acc, same) = add_event_lem i x m first in
    let same_event : x ≡ e = cc in
    let here : is_command c x ≡ true = rw same_event a in
    not_again es m j c x rest
      (rw (same, advance_scheduled i x c acc, is_command_fresh i x c acc here, here) refl) l f q b

add_events-command_once :
    (es : List HistoryEvent) (i j : Indexes) (c : ℕ)
    → add_events i es ≡ ok j
    → (k l : ℕ) (e f : HistoryEvent) → get_elem? es k ≡ some e
    → get_elem? es l ≡ some f
    → is_command c e ≡ true
    → is_command c f ≡ true
    → k ≡ l
unfolding add_events
add_events-command_once [] i j c h k l e f p q a b = cc
add_events-command_once (x ∷ es) i j c h zero zero e f p q a b = refl
add_events-command_once (x ∷ es) i j c h zero (suc l) e f p q a b =
    absurd (first_only x es i j c h e f l p q a b)
add_events-command_once (x ∷ es) i j c h (suc k) zero e f p q a b =
    absurd (first_only x es i j c h f e k q p b a)
add_events-command_once (x ∷ es) i j c h (suc k) (suc l) e f p q a b =
    let (m, first, rest) = >>=-eq-ok (add_event i x) _ h in
    ap suc (add_events-command_once es m j c rest k l e f p q a b)

-- An accepted history schedules each command at one place only.
pub index_history-command_once :
    (es : List HistoryEvent) (x : HistoryIndex) (c k l : ℕ) (e f : HistoryEvent)
    → index_history es ≡ ok x
    → get_elem? es k ≡ some e
    → get_elem? es l ≡ some f
    → is_command c e ≡ true
    → is_command c f ≡ true
    → k ≡ l
index_history-command_once es x c k l e f h =
    add_events-command_once es empty_index x.indexes c (index_history-add_events es x h).1 k l e f

command_of : (c : ℕ) (e : HistoryEvent) → is_command c e ≡ true → e.command_id ≡ some c
command_of c e h = by_id (schedules e) e.command_id h
  where
    by_id :
        (b : Bool) (k : Option ℕ)
        → (b && (elim k [ none ↦ false | some d ↦ d == c ])) ≡ true
        → k ≡ some c
    by_id false k h = cc
    by_id true none h = cc
    by_id true (some d) h = ap some ((nat_eqb_iff d c).0 h)

-- What is found for a command has its identity.
pub find_command-command_id :
    (c : ℕ) (es : List HistoryEvent) (u : HistoryEvent)
    → find_command c es ≡ some u
    → u.command_id ≡ some c
unfolding find_command
find_command-command_id c [] u h = cc
find_command-command_id c (e ∷ es) u h = elim (Bool-cases (is_command c e)) [
  | inl b ↦ let same : e ≡ u = eq_of_some (rw b at h) in rw (← same) (command_of c e b)
  | inr b ↦ find_command-command_id c es u (rw b at h)
]
