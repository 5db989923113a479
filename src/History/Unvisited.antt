-- ===== src/History/Unvisited.antt =====
-- engine/runtime/history.py: `first_unvisited_command`, the check that replay used up its history.
use mathlib.Core.Path.{subst}
use durable_workflow_engine.Base.Dict.{Dict, lookup, insert, lookup-insert}
use durable_workflow_engine.Base.{
  List, Bool, ℕ, ◌≤◌, All, Option, ◌≡◌, arith, ◌∷◌, none, ok, some, Bool-cases, sym, ok-injective,
  nat_eqb_iff, ◌<◌, [], nat_eq, ltb, >>=-eq-ok, leb, false, refl, inl, true, ltb→lt, inr, ltb→le,
  ◌==◌,
}
use durable_workflow_engine.History.{
  HistoryEvent, Indexes, HistoryIndex, add_event, add_events, index_history, empty_index,
  id_or_zero, min_by_command, remaining, first_unvisited_command,
}
use durable_workflow_engine.History.Effects.{
  advance, add_event_lem, schedules, noted, IsFresh, HasCommand,
}
use durable_workflow_engine.History.Extension.{index_history-add_events}

min_by_command-le :
    (n : ℕ) (best : HistoryEvent) (es : List HistoryEvent)
    → n ≤ id_or_zero (min_by_command best es)
    → (n ≤ id_or_zero best) × All (λ e. n ≤ id_or_zero e) es
unfolding min_by_command
min_by_command-le n best [] h = (h, tt)
min_by_command-le n best (e ∷ es) h = elim (Bool-cases (ltb (id_or_zero e) (id_or_zero best))) [
  | inl less ↦
      let (le, all) = min_by_command-le n e es (rw less at h) in
      (omega (arith, le, ltb→lt _ _ less), (le, all))
  | inr more ↦
      let (le, all) = min_by_command-le n best es (rw more at h) in
      (le, (omega (arith, le, ltb→le _ _ more), all))
]

min_by_command-All {ℓ} :
    (P : HistoryEvent → Type ℓ) (best : HistoryEvent) (es : List HistoryEvent)
    → P best
    → All P es
    → P (min_by_command best es)
unfolding min_by_command
min_by_command-All P best [] h t = h
min_by_command-All P best (e ∷ es) h t = elim (Bool-cases (ltb (id_or_zero e) (id_or_zero best))) [
  | inl less ↦ rw less (min_by_command-All P e es t.0 t.1)
  | inr more ↦ rw more (min_by_command-All P best es h t.1)
]

-- Each key stands once, and is the command of its event.
abbrev IsKeyed : Dict ℕ HistoryEvent → Type 0
IsKeyed [] = Unit
IsKeyed ((c, e) ∷ m) = (lookup c m ≡ none) × (e.command_id ≡ some c) × IsKeyed m

insert-IsKeyed :
    (c : ℕ) (e : HistoryEvent) (m : Dict ℕ HistoryEvent)
    → lookup c m ≡ none
    → e.command_id ≡ some c
    → IsKeyed m
    → IsKeyed (insert c e m)
unfolding lookup insert
insert-IsKeyed c e [] f h k = (refl, h, tt)
insert-IsKeyed c e ((d, v) ∷ m) f h k = ground (arith, insert-IsKeyed c e m, lookup-insert c d e m)

noted-IsKeyed :
    (b : Bool) (k : Option ℕ) (e : HistoryEvent) (m : Dict ℕ HistoryEvent)
    → k ≡ e.command_id
    → IsFresh b k m
    → HasCommand b k
    → IsKeyed m
    → IsKeyed (noted b k e m)
noted-IsKeyed false k e m s f h i = i
noted-IsKeyed true none e m s f h i = i
noted-IsKeyed true (some c) e m s f h i = insert-IsKeyed c e m f (sym s) i

add_events-IsKeyed :
    (es : List HistoryEvent) (i j : Indexes)
    → add_events i es ≡ ok j
    → IsKeyed i.scheduled
    → IsKeyed j.scheduled
unfolding add_events advance
add_events-IsKeyed [] i j h k = rw (← ok-injective h) k
add_events-IsKeyed (e ∷ es) i j h k =
    let (m, first, rest) = >>=-eq-ok (add_event i e) _ h in
    let (a, same) = add_event_lem i e m first in
    add_events-IsKeyed es m j rest (
      rw same
        (noted-IsKeyed (schedules e) e.command_id e i.scheduled refl a.new_command a.has_command k))

-- The command of a value, which the dictionary has and replay has not reached.
abbrev Pending : ℕ → Dict ℕ HistoryEvent → HistoryEvent → Type 0
Pending next m e = (c : ℕ) × (lookup c m ≡ some e) × (next ≤ c) × (e.command_id ≡ some c)

remaining-Pending :
    (next : ℕ) (m n : Dict ℕ HistoryEvent)
    → IsKeyed m
    → ((c : ℕ) (e : HistoryEvent) → lookup c m ≡ some e → lookup c n ≡ some e)
    → All (Pending next n) (remaining next m)
unfolding remaining lookup
remaining-Pending next [] n k sub = tt
remaining-Pending next ((c, e) ∷ m) n k sub =
    let rest =
      remaining-Pending next m n k.2 (λ d v h. sub d v (ground (arith, nat_eqb_iff c d, h, k.0))) in
    elim (Bool-cases (leb next c)) [
      | inl reached ↦ rw reached ((c, sub c e (ground arith), ground arith, k.1), rest)
      | inr passed ↦ rw passed rest
    ]

lookup-IsKeyed :
    (d : ℕ) (v : HistoryEvent) (m : Dict ℕ HistoryEvent)
    → IsKeyed m
    → lookup d m ≡ some v
    → v.command_id ≡ some d
unfolding lookup
lookup-IsKeyed d v [] k h = cc
lookup-IsKeyed d v ((c, e) ∷ m) k h = ground (arith, nat_eqb_iff c d, lookup-IsKeyed d v m k.2)

remaining-lookup {ℓ} :
    (P : HistoryEvent → Type ℓ) (next d : ℕ) (e : HistoryEvent) (m : Dict ℕ HistoryEvent)
    → lookup d m ≡ some e
    → next ≤ d
    → All P (remaining next m)
    → P e
unfolding remaining lookup
remaining-lookup P next d e [] h le all = cc
remaining-lookup P next d e ((c, v) ∷ m) h le all = elim (Bool-cases (c == d)) [
  | inl hit ↦
      let same : v ≡ e = ground arith in
      let reached : leb next c ≡ true = ground (arith, nat_eqb_iff c d) in
      rw same at ((rw reached at all).0)
  | inr miss ↦
      let rest : lookup d m ≡ some e = rw miss at h in
      elim (Bool-cases (leb next c)) [
        | inl reached ↦ remaining-lookup P next d e m rest le (rw reached at all).1
        | inr passed ↦ remaining-lookup P next d e m rest le (rw passed at all)
      ]
]

-- Nothing is left, or what is given is the least of the commands that are left.
abbrev pub IsLeastFrom : ℕ → Dict ℕ HistoryEvent → Option HistoryEvent → Type 0
IsLeastFrom next m none = (c : ℕ) (e : HistoryEvent) → lookup c m ≡ some e → c < next
IsLeastFrom next m (some u) =
    (c : ℕ) × (lookup c m ≡ some u)
    × (next ≤ c)
    × ((d : ℕ) (e : HistoryEvent) → lookup d m ≡ some e → next ≤ d → c ≤ d)

-- The least of the events that are left, for the list of them.
least-IsLeastFrom :
    (next : ℕ) (m : Dict ℕ HistoryEvent) (e : HistoryEvent) (es : List HistoryEvent)
    → IsKeyed m
    → remaining next m ≡ e ∷ es
    → IsLeastFrom next m (some (min_by_command e es))
least-IsLeastFrom next m e es k left =
    let pending = rw left at (remaining-Pending next m m k (λ c v h. h)) in
    let (c, found, reached, named) = min_by_command-All (Pending next m) e es pending.0 pending.1 in
    (
      c,
      found,
      reached,
      λ d v h le.
          let own : id_or_zero (min_by_command e es) ≡ c = rw named in
          let below = min_by_command-le c e es (omega (arith, own)) in
          let bound =
            remaining-lookup (λ w. c ≤ id_or_zero w) next d v m h le
              (subst (All (λ w. c ≤ id_or_zero w)) (sym left) below) in
          let value : id_or_zero v ≡ d = rw (lookup-IsKeyed d v m k h) in
          omega (arith, bound, value),
    )

none_left : (next : ℕ) (m : Dict ℕ HistoryEvent) → remaining next m ≡ [] → IsLeastFrom next m none
none_left next m left c e h = elim (Bool-cases (ltb c next)) [
  | inl below ↦ ltb→lt c next below
  | inr above ↦ absurd (
      remaining-lookup (λ _. ⊥) next c e m h (ltb→le c next above)
        (subst (All (λ _. ⊥)) (sym left) tt))
]

-- For every accepted history and every `next`: `first_unvisited_command` gives nothing exactly when
-- all scheduled commands are below `next`; otherwise it gives the event that is scheduled under the
-- least command that is at least `next`.
pub first_unvisited_command_lem :
    (es : List HistoryEvent) (x : HistoryIndex) (next : ℕ)
    → index_history es ≡ ok x
    → IsLeastFrom next x.scheduled (first_unvisited_command x next)
unfolding first_unvisited_command
first_unvisited_command_lem es x next h = cases (remaining next x.scheduled) refl
  where
    keyed : IsKeyed x.scheduled
    keyed = add_events-IsKeyed es empty_index x.indexes (index_history-add_events es x h).1 tt

    cases :
        (r : List HistoryEvent)
        → remaining next x.scheduled ≡ r
        → IsLeastFrom next x.scheduled (elim r [ [] ↦ none | e ∷ es ↦ some (min_by_command e es) ])
    cases [] left = none_left next x.scheduled left
    cases (e ∷ es) left = least-IsLeastFrom next x.scheduled e es keyed left
