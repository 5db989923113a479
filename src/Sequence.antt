-- ===== src/Sequence.antt =====
-- engine/persistence: the numbers of the events against `next_seq`, for a transaction at any point.
-- Only the events and the executions count here: a `View` of the tables.
pub mod Triples
pub mod Stages
pub mod Whole
pub mod Attributes
pub mod Leases
pub mod Rules
pub mod Closing
pub mod Requests
pub mod Tasks
pub mod Origins
pub mod Commits
pub mod Steps
pub mod Delivery
pub mod Loading
pub mod Progress
pub mod Shadows
pub mod Appends
pub mod Ends
pub mod Starts
use durable_workflow_engine.Store.Rows.{IsRow}
use mathlib.Core.List.{append-nil}
use mathlib.Core.Bool.{false≢true}
use native.Mathlib.Decide.{dec_lt}
use durable_workflow_engine.Base.Dict.{Dict, lookup}
use durable_workflow_engine.Store.{Store, rows_of, EventRow, conflicts, Execution, any}
use durable_workflow_engine.Base.{
  List, ℕ, arith, ◌∷◌, length, ◌≤◌, ◌⊎◌, ◌≡◌, ◌++◌, ◌≢◌, ◌+◌, none, ◌<◌, [], Bool-cases, some,
  length-append, ◌==◌, true, false, inl, nat_eq, nat_eqb_iff, inr, sym, ◌∙◌, refl, keep-append,
  Bool, ◌&&◌, ◌||◌,
}

pub record View : Type 0 where
  pub rows : List EventRow
  pub executions : Dict ℕ Execution

abbrev pub view : Store → View
view s = record { rows = s.history_events; executions = s.executions }

-- The numbers go up by one from `k`.
abbrev pub IsNumbered : ℕ → List EventRow → Type 0
IsNumbered k [] = Unit
IsNumbered k (r ∷ rs) = (r.seq ≡ k) × IsNumbered (k + 1) rs

unfoldable pub count : ℕ → View → ℕ
count w v = length (rows_of w v.rows)

-- Each execution has events numbered from 1 without a gap, and its `next_seq` is the next number; of the
-- executions in `X` it is only known to be no greater than that.
pub record IsSequenced (X : ℕ → Type 0) (v : View) : Type 0 where
  pub numbered : (w : ℕ) → IsNumbered 1 (rows_of w v.rows)
  pub missing : (w : ℕ) → lookup w v.executions ≡ none → count w v ≡ 0
  pub reach :
      (w : ℕ) (e : Execution)
      → IsRow w e v.executions
      → (1 ≤ e.next_seq) × (e.next_seq ≤ count w v + 1)
  pub next :
      (w : ℕ) (e : Execution) → lookup w v.executions ≡ some e → ¬ X w → e.next_seq ≡ count w v + 1

-- No event and no execution is lost.
pub record Grows (u v : View) : Type 0 where
  pub kept : (test : EventRow → Bool) → any test u.rows ≡ true → any test v.rows ≡ true
  pub more : (w : ℕ) → count w u ≤ count w v
  pub stays :
      (w : ℕ) (e : Execution)
      → lookup w u.executions ≡ some e
      → (f : Execution) × (lookup w v.executions ≡ some f)

abbrev pub Or : (ℕ → Type 0) → ℕ → ℕ → Type 0
Or X w v = X v ⊎ (v ≡ w)

pub Grows-refl : (v : View) → Grows v v
Grows-refl v = record { kept = λ test h. h; more = λ w. omega arith; stays = λ w e h. (e, h) }

pub Grows-trans : (u v w : View) → Grows u v → Grows v w → Grows u w
Grows-trans u v w g h = record {
  kept = λ test p. h.kept test (g.kept test p);
  more = λ i. omega (arith, g.more i, h.more i);
  stays = λ i e p. let (f, q) = g.stays i e p in h.stays i f q;
}

pub weaken-IsSequenced :
    (X Y : ℕ → Type 0) (v : View) → ((w : ℕ) → X w → Y w) → IsSequenced X v → IsSequenced Y v
weaken-IsSequenced X Y v f q = record {
  numbered = q.numbered;
  missing = q.missing;
  reach = q.reach;
  next = λ w e h n. q.next w e h (λ p. n (f w p));
}

numbered_any :
    (k n : ℕ) (rs : List EventRow)
    → IsNumbered k rs
    → k ≤ n
    → n < k + length rs
    → any (λ r. r.seq == n) rs ≡ true
numbered_any k n [] p h l = absurd (omega (arith, h, l))
numbered_any k n (r ∷ rs) (p, ps) h l = elim (Bool-cases (r.seq == n)) [
  | inl b ↦ rw b refl
  | inr b ↦
      let other : r.seq ≢ n = λ e. absurd (false≢true (sym b ∙ (nat_eqb_iff r.seq n).1 e)) in
      let rest = numbered_any (k + 1) n rs ps (omega (arith, p, h, other)) (omega (arith, l)) in
      rw b rest
]

second_false : (a b c : Bool) → (a && (b || c)) ≡ false → a ≡ true → b ≡ false
second_false a b c h p = ground arith

left_false : (a b : Bool) → (a || b) ≡ false → (a ≡ false) × (b ≡ false)
left_false a b h = ground arith

no_conflict :
    (r : EventRow) (rs : List EventRow)
    → any (conflicts r) rs ≡ false
    → any (λ o. o.seq == r.seq) (rows_of r.workflow_id rs) ≡ false
unfolding rows_of conflicts
no_conflict r [] h = refl
no_conflict r (o ∷ rs) h =
    let (here, later) = left_false (conflicts r o) (any (conflicts r) rs) h in
    let rest = no_conflict r rs later in
    elim (Bool-cases (o.workflow_id == r.workflow_id)) [
      | inl own ↦
          let other = second_false (o.workflow_id == r.workflow_id) (o.seq == r.seq) _ here own in
          rw (own, other) rest
      | inr b ↦ rw b rest
    ]

IsNumbered-append :
    (k : ℕ) (rs : List EventRow) (r : EventRow)
    → IsNumbered k rs
    → r.seq ≡ k + length rs
    → IsNumbered k (rs ++ r ∷ [])
IsNumbered-append k [] r p h = (omega (arith, h), tt)
IsNumbered-append k (s ∷ rs) r (p, ps) h = (p, IsNumbered-append (k + 1) rs r ps (omega (arith, h)))

pub any-added :
    (test : EventRow → Bool) (rows : List EventRow) (r : EventRow)
    → any test rows ≡ true
    → any test (rows ++ r ∷ []) ≡ true
any-added test [] r h = absurd (false≢true h)
any-added test (o ∷ rows) r h = elim (Bool-cases (test o)) [
  | inl b ↦ rw b refl
  | inr b ↦ let rest = any-added test rows r (rw b at h) in rw (b, rest) refl
]

abbrev added : View → EventRow → View
added v r = record v { rows = v.rows ++ r ∷ [] }

rows-own :
    (w : ℕ) (v : View) (r : EventRow)
    → r.workflow_id ≡ w
    → rows_of w (added v r).rows ≡ rows_of w v.rows ++ r ∷ []
unfolding rows_of
rows-own w v r h =
    rw (keep-append (λ r. r.workflow_id == w) v.rows (r ∷ []), (nat_eqb_iff r.workflow_id w).1 h)
      refl

rows-other :
    (w : ℕ) (v : View) (r : EventRow)
    → r.workflow_id ≢ w
    → rows_of w (added v r).rows ≡ rows_of w v.rows
unfolding rows_of
rows-other w v r h = elim (Bool-cases (r.workflow_id == w)) [
  | inl b ↦ absurd (h ((nat_eqb_iff r.workflow_id w).0 b))
  | inr b ↦
      rw (keep-append (λ r. r.workflow_id == w) v.rows (r ∷ []), b) (append-nil (rows_of w v.rows))
]

-- A new event without a conflict, whose number is not beyond the next one, has the next number.
pub fits :
    (X : ℕ → Type 0) (v : View) (r : EventRow)
    → IsSequenced X v
    → 1 ≤ r.seq
    → r.seq ≤ count r.workflow_id v + 1
    → any (conflicts r) v.rows ≡ false
    → r.seq ≡ count r.workflow_id v + 1
unfolding count
fits X v r q low high free = elim (dec_lt r.seq (count r.workflow_id v + 1)) [
  | yes less ↦
      let found =
        numbered_any 1 r.seq (rows_of r.workflow_id v.rows) (q.numbered r.workflow_id) low
          (omega (arith, less)) in
      absurd (false≢true (sym (no_conflict r v.rows free) ∙ found))
  | no same ↦ omega (arith, high, same)
]

pub count-added_own :
    (w : ℕ) (v : View) (r : EventRow) → r.workflow_id ≡ w → count w (added v r) ≡ count w v + 1
unfolding count
count-added_own w v r h =
    rw (rows-own w v r h) (omega (arith, length-append (rows_of w v.rows) (r ∷ [])))

pub count-added_other :
    (w : ℕ) (v : View) (r : EventRow) → r.workflow_id ≢ w → count w (added v r) ≡ count w v
unfolding count
count-added_other w v r h = rw (rows-other w v r h) refl

pub count-added_le : (w : ℕ) (v : View) (r : EventRow) → count w v ≤ count w (added v r)
count-added_le w v r = elim (Bool-cases (r.workflow_id == w)) [
  | inl b ↦ omega (arith, count-added_own w v r ((nat_eqb_iff r.workflow_id w).0 b))
  | inr b ↦ omega (
    arith,
    count-added_other w v r (λ e. absurd (false≢true (sym b ∙ (nat_eqb_iff r.workflow_id w).1 e))),
  )
]

pub IsNumbered-added :
    (w : ℕ) (v : View) (r : EventRow)
    → IsNumbered 1 (rows_of w v.rows)
    → (r.workflow_id ≡ w → r.seq ≡ count w v + 1)
    → IsNumbered 1 (rows_of w (v.rows ++ r ∷ []))
unfolding count
IsNumbered-added w v r p f = elim (Bool-cases (r.workflow_id == w)) [
  | inl b ↦
      let own = (nat_eqb_iff r.workflow_id w).0 b in
      rw (rows-own w v r own) (IsNumbered-append 1 (rows_of w v.rows) r p (omega (arith, f own)))
  | inr b ↦
      rw (rows-other w v r (λ e. absurd (false≢true (sym b ∙ (nat_eqb_iff r.workflow_id w).1 e)))) p
]
