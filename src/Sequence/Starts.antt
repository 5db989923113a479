-- ===== src/Sequence/Starts.antt =====
-- engine/persistence/transitions.py: a new execution: the numbers of the events.
use durable_workflow_engine.Store.Rows.{IsRow-insert}
use mathlib.Core.Bool.{false≢true}
use durable_workflow_engine.Sequence.Stages.{Keeps, post-Triple, Base}
use durable_workflow_engine.Sequence.Triples.{Triple, bind-Triple, quiet-Triple, wake-IsQuiet}
use durable_workflow_engine.Transitions.Start.{insert_workflow}
use durable_workflow_engine.Store.{Execution, any, conflicts, EventRow}
use durable_workflow_engine.Base.Dict.{lookup, insert, lookup-insert}
use durable_workflow_engine.Store.Tx.{Session, insert_execution, insert_event, event, wake}
use durable_workflow_engine.Base.{
  ℕ, ◌≡◌, String, none, ◌++◌, nat_eq, ◌∷◌, [], Bool-cases, is_some, inl, arith, inr, Option, ap,
  false, some, refl, ◌⊎◌, ◌≢◌, ◌==◌, nat_eqb_iff, sym, eq_of_some, ◌∙◌, ◌+◌,
}
use durable_workflow_engine.Sequence.{
  View, view, count, Grows, IsSequenced, count-added_le, Grows-trans, count-added_other,
  count-added_own, IsNumbered-added, any-added,
}

-- The first event of an execution.
abbrev pub started : ℕ → String → EventRow
started w text = event w 1 "WorkflowExecutionStarted" none none text

abbrev recorded : ℕ → String → View → View
recorded w text v = record v { rows = v.rows ++ started w text ∷ [] }

-- The tables with a new execution and its first event.
abbrev pub born : ℕ → Execution → String → View → View
born w e text v = record {
  rows = v.rows ++ started w text ∷ [];
  executions = insert w e v.executions;
}

-- Where `P` held of the tables, a new execution came.
pub record Born (P : View → Type 0) (w : ℕ) (e : Execution) (text : String) (v : View)
    : Type 0 where
  pub before : View
  pub holds : P before
  pub fresh : lookup w before.executions ≡ none
  pub after : v ≡ born w e text before

-- Where `P` held of the tables, a new execution came, and its first event is not written.
record Opened (P : View → Type 0) (w : ℕ) (e : Execution) (v : View) : Type 0 where
  before : View
  holds : P before
  fresh : lookup w before.executions ≡ none
  after : v ≡ record before { executions = insert w e before.executions }

missing_key {ℓ} : {V : Type ℓ} (o : Option V) → is_some o ≡ false → o ≡ none
missing_key none h = refl
missing_key (some v) h = cc

module _ (P : View → Type 0) (w : ℕ) (e : Execution) where
  insert_execution-Triple : Triple P (insert_execution w e) (λ _ v. Opened P w e v)
  unfolding insert_execution
  insert_execution-Triple = record {
    run = λ s t a h p. elim (Bool-cases (is_some (lookup w s.executions))) [
      | inl old ↦ absurd (ground arith)
      | inr new ↦
          let same : t ≡ record s { executions = insert w e s.executions } = ground arith in
          record {
            before = view s;
            holds = h;
            fresh = missing_key (lookup w s.executions) new;
            after = rw same refl;
          }
    ];
  }

  first_event-Triple :
      (text : String)
      → Triple (Opened P w e) (insert_event (started w text)) (λ _ v. Born P w e text v)
  unfolding insert_event
  first_event-Triple text = record {
    run = λ s t a h p. elim (Bool-cases (any (conflicts (started w text)) s.history_events)) [
      | inl b ↦ absurd (ground arith)
      | inr b ↦
          let same : t ≡ record s { history_events = s.history_events ++ started w text ∷ [] } =
            ground arith in
          record {
            before = h.before;
            holds = h.holds;
            fresh = h.fresh;
            after = rw same (ap (recorded w text) h.after);
          }
    ];
  }

  pub insert_workflow-Triple :
      (x : Session) (text : String)
      → Triple P (insert_workflow x w e text) (λ _ v. Born P w e text v)
  unfolding insert_workflow
  insert_workflow-Triple x text = bind-Triple (insert_execution w e) _ insert_execution-Triple (λ _.
      bind-Triple (insert_event (started w text)) _ (first_event-Triple text)
        (λ _. quiet-Triple (wake x w e.queue_name) (wake-IsQuiet x w e.queue_name)))

-- Only the new execution is known under its identity.
lookup-new :
    (w i : ℕ) (e d : Execution) (v : View)
    → lookup i (insert w e v.executions) ≡ some d
    → ((i ≡ w) × (d ≡ e)) ⊎ ((w ≢ i) × (lookup i v.executions ≡ some d))
lookup-new w i e d v h = elim (Bool-cases (w == i)) [
  | inl b ↦
      let value : lookup i (insert w e v.executions) ≡ some e =
        rw (lookup-insert w i e v.executions, b) refl in
      inl (sym ((nat_eqb_iff w i).0 b), eq_of_some (sym h ∙ value))
  | inr b ↦
      let value : lookup i (insert w e v.executions) ≡ lookup i v.executions =
        rw (lookup-insert w i e v.executions, b) refl in
      inr ((λ p. absurd (false≢true (sym b ∙ (nat_eqb_iff w i).1 p))), sym value ∙ h)
]

pub lookup-old :
    (w i : ℕ) (e : Execution) (v : View)
    → w ≢ i
    → lookup i (insert w e v.executions) ≡ lookup i v.executions
lookup-old w i e v h = elim (Bool-cases (w == i)) [
  | inl b ↦ absurd (h ((nat_eqb_iff w i).0 b))
  | inr b ↦ rw (lookup-insert w i e v.executions, b) refl
]

lookup-own : (w : ℕ) (e : Execution) (v : View) → lookup w (insert w e v.executions) ≡ some e
lookup-own w e v = rw (lookup-insert w w e v.executions, (nat_eqb_iff w w).1 refl) refl

module _ (X : ℕ → Type 0) (w : ℕ) (e : Execution) (text : String) (v : View) where
  pub born-IsSequenced :
      IsSequenced X v
      → lookup w v.executions ≡ none
      → e.next_seq ≡ 2
      → IsSequenced X (born w e text v)
  unfolding count
  born-IsSequenced q fresh two =
      let none_before : count w v ≡ 0 = q.missing w fresh in
      let own : count w (born w e text v) ≡ count w v + 1 =
        count-added_own w v (started w text) refl in
      record {
        numbered = λ i.
            IsNumbered-added i v (started w text) (q.numbered i)
              (λ h. rw (sym h) (omega (arith, none_before)));
        missing = λ i h. missing i h;
        reach = λ i d h. elim (IsRow-insert i w d e v.executions h) [
          | inl (same, value) ↦
              rw (sym same, sym value) (omega (arith, two), omega (arith, two, own, none_before))
          | inr old ↦
              let (low, high) = q.reach i d old in
              let more = count-added_le i v (started w text) in (low, omega (arith, high, more))
        ];
        next = λ i d h p. elim (lookup-new w i e d v h) [
          | inl (same, value) ↦ rw (same, value) (omega (arith, two, own, none_before))
          | inr (other, old) ↦
              let same = count-added_other i v (started w text) other in
              omega (arith, same, q.next i d old p)
        ];
      }
    where
      missing : (i : ℕ) → lookup i (insert w e v.executions) ≡ none → count i (born w e text v) ≡ 0
      missing i h =
          let other : w ≢ i = λ p.
            let here : lookup i (insert w e v.executions) ≡ some e =
              rw (sym p) (lookup-own w e v) in
            cc in
          let same = count-added_other i v (started w text) other in
          omega (arith, same, q.missing i (sym (lookup-old w i e v other) ∙ h))

  pub born-Grows : lookup w v.executions ≡ none → Grows v (born w e text v)
  unfolding count
  born-Grows fresh = record {
    kept = λ test h. any-added test v.rows (started w text) h;
    more = λ i. count-added_le i v (started w text);
    stays = λ i d h.
        let other : w ≢ i = λ p. let here : lookup i v.executions ≡ none = rw (sym p) fresh in cc in
        (d, lookup-old w i e v other ∙ h);
  }

-- A new execution comes between transitions.
pub insert_workflow-Keeps :
    (x : Session) (w : ℕ) (e : Execution) (text : String)
    → e.next_seq ≡ 2
    → Keeps (insert_workflow x w e text)
insert_workflow-Keeps x w e text two = record {
  keeps = λ X u.
      post-Triple (insert_workflow x w e text)
        (λ _ v b.
          let q = born-IsSequenced X w e text b.before b.holds.sequenced b.fresh two in
          let grown =
            Grows-trans u b.before _ b.holds.grown (born-Grows X w e text b.before b.fresh) in
          rw b.after (record { sequenced = q; grown = grown }))
        (insert_workflow-Triple (Base X u) w e x text);
}
