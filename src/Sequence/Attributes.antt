-- ===== src/Sequence/Attributes.antt =====
-- engine/persistence/transitions.py: `update_search_attributes`: the numbers of the events.
use durable_workflow_engine.Sequence.Triples.{
  fetch_execution-IsQuiet, encoded-IsQuiet, require-IsQuiet, guard-IsQuiet,
  record_api_audit-IsQuiet, pure-IsQuiet,
}
use mathlib.Core.Path.{subst}
use durable_workflow_engine.Sequence.Whole.{bind-Keeps, quiet-Keeps}
use durable_workflow_engine.Store.Rows.{IsRow-insert, lookup-IsRow}
use durable_workflow_engine.Json.{Fields}
use durable_workflow_engine.Sequence.Stages.{Keeps, Base}
use durable_workflow_engine.Base.Dict.{lookup, insert, lookup-insert}
use durable_workflow_engine.Transitions.Start.{update_search_attributes}
use durable_workflow_engine.Store.{Execution, AuditContext}
use durable_workflow_engine.Sequence.{View, count, view, Grows-trans}
use durable_workflow_engine.Store.Tx.{update_execution, Session}
use durable_workflow_engine.Base.{
  ℕ, String, ◌≡◌, some, Option-cases, List, refl, ◌⊎◌, none, Bool-cases, Option, inl, ◌==◌, arith,
  sym, nat_eqb_iff, inr, eq_of_some, ◌∙◌, nat_eq,
}

module _ (X : ℕ → Type 0) (u : View) (w : ℕ) (v : View) (e f : Execution) where
  lookup-changed :
      (i : ℕ) (d : Execution)
      → lookup i (insert w f v.executions) ≡ some d
      → ((w ≡ i) × (f ≡ d)) ⊎ (lookup i v.executions ≡ some d)
  lookup-changed i d h = elim (Bool-cases (w == i)) [
    | inl b ↦
        let value : lookup i (insert w f v.executions) ≡ some f =
          rw (lookup-insert w i f v.executions, b) refl in
        inl ((nat_eqb_iff w i).0 b, eq_of_some (sym value ∙ h))
    | inr b ↦
        let value : lookup i (insert w f v.executions) ≡ lookup i v.executions =
          rw (lookup-insert w i f v.executions, b) refl in
        inr (sym value ∙ h)
  ]

  missing-changed :
      (i : ℕ) → lookup i (insert w f v.executions) ≡ none → lookup i v.executions ≡ none
  missing-changed i h = elim (Bool-cases (w == i)) [
    | inl b ↦
        let value : lookup i (insert w f v.executions) ≡ some f =
          rw (lookup-insert w i f v.executions, b) refl in
        cc
    | inr b ↦
        let value : lookup i (insert w f v.executions) ≡ lookup i v.executions =
          rw (lookup-insert w i f v.executions, b) refl in
        sym value ∙ h
  ]

  stays-changed :
      (i : ℕ) (d : Execution)
      → lookup i v.executions ≡ some d
      → (g : Execution) × (lookup i (insert w f v.executions) ≡ some g)
  stays-changed i d h = elim (Bool-cases (w == i)) [
    | inl b ↦ (f, rw (lookup-insert w i f v.executions, b) refl)
    | inr b ↦ (d, rw (lookup-insert w i f v.executions, b) h)
  ]

  -- Another row for the execution, with the same `next_seq`.
  changed :
      Base X u v
      → lookup w v.executions ≡ some e
      → f.next_seq ≡ e.next_seq
      → Base X u (record v { executions = insert w f v.executions })
  unfolding count
  changed b found same = record {
    sequenced = record {
      numbered = b.sequenced.numbered;
      missing = λ i h. b.sequenced.missing i (missing-changed i h);
      reach = λ i d h. elim (IsRow-insert i w d f v.executions h) [
        | inl (own, new) ↦
            let (low, high) = b.sequenced.reach w e (lookup-IsRow w e v.executions found) in
            rw (sym own, sym new) (omega (arith, same, low), omega (arith, same, high))
        | inr old ↦ b.sequenced.reach i d old
      ];
      next = λ i d h p. elim (lookup-changed i d h) [
        | inl (own, new) ↦
            let next = b.sequenced.next w e found (λ q. p (subst X own q)) in
            rw (sym own, sym new) (omega (arith, same, next))
        | inr old ↦ b.sequenced.next i d old p
      ];
    };
    grown = Grows-trans u v _ b.grown (record {
      kept = λ test h. h;
      more = λ i. omega arith;
      stays = λ i d h. stays-changed i d h;
    });
  }

update_row-Keeps :
    (w : ℕ) (change : Execution → Execution)
    → ((e : Execution) → (change e).next_seq ≡ e.next_seq)
    → Keeps (update_execution w change)
unfolding update_execution
update_row-Keeps w change same = record {
  keeps = λ X u. record {
    run = λ s t a h p. elim (Option-cases (lookup w s.executions)) [
      | inl missing ↦ let tables : s ≡ t = ground arith in rw (sym tables) h
      | inr (e, found) ↦
          let tables : t ≡ record s { executions = insert w (change e) s.executions } =
            ground arith in
          rw tables (changed X u w (view s) e (change e) h found (same e))
    ];
  };
}

module _ (x : Session) where
  attributes_row-Keeps :
      (w : ℕ) (text : String)
      → Keeps (update_execution w (λ e. record e { search_attributes = text }))
  attributes_row-Keeps w text = update_row-Keeps w _ (λ e. refl)

  pub update_search_attributes-Keeps :
      (w : ℕ) (attributes : Fields) (unset : List String) (audit : Option AuditContext)
      → Keeps (update_search_attributes x w attributes unset audit)
  unfolding update_search_attributes
  update_search_attributes-Keeps w attributes unset audit =
      search
        (
          bind-Keeps, quiet-Keeps, attributes_row-Keeps, fetch_execution-IsQuiet, encoded-IsQuiet,
          require-IsQuiet, guard-IsQuiet, record_api_audit-IsQuiet, pure-IsQuiet,
        )
        depth 30
