-- ===== src/Sequence/Stages.antt =====
-- engine/persistence: the stages of a transition: it reads `next_seq`, writes events, and sets `next_seq`.
use durable_workflow_engine.Store.Rows.{lookup-IsRow, IsRow-insert}
use mathlib.Core.Path.{subst}
use mathlib.Core.Bool.{false≢true}
use durable_workflow_engine.Json.{Json}
use durable_workflow_engine.Base.Dict.{lookup, insert, lookup-insert}
use durable_workflow_engine.Sequence.Triples.{Triple, bind-Triple, quiet-Triple, encoded-IsQuiet}
use durable_workflow_engine.Store.{Execution, EventRow, any, conflicts, Store, rows_of}
use durable_workflow_engine.Sequence.{
  View, IsSequenced, count, Grows, Or, weaken-IsSequenced, view, Grows-refl, Grows-trans,
  IsNumbered, IsNumbered-added, fits, count-added_other, count-added_own, count-added_le, any-added,
}
use durable_workflow_engine.Store.Tx.{
  Tx, fetch_execution, append_event, update_execution, insert_event, Session, Void, encode, event,
}
use durable_workflow_engine.Base.{
  ℕ, ◌+◌, arith, ◌≡◌, none, ◌≤◌, some, inl, Bool-cases, String, Option, false, inr, nat_eq, ◌++◌,
  ◌⊎◌, ok, ◌∷◌, ◌≢◌, [], ◌==◌, nat_eqb_iff, sym, eq_of_some, ◌∙◌, refl, string_eq,
}

-- Between transitions, for tables that came from `u`.
pub record Base (X : ℕ → Type 0) (u v : View) : Type 0 where
  pub sequenced : IsSequenced X v
  pub grown : Grows u v

-- An event of `w` under the number `n` may be written.
pub record Ready (X : ℕ → Type 0) (u : View) (w n : ℕ) (v : View) : Type 0 where
  pub sequenced : IsSequenced (Or X w) v
  pub grown : Grows u v
  pub low : 1 ≤ n
  pub high : n ≤ count w v + 1
  pub known : Execution
  pub stored : lookup w v.executions ≡ some known

-- The last event of `w` has the number `n`, and `next_seq` is to be set.
pub record At (X : ℕ → Type 0) (u : View) (w n : ℕ) (v : View) : Type 0 where
  pub sequenced : IsSequenced (Or X w) v
  pub grown : Grows u v
  pub last : count w v ≡ n
  pub known : Execution
  pub stored : lookup w v.executions ≡ some known

-- An execution was read.
pub record Found (X : ℕ → Type 0) (u : View) (w : ℕ) (e : Execution) (v : View) : Type 0 where
  pub base : Base X u v
  pub stored : lookup w v.executions ≡ some e

-- A statement, or a whole transition, that leaves the events in sequence.
pub record Keeps {A : Type 0} (m : Tx A) : Type 1 where
  pub keeps : (X : ℕ → Type 0) (u : View) → Triple (Base X u) m (λ _. Base X u)

-- What was read, if anything.
abbrev pub Fetched : (ℕ → Type 0) → View → ℕ → Option Execution → View → Type 0
Fetched X u w none v = Base X u v
Fetched X u w (some e) v = Found X u w e v

module _ (X : ℕ → Type 0) (u : View) (w : ℕ) where
  pub next-Ready : (n : ℕ) (v : View) → At X u w n v → Ready X u w (n + 1) v
  next-Ready n v a = record {
    sequenced = a.sequenced;
    grown = a.grown;
    low = omega arith;
    high = omega (arith, a.last);
    known = a.known;
    stored = a.stored;
  }

  pub Found-Ready : (e : Execution) (v : View) → Found X u w e v → Ready X u w e.next_seq v
  Found-Ready e v f =
      let (low, high) = f.base.sequenced.reach w e (lookup-IsRow w e v.executions f.stored) in
      record {
        sequenced = weaken-IsSequenced X (Or X w) v (λ i h. inl h) f.base.sequenced;
        grown = f.base.grown;
        low = low;
        high = high;
        known = e;
        stored = f.stored;
      }

  pub Found-Base : (e : Execution) (v : View) → Found X u w e v → Base X u v
  Found-Base e v f = f.base

  fetched :
      (v : View) (o : Option Execution) → Base X u v → lookup w v.executions ≡ o → Fetched X u w o v
  fetched v none h p = h
  fetched v (some e) h p = record { base = h; stored = p }

  pub fetch_execution-Triple : Triple (Base X u) (fetch_execution w) (Fetched X u w)
  unfolding fetch_execution
  fetch_execution-Triple = record {
    run = λ s t a h e.
        let found : lookup w s.executions ≡ a = ground arith in
        let same : s ≡ t = ground arith in
        subst (λ r. Fetched X u w a (view r)) same (fetched (view s) a h found);
  }

module _ {A : Type 0} {P Q : View → Type 0} {R : A → View → Type 0} (m : Tx A) where
  pub pre-Triple : ((v : View) → P v → Q v) → Triple Q m R → Triple P m R
  pre-Triple f t = record { run = λ s r a h e. t.run s r a (f (view s) h) e }

pub post-Triple :
    {A : Type 0} {P : View → Type 0} {Q R : A → View → Type 0} (m : Tx A)
    → ((a : A) (v : View) → Q a v → R a v)
    → Triple P m Q
    → Triple P m R
post-Triple m f t = record { run = λ s r a h e. f a (view r) (t.run s r a h e) }

module _ (X : ℕ → Type 0) (u : View) (r : EventRow) where
  pub inserted :
      (v : View)
      → Ready X u r.workflow_id r.seq v
      → any (conflicts r) v.rows ≡ false
      → At X u r.workflow_id r.seq (record v { rows = v.rows ++ r ∷ [] })
  inserted v b free =
      let number = fits (Or X r.workflow_id) v r b.sequenced b.low b.high free in
      let own = count-added_own r.workflow_id v r refl in
      record {
        sequenced = record {
          numbered = λ w. numbered_after w;
          missing = λ w h. missing_after w h;
          reach = λ w e h.
              let (low, high) = b.sequenced.reach w e h in
              (low, omega (arith, high, count-added_le w v r));
          next = λ w e h free_of.
              let other : r.workflow_id ≢ w = λ e. absurd (free_of (inr (sym e))) in
              omega (arith, b.sequenced.next w e h free_of, count-added_other w v r other);
        };
        grown = Grows-trans u v _ b.grown (record {
          kept = λ test h. any-added test v.rows r h;
          more = λ w. count-added_le w v r;
          stays = λ w e h. (e, h);
        });
        last = omega (arith, own, number);
        known = b.known;
        stored = b.stored;
      }
    where
      numbered_after : (w : ℕ) → IsNumbered 1 (rows_of w (v.rows ++ r ∷ []))
      numbered_after w =
          IsNumbered-added w v r (b.sequenced.numbered w)
            (λ h. rw (sym h) (fits (Or X r.workflow_id) v r b.sequenced b.low b.high free))

      missing_after :
          (w : ℕ)
          → lookup w v.executions ≡ none
          → count w (record v { rows = v.rows ++ r ∷ [] }) ≡ 0
      missing_after w h =
          let other : r.workflow_id ≢ w =
            λ e. let found : lookup w v.executions ≡ some b.known = rw (sym e) b.stored in cc in
          omega (arith, count-added_other w v r other, b.sequenced.missing w h)

  pub insert_event-Triple :
      Triple (Ready X u r.workflow_id r.seq) (insert_event r) (λ _. At X u r.workflow_id r.seq)
  unfolding insert_event
  insert_event-Triple = record {
    run = λ s t a h e. elim (Bool-cases (any (conflicts r) s.history_events)) [
      | inl b ↦ absurd (ground arith)
      | inr free ↦
          let same : t ≡ record s { history_events = s.history_events ++ r ∷ [] } = ground arith in
          rw same (inserted (view s) h free)
    ];
  }

module _ (X : ℕ → Type 0) (u : View) (w n : ℕ) where
  pub append_event-Triple :
      (x : Session) (type : String) (command_id entity_id : Option ℕ) (attributes : Json)
      → Triple
          (Ready X u w n)
          (append_event x w n type command_id entity_id attributes)
          (λ _. At X u w n)
  unfolding append_event
  append_event-Triple x type c e attributes =
      bind-Triple (encode x attributes) _ (quiet-Triple (encode x attributes) (encoded-IsQuiet _))
        (λ text. insert_event-Triple X u (event w n type c e text))

  pub updated :
      (v : View) (e f : Execution)
      → At X u w n v
      → lookup w v.executions ≡ some e
      → f.next_seq ≡ n + 1
      → Base X u (record v { executions = insert w f v.executions })
  unfolding count
  updated v e f a found same = record {
    sequenced = record {
      numbered = a.sequenced.numbered;
      missing = λ i h. a.sequenced.missing i (was_missing i h);
      reach = λ i d h. elim (IsRow-insert i w d f v.executions h) [
        | inl (own, new) ↦ rw (sym own, sym new) (omega (arith, same), omega (arith, same, a.last))
        | inr old ↦ a.sequenced.reach i d old
      ];
      next = λ i d h p. elim (here i d h) [
        | inl (own, new) ↦ rw (own, new) (omega (arith, same, a.last))
        | inr (other, old) ↦
            a.sequenced.next i d old (λ q. elim q [ inl y ↦ p y | inr y ↦ other y ])
      ];
    };
    grown =
        Grows-trans u v _ a.grown
          (record { kept = λ test h. h; more = λ i. omega arith; stays = λ i d h. stays i d h });
  }
    where
      here :
          (i : ℕ) (d : Execution)
          → lookup i (insert w f v.executions) ≡ some d
          → ((i ≡ w) × (d ≡ f)) ⊎ ((i ≢ w) × (lookup i v.executions ≡ some d))
      here i d h = elim (Bool-cases (w == i)) [
        | inl b ↦
            let own : w ≡ i = (nat_eqb_iff w i).0 b in
            let value : lookup i (insert w f v.executions) ≡ some f =
              rw (lookup-insert w i f v.executions, b) refl in
            inl (sym own, eq_of_some (sym h ∙ value))
        | inr b ↦
            let value : lookup i (insert w f v.executions) ≡ lookup i v.executions =
              rw (lookup-insert w i f v.executions, b) refl in
            inr ((λ e. absurd (false≢true (sym b ∙ (nat_eqb_iff w i).1 (sym e)))), sym value ∙ h)
      ]

      was_missing :
          (i : ℕ) → lookup i (insert w f v.executions) ≡ none → lookup i v.executions ≡ none
      was_missing i h = elim (Bool-cases (w == i)) [
        | inl b ↦
            let value : lookup i (insert w f v.executions) ≡ some f =
              rw (lookup-insert w i f v.executions, b) refl in
            cc
        | inr b ↦
            let value : lookup i (insert w f v.executions) ≡ lookup i v.executions =
              rw (lookup-insert w i f v.executions, b) refl in
            sym value ∙ h
      ]

      stays :
          (i : ℕ) (d : Execution)
          → lookup i v.executions ≡ some d
          → (g : Execution) × (lookup i (insert w f v.executions) ≡ some g)
      stays i d h = elim (Bool-cases (w == i)) [
        | inl b ↦ (f, rw (lookup-insert w i f v.executions, b) refl)
        | inr b ↦ (d, rw (lookup-insert w i f v.executions, b) h)
      ]

  pub update_execution-Triple :
      (change : Execution → Execution)
      → ((e : Execution) → (change e).next_seq ≡ n + 1)
      → Triple (At X u w n) (update_execution w change) (λ _. Base X u)
  unfolding update_execution
  update_execution-Triple change f = record {
    run = λ s t a h e.
        let same : t ≡ record s { executions = insert w (change h.known) s.executions } =
          written s t a h.known h.stored e in
        rw same (updated (view s) h.known (change h.known) h h.stored (f h.known));
  }
    where
      written :
          (s t : Store) (a : Void) (d : Execution)
          → lookup w s.executions ≡ some d
          → update_execution w change s ≡ ok (a, t)
          → t ≡ record s { executions = insert w (change d) s.executions }
      written s t a d h e = ground arith

  -- What leaves the events in sequence does not change the stage.
  pub Keeps-Ready :
      {A : Type 0} (m : Tx A) → Keeps m → Triple (Ready X u w n) m (λ _. Ready X u w n)
  Keeps-Ready m k = record {
    run = λ s t a h e.
        let after =
          (k.keeps (Or X w) (view s)).run s t a
            (record { sequenced = h.sequenced; grown = Grows-refl (view s) }) e in
        let (f, stored) = after.grown.stays w h.known h.stored in
        record {
          sequenced = after.sequenced;
          grown = Grows-trans u (view s) (view t) h.grown after.grown;
          low = h.low;
          high = omega (arith, h.high, after.grown.more w);
          known = f;
          stored = stored;
        };
  }
