-- ===== src/Determinism.antt =====
-- engine/sdk/context.py and engine/runtime/replay.py: replay against a history and against a longer
-- one. `IsStable m` states that what `m` returns or raises for good at a history it also returns or
-- raises at every longer history, with the same context after it. The rules below follow the
-- operations' code; the children apply them.
pub mod Calls
pub mod Markers
pub mod Gather
pub mod Steady
pub mod Traces
pub mod Workflows
pub mod Hazards
pub mod Signals
pub mod Updates
pub mod Children
use durable_workflow_engine.Commands.{Command}
use mathlib.Core.Bool.{false≢true}
use durable_workflow_engine.Base.Dict.{lookup}
use durable_workflow_engine.History.Extension.{IsBounded, Extends}
use durable_workflow_engine.Base.{
  Bool, ℕ, ◌≡◌, false, true, ◌∙◌, Option-cases, refl, inl, inr, nat_eq, Option, String,
  if◌then◌else◌, some, none, sym, List,
}
use durable_workflow_engine.Platform.{Serialized, value_of, serialization_error}
use durable_workflow_engine.Context.{
  Outcome, M, pure, Raised, take_command_id, WorkflowContext, raise, serialized, guard, ◌>>=◌,
  raised, bind, new_commands, recorded_or, returned, blocked, await_end, if_none, recorded_entity,
  non_determinism, no_identity,
}
use durable_workflow_engine.History.{HistoryIndex, HistoryEvent}

-- `y` indexes a history that goes on where that of `x` ends.
pub record Longer (x y : HistoryIndex) : Type 0 where
  pub bounded : IsBounded x.indexes
  pub extends : Extends x.indexes y.indexes

abbrev pub with_history : HistoryIndex → WorkflowContext → WorkflowContext
with_history y c = record c { history = y }

-- Every end but the two that wait for more history.
abbrev pub is_settled {ℓ} : {A : Type ℓ} → Outcome A → Bool
is_settled (raised (new_commands cs)) = false
is_settled (raised blocked) = false
is_settled _ = true

pub record IsStable {A : Type 0} (m : M A) : Type 0 where
  pub keeps : (c : WorkflowContext) → (m c).1.history ≡ c.history
  pub stays :
      (c : WorkflowContext) (y : HistoryIndex)
      → Longer c.history y
      → is_settled (m c).0 ≡ true
      → m (with_history y c) ≡ ((m c).0, with_history y (m c).1)

module _ {A : Type 0} where
  pub pure-IsStable : (a : A) → IsStable (pure a)
  pure-IsStable a = record { keeps = λ c. refl; stays = λ c y l h. refl }

  pub raise-IsStable : (e : Raised) → IsStable {A = A} (raise e)
  raise-IsStable e = record { keeps = λ c. refl; stays = λ c y l h. refl }

  pub serialized-IsStable : (s : Serialized A) → IsStable (serialized s)
  serialized-IsStable (value_of a) = record { keeps = λ c. refl; stays = λ c y l h. refl }
  serialized-IsStable serialization_error = record { keeps = λ c. refl; stays = λ c y l h. refl }

pub guard-IsStable : (b : Bool) (e : Raised) → IsStable (guard b e)
guard-IsStable true e = record { keeps = λ c. refl; stays = λ c y l h. refl }
guard-IsStable false e = record { keeps = λ c. refl; stays = λ c y l h. refl }

pub take_command_id-IsStable : IsStable take_command_id
take_command_id-IsStable = record { keeps = λ c. refl; stays = λ c y l h. refl }

module _ {A B : Type 0} (f : A → M B) where
  bind-keeps :
      (x : HistoryIndex) (r : Outcome A × WorkflowContext)
      → ((a : A) → IsStable (f a))
      → r.1.history ≡ x
      → (bind r f).1.history ≡ x
  bind-keeps x (returned a, c) s e = (s a).keeps c ∙ e
  bind-keeps x (raised r, c) s e = e

  bind-stays :
      (y : HistoryIndex) (r : Outcome A × WorkflowContext)
      → ((a : A) → IsStable (f a))
      → Longer r.1.history y
      → is_settled (bind r f).0 ≡ true
      → bind (r.0, with_history y r.1) f ≡ ((bind r f).0, with_history y (bind r f).1)
  bind-stays y (returned a, c) s l h = (s a).stays c y l h
  bind-stays y (raised r, c) s l h = refl

  bind_settled :
      (r : Outcome A × WorkflowContext) → is_settled (bind r f).0 ≡ true → is_settled r.0 ≡ true
  bind_settled (returned a, c) h = refl
  bind_settled (raised e, c) h = settled e h
    where
      settled :
          (e : Raised) → is_settled {A = B} (raised e) ≡ true → is_settled {A = A} (raised e) ≡ true
      settled (new_commands cs) h = h
      settled blocked h = h
      settled _ h = refl

  pub bind-IsStable : (m : M A) → IsStable m → ((a : A) → IsStable (f a)) → IsStable (m >>= f)
  bind-IsStable m s t = record {
    keeps = λ c. bind-keeps c.history (m c) t (s.keeps c);
    stays = λ c y l h.
        let same = s.stays c y l (bind_settled (m c) h) in
        rw same (bind-stays y (m c) t (rw (← s.keeps c) at l) h);
  }

module _ {A : Type 0} where
  -- What an operation does when the history lacks its command: it does not settle.
  abbrev pub Waits : M A → Type 0
  Waits m = (c : WorkflowContext) → (is_settled (m c).0 ≡ false) × ((m c).1.history ≡ c.history)

  -- A look-up whose result, once there, stays: its `none` case waits.
  module _ (look : HistoryIndex → Option HistoryEvent) (missing : WorkflowContext → M A)
      (found : HistoryEvent → M A) (waits : (c : WorkflowContext) → Waits (missing c))
      (stable : (e : HistoryEvent) → IsStable (found e)) where
    pub look_keeps :
        (c : WorkflowContext) (r : Option HistoryEvent)
        → (if_none r (missing c) found c).1.history ≡ c.history
    look_keeps c none = (waits c c).1
    look_keeps c (some e) = (stable e).keeps c

    pub look_stays :
        (c : WorkflowContext) (y : HistoryIndex) (r q : Option HistoryEvent)
        → Longer c.history y
        → ((e : HistoryEvent) → r ≡ some e → q ≡ some e)
        → is_settled (if_none r (missing c) found c).0 ≡ true
        → if_none q (missing (with_history y c)) found (with_history y c)
          ≡ ((if_none r (missing c) found c).0, with_history y (if_none r (missing c) found c).1)
    look_stays c y none q l sub h = absurd (false≢true (sym (waits c c).0 ∙ h))
    look_stays c y (some e) q l sub h = rw (sub e refl) ((stable e).stays c y l h)

    pub look-IsStable :
        ((x y : HistoryIndex) → Longer x y → (e : HistoryEvent) → look x ≡ some e → look y ≡ some e)
        → IsStable (λ c. if_none (look c.history) (missing c) found c)
    look-IsStable sub = record {
      keeps = λ c. look_keeps c (look c.history);
      stays = λ c y l h. look_stays c y (look c.history) (look y) l (sub c.history y l) h;
    }

  pub recorded_or-IsStable :
      (n : ℕ) (missing : WorkflowContext → M A) (found : HistoryEvent → M A)
      → ((c : WorkflowContext) → Waits (missing c))
      → ((e : HistoryEvent) → IsStable (found e))
      → IsStable (recorded_or n missing found)
  recorded_or-IsStable n missing found waits s =
      look-IsStable (λ x. lookup n x.scheduled) missing found waits s
        (λ x y l e. l.extends.scheduled n e)

  module _ (u : ℕ) (found : HistoryEvent → M A) (s : (e : HistoryEvent) → IsStable (found e)) where
    pub await_activity-IsStable : IsStable (await_end (λ x. x.activity_terminal) u found)
    await_activity-IsStable =
        look-IsStable (λ x. lookup u x.activity_terminal) (λ c. raise blocked) found
          (λ c d. (refl, refl)) s (λ x y l e. l.extends.activity u e)

    pub await_timer-IsStable : IsStable (await_end (λ x. x.timer_terminal) u found)
    await_timer-IsStable =
        look-IsStable (λ x. lookup u x.timer_terminal) (λ c. raise blocked) found
          (λ c d. (refl, refl)) s (λ x y l e. l.extends.timer u e)

    pub await_child-IsStable : IsStable (await_end (λ x. x.child_terminal) u found)
    await_child-IsStable =
        look-IsStable (λ x. lookup u x.child_terminal) (λ c. raise blocked) found
          (λ c d. (refl, refl)) s (λ x y l e. l.extends.child u e)

pub recorded_entity-IsStable :
    (n : ℕ) (what : String) (e : HistoryEvent) → IsStable (recorded_entity n what e)
recorded_entity-IsStable n what e = cases e.entity_id
  where
    cases :
        (o : Option ℕ)
        → IsStable {A = ℕ}
            (elim o [ none ↦ raise (non_determinism n (no_identity what)) | some u ↦ pure u ])
    cases none = raise-IsStable (non_determinism n (no_identity what))
    cases (some u) = pure-IsStable u

pub if-IsStable :
    {A : Type 0} (b : Bool) (m k : M A) → IsStable m → IsStable k → IsStable (if b then m else k)
if-IsStable true m k s t = s
if-IsStable false m k s t = t

pub ruleset stability = (
  bind-IsStable, pure-IsStable, raise-IsStable, serialized-IsStable, guard-IsStable,
  take_command_id-IsStable, recorded_entity-IsStable, if-IsStable, await_activity-IsStable,
  await_timer-IsStable, await_child-IsStable, recorded_or-IsStable,
)

pub new_commands-Waits :
    (A : Type 0) (f : WorkflowContext → List Command) (c : WorkflowContext)
    → Waits {A = A} (raise (new_commands (f c)))
new_commands-Waits A f c d = (refl, refl)
