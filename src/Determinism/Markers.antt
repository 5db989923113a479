-- ===== src/Determinism/Markers.antt =====
-- engine/sdk/context.py: the recorded values of `now`, `random` and `uuid`.

use durable_workflow_engine.Commands.{record_marker}
use durable_workflow_engine.Json.{Json}
use durable_workflow_engine.Context.{WorkflowContext, ◌>>=◌, raise, new_commands}
use durable_workflow_engine.History.{HistoryEvent}
use durable_workflow_engine.Determinism.{IsStable, stability, Waits, bind-IsStable}
use durable_workflow_engine.Base.{String, ℕ, ◌≡◌, ◌⊎◌, ◌∷◌, [], inl, inr, refl, arith}
use durable_workflow_engine.Context.Marker.{
  recorded_marker, derived_marker_value, marker, invalid, read_time, read_random, read_uuid, now,
  random, uuid,
}
use durable_workflow_engine.Platform.{Platform}

module _ (p : Platform) where
  recorded_marker-IsStable :
      (kind : String) (n : ℕ) (f : String) (s : HistoryEvent)
      → IsStable (recorded_marker p kind n f s)
  unfolding recorded_marker
  recorded_marker-IsStable kind n f s = search stability depth 9

  -- The three kinds of marker.
  abbrev pub IsKind : String → Type 0
  IsKind kind = (kind ≡ "now") ⊎ (kind ≡ "random") ⊎ (kind ≡ "uuid")

  missing-Waits :
      (kind : String)
      → IsKind kind
      → (n : ℕ) (f : String) (c : WorkflowContext)
      → Waits (
          derived_marker_value p kind n >>= λ value.
          raise {A = Json} (new_commands (record_marker n kind value f ∷ [])))
  unfolding derived_marker_value
  missing-Waits kind (inl e) n f c d = rw e (refl, refl)
  missing-Waits kind (inr (inl e)) n f c d = rw e (refl, refl)
  missing-Waits kind (inr (inr e)) n f c d = rw e (refl, refl)

  marker-IsStable : (kind : String) → IsKind kind → IsStable (marker p kind)
  unfolding marker
  marker-IsStable kind k =
      search (stability, missing-Waits kind k, recorded_marker-IsStable) depth 10

  invalid-IsStable : (A : Type 0) (what : String) → IsStable {A = A} (invalid p what)
  invalid-IsStable A what = record { keeps = λ c. refl; stays = λ c y l h. refl }

  read_time-IsStable : (v : Json) → IsStable (read_time p v)
  unfolding read_time
  read_time-IsStable v = record { keeps = λ c. ground arith; stays = λ c y l h. ground arith }

  read_random-IsStable : (v : Json) → IsStable (read_random p v)
  unfolding read_random
  read_random-IsStable v = record { keeps = λ c. ground arith; stays = λ c y l h. ground arith }

  read_uuid-IsStable : (v : Json) → IsStable (read_uuid p v)
  unfolding read_uuid
  read_uuid-IsStable v = record { keeps = λ c. ground arith; stays = λ c y l h. ground arith }

  pub now-IsStable : IsStable (now p)
  unfolding now
  now-IsStable =
      bind-IsStable (read_time p) (marker p "now") (marker-IsStable "now" (inl refl))
        read_time-IsStable

  pub random-IsStable : IsStable (random p)
  unfolding random
  random-IsStable =
      bind-IsStable (read_random p) (marker p "random") (marker-IsStable "random" (inr (inl refl)))
        read_random-IsStable

  pub uuid-IsStable : IsStable (uuid p)
  unfolding uuid
  uuid-IsStable =
      bind-IsStable (read_uuid p) (marker p "uuid") (marker-IsStable "uuid" (inr (inr refl)))
        read_uuid-IsStable
