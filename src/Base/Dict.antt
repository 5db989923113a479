-- ===== src/Base/Dict.antt =====
-- Python's dict as an association list in insertion order: a write to an old key keeps its place.
use mathlib.Core.Path.{◌≡◌, refl}
use mathlib.Core.Bool.{Bool}
use mathlib.Core.Option.{Option, none, some}
use mathlib.Core.List.{List, [], ◌∷◌}
use native.Mathlib.Omega.{arith}
use durable_workflow_engine.Base.Tests.{Eq, ◌==◌, if◌then◌else◌, is_some}

abbrev pub Dict {ℓ κ} : Type ℓ → Type κ → Type (ℓ ⊔ κ)
Dict K V = List (K × V)

module _ {ℓ κ} {K : Type ℓ} {V : Type κ} ⦃e : Eq K⦄ where
  unfoldable pub lookup : K → Dict K V → Option V
  lookup key [] = none
  lookup key ((old, v) ∷ rest) = if old == key then some v else lookup key rest

  unfoldable pub insert : K → V → Dict K V → Dict K V
  insert key new [] = (key, new) ∷ []
  insert key new ((old, v) ∷ rest) =
      if old == key then (key, new) ∷ rest else (old, v) ∷ insert key new rest

  unfoldable pub erase : K → List (K × V) → List (K × V)
  erase k [] = []
  erase k ((j, w) ∷ m) = if j == k then m else (j, w) ∷ erase k m

  abbrev pub has_key : K → List (K × V) → Bool
  has_key k m = is_some (lookup k m)

  pub lookup-insert :
      (written read : K) (new : V) (d : Dict K V)
      → lookup read (insert written new d) ≡ (if written == read then some new else lookup read d)
  unfolding lookup insert
  lookup-insert written read new [] = refl
  lookup-insert written read new ((old, v) ∷ rest) =
      let below = lookup-insert written read new rest in
      ground (arith, below, e.same_iff written read, e.same_iff old written, e.same_iff old read)
