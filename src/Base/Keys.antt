-- ===== src/Base/Keys.antt =====
-- The keys of a dictionary, and how many it has.
use mathlib.Core.Path.{◌≡◌, refl}
use mathlib.Core.Logic.{inl, inr}
use mathlib.Core.Option.{none, some}
use mathlib.Core.List.{[], ◌∷◌}
use Prim.Native.Nat.{◌+◌}
use native.Mathlib.Omega.{arith}
use durable_workflow_engine.Base.Tests.{Eq, ◌==◌, Bool-cases}
use durable_workflow_engine.Base.Lists.{length}
use durable_workflow_engine.Base.Dict.{Dict, lookup, insert, erase}

-- Every key satisfies `P`.
abbrev pub AllKeys {ℓ κ ι} : {K : Type ℓ} {V : Type κ} → (K → Type ι) → Dict K V → Type ι
AllKeys P [] = Unit
AllKeys P ((key, v) ∷ rest) = P key × AllKeys P rest

module _ {ℓ κ} {K : Type ℓ} {V : Type κ} ⦃e : Eq K⦄ where
  pub lookup-AllKeys {ι} :
      (P : K → Type ι) (key : K) (v : V) (d : Dict K V)
      → AllKeys P d
      → lookup key d ≡ some v
      → P key
  unfolding lookup
  lookup-AllKeys P key v [] all h = cc
  lookup-AllKeys P key v ((old, w) ∷ rest) (p, all) h = elim (Bool-cases (old == key)) [
    | inl found ↦ rw ((e.same_iff old key).0 found) at p
    | inr other ↦ lookup-AllKeys P key v rest all (rw other at h)
  ]

  pub insert-AllKeys {ι} :
      (P : K → Type ι) (key : K) (v : V) (d : Dict K V)
      → P key
      → AllKeys P d
      → AllKeys P (insert key v d)
  unfolding insert
  insert-AllKeys P key v [] p all = (p, tt)
  insert-AllKeys P key v ((old, w) ∷ rest) p (q, all) = elim (Bool-cases (old == key)) [
    | inl found ↦ rw found (p, all)
    | inr other ↦ rw other (q, insert-AllKeys P key v rest p all)
  ]

  pub erase-AllKeys {ι} :
      (P : K → Type ι) (key : K) (d : Dict K V) → AllKeys P d → AllKeys P (erase key d)
  unfolding erase
  erase-AllKeys P key [] all = tt
  erase-AllKeys P key ((old, w) ∷ rest) (q, all) = elim (Bool-cases (old == key)) [
    | inl found ↦ rw found all
    | inr other ↦ rw other (q, erase-AllKeys P key rest all)
  ]

  pub AllKeys-map {ι μ} :
      (P : K → Type ι) (Q : K → Type μ) (d : Dict K V)
      → ((key : K) → P key → Q key)
      → AllKeys P d
      → AllKeys Q d
  AllKeys-map P Q [] f all = tt
  AllKeys-map P Q ((old, w) ∷ rest) f (q, all) = (f old q, AllKeys-map P Q rest f all)

  pub length-insert_new :
      (key : K) (v : V) (d : Dict K V)
      → lookup key d ≡ none
      → length (insert key v d) ≡ length d + 1
  unfolding lookup insert
  length-insert_new key v [] h = omega arith
  length-insert_new key v ((old, w) ∷ rest) h = elim (Bool-cases (old == key)) [
    | inl found ↦ let none_here = rw found at h in cc
    | inr other ↦
        let more = length-insert_new key v rest (rw other at h) in rw other (omega (arith, more))
  ]

  pub length-insert_old :
      (key : K) (v w : V) (d : Dict K V)
      → lookup key d ≡ some w
      → length (insert key v d) ≡ length d
  unfolding lookup insert
  length-insert_old key v w [] h = cc
  length-insert_old key v w ((old, x) ∷ rest) h = elim (Bool-cases (old == key)) [
    | inl found ↦ rw found refl
    | inr other ↦
        let same = length-insert_old key v w rest (rw other at h) in rw other (omega (arith, same))
  ]

  pub length-erase :
      (key : K) (w : V) (d : Dict K V) → lookup key d ≡ some w → length d ≡ length (erase key d) + 1
  unfolding lookup erase
  length-erase key w [] h = cc
  length-erase key w ((old, x) ∷ rest) h = elim (Bool-cases (old == key)) [
    | inl found ↦ rw found (omega arith)
    | inr other ↦
        let less = length-erase key w rest (rw other at h) in rw other (omega (arith, less))
  ]
