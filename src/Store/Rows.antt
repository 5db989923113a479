-- ===== src/Store/Rows.antt =====
-- engine/persistence: the rows that a table holds, and those that a query gives.
use mathlib.Core.Bool.{false≢true}
use durable_workflow_engine.Base.{
  ◌∷◌, [], Bool-cases, if◌then◌else◌, nat_eqb_iff, ◌==◌, eq_of_some, nat_eq, sym, ◌∙◌, refl, true,
  false,
}
use durable_workflow_engine.Store.{rows_where, place, order_by}
use durable_workflow_engine.Base.{ℕ, ◌≡◌, Bool, some, ◌⊎◌, inl, inr}
use durable_workflow_engine.Base.Dict.{Dict, lookup, insert}

-- The table has the row `v` under the key `k`.
abbrev pub IsRow : {K V : Type 0} → K → V → Dict K V → Type 0
IsRow k v [] = ⊥
IsRow k v ((j, u) ∷ rest) = ((j ≡ k) × (u ≡ v)) ⊎ IsRow k v rest

module _ {V : Type 0} where
  pub lookup-IsRow : (k : ℕ) (v : V) (d : Dict ℕ V) → lookup k d ≡ some v → IsRow k v d
  unfolding lookup
  lookup-IsRow k v [] h = cc
  lookup-IsRow k v ((j, u) ∷ rest) h = elim (Bool-cases (j == k)) [
    | inl b ↦
        let value : lookup k ((j, u) ∷ rest) ≡ some u = rw b refl in
        inl ((nat_eqb_iff j k).0 b, eq_of_some (sym value ∙ h))
    | inr b ↦
        let value : lookup k ((j, u) ∷ rest) ≡ lookup k rest = rw b refl in
        inr (lookup-IsRow k v rest (sym value ∙ h))
  ]

  if-IsRow :
      (k : ℕ) (v : V) (b : Bool) (c d : Dict ℕ V)
      → IsRow k v (if b then c else d)
      → IsRow k v c ⊎ IsRow k v d
  if-IsRow k v true c d h = inl h
  if-IsRow k v false c d h = inr h

  pub IsRow-insert :
      (k w : ℕ) (v f : V) (d : Dict ℕ V)
      → IsRow k v (insert w f d)
      → ((w ≡ k) × (f ≡ v)) ⊎ IsRow k v d
  unfolding insert
  IsRow-insert k w v f [] h = h
  IsRow-insert k w v f ((j, u) ∷ rest) h =
      elim (if-IsRow k v (j == w) ((w, f) ∷ rest) ((j, u) ∷ insert w f rest) h) [
        | inl (inl p) ↦ inl p
        | inl (inr p) ↦ inr (inr p)
        | inr (inl p) ↦ inr (inl p)
        | inr (inr p) ↦ (elim (IsRow-insert k w v f rest p) [ inl q ↦ inl q | inr q ↦ inr (inr q) ])
      ]

  pub IsRow-known : (k : ℕ) (v : V) (d : Dict ℕ V) → IsRow k v d → (u : V) × (lookup k d ≡ some u)
  unfolding lookup
  IsRow-known k v [] h = absurd h
  IsRow-known k v ((j, u) ∷ rest) h = elim (Bool-cases (j == k)) [
    | inl b ↦ (u, rw b refl)
    | inr b ↦ elim h [
      | inl (same, e) ↦ absurd (false≢true (sym b ∙ (nat_eqb_iff j k).1 same))
      | inr p ↦ let (w, found) = IsRow-known k v rest p in (w, rw b found)
    ]
  ]

  pub rows_where-IsRow :
      (test : ℕ → V → Bool) (k : ℕ) (v : V) (d : Dict ℕ V)
      → IsRow k v (rows_where test d)
      → IsRow k v d
  rows_where-IsRow test k v [] h = h
  rows_where-IsRow test k v ((j, u) ∷ rest) h =
      elim (if-IsRow k v (test j u) ((j, u) ∷ rows_where test rest) (rows_where test rest) h) [
        | inl (inl p) ↦ inl p
        | inl (inr p) ↦ inr (rows_where-IsRow test k v rest p)
        | inr p ↦ inr (rows_where-IsRow test k v rest p)
      ]

  place-IsRow :
      (before : ℕ × V → ℕ × V → Bool) (k : ℕ) (v : V) (j : ℕ) (u : V) (d : Dict ℕ V)
      → IsRow k v (place before (j, u) d)
      → ((j ≡ k) × (u ≡ v)) ⊎ IsRow k v d
  place-IsRow before k v j u [] h = h
  place-IsRow before k v j u ((i, w) ∷ rest) h =
      elim (if-IsRow k v (before (i, w) (j, u)) ((i, w) ∷ place before (j, u) rest)
        ((j, u) ∷ (i, w) ∷ rest) h) [
          | inl (inl p) ↦ inr (inl p)
          | inl (inr p) ↦ (elim (place-IsRow before k v j u rest p) [
            | inl q ↦ inl q
            | inr q ↦ inr (inr q)
          ])
          | inr p ↦ p
        ]

  pub order_by-IsRow :
      (before : ℕ × V → ℕ × V → Bool) (k : ℕ) (v : V) (d : Dict ℕ V)
      → IsRow k v (order_by before d)
      → IsRow k v d
  order_by-IsRow before k v [] h = h
  order_by-IsRow before k v ((j, u) ∷ rest) h =
      elim (place-IsRow before k v j u (order_by before rest) h) [
        | inl p ↦ inl p
        | inr p ↦ inr (order_by-IsRow before k v rest p)
      ]
