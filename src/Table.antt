-- ===== src/Table.antt =====
-- An SQLite table with a primary key, as the rows in the order of their row ids. An upsert
-- (INSERT … ON CONFLICT DO UPDATE) replaces the row of its key in place or appends one; a plain
-- INSERT of a key that is there violates the constraint.
pub mod Laws
pub mod Inserts
pub mod Order
use zchf_grenadier.Prelude.{
  ℕ, ◌≡◌, Bool, true, false, Option, none, some, List, [], ◌∷◌, ◌++◌, map, Eq, ◌==◌, if◌then◌else◌,
  keep,
}

abbrev pub Table {ℓ κ} : Type ℓ → Type κ → Type (ℓ ⊔ κ)
Table K R = List (K × R)

module _ {ℓ κ} {K : Type ℓ} {R : Type κ} ⦃e : Eq K⦄ where
  -- SELECT … WHERE key = k
  unfoldable pub find : K → Table K R → Option R
  find k [] = none
  find k ((j, r) ∷ t) = if j == k then some r else find k t

  -- INSERT … ON CONFLICT(key) DO UPDATE
  unfoldable pub upsert : K → R → Table K R → Table K R
  upsert k r [] = (k, r) ∷ []
  upsert k r ((j, q) ∷ t) = let rest = upsert k r t in if j == k then (k, r) ∷ t else (j, q) ∷ rest

  -- INSERT
  unfoldable pub insert : K → R → Table K R → Option (Table K R)
  unfolding find
  insert k r t = elim (find k t) [ none ↦ some (t ++ (k, r) ∷ []) | some q ↦ none ]

  -- No key stands twice.
  abbrev pub HasUniqueKeys : Table K R → Type (ℓ ⊔ κ)
  HasUniqueKeys [] = Unit
  HasUniqueKeys ((k, r) ∷ t) = (find k t ≡ none) × HasUniqueKeys t

module _ {ℓ κ} {K : Type ℓ} {R : Type κ} where
  unfoldable pub rows : Table K R → List R
  rows = map (λ p. p.1)

  -- SELECT … WHERE test
  unfoldable pub select : (R → Bool) → Table K R → List R
  unfolding rows
  select test t = keep test (rows t)
