-- ===== src/Table/Inserts.antt =====
-- Plain INSERTs one after the other, as the snapshot writers send them.
use mathlib.Core.Option.{some-injective}
use mathlib.Core.Path.{subst}
use mathlib.Core.List.{append_assoc, append-nil}
use zchf_grenadier.Prelude.{
  ◌≡◌, refl, ◌∙◌, sym, false, Option, none, some, List, [], ◌∷◌, ◌++◌, Eq, ◌==◌, arith, Bool-cases,
  Option-cases, inl, inr,
}
use zchf_grenadier.Table.{Table, find, insert, HasUniqueKeys}
use zchf_grenadier.Table.Laws.{find-append}

module _ {ℓ κ} {K : Type ℓ} {R : Type κ} ⦃e : Eq K⦄ where
  unfoldable pub insert_all : List (K × R) → Table K R → Option (Table K R)
  insert_all [] t = some t
  insert_all ((k, r) ∷ ps) t = elim (insert k r t) [ none ↦ none | some u ↦ insert_all ps u ]

  find-append_none :
      (k : K) (t u : Table K R) → find k (t ++ u) ≡ none → (find k t ≡ none) × (find k u ≡ none)
  unfolding find
  find-append_none k [] u h = (refl, h)
  find-append_none k ((j, r) ∷ t) u h = elim (Bool-cases (j == k)) [
    | inl same ↦ let bad : some r ≡ none = rw same at h in cc
    | inr other ↦ rw other (find-append_none k t u (rw other at h))
  ]

  other_key : (j k : K) (r : R) (u : Table K R) → find j ((k, r) ∷ u) ≡ none → (j == k) ≡ false
  unfolding find
  other_key j k r u h = elim (Bool-cases (k == j)) [
    | inl same ↦ let bad : some r ≡ none = rw same at h in cc
    | inr other ↦ ground (arith, e.beq_iff k j, e.beq_iff j k)
  ]

  absent_before :
      (k : K) (r : R) (t u : Table K R) → HasUniqueKeys (t ++ (k, r) ∷ u) → find k t ≡ none
  unfolding find
  absent_before k r [] u h = refl
  absent_before k r ((j, q) ∷ t) u (absent, unique) =
      rw (other_key j k r u (find-append_none j t ((k, r) ∷ u) absent).1)
        (absent_before k r t u unique)

  HasUniqueKeys-snoc :
      (k : K) (r : R) (t : Table K R)
      → find k t ≡ none
      → HasUniqueKeys t
      → HasUniqueKeys (t ++ (k, r) ∷ [])
  unfolding find
  HasUniqueKeys-snoc k r [] h unique = (refl, tt)
  HasUniqueKeys-snoc k r ((j, q) ∷ t) h (absent, unique) = elim (Bool-cases (j == k)) [
    | inl same ↦ let bad : some q ≡ none = rw same at h in cc
    | inr other ↦
        let apart : (k == j) ≡ false = ground (arith, e.beq_iff k j, e.beq_iff j k) in
        (
          find-append j t ((k, r) ∷ []) absent ∙ rw apart refl,
          HasUniqueKeys-snoc k r t (rw other at h) unique,
        )
  ]

  insert_absent :
      (k : K) (r : R) (t : Table K R) → find k t ≡ none → insert k r t ≡ some (t ++ (k, r) ∷ [])
  unfolding insert
  insert_absent k r t h = rw (h, insert) refl

  insert_present : (k : K) (q r : R) (t : Table K R) → find k t ≡ some q → insert k r t ≡ none
  unfolding insert
  insert_present k q r t h = rw (h, insert) refl

  shift : (p : K × R) (t ps : Table K R) → t ++ p ∷ ps ≡ (t ++ p ∷ []) ++ ps
  shift p t ps = sym (append_assoc t (p ∷ []) ps)

  -- Rows whose keys are new, and differ from each other, are all inserted, in order.
  pub insert_all_unique :
      (ps t : Table K R) → HasUniqueKeys (t ++ ps) → insert_all ps t ≡ some (t ++ ps)
  unfolding insert_all
  insert_all_unique [] t h = rw (append-nil t) refl
  insert_all_unique ((k, r) ∷ ps) t h =
      rw (insert_all, insert_absent k r t (absent_before k r t ps h), shift (k, r) t ps)
        (insert_all_unique ps (t ++ (k, r) ∷ []) (subst HasUniqueKeys (shift (k, r) t ps) h))

  -- Whatever is inserted, the rows stand behind the old ones and no key stands twice.
  pub insert_all-some :
      (ps t u : Table K R)
      → HasUniqueKeys t
      → insert_all ps t ≡ some u
      → (u ≡ t ++ ps) × HasUniqueKeys u
  unfolding insert_all
  insert_all-some [] t u unique h =
      let same : t ≡ u = some-injective t u h in
      (sym same ∙ sym (append-nil t), subst HasUniqueKeys same unique)
  insert_all-some ((k, r) ∷ ps) t u unique h = elim (Option-cases (find k t)) [
    | inl absent ↦ rw (shift (k, r) t ps) (
        insert_all-some ps (t ++ (k, r) ∷ []) u (HasUniqueKeys-snoc k r t absent unique)
          (rw (insert_absent k r t absent, insert_all) at h))
    | inr (q, there) ↦
        let bad : none ≡ some u = rw (insert_present k q r t there, insert_all) at h in cc
  ]
