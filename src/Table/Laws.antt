-- ===== src/Table/Laws.antt =====
-- What a table holds after an upsert or an insert.
use mathlib.Core.Option.{some-injective}
use zchf_grenadier.Prelude.{
  ◌+◌, ◌≤◌, ◌≡◌, refl, ap, Bool, true, none, some, [], ◌∷◌, ◌++◌, Eq, ◌==◌, ==_refl, if◌then◌else◌,
  arith, All, length, keep, Bool-cases, inl, inr,
}
use zchf_grenadier.Table.{Table, find, upsert, HasUniqueKeys}

module _ {ℓ κ} {K : Type ℓ} {R : Type κ} ⦃e : Eq K⦄ where
  pub find-upsert :
      (k j : K) (r : R) (t : Table K R)
      → find j (upsert k r t) ≡ (if k == j then some r else find j t)
  unfolding find upsert
  find-upsert k j r [] = refl
  find-upsert k j r ((i, q) ∷ t) =
      ground (arith, e.beq_iff k j, e.beq_iff i k, e.beq_iff i j, find-upsert k j r t)

  pub find-upsert_self : (k : K) (r : R) (t : Table K R) → find k (upsert k r t) ≡ some r
  find-upsert_self k r t = rw (find-upsert k k r t, ==_refl k)

  pub find-append : (k : K) (t u : Table K R) → find k t ≡ none → find k (t ++ u) ≡ find k u
  unfolding find
  find-append k [] u h = refl
  find-append k ((j, r) ∷ t) u h = ground (arith, find-append k t u)

  pub upsert-HasUniqueKeys :
      (k : K) (r : R) (t : Table K R) → HasUniqueKeys t → HasUniqueKeys (upsert k r t)
  unfolding find upsert
  upsert-HasUniqueKeys k r [] h = (refl, tt)
  upsert-HasUniqueKeys k r ((j, q) ∷ t) (absent, unique) = elim (Bool-cases (j == k)) [
    | inl same ↦ rw same (rw ((e.beq_iff j k).0 same) at absent, unique)
    | inr other ↦ rw other (
      ground (arith, find-upsert k j r t, e.beq_iff k j, e.beq_iff j k),
      upsert-HasUniqueKeys k r t unique,
    )
  ]

  -- A row that satisfies the predicate, put among rows that do.
  pub All-upsert {μ} :
      (P : K × R → Type μ) (k : K) (r : R) (t : Table K R)
      → P (k, r)
      → All P t
      → All P (upsert k r t)
  unfolding upsert
  All-upsert P k r [] h all = (h, tt)
  All-upsert P k r ((j, q) ∷ t) h (first, rest) = elim (Bool-cases (j == k)) [
    | inl same ↦ rw same (h, rest)
    | inr other ↦ rw other (first, All-upsert P k r t h rest)
  ]

  pub All-find {μ} :
      (P : K × R → Type μ) (k : K) (t : Table K R) {r : R} → All P t → find k t ≡ some r → P (k, r)
  unfolding find
  All-find P k [] all h = let bad : none ≡ some _ = h in cc
  All-find P k ((j, q) ∷ t) {r} (first, rest) h = elim (Bool-cases (j == k)) [
    | inl same ↦
        let value : some q ≡ some r = rw same at h in
        rw (← (e.beq_iff j k).0 same, ← some-injective q r value) first
    | inr other ↦ All-find P k t rest (rw other at h)
  ]

  pub length-upsert-le : (k : K) (r : R) (t : Table K R) → length (upsert k r t) ≤ length t + 1
  unfolding upsert
  length-upsert-le k r [] = omega arith
  length-upsert-le k r ((j, q) ∷ t) = ground (arith, length-upsert-le k r t)

  pub upsert-upsert_self :
      (k : K) (q r : R) (t : Table K R) → upsert k r (upsert k q t) ≡ upsert k r t
  unfolding upsert
  upsert-upsert_self k q r [] = ground (arith, ==_refl k)
  upsert-upsert_self k q r ((j, x) ∷ t) =
      ground (arith, ==_refl k, e.beq_iff j k, upsert-upsert_self k q r t)

  -- A row that passes the test is still found among the rows that do.
  pub find-keep :
      (p : K × R → Bool) (k : K) (r : R) (t : Table K R)
      → find k t ≡ some r
      → p (k, r) ≡ true
      → find k (keep p t) ≡ some r
  unfolding find
  find-keep p k r [] h kept = h
  find-keep p k r ((j, q) ∷ t) h kept = elim (Bool-cases (j == k)) [
    | inl same ↦
        let here : j ≡ k = (e.beq_iff j k).0 same in
        let value : q ≡ r = some-injective q r (rw same at h) in
        let first : p (j, q) ≡ true = rw (here, value) kept in
        rw (first, find, same) (ap some value)
    | inr other ↦
        let rest = find-keep p k r t (rw other at h) kept in
        elim (Bool-cases (p (j, q))) [
          | inl stay ↦ rw (stay, find, other) rest
          | inr gone ↦ rw gone rest
        ]
  ]

  pub length-upsert_new :
      (k : K) (r : R) (t : Table K R) → find k t ≡ none → length (upsert k r t) ≡ length t + 1
  unfolding find upsert
  length-upsert_new k r [] h = omega arith
  length-upsert_new k r ((j, q) ∷ t) h = elim (Bool-cases (j == k)) [
    | inl same ↦ let bad : some q ≡ none = rw same at h in cc
    | inr other ↦
        let rest = length-upsert_new k r t (rw other at h) in rw other (omega (arith, rest))
  ]
