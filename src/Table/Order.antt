-- ===== src/Table/Order.antt =====
-- ORDER BY key DESC: a stable insertion sort.
use mathlib.Core.List.{Perm}
use mathlib.Core.List.Perm
use zchf_grenadier.Prelude.{List, [], ◌∷◌, if◌then◌else◌, arith, All, Bool-cases, inl, inr}
use zchf_grenadier.Prelude.Int.{ℤ, ltb_ℤ, ◌≤ℤ◌}

module _ {ℓ} {R : Type ℓ} (key : R → ℤ) where
  pub place : R → List R → List R
  place r [] = r ∷ []
  place r (q ∷ l) = let rest = place r l in if ltb_ℤ (key r) (key q) then q ∷ rest else r ∷ q ∷ l

  pub order_desc : List R → List R
  unfolding place
  order_desc [] = []
  order_desc (r ∷ l) = place r (order_desc l)

  abbrev pub IsDescending : List R → Type ℓ
  IsDescending [] = Unit
  IsDescending (r ∷ l) = All (λ q. key q ≤ℤ key r) l × IsDescending l

  place-perm : (r : R) (l : List R) → Perm (place r l) (r ∷ l)
  unfolding place
  place-perm r [] = Perm.refl _
  place-perm r (q ∷ l) = elim (Bool-cases (ltb_ℤ (key r) (key q))) [
    | inl below ↦ rw below (Perm.trans (Perm.cons q (place-perm r l)) (Perm.swap _ _ _))
    | inr above ↦ rw above (Perm.refl _)
  ]

  -- The sort keeps the rows.
  pub order_desc-perm : (l : List R) → Perm (order_desc l) l
  unfolding order_desc
  order_desc-perm [] = Perm.refl _
  order_desc-perm (r ∷ l) =
      Perm.trans (place-perm r (order_desc l)) (Perm.cons r (order_desc-perm l))

  All-place {κ} : (P : R → Type κ) (r : R) (l : List R) → P r → All P l → All P (place r l)
  unfolding place
  All-place P r [] h all = (h, tt)
  All-place P r (q ∷ l) h (first, rest) = elim (Bool-cases (ltb_ℤ (key r) (key q))) [
    | inl below ↦ rw below (first, All-place P r l h rest)
    | inr above ↦ rw above (h, (first, rest))
  ]

  All-weaken :
      (r q : R) (l : List R)
      → key q ≤ℤ key r
      → All (λ x. key x ≤ℤ key q) l
      → All (λ x. key x ≤ℤ key r) l
  All-weaken r q [] h all = tt
  All-weaken r q (x ∷ l) h (first, rest) = (omega arith, All-weaken r q l h rest)

  place-IsDescending : (r : R) (l : List R) → IsDescending l → IsDescending (place r l)
  unfolding place
  place-IsDescending r [] d = (tt, tt)
  place-IsDescending r (q ∷ l) (top, d) = elim (Bool-cases (ltb_ℤ (key r) (key q))) [
    | inl below ↦
        rw below (All-place (λ x. key x ≤ℤ key q) r l (ground arith) top, place-IsDescending r l d)
    | inr above ↦
        let le : key q ≤ℤ key r = ground arith in rw above ((le, All-weaken r q l le top), (top, d))
  ]

  -- The sorted rows descend.
  pub order_desc-IsDescending : (l : List R) → IsDescending (order_desc l)
  unfolding order_desc
  order_desc-IsDescending [] = tt
  order_desc-IsDescending (r ∷ l) = place-IsDescending r (order_desc l) (order_desc-IsDescending l)
