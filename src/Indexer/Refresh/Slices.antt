-- ===== src/Indexer/Refresh/Slices.antt =====
-- The chunks of getLogsChunked are the address list, cut.
use zchf_grenadier.Prelude.{
  ℕ, zero, suc, ◌+◌, ◌-◌, ◌*◌, ◌/◌, ◌≤◌, ◌≡◌, refl, ap, ◌∙◌, sym, List, [], ◌∷◌, ◌++◌, length, take,
  drop, ltb, leb, arith, All, Bool-cases, inl, inr, length-take, length-drop,
}
use mathlib.Core.List.{append-nil}
use zchf_grenadier.Text.{Text}
use zchf_grenadier.Indexer.Refresh.{slice_end, slices_from, slices, addr_chunk}

abbrev pub joined {ℓ} : {A : Type ℓ} → List (List A) → List A
joined [] = []
joined (s ∷ ss) = s ++ joined ss

module _ {ℓ} {A : Type ℓ} where
  drop_past : (n : ℕ) (xs : List A) → length xs ≤ n → drop n xs ≡ []
  drop_past zero [] h = refl
  drop_past zero (x ∷ xs) h = absurd (omega arith)
  drop_past (suc n) [] h = refl
  drop_past (suc n) (x ∷ xs) h = drop_past n xs (omega arith)

  take-drop : (n : ℕ) (xs : List A) → take n xs ++ drop n xs ≡ xs
  take-drop zero xs = refl
  take-drop (suc n) [] = refl
  take-drop (suc n) (x ∷ xs) = ap (λ ys. x ∷ ys) (take-drop n xs)

  drop_more : (n m : ℕ) (xs : List A) → drop m (drop n xs) ≡ drop (n + m) xs
  drop_more zero m xs = ap (λ k. drop k xs) (omega arith)
  drop_more (suc n) m [] =
      drop_past m [] (omega arith) ∙ sym (drop_past (suc n + m) [] (omega arith))
  drop_more (suc n) m (x ∷ xs) =
      let shift : suc (n + m) ≡ suc n + m = omega arith in
      drop_more n m xs ∙ ap (λ k. drop k (x ∷ xs)) shift

module _ (size : ℕ) where
  abbrev Fits : List Text → Type 0
  Fits s = length s ≤ size

  slice_end_bounds :
      (start n : ℕ) → (slice_end size start n ≤ n) × (slice_end size start n ≤ start + size)
  unfolding slice_end
  slice_end_bounds start n = ground arith

  slices_from-Fits :
      (start count : ℕ) (addrs : List Text) → All Fits (slices_from size start count addrs)
  unfolding slices_from
  slices_from-Fits start zero addrs = tt
  slices_from-Fits start (suc count) addrs =
      let bounds = slice_end_bounds start (length addrs) in
      let taken = length-take (slice_end size start (length addrs) - start) (drop start addrs) in
      (omega (arith, bounds.1, taken), slices_from-Fits (start + size) count addrs)

  -- What a chunk leaves is where the next one begins.
  rest_of_slice :
      (start : ℕ) (addrs : List Text)
      → drop (slice_end size start (length addrs) - start) (drop start addrs)
        ≡ drop (start + size) addrs
  unfolding slice_end
  rest_of_slice start addrs = elim (Bool-cases (ltb (length addrs) (start + size))) [
    | inr full ↦
        let width : start + size - start ≡ size = omega arith in
        rw (full, width) (drop_more start size addrs)
    | inl last ↦
        let left = length-drop start addrs in
        rw last (
          drop_past (length addrs - start) (drop start addrs) (omega (arith, left))
          ∙ sym (drop_past (start + size) addrs (ground (arith, last))))
  ]

  joined-slices_from :
      (start count : ℕ) (addrs : List Text)
      → length addrs ≤ start + count * size
      → joined (slices_from size start count addrs) ≡ drop start addrs
  unfolding slices_from
  joined-slices_from start zero addrs h = sym (drop_past start addrs (omega arith))
  joined-slices_from start (suc count) addrs h =
      let width = slice_end size start (length addrs) - start in
      let more = joined-slices_from (start + size) count addrs (grind arith) in
      ap (λ ys. take width (drop start addrs) ++ ys) (more ∙ sym (rest_of_slice start addrs))
      ∙ take-drop width (drop start addrs)

-- getLogsChunked with the chunk size of Refresh asks for every address once and in order, and for at
-- most 500 of them at a time.
pub slices-joined :
    (addrs : List Text)
    → (joined (slices addr_chunk addrs) ≡ addrs)
      × All (λ s. length s ≤ addr_chunk) (slices addr_chunk addrs)
unfolding slices
slices-joined addrs = elim (Bool-cases (leb (length addrs) 500)) [
  | inl one ↦ rw one (append-nil addrs, (ground (arith, one), tt))
  | inr many ↦ rw many (
    joined-slices_from 500 0 ((length addrs + 500 - 1) / 500) addrs (omega arith),
    slices_from-Fits 500 0 ((length addrs + 500 - 1) / 500) addrs,
  )
]
