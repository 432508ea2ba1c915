-- ===== src/Indexer/Challenges/Filling.antt =====
-- How the bids of a challenge add up.
use zchf_grenadier.Prelude.{
  ℕ, ◌+◌, ◌≤◌, ◌≡◌, refl, ◌∙◌, true, List, [], ◌∷◌, if◌then◌else◌, arith, Bool-cases, inl, inr,
  nat_eq, list_eq,
}
use zchf_grenadier.Prelude.Int.{ℤ, pos, ◌+ℤ◌, ltb_ℤ, +ℤ_parts, eq_of_parts, pos_part, neg_part}
use zchf_grenadier.Text.{Text, codes}
use zchf_grenadier.Text.Decimal.{print_int, parse_int-print_int}
use zchf_grenadier.Store.Rows.{Challenge}
use zchf_grenadier.Indexer.Challenges.Bids.{set_string, averted_row}

module _ (junk : Text → ℤ) where
  pub set_string-print_int : (z : ℤ) → set_string junk (print_int z) ≡ z
  unfolding set_string
  set_string-print_int z = rw (parse_int-print_int z, set_string)

  -- The challenge after averting bids of these sizes, one after the other.
  abbrev pub fill : List ℕ → Challenge → Challenge
  fill [] cur = cur
  fill (n ∷ ns) cur = fill ns (averted_row junk n cur)

  abbrev pub total : List ℕ → ℕ
  total [] = 0
  total (n ∷ ns) = n + total ns

  abbrev pub filled : Challenge → ℤ
  filled c = set_string junk c.filled_size

  pub filled-averted_row :
      (n : ℕ) (cur : Challenge) → filled (averted_row junk n cur) ≡ filled cur +ℤ pos n
  unfolding averted_row
  filled-averted_row n cur = set_string-print_int (set_string junk cur.filled_size +ℤ pos n)

  pub filled-fill :
      (ns : List ℕ) (cur : Challenge) → filled (fill ns cur) ≡ filled cur +ℤ pos (total ns)
  filled-fill [] cur = omega (arith, +ℤ_parts, eq_of_parts)
  filled-fill (n ∷ ns) cur =
      filled-fill ns (averted_row junk n cur)
      ∙ rw (filled-averted_row n cur) (omega (arith, +ℤ_parts, eq_of_parts))

  pub size-fill : (ns : List ℕ) (cur : Challenge) → (fill ns cur).size ≡ cur.size
  size-fill [] cur = refl
  size-fill (n ∷ ns) cur = size-fill ns (averted_row junk n cur) ∙ unfold averted_row in refl

  -- Which status a challenge has once it is filled up to `z`.
  abbrev pub status_at : ℤ → Challenge → Text
  status_at z cur = if ltb_ℤ z (set_string junk cur.size) then cur.status else codes "Averted"

  status_nested :
      (z z' w : ℤ) (s : Text)
      → pos_part z + neg_part z' ≤ pos_part z' + neg_part z
      → (if ltb_ℤ z' w then (if ltb_ℤ z w then s else codes "Averted") else codes "Averted")
        ≡ (if ltb_ℤ z' w then s else codes "Averted")
  status_nested z z' w s le = elim (Bool-cases (ltb_ℤ z' w)) [
    | inl below ↦ let first : ltb_ℤ z w ≡ true = ground arith in rw (below, first)
    | inr above ↦ rw above
  ]

  pub status-fill :
      (n : ℕ) (ns : List ℕ) (cur : Challenge)
      → (fill (n ∷ ns) cur).status ≡ status_at (filled cur +ℤ pos (total (n ∷ ns))) cur
  status-fill n [] cur =
      let sum : total (n ∷ []) ≡ n = omega arith in rw sum (unfold averted_row in refl)
  status-fill n (m ∷ ns) cur =
      let next = averted_row junk n cur in
      let split : filled next +ℤ pos (total (m ∷ ns)) ≡ filled cur +ℤ pos (total (n ∷ m ∷ ns)) =
        rw (filled-averted_row n cur) (omega (arith, +ℤ_parts, eq_of_parts)) in
      status-fill m ns next
      ∙ rw split (
          unfold averted_row in
          status_nested (filled cur +ℤ pos n) (filled cur +ℤ pos (total (n ∷ m ∷ ns)))
            (set_string junk cur.size) cur.status (omega (arith, +ℤ_parts)))
