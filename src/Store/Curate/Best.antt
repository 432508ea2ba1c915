-- ===== src/Store/Curate/Best.antt =====
-- What Curated returns of the live positions.
use mathlib.Core.Option.{some-injective}
use zchf_grenadier.Prelude.{
  ◌≡◌, refl, ap, ◌∙◌, true, false, Option, none, some, List, [], ◌∷◌, ◌++◌, nat_eq, list_eq, ◌==◌,
  ==_iff, All, arith, Bool-cases, Option-cases, inl, inr,
}
use zchf_grenadier.Prelude.Int.{ℤ, int_eq}
use zchf_grenadier.Text.{Text, lower}
use zchf_grenadier.Table.{Table, find, upsert, HasUniqueKeys}
use zchf_grenadier.Table.Laws.{find-upsert, find-upsert_self, All-upsert, upsert-HasUniqueKeys}
use zchf_grenadier.Store.Rows.{Position}
use zchf_grenadier.Store.Curate.{is_curatable, better_than, replaces, consider, best_of}

module _ (effective : ℤ → ℤ → ℤ) where
  -- Not beaten, by one that beats another.
  better-step :
      (p q r : Position)
      → better_than effective p q ≡ false
      → better_than effective r q ≡ true
      → better_than effective p r ≡ false
  unfolding better_than
  better-step p q r h k = ground arith

  better_irrefl : (p : Position) → better_than effective p p ≡ false
  unfolding better_than
  better_irrefl p = ground arith

  -- The position kept for a collateral, which `p` does not beat.
  abbrev pub Unbeaten : Position → Table Text Position → Type 0
  Unbeaten p best =
      (q : Position) × (find (lower p.collateral) best ≡ some q)
      × (better_than effective p q ≡ false)

  beats :
      (r q : Position) (o : Option Position)
      → replaces effective r o ≡ true
      → o ≡ some q
      → better_than effective r q ≡ true
  unfolding replaces
  beats r q none wins e = let bad : none ≡ some q = e in cc
  beats r q (some x) wins e = rw (some-injective x q e) at wins

  module _ (now : ℤ) where
    consider-skipped :
        (r : Position) (best : Table Text Position)
        → is_curatable r now ≡ false
        → consider effective now r best ≡ best
    unfolding consider
    consider-skipped r best h = rw h

    consider-kept :
        (r : Position) (best : Table Text Position)
        → replaces effective r (find (lower r.collateral) best) ≡ false
        → consider effective now r best ≡ best
    unfolding consider
    consider-kept r best h = ground (arith, h)

    consider-wins :
        (r : Position) (best : Table Text Position)
        → is_curatable r now ≡ true
        → replaces effective r (find (lower r.collateral) best) ≡ true
        → consider effective now r best ≡ upsert (lower r.collateral) r best
    unfolding consider
    consider-wins r best on h = ground (arith, on, h)

    Unbeaten-upsert_self :
        (p : Position) (best : Table Text Position)
        → Unbeaten p (upsert (lower p.collateral) p best)
    Unbeaten-upsert_self p best = (p, find-upsert_self (lower p.collateral) p best, better_irrefl p)

    Unbeaten-upsert :
        (p r q : Position) (best : Table Text Position)
        → replaces effective r (find (lower r.collateral) best) ≡ true
        → find (lower p.collateral) best ≡ some q
        → better_than effective p q ≡ false
        → Unbeaten p (upsert (lower r.collateral) r best)
    Unbeaten-upsert p r q best wins found h =
        let reads = find-upsert (lower r.collateral) (lower p.collateral) r best in
        elim (Bool-cases (lower r.collateral == lower p.collateral)) [
          | inr other ↦ (q, reads ∙ rw (other, found) refl, h)
          | inl same ↦
              let e : lower r.collateral ≡ lower p.collateral = (==_iff _ _).0 same in
              (
                r,
                reads ∙ rw same refl,
                better-step p q r h (beats r q _ wins (ap (λ k. find k best) e ∙ found)),
              )
        ]

    kept-Unbeaten :
        (p : Position) (best : Table Text Position)
        → replaces effective p (find (lower p.collateral) best) ≡ false
        → Unbeaten p best
    unfolding replaces
    kept-Unbeaten p best kept = elim (Option-cases (find (lower p.collateral) best)) [
      | inl absent ↦ let bad : true ≡ false = rw absent at kept in cc
      | inr (q, found) ↦ (q, found, rw found at kept)
    ]

    Unbeaten-consider :
        (p r : Position) (best : Table Text Position)
        → Unbeaten p best
        → Unbeaten p (consider effective now r best)
    Unbeaten-consider p r best (q, found, h) = elim (Bool-cases (is_curatable r now)) [
      | inr skipped ↦ rw (consider-skipped r best skipped) (q, found, h)
      | inl on ↦ elim (Bool-cases (replaces effective r (find (lower r.collateral) best))) [
        | inr kept ↦ rw (consider-kept r best kept) (q, found, h)
        | inl wins ↦ rw (consider-wins r best on wins) (Unbeaten-upsert p r q best wins found h)
      ]
    ]

    Unbeaten-considered :
        (p : Position) (best : Table Text Position)
        → is_curatable p now ≡ true
        → Unbeaten p (consider effective now p best)
    Unbeaten-considered p best on =
        elim (Bool-cases (replaces effective p (find (lower p.collateral) best))) [
          | inl wins ↦ rw (consider-wins p best on wins) (Unbeaten-upsert_self p best)
          | inr kept ↦ rw (consider-kept p best kept) (kept-Unbeaten p best kept)
        ]

    Unbeaten-best_of :
        (p : Position) (ps : List Position) (best : Table Text Position)
        → Unbeaten p best
        → Unbeaten p (best_of effective now ps best)
    unfolding best_of
    Unbeaten-best_of p [] best h = h
    Unbeaten-best_of p (r ∷ ps) best h =
        Unbeaten-best_of p ps (consider effective now r best) (Unbeaten-consider p r best h)

    -- Curated keeps, for the collateral of every curatable position that it goes through, a
    -- position that this one does not beat by interest and then by expiration.
    pub best_of-Unbeaten :
        (before : List Position) (p : Position) (after : List Position) (best : Table Text Position)
        → is_curatable p now ≡ true
        → Unbeaten p (best_of effective now (before ++ p ∷ after) best)
    unfolding best_of
    best_of-Unbeaten [] p after best on =
        Unbeaten-best_of p after (consider effective now p best) (Unbeaten-considered p best on)
    best_of-Unbeaten (r ∷ before) p after best on =
        best_of-Unbeaten before p after (consider effective now r best) on

    -- What may stand in the table of Curated.
    abbrev pub IsChoice : Text × Position → Type 0
    IsChoice e = (is_curatable e.1 now ≡ true) × (e.0 ≡ lower e.1.collateral)

    pub record IsSelection (best : Table Text Position) : Type 0 where
      pub unique : HasUniqueKeys best
      pub choices : All IsChoice best

    IsSelection-consider :
        (r : Position) (best : Table Text Position)
        → IsSelection best
        → IsSelection (consider effective now r best)
    IsSelection-consider r best h = elim (Bool-cases (is_curatable r now)) [
      | inr skipped ↦ rw (consider-skipped r best skipped) h
      | inl on ↦ elim (Bool-cases (replaces effective r (find (lower r.collateral) best))) [
        | inr kept ↦ rw (consider-kept r best kept) h
        | inl wins ↦ rw (consider-wins r best on wins) (record {
          unique = upsert-HasUniqueKeys (lower r.collateral) r best h.unique;
          choices = All-upsert IsChoice (lower r.collateral) r best (on, refl) h.choices;
        })
      ]
    ]

    IsSelection-step :
        (ps : List Position) (best : Table Text Position)
        → IsSelection best
        → IsSelection (best_of effective now ps best)
    unfolding best_of
    IsSelection-step [] best h = h
    IsSelection-step (r ∷ ps) best h =
        IsSelection-step ps (consider effective now r best) (IsSelection-consider r best h)

    -- Curated keeps one position at most for each collateral, in lower case, and only curatable
    -- ones.
    pub best_of-IsSelection : (ps : List Position) → IsSelection (best_of effective now ps [])
    best_of-IsSelection ps = IsSelection-step ps [] (record { unique = tt; choices = tt })
