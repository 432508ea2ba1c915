-- ===== src/Store/Positions/Reads.antt =====
-- What GetPosition reads after Upsert, one and many.
use zchf_grenadier.Prelude.{
  ◌≡◌, refl, ap, ◌∙◌, Bool, true, false, Option, some, List, [], ◌∷◌, ◌==◌, ==_iff, ==_refl, nat_eq,
  list_eq, if◌then◌else◌, arith, inl, inr, Bool-cases,
}
use zchf_grenadier.Prelude.Int.{ℤ}
use zchf_grenadier.Text.{Text, lower, lower-lower}
use zchf_grenadier.Exec.{ok}
use zchf_grenadier.Table.{find, upsert}
use zchf_grenadier.Table.Laws.{find-upsert, upsert-upsert_self}
use zchf_grenadier.Store.Rows.{Position, PositionRow}
use zchf_grenadier.Store.Handle.{Db, Store, quiet}
use zchf_grenadier.Store.Positions.Merge.{merged-merged, position-merged}
use zchf_grenadier.Store.Positions.{
  balance_or, is_blank, merge_prev, merged, fold_case, position_in, upsert_position, get_position,
  position_row, data_of,
}

-- The position that Upsert writes.
abbrev pub next_position : Position → Db → Position
next_position p db = merged (position_in (lower p.position) db) (fold_case p)

abbrev pub after_upsert : Position → ℤ → Db → Db
after_upsert p block db = record db {
  positions = upsert (lower p.position) (position_row (next_position p db) block) db.positions;
}

pub upsert_position-quiet :
    (p : Position) (block : ℤ) (db : Db)
    → upsert_position p block (quiet db) ≡ (ok tt, quiet (after_upsert p block db))
unfolding upsert_position
upsert_position-quiet p block db =
    rw (lower-lower p.position, position-merged (position_in (lower p.position) db) (fold_case p))

data_of-if :
    (b : Bool) (r : PositionRow) (o : Option PositionRow)
    → data_of (if b then some r else o) ≡ (if b then some r.data_column else data_of o)
unfolding data_of
data_of-if true r o = refl
data_of-if false r o = refl

pub position_in-after_upsert :
    (p : Position) (block : ℤ) (db : Db) (k : Text)
    → position_in k (after_upsert p block db)
      ≡ (if lower p.position == k then some (next_position p db) else position_in k db)
unfolding position_in position_row
position_in-after_upsert p block db k =
    rw (find-upsert (lower p.position) k _ db.positions) (data_of-if _ _ (find k db.positions))

-- GetPosition after Upsert, where no statement fails: at any spelling of the address that was
-- written it returns the position merged over the old row, at any other address what it returned
-- before; and the write itself succeeds.
pub get_position-upsert_position :
    (p : Position) (block : ℤ) (db : Db) (addr : Text)
    → (upsert_position p block (quiet db) ≡ (ok tt, quiet (after_upsert p block db)))
      × ((get_position addr (quiet (after_upsert p block db))).0
          ≡ ok (
              if lower p.position == lower addr
              then some (next_position p db)
              else position_in (lower addr) db))
unfolding get_position
get_position-upsert_position p block db addr =
    (upsert_position-quiet p block db, ap ok (position_in-after_upsert p block db (lower addr)))

next_position-after_upsert :
    (p : Position) (block : ℤ) (db : Db)
    → next_position p (after_upsert p block db) ≡ next_position p db
next_position-after_upsert p block db =
    rw (position_in-after_upsert p block db (lower p.position), ==_refl (lower p.position))
      (merged-merged (fold_case p) (position_in (lower p.position) db))

after_upsert_twice :
    (p : Position) (block : ℤ) (db : Db)
    → after_upsert p block (after_upsert p block db) ≡ after_upsert p block db
after_upsert_twice p block db =
    rw (next_position-after_upsert p block db) (
      ap (λ t. record db { positions = t })
        (upsert-upsert_self (lower p.position) _ _ db.positions))

-- The same position written twice at one block, where no statement fails, leaves the database that
-- it left after the first.
pub upsert_position_twice :
    (p : Position) (block : ℤ) (db : Db)
    → upsert_position p block (upsert_position p block (quiet db)).1
      ≡ upsert_position p block (quiet db)
upsert_position_twice p block db =
    rw (upsert_position-quiet p block db, upsert_position-quiet p block (after_upsert p block db))
      (ap (λ (d : Db). (ok tt, quiet d)) (after_upsert_twice p block db))

-- Upserts one after the other, as the indexer's loops make them: an error goes on to the next.
unfoldable pub upserts : List (Position × ℤ) → Store → Store
upserts [] s = s
upserts ((p, block) ∷ rest) s = upserts rest (upsert_position p block s).1

-- A predicate that holds of the position stored at an address.
abbrev pub StoredAt : (Position → Type 0) → Text → Db → Type 0
StoredAt P k db = (q : Position) × (position_in k db ≡ some q) × P q

module _ (P : Position → Type 0) (keep : (p q : Position) → P q → P (merge_prev p q)) where
  StoredAt-after_upsert :
      (p : Position) (block : ℤ) (k : Text) (db : Db)
      → StoredAt P k db
      → StoredAt P k (after_upsert p block db)
  StoredAt-after_upsert p block k db (q, found, h) = elim (Bool-cases (lower p.position == k)) [
    | inl same ↦
        let here : lower p.position ≡ k = (==_iff (lower p.position) k).0 same in
        (
          merge_prev (fold_case p) q,
          position_in-after_upsert p block db k ∙ rw (same, here, found) (unfold merged in refl),
          keep (fold_case p) q h,
        )
    | inr other ↦ (q, position_in-after_upsert p block db k ∙ rw (other, found), h)
  ]

  StoredAt-upserts :
      (ps : List (Position × ℤ)) (k : Text) (db : Db)
      → StoredAt P k db
      → StoredAt P k (upserts ps (quiet db)).db
  unfolding upserts
  StoredAt-upserts [] k db h = h
  StoredAt-upserts ((p, block) ∷ ps) k db h =
      rw (upsert_position-quiet p block db, upserts)
        (StoredAt-upserts ps k (after_upsert p block db) (StoredAt-after_upsert p block k db h))

abbrev pub IsDenied : Position → Type 0
IsDenied q = q.denied ≡ true

-- Denial is sticky: a position that is denied in the store stays denied through any sequence of
-- upserts in which no statement fails.
pub upserts-IsDenied :
    (ps : List (Position × ℤ)) (k : Text) (db : Db)
    → StoredAt IsDenied k db
    → StoredAt IsDenied k (upserts ps (quiet db)).db
upserts-IsDenied = StoredAt-upserts IsDenied (λ p q h. unfold merge_prev in ground arith)

abbrev pub HasBalance : Position → Type 0
HasBalance q = is_blank q.collateral_balance ≡ false

-- A position whose stored collateral balance is neither empty nor "0" keeps such a balance through
-- any sequence of upserts in which no statement fails, whatever balances, "0" included, the
-- upserted positions carry.
pub upserts-HasBalance :
    (ps : List (Position × ℤ)) (k : Text) (db : Db)
    → StoredAt HasBalance k db
    → StoredAt HasBalance k (upserts ps (quiet db)).db
upserts-HasBalance =
    StoredAt-upserts HasBalance (λ p q h. unfold merge_prev balance_or in ground arith)
