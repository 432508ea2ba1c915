-- ===== src/Store/Governance/Snapshot.antt =====
-- What the snapshot writers of store/governance.go leave in their tables.
use zchf_grenadier.Prelude.{
  ◌≡◌, refl, ap, ◌∙◌, sym, Option, none, some, List, [], ◌∷◌, map, nat_eq, list_eq, pair_eq,
  Option-cases, inl, inr,
}
use zchf_grenadier.Text.{Text}
use zchf_grenadier.Exec.{Result, ok, err}
use zchf_grenadier.Table.{Table, insert, HasUniqueKeys, rows}
use zchf_grenadier.Table.Inserts.{insert_all, insert_all_unique, insert_all-some}
use zchf_grenadier.Table.Order.{order_desc}
use zchf_grenadier.Store.Rows.{Minter, MinterRow}
use zchf_grenadier.Store.Handle.{Db, Store, quiet, send, query}
use zchf_grenadier.Store.Handle.Laws.{steps, Wrote, snapshot-Wrote, snapshot-quiet}
use zchf_grenadier.Store.Governance.{
  fold_minter, minter_row, with_minters, insert_minter, bulk_upsert_minters, all_minters,
}

-- The key and the row of an application.
unfoldable pub minter_entry : Minter → (Text × Text) × MinterRow
minter_entry m = let f = fold_minter m in ((f.tx_hash, f.minter), minter_row f)

minter_steps :
    (items : List Minter) (db : Db)
    → steps insert_minter items db
      ≡ with_minters db (insert_all (map minter_entry items) db.minters)
unfolding steps insert_all with_minters minter_entry insert_minter
minter_steps [] db = refl
minter_steps (m ∷ items) db =
    elim (Option-cases (insert (minter_entry m).0 (minter_entry m).1 db.minters)) [
      | inl e ↦ rw (steps, insert_all, e) refl
      | inr (t, e) ↦ rw (steps, insert_all, e) (minter_steps items (record db { minters = t }))
    ]

with_minters_lem :
    (db : Db) (t : Table (Text × Text) MinterRow)
    → with_minters db (some t) ≡ some (record db { minters = t })
unfolding with_minters
with_minters_lem db t = refl

-- What a snapshot of the applications leaves: on success the table is the entries, in order, with
-- no key twice; on failure, at any statement, the database is the old one.
abbrev pub Replaced : List Minter → Db → Result (Unit {0}) × Store → Type 0
Replaced items old (ok u, s) = (s.db.minters ≡ map minter_entry items) × HasUniqueKeys s.db.minters
Replaced items old (err e, s) = s.db ≡ old

with_minters-some :
    (db : Db) (r : Option (Table (Text × Text) MinterRow)) (new : Db)
    → with_minters db r ≡ some new
    → r ≡ some new.minters
unfolding with_minters
with_minters-some db none new h = let bad : none ≡ some new = h in cc
with_minters-some db (some t) new h =
    ap (λ (x : Option Db). elim x [ none ↦ none | some d ↦ some d.minters ]) h

Replaced-Wrote :
    (items : List Minter) (old cleared : Db) (p : Result (Unit {0}) × Store)
    → cleared.minters ≡ []
    → Wrote (steps insert_minter items cleared) old p
    → Replaced items old p
Replaced-Wrote items old cleared (ok u, s) e h =
    let inserted = with_minters-some cleared _ s.db (sym (minter_steps items cleared) ∙ h) in
    insert_all-some (map minter_entry items) [] s.db.minters tt (rw e at inserted)
Replaced-Wrote items old cleared (err x, s) e h = h

-- BulkUpsertMinters replaces the whole table or changes nothing, whichever of its statements fail:
-- when it returns without error the table holds exactly the entries of the items, in order, and no
-- (transaction, minter) key twice; when it returns an error the database is the one before.
pub bulk_upsert_minters-Replaced :
    (items : List Minter) (s : Store) → Replaced items s.db (bulk_upsert_minters items s)
unfolding bulk_upsert_minters
bulk_upsert_minters-Replaced items s =
    Replaced-Wrote items s.db (record s.db { minters = [] }) _ refl
      (snapshot-Wrote insert_minter (λ db. record db { minters = [] }) items s)

entry_rows :
    (items : List Minter)
    → rows (map minter_entry items) ≡ map (λ m. minter_row (fold_minter m)) items
unfolding rows minter_entry
entry_rows [] = refl
entry_rows (m ∷ items) = ap (λ rs. minter_row (fold_minter m) ∷ rs) (entry_rows items)

-- BulkUpsertMinters succeeds, when no statement fails, on items whose keys differ from each other,
-- and AllMinters then returns them, with folded addresses, newest application first.
pub all_minters-bulk_upsert_minters :
    (items : List Minter) (db : Db)
    → HasUniqueKeys (map minter_entry items)
    → (s : Store) × (bulk_upsert_minters items (quiet db) ≡ (ok tt, s))
      × (all_minters s ≡ (
        ok (
            map
              (λ r. r.data_column)
              (order_desc (λ r. r.apply_date) (map (λ m. minter_row (fold_minter m)) items))),
        s,
      ))
unfolding bulk_upsert_minters all_minters query send
all_minters-bulk_upsert_minters items db unique =
    let cleared = record db { minters = [] } in
    let new = record db { minters = map minter_entry items } in
    let stored =
      minter_steps items cleared
      ∙ ap (with_minters cleared) (insert_all_unique (map minter_entry items) [] unique)
      ∙ with_minters_lem cleared (map minter_entry items) in
    (
      quiet new,
      snapshot-quiet insert_minter (λ d. record d { minters = [] }) items db new stored,
      rw (entry_rows items) refl,
    )
