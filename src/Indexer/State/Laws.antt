-- ===== src/Indexer/State/Laws.antt =====
-- When the cached addresses are those of the positions table.
use zchf_grenadier.Prelude.{◌≡◌, refl, ap, sym, Option, none, some, List, map, nat_eq, list_eq}
use zchf_grenadier.Prelude.Int.{ℤ}
use mathlib.Core.Option.{some-injective}
use zchf_grenadier.Text.{Text, lower}
use zchf_grenadier.Exec.{Result, ok, err, db_failed}
use zchf_grenadier.Table.{Table, upsert}
use zchf_grenadier.Store.Rows.{Position, PositionRow}
use zchf_grenadier.Store.Handle.{Db, Store, query, execute}
use zchf_grenadier.Store.Handle.Laws.{Wrote, execute-Wrote, query_cases, db-query}
use zchf_grenadier.Store.Positions.{
  all_addresses, upsert_position, get_position_locked, put_position, merged, fold_case,
  position_row,
}
use zchf_grenadier.Store.Positions.Merge.{position-merged}
use zchf_grenadier.Store.Positions.Invariant.{db-get_position_locked}
use zchf_grenadier.Indexer.State.{Indexer, cached, known_addresses, loaded, known_from}

-- The addresses of the positions, in the order of the table.
abbrev pub addresses : Db → List Text
addresses db = map (λ p. p.0) db.positions

abbrev pub IsCurrentCache : Option (List Text) → Db → Type 0
IsCurrentCache none db = Unit
IsCurrentCache (some ks) db = ks ≡ addresses db

-- The addresses that the cache would answer with are those of the table.
abbrev pub IsCurrent : Indexer → Type 0
IsCurrent ix = IsCurrentCache (cached ix) ix.store.db

-- What a use of the addresses answers with.
abbrev pub Answers : Db → Result (List Text) × Indexer → Type 0
Answers db (ok ks, ix) = (ks ≡ addresses db) × (ix.store.db ≡ db) × IsCurrent ix
Answers db (err e, ix) = (ix.store.db ≡ db) × IsCurrent ix

-- A value is the addresses of the table.
abbrev Finds : Db → Result (List Text) → Type 0
Finds db (ok ks) = ks ≡ addresses db
Finds db (err e) = Unit

loaded-Answers :
    (ix : Indexer) (p : Result (List Text) × Store)
    → IsCurrent ix
    → p.1.db ≡ ix.store.db
    → Finds ix.store.db p.0
    → Answers ix.store.db (loaded ix p)
unfolding loaded cached
loaded-Answers ix (ok ks, s) h e k = (k, e, rw e k)
loaded-Answers ix (err x, s) h e k = (e, rw e h)

known_from-Answers :
    (ix : Indexer) (o : Option (List Text))
    → IsCurrent ix
    → IsCurrentCache o ix.store.db
    → Answers ix.store.db (known_from ix o)
unfolding known_from
known_from-Answers ix (some ks) h k = (k, refl, h)
known_from-Answers ix none h k =
    unfold all_addresses in
    query_cases (λ db. map (λ p. p.0) db.positions) ix.store
      (λ p. Answers ix.store.db (loaded ix p))
      (λ os.
        loaded-Answers ix (ok (addresses ix.store.db), record ix.store { outcomes = os }) h refl
          refl)
      (λ os. loaded-Answers ix (err db_failed, record ix.store { outcomes = os }) h refl tt)

-- Where the cache is current KnownAddresses returns the addresses of the positions table or an
-- error, changes nothing in the database and leaves the cache current.
pub known_addresses-Answers :
    (ix : Indexer) → IsCurrent ix → Answers ix.store.db (known_addresses ix)
unfolding known_addresses
known_addresses-Answers ix h = known_from-Answers ix (cached ix) h h

-- The use of the addresses leaves the database.
pub db-known_addresses : (ix : Indexer) → (known_addresses ix).1.store.db ≡ ix.store.db
unfolding known_addresses
db-known_addresses ix = go (cached ix)
  where
    loaded_db :
        (p : Result (List Text) × Store)
        → p.1.db ≡ ix.store.db
        → (loaded ix p).1.store.db ≡ ix.store.db
    loaded_db (ok ks, s) h = unfold loaded in h
    loaded_db (err e, s) h = unfold loaded in h

    go : (o : Option (List Text)) → (known_from ix o).1.store.db ≡ ix.store.db
    go none =
        unfold known_from all_addresses in
        loaded_db (query (λ db. map (λ p. p.0) db.positions) ix.store)
          (db-query (λ db. map (λ p. p.0) db.positions) ix.store)
    go (some ks) = unfold known_from in refl

-- A write of one position puts a row at its address, or fails and leaves the database.
abbrev pub Puts : Text → Db → Result (Unit {0}) × Store → Type 0
Puts k old (ok u, s) =
    (r : PositionRow) × (s.db ≡ record old { positions = upsert k r old.positions })
Puts k old (err e, s) = s.db ≡ old

Puts-of_Wrote :
    (block : ℤ) (q : Position) (old : Db) (p : Result (Unit {0}) × Store)
    → Wrote (put_position block q old) old p
    → Puts q.position old p
unfolding put_position
Puts-of_Wrote block q old (ok u, s) h = (position_row q block, sym (some-injective _ _ h))
Puts-of_Wrote block q old (err e, s) h = h

Puts-execute :
    (block : ℤ) (q : Position) (s : Store) (k : Text) (old : Db)
    → q.position ≡ k
    → s.db ≡ old
    → Puts k old (execute (put_position block q) s)
Puts-execute block q s k old ek eo =
    rw (← ek, ← eo)
      (Puts-of_Wrote block q s.db (execute (put_position block q) s)
        (execute-Wrote (put_position block q) s))

pub upsert_position-Puts :
    (p : Position) (block : ℤ) (s : Store)
    → Puts (lower p.position) s.db (upsert_position p block s)
unfolding upsert_position
upsert_position-Puts p block s =
    let q = fold_case p in
    let prev = get_position_locked q.position s in
    Puts-execute block (merged prev.0 q) prev.1 (lower p.position) s.db (position-merged prev.0 q)
      (db-get_position_locked q.position s)

pub meta-Puts :
    (k : Text) (old : Db) (p : Result (Unit {0}) × Store) → Puts k old p → p.1.db.meta ≡ old.meta
meta-Puts k old (ok u, s) (r, h) = ap (λ (d : Db). d.meta) h
meta-Puts k old (err e, s) h = ap (λ (d : Db). d.meta) h

-- An upsert of a position leaves the meta table.
pub meta-upsert_position :
    (p : Position) (block : ℤ) (s : Store) → (upsert_position p block s).1.db.meta ≡ s.db.meta
meta-upsert_position p block s =
    meta-Puts (lower p.position) s.db (upsert_position p block s) (upsert_position-Puts p block s)

-- The meta table, which holds the last scanned block.
abbrev pub meta_of : Indexer → Table Text Text
meta_of ix = ix.store.db.meta
