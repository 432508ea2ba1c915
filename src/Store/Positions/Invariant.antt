-- ===== src/Store/Positions/Invariant.antt =====
-- The columns of the positions table agree with the record in the data column.
use zchf_grenadier.Prelude.{
  ◌≡◌, refl, ap, Bool, not, ◌&&◌, Option, none, some, List, [], ◌∷◌, ◌==◌, map, nat_eq, list_eq,
  arith, All, keep, eqb, map-keep, All-map,
}
use mathlib.Core.Option.{some-injective}
use zchf_grenadier.Prelude.Int.{ℤ}
use zchf_grenadier.Text.{Text, lower, lower-lower}
use zchf_grenadier.Exec.{Result, ok, err}
use zchf_grenadier.Table.{upsert, rows, HasUniqueKeys}
use zchf_grenadier.Table.Laws.{All-upsert, upsert-HasUniqueKeys}
use zchf_grenadier.Store.Rows.{Position, PositionRow}
use zchf_grenadier.Store.Handle.{Db, Store}
use zchf_grenadier.Store.Handle.Laws.{Wrote, execute-Wrote, steps, bulk-Wrote}
use zchf_grenadier.Store.Positions.{
  merged, fold_case, put_position, position_row, flag, get_position_locked, upsert_position,
  bulk_upsert, live_in, is_live_row, owned_in, ok_or_none,
}

-- The row at key `k` is the row of its own record, whose addresses are in lower case.
pub record IsRow (e : Text × PositionRow) : Type 0 where
  pub key : e.0 ≡ e.1.data_column.position
  pub folded : lower e.0 ≡ e.0
  pub owner : e.1.owner ≡ e.1.data_column.owner
  pub owner_folded : lower e.1.owner ≡ e.1.owner
  pub closed : e.1.closed ≡ flag e.1.data_column.closed
  pub denied : e.1.denied ≡ flag e.1.data_column.denied

pub record IsValid (db : Db) : Type 0 where
  pub unique : HasUniqueKeys db.positions
  pub agree : All IsRow db.positions

-- What both writers hand to put_position: the addresses are in lower case.
pub record IsFolded (p : Position) : Type 0 where
  pub position : lower p.position ≡ p.position
  pub owner : lower p.owner ≡ p.owner

fold_case-IsFolded : (p : Position) → IsFolded (fold_case p)
unfolding fold_case
fold_case-IsFolded p = record { position = lower-lower p.position; owner = lower-lower p.owner }

merged-IsFolded : (o : Option Position) (p : Position) → IsFolded p → IsFolded (merged o p)
unfolding merged
merged-IsFolded none p h = h
merged-IsFolded (some q) p h = record { position = h.position; owner = h.owner }

position_row-IsRow :
    (p : Position) (block : ℤ) → IsFolded p → IsRow (p.position, position_row p block)
unfolding position_row
position_row-IsRow p block h = record {
  key = refl;
  folded = h.position;
  owner = refl;
  owner_folded = h.owner;
  closed = refl;
  denied = refl;
}

put_position-IsValid :
    (block : ℤ) (p : Position) (db db' : Db)
    → IsFolded p
    → IsValid db
    → put_position block p db ≡ some db'
    → IsValid db'
unfolding put_position
put_position-IsValid block p db db' f v e = rw (← some-injective _ _ e) (record {
  unique = upsert-HasUniqueKeys p.position (position_row p block) db.positions v.unique;
  agree =
      All-upsert IsRow p.position (position_row p block) db.positions (position_row-IsRow p block f)
        v.agree;
})

Wrote-IsValid :
    (new : Option Db) (old : Db) (r : Result (Unit {0}) × Store)
    → ((db : Db) → new ≡ some db → IsValid db)
    → IsValid old
    → Wrote new old r
    → IsValid r.1.db
Wrote-IsValid new old (ok u, s) hn ho w = hn s.db w
Wrote-IsValid new old (err e, s) hn ho w = rw w ho

db-ok_or_none : (r : Result (Option Position) × Store) → (ok_or_none r).1 ≡ r.1
unfolding ok_or_none
db-ok_or_none (ok o, s) = refl
db-ok_or_none (err e, s) = refl

pub db-get_position_locked : (addr : Text) (s : Store) → (get_position_locked addr s).1.db ≡ s.db
unfolding get_position_locked
db-get_position_locked addr s = ap (λ (t : Store). t.db) (db-ok_or_none _)

-- Upsert on a database whose position keys are unique and whose columns agree with the records in
-- the data column leaves it so, whichever of its statements fail.
pub upsert_position-IsValid :
    (p : Position) (block : ℤ) (s : Store) → IsValid s.db → IsValid (upsert_position p block s).1.db
unfolding upsert_position
upsert_position-IsValid p block s v =
    let q = fold_case p in
    let prev = get_position_locked q.position s in
    let old : IsValid prev.1.db = rw (db-get_position_locked q.position s) v in
    Wrote-IsValid _ prev.1.db _
      (λ db.
        put_position-IsValid block (merged prev.0 q) prev.1.db db
          (merged-IsFolded prev.0 q (fold_case-IsFolded p)) old)
      old (execute-Wrote (put_position block (merged prev.0 q)) prev.1)

steps-IsValid :
    (block : ℤ) (ps : List Position) (db db' : Db)
    → IsValid db
    → steps (λ p. put_position block (fold_case p)) ps db ≡ some db'
    → IsValid db'
unfolding steps
steps-IsValid block [] db db' v e = rw (← some-injective _ _ e) v
steps-IsValid block (p ∷ ps) db db' v e =
    steps-IsValid block ps (put_of p) db'
      (put_position-IsValid block (fold_case p) db (put_of p) (fold_case-IsFolded p) v
        (unfold put_position in refl))
      (unfold put_position in e)
  where
    put_of : Position → Db
    put_of p = record db {
      positions = upsert (fold_case p).position (position_row (fold_case p) block) db.positions;
    }

-- BulkUpsert on a database whose position keys are unique and whose columns agree with the records
-- in the data column leaves it so, whichever of its statements fail.
pub bulk_upsert-IsValid :
    (ps : List Position) (block : ℤ) (s : Store)
    → IsValid s.db
    → IsValid (bulk_upsert ps block s).1.db
unfolding bulk_upsert
bulk_upsert-IsValid ps block s v =
    Wrote-IsValid _ s.db _ (λ db. steps-IsValid block ps s.db db v) v
      (bulk-Wrote (λ p. put_position block (fold_case p)) ps s)

flag-test : (b c : Bool) → (eqb (flag b) 0 && eqb (flag c) 0) ≡ (not b && not c)
flag-test b c = ground arith

abbrev pub is_open : Position → Bool
is_open p = not p.closed && not p.denied

-- A live row is an open position, and a row owned is a position owned.
live_row-open : (e : Text × PositionRow) → IsRow e → is_live_row e.1 ≡ is_open e.1.data_column
unfolding is_live_row
live_row-open e h =
    rw (h.closed, h.denied) (flag-test e.1.data_column.closed e.1.data_column.denied)

abbrev pub all_data : Db → List Position
all_data db = map (λ (r : PositionRow). r.data_column) (rows db.positions)

-- Where the position keys are unique and the columns agree with the records in the data column,
-- AllLive returns the positions that are neither closed nor denied by their own record, all of
-- them and in the order of All, and ByOwner those of the owner.
pub queries_agree :
    (db : Db) (owner : Text)
    → IsValid db
    → (live_in db ≡ keep is_open (all_data db))
      × (owned_in owner db ≡ keep (λ p. p.owner == owner) (all_data db))
unfolding live_in owned_in
queries_agree db owner v = (
  map-keep (λ r. r.data_column) is_live_row is_open (rows db.positions)
      (All-map IsRow _ (λ e. e.1) db.positions live_row-open v.agree),
  map-keep (λ r. r.data_column) (λ r. r.owner == owner) (λ p. p.owner == owner) (rows db.positions)
      (All-map IsRow _ (λ e. e.1) db.positions (λ e h. rw h.owner) v.agree),
)
