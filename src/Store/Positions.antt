-- ===== src/Store/Positions.antt =====
-- The positions and meta tables of store/store.go: Upsert with its merge, BulkUpsert, the queries,
-- and the last scanned block.
pub mod Merge
pub mod Invariant
pub mod Reads
pub mod LastBlock
use zchf_grenadier.Prelude.{
  ℕ, ◌+◌, ◌≡◌, refl, Bool, true, false, not, ◌&&◌, ◌||◌, Option, none, some, List, [], ◌∷◌, map,
  ◌==◌, nat_eq, list_eq, if◌then◌else◌, length, eqb,
}
use zchf_grenadier.Prelude.Int.{ℤ, pos, int_beq}
use zchf_grenadier.Text.{Text, codes, lower}
use zchf_grenadier.Text.Decimal.{print, parse_uint64}
use zchf_grenadier.Exec.{Result, ok, err, bad_number, Exec, pure, fail, ◌>>=◌, ◌>>◌}
use zchf_grenadier.Table.{Table, find, upsert, select, rows}
use zchf_grenadier.Store.Rows.{Position, PositionRow}
use zchf_grenadier.Store.Handle.{Db, Store, query, execute, bulk}

-- if p.X == "" { p.X = prev.X }
abbrev pub text_or : Text → Text → Text
text_or [] prev = prev
text_or (c ∷ s) prev = c ∷ s

-- if p.X == 0 { p.X = prev.X }
abbrev pub int_or : ℤ → ℤ → ℤ
int_or n prev = if int_beq n (pos 0) then prev else n

-- "" and "0" say that no balance is known.
unfoldable pub is_blank : Text → Bool
is_blank t = t == [] || t == codes "0"

-- denial is sticky
abbrev pub flag_or : Bool → Bool → Bool
flag_or b prev = if not b && prev then prev else b

-- A balance that is not blank is kept over one that is.
unfoldable pub balance_or : Text → Text → Text
unfolding is_blank
balance_or t prev = if is_blank t && not (is_blank prev) then prev else t

-- The merge step of Upsert, over the row that is there.
unfoldable pub merge_prev : Position → Position → Position
unfolding balance_or
merge_prev p prev = record p {
  created = int_or p.created prev.created;
  parent = text_or p.parent prev.parent;
  annual_interest_ppm = int_or p.annual_interest_ppm prev.annual_interest_ppm;
  deny_date = int_or p.deny_date prev.deny_date;
  denied = flag_or p.denied prev.denied;
  limit_for_clones = text_or p.limit_for_clones prev.limit_for_clones;
  available_for_position = text_or p.available_for_position prev.available_for_position;
  zchf_name = text_or p.zchf_name prev.zchf_name;
  zchf_symbol = text_or p.zchf_symbol prev.zchf_symbol;
  zchf_decimals = int_or p.zchf_decimals prev.zchf_decimals;
  collateral_balance = balance_or p.collateral_balance prev.collateral_balance;
}

unfoldable pub merged : Option Position → Position → Position
unfolding merge_prev
merged none p = p
merged (some prev) p = merge_prev p prev

-- The two fields that both writers fold to lower case first.
unfoldable pub fold_case : Position → Position
unfolding lower
fold_case p = record p { position = lower p.position; owner = lower p.owner }

-- closed := 0; if p.Closed { closed = 1 }
abbrev pub flag : Bool → ℕ
flag b = if b then 1 else 0

unfoldable pub position_row : Position → ℤ → PositionRow
position_row p block = record {
  data_column = p;
  owner = p.owner;
  closed = flag p.closed;
  denied = flag p.denied;
  updated_block = block;
}

-- The INSERT … ON CONFLICT of both writers.
unfoldable pub put_position : ℤ → Position → Db → Option Db
unfolding upsert position_row
put_position block p db =
    some (record db { positions = upsert p.position (position_row p block) db.positions })

data_of : Option PositionRow → Option Position
data_of none = none
data_of (some r) = some r.data_column

unfoldable pub position_in : Text → Db → Option Position
unfolding find data_of
position_in addr db = data_of (find addr db.positions)

-- A failed read counts as a missing row.
ok_or_none : Result (Option Position) × Store → Option Position × Store
ok_or_none (ok o, s) = (o, s)
ok_or_none (err e, s) = (none, s)

-- getPositionLocked
unfoldable pub get_position_locked : Text → Store → Option Position × Store
unfolding query position_in ok_or_none lower
get_position_locked addr s = ok_or_none (query (position_in (lower addr)) s)

-- Upsert
unfoldable pub upsert_position : Position → ℤ → Exec Store (Unit {0})
unfolding get_position_locked merged fold_case execute put_position
upsert_position p block s =
    let q = fold_case p in
    let (prev, s') = get_position_locked q.position s in
    execute (put_position block (merged prev q)) s'

-- BulkUpsert
unfoldable pub bulk_upsert : List Position → ℤ → Exec Store (Unit {0})
unfolding fold_case bulk put_position
bulk_upsert positions block = bulk (λ p. put_position block (fold_case p)) positions

-- GetPosition
unfoldable pub get_position : Text → Exec Store (Option Position)
unfolding query position_in lower
get_position addr = query (position_in (lower addr))

-- All
unfoldable pub all_positions : Exec Store (List Position)
unfolding query rows
all_positions = query (λ db. map (λ r. r.data_column) (rows db.positions))

is_live_row : PositionRow → Bool
is_live_row r = eqb r.closed 0 && eqb r.denied 0

-- AllLive: WHERE closed = 0 AND denied = 0
unfoldable pub live_in : Db → List Position
unfolding select is_live_row
live_in db = map (λ r. r.data_column) (select is_live_row db.positions)

unfoldable pub all_live : Exec Store (List Position)
unfolding query live_in
all_live = query live_in

-- ByOwner
unfoldable pub owned_in : Text → Db → List Position
unfolding select
owned_in owner db = map (λ r. r.data_column) (select (λ r. r.owner == owner) db.positions)

unfoldable pub by_owner : Text → Exec Store (List Position)
unfolding query owned_in lower
by_owner owner = query (owned_in (lower owner))

-- AllAddresses
unfoldable pub all_addresses : Exec Store (List Text)
unfolding query
all_addresses = query (λ db. map (λ p. p.0) db.positions)

-- Count
unfoldable pub count_positions : Exec Store ℕ
unfolding query
count_positions = query (λ db. length db.positions)

unfoldable pub text_or_empty : Option Text → Text
text_or_empty none = []
text_or_empty (some v) = v

-- GetMeta: a missing key reads as "".
unfoldable pub get_meta : Text → Exec Store Text
unfolding query find text_or_empty
get_meta k = query (λ db. text_or_empty (find k db.meta))

-- SetMeta
unfoldable pub set_meta : Text → Text → Exec Store (Unit {0})
unfolding execute upsert
set_meta k v = execute (λ db. some (record db { meta = upsert k v db.meta }))

unfoldable pub read_block : Text → Exec Store ℕ
unfolding parse_uint64
read_block [] = pure 0
read_block (c ∷ v) = elim (parse_uint64 (c ∷ v)) [ none ↦ fail bad_number | some n ↦ pure n ]

abbrev last_block_key : Text
last_block_key = codes "last_block"

-- GetLastBlock
unfoldable pub get_last_block : Exec Store ℕ
unfolding get_meta read_block
get_last_block = do v ← get_meta last_block_key; read_block v

-- SetLastBlock
unfoldable pub set_last_block : ℕ → Exec Store (Unit {0})
unfolding set_meta print
set_last_block n = set_meta last_block_key (print n)
