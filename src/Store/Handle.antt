-- ===== src/Store/Handle.antt =====
-- The database handle of store/store.go. Each statement that is sent to SQLite may fail; which
-- ones do is a list of outcomes that the environment chooses, one for each statement to come (none
-- left: it succeeds). A statement that fails changes nothing. The Go mutex around the writes makes
-- each operation one step, so no interleaving is modelled inside one.
pub mod Laws
use zchf_grenadier.Prelude.{
  ℕ, ◌≡◌, refl, Bool, true, false, Option, none, some, List, [], ◌∷◌, if◌then◌else◌,
}
use zchf_grenadier.Prelude.Int.{ℤ, pos, negsuc}
use zchf_grenadier.Text.{Text}
use zchf_grenadier.Exec.{Result, ok, err, db_failed, Exec, pure, fail, ◌>>=◌, ◌>>◌}
use zchf_grenadier.Table.{Table}
use zchf_grenadier.Store.Rows.{
  PositionRow, ChallengeRow, BidRow, MinterRow, RateRow, LeadrateApproved, LeadrateProposed,
  HolderRow,
}

-- migrate, migrateChallenges and migrateGovernance create these tables.
pub record Db : Type 0 where
  pub positions : Table Text PositionRow
  pub meta : Table Text Text
  pub challenges : Table Text ChallengeRow
  pub bids : Table Text BidRow
  pub minters : Table (Text × Text) MinterRow
  pub leadrate_approved : Table (ℤ × (Text × ℤ)) (RateRow LeadrateApproved)
  pub leadrate_proposed : Table (ℤ × (Text × ℤ)) (RateRow LeadrateProposed)
  pub fps_holders : Table Text HolderRow
  pub equity_delegations : Table Text Text

abbrev pub fresh : Db
fresh = record {
  positions = [];
  meta = [];
  challenges = [];
  bids = [];
  minters = [];
  leadrate_approved = [];
  leadrate_proposed = [];
  fps_holders = [];
  equity_delegations = [];
}

pub record Store : Type 0 where
  pub db : Db
  pub outcomes : List Bool

-- A store on which every statement to come succeeds.
abbrev pub quiet : Db → Store
quiet db = record { db = db; outcomes = [] }

-- A statement is sent: its outcome, and those that are left.
unfoldable pub send : List Bool → Bool × List Bool
send [] = (true, [])
send (o ∷ os) = (o, os)

-- A SELECT.
unfoldable pub query : {A : Type 0} → (Db → A) → Exec Store A
unfolding send
query f s =
    let (sent, rest) = send s.outcomes in
    (if sent then ok (f s.db) else err db_failed, record s { outcomes = rest })

done : Bool → Option Db → Db → Result (Unit {0}) × Db
done true (some db') db = (ok tt, db')
done true none db = (err db_failed, db)
done false r db = (err db_failed, db)

-- An INSERT, UPDATE or DELETE; `none` is a constraint that it violates.
unfoldable pub execute : (Db → Option Db) → Exec Store (Unit {0})
unfolding send done
execute change s =
    let (sent, rest) = send s.outcomes in
    let (r, db') = done sent (change s.db) s.db in (r, record { db = db'; outcomes = rest })

-- BEGIN, PREPARE and COMMIT change no row.
unfoldable pub control : Exec Store (Unit {0})
unfolding execute
control = execute some

settle : Db → Result (Unit {0}) × Store → Result (Unit {0}) × Store
settle db (ok u, s) = (ok u, s)
settle db (err e, s) = (err e, record s { db = db })

-- `defer tx.Rollback()`: an error anywhere in the body undoes what the body wrote.
unfoldable pub transaction : Exec Store (Unit {0}) → Exec Store (Unit {0})
unfolding settle
transaction body s = settle s.db (body s)

-- The loop of the bulk writers over a prepared statement.
unfoldable pub each : {R : Type 0} → (R → Db → Option Db) → List R → Exec Store (Unit {0})
unfolding execute
each step [] = pure tt
each step (r ∷ rs) = execute (step r) >> each step rs

-- PREPARE, the rows, COMMIT.
unfoldable pub write_rows : {R : Type 0} → (R → Db → Option Db) → List R → Exec Store (Unit {0})
unfolding control each
write_rows step rs = do control; each step rs; control

-- BulkUpsert and its like: BEGIN, PREPARE, the rows, COMMIT.
unfoldable pub bulk : {R : Type 0} → (R → Db → Option Db) → List R → Exec Store (Unit {0})
unfolding transaction control write_rows
bulk step rs = transaction (do control; write_rows step rs)

-- The snapshot writers of store/governance.go: BEGIN, DELETE, PREPARE, the rows, COMMIT.
unfoldable pub snapshot :
    {R : Type 0} → (Db → Db) → (R → Db → Option Db) → List R → Exec Store (Unit {0})
unfolding transaction control execute write_rows
snapshot clear step rs =
    transaction (do control; execute (λ db. some (clear db)); write_rows step rs)
