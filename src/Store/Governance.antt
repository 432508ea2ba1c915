-- ===== src/Store/Governance.antt =====
-- The governance tables of store/governance.go. Each writer is a snapshot: it deletes every row
-- and inserts the new ones with a plain INSERT, so a key that stands twice among them is an error.
pub mod Snapshot
use zchf_grenadier.Prelude.{
  ℕ, ◌≡◌, Bool, true, false, Option, none, some, List, [], ◌∷◌, map, nat_eq, list_eq, pair_eq,
  if◌then◌else◌, length, take,
}
use zchf_grenadier.Prelude.Int.{ℤ, pos, ltb_ℤ, int_eq}
use zchf_grenadier.Text.{Text, lower}
use zchf_grenadier.Exec.{Exec}
use zchf_grenadier.Table.{Table, insert, rows}
use zchf_grenadier.Table.Order.{order_desc}
use zchf_grenadier.Store.Rows.{
  Minter, MinterRow, LeadrateApproved, LeadrateProposed, RateRow, FpsHolder, HolderRow,
  EquityDelegation,
}
use zchf_grenadier.Store.Handle.{Db, Store, query, snapshot}

-- if m.Vetor != "" { m.Vetor = strings.ToLower(m.Vetor) }
lower_vetor : Text → Text
unfolding lower
lower_vetor [] = []
lower_vetor (c ∷ s) = lower (c ∷ s)

unfoldable pub fold_minter : Minter → Minter
unfolding lower lower_vetor
fold_minter m = record m {
  minter = lower m.minter;
  suggestor = lower m.suggestor;
  vetor = lower_vetor m.vetor;
}

unfoldable pub minter_row : Minter → MinterRow
minter_row m = record {
  data_column = m;
  chain_id = m.chain_id;
  apply_date = m.apply_date;
  denied = if ltb_ℤ (pos 0) m.deny_date then 1 else 0;
}

unfoldable pub with_minters : Db → Option (Table (Text × Text) MinterRow) → Option Db
with_minters db none = none
with_minters db (some t) = some (record db { minters = t })

unfoldable pub insert_minter : Minter → Db → Option Db
unfolding fold_minter minter_row with_minters insert
insert_minter m db =
    let f = fold_minter m in
    with_minters db (insert (f.tx_hash, f.minter) (minter_row f) db.minters)

-- BulkUpsertMinters
unfoldable pub bulk_upsert_minters : List Minter → Exec Store (Unit {0})
unfolding snapshot insert_minter
bulk_upsert_minters items = snapshot (λ db. record db { minters = [] }) insert_minter items

-- AllMinters
unfoldable pub all_minters : Exec Store (List Minter)
unfolding query rows
all_minters =
    query (λ db. map (λ r. r.data_column) (order_desc (λ r. r.apply_date) (rows db.minters)))

-- MinterCount
unfoldable pub minter_count : Exec Store ℕ
unfolding query
minter_count = query (λ db. length db.minters)

unfoldable pub with_approved :
    Db → Option (Table (ℤ × (Text × ℤ)) (RateRow LeadrateApproved)) → Option Db
with_approved db none = none
with_approved db (some t) = some (record db { leadrate_approved = t })

unfoldable pub insert_approved : LeadrateApproved → Db → Option Db
unfolding lower with_approved insert
insert_approved r db =
    let f = record r { module_address = lower r.module_address } in
    with_approved db (
      insert (f.chain_id, (f.module_address, f.count))
        (record { data_column = f; created = f.created }) db.leadrate_approved)

-- BulkUpsertLeadrateApproved
unfoldable pub bulk_upsert_approved : List LeadrateApproved → Exec Store (Unit {0})
unfolding snapshot insert_approved
bulk_upsert_approved items =
    snapshot (λ db. record db { leadrate_approved = [] }) insert_approved items

unfoldable pub with_proposed :
    Db → Option (Table (ℤ × (Text × ℤ)) (RateRow LeadrateProposed)) → Option Db
with_proposed db none = none
with_proposed db (some t) = some (record db { leadrate_proposed = t })

unfoldable pub insert_proposed : LeadrateProposed → Db → Option Db
unfolding lower with_proposed insert
insert_proposed r db =
    let f = record r { module_address = lower r.module_address; proposer = lower r.proposer } in
    with_proposed db (
      insert (f.chain_id, (f.module_address, f.count))
        (record { data_column = f; created = f.created }) db.leadrate_proposed)

-- BulkUpsertLeadrateProposed
unfoldable pub bulk_upsert_proposed : List LeadrateProposed → Exec Store (Unit {0})
unfolding snapshot insert_proposed
bulk_upsert_proposed items =
    snapshot (λ db. record db { leadrate_proposed = [] }) insert_proposed items

-- queryLeadrateApproved and queryLeadrateProposed, newest first
rates : {R : Type 0} → Table (ℤ × (Text × ℤ)) (RateRow R) → List R
unfolding rows
rates t = map (λ r. r.data_column) (order_desc (λ r. r.created) (rows t))

-- AllLeadrateApproved
unfoldable pub all_approved : Exec Store (List LeadrateApproved)
unfolding query rates
all_approved = query (λ db. rates db.leadrate_approved)

-- AllLeadrateProposed
unfoldable pub all_proposed : Exec Store (List LeadrateProposed)
unfolding query rates
all_proposed = query (λ db. rates db.leadrate_proposed)

unfoldable pub with_holders : Db → Option (Table Text HolderRow) → Option Db
with_holders db none = none
with_holders db (some t) = some (record db { fps_holders = t })

unfoldable pub insert_holder : FpsHolder → Db → Option Db
unfolding lower with_holders insert
insert_holder h db =
    with_holders db (
      insert (lower h.account) (record { balance = h.balance; updated = h.updated }) db.fps_holders)

-- BulkUpsertFPSHolders
unfoldable pub bulk_upsert_holders : List FpsHolder → Exec Store (Unit {0})
unfolding snapshot insert_holder
bulk_upsert_holders items = snapshot (λ db. record db { fps_holders = [] }) insert_holder items

holder_of : Text × HolderRow → FpsHolder
holder_of (a, r) = record { account = a; balance = r.balance; updated = r.updated }

-- FPSHoldersTop; `real` ranks balances as SQLite's CAST(balance AS REAL) does.
unfoldable pub fps_holders_top : (Text → ℤ) → ℕ → Exec Store (List FpsHolder)
unfolding query holder_of
fps_holders_top real limit =
    query (λ db. take limit (order_desc (λ h. real h.balance) (map holder_of db.fps_holders)))

unfoldable pub with_delegations : Db → Option (Table Text Text) → Option Db
with_delegations db none = none
with_delegations db (some t) = some (record db { equity_delegations = t })

unfoldable pub insert_delegation : EquityDelegation → Db → Option Db
unfolding lower with_delegations insert
insert_delegation d db =
    with_delegations db (insert (lower d.owner) (lower d.delegated_to) db.equity_delegations)

-- BulkUpsertDelegations
unfoldable pub bulk_upsert_delegations : List EquityDelegation → Exec Store (Unit {0})
unfolding snapshot insert_delegation
bulk_upsert_delegations items =
    snapshot (λ db. record db { equity_delegations = [] }) insert_delegation items

delegation_of : Text × Text → EquityDelegation
delegation_of (o, d) = record { owner = o; delegated_to = d }

-- AllDelegations
unfoldable pub all_delegations : Exec Store (List EquityDelegation)
unfolding query delegation_of
all_delegations = query (λ db. map delegation_of db.equity_delegations)

-- FPSHolderCount
unfoldable pub fps_holder_count : Exec Store ℕ
unfolding query
fps_holder_count = query (λ db. length db.fps_holders)

-- DelegationCount
unfoldable pub delegation_count : Exec Store ℕ
unfolding query
delegation_count = query (λ db. length db.equity_delegations)
