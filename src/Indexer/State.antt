-- ===== src/Indexer/State.antt =====
-- The Indexer of indexer/loop.go: its store, the metadata of the tokens that it has read, and the
-- cached addresses of the positions. The mutex around the cache makes each use of it one step.
pub mod Laws
use zchf_grenadier.Prelude.{
  ℕ, Bool, true, false, not, ◌&&◌, Option, none, some, List, [], if◌then◌else◌,
}
use zchf_grenadier.Text.{Text}
use zchf_grenadier.Exec.{Result, ok, err, Exec}
use zchf_grenadier.Table.{Table}
use zchf_grenadier.Store.Handle.{Db, Store}
use zchf_grenadier.Store.Positions.{all_addresses}
use zchf_grenadier.Chain.Hydrate.{CollateralMeta}

pub record Indexer : Type 0 where
  pub store : Store
  pub collateral_meta : CollateralMeta
  pub known : Option (List Text)
  pub known_dirty : Bool

-- New: the first use of the addresses loads them.
unfoldable pub new_indexer : Store → Indexer
new_indexer st = record { store = st; collateral_meta = []; known = none; known_dirty = true }

-- An operation of the store.
unfoldable pub on_store : {A : Type 0} → Exec Store A → Exec Indexer A
on_store m ix = let (r, s) = m ix.store in (r, record ix { store = s })

-- ix.known where !ix.knownDirty && ix.known != nil
unfoldable pub cached : Indexer → Option (List Text)
cached ix = if ix.known_dirty then none else ix.known

unfoldable pub loaded : Indexer → Result (List Text) × Store → Result (List Text) × Indexer
loaded ix (ok addrs, s) =
    (ok addrs, record ix { store = s; known = some addrs; known_dirty = false })
loaded ix (err e, s) = (err e, record ix { store = s })

unfoldable pub known_from : Indexer → Option (List Text) → Result (List Text) × Indexer
unfolding loaded all_addresses
known_from ix (some addrs) = (ok addrs, ix)
known_from ix none = loaded ix (all_addresses ix.store)

-- KnownAddresses
unfoldable pub known_addresses : Exec Indexer (List Text)
unfolding cached known_from
known_addresses ix = known_from ix (cached ix)

-- MarkKnownDirty
unfoldable pub mark_known_dirty : Indexer → Indexer
mark_known_dirty ix = record ix { known_dirty = true }
