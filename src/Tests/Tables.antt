-- ===== src/Tests/Tables.antt =====
-- The theorems on the snapshot writers, on a tick of the loop and on the number texts.
use zchf_grenadier.Prelude.{
  ◌+◌, ◌≡◌, refl, true, false, List, [], ◌∷◌, nat_eq, list_eq, pair_eq, arith, map,
}
use zchf_grenadier.Text.{codes, lower}
use zchf_grenadier.Exec.{ok, pure}
use zchf_grenadier.Table.{find, HasUniqueKeys}
use zchf_grenadier.Table.Order.{order_desc}
use zchf_grenadier.Store.Rows.{Minter}
use zchf_grenadier.Store.Handle.{Store, quiet}
use zchf_grenadier.Store.Governance.{bulk_upsert_minters, all_minters, minter_row, fold_minter}
use zchf_grenadier.Store.Governance.Snapshot.{
  Replaced, bulk_upsert_minters-Replaced, minter_entry, all_minters-bulk_upsert_minters,
}
use zchf_grenadier.Indexer.State.{Indexer, new_indexer}
use zchf_grenadier.Indexer.Loop.{Scans, scan_chunks, start_of, tick_at, target_of}
use zchf_grenadier.Indexer.Loop.Chunks.{chunks, Tiles, hits, scan_all, tick_covers}
use zchf_grenadier.Indexer.Loop.Chunks.{IsSmall}
use zchf_grenadier.Indexer.Loop.Progress.{Ends, tick_at-Ends}
use zchf_grenadier.Tests.Data.{application, denied_db}

program : Unit {0}
unfolding lower find minter_entry fold_minter
program = tt

applications : List Minter
applications = application (codes "0x1") ∷ application (codes "0x2") ∷ []

applications-HasUniqueKeys : HasUniqueKeys (map minter_entry applications)
unfolding program applications
applications-HasUniqueKeys = (refl, (refl, tt))

bulk_upsert_minters-Replaced_example : Replaced applications denied_db (
    bulk_upsert_minters applications
      (record { db = denied_db; outcomes = true ∷ true ∷ true ∷ true ∷ false ∷ [] }))
bulk_upsert_minters-Replaced_example =
    bulk_upsert_minters-Replaced applications
      (record { db = denied_db; outcomes = true ∷ true ∷ true ∷ true ∷ false ∷ [] })

all_minters-bulk_upsert_minters_example :
    (s : Store) × (bulk_upsert_minters applications (quiet denied_db) ≡ (ok tt, s))
    × (all_minters s ≡ (
      ok (
          map
            (λ r. r.data_column)
            (order_desc (λ r. r.apply_date) (map (λ m. minter_row (fold_minter m)) applications))),
      s,
    ))
all_minters-bulk_upsert_minters_example =
    all_minters-bulk_upsert_minters applications denied_db applications-HasUniqueKeys

-- Scans that find nothing.
abbrev idle : Scans
idle = record {
  discover = λ a b. pure 0;
  refresh = λ a b. pure 0;
  challenges = λ a b. pure 0;
  cancelled = λ a. false;
}

-- 21000000 is in one chunk of a tick from 20999000 to 21005000.
tick_covers_example :
    ((st : Indexer)
      → scan_chunks idle (21005000 + 2) 21005000 (start_of 20999000) st
        ≡ scan_all idle (chunks (21005000 + 2) 21005000 (start_of 20999000)) st)
    × Tiles (start_of 20999000) 21005000 (chunks (21005000 + 2) 21005000 (start_of 20999000))
    × (hits 21000000 (chunks (21005000 + 2) 21005000 (start_of 20999000)) ≡ 1)
tick_covers_example =
    tick_covers idle 21005000 20999000 21000000 (omega arith) (omega arith) (omega arith)

far_target-IsSmall : IsSmall (target_of 21005000)
unfolding target_of
far_target-IsSmall = omega arith

tick_at-Ends_example :
    Ends idle
      (target_of 21005000)
      (new_indexer (quiet denied_db))
      (tick_at idle 21005000 (new_indexer (quiet denied_db)))
tick_at-Ends_example =
    tick_at-Ends idle (λ a b s. refl) (λ a b s. refl) (λ a b s. refl) 21005000
      (new_indexer (quiet denied_db)) far_target-IsSmall
