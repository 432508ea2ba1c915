-- ===== src/Tests/Positions.antt =====
-- The theorems on the positions, at a denied position with a balance of 40.
use zchf_grenadier.Prelude.{
  ◌≡◌, refl, true, false, some, [], ◌∷◌, ◌==◌, nat_eq, list_eq, pair_eq, arith, keep, if◌then◌else◌,
}
use zchf_grenadier.Prelude.Int.{pos}
use zchf_grenadier.Text.{lower}
use zchf_grenadier.Exec.{ok}
use zchf_grenadier.Table.{find}
use zchf_grenadier.Store.Handle.{quiet}
use zchf_grenadier.Store.Positions.{
  position_in, upsert_position, bulk_upsert, get_position, live_in, owned_in, is_blank,
  set_last_block, get_last_block,
}
use zchf_grenadier.Store.Positions.Reads.{
  StoredAt, IsDenied, HasBalance, upserts, upserts-IsDenied, upserts-HasBalance,
  upsert_position_twice, get_position-upsert_position, after_upsert, next_position,
}
use zchf_grenadier.Store.Positions.Invariant.{
  IsValid, upsert_position-IsValid, bulk_upsert-IsValid, queries_agree, is_open, all_data,
}
use zchf_grenadier.Store.Positions.LastBlock.{with_last_block, get_last_block-set_last_block}
use zchf_grenadier.Tests.Data.{pool, alice, denied_position, hydrated_position, denied_db}

program : Unit {0}
unfolding lower position_in find is_blank
program = tt

pub denied_db-IsValid : IsValid denied_db
unfolding program
denied_db-IsValid = record {
  unique = (refl, tt);
  agree = (
    record {
      key = refl;
      folded = refl;
      owner = refl;
      owner_folded = refl;
      closed = refl;
      denied = refl;
    },
    tt,
  );
}

denied_db-StoredAt : StoredAt IsDenied pool denied_db
unfolding program
denied_db-StoredAt = (denied_position, refl, refl)

upserts-IsDenied_example :
    StoredAt IsDenied pool (upserts ((hydrated_position, pos 4) ∷ []) (quiet denied_db)).db
upserts-IsDenied_example =
    upserts-IsDenied ((hydrated_position, pos 4) ∷ []) pool denied_db denied_db-StoredAt

denied_db-HasBalance : StoredAt HasBalance pool denied_db
unfolding program
denied_db-HasBalance = (denied_position, refl, refl)

upserts-HasBalance_example :
    StoredAt HasBalance pool (upserts ((hydrated_position, pos 4) ∷ []) (quiet denied_db)).db
upserts-HasBalance_example =
    upserts-HasBalance ((hydrated_position, pos 4) ∷ []) pool denied_db denied_db-HasBalance

upsert_position_twice_example :
    upsert_position hydrated_position
      (pos 4)
      (upsert_position hydrated_position (pos 4) (quiet denied_db)).1
    ≡ upsert_position hydrated_position (pos 4) (quiet denied_db)
upsert_position_twice_example = upsert_position_twice hydrated_position (pos 4) denied_db

upsert_position-IsValid_example :
    IsValid
      (upsert_position hydrated_position
        (pos 4)
        (record { db = denied_db; outcomes = false ∷ [] })).1.db
upsert_position-IsValid_example =
    upsert_position-IsValid hydrated_position (pos 4)
      (record { db = denied_db; outcomes = false ∷ [] }) denied_db-IsValid

bulk_upsert-IsValid_example :
    IsValid
      (bulk_upsert
        (hydrated_position ∷ denied_position ∷ [])
        (pos 4)
        (record { db = denied_db; outcomes = true ∷ true ∷ true ∷ false ∷ [] })).1.db
bulk_upsert-IsValid_example =
    bulk_upsert-IsValid (hydrated_position ∷ denied_position ∷ []) (pos 4)
      (record { db = denied_db; outcomes = true ∷ true ∷ true ∷ false ∷ [] }) denied_db-IsValid

queries_agree_example :
    (live_in denied_db ≡ keep is_open (all_data denied_db))
    × (owned_in alice denied_db ≡ keep (λ p. p.owner == alice) (all_data denied_db))
queries_agree_example = queries_agree denied_db alice denied_db-IsValid

get_position-upsert_position_example :
    (upsert_position hydrated_position (pos 4) (quiet denied_db)
      ≡ (ok tt, quiet (after_upsert hydrated_position (pos 4) denied_db)))
    × ((get_position pool (quiet (after_upsert hydrated_position (pos 4) denied_db))).0
        ≡ ok (
            if lower pool == lower pool
            then some (next_position hydrated_position denied_db)
            else position_in (lower pool) denied_db))
get_position-upsert_position_example =
    get_position-upsert_position hydrated_position (pos 4) denied_db pool

get_last_block-set_last_block_example :
    (set_last_block 21000000 (quiet denied_db)
      ≡ (ok tt, quiet (with_last_block 21000000 denied_db)))
    × (get_last_block (quiet (with_last_block 21000000 denied_db))
        ≡ (ok 21000000, quiet (with_last_block 21000000 denied_db)))
get_last_block-set_last_block_example =
    get_last_block-set_last_block 21000000 denied_db (omega arith)
