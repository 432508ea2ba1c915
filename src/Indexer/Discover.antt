-- ===== src/Indexer/Discover.antt =====
-- indexer/discover.go: new positions, from the PositionOpened events of the hub.
pub mod Laws
use zchf_grenadier.Prelude.{
  ℕ, ◌+◌, Bool, true, false, Option, none, some, List, [], ◌∷◌, if◌then◌else◌, length, ltb,
}
use zchf_grenadier.Prelude.Int.{ℤ, pos, int_beq, to_int64}
use zchf_grenadier.Text.{Text, lower}
use zchf_grenadier.Text.Hex.{topic_to_address}
use zchf_grenadier.Exec.{Result, ok, err, rpc_failed, crashed, Exec, pure, ◌>>=◌}
use zchf_grenadier.Chain.Abi.{Decoded, value, refused, panicked}
use zchf_grenadier.Store.Rows.{Position}
use zchf_grenadier.Store.Positions.{upsert_position}
use zchf_grenadier.Chain.Log.{Log, topic, block_num, topic_position_opened, minting_hub_v2}
use zchf_grenadier.Chain.Hydrate.{Reader, LogFilter, CollateralMeta, resolve_owner}
use zchf_grenadier.Indexer.State.{Indexer, on_store, mark_known_dirty, new_indexer}

unfoldable pub discover_filter : ℕ → ℕ → LogFilter
discover_filter from to = record {
  from_block = from;
  to_block = to;
  addresses = minting_hub_v2 ∷ [];
  topics = topic_position_opened ∷ [];
}

-- pos.Owner = strings.ToLower(realOwner); if pos.Created == 0 { … }
unfoldable pub opened : Text → ℕ → Position → Position
opened owner block p = record p {
  owner = lower owner;
  created = if int_beq p.created (pos 0) then to_int64 block else p.created;
}

-- 1 for a success, 0 for an error that is printed; a statement does not panic
unfoldable pub tally : Result (Unit {0}) × Indexer → Result ℕ × Indexer
tally (ok u, ix) = (ok 1, ix)
tally (err e, ix) = (ok 0, ix)

-- An upsert of what the hydration answered, if it did. A panic of the hydration ends the process:
-- what is left is the database, on which the next process starts.
unfoldable pub store_hydrated :
    (Position → Position) → ℕ → Decoded Position × CollateralMeta → Exec Indexer ℕ
unfolding tally on_store new_indexer
store_hydrated change block (refused, meta) ix = (ok 0, record ix { collateral_meta = meta })
store_hydrated change block (panicked, meta) ix = (err crashed, new_indexer ix.store)
store_hydrated change block (value p, meta) ix =
    tally (
      on_store (upsert_position (change p) (to_int64 block)) (record ix { collateral_meta = meta }))

module _ (chain : Reader) where
  -- One round of the loop of Discover.
  unfoldable pub discover_log : Log → Exec Indexer ℕ
  unfolding opened store_hydrated resolve_owner
  discover_log log ix =
      let position = topic_to_address (topic 2 log.topics) in
      let owner =
        resolve_owner chain.receipt_logs (topic_to_address (topic 1 log.topics)) position
          log.tx_hash in
      if ltb (length log.topics) 3
      then (ok 0, ix)
      else store_hydrated (opened owner (block_num log)) (block_num log)
          (chain.hydrate position ix.collateral_meta) ix

  unfoldable pub discover_logs : List Log → Exec Indexer ℕ
  discover_logs [] = pure 0
  discover_logs (l ∷ ls) = do n ← discover_log l; m ← discover_logs ls; pure (n + m)

  -- if count > 0 { ix.MarkKnownDirty() }
  unfoldable pub discovered : Result ℕ × Indexer → Result ℕ × Indexer
  discovered (err e, ix) = (err e, ix)
  discovered (ok n, ix) = (ok n, if ltb 0 n then mark_known_dirty ix else ix)

  -- Discover
  unfoldable pub discover : ℕ → ℕ → Exec Indexer ℕ
  unfolding discovered discover_logs discover_filter
  discover from to ix = elim (chain.get_logs (discover_filter from to)) [
    | none ↦ (err rpc_failed, ix)
    | some logs ↦ discovered (discover_logs logs ix)
  ]
