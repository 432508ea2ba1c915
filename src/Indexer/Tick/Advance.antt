-- ===== src/Indexer/Tick/Advance.antt =====
-- A tick of the indexer on which nothing fails moves the last scanned block to its target.
use zchf_grenadier.Prelude.{ℕ, ◌<◌, ◌≡◌, Bool, false}
use zchf_grenadier.Prelude.Int.{ℤ}
use zchf_grenadier.Text.{Text}
use zchf_grenadier.Exec.{ok}
use zchf_grenadier.Table.{Table}
use zchf_grenadier.Store.Positions.{get_last_block}
use zchf_grenadier.Chain.Hydrate.{Reader}
use zchf_grenadier.Indexer.State.{Indexer}
use zchf_grenadier.Indexer.Loop.{tick_at, target_of, last_or_fresh}
use zchf_grenadier.Indexer.Loop.Chunks.{IsSmall}
use zchf_grenadier.Indexer.Loop.Advance.{IsQuiet, Advanced, tick_at-Advanced}
use zchf_grenadier.Indexer.Tick.{indexer_scans, rpc_of, challenges_filter}
use zchf_grenadier.Indexer.Tick.Quiet.{
  Answering, HydratesCalmly, discover-Succeeds, refresh-Succeeds, scan_challenges-Succeeds,
}

-- A tick of the indexer makes progress: where the chain answers every request for logs with logs
-- that each have a topic (their number and what else is in them, the blocks and the hydrations may
-- be anything, errors included), no hydration panics, no statement fails, the tick is not cancelled,
-- the target is far from the end of a uint64 and the last block, or the one that stands for a fresh
-- start, is below the target, the tick returns without an error and the last block then reads as the
-- target.
pub indexer_tick-Advanced :
    (chain : Reader) (junk : Text → ℤ) (order : Table Text ℕ → Table Text ℕ) (cancelled : ℕ → Bool)
    (head last : ℕ) (ix : Indexer)
    → Answering chain
    → HydratesCalmly chain
    → ((a : ℕ) → cancelled a ≡ false)
    → IsSmall (target_of head)
    → IsQuiet ix
    → get_last_block ix.store ≡ (ok last, ix.store)
    → last_or_fresh (target_of head) last < target_of head
    → Advanced (target_of head) (tick_at (indexer_scans chain junk order cancelled) head ix)
unfolding indexer_scans rpc_of
indexer_tick-Advanced chain junk order cancelled head last ix answering calm running s q read
      below =
    tick_at-Advanced (indexer_scans chain junk order cancelled)
      (discover-Succeeds chain answering calm) (refresh-Succeeds chain answering calm order)
      (scan_challenges-Succeeds junk (rpc_of chain) (λ a b. answering (challenges_filter a b))
        calm.1)
      running head last ix s q read below
