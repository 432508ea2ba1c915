-- ===== src/Indexer/Loop.antt =====
-- indexer/loop.go: one tick of the indexer, over the three scans that it calls for each range of
-- blocks.
pub mod Chunks
pub mod Preserves
pub mod Fuel
pub mod Advance
pub mod Progress
use zchf_grenadier.Prelude.{
  ℕ, zero, suc, ◌+◌, ◌-◌, ◌%◌, ◌^◌, ◌≡◌, Bool, true, false, Option, none, some, if◌then◌else◌, eqb,
  ltb, leb,
}
use zchf_grenadier.Text.{Text}
use zchf_grenadier.Exec.{Result, ok, err, rpc_failed, Exec, pure, fail, ◌>>=◌, ◌>>◌}
use zchf_grenadier.Indexer.State.{Indexer, on_store}
use zchf_grenadier.Store.Positions.{get_last_block, set_last_block}

abbrev pub max_block_range : ℕ
max_block_range = 2000

abbrev pub safety_depth : ℕ
safety_depth = 5

abbrev pub overlap : ℕ
overlap = 300

-- a + b on a uint64
unfoldable pub add64 : ℕ → ℕ → ℕ
add64 a b = (a + b) % 2 ^ 64

-- Discover, Refresh and ScanChallenges on a range of blocks, and whether the context is cancelled
-- when the chunk at a block begins.
pub record Scans : Type 0 where
  pub discover : ℕ → ℕ → Exec Indexer ℕ
  pub refresh : ℕ → ℕ → Exec Indexer ℕ
  pub challenges : ℕ → ℕ → Exec Indexer ℕ
  pub cancelled : ℕ → Bool

-- target: the head less the reorg margin
unfoldable pub target_of : ℕ → ℕ
target_of head = if ltb safety_depth head then head - safety_depth else head

-- last, where 0 says that there was no bootstrap
unfoldable pub last_or_fresh : ℕ → ℕ → ℕ
last_or_fresh target last =
    if eqb last 0 then (if ltb 0 target then target - 1 else target) else last

-- from: one past the last block, less the window that is scanned again
unfoldable pub start_of : ℕ → ℕ
start_of last = let from = add64 last 1 in if ltb overlap from then from - overlap else from

-- to: the end of the chunk that begins at `from`
unfoldable pub end_of : ℕ → ℕ → ℕ
end_of target from = let to = add64 from max_block_range in if ltb target to then target else to

module _ (scans : Scans) where
  -- One chunk: the three scans, or the first error.
  unfoldable pub scan_chunk : ℕ → ℕ → Exec Indexer (Unit {0})
  scan_chunk from to =
      if scans.cancelled from
      then fail rpc_failed
      else do scans.discover from to; scans.refresh from to; scans.challenges from to; pure tt

  -- The loop `for from <= target`, on fuel.
  unfoldable pub scan_chunks : ℕ → ℕ → ℕ → Exec Indexer (Unit {0})
  scan_chunks zero target from s = (err rpc_failed, s)
  scan_chunks (suc fuel) target from s =
      let to = end_of target from in
      let rest = (scan_chunk from to >> scan_chunks fuel target (add64 to 1)) s in
      if leb from target then rest else (ok tt, s)

  -- The rest of tick once the last block is read; `target + 2` rounds are enough.
  unfoldable pub from_last : ℕ → ℕ → Exec Indexer (Unit {0})
  from_last target last =
      let known = last_or_fresh target last in
      if leb target known
      then pure tt
      else do scan_chunks (target + 2) target (start_of known); on_store (set_last_block target)

  -- tick after the head is known
  unfoldable pub tick_at : ℕ → Exec Indexer (Unit {0})
  tick_at head = do last ← on_store get_last_block; from_last (target_of head) last

  -- tick: an error ends it, and is printed. `none` is an error of BlockNumber.
  unfoldable pub tick : Option ℕ → Indexer → Indexer
  tick none s = s
  tick (some head) s = (tick_at head s).1
