-- ===== src/Indexer/Tick.antt =====
-- tick and Run of indexer/loop.go over the three scans of the indexer.
pub mod Laws
pub mod Calm
pub mod Quiet
pub mod Advance
use zchf_grenadier.Prelude.{
  ℕ, ◌≡◌, refl, ap, sym, ◌∙◌, Bool, Option, none, some, List, [], ◌∷◌, map, if◌then◌else◌,
}
use zchf_grenadier.Prelude.Int.{ℤ}
use zchf_grenadier.Text.{Text}
use zchf_grenadier.Exec.{Result, ok, err, is_crash, Exec}
use zchf_grenadier.Table.{Table}
use zchf_grenadier.Chain.Log.{
  minting_hub_v2, topic_challenge_started, topic_challenge_averted, topic_challenge_succeed,
}
use zchf_grenadier.Chain.Hydrate.{Reader, LogFilter}
use zchf_grenadier.Indexer.State.{Indexer, on_store, new_indexer}
use zchf_grenadier.Indexer.Discover.{discover}
use zchf_grenadier.Indexer.Refresh.{refresh}
use zchf_grenadier.Indexer.Challenges.Scan.{Rpc, scan_challenges}
use zchf_grenadier.Indexer.Loop.{Scans, tick}

unfoldable pub challenges_filter : ℕ → ℕ → LogFilter
challenges_filter from to = record {
  from_block = from;
  to_block = to;
  addresses = minting_hub_v2 ∷ [];
  topics = topic_challenge_started ∷ topic_challenge_averted ∷ topic_challenge_succeed ∷ [];
}

-- What ScanChallenges asks of the chain.
unfoldable pub rpc_of : Reader → Rpc
unfolding challenges_filter
rpc_of chain = record {
  get_logs = λ from to. chain.get_logs (challenges_filter from to);
  get_block = chain.get_block;
  hydrate = chain.hydrate_plain;
}

-- A panic ends the process: what is left is the database, on which the next process starts.
unfoldable pub restarted : {A : Type 0} → Result A × Indexer → Result A × Indexer
unfolding new_indexer
restarted (ok a, ix) = (ok a, ix)
restarted (err e, ix) = (err e, if is_crash e then new_indexer ix.store else ix)

module _ (chain : Reader) (junk : Text → ℤ) (order : Table Text ℕ → Table Text ℕ)
    (cancelled : ℕ → Bool) where
  unfoldable pub indexer_scans : Scans
  unfolding rpc_of discover refresh scan_challenges on_store restarted
  indexer_scans = record {
    discover = discover chain;
    refresh = refresh chain order;
    challenges =
        λ from to ix. restarted (on_store (scan_challenges junk (rpc_of chain) from to) ix);
    cancelled = cancelled;
  }

-- What one tick meets: the head that it is told, the answers of the chain, the order in which a
-- range over the touched positions goes, and where its context is cancelled.
pub record Round : Type 0 where
  pub head : Option ℕ
  pub chain : Reader
  pub order : Table Text ℕ → Table Text ℕ
  pub cancelled : ℕ → Bool

-- The ticks of Run; after a panic they are those of the Run of the process that is started next.
unfoldable pub run : (Text → ℤ) → List Round → Indexer → Indexer
unfolding indexer_scans
run junk [] ix = ix
run junk (r ∷ rs) ix = run junk rs (tick (indexer_scans r.chain junk r.order r.cancelled) r.head ix)
