-- ===== src/Indexer/Challenges/Scan.antt =====
-- ScanChallenges of indexer/challenges.go: the logs of a range of blocks, block after block.
use zchf_grenadier.Prelude.{
  ℕ, ◌+◌, Option, none, some, List, [], ◌∷◌, ◌==◌, nat_eq, list_eq, if◌then◌else◌, eqb, ltb, leb,
  keep, length,
}
use zchf_grenadier.Prelude.Int.{ℤ}
use zchf_grenadier.Text.{Text, lower}
use zchf_grenadier.Exec.{Result, ok, err, rpc_failed, crashed, is_crash, Exec, pure, ◌>>=◌}
use zchf_grenadier.Chain.Abi.{Decoded}
use zchf_grenadier.Store.Rows.{Position}
use zchf_grenadier.Store.Handle.{Store}
use zchf_grenadier.Chain.Log.{
  Log, block_num, log_idx, topic_challenge_started, topic_challenge_averted,
  topic_challenge_succeed,
}
use zchf_grenadier.Chain.Log.{topic}
use zchf_grenadier.Indexer.Challenges.Started.{handle_started}
use zchf_grenadier.Indexer.Challenges.Bids.{handle_averted, handle_succeeded}

-- What the chain answers: the logs of a range that match the filter, a block's timestamp and the
-- sender of each of its transactions by lower-case hash ("" for one that it does not hold), and a
-- position's hydration. `none` is an error; a hydration is a value, an error or a panic.
pub record Rpc : Type 0 where
  pub get_logs : ℕ → ℕ → Option (List Log)
  pub get_block : ℕ → Option (ℤ × (Text → Text))
  pub hydrate : Text → Decoded Position

-- The keys of byBlock in ascending order.
unfoldable pub place_block : ℕ → List ℕ → List ℕ
place_block n [] = n ∷ []
place_block n (b ∷ bs) =
    let rest = place_block n bs in
    if eqb n b then b ∷ bs else if ltb n b then n ∷ b ∷ bs else b ∷ rest

unfoldable pub block_numbers : List Log → List ℕ
unfolding place_block
block_numbers [] = []
block_numbers (l ∷ ls) = place_block (block_num l) (block_numbers ls)

-- The logs by log index.
unfoldable pub place_log : Log → List Log → List Log
place_log l [] = l ∷ []
place_log l (k ∷ ks) =
    let rest = place_log l ks in if leb (log_idx l) (log_idx k) then l ∷ k ∷ ks else k ∷ rest

unfoldable pub sort_logs : List Log → List Log
unfolding place_log
sort_logs [] = []
sort_logs (l ∷ ls) = place_log l (sort_logs ls)

-- byBlock[bn], sorted
unfoldable pub logs_in : ℕ → List Log → List Log
unfolding sort_logs
logs_in b logs = sort_logs (keep (λ l. eqb (block_num l) b) logs)

-- An event counts unless its handler failed; a panic goes through.
unfoldable pub counted : Result (Unit {0}) × Store → Result ℕ × Store
counted (ok u, s) = (ok 1, s)
counted (err e, s) = (if is_crash e then err e else ok 0, s)

module _ (junk : Text → ℤ) (rpc : Rpc) where
  -- The switch on the first topic, which panics on a log without topics.
  unfoldable pub scan_log : ℤ → (Text → Text) → Log → Exec Store ℕ
  scan_log ts senders log s =
      let bidder = senders (lower log.tx_hash) in
      let kind = topic 0 log.topics in
      if eqb (length log.topics) 0
      then (err crashed, s)
      else if kind == topic_challenge_started
      then counted (handle_started rpc.hydrate log ts s)
      else if kind == topic_challenge_averted
      then counted (handle_averted junk log bidder s)
      else if kind == topic_challenge_succeed
      then counted (handle_succeeded junk log bidder s)
      else (ok 0, s)

  unfoldable pub scan_logs : ℤ → (Text → Text) → List Log → Exec Store ℕ
  scan_logs ts senders [] = pure 0
  scan_logs ts senders (l ∷ ls) = do
    a ← scan_log ts senders l
    b ← scan_logs ts senders ls
    pure (a + b)

  -- A block that cannot be fetched is skipped.
  unfoldable pub scan_block : Option (ℤ × (Text → Text)) → List Log → Exec Store ℕ
  scan_block none ls = pure 0
  scan_block (some (ts, senders)) ls = scan_logs ts senders ls

  unfoldable pub scan_blocks : List Log → List ℕ → Exec Store ℕ
  scan_blocks logs [] = pure 0
  scan_blocks logs (b ∷ bs) = do
    n ← scan_block (rpc.get_block b) (logs_in b logs)
    m ← scan_blocks logs bs
    pure (n + m)

  -- ScanChallenges
  unfoldable pub scan_challenges : ℕ → ℕ → Exec Store ℕ
  scan_challenges from to s = elim (rpc.get_logs from to) [
    | none ↦ (err rpc_failed, s)
    | some logs ↦ scan_blocks logs (block_numbers logs) s
  ]
