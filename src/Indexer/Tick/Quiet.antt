-- ===== src/Indexer/Tick/Quiet.antt =====
-- The three scans of the indexer where no statement fails and the chain answers.
use zchf_grenadier.Prelude.{
  ◌≢◌, ◌+◌, All, Bool-cases, inl, inr, length, ltb, nat_eq, list_eq, ℕ, ◌≡◌, refl, Option, some,
  List, [], ◌∷◌, ◌++◌,
}
use zchf_grenadier.Prelude.Int.{ℤ}
use zchf_grenadier.Text.{Text}
use zchf_grenadier.Exec.{Result, ok, err, Exec, pure, ◌>>=◌}
use zchf_grenadier.Table.{Table}
use zchf_grenadier.Store.Rows.{Position}
use zchf_grenadier.Store.Handle.{Store}
use zchf_grenadier.Chain.Log.{Log, minting_hub_v2}
use zchf_grenadier.Chain.Abi.{Decoded, value, refused, panicked}
use zchf_grenadier.Chain.Hydrate.{Reader, LogFilter, CollateralMeta}
use zchf_grenadier.Indexer.State.{Indexer, on_store, known_addresses}
use zchf_grenadier.Indexer.Discover.{
  tally, store_hydrated, discover, discover_filter, discover_log, discover_logs, discovered,
}
use zchf_grenadier.Indexer.Discover.Laws.{discover-Preserves}
use zchf_grenadier.Indexer.Refresh.{
  is_known, refresh, refresh_known, refresh_one, refresh_all, refresh_filter, merge_logs, slices,
  addr_chunk, touched,
}
use zchf_grenadier.Indexer.Refresh.Laws.{refresh-Preserves}
use zchf_grenadier.Indexer.Challenges.Scan.{Rpc, scan_challenges, block_numbers}
use zchf_grenadier.Indexer.Challenges.Alive.{HasTopic, Counted, Counted-scan_blocks}
use zchf_grenadier.Indexer.Tick.{restarted}
use zchf_grenadier.Indexer.Challenges.Preserves.{Preserves-scan_challenges}
use zchf_grenadier.Indexer.Loop.Advance.{IsDone, Succeeds}
use zchf_grenadier.Indexer.Tick.Calm.{
  Calm, Calm-query, Calm-upsert_challenge, Calm-upsert_bid, Calm-upsert_position, Returns,
  IsDone-of, Returns-continue, Returns-known_addresses, Calm-known_addresses,
}

-- The chain answers every request for logs, with logs that have a topic, as every request names
-- some.
abbrev pub Answering : Reader → Type 0
Answering chain =
    (f : LogFilter) → (logs : List Log) × (chain.get_logs f ≡ some logs) × All HasTopic logs

-- No hydration panics.
abbrev pub HydratesCalmly : Reader → Type 0
HydratesCalmly chain =
    ((a : Text) (meta : CollateralMeta) → (chain.hydrate a meta).0 ≢ panicked)
    × ((a : Text) → chain.hydrate_plain a ≢ panicked)

merge_logs-some :
    (ask : List Text → Option (List Log))
    → ((s : List Text) → (logs : List Log) × (ask s ≡ some logs))
    → (ss : List (List Text)) → (logs : List Log) × (merge_logs ask ss ≡ some logs)
unfolding merge_logs
merge_logs-some ask h [] = ([], refl)
merge_logs-some ask h (s ∷ ss) =
    let (first, e) = h s in
    let (rest, f) = merge_logs-some ask h ss in (first ++ rest, rw (merge_logs, e, f) refl)

Returns-tally : (p : Result (Unit {0}) × Indexer) → Returns (tally p)
unfolding tally
Returns-tally (ok u, ix) = tt
Returns-tally (err e, ix) = tt

Returns-store_hydrated :
    (change : Position → Position) (block : ℕ) (p : Decoded Position × CollateralMeta)
    (ix : Indexer)
    → p.0 ≢ panicked
    → Returns (store_hydrated change block p ix)
unfolding store_hydrated
Returns-store_hydrated change block (value p, meta) ix h = Returns-tally _
Returns-store_hydrated change block (refused, meta) ix h = tt
Returns-store_hydrated change block (panicked, meta) ix h = absurd (h refl)

Returns-sum :
    (m k : Exec Indexer ℕ)
    → ((ix : Indexer) → Returns (m ix))
    → ((ix : Indexer) → Returns (k ix))
    → (ix : Indexer) → Returns ((m >>= λ a. k >>= λ b. pure (a + b)) ix)
Returns-sum m k hm hk ix =
    Returns-continue (m ix) (λ a. k >>= λ b. pure (a + b)) (hm ix)
      (λ a x. Returns-continue (k x) (λ b. pure (a + b)) (hk x) (λ b y. tt))

module _ (chain : Reader) (answering : Answering chain) (calm : HydratesCalmly chain) where
  Returns-discover_log : (l : Log) (ix : Indexer) → Returns (discover_log chain l ix)
  unfolding discover_log
  Returns-discover_log l ix = elim (Bool-cases (ltb (length l.topics) 3)) [
    | inl short ↦ rw short tt
    | inr long ↦ rw long (Returns-store_hydrated _ _ _ ix (calm.0 _ ix.collateral_meta))
  ]

  Returns-discover_logs : (logs : List Log) (ix : Indexer) → Returns (discover_logs chain logs ix)
  unfolding discover_logs
  Returns-discover_logs [] ix = tt
  Returns-discover_logs (l ∷ ls) ix =
      Returns-sum (discover_log chain l) (discover_logs chain ls) (Returns-discover_log l)
        (Returns-discover_logs ls) ix

  Returns-discovered : (p : Result ℕ × Indexer) → Returns p → Returns (discovered chain p)
  unfolding discovered
  Returns-discovered (ok n, ix) h = tt
  Returns-discovered (err e, ix) h = h

  pub discover-Succeeds : (from to : ℕ) → Succeeds (discover chain from to)
  unfolding discover
  discover-Succeeds from to ix q =
      let (logs, e, bare) = answering (discover_filter from to) in
      let returns : Returns (discover chain from to ix) =
        rw (discover, e)
          (Returns-discovered (discover_logs chain logs ix) (Returns-discover_logs logs ix)) in
      IsDone-of (discover chain from to ix) returns
        (discover-Preserves Calm Calm-upsert_position chain from to ix q)

  module _ (order : Table Text ℕ → Table Text ℕ) where
    Returns-refresh_one :
        (addrs : List Text) (e : Text × ℕ) (ix : Indexer)
        → Returns (refresh_one chain order addrs e ix)
    unfolding refresh_one
    Returns-refresh_one addrs (a, block) ix = elim (Bool-cases (is_known addrs a)) [
      | inl known ↦
          rw known (Returns-store_hydrated (λ p. p) block _ ix (calm.0 a ix.collateral_meta))
      | inr unknown ↦ rw unknown tt
    ]

    Returns-refresh_all :
        (addrs : List Text) (es : Table Text ℕ) (ix : Indexer)
        → Returns (refresh_all chain order addrs es ix)
    unfolding refresh_all
    Returns-refresh_all addrs [] ix = tt
    Returns-refresh_all addrs (e ∷ es) ix =
        Returns-sum (refresh_one chain order addrs e) (refresh_all chain order addrs es)
          (Returns-refresh_one addrs e) (Returns-refresh_all addrs es) ix

    Returns-refresh_known :
        (from to : ℕ) (addrs : List Text) (ix : Indexer)
        → Returns (refresh_known chain order from to addrs ix)
    unfolding refresh_known
    Returns-refresh_known from to [] ix = tt
    Returns-refresh_known from to (a ∷ more) ix =
        let (logs, e) =
          merge_logs-some (λ s. chain.get_logs (refresh_filter from to s))
            (λ s.
              ((answering (refresh_filter from to s)).0, (answering (refresh_filter from to s)).1))
            (slices addr_chunk ((a ∷ more) ++ minting_hub_v2 ∷ [])) in
        rw (refresh_known, e) (Returns-refresh_all (a ∷ more) (order (touched logs [])) ix)

    pub refresh-Succeeds : (from to : ℕ) → Succeeds (refresh chain order from to)
    unfolding refresh
    refresh-Succeeds from to ix q =
        IsDone-of (refresh chain order from to ix)
          (Returns-continue (known_addresses ix) (refresh_known chain order from to)
            (Returns-known_addresses ix q) (Returns-refresh_known from to))
          (refresh-Preserves Calm Calm-upsert_position Calm-known_addresses chain order from to ix
            q)

restarted-stored :
    (ix : Indexer) (p : Result ℕ × Store)
    → Counted p
    → Calm p.1
    → IsDone (restarted (p.0, record ix { store = p.1 }))
unfolding restarted
restarted-stored ix (ok a, s) r h = h
restarted-stored ix (err e, s) r h = absurd r

-- ScanChallenges, over the chain's answers to its filter.
module _ (junk : Text → ℤ) (rpc : Rpc)
    (answering : (a b : ℕ) → (logs : List Log) × (rpc.get_logs a b ≡ some logs) × All HasTopic logs)
    (calm : (a : Text) → rpc.hydrate a ≢ panicked) where
  pub scan_challenges-Succeeds :
      (from to : ℕ) → Succeeds (λ ix. restarted (on_store (scan_challenges junk rpc from to) ix))
  unfolding on_store scan_challenges
  scan_challenges-Succeeds from to ix q =
      let (logs, e, topics) = answering from to in
      let counted : Counted (scan_challenges junk rpc from to ix.store) =
        rw (scan_challenges, e)
          (Counted-scan_blocks junk rpc calm logs (block_numbers logs) topics ix.store) in
      restarted-stored ix (scan_challenges junk rpc from to ix.store) counted (
        Preserves-scan_challenges Calm Calm-query Calm-upsert_challenge Calm-upsert_bid junk rpc
          from to ix.store q)
