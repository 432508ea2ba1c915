-- ===== src/Indexer/Discover/Laws.antt =====
-- What Discover leaves behind.
use zchf_grenadier.Prelude.{
  ℕ, ◌+◌, ◌<◌, ◌≡◌, refl, ◌∙◌, ◌⊎◌, inl, inr, none, List, [], ◌∷◌, arith, length, ltb, lt→ltb,
  Bool-cases, Option-cases,
}
use zchf_grenadier.Prelude.Int.{ℤ, to_int64}
use zchf_grenadier.Text.{Text, lower}
use zchf_grenadier.Exec.{Result, ok, err, Exec, pure, continue, ◌>>=◌}
use zchf_grenadier.Chain.Abi.{Decoded, value, refused, panicked}
use zchf_grenadier.Exec.Keeps.{Preserves, Preserves-bind}
use zchf_grenadier.Store.Rows.{Position}
use zchf_grenadier.Store.Handle.{Store}
use zchf_grenadier.Store.Positions.{upsert_position}
use zchf_grenadier.Chain.Log.{Log}
use zchf_grenadier.Chain.Hydrate.{Reader, CollateralMeta}
use zchf_grenadier.Indexer.State.{Indexer, on_store, mark_known_dirty, cached, new_indexer}
use zchf_grenadier.Indexer.State.Laws.{IsCurrent, Puts, upsert_position-Puts}
use zchf_grenadier.Indexer.Discover.{
  tally, store_hydrated, discover_log, discover_logs, discovered, discover, discover_filter,
}

state-tally : (p : Result (Unit {0}) × Indexer) → (tally p).1 ≡ p.1
unfolding tally
state-tally (ok u, ix) = refl
state-tally (err e, ix) = refl

-- What holds after a hydration: what held before, what holds after the upsert of the position, or
-- what holds of the process that comes after a panic.
pub store_hydrated_rule :
    (Q : Indexer → Type 0) (change : Position → Position) (block : ℕ) (o : Decoded Position)
    (meta : CollateralMeta) (ix : Indexer)
    → Q (new_indexer ix.store)
    → Q (record ix { collateral_meta = meta })
    → ((p : Position)
        → o ≡ value p
        → Q
            (on_store
              (upsert_position (change p) (to_int64 block))
              (record ix { collateral_meta = meta })).1)
    → Q (store_hydrated change block (o, meta) ix).1
unfolding store_hydrated
store_hydrated_rule Q change block refused meta ix next same put = same
store_hydrated_rule Q change block panicked meta ix next same put = next
store_hydrated_rule Q change block (value p) meta ix next same put =
    rw
      (state-tally (
        on_store (upsert_position (change p) (to_int64 block))
          (record ix { collateral_meta = meta })))
      (put p refl)

-- A predicate on the store that the upsert of a position preserves.
module _ (I : Store → Type 0)
    (step : (p : Position) (block : ℤ) (s : Store) → I s → I (upsert_position p block s).1)
    (chain : Reader) where
  discover_log-Preserves :
      (log : Log) (ix : Indexer) → I ix.store → I (discover_log chain log ix).1.store
  unfolding discover_log on_store new_indexer
  discover_log-Preserves log ix h = elim (Bool-cases (ltb (length log.topics) 3)) [
    | inl short ↦ rw short h
    | inr long ↦
        rw long (store_hydrated_rule (λ x. I x.store) _ _ _ _ ix h h (λ p e. step _ _ ix.store h))
  ]

  discover_logs-Preserves :
      (logs : List Log) → Preserves (λ ix. I ix.store) (discover_logs chain logs)
  unfolding discover_logs
  discover_logs-Preserves [] ix h = h
  discover_logs-Preserves (l ∷ ls) ix h =
      (Preserves-bind (λ ix. I ix.store) (discover_log chain l) _ (discover_log-Preserves l)
          (λ n.
            Preserves-bind (λ ix. I ix.store) (discover_logs chain ls) _
              (discover_logs-Preserves ls) (λ m ix h. h)))
        ix h

  store-discovered : (p : Result ℕ × Indexer) → (discovered chain p).1.store ≡ p.1.store
  unfolding discovered mark_known_dirty
  store-discovered (err e, ix) = refl
  store-discovered (ok n, ix) = elim (Bool-cases (ltb 0 n)) [ inl e ↦ rw e | inr e ↦ rw e ]

  pub discover-Preserves : (from to : ℕ) → Preserves (λ ix. I ix.store) (discover chain from to)
  unfolding discover
  discover-Preserves from to ix h = elim (Option-cases (chain.get_logs (discover_filter from to))) [
    | inl e ↦ rw (e, discover) h
    | inr (logs, e) ↦
        rw (e, discover, store-discovered (discover_logs chain logs ix))
          (discover_logs-Preserves logs ix h)
  ]

-- A success is counted, an error leaves the database, and the cache is left in both; a panic leaves
-- no cache.
abbrev Counts : Indexer → Result ℕ × Indexer → Type 0
Counts ix (err e, x) = cached x ≡ none
Counts ix (ok n, x) = (cached x ≡ cached ix) × ((0 < n) ⊎ (x.store.db ≡ ix.store.db))

tally-Counts :
    (ix : Indexer) (k : Text) (meta : CollateralMeta) (p : Result (Unit {0}) × Store)
    → Puts k ix.store.db p
    → Counts ix (tally (p.0, record ix { collateral_meta = meta; store = p.1 }))
unfolding tally cached
tally-Counts ix k meta (ok u, s) h = (refl, inl (omega arith))
tally-Counts ix k meta (err e, s) h = (refl, inr h)

pub store_hydrated-Counts :
    (change : Position → Position) (block : ℕ) (o : Decoded Position) (meta : CollateralMeta)
    (ix : Indexer)
    → Counts ix (store_hydrated change block (o, meta) ix)
unfolding store_hydrated cached on_store new_indexer
store_hydrated-Counts change block refused meta ix = (refl, inr refl)
store_hydrated-Counts change block panicked meta ix = refl
store_hydrated-Counts change block (value p) meta ix =
    tally-Counts ix (lower (change p).position) meta
      (upsert_position (change p) (to_int64 block) ix.store)
      (upsert_position-Puts (change p) (to_int64 block) ix.store)

Counts-add :
    (ix : Indexer) (n : ℕ) (x : Indexer) (q : Result ℕ × Indexer)
    → Counts ix (ok n, x)
    → Counts x q
    → Counts ix (continue q.0 q.1 (λ m. pure (n + m)))
Counts-add ix n x (err e, y) c d = d
Counts-add ix n x (ok m, y) (c, inl h) (d, e) = (d ∙ c, inl (omega arith))
Counts-add ix n x (ok m, y) (c, inr h) (d, inl k) = (d ∙ c, inl (omega arith))
Counts-add ix n x (ok m, y) (c, inr h) (d, inr k) = (d ∙ c, inr (k ∙ h))

Counts-bind :
    (ix : Indexer) (p : Result ℕ × Indexer) (k : Exec Indexer ℕ)
    → Counts ix p
    → ((x : Indexer) → Counts x (k x))
    → Counts ix (continue p.0 p.1 (λ n. k >>= λ m. pure (n + m)))
Counts-bind ix (err e, x) k c d = c
Counts-bind ix (ok n, x) k c d = Counts-add ix n x (k x) c (d x)

IsCurrent-same :
    (ix x : Indexer) → cached x ≡ cached ix → x.store.db ≡ ix.store.db → IsCurrent ix → IsCurrent x
IsCurrent-same ix x c d h = rw (c, d) h

module _ (chain : Reader) where
  discover_log-Counts : (log : Log) (ix : Indexer) → Counts ix (discover_log chain log ix)
  unfolding discover_log
  discover_log-Counts log ix = elim (Bool-cases (ltb (length log.topics) 3)) [
    | inl short ↦ rw short (refl, inr refl)
    | inr long ↦ rw long (store_hydrated-Counts _ _ _ _ ix)
  ]

  discover_logs-Counts : (logs : List Log) (ix : Indexer) → Counts ix (discover_logs chain logs ix)
  unfolding discover_logs
  discover_logs-Counts [] ix = (refl, inr refl)
  discover_logs-Counts (l ∷ ls) ix =
      Counts-bind ix (discover_log chain l ix) (discover_logs chain ls) (discover_log-Counts l ix)
        (discover_logs-Counts ls)

  discovered-IsCurrent :
      (ix : Indexer) (p : Result ℕ × Indexer)
      → Counts ix p
      → IsCurrent ix
      → IsCurrent (discovered chain p).1
  unfolding discovered mark_known_dirty cached
  discovered-IsCurrent ix (err e, x) c h = rw c tt
  discovered-IsCurrent ix (ok n, x) (c, inl counted) h = rw (lt→ltb 0 n counted) tt
  discovered-IsCurrent ix (ok n, x) (c, inr same) h = elim (Bool-cases (ltb 0 n)) [
    | inl e ↦ rw e tt
    | inr e ↦ rw e (IsCurrent-same ix x c same h)
  ]

  -- Discover leaves the cache of addresses right, or marked dirty: where the addresses that the
  -- indexer caches are those of the positions table, they are so after Discover, whatever the chain
  -- answers and whichever statements fail.
  pub discover-IsCurrent : (from to : ℕ) → Preserves IsCurrent (discover chain from to)
  unfolding discover
  discover-IsCurrent from to ix h = elim (Option-cases (chain.get_logs (discover_filter from to))) [
    | inl e ↦ rw (e, discover) h
    | inr (logs, e) ↦
        rw (e, discover)
          (discovered-IsCurrent ix (discover_logs chain logs ix) (discover_logs-Counts logs ix) h)
  ]
