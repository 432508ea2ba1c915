-- ===== src/Indexer/Tick/Laws.antt =====
-- What the ticks of the indexer preserve.
use zchf_grenadier.Prelude.{
  All, ℕ, ◌≡◌, Bool-cases, inl, inr, refl, ap, sym, ◌∙◌, Bool, Option, some, List, [], ◌∷◌, map,
  nat_eq, list_eq,
}
use zchf_grenadier.Prelude.Int.{ℤ}
use zchf_grenadier.Text.{Text, codes}
use zchf_grenadier.Text.Decimal.{print}
use mathlib.Core.Option.{some-injective}
use zchf_grenadier.Exec.{Exec, Result, ok, err, is_crash}
use zchf_grenadier.Exec.Keeps.{Preserves, Keeps}
use zchf_grenadier.Table.{Table, upsert}
use zchf_grenadier.Store.Handle.{Db, Store}
use zchf_grenadier.Store.Handle.Laws.{Wrote, execute-Wrote}
use zchf_grenadier.Store.Positions.{get_last_block, set_last_block, set_meta}
use zchf_grenadier.Store.Positions.Invariant.{IsValid, upsert_position-IsValid}
use zchf_grenadier.Chain.Hydrate.{Reader}
use zchf_grenadier.Indexer.State.{known_addresses, Indexer, on_store, new_indexer, cached}
use zchf_grenadier.Indexer.State.Laws.{db-known_addresses, IsCurrent, meta_of, meta-upsert_position}
use zchf_grenadier.Indexer.Discover.Laws.{discover-Preserves, discover-IsCurrent}
use zchf_grenadier.Indexer.Refresh.Laws.{refresh-Preserves}
use zchf_grenadier.Indexer.Refresh.Current.{HydratesOwn, refresh-IsCurrent, IsCurrentCache-same}
use zchf_grenadier.Indexer.Challenges.Scan.{scan_challenges}
use zchf_grenadier.Indexer.Challenges.Meta.{
  scan_challenges-KeepsMeta, scan_challenges-KeepsPositions,
}
use zchf_grenadier.Indexer.Loop.{tick, tick_at, target_of}
use zchf_grenadier.Indexer.Loop.Progress.{Ends, tick_at-Ends, get_last_block-Reads}
use zchf_grenadier.Indexer.Loop.Preserves.{tick_rule}
use zchf_grenadier.Indexer.Tick.{indexer_scans, Round, run, rpc_of, restarted}
use zchf_grenadier.Indexer.Loop.Chunks.{IsSmall}

-- The rows of the positions table are well formed, and the cached addresses are theirs.
abbrev pub IsSound : Indexer → Type 0
IsSound ix = IsValid ix.store.db × IsCurrent ix

IsValid-same : (new old : Db) → new.positions ≡ old.positions → IsValid old → IsValid new
IsValid-same new old e v = record { unique = rw e v.unique; agree = rw e v.agree }

-- An operation of the store that leaves the positions.
IsSound-on_store :
    {A : Type 0} (m : Exec Store A)
    → Keeps (λ (s : Store). s.db.positions) m
    → Preserves IsSound (on_store m)
unfolding on_store cached
IsSound-on_store m keeps ix (v, h) = (
  IsValid-same (m ix.store).1.db ix.store.db (keeps ix.store) v,
  IsCurrentCache-same (cached ix) (m ix.store).1.db ix.store.db
      (ap (map (λ p. p.0)) (keeps ix.store)) h,
)

-- A restart leaves the store.
store-restarted :
    {A : Type 0} (p : Result A × Indexer) (m : Table Text Text)
    → meta_of p.1 ≡ m
    → meta_of (restarted p).1 ≡ m
unfolding restarted new_indexer
store-restarted (ok a, ix) m h = h
store-restarted (err e, ix) m h = elim (Bool-cases (is_crash e)) [ inl c ↦ rw c h | inr c ↦ rw c h ]

IsSound-restarted : {A : Type 0} (p : Result A × Indexer) → IsSound p.1 → IsSound (restarted p).1
unfolding restarted new_indexer cached
IsSound-restarted (ok a, ix) h = h
IsSound-restarted (err e, ix) (v, h) = elim (Bool-cases (is_crash e)) [
  | inl c ↦ rw c (v, tt)
  | inr c ↦ rw c (v, h)
]

known-IsValid : Preserves (λ ix. IsValid ix.store.db) known_addresses
known-IsValid ix v = rw (db-known_addresses ix) v

Keeps-get_last_block : Keeps (λ (s : Store). s.db.positions) get_last_block
Keeps-get_last_block s = ap (λ (d : Db). d.positions) (get_last_block-Reads s)

positions-Wrote :
    (new old : Db) (p : Result (Unit {0}) × Store)
    → new.positions ≡ old.positions
    → Wrote (some new) old p
    → p.1.db.positions ≡ old.positions
positions-Wrote new old (ok u, s) e w =
    ap (λ (d : Db). d.positions) (sym (some-injective new s.db w)) ∙ e
positions-Wrote new old (err x, s) e w = ap (λ (d : Db). d.positions) w

Keeps-set_last_block : (n : ℕ) → Keeps (λ (s : Store). s.db.positions) (set_last_block n)
unfolding set_last_block set_meta
Keeps-set_last_block n s =
    positions-Wrote (record s.db { meta = upsert (codes "last_block") (print n) s.db.meta }) s.db _
      refl
      (execute-Wrote
        (λ db. some (record db { meta = upsert (codes "last_block") (print n) db.meta })) s)

module _ (chain : Reader) (junk : Text → ℤ) (order : Table Text ℕ → Table Text ℕ)
    (cancelled : ℕ → Bool) where
  -- A tick of the indexer moves the last scanned block only behind a complete scan, whatever the
  -- chain answers, panics of hydrations included, and whatever statements fail, where the target is
  -- far from the end of a uint64. A tick that ends in an error leaves the meta table as it was. One
  -- that ends without an error has read a last block; where that, or the block that stands for a
  -- fresh start, is not below the target, the read is all it did. Where it is below, Discover,
  -- Refresh and ScanChallenges ran, from the state of that read, on ranges that follow each other up
  -- to the target and hold every block after the last one exactly once, all without an error, and
  -- the write of the target as the last block, on the state that they left, gave the end of the tick.
  pub indexer_tick-Ends :
      (head : ℕ) (ix : Indexer)
      → IsSmall (target_of head)
      → Ends
          (indexer_scans chain junk order cancelled)
          (target_of head)
          ix
          (tick_at (indexer_scans chain junk order cancelled) head ix)
  unfolding indexer_scans on_store
  indexer_tick-Ends =
      tick_at-Ends (indexer_scans chain junk order cancelled)
        (λ a b ix.
          discover-Preserves (λ (s : Store). s.db.meta ≡ meta_of ix)
            (λ p block s h. meta-upsert_position p block s ∙ h) chain a b ix refl)
        (λ a b ix.
          refresh-Preserves (λ (s : Store). s.db.meta ≡ meta_of ix)
            (λ p block s h. meta-upsert_position p block s ∙ h)
            (λ x h. ap (λ (d : Db). d.meta) (db-known_addresses x) ∙ h) chain order a b ix refl)
        (λ a b ix.
          store-restarted (on_store (scan_challenges junk (rpc_of chain) a b) ix) _
            (scan_challenges-KeepsMeta junk (rpc_of chain) a b ix.store))

  module _ (own : HydratesOwn chain) where
    tick-IsSound :
        (head : Option ℕ) (ix : Indexer)
        → IsSound ix
        → IsSound (tick (indexer_scans chain junk order cancelled) head ix)
    unfolding indexer_scans
    tick-IsSound =
        tick_rule IsSound (indexer_scans chain junk order cancelled)
          (λ a b ix h. (
            discover-Preserves (λ (s : Store). IsValid s.db) upsert_position-IsValid chain a b ix
                h.0,
            discover-IsCurrent chain a b ix h.1,
          ))
          (λ a b ix h. (
            refresh-Preserves (λ (s : Store). IsValid s.db) upsert_position-IsValid known-IsValid
                chain order a b ix h.0,
            refresh-IsCurrent chain order own a b ix h.0 h.1,
          ))
          (λ a b ix h. IsSound-restarted (on_store (scan_challenges junk (rpc_of chain) a b) ix) (
            IsSound-on_store (scan_challenges junk (rpc_of chain) a b)
              (scan_challenges-KeepsPositions junk (rpc_of chain) a b) ix h))
          (IsSound-on_store get_last_block Keeps-get_last_block)
          (λ n. IsSound-on_store (set_last_block n) (Keeps-set_last_block n))

module _ (junk : Text → ℤ) where
  run-IsSound :
      (rounds : List Round) (ix : Indexer)
      → All (λ r. HydratesOwn r.chain) rounds
      → IsSound ix
      → IsSound (run junk rounds ix)
  unfolding run
  run-IsSound [] ix own h = h
  run-IsSound (r ∷ rs) ix (first, own) h =
      run-IsSound rs (tick (indexer_scans r.chain junk r.order r.cancelled) r.head ix) own
        (tick-IsSound r.chain junk r.order r.cancelled first r.head ix h)

  -- From its start on a database whose positions table is well formed the indexer keeps that table
  -- well formed, and keeps the addresses that it caches those of the table unless it has marked them
  -- dirty, through any number of ticks: whatever heads, logs, blocks and hydrations the chain answers
  -- at each of them, panics included, as long as the hydration of an address answers a position of
  -- that address, and whichever statements fail.
  pub run-new_indexer :
      (rounds : List Round) (s : Store)
      → All (λ r. HydratesOwn r.chain) rounds
      → IsValid s.db
      → IsSound (run junk rounds (new_indexer s))
  unfolding new_indexer cached
  run-new_indexer rounds s own v = run-IsSound rounds (new_indexer s) own (v, tt)
