-- ===== src/Indexer/Loop/Advance.antt =====
-- A tick on which nothing fails moves the last scanned block to its target.
use zchf_grenadier.Prelude.{
  ℕ, zero, suc, ◌+◌, ◌^◌, ◌≤◌, ◌<◌, ◌≡◌, ap, false, [], leb, arith, inl, inr, Bool-cases,
}
use zchf_grenadier.Exec.{Result, ok, err, Exec, continue, ◌>>=◌}
use zchf_grenadier.Store.Handle.{Db, Store, quiet}
use zchf_grenadier.Store.Positions.{get_last_block, set_last_block}
use zchf_grenadier.Store.Positions.LastBlock.{get_last_block-set_last_block}
use zchf_grenadier.Indexer.State.{Indexer, on_store}
use zchf_grenadier.Indexer.Loop.{
  Scans, target_of, last_or_fresh, start_of, end_of, scan_chunk, scan_chunks, from_last, tick_at,
}
use zchf_grenadier.Indexer.Loop.Chunks.{IsSmall, end_of_bounds, start_of_bounds}

-- No statement to come fails.
abbrev pub IsQuiet : Indexer → Type 0
IsQuiet ix = ix.store.outcomes ≡ []

-- A result on a store on which no statement to come fails.
abbrev pub IsDone : {A : Type 0} → Result A × Indexer → Type 0
IsDone (ok a, ix) = IsQuiet ix
IsDone (err e, ix) = ⊥

-- On such a store the program returns a result and leaves such a store.
abbrev pub Succeeds : {A : Type 0} → Exec Indexer A → Type 0
Succeeds m = (ix : Indexer) → IsQuiet ix → IsDone (m ix)

Succeeds-bind :
    {A B : Type 0} (m : Exec Indexer A) (k : A → Exec Indexer B)
    → Succeeds m
    → ((a : A) → Succeeds (k a))
    → Succeeds (m >>= k)
Succeeds-bind m k hm hk ix q = go (m ix) (hm ix q)
  where
    go : (p : Result _ × Indexer) → IsDone p → IsDone (continue p.0 p.1 k)
    go (ok a, x) h = hk a x h
    go (err e, x) h = absurd h

-- What the last block reads as, where the tick returned.
abbrev pub Advanced : ℕ → Result (Unit {0}) × Indexer → Type 0
Advanced target (ok u, ix) = (get_last_block ix.store).0 ≡ ok target
Advanced target (err e, ix) = ⊥

saved_on :
    (target : ℕ) (ix : Indexer) (s : Store) (db : Db)
    → target < 2 ^ 64
    → s ≡ quiet db
    → Advanced target
        ((set_last_block target s).0, record ix { store = (set_last_block target s).1 })
saved_on target ix s db small e =
    let h = get_last_block-set_last_block target db small in rw (e, h.0) (ap (λ p. p.0) h.1)

saved :
    (target : ℕ) (ix : Indexer)
    → target < 2 ^ 64
    → IsQuiet ix
    → Advanced target (on_store (set_last_block target) ix)
unfolding on_store
saved target ix s q =
    saved_on target ix ix.store ix.store.db s (λ i. record ix.store { outcomes = q i })

module _ (scans : Scans) (discover : (a b : ℕ) → Succeeds (scans.discover a b))
    (refresh : (a b : ℕ) → Succeeds (scans.refresh a b))
    (challenges : (a b : ℕ) → Succeeds (scans.challenges a b))
    (running : (a : ℕ) → scans.cancelled a ≡ false) where
  Succeeds-scan_chunk : (a b : ℕ) → Succeeds (scan_chunk scans a b)
  unfolding scan_chunk
  Succeeds-scan_chunk a b ix q = rw (running a) (
      Succeeds-bind (scans.discover a b) _ (discover a b)
        (λ _.
          Succeeds-bind (scans.refresh a b) _ (refresh a b)
            (λ _. Succeeds-bind (scans.challenges a b) _ (challenges a b) (λ _ x h. h)))
        ix q)

  Succeeds-scan_chunks :
      (fuel target from : ℕ)
      → IsSmall target
      → from ≤ target + 1
      → target + 1 < from + fuel
      → Succeeds (scan_chunks scans fuel target from)
  unfolding scan_chunks
  Succeeds-scan_chunks zero target from s low f ix q = absurd (omega arith)
  Succeeds-scan_chunks (suc fuel) target from s low f ix q = elim (Bool-cases (leb from target)) [
    | inl more ↦
        let le : from ≤ target = ground (arith, more) in
        let e = end_of_bounds target from s le in
        rw (more, e.3)
          (Succeeds-bind (scan_chunk scans from (end_of target from)) _
            (Succeeds-scan_chunk from (end_of target from))
            (λ _.
              Succeeds-scan_chunks fuel target (end_of target from + 1) s (omega arith)
                (omega arith))
            ix q)
    | inr stop ↦ rw stop q
  ]

  scanned :
      (target : ℕ) (p : Result (Unit {0}) × Indexer)
      → target < 2 ^ 64
      → IsDone p
      → Advanced target (continue p.0 p.1 (λ _. on_store (set_last_block target)))
  scanned target (ok u, ix) s h = saved target ix s h
  scanned target (err e, ix) s h = absurd h

  -- A tick makes progress: where the scans succeed on a store on which no statement fails, the tick
  -- is not cancelled, the head is far from the end of a uint64 and the last block, or the one that
  -- stands for a fresh start, is below the target, the tick returns without an error and the last
  -- block then reads as the target.
  pub tick_at-Advanced :
      (head last : ℕ) (ix : Indexer)
      → IsSmall (target_of head)
      → IsQuiet ix
      → get_last_block ix.store ≡ (ok last, ix.store)
      → last_or_fresh (target_of head) last < target_of head
      → Advanced (target_of head) (tick_at scans head ix)
  unfolding tick_at from_last on_store
  tick_at-Advanced head last ix s q read below =
      let target = target_of head in
      let known = last_or_fresh target last in
      let busy : leb target known ≡ false = ground (arith, below) in
      let bounds = start_of_bounds known (omega arith) in
      rw (read, busy)
        (scanned target (scan_chunks scans (target + 2) target (start_of known) ix) (omega arith) (
          Succeeds-scan_chunks (target + 2) target (start_of known) s (omega arith) (omega arith) ix
            q))
