-- ===== src/Indexer/Loop/Progress.antt =====
-- When a tick moves the last scanned block.
use zchf_grenadier.Prelude.{
  ℕ, zero, suc, ◌+◌, ◌<◌, ◌≤◌, arith, List, ◌≡◌, refl, ap, sym, ◌∙◌, ◌⊎◌, inl, inr, some, [], ◌∷◌,
  leb, Bool-cases, Option-cases, nat_eq, list_eq,
}
use mathlib.Core.Option.{some-injective}
use zchf_grenadier.Text.{Text, codes}
use zchf_grenadier.Text.Decimal.{print, parse_uint64}
use zchf_grenadier.Exec.{Result, ok, err, continue}
use zchf_grenadier.Table.{upsert}
use zchf_grenadier.Store.Handle.{Db, Store, query}
use zchf_grenadier.Store.Handle.Laws.{Wrote, execute-Wrote}
use zchf_grenadier.Store.Positions.{get_meta, set_meta, read_block, get_last_block, set_last_block}
use zchf_grenadier.Exec.Keeps.{Keeps, Keeps-bind}
use zchf_grenadier.Indexer.State.{Indexer, on_store}
use zchf_grenadier.Indexer.State.Laws.{meta_of}
use zchf_grenadier.Indexer.Loop.Chunks.{IsSmall, Tiles, hits, chunks, scan_all, tick_covers}
use zchf_grenadier.Indexer.Loop.{
  Scans, target_of, last_or_fresh, start_of, end_of, add64, scan_chunk, scan_chunks, from_last,
  tick_at,
}

read_block-state : (v : Text) (s : Store) → (read_block v s).1 ≡ s
unfolding read_block
read_block-state [] s = refl
read_block-state (c ∷ v) s = elim (Option-cases (parse_uint64 (c ∷ v))) [
  | inl e ↦ rw (e, read_block)
  | inr (n, e) ↦ rw (e, read_block)
]

-- A read leaves the database.
abbrev pub Reads : Db → Result ℕ × Store → Type 0
Reads db p = p.1.db ≡ db

pub get_last_block-Reads : (s : Store) → Reads s.db (get_last_block s)
unfolding get_last_block get_meta query
get_last_block-Reads s = go (get_meta (codes "last_block") s) refl
  where
    go : (p : Result Text × Store) → p.1.db ≡ s.db → Reads s.db (continue p.0 p.1 read_block)
    go (ok v, t) h = ap (λ (x : Store). x.db) (read_block-state v t) ∙ h
    go (err e, t) h = h

-- Every block after `known` up to the target was scanned: ranges that follow each other from the
-- start of the tick to the target, with each of these blocks in one of them, were scanned one after
-- the other, each without an error, which led from one state to the other.
abbrev pub Scanned : Scans → ℕ → ℕ → Indexer → Indexer → Type 0
Scanned scans target known before after =
    (cs : List (ℕ × ℕ)) × Tiles (start_of known) target cs
    × ((n : ℕ) → known < n → n ≤ target → hits n cs ≡ 1)
    × (scan_all scans cs before ≡ (ok tt, after))

-- Where a tick to `target` from `s` ends: an error leaves the meta table. A result is on the last
-- block that was read from `s`; where that is not below the target, nothing else was done, and where
-- it is, every block after it was scanned from there, and the write of the target as the last block
-- led to the end.
abbrev pub Ends : Scans → ℕ → Indexer → Result (Unit {0}) × Indexer → Type 0
Ends scans target s (err e, t) = meta_of t ≡ meta_of s
Ends scans target s (ok u, t) =
    (last : ℕ) × (before : Indexer) × (on_store get_last_block s ≡ (ok last, before))
    × (((target ≤ last_or_fresh target last) × (t ≡ before) × (meta_of t ≡ meta_of s))
        ⊎ ((last_or_fresh target last < target)
            × (meta_of t ≡ upsert (codes "last_block") (print target) (meta_of s))
            × (after : Indexer) × Scanned scans target (last_or_fresh target last) before after
            × (on_store (set_last_block target) after ≡ (ok u, t))))

-- The write of the last block, or an error that leaves the meta table.
abbrev Saves : ℕ → Indexer → Result (Unit {0}) × Indexer → Type 0
Saves target s (ok u, t) = meta_of t ≡ upsert (codes "last_block") (print target) (meta_of s)
Saves target s (err e, t) = meta_of t ≡ meta_of s

module _ (scans : Scans) (discover : (a b : ℕ) → Keeps meta_of (scans.discover a b))
    (refresh : (a b : ℕ) → Keeps meta_of (scans.refresh a b))
    (challenges : (a b : ℕ) → Keeps meta_of (scans.challenges a b)) where
  Keeps-scan_chunk : (a b : ℕ) → Keeps meta_of (scan_chunk scans a b)
  unfolding scan_chunk
  Keeps-scan_chunk a b s = elim (Bool-cases (scans.cancelled a)) [
    | inl stop ↦ rw stop
    | inr on ↦ rw on (
        Keeps-bind meta_of (scans.discover a b) _ (discover a b)
          (λ _.
            Keeps-bind meta_of (scans.refresh a b) _ (refresh a b)
              (λ _. Keeps-bind meta_of (scans.challenges a b) _ (challenges a b) (λ _ t. refl)))
          s)
  ]

  Keeps-scan_chunks : (fuel target from : ℕ) → Keeps meta_of (scan_chunks scans fuel target from)
  unfolding scan_chunks
  Keeps-scan_chunks zero target from s = refl
  Keeps-scan_chunks (suc fuel) target from s = elim (Bool-cases (leb from target)) [
    | inl more ↦ rw more (
        Keeps-bind meta_of (scan_chunk scans from (end_of target from)) _
          (Keeps-scan_chunk from (end_of target from))
          (λ _. Keeps-scan_chunks fuel target (add64 (end_of target from) 1)) s)
    | inr stop ↦ rw stop
  ]

  meta-saved :
      (target : ℕ) (s mid : Indexer) (p : Result (Unit {0}) × Store)
      → meta_of mid ≡ meta_of s
      → Wrote
          (some (record mid.store.db {
            meta = upsert (codes "last_block") (print target) mid.store.db.meta;
          }))
          mid.store.db
          p
      → Saves target s (p.0, record mid { store = p.1 })
  meta-saved target s mid (ok u, t) e h =
      ap (λ (d : Db). d.meta) (sym (some-injective _ _ h))
      ∙ ap (λ m. upsert (codes "last_block") (print target) m) e
  meta-saved target s mid (err x, t) e h = ap (λ (d : Db). d.meta) h ∙ e

  Saves-set_last_block :
      (target : ℕ) (s mid : Indexer)
      → meta_of mid ≡ meta_of s
      → Saves target s (on_store (set_last_block target) mid)
  unfolding set_last_block set_meta on_store
  Saves-set_last_block target s mid e =
      meta-saved target s mid (set_last_block target mid.store) e (
        execute-Wrote
          (λ db. some (record db { meta = upsert (codes "last_block") (print target) db.meta }))
          mid.store)

  saved :
      (target last : ℕ) (s before mid : Indexer) (p : Result (Unit {0}) × Indexer)
      → on_store get_last_block s ≡ (ok last, before)
      → last_or_fresh target last < target
      → Scanned scans target (last_or_fresh target last) before mid
      → on_store (set_last_block target) mid ≡ p
      → Saves target s p
      → Ends scans target s p
  saved target last s before mid (ok u, t) read below run write h =
      (last, before, read, inr (below, h, mid, run, write))
  saved target last s before mid (err x, t) read below run write h = h

  Scanned-chunks :
      (target known : ℕ) (before after : Indexer)
      → IsSmall target
      → known < target
      → scan_chunks scans (target + 2) target (start_of known) before ≡ (ok tt, after)
      → Scanned scans target known before after
  Scanned-chunks target known before after small below run =
      let whole = tick_covers scans target known target small below (omega arith) in
      (
        chunks (target + 2) target (start_of known),
        whole.1,
        (λ n above in_range. (tick_covers scans target known n small above in_range).2),
        sym (whole.0 before) ∙ run,
      )

  scanned :
      (target last : ℕ) (s before : Indexer) (p : Result (Unit {0}) × Indexer)
      → IsSmall target
      → on_store get_last_block s ≡ (ok last, before)
      → last_or_fresh target last < target
      → meta_of p.1 ≡ meta_of s
      → (scan_chunks scans (target + 2) target (start_of (last_or_fresh target last)) before ≡ p)
      → Ends scans target s (continue p.0 p.1 (λ _. on_store (set_last_block target)))
  scanned target last s before (ok tt, mid) small read below e run =
      saved target last s before mid (on_store (set_last_block target) mid) read below
        (Scanned-chunks target (last_or_fresh target last) before mid small below run) refl
        (Saves-set_last_block target s mid e)
  scanned target last s before (err x, t) small read below e run = e

  on_last :
      (head : ℕ) (s : Indexer) (p : Result ℕ × Indexer)
      → IsSmall (target_of head)
      → on_store get_last_block s ≡ p
      → meta_of p.1 ≡ meta_of s
      → Ends scans (target_of head) s (continue p.0 p.1 (from_last scans (target_of head)))
  unfolding from_last
  on_last head s (err x, t) small read e = e
  on_last head s (ok last, t) small read e =
      let target = target_of head in
      let start = start_of (last_or_fresh target last) in
      elim (Bool-cases (leb target (last_or_fresh target last))) [
        | inl idle ↦ rw idle (last, t, read, inl (ground (arith, idle), refl, e))
        | inr busy ↦ rw busy (
            scanned target last s t (scan_chunks scans (target + 2) target start t) small read
              (ground (arith, busy)) (Keeps-scan_chunks (target + 2) target start t ∙ e) refl)
      ]

  -- A tick moves the last scanned block only behind a complete scan. Where none of the three scans
  -- writes the meta table and the target is far from the end of a uint64, whatever statements fail: a
  -- tick that ends in an error leaves the meta table as it was. One that ends without an error has
  -- read a last block; where that, or the block that stands for a fresh start, is not below the
  -- target, the read is all it did. Where it is below, ranges that follow each other up to the target
  -- and hold every block after it exactly once were scanned from the state of that read, one after
  -- the other and each without an error, and the write of the target as the last block, on the state
  -- that this scan left, gave the end of the tick.
  pub tick_at-Ends :
      (head : ℕ) (s : Indexer)
      → IsSmall (target_of head)
      → Ends scans (target_of head) s (tick_at scans head s)
  unfolding tick_at on_store
  tick_at-Ends head s small =
      on_last head s (on_store get_last_block s) small refl
        (ap (λ (d : Db). d.meta) (get_last_block-Reads s.store))
