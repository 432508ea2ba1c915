-- ===== src/Indexer/Loop/Preserves.antt =====
-- A predicate on the indexer that the scans of a chunk preserve.
use zchf_grenadier.Prelude.{ℕ, zero, suc, ◌+◌, none, some, Option, leb, inl, inr, Bool-cases}
use zchf_grenadier.Exec.Keeps.{Preserves, Preserves-bind}
use zchf_grenadier.Store.Positions.{get_last_block, set_last_block}
use zchf_grenadier.Indexer.State.{Indexer, on_store}
use zchf_grenadier.Indexer.Loop.{
  Scans, target_of, last_or_fresh, start_of, end_of, add64, scan_chunk, scan_chunks, from_last,
  tick_at, tick,
}

module _ (I : Indexer → Type 0) (scans : Scans)
    (discover : (a b : ℕ) → Preserves I (scans.discover a b))
    (refresh : (a b : ℕ) → Preserves I (scans.refresh a b))
    (challenges : (a b : ℕ) → Preserves I (scans.challenges a b)) where
  Preserves-scan_chunk : (a b : ℕ) → Preserves I (scan_chunk scans a b)
  unfolding scan_chunk
  Preserves-scan_chunk a b s h = elim (Bool-cases (scans.cancelled a)) [
    | inl stop ↦ rw stop h
    | inr on ↦ rw on (
        Preserves-bind I (scans.discover a b) _ (discover a b)
          (λ _.
            Preserves-bind I (scans.refresh a b) _ (refresh a b)
              (λ _. Preserves-bind I (scans.challenges a b) _ (challenges a b) (λ _ t k. k)))
          s h)
  ]

  pub Preserves-scan_chunks :
      (fuel target from : ℕ) → Preserves I (scan_chunks scans fuel target from)
  unfolding scan_chunks
  Preserves-scan_chunks zero target from s h = h
  Preserves-scan_chunks (suc fuel) target from s h = elim (Bool-cases (leb from target)) [
    | inl more ↦ rw more (
        Preserves-bind I (scan_chunk scans from (end_of target from)) _
          (Preserves-scan_chunk from (end_of target from))
          (λ _. Preserves-scan_chunks fuel target (add64 (end_of target from) 1)) s h)
    | inr stop ↦ rw stop h
  ]

  module _ (get_last : Preserves I (on_store get_last_block))
      (set_last : (n : ℕ) → Preserves I (on_store (set_last_block n))) where
    Preserves-from_last : (target last : ℕ) → Preserves I (from_last scans target last)
    unfolding from_last
    Preserves-from_last target last s h =
        elim (Bool-cases (leb target (last_or_fresh target last))) [
          | inl idle ↦ rw idle h
          | inr busy ↦ rw busy (
              Preserves-bind I
                (scan_chunks scans (target + 2) target (start_of (last_or_fresh target last))) _
                (Preserves-scan_chunks (target + 2) target (start_of (last_or_fresh target last)))
                (λ _. set_last target) s h)
        ]

    Preserves-tick_at : (head : ℕ) → Preserves I (tick_at scans head)
    unfolding tick_at
    Preserves-tick_at head =
        Preserves-bind I (on_store get_last_block) _ get_last (Preserves-from_last (target_of head))

    pub tick_rule : (head : Option ℕ) (ix : Indexer) → I ix → I (tick scans head ix)
    unfolding tick
    tick_rule none ix h = h
    tick_rule (some head) ix h = Preserves-tick_at head ix h
