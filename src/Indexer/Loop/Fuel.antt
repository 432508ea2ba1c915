-- ===== src/Indexer/Loop/Fuel.antt =====
-- The loop of a tick ends, and never for want of fuel.
use zchf_grenadier.Prelude.{ℕ, zero, suc, ◌+◌, ◌≤◌, ◌<◌, ◌≡◌, ap, leb, arith, inl, inr, Bool-cases}
use mathlib.Core.Path.{fun_ext}
use zchf_grenadier.Exec.{continue}
use zchf_grenadier.Indexer.State.{Indexer}
use zchf_grenadier.Indexer.Loop.{Scans, end_of, scan_chunk, scan_chunks}
use zchf_grenadier.Indexer.Loop.Chunks.{IsSmall, end_of_bounds}

module _ (scans : Scans) where
  -- The loop of a tick ends: on a target far from the end of a uint64 it runs to its end within
  -- target + 2 - from rounds, so that any two numbers of rounds that are as large give the same
  -- result and the same state.
  pub scan_chunks_ends :
      (fuel more target from : ℕ)
      → IsSmall target
      → from ≤ target + 1
      → target + 1 < from + fuel
      → target + 1 < from + more
      → (st : Indexer)
      → scan_chunks scans fuel target from st ≡ scan_chunks scans more target from st
  unfolding scan_chunks
  scan_chunks_ends zero more target from s low f m st = absurd (omega arith)
  scan_chunks_ends (suc fuel) zero target from s low f m st = absurd (omega arith)
  scan_chunks_ends (suc fuel) (suc more) target from s low f m st =
      elim (Bool-cases (leb from target)) [
        | inl again ↦
            let le : from ≤ target = ground (arith, again) in
            let e = end_of_bounds target from s le in
            let ih =
              scan_chunks_ends fuel more target (end_of target from + 1) s (omega arith)
                (omega arith) (omega arith) in
            rw (again, e.3)
              (ap
                (λ k.
                  continue (scan_chunk scans from (end_of target from) st).0
                    (scan_chunk scans from (end_of target from) st).1 (λ _. k))
                (fun_ext ih))
        | inr stop ↦ rw stop
      ]
