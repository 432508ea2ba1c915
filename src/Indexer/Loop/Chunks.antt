-- ===== src/Indexer/Loop/Chunks.antt =====
-- The chunks of the loop tile the range that it is given.
use zchf_grenadier.Prelude.{
  ℕ, zero, suc, ◌+◌, ◌^◌, ◌≤◌, ◌<◌, ◌≡◌, refl, ap, true, List, [], ◌∷◌, if◌then◌else◌, leb, ◌&&◌,
  arith, Bool-cases, inl, inr,
}
use mathlib.Core.Path.{fun_ext}
use zchf_grenadier.Exec.{Exec, pure, continue, ◌>>◌}
use zchf_grenadier.Indexer.State.{Indexer}
use zchf_grenadier.Indexer.Loop.{
  Scans, add64, end_of, scan_chunk, scan_chunks, start_of, overlap, max_block_range,
}

-- The ranges of the loop.
unfoldable pub chunks : ℕ → ℕ → ℕ → List (ℕ × ℕ)
chunks zero target from = []
chunks (suc fuel) target from =
    let rest = (from, end_of target from) ∷ chunks fuel target (add64 (end_of target from) 1) in
    if leb from target then rest else []

-- Consecutive ranges from `from` to `target`, none wider than the maximum.
abbrev pub Tiles : ℕ → ℕ → List (ℕ × ℕ) → Type 0
Tiles from target [] = target < from
Tiles from target ((a, b) ∷ cs) =
    (a ≡ from) × (a ≤ b) × (b ≤ target) × (b ≤ a + max_block_range) × Tiles (b + 1) target cs

-- How many of the ranges hold the block.
abbrev pub hits : ℕ → List (ℕ × ℕ) → ℕ
hits n [] = 0
hits n ((a, b) ∷ cs) = (if leb a n && leb n b then 1 else 0) + hits n cs

hits_below :
    (n from target : ℕ) (cs : List (ℕ × ℕ)) → Tiles from target cs → n < from → hits n cs ≡ 0
hits_below n from target [] t h = refl
hits_below n from target ((a, b) ∷ cs) t h =
    let rest = hits_below n (b + 1) target cs t.4 (omega arith) in ground (arith, t.0)

hits_tiled :
    (n from target : ℕ) (cs : List (ℕ × ℕ))
    → Tiles from target cs
    → from ≤ n
    → n ≤ target
    → hits n cs ≡ 1
hits_tiled n from target [] t h k = absurd (omega arith)
hits_tiled n from target ((a, b) ∷ cs) t h k = elim (Bool-cases (leb n b)) [
  | inl inside ↦
      let rest = hits_below n (b + 1) target cs t.4 (ground (arith, inside)) in
      let low : leb a n ≡ true = ground (arith, t.0) in rw (inside, low, rest) (omega arith)
  | inr beyond ↦
      let rest = hits_tiled n (b + 1) target cs t.4 (ground (arith, beyond)) k in
      rw (beyond, rest) (ground arith)
]

-- Blocks are far below the end of a uint64.
abbrev pub IsSmall : ℕ → Type 0
IsSmall target = target + max_block_range + 1 < 2 ^ 64

pub end_of_bounds :
    (target from : ℕ)
    → IsSmall target
    → from ≤ target
    → (from ≤ end_of target from)
      × (end_of target from ≤ target)
      × (end_of target from ≤ from + max_block_range)
      × (add64 (end_of target from) 1 ≡ end_of target from + 1)
unfolding end_of add64
end_of_bounds target from s h = ground arith

chunks-Tiles :
    (fuel target from : ℕ)
    → IsSmall target
    → target + 1 < from + fuel
    → Tiles from target (chunks fuel target from)
unfolding chunks
chunks-Tiles zero target from s h = omega arith
chunks-Tiles (suc fuel) target from s h = elim (Bool-cases (leb from target)) [
  | inl more ↦
      let le : from ≤ target = ground (arith, more) in
      let e = end_of_bounds target from s le in
      rw (more, e.3)
        (refl, e.0, e.1, e.2, chunks-Tiles fuel target (end_of target from + 1) s (omega arith))
  | inr stop ↦ rw stop (ground (arith, stop))
]

-- One past the last block, or up to `overlap` blocks before that.
pub start_of_bounds :
    (last : ℕ)
    → last + 1 < 2 ^ 64
    → (start_of last ≤ last + 1) × (last + 1 ≤ start_of last + overlap)
unfolding start_of add64
start_of_bounds last h = ground arith

module _ (scans : Scans) where
  -- The chunks one after the other, up to the first error.
  unfoldable pub scan_all : List (ℕ × ℕ) → Exec Indexer (Unit {0})
  scan_all [] = pure tt
  scan_all ((a, b) ∷ cs) = scan_chunk scans a b >> scan_all cs

  scan_chunks-scan_all :
      (fuel target from : ℕ)
      → IsSmall target
      → from ≤ target + 1
      → target + 1 < from + fuel
      → (st : Indexer)
      → scan_chunks scans fuel target from st ≡ scan_all (chunks fuel target from) st
  unfolding scan_chunks scan_all chunks scan_chunk
  scan_chunks-scan_all zero target from s low h st = absurd (omega arith)
  scan_chunks-scan_all (suc fuel) target from s low h st = elim (Bool-cases (leb from target)) [
    | inl more ↦
        let le : from ≤ target = ground (arith, more) in
        let e = end_of_bounds target from s le in
        let ih =
          scan_chunks-scan_all fuel target (end_of target from + 1) s (omega arith) (omega arith) in
        rw (more, e.3)
          (ap
            (λ k.
              continue (scan_chunk scans from (end_of target from) st).0
                (scan_chunk scans from (end_of target from) st).1 (λ _. k))
            (fun_ext ih))
    | inr stop ↦ rw stop
  ]

  -- The loop of a tick, from a last block below the target and far from the end of a uint64: it is
  -- the scan of a list of chunks, one after the other up to the first error. The chunks follow each
  -- other from the start of the tick to the target, none spans more than max_block_range + 1 blocks,
  -- and every block after the last one up to the target is in exactly one of them.
  pub tick_covers :
      (target last n : ℕ)
      → IsSmall target
      → last < n
      → n ≤ target
      → ((st : Indexer)
          → scan_chunks scans (target + 2) target (start_of last) st
            ≡ scan_all (chunks (target + 2) target (start_of last)) st)
        × Tiles (start_of last) target (chunks (target + 2) target (start_of last))
        × (hits n (chunks (target + 2) target (start_of last)) ≡ 1)
  tick_covers target last n s above below =
      let from = start_of last in
      let bounds = start_of_bounds last (omega arith) in
      let tiles = chunks-Tiles (target + 2) target from s (omega arith) in
      (
        scan_chunks-scan_all (target + 2) target from s (omega arith) (omega arith),
        tiles,
        hits_tiled n from target _ tiles (omega arith) below,
      )
