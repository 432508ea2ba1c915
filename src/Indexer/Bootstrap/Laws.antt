-- ===== src/Indexer/Bootstrap/Laws.antt =====
-- What Bootstrap leaves behind, whatever the peers and the database answer.
use zchf_grenadier.Prelude.{
  ℕ, ◌<◌, ◌≡◌, refl, ap, sym, ◌∙◌, ◌⊎◌, Option, none, some, List, nat_eq, list_eq, length, ltb,
  ltb→lt, arith, inl, inr, Bool-cases,
}
use mathlib.Core.Option.{some-injective}
use zchf_grenadier.Prelude.Int.{ℤ, to_int64}
use zchf_grenadier.Text.{Text}
use zchf_grenadier.Exec.{Result, ok, err, continue}
use zchf_grenadier.Store.Rows.{Position}
use zchf_grenadier.Store.Handle.{Db, Store, bulk}
use zchf_grenadier.Store.Handle.Laws.{
  Wrote, execute-Wrote, bulk-Wrote, steps, steps-view, query_cases,
}
use zchf_grenadier.Store.Positions.{
  put_position, fold_case, bulk_upsert, count_positions, set_last_block, set_meta,
}
use zchf_grenadier.Store.Positions.LastBlock.{with_last_block}
use zchf_grenadier.Indexer.Sources.{fetch_and_decode, endpoint_positions}
use zchf_grenadier.Indexer.Bootstrap.{
  ApiPosition, converted, write_seed, seed_at, seed_with, bootstrap_after, bootstrap,
}

pub set_last_block-Wrote :
    (n : ℕ) (s : Store) → Wrote (some (with_last_block n s.db)) s.db (set_last_block n s)
unfolding set_last_block set_meta
set_last_block-Wrote n s = execute-Wrote (λ db. some (with_last_block n db)) s

-- A row writer that leaves the meta table.
pub steps-meta :
    {R : Type 0} (step : R → Db → Option Db)
    → ((r : R) (db db' : Db) → step r db ≡ some db' → db'.meta ≡ db.meta)
    → (rs : List R) (db db' : Db) → steps step rs db ≡ some db'
    → db'.meta ≡ db.meta
steps-meta = steps-view (λ (d : Db). d.meta)

put_position-meta :
    (block : ℤ) (p : Position) (old new : Db)
    → put_position block p old ≡ some new
    → new.meta ≡ old.meta
unfolding put_position
put_position-meta block p old new e = ap (λ (d : Db). d.meta) (sym (some-injective _ _ e))

-- The rows of the positions that are seeded.
abbrev pub seeded : (Text → Option ℤ) → List ApiPosition → ℕ → Db → Option Db
seeded scan_int list block =
    steps (λ p. put_position (to_int64 block) (fold_case p)) (converted scan_int list)

seeded-meta :
    (scan_int : Text → Option ℤ) (list : List ApiPosition) (block : ℕ) (db db' : Db)
    → seeded scan_int list block db ≡ some db'
    → db'.meta ≡ db.meta
seeded-meta scan_int list block db db' =
    steps-meta (λ p. put_position (to_int64 block) (fold_case p))
      (λ p old new e. put_position-meta (to_int64 block) (fold_case p) old new e)
      (converted scan_int list) db db'

-- The start of a bootstrap and where it ends. Without an error: the table had rows and nothing was
-- written, or it had none and the decoded positions were written and the last block is the head.
-- With an error: the meta table is as it was.
abbrev pub Booted :
    (Text → Option Text)
    → (Text → Option (List ApiPosition))
    → (Text → Option ℤ)
    → Option ℕ
    → Db
    → Result (Unit {0}) × Store
    → Type 0
Booted http_get decode scan_int head db (ok u, s) =
    ((0 < length db.positions) × (s.db ≡ db))
    ⊎ ((length db.positions ≡ 0)
        × (list : List ApiPosition) × (block : ℕ) × (new : Db) × (fetch_and_decode http_get decode
              endpoint_positions
            ≡ ok list)
        × (head ≡ some block)
        × (seeded scan_int list block db ≡ some new)
        × (s.db ≡ with_last_block block new))
Booted http_get decode scan_int head db (err e, s) = s.db.meta ≡ db.meta

module _ (http_get : Text → Option Text) (decode : Text → Option (List ApiPosition))
    (scan_int : Text → Option ℤ) (head : Option ℕ) where
  last_written :
      (db new : Db) (list : List ApiPosition) (block : ℕ) (p : Result (Unit {0}) × Store)
      → length db.positions ≡ 0
      → fetch_and_decode http_get decode endpoint_positions ≡ ok list
      → head ≡ some block
      → seeded scan_int list block db ≡ some new
      → Wrote (some (with_last_block block new)) new p
      → Booted http_get decode scan_int head db p
  last_written db new list block (ok u, s) z f h w l =
      inr (z, list, block, new, f, h, w, sym (some-injective _ _ l))
  last_written db new list block (err e, s) z f h w l =
      ap (λ (d : Db). d.meta) l ∙ seeded-meta scan_int list block db new w

  rows_written :
      (db : Db) (list : List ApiPosition) (block : ℕ) (p : Result (Unit {0}) × Store)
      → length db.positions ≡ 0
      → fetch_and_decode http_get decode endpoint_positions ≡ ok list
      → head ≡ some block
      → Wrote (seeded scan_int list block db) db p
      → Booted http_get decode scan_int head db (continue p.0 p.1 (λ _. set_last_block block))
  rows_written db list block (ok u, s) z f h w =
      last_written db s.db list block (set_last_block block s) z f h w
        (set_last_block-Wrote block s)
  rows_written db list block (err e, s) z f h w = ap (λ (d : Db). d.meta) w

  seed_at-Booted :
      (db : Db) (list : List ApiPosition) (o : Option ℕ) (s : Store)
      → length db.positions ≡ 0
      → fetch_and_decode http_get decode endpoint_positions ≡ ok list
      → head ≡ o
      → s.db ≡ db
      → Booted http_get decode scan_int head db (seed_at scan_int list o s)
  unfolding seed_at write_seed bulk_upsert
  seed_at-Booted db list none s z f h d = ap (λ (x : Db). x.meta) d
  seed_at-Booted db list (some block) s z f h d =
      let step = λ (p : Position). put_position (to_int64 block) (fold_case p) in
      let wrote : Wrote (seeded scan_int list block db) db (bulk step (converted scan_int list) s) =
        rw (← d) (bulk-Wrote step (converted scan_int list) s) in
      rows_written db list block (bulk step (converted scan_int list) s) z f h wrote

  seed_with-Booted :
      (db : Db) (r : Result (List ApiPosition)) (s : Store)
      → length db.positions ≡ 0
      → fetch_and_decode http_get decode endpoint_positions ≡ r
      → s.db ≡ db
      → Booted http_get decode scan_int head db (seed_with http_get decode scan_int head r s)
  unfolding seed_with
  seed_with-Booted db (err e) s z f d = ap (λ (x : Db). x.meta) d
  seed_with-Booted db (ok list) s z f d = seed_at-Booted db list head s z f refl d

  after_count :
      (s : Store)
      → Booted http_get decode scan_int head s.db
          (bootstrap_after http_get decode scan_int head (length s.db.positions) s)
  unfolding bootstrap_after
  after_count s = elim (Bool-cases (ltb 0 (length s.db.positions))) [
    | inl has ↦ rw has (inl (ltb→lt 0 (length s.db.positions) has, refl))
    | inr hasnt ↦ rw hasnt (
        seed_with-Booted s.db (fetch_and_decode http_get decode endpoint_positions) s
          (ground (arith, hasnt)) refl refl)
  ]

  -- Bootstrap, whatever the peers answer and whichever statements fail: where it ends without an
  -- error, the positions table had rows and nothing was written, or it was empty, the positions of
  -- version 2 in the decoded answer of the peers were written at the block of the head, and the
  -- last block is the head; where it ends in an error the last block is as it was.
  pub bootstrap-Booted :
      (s : Store)
      → Booted http_get decode scan_int head s.db (bootstrap http_get decode scan_int head s)
  unfolding bootstrap count_positions
  bootstrap-Booted s =
      query_cases (λ db. length db.positions) s
        (λ p.
          Booted http_get decode scan_int head s.db
            (continue p.0 p.1 (bootstrap_after http_get decode scan_int head)))
        (λ os. after_count (record s { outcomes = os })) (λ os. refl)
