-- ===== src/Indexer/Challenges/Backfill.antt =====
-- What handleStarted does to a challenge that is there.
use zchf_grenadier.Prelude.{
  ℕ, ◌≡◌, refl, ◌∙◌, Option, none, some, List, if◌then◌else◌, Bool-cases, inl, inr, length, ltb,
  ◌==◌, ==_iff, nat_eq, list_eq,
}
use zchf_grenadier.Prelude.Int.{ℤ, to_int64}
use zchf_grenadier.Text.{Text, lower}
use zchf_grenadier.Text.Hex.{hex_to_bytes}
use zchf_grenadier.Exec.{ok, err, crashed}
use zchf_grenadier.Store.Rows.{Position, Challenge}
use zchf_grenadier.Store.Handle.{Db, quiet}
use zchf_grenadier.Store.Positions.{get_position, position_in}
use zchf_grenadier.Store.Challenges.{fold_challenge, challenge_in, get_challenge, upsert_challenge}
use zchf_grenadier.Store.Challenges.Laws.{after_challenge, challenge_in-after_challenge}
use zchf_grenadier.Chain.Log.{Log, block_num}
use zchf_grenadier.Indexer.Challenges.Event.{challenge_id, with_data, or_zero}
use zchf_grenadier.Chain.Abi.{Decoded}
use zchf_grenadier.Indexer.Challenges.Started.{
  crashes, is_complete, terms, gives_up, keep_bids, started_row, started, started_event,
  handle_started,
}

-- The fields that the bids advance.
pub record SameBids (old c : Challenge) : Type 0 where
  pub bids : c.bids ≡ old.bids
  pub filled_size : c.filled_size ≡ old.filled_size
  pub acquired_collateral : c.acquired_collateral ≡ old.acquired_collateral
  pub status : c.status ≡ old.status

abbrev Keeps : Text → Challenge → Db → Type 0
Keeps id old db = (c : Challenge) × (challenge_in id db ≡ some c) × SameBids old c

Keeps-unchanged :
    (id : Text) (old : Challenge) (db : Db) → challenge_in id db ≡ some old → Keeps id old db
Keeps-unchanged id old db found = (
  old,
  found,
  record { bids = refl; filled_size = refl; acquired_collateral = refl; status = refl },
)

keep_bids-SameBids : (old c : Challenge) → SameBids old (fold_challenge (keep_bids (some old) c))
unfolding keep_bids fold_challenge
keep_bids-SameBids old c = record {
  bids = refl;
  filled_size = refl;
  acquired_collateral = refl;
  status = refl;
}

module _ (hydrate : Text → Decoded Position) (log : Log) (block_ts : ℤ) where
  id-keep_bids :
      (o : Option Challenge) (position : Text) (size number : ℕ) (t : Text × ℤ)
      → (keep_bids o (started_row log block_ts position size number t)).id
        ≡ challenge_id position number
  unfolding keep_bids started_row
  id-keep_bids none position size number t = refl
  id-keep_bids (some c) position size number t = refl

  -- The row that the event writes, if it writes one.
  Keeps-written :
      (position : Text) (size number : ℕ) (t : Text × ℤ) (id : Text) (old : Challenge) (db : Db)
      → challenge_in id db ≡ some old
      → Keeps id old (
          after_challenge
            (keep_bids
              (challenge_in (challenge_id position number) db)
              (started_row log block_ts position size number t))
            (to_int64 (block_num log))
            db)
  unfolding fold_challenge keep_bids started_row Keeps-unchanged
  Keeps-written position size number t id old db found =
      let row = started_row log block_ts position size number t in
      let here = challenge_id position number in
      let reads =
        challenge_in-after_challenge (keep_bids (challenge_in here db) row)
          (to_int64 (block_num log)) db id in
      elim (Bool-cases (here == id)) [
        | inl same ↦
            let e : here ≡ id = (==_iff here id).0 same in
            (
              fold_challenge (keep_bids (some old) row),
              reads
                  ∙ rw (id-keep_bids (challenge_in here db) position size number t, same)
                      (rw (e, found)),
              keep_bids-SameBids old row,
            )
        | inr other ↦ (
          old,
          reads ∙ rw (id-keep_bids (challenge_in here db) position size number t, other) found,
          (Keeps-unchanged id old db found).2,
        )
      ]

  -- The prices and periods that the event finds.
  abbrev terms_of : Text → Db → Text × ℤ
  terms_of position db = terms (position_in (lower position) db) (hydrate position)

  -- What the event writes.
  abbrev after_started : Text → ℕ → ℕ → Db → Db
  after_started position size number db =
      after_challenge
        (keep_bids (challenge_in (challenge_id position number) db)
          (started_row log block_ts position size number (terms_of position db)))
        (to_int64 (block_num log)) db

  started-quiet :
      (position : Text) (size number : ℕ) (db : Db)
      → started hydrate log block_ts position size number (quiet db) ≡ (
          if is_complete (challenge_in (challenge_id position number) db)
          then (ok tt, quiet db)
          else if crashes (position_in (lower position) db) (hydrate position)
          then (err crashed, quiet db)
          else if gives_up (challenge_in (challenge_id position number) db) (terms_of position db)
          then (ok tt, quiet db)
          else (ok tt, quiet (after_started position size number db)))
  unfolding started get_challenge get_position or_zero upsert_challenge
  started-quiet position size number db = refl

  Keeps-started :
      (position : Text) (size number : ℕ) (id : Text) (old : Challenge) (db : Db)
      → challenge_in id db ≡ some old
      → Keeps id old (started hydrate log block_ts position size number (quiet db)).1.db
  Keeps-started position size number id old db found =
      let existing = challenge_in (challenge_id position number) db in
      rw (started-quiet position size number db) (elim (Bool-cases (is_complete existing)) [
        | inl complete ↦ rw complete (Keeps-unchanged id old db found)
        | inr partial ↦
            elim (Bool-cases (crashes (position_in (lower position) db) (hydrate position))) [
              | inl crash ↦ rw (partial, crash) (Keeps-unchanged id old db found)
              | inr alive ↦ elim (Bool-cases (gives_up existing (terms_of position db))) [
                | inl up ↦ rw (partial, alive, up) (Keeps-unchanged id old db found)
                | inr on ↦
                    rw (partial, alive, on)
                      (Keeps-written position size number (terms_of position db) id old db found)
              ]
            ]
      ])

  Keeps-with_data :
      (o : Option (List ℕ)) (id : Text) (old : Challenge) (db : Db)
      → challenge_in id db ≡ some old
      → Keeps id old (with_data o 64 (started_event hydrate log block_ts) (quiet db)).1.db
  unfolding with_data started_event
  Keeps-with_data none id old db found = Keeps-unchanged id old db found
  Keeps-with_data (some bytes) id old db found = elim (Bool-cases (ltb (length bytes) 64)) [
    | inl short ↦ rw short (Keeps-unchanged id old db found)
    | inr long ↦ rw long (Keeps-started _ _ _ id old db found)
  ]

  -- handleStarted never undoes what bids wrote: whatever the event, a challenge in the store is
  -- still there with the same bid count, filled size, acquired collateral and status, where no
  -- statement fails.
  pub handle_started-SameBids :
      (id : Text) (old : Challenge) (db : Db)
      → challenge_in id db ≡ some old
      → (c : Challenge) × (challenge_in id (handle_started hydrate log block_ts (quiet db)).1.db
          ≡ some c)
        × SameBids old c
  unfolding handle_started
  handle_started-SameBids id old db found = elim (Bool-cases (ltb (length log.topics) 3)) [
    | inl few ↦ rw few (Keeps-unchanged id old db found)
    | inr enough ↦ rw enough (Keeps-with_data (hex_to_bytes log.data_text) id old db found)
  ]
