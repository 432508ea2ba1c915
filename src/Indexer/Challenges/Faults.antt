-- ===== src/Indexer/Challenges/Faults.antt =====
-- What the handlers do where a statement of the database fails.
use zchf_grenadier.Prelude.{
  ℕ, ◌+◌, ◌≡◌, refl, ◌∙◌, Bool, true, false, some, List, [], ◌∷◌, arith, length, ltb, ==_refl,
  nat_eq, list_eq,
}
use zchf_grenadier.Prelude.Int.{ℤ, pos, ◌+ℤ◌, to_int64, +ℤ_parts, eq_of_parts}
use zchf_grenadier.Text.{Text, codes, lower}
use zchf_grenadier.Exec.{err, db_failed}
use zchf_grenadier.Store.Rows.{Position, Challenge}
use zchf_grenadier.Store.Handle.{Db, quiet, query}
use zchf_grenadier.Store.Positions.{get_position, position_in}
use zchf_grenadier.Store.Challenges.{
  fold_challenge, challenge_in, bid_in, get_challenge, upsert_challenge, upsert_bid,
}
use zchf_grenadier.Store.Challenges.Laws.{
  after_challenge, challenge_in-after_challenge, bid_exists-query, bid_in-after_challenge,
}
use zchf_grenadier.Chain.Log.{Log, block_num, log_idx}
use zchf_grenadier.Indexer.Challenges.Event.{challenge_id, with_data, or_zero}
use zchf_grenadier.Chain.Abi.{Decoded}
use zchf_grenadier.Indexer.Challenges.Started.{
  crashes, is_complete, terms, gives_up, keep_bids, started_row, started,
}
use zchf_grenadier.Indexer.Challenges.Bids.{
  averted_row, averted_on, averted, averted_event, write_bid, with_challenge, skip_if, unless_seen,
  handle_averted,
}
use zchf_grenadier.Indexer.Challenges.Filling.{filled, filled-averted_row}
use zchf_grenadier.Indexer.Challenges.Averts.{
  IsAvert, Event, IsStored, handle_averted-quiet, IsStored-after_avert, IsStored-challenge,
}

-- A handleStarted whose first statement, the read of the challenge, fails, whose others succeed and
-- which no panic of HydratePosition ends (it is asked only where no position is stored) writes the challenge anew: no bids, filled size "0", status Active, whatever was stored.
pub started_lost_read :
    (hydrate : Text → Decoded Position) (log : Log) (block_ts : ℤ) (position : Text)
    (size number : ℕ) (db : Db)
    → crashes (position_in (lower position) db) (hydrate position) ≡ false
    → (c : Challenge) × (challenge_in
          (challenge_id position number)
          (started hydrate log block_ts position size number
            (record { db = db; outcomes = false ∷ [] })).1.db
        ≡ some c)
      × (c.bids ≡ pos 0)
      × (c.filled_size ≡ codes "0")
      × (c.status ≡ codes "Active")
unfolding started get_challenge get_position or_zero upsert_challenge gives_up is_complete keep_bids
started_lost_read hydrate log block_ts position size number db alive =
    let row =
      started_row log block_ts position size number
        (terms (position_in (lower position) db) (hydrate position)) in
    (
      fold_challenge row,
      rw alive (
          challenge_in-after_challenge row (to_int64 (block_num log)) db
            (challenge_id position number)
          ∙ (unfold started_row in rw (==_refl (challenge_id position number)))),
      (unfold fold_challenge started_row in refl),
      (unfold fold_challenge started_row in refl),
      (unfold fold_challenge started_row in refl),
    )

-- The four statements of a first handleAverted: two reads, the challenge, the bid.
abbrev pub bid_write_fails : List Bool
bid_write_fails = true ∷ true ∷ true ∷ false ∷ []

module _ (junk : Text → ℤ) (position : Text) (number : ℕ) where
  abbrev half_done : Event → Challenge → Db → Db
  half_done e cur db = after_challenge (averted_row junk e.size cur) (to_int64 (block_num e.log)) db

  handle_averted_half :
      (e : Event) (cur : Challenge) (db : Db)
      → IsAvert position number e.size e.log
      → bid_in (lower e.log.tx_hash) (log_idx e.log) db ≡ false
      → challenge_in (challenge_id position number) db ≡ some cur
      → handle_averted junk e.log e.bidder (record { db = db; outcomes = bid_write_fails })
        ≡ (err db_failed, quiet (half_done e cur db))
  unfolding handle_averted unless_seen averted_event averted with_data
  handle_averted_half e cur db h unseen found =
      let topics : ltb (length e.log.topics) 2 ≡ false = ground (arith, h.topics) in
      let long : ltb (length h.bytes) 64 ≡ false = ground (arith, h.long) in
      rw (topics, bid_exists-query e.log.tx_hash (log_idx e.log) h.hashed)
        (unfold query or_zero skip_if get_challenge in
          rw (unseen, skip_if, h.decoded, with_data, long, averted_event, averted)
            (rw (h.about, h.number_word, h.size_word, found)
              (unfold with_challenge averted_on write_bid upsert_challenge upsert_bid in refl)))

  -- A handleAverted on a new log of a stored challenge whose last statement, the write of the bid,
  -- fails returns the error with the challenge already advanced; the rescan of the same log, where
  -- no statement fails, advances it by the size of the bid once more.
  pub averted_counted_twice :
      (e : Event) (cur : Challenge) (db : Db)
      → IsAvert position number e.size e.log
      → bid_in (lower e.log.tx_hash) (log_idx e.log) db ≡ false
      → IsStored (challenge_id position number) db cur
      → (half : Db) × (handle_averted junk e.log e.bidder
            (record { db = db; outcomes = bid_write_fails })
          ≡ (err db_failed, quiet half))
        × (c : Challenge) × (challenge_in
              (challenge_id position number)
              (handle_averted junk e.log e.bidder (quiet half)).1.db
            ≡ some c)
        × (filled junk c ≡ filled junk cur +ℤ pos (e.size + e.size))
  averted_counted_twice e cur db h unseen stored =
      let once = averted_row junk e.size cur in
      let half = half_done e cur db in
      let stored' =
        IsStored-challenge junk position number e (challenge_id position number) cur db stored in
      let again =
        handle_averted-quiet junk position number e once half h
          (bid_in-after_challenge once _ db _ _ ∙ unseen) stored'.found in
      (
        half,
        handle_averted_half e cur db h unseen stored.found,
        averted_row junk e.size once,
        rw again (IsStored-after_avert junk position number e _ once half stored').found,
        filled-averted_row junk e.size once
            ∙ rw (filled-averted_row junk e.size cur) (omega (arith, +ℤ_parts, eq_of_parts)),
      )
