-- ===== src/Indexer/Challenges/Averts.antt =====
-- A run of handleAverted over the bids of one challenge.
use zchf_grenadier.Prelude.{
  ℕ, ◌%◌, ◌^◌, ◌≤◌, ◌≡◌, ◌∙◌, ◌≢◌, false, some, List, [], ◌∷◌, arith, length, All, ltb, ◌==◌,
  nat_eq, list_eq, ==_refl, eqb, ◌&&◌, map,
}
use zchf_grenadier.Prelude.Int.{ℤ, pos, ◌+ℤ◌, to_int64}
use zchf_grenadier.Text.{Text, lower}
use zchf_grenadier.Text.Hex.{hex_to_bytes, topic_to_address}
use zchf_grenadier.Exec.{ok}
use zchf_grenadier.Store.Rows.{Challenge, Bid}
use zchf_grenadier.Store.Handle.{Db, Store, quiet, query}
use zchf_grenadier.Store.Challenges.{fold_challenge, challenge_in, bid_in, bid_row, fold_bid}
use zchf_grenadier.Store.Challenges.Laws.{
  after_challenge, after_bid, get_challenge-quiet, upsert_challenge-quiet, upsert_bid-quiet,
  challenge_in-after_challenge, challenge_in-after_bid, bid_in-after_challenge,
  bid_in-after_bid_other, bid_exists-query,
}
use zchf_grenadier.Chain.Log.{Log, log_idx, block_num}
use zchf_grenadier.Chain.Log.{topic}
use zchf_grenadier.Indexer.Challenges.Event.{challenge_id, with_data, word, or_zero}
use zchf_grenadier.Indexer.Challenges.Bids.{
  averted_row, averted_bid, averted_on, averted, averted_event, write_bid, with_challenge, skip_if,
  unless_seen, handle_averted,
}
use zchf_grenadier.Indexer.Challenges.Filling.{
  fill, total, filled, filled-fill, status_at, status-fill,
}

-- A log that is a ChallengeAverted event of `size` on the challenge of `position` and `number`.
pub record IsAvert (position : Text) (number size : ℕ) (log : Log) : Type 0 where
  pub topics : 2 ≤ length log.topics
  pub about : topic_to_address (topic 1 log.topics) ≡ position
  pub bytes : List ℕ
  pub decoded : hex_to_bytes log.data_text ≡ some bytes
  pub long : 64 ≤ length bytes
  pub number_word : word 0 bytes % 2 ^ 64 ≡ number
  pub size_word : word 1 bytes ≡ size
  pub hashed : log.tx_hash ≢ []

pub record Event : Type 0 where
  pub log : Log
  pub bidder : Text
  pub size : ℕ

-- The row that the bid of `e` writes is not that of the log of `f`.
abbrev pub Differs : Event → Event → Type 0
Differs e f =
    (lower e.log.tx_hash == lower f.log.tx_hash && eqb (log_idx e.log) (log_idx f.log)) ≡ false

-- The rows of challenges are written by UpsertChallenge: under their own id, with lower-case
-- addresses.
pub record IsStored (id : Text) (db : Db) (cur : Challenge) : Type 0 where
  pub found : challenge_in id db ≡ some cur
  pub own_id : cur.id ≡ id
  pub challenger : lower cur.challenger ≡ cur.challenger
  pub position : lower cur.position ≡ cur.position

module _ (junk : Text → ℤ) (position : Text) (number : ℕ) where
  abbrev pub next_bid : Event → Challenge → Bid
  next_bid e cur = averted_bid e.log e.bidder position number e.size (averted_row junk e.size cur)

  abbrev pub after_avert : Event → Challenge → Db → Db
  after_avert e cur db =
      after_bid (next_bid e cur)
        (after_challenge (averted_row junk e.size cur) (to_int64 (block_num e.log)) db)

  averted_on-quiet :
      (e : Event) (cur : Challenge) (db : Db)
      → averted_on junk e.log e.bidder position number e.size cur (quiet db)
        ≡ (ok tt, quiet (after_avert e cur db))
  unfolding averted_on write_bid
  averted_on-quiet e cur db = rw (upsert_challenge-quiet _ _ db) (upsert_bid-quiet _ _)

  -- handleAverted on a log that it has not seen, on a challenge that is there.
  pub handle_averted-quiet :
      (e : Event) (cur : Challenge) (db : Db)
      → IsAvert position number e.size e.log
      → bid_in (lower e.log.tx_hash) (log_idx e.log) db ≡ false
      → challenge_in (challenge_id position number) db ≡ some cur
      → handle_averted junk e.log e.bidder (quiet db) ≡ (ok tt, quiet (after_avert e cur db))
  unfolding handle_averted unless_seen averted_event averted with_data
  handle_averted-quiet e cur db h unseen found =
      let topics : ltb (length e.log.topics) 2 ≡ false = ground (arith, h.topics) in
      let long : ltb (length h.bytes) 64 ≡ false = ground (arith, h.long) in
      rw (topics, bid_exists-query e.log.tx_hash (log_idx e.log) h.hashed)
        (unfold query or_zero skip_if in
          rw (unseen, skip_if, h.decoded, with_data, long, averted_event, averted)
            (rw (h.about, h.number_word, h.size_word, get_challenge-quiet, found)
              (unfold with_challenge in averted_on-quiet e cur db)))

  -- Averting bids on the challenge, none of them in the bids table and no two from one log.
  abbrev pub IsRun : List Event → Db → Type 0
  IsRun [] db = Unit
  IsRun (e ∷ es) db =
      IsAvert position number e.size e.log
      × (bid_in (lower e.log.tx_hash) (log_idx e.log) db ≡ false)
      × All (Differs e) es
      × IsRun es db

  -- The scan's loop over such logs: an error is printed, and the next log is handled.
  unfoldable pub run_averts : List Event → Store → Store
  run_averts [] s = s
  run_averts (e ∷ es) s = run_averts es (handle_averted junk e.log e.bidder s).1

  bid_in-after_avert :
      (e f : Event) (cur : Challenge) (db : Db)
      → Differs e f
      → bid_in (lower f.log.tx_hash) (log_idx f.log) db ≡ false
      → bid_in (lower f.log.tx_hash) (log_idx f.log) (after_avert e cur db) ≡ false
  bid_in-after_avert e f cur db d unseen =
      bid_in-after_bid_other (next_bid e cur) (after_challenge _ _ db) _ _
        (unfold bid_row fold_bid averted_bid in d) (bid_in-after_challenge _ _ db _ _ ∙ unseen)

  IsRun-after_avert :
      (e : Event) (es : List Event) (cur : Challenge) (db : Db)
      → All (Differs e) es
      → IsRun es db
      → IsRun es (after_avert e cur db)
  IsRun-after_avert e [] cur db d h = tt
  IsRun-after_avert e (f ∷ es) cur db d h =
      (h.0, bid_in-after_avert e f cur db d.0 h.1, h.2, IsRun-after_avert e es cur db d.1 h.3)

  fold_challenge-averted_row :
      (n : ℕ) (cur : Challenge)
      → lower cur.challenger ≡ cur.challenger
      → lower cur.position ≡ cur.position
      → fold_challenge (averted_row junk n cur) ≡ averted_row junk n cur
  unfolding fold_challenge averted_row
  fold_challenge-averted_row n cur p q =
      λ i. record (averted_row junk n cur) { challenger = p i; position = q i }

  -- The challenge is stored again by the first of the two writes.
  pub IsStored-challenge :
      (e : Event) (id : Text) (cur : Challenge) (db : Db)
      → IsStored id db cur
      → IsStored id
          (after_challenge (averted_row junk e.size cur) (to_int64 (block_num e.log)) db)
          (averted_row junk e.size cur)
  IsStored-challenge e id cur db h = record {
    found =
        challenge_in-after_challenge (averted_row junk e.size cur) _ db id
        ∙ rw (fold_challenge-averted_row e.size cur h.challenger h.position) (
            let same : (averted_row junk e.size cur).id ≡ id = unfold averted_row in h.own_id in
            rw (same, ==_refl id));
    own_id = unfold averted_row in h.own_id;
    challenger = unfold averted_row in h.challenger;
    position = unfold averted_row in h.position;
  }

  pub IsStored-after_avert :
      (e : Event) (id : Text) (cur : Challenge) (db : Db)
      → IsStored id db cur
      → IsStored id (after_avert e cur db) (averted_row junk e.size cur)
  IsStored-after_avert e id cur db h =
      let first = IsStored-challenge e id cur db h in
      record {
        found = challenge_in-after_bid _ _ id ∙ first.found;
        own_id = first.own_id;
        challenger = first.challenger;
        position = first.position;
      }

  abbrev pub sizes : List Event → List ℕ
  sizes = map (λ e. e.size)

  IsStored-run_averts :
      (es : List Event) (cur : Challenge) (db : Db)
      → IsRun es db
      → IsStored (challenge_id position number) db cur
      → IsStored
          (challenge_id position number)
          (run_averts es (quiet db)).db
          (fill junk (sizes es) cur)
  unfolding run_averts
  IsStored-run_averts [] cur db r h = h
  IsStored-run_averts (e ∷ es) cur db r h =
      rw (handle_averted-quiet e cur db r.0 r.1 h.found, run_averts)
        (IsStored-run_averts es (averted_row junk e.size cur) (after_avert e cur db)
          (IsRun-after_avert e es cur db r.2 r.3) (IsStored-after_avert e _ cur db h))

  -- Averting bids on a stored challenge, of logs that differ and are not in the bids table, add up:
  -- once the handler has run over them with no failing statement, the stored challenge is filled by
  -- what it was plus the sum of their sizes, and after one bid at least its status is Averted
  -- exactly where that reaches the size of the challenge, and else what it was.
  pub run_averts-filled :
      (e : Event) (es : List Event) (cur : Challenge) (db : Db)
      → IsRun (e ∷ es) db
      → IsStored (challenge_id position number) db cur
      → (c : Challenge) × (challenge_in
            (challenge_id position number)
            (run_averts (e ∷ es) (quiet db)).db
          ≡ some c)
        × (filled junk c ≡ filled junk cur +ℤ pos (total junk (sizes (e ∷ es))))
        × (c.status ≡ status_at junk (filled junk cur +ℤ pos (total junk (sizes (e ∷ es)))) cur)
  run_averts-filled e es cur db r h = (
    fill junk (sizes (e ∷ es)) cur,
    (IsStored-run_averts (e ∷ es) cur db r h).found,
    filled-fill junk (sizes (e ∷ es)) cur,
    status-fill junk e.size (sizes es) cur,
  )
