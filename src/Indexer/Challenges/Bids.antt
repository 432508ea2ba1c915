-- ===== src/Indexer/Challenges/Bids.antt =====
-- handleAverted and handleSucceeded of indexer/challenges.go.
use zchf_grenadier.Prelude.{
  ℕ, zero, suc, ◌+◌, ◌-◌, ◌*◌, ◌/◌, ◌%◌, ◌^◌, Bool, true, false, Option, none, some, List, nat_eq,
  list_eq, if◌then◌else◌, length, eqb, ltb,
}
use zchf_grenadier.Prelude.Int.{ℤ, pos, negsuc, ◌+ℤ◌, ◌*ℤ◌, ltb_ℤ, to_int64, to_uint64}
use zchf_grenadier.Text.{Text, codes}
use zchf_grenadier.Text.Decimal.{print, print_int, parse_int}
use zchf_grenadier.Text.Hex.{hex_to_bytes, topic_to_address}
use zchf_grenadier.Exec.{Result, ok, missing_topics, unknown_challenge, Exec, fail, ◌>>=◌, ◌>>◌}
use zchf_grenadier.Store.Rows.{Challenge, Bid}
use zchf_grenadier.Store.Handle.{Store}
use zchf_grenadier.Store.Challenges.{upsert_challenge, get_challenge, bid_exists_by_log, upsert_bid}
use zchf_grenadier.Chain.Log.{Log, block_num, log_idx}
use zchf_grenadier.Chain.Log.{topic}
use zchf_grenadier.Indexer.Challenges.Event.{
  challenge_id, bid_id, or_zero, word, with_data, is_priced,
}

abbrev pub e18 : ℕ
e18 = 10 ^ 18

-- x++ and x - 1 on an int
unfoldable pub inc_int : ℤ → ℤ
inc_int n = to_int64 ((to_uint64 n + 1) % 2 ^ 64)

unfoldable pub bid_index : ℤ → ℕ
bid_index bids = (to_uint64 bids + 2 ^ 64 - 1) % 2 ^ 64

-- big.Int Quo by a positive number rounds towards zero.
unfoldable pub quo : ℤ → ℕ → ℤ
quo (pos n) d = pos (n / d)
quo (negsuc n) d = elim (suc n / d) [ zero ↦ pos 0 | suc m ↦ negsuc m ]

-- size * liqPrice / 10^18, or "0" where no price is known
unfoldable pub averted_amount : ℕ → Text → Text
averted_amount size price =
    let amount : Text = elim (parse_int price) [
      | none ↦ codes "0"
      | some lp ↦ print_int (quo (pos size *ℤ lp) e18)
    ] in
    if is_priced price then amount else codes "0"

-- bid * 10^18 / acquired
unfoldable pub succeeded_price : ℕ → ℕ → Text
succeeded_price bid acquired = if eqb acquired 0 then codes "0" else print (bid * e18 / acquired)

unfoldable pub averted_bid : Log → Text → Text → ℕ → ℕ → Challenge → Bid
averted_bid log bidder position number size cur = record {
  id = bid_id position number (bid_index cur.bids);
  position = position;
  number = number;
  number_bid = bid_index cur.bids;
  tx_hash = log.tx_hash;
  log_index = log_idx log;
  bidder = bidder;
  created = pos 0;
  bid_type = codes "Averted";
  bid = averted_amount size cur.liq_price;
  price = cur.liq_price;
  filled_size = print size;
  acquired_collateral = codes "0";
  challenge_size = cur.size;
  version = pos 2;
  block = to_int64 (block_num log);
}

unfoldable pub succeeded_bid : Log → Text → Text → ℕ → ℕ → ℕ → ℕ → Challenge → Bid
succeeded_bid log bidder position number bid acquired size cur = record {
  id = bid_id position number (bid_index cur.bids);
  position = position;
  number = number;
  number_bid = bid_index cur.bids;
  tx_hash = log.tx_hash;
  log_index = log_idx log;
  bidder = bidder;
  created = pos 0;
  bid_type = codes "Succeeded";
  bid = print bid;
  price = succeeded_price bid acquired;
  filled_size = print acquired;
  acquired_collateral = print acquired;
  challenge_size = print size;
  version = pos 2;
  block = to_int64 (block_num log);
}

-- The two writes of a bid: the challenge, then the bid row.
unfoldable pub write_bid : ℤ → Challenge → Bid → Exec Store (Unit {0})
write_bid block cur b = do upsert_challenge cur block; upsert_bid b

-- The challenge that a bid is on, which has to be there.
unfoldable pub with_challenge :
    Option Challenge → (Challenge → Exec Store (Unit {0})) → Exec Store (Unit {0})
with_challenge none k = fail unknown_challenge
with_challenge (some cur) k = k cur

-- `if seen, _ := st.BidExistsByLog(…); seen { return nil }`
unfoldable pub skip_if : Exec Store (Unit {0}) → Bool × Store → Result (Unit {0}) × Store
skip_if k (true, s) = (ok tt, s)
skip_if k (false, s) = k s

unfoldable pub unless_seen : Log → Exec Store (Unit {0}) → Exec Store (Unit {0})
unless_seen log k s = skip_if k (or_zero false (bid_exists_by_log log.tx_hash (log_idx log) s))

-- The number of a decimal text, where `junk` is what big.Int holds after SetString failed.
module _ (junk : Text → ℤ) where
  unfoldable pub set_string : Text → ℤ
  set_string t = elim (parse_int t) [ none ↦ junk t | some z ↦ z ]

  -- The challenge after an averting bid of `size`.
  unfoldable pub averted_row : ℕ → Challenge → Challenge
  averted_row size cur =
      let filled = set_string cur.filled_size +ℤ pos size in
      record cur {
        filled_size = print_int filled;
        bids = inc_int cur.bids;
        status = if ltb_ℤ filled (set_string cur.size) then cur.status else codes "Averted";
      }

  -- The challenge after a succeeding bid that consumed `size` of it and bought `acquired`.
  unfoldable pub succeeded_row : ℕ → ℕ → Challenge → Challenge
  succeeded_row acquired size cur =
      let filled = set_string cur.filled_size +ℤ pos size in
      record cur {
        acquired_collateral = print_int (set_string cur.acquired_collateral +ℤ pos acquired);
        filled_size = print_int filled;
        bids = inc_int cur.bids;
        status = if ltb_ℤ filled (set_string cur.size) then cur.status else codes "Success";
      }

  -- The writes of an averting bid on the challenge `cur`.
  unfoldable pub averted_on : Log → Text → Text → ℕ → ℕ → Challenge → Exec Store (Unit {0})
  averted_on log bidder position number size cur =
      write_bid (to_int64 (block_num log)) (averted_row size cur)
        (averted_bid log bidder position number size (averted_row size cur))

  unfoldable pub averted : Log → Text → Text → ℕ → ℕ → Exec Store (Unit {0})
  averted log bidder position number size = do
    found ← get_challenge (challenge_id position number)
    with_challenge found (averted_on log bidder position number size)

  -- The writes of a succeeding bid on the challenge `cur`.
  unfoldable pub succeeded_on :
      Log → Text → Text → ℕ → ℕ → ℕ → ℕ → Challenge → Exec Store (Unit {0})
  succeeded_on log bidder position number bid acquired size cur =
      write_bid (to_int64 (block_num log)) (succeeded_row acquired size cur) (
        succeeded_bid log bidder position number bid acquired size
          (succeeded_row acquired size cur))

  unfoldable pub succeeded : Log → Text → Text → ℕ → ℕ → ℕ → ℕ → Exec Store (Unit {0})
  succeeded log bidder position number bid acquired size = do
    found ← get_challenge (challenge_id position number)
    with_challenge found (succeeded_on log bidder position number bid acquired size)

  -- The event's words: number, size.
  unfoldable pub averted_event : Log → Text → List ℕ → Exec Store (Unit {0})
  averted_event log bidder bytes =
      averted log bidder (topic_to_address (topic 1 log.topics)) (word 0 bytes % 2 ^ 64)
        (word 1 bytes)

  -- handleAverted
  unfoldable pub handle_averted : Log → Text → Exec Store (Unit {0})
  handle_averted log bidder =
      if ltb (length log.topics) 2
      then fail missing_topics
      else unless_seen log (with_data (hex_to_bytes log.data_text) 64 (averted_event log bidder))

  -- The event's words: number, bid, acquired collateral, challenge size.
  unfoldable pub succeeded_event : Log → Text → List ℕ → Exec Store (Unit {0})
  succeeded_event log bidder bytes =
      succeeded log bidder (topic_to_address (topic 1 log.topics)) (word 0 bytes % 2 ^ 64)
        (word 1 bytes) (word 2 bytes) (word 3 bytes)

  -- handleSucceeded
  unfoldable pub handle_succeeded : Log → Text → Exec Store (Unit {0})
  handle_succeeded log bidder =
      if ltb (length log.topics) 2
      then fail missing_topics
      else unless_seen log (with_data (hex_to_bytes log.data_text) 128 (succeeded_event log bidder))
