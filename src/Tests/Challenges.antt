-- ===== src/Tests/Challenges.antt =====
-- The theorems on the challenge handlers, at a challenge of size 12 and bids of 8 and 4.
use zchf_grenadier.Prelude.{
  ℕ, ◌+◌, ◌≡◌, refl, false, some, List, [], ◌∷◌, ◌++◌, nat_eq, list_eq, arith, replicate,
}
use zchf_grenadier.Prelude.Int.{pos, ◌+ℤ◌}
use zchf_grenadier.Text.{codes, lower, trim_prefix, has_prefix}
use zchf_grenadier.Text.Hex.{
  big_endian, hex_to_bytes, hex_pairs, topic_to_address, parse_hex_uint64,
}
use zchf_grenadier.Text.Decimal.{print}
use zchf_grenadier.Exec.{ok, err, db_failed}
use zchf_grenadier.Store.Rows.{Challenge}
use zchf_grenadier.Store.Handle.{Db, quiet, query, execute, send}
use zchf_grenadier.Store.Challenges.{
  challenge_in, bid_in, bid_exists_by_log, get_challenge, upsert_challenge, upsert_bid,
}
use zchf_grenadier.Chain.Log.{Log, log_idx}
use zchf_grenadier.Chain.Log.{topic}
use zchf_grenadier.Indexer.Challenges.Event.{or_zero, with_data, word, challenge_id}
use zchf_grenadier.Indexer.Challenges.Bids.{
  handle_averted, handle_succeeded, unless_seen, skip_if, succeeded_event, succeeded,
  with_challenge, succeeded_on, write_bid,
}
use zchf_grenadier.Store.Positions.{position_in}
use zchf_grenadier.Chain.Abi.{refused}
use zchf_grenadier.Indexer.Challenges.Started.{crashes, started, handle_started}
use zchf_grenadier.Indexer.Challenges.Filling.{filled, status_at}
use zchf_grenadier.Indexer.Challenges.Averts.{
  IsAvert, IsRun, IsStored, run_averts, run_averts-filled, handle_averted-quiet, after_avert,
}
use zchf_grenadier.Indexer.Challenges.Backfill.{SameBids, handle_started-SameBids}
use zchf_grenadier.Indexer.Challenges.Rescan.{rescan_skips_averted, rescan_skips_succeeded}
use zchf_grenadier.Indexer.Challenges.Faults.{
  started_lost_read, averted_counted_twice, bid_write_fails,
}
use zchf_grenadier.Tests.Data.{
  no_junk, zeros, avert_log, pool, bid_eight, bid_four, challenged, open_challenge, started_log,
  alice,
}

program : Unit {0}
unfolding hex_to_bytes hex_pairs topic_to_address topic word big_endian trim_prefix has_prefix lower
    log_idx parse_hex_uint64 challenge_id print challenge_in bid_in
program = tt

-- The two words of an averting bid's data.
abbrev words : ℕ → List ℕ
words n = replicate 31 0 ++ (3 ∷ (replicate 31 0 ++ (n ∷ [])))

bid_eight-IsAvert : IsAvert pool 3 8 bid_eight.log
unfolding program
bid_eight-IsAvert = record {
  topics = omega arith;
  about = refl;
  bytes = words 8;
  decoded = refl;
  long = omega arith;
  number_word = refl;
  size_word = refl;
  hashed = λ e. cc;
}

bid_four-IsAvert : IsAvert pool 3 4 bid_four.log
unfolding program
bid_four-IsAvert = record {
  topics = omega arith;
  about = refl;
  bytes = words 4;
  decoded = refl;
  long = omega arith;
  number_word = refl;
  size_word = refl;
  hashed = λ e. cc;
}

open_challenge-IsStored : IsStored (challenge_id pool 3) challenged open_challenge
unfolding program
open_challenge-IsStored = record { found = refl; own_id = refl; challenger = refl; position = refl }

two_bids-IsRun : IsRun no_junk pool 3 (bid_eight ∷ bid_four ∷ []) challenged
unfolding program
two_bids-IsRun = (bid_eight-IsAvert, refl, (refl, tt), (bid_four-IsAvert, refl, tt, tt))

run_averts-filled_example :
    (c : Challenge) × (challenge_in
        (challenge_id pool 3)
        (run_averts no_junk pool 3 (bid_eight ∷ bid_four ∷ []) (quiet challenged)).db
      ≡ some c)
    × (filled no_junk c ≡ filled no_junk open_challenge +ℤ pos (8 + 4 + 0))
    × (c.status
        ≡ status_at no_junk (filled no_junk open_challenge +ℤ pos (8 + 4 + 0)) open_challenge)
run_averts-filled_example =
    run_averts-filled no_junk pool 3 bid_eight (bid_four ∷ []) open_challenge challenged
      two_bids-IsRun open_challenge-IsStored

-- The handler's run on the log, which is seen after it.
abbrev bid_seen : Db
bid_seen = after_avert no_junk pool 3 bid_eight open_challenge challenged

rescan_skips_averted_example :
    handle_averted no_junk bid_eight.log pool (quiet bid_seen) ≡ (ok tt, quiet bid_seen)
rescan_skips_averted_example =
    rescan_skips_averted no_junk bid_eight.log alice pool (quiet challenged) bid_seen []
      bid_eight-IsAvert.hashed bid_eight-IsAvert.topics
      (handle_averted-quiet no_junk pool 3 bid_eight open_challenge challenged bid_eight-IsAvert
        (two_bids-IsRun.1) open_challenge-IsStored.found)

handle_started-SameBids_example :
    (c : Challenge) × (challenge_in
        (challenge_id pool 3)
        (handle_started (λ p. refused) started_log (pos 7) (quiet challenged)).1.db
      ≡ some c)
    × SameBids open_challenge c
handle_started-SameBids_example =
    handle_started-SameBids (λ p. refused) started_log (pos 7) (challenge_id pool 3) open_challenge
      challenged open_challenge-IsStored.found

started_lost_read_example :
    (c : Challenge) × (challenge_in
        (challenge_id pool 3)
        (started
          (λ p. refused)
          started_log
          (pos 7)
          pool
          12
          3
          (record { db = bid_seen; outcomes = false ∷ [] })).1.db
      ≡ some c)
    × (c.bids ≡ pos 0)
    × (c.filled_size ≡ codes "0")
    × (c.status ≡ codes "Active")
unfolding crashes position_in
started_lost_read_example =
    started_lost_read (λ p. refused) started_log (pos 7) pool 12 3 bid_seen refl

averted_counted_twice_example :
    (half : Db) × (handle_averted no_junk bid_eight.log alice
        (record { db = challenged; outcomes = bid_write_fails })
      ≡ (err db_failed, quiet half))
    × (c : Challenge) × (challenge_in
          (challenge_id pool 3)
          (handle_averted no_junk bid_eight.log alice (quiet half)).1.db
        ≡ some c)
    × (filled no_junk c ≡ filled no_junk open_challenge +ℤ pos (8 + 8))
averted_counted_twice_example =
    averted_counted_twice no_junk pool 3 bid_eight open_challenge challenged bid_eight-IsAvert
      (two_bids-IsRun.1) open_challenge-IsStored

-- A bid of 9 that takes 12 of the challenge for 6.
abbrev success_log : Log
success_log = record (avert_log (codes "0xC1") (codes "9")) {
  data_text =
      codes "0x"
      ++ (zeros 63
          ++ (codes "3"
              ++ (zeros 63
                  ++ (codes "9" ++ (zeros 63 ++ (codes "6" ++ (zeros 63 ++ codes "c")))))));
}

abbrev success_seen : Db
success_seen = (handle_succeeded no_junk success_log alice (quiet challenged)).1.db

success_runs :
    handle_succeeded no_junk success_log alice (quiet challenged) ≡ (ok tt, quiet success_seen)
unfolding program handle_succeeded unless_seen skip_if or_zero bid_exists_by_log query with_data
    succeeded_event succeeded get_challenge with_challenge succeeded_on write_bid upsert_challenge
    upsert_bid execute send
success_runs = refl

rescan_skips_succeeded_example :
    handle_succeeded no_junk success_log pool (quiet success_seen) ≡ (ok tt, quiet success_seen)
rescan_skips_succeeded_example =
    rescan_skips_succeeded no_junk success_log alice pool (quiet challenged) success_seen []
      (λ e. cc) (omega arith) success_runs
