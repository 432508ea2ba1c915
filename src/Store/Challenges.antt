-- ===== src/Store/Challenges.antt =====
-- The challenges and bids tables of store/challenges.go.
pub mod Laws
use zchf_grenadier.Prelude.{
  ℕ, ◌≡◌, Bool, true, false, ◌&&◌, Option, none, some, List, [], ◌∷◌, map, ◌==◌, nat_eq, list_eq,
  if◌then◌else◌, length, eqb,
}
use zchf_grenadier.Prelude.Int.{ℤ}
use zchf_grenadier.Text.{Text, codes, lower}
use zchf_grenadier.Exec.{Result, ok, err, Exec, pure, fail, ◌>>=◌, ◌>>◌}
use zchf_grenadier.Table.{Table, find, upsert, select, rows}
use zchf_grenadier.Table.Order.{order_desc}
use zchf_grenadier.Store.Rows.{Challenge, ChallengeRow, Bid, BidRow}
use zchf_grenadier.Store.Handle.{Db, Store, query, execute, bulk}

-- The two fields that the writers of challenges fold to lower case.
unfoldable pub fold_challenge : Challenge → Challenge
unfolding lower
fold_challenge c = record c { challenger = lower c.challenger; position = lower c.position }

unfoldable pub challenge_row : Challenge → ℤ → ChallengeRow
challenge_row c block = record {
  data_column = c;
  challenger = c.challenger;
  position = c.position;
  status = c.status;
  updated_block = block;
}

unfoldable pub put_challenge : ℤ → Challenge → Db → Option Db
unfolding upsert challenge_row
put_challenge block c db =
    some (record db { challenges = upsert c.id (challenge_row c block) db.challenges })

-- UpsertChallenge
unfoldable pub upsert_challenge : Challenge → ℤ → Exec Store (Unit {0})
unfolding execute put_challenge fold_challenge
upsert_challenge c block = execute (put_challenge block (fold_challenge c))

-- BulkUpsertChallenges: an empty list opens no transaction.
unfoldable pub bulk_upsert_challenges : List Challenge → ℤ → Exec Store (Unit {0})
unfolding bulk put_challenge fold_challenge
bulk_upsert_challenges [] block = pure tt
bulk_upsert_challenges (c ∷ cs) block = bulk (λ x. put_challenge block (fold_challenge x)) (c ∷ cs)

unfoldable pub challenge_data : Option ChallengeRow → Option Challenge
challenge_data none = none
challenge_data (some r) = some r.data_column

unfoldable pub challenge_in : Text → Db → Option Challenge
unfolding find challenge_data
challenge_in id db = challenge_data (find id db.challenges)

-- GetChallenge
unfoldable pub get_challenge : Text → Exec Store (Option Challenge)
unfolding query challenge_in
get_challenge id = query (challenge_in id)

-- queryChallenges, over the test of its WHERE
unfoldable pub challenges_where : (ChallengeRow → Bool) → Db → List Challenge
unfolding select
challenges_where test db = map (λ r. r.data_column) (select test db.challenges)

-- ChallengesByChallenger
unfoldable pub challenges_by_challenger : Text → Exec Store (List Challenge)
unfolding query challenges_where lower
challenges_by_challenger addr = query (challenges_where (λ r. r.challenger == lower addr))

-- ChallengesByPosition
unfoldable pub challenges_by_position : Text → Exec Store (List Challenge)
unfolding query challenges_where lower
challenges_by_position addr = query (challenges_where (λ r. r.position == lower addr))

-- ActiveChallenges
unfoldable pub active_challenges : Exec Store (List Challenge)
unfolding query challenges_where
active_challenges = query (challenges_where (λ r. r.status == codes "Active"))

-- AllChallenges
unfoldable pub all_challenges : Exec Store (List Challenge)
unfolding query challenges_where
all_challenges = query (challenges_where (λ r. true))

-- ChallengeCount
unfoldable pub challenge_count : Exec Store ℕ
unfolding query
challenge_count = query (λ db. length db.challenges)

has_log : Text → ℕ → List BidRow → Bool
has_log tx i [] = false
has_log tx i (r ∷ rs) =
    let rest = has_log tx i rs in if r.tx_hash == tx && r.log_index == i then true else rest

-- Is a bid of this log in the table? An empty hash is answered with no statement.
unfoldable pub bid_in : Text → ℕ → Db → Bool
unfolding rows has_log
bid_in tx i db = has_log tx i (rows db.bids)

-- BidExistsByLog
unfoldable pub bid_exists_by_log : Text → ℕ → Exec Store Bool
unfolding query bid_in lower
bid_exists_by_log [] i = pure false
bid_exists_by_log (c ∷ tx) i = query (bid_in (lower (c ∷ tx)) i)

-- The three fields that the writers of bids fold to lower case.
unfoldable pub fold_bid : Bid → Bid
unfolding lower
fold_bid b = record b {
  bidder = lower b.bidder;
  position = lower b.position;
  tx_hash = lower b.tx_hash;
}

unfoldable pub bid_row : Bid → BidRow
bid_row b = record {
  data_column = b;
  bidder = b.bidder;
  position = b.position;
  tx_hash = b.tx_hash;
  log_index = b.log_index;
  block = b.block;
}

unfoldable pub put_bid : Bid → Db → Option Db
unfolding upsert bid_row
put_bid b db = some (record db { bids = upsert b.id (bid_row b) db.bids })

-- UpsertBid
unfoldable pub upsert_bid : Bid → Exec Store (Unit {0})
unfolding execute put_bid fold_bid
upsert_bid b = execute (put_bid (fold_bid b))

-- BulkUpsertBids
unfoldable pub bulk_upsert_bids : List Bid → Exec Store (Unit {0})
unfolding bulk put_bid fold_bid
bulk_upsert_bids [] = pure tt
bulk_upsert_bids (b ∷ bs) = bulk (λ x. put_bid (fold_bid x)) (b ∷ bs)

-- queryBids, over the test of its WHERE, with ORDER BY block DESC
unfoldable pub bids_where : (BidRow → Bool) → Db → List Bid
unfolding select
bids_where test db = map (λ r. r.data_column) (order_desc (λ r. r.block) (select test db.bids))

-- BidsByBidder
unfoldable pub bids_by_bidder : Text → Exec Store (List Bid)
unfolding query bids_where lower
bids_by_bidder addr = query (bids_where (λ r. r.bidder == lower addr))

-- BidsByPosition
unfoldable pub bids_by_position : Text → Exec Store (List Bid)
unfolding query bids_where lower
bids_by_position addr = query (bids_where (λ r. r.position == lower addr))

-- BidCount
unfoldable pub bid_count : Exec Store ℕ
unfolding query
bid_count = query (λ db. length db.bids)
