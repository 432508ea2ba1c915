-- ===== src/Indexer/Bootstrap/Challenges.antt =====
-- indexer/bootstrap_challenges.go: the challenges and bids that a store is seeded with once.
pub mod Laws
use zchf_grenadier.Prelude.{
  ℕ, ◌^◌, Bool, true, false, Option, none, some, List, [], ◌∷◌, map, keep, ltb, if◌then◌else◌,
}
use zchf_grenadier.Prelude.Int.{ℤ, pos, negsuc, int_beq, to_int64}
use zchf_grenadier.Text.{Text, codes, lower}
use zchf_grenadier.Text.Decimal.{print, parse_uint64, parse_int}
use zchf_grenadier.Exec.{Result, ok, err, rpc_failed, Exec, fail, ◌>>=◌, ◌>>◌}
use zchf_grenadier.Store.Rows.{Challenge, Bid}
use zchf_grenadier.Store.Handle.{Store}
use zchf_grenadier.Store.Challenges.{bulk_upsert_challenges, bulk_upsert_bids}
use zchf_grenadier.Store.Positions.{get_meta, set_meta}
use zchf_grenadier.Indexer.Sources.{fetch_and_decode, endpoint_challenges, endpoint_bids}

abbrev pub boot_chal_marker : Text
boot_chal_marker = codes "bootstrap_chal_block"

-- apiChallenge, with the text of each json.Number
pub record ApiChallenge : Type 0 where
  pub id : Text
  pub position : Text
  pub number : Text
  pub tx_hash : Text
  pub challenger : Text
  pub start : Text
  pub created : Text
  pub duration : Text
  pub size : Text
  pub liq_price : Text
  pub bids : Text
  pub filled_size : Text
  pub acquired_collateral : Text
  pub status : Text
  pub version : ℤ

-- apiBid
pub record ApiBid : Type 0 where
  pub id : Text
  pub position : Text
  pub number : Text
  pub number_bid : Text
  pub tx_hash : Text
  pub bidder : Text
  pub created : Text
  pub bid_type : Text
  pub bid : Text
  pub price : Text
  pub filled_size : Text
  pub acquired_collateral : Text
  pub challenge_size : Text
  pub version : ℤ

-- parseU64: 0 where the text is empty or no uint64
unfoldable pub parse_u64 : Text → ℕ
unfolding parse_uint64
parse_u64 n = elim (parse_uint64 n) [ none ↦ 0 | some v ↦ v ]

is_int64 : ℤ → Bool
is_int64 (pos n) = ltb n (2 ^ 63)
is_int64 (negsuc n) = ltb n (2 ^ 63)

-- parseI64: 0 where the text is empty or no int64
unfoldable pub parse_i64 : Text → ℤ
unfolding parse_int is_int64
parse_i64 n = elim (parse_int n) [ none ↦ pos 0 | some v ↦ if is_int64 v then v else pos 0 ]

-- convertChallenge
unfoldable pub convert_challenge : ApiChallenge → Challenge
unfolding parse_u64 parse_i64
convert_challenge a = record {
  id = a.id;
  position = lower a.position;
  number = parse_u64 a.number;
  tx_hash = a.tx_hash;
  challenger = lower a.challenger;
  start = parse_i64 a.start;
  created = parse_i64 a.created;
  duration = parse_i64 a.duration;
  size = a.size;
  liq_price = a.liq_price;
  bids = to_int64 (parse_u64 a.bids);
  filled_size = a.filled_size;
  acquired_collateral = a.acquired_collateral;
  status = a.status;
  version = a.version;
  block = pos 0;
}

-- convertBid
unfoldable pub convert_bid : ApiBid → Bid
unfolding parse_u64 parse_i64
convert_bid a = record {
  id = a.id;
  position = lower a.position;
  number = parse_u64 a.number;
  number_bid = parse_u64 a.number_bid;
  tx_hash = a.tx_hash;
  log_index = 0;
  bidder = lower a.bidder;
  created = parse_i64 a.created;
  bid_type = a.bid_type;
  bid = a.bid;
  price = a.price;
  filled_size = a.filled_size;
  acquired_collateral = a.acquired_collateral;
  challenge_size = a.challenge_size;
  version = a.version;
  block = pos 0;
}

-- The loops of seedFromPeers: V2 only.
unfoldable pub seed_challenges : List ApiChallenge → List Challenge
unfolding convert_challenge
seed_challenges list =
    map convert_challenge (keep (λ (c : ApiChallenge). int_beq c.version (pos 2)) list)

unfoldable pub seed_bids : List ApiBid → List Bid
unfolding convert_bid
seed_bids list = map convert_bid (keep (λ (b : ApiBid). int_beq b.version (pos 2)) list)

-- An error on the bids is not fatal.
unfoldable pub or_no_bids : Result (List ApiBid) → List ApiBid
or_no_bids (ok list) = list
or_no_bids (err e) = []

-- seedFromPeers, once the peers have answered
unfoldable pub seed_from : Result (List ApiChallenge) → Result (List ApiBid) → Exec Store (Unit {0})
unfolding seed_challenges seed_bids or_no_bids bulk_upsert_challenges bulk_upsert_bids
seed_from (err e) bids = fail e
seed_from (ok list) bids =
    bulk_upsert_challenges (seed_challenges list) (pos 0)
    >> bulk_upsert_bids (seed_bids (or_no_bids bids))

-- An error of the seed is printed; the marker stays unset.
unfoldable pub set_marker : ℕ → Result (Unit {0}) × Store → Result (Unit {0}) × Store
unfolding set_meta
set_marker head (err e, s) = (ok tt, s)
set_marker head (ok u, s) = set_meta boot_chal_marker (print head) s

-- ch.BlockNumber answers `head`, where `none` is an error.
module _ (http_get : Text → Option Text) (decode : Text → Option (List ApiChallenge))
    (decode_bids : Text → Option (List ApiBid)) where
  unfoldable pub with_head : Option ℕ → Exec Store (Unit {0})
  unfolding set_marker seed_from fetch_and_decode
  with_head none s = (err rpc_failed, s)
  with_head (some head) s = set_marker head (
      seed_from (fetch_and_decode http_get decode endpoint_challenges)
        (fetch_and_decode http_get decode_bids endpoint_bids) s)

  -- A failed read of the marker counts as an unset one.
  unfoldable pub unless_marked : Option ℕ → Result Text × Store → Result (Unit {0}) × Store
  unfolding with_head
  unless_marked head (ok [], s) = with_head head s
  unless_marked head (ok (c ∷ v), s) = (ok tt, s)
  unless_marked head (err e, s) = with_head head s

  -- BootstrapChallenges
  unfoldable pub bootstrap_challenges : Option ℕ → Exec Store (Unit {0})
  unfolding unless_marked get_meta
  bootstrap_challenges head s = unless_marked head (get_meta boot_chal_marker s)
