-- ===== src/Tests/Data.antt =====
-- A position, a challenge on it and the logs of its bids.
use zchf_grenadier.Prelude.{ℕ, true, false, [], ◌∷◌, ◌++◌, replicate, nat_eq, list_eq}
use zchf_grenadier.Prelude.Int.{ℤ, pos}
use zchf_grenadier.Text.{Text, codes}
use zchf_grenadier.Chain.Log.{Log, minting_hub_v2, topic_challenge_started, topic_challenge_averted}
use zchf_grenadier.Store.Rows.{Position, Challenge, ChallengeRow, Minter}
use zchf_grenadier.Store.Handle.{Db, fresh}
use zchf_grenadier.Indexer.Challenges.Averts.{Event}

-- n hexadecimal zeros
abbrev pub zeros : ℕ → Text
zeros n = replicate n 48

abbrev pub pool : Text
pool = codes "0x" ++ (zeros 38 ++ codes "0a")

abbrev pub pool_topic : Text
pool_topic = codes "0x" ++ (zeros 62 ++ codes "0a")

abbrev pub alice : Text
alice = codes "0x" ++ (zeros 38 ++ codes "a1")

abbrev pub alice_topic : Text
alice_topic = codes "0x" ++ (zeros 62 ++ codes "a1")

abbrev pub pool_challenge : Text
pool_challenge = pool ++ codes "-challenge-3"

-- A challenge of size 12 with no bids.
abbrev pub open_challenge : Challenge
open_challenge = record {
  id = pool_challenge;
  position = pool;
  number = 3;
  tx_hash = codes "0x11";
  challenger = alice;
  start = pos 7;
  created = pos 7;
  duration = pos 100;
  size = codes "12";
  liq_price = codes "5000000000000000000";
  bids = pos 0;
  filled_size = codes "0";
  acquired_collateral = codes "0";
  status = codes "Active";
  version = pos 2;
  block = pos 16;
}

abbrev pub open_row : ChallengeRow
open_row = record {
  data_column = open_challenge;
  challenger = alice;
  position = pool;
  status = codes "Active";
  updated_block = pos 16;
}

abbrev pub challenged : Db
challenged = record fresh { challenges = (pool_challenge, open_row) ∷ [] }

-- Number 3, size 8 or 4.
abbrev pub avert_log : Text → Text → Log
avert_log tx size = record {
  address = minting_hub_v2;
  topics = topic_challenge_averted ∷ pool_topic ∷ [];
  data_text = codes "0x" ++ (zeros 63 ++ (codes "3" ++ (zeros 63 ++ size)));
  block_number = codes "0x20";
  tx_hash = tx;
  log_index = codes "0x1";
}

abbrev pub bid_eight : Event
bid_eight = record { log = avert_log (codes "0xB8") (codes "8"); bidder = alice; size = 8 }

abbrev pub bid_four : Event
bid_four = record { log = avert_log (codes "0xB4") (codes "4"); bidder = alice; size = 4 }

abbrev pub started_log : Log
started_log = record {
  address = minting_hub_v2;
  topics = topic_challenge_started ∷ alice_topic ∷ pool_topic ∷ [];
  data_text = codes "0x" ++ (zeros 63 ++ (codes "c" ++ (zeros 63 ++ codes "3")));
  block_number = codes "0x10";
  tx_hash = codes "0x11";
  log_index = codes "0x0";
}

-- No text is stored that SetString refuses.
abbrev pub no_junk : Text → ℤ
no_junk t = pos 0

abbrev pub denied_position : Position
denied_position = record {
  version = pos 2;
  position = pool;
  owner = alice;
  zchf = [];
  collateral = [];
  price = codes "5";
  created = pos 1;
  is_original = true;
  is_clone = false;
  denied = true;
  deny_date = pos 9;
  closed = false;
  original = [];
  parent = [];
  zchf_name = [];
  zchf_symbol = [];
  zchf_decimals = pos 18;
  minimum_collateral = [];
  annual_interest_ppm = pos 0;
  risk_premium_ppm = pos 0;
  reserve_contribution = pos 0;
  start = pos 1;
  cooldown = pos 2;
  expiration = pos 99;
  challenge_period = pos 10;
  collateral_name = [];
  collateral_symbol = [];
  collateral_decimals = pos 18;
  collateral_balance = codes "40";
  limit_for_position = [];
  limit_for_clones = [];
  available_for_clones = [];
  available_for_minting = [];
  available_for_position = [];
  minted = codes "6";
}

-- What a hydration that knows nothing of the denial or of the balance gives.
abbrev pub hydrated_position : Position
hydrated_position = record denied_position { denied = false; collateral_balance = codes "0" }

abbrev pub denied_db : Db
denied_db = record fresh {
  positions =
      (
        pool,
        record {
          data_column = denied_position;
          owner = alice;
          closed = 0;
          denied = 1;
          updated_block = pos 3;
        },
      )
      ∷ [];
}

abbrev pub application : Text → Minter
application tx = record {
  chain_id = pos 1;
  tx_hash = tx;
  minter = alice;
  application_period = pos 5;
  application_fee = codes "1000";
  apply_message = [];
  apply_date = pos 70;
  suggestor = alice;
  deny_message = [];
  deny_date = pos 0;
  deny_tx_hash = [];
  vetor = [];
}
