-- ===== src/Store/Rows.antt =====
-- The rows of store/store.go, store/challenges.go and store/governance.go. A `data` column holds
-- the JSON of a record; encoding/json reads back what it wrote for these flat records of texts,
-- integers and flags, so the column is modelled by the record itself.
use zchf_grenadier.Prelude.{ℕ, Bool}
use zchf_grenadier.Prelude.Int.{ℤ}
use zchf_grenadier.Text.{Text}

pub record Position : Type 0 where
  pub version : ℤ
  pub position : Text
  pub owner : Text
  pub zchf : Text
  pub collateral : Text
  pub price : Text
  pub created : ℤ
  pub is_original : Bool
  pub is_clone : Bool
  pub denied : Bool
  pub deny_date : ℤ
  pub closed : Bool
  pub original : Text
  pub parent : Text
  pub zchf_name : Text
  pub zchf_symbol : Text
  pub zchf_decimals : ℤ
  pub minimum_collateral : Text
  pub annual_interest_ppm : ℤ
  pub risk_premium_ppm : ℤ
  pub reserve_contribution : ℤ
  pub start : ℤ
  pub cooldown : ℤ
  pub expiration : ℤ
  pub challenge_period : ℤ
  pub collateral_name : Text
  pub collateral_symbol : Text
  pub collateral_decimals : ℤ
  pub collateral_balance : Text
  pub limit_for_position : Text
  pub limit_for_clones : Text
  pub available_for_clones : Text
  pub available_for_minting : Text
  pub available_for_position : Text
  pub minted : Text

pub record Challenge : Type 0 where
  pub id : Text
  pub position : Text
  pub number : ℕ
  pub tx_hash : Text
  pub challenger : Text
  pub start : ℤ
  pub created : ℤ
  pub duration : ℤ
  pub size : Text
  pub liq_price : Text
  pub bids : ℤ
  pub filled_size : Text
  pub acquired_collateral : Text
  pub status : Text
  pub version : ℤ
  pub block : ℤ

pub record Bid : Type 0 where
  pub id : Text
  pub position : Text
  pub number : ℕ
  pub number_bid : ℕ
  pub tx_hash : Text
  pub log_index : ℕ
  pub bidder : Text
  pub created : ℤ
  pub bid_type : Text
  pub bid : Text
  pub price : Text
  pub filled_size : Text
  pub acquired_collateral : Text
  pub challenge_size : Text
  pub version : ℤ
  pub block : ℤ

pub record Minter : Type 0 where
  pub chain_id : ℤ
  pub tx_hash : Text
  pub minter : Text
  pub application_period : ℤ
  pub application_fee : Text
  pub apply_message : Text
  pub apply_date : ℤ
  pub suggestor : Text
  pub deny_message : Text
  pub deny_date : ℤ
  pub deny_tx_hash : Text
  pub vetor : Text

pub record LeadrateApproved : Type 0 where
  pub chain_id : ℤ
  pub module_address : Text
  pub count : ℤ
  pub created : ℤ
  pub blockheight : ℤ
  pub tx_hash : Text
  pub approved_rate : ℤ

pub record LeadrateProposed : Type 0 where
  pub chain_id : ℤ
  pub module_address : Text
  pub count : ℤ
  pub created : ℤ
  pub blockheight : ℤ
  pub tx_hash : Text
  pub proposer : Text
  pub next_change : ℤ
  pub next_rate : ℤ

pub record FpsHolder : Type 0 where
  pub account : Text
  pub balance : Text
  pub updated : ℤ

pub record EquityDelegation : Type 0 where
  pub owner : Text
  pub delegated_to : Text

-- The columns beside the keys, table by table.
pub record PositionRow : Type 0 where
  pub data_column : Position
  pub owner : Text
  pub closed : ℕ
  pub denied : ℕ
  pub updated_block : ℤ

pub record ChallengeRow : Type 0 where
  pub data_column : Challenge
  pub challenger : Text
  pub position : Text
  pub status : Text
  pub updated_block : ℤ

pub record BidRow : Type 0 where
  pub data_column : Bid
  pub bidder : Text
  pub position : Text
  pub tx_hash : Text
  pub log_index : ℕ
  pub block : ℤ

pub record MinterRow : Type 0 where
  pub data_column : Minter
  pub chain_id : ℤ
  pub apply_date : ℤ
  pub denied : ℕ

pub record RateRow (R : Type 0) : Type 0 where
  pub data_column : R
  pub created : ℤ

pub record HolderRow : Type 0 where
  pub balance : Text
  pub updated : ℤ
