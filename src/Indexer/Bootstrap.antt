-- ===== src/Indexer/Bootstrap.antt =====
-- indexer/bootstrap.go: the positions that a fresh store is seeded with.
pub mod Laws
pub mod Challenges
use zchf_grenadier.Prelude.{
  ℕ, ◌+◌, ◌^◌, Bool, true, false, Option, none, some, List, [], ◌∷◌, map, keep, ltb, if◌then◌else◌,
  length,
}
use zchf_grenadier.Prelude.Int.{ℤ, pos, int_beq, to_int64}
use zchf_grenadier.Text.{Text, lower}
use zchf_grenadier.Exec.{Result, ok, err, rpc_failed, Exec, pure, fail, ◌>>=◌, ◌>>◌}
use zchf_grenadier.Store.Rows.{Position}
use zchf_grenadier.Store.Handle.{Store}
use zchf_grenadier.Store.Positions.{bulk_upsert, count_positions, set_last_block}
use zchf_grenadier.Indexer.Sources.{fetch_and_decode, endpoint_positions}

-- apiPosition, where the cooldown is the text of a json.Number
pub record ApiPosition : Type 0 where
  pub version : ℤ
  pub position : Text
  pub owner : Text
  pub zchf : Text
  pub zchf_name : Text
  pub zchf_symbol : Text
  pub zchf_decimals : ℤ
  pub collateral : Text
  pub price : Text
  pub created : ℤ
  pub is_original : Bool
  pub is_clone : Bool
  pub denied : Bool
  pub deny_date : ℤ
  pub closed : Bool
  pub original : Text
  pub parent : Text
  pub minimum_collateral : Text
  pub annual_interest_ppm : ℤ
  pub risk_premium_ppm : ℤ
  pub reserve_contribution : ℤ
  pub start : ℤ
  pub cooldown : Text
  pub expiration : ℤ
  pub challenge_period : ℤ
  pub collateral_name : Text
  pub collateral_symbol : Text
  pub collateral_decimals : ℤ
  pub collateral_balance : Text
  pub limit_for_position : Text
  pub limit_for_clones : Text
  pub available_for_clones : Text
  pub available_for_minting : Text
  pub available_for_position : Text
  pub minted : Text

-- fmt.Sscanf(s, "%d", &n) is the parameter: the number, or `none` for an error.
module _ (scan_int : Text → Option ℤ) where
  unfoldable pub cooldown_of : Text → ℤ
  cooldown_of [] = pos 0
  cooldown_of (c ∷ s) = elim (scan_int (c ∷ s)) [ none ↦ pos (2 ^ 62) | some n ↦ n ]

  -- convertAPI
  unfoldable pub convert_api : ApiPosition → Position
  unfolding cooldown_of
  convert_api a = record {
    version = a.version;
    position = lower a.position;
    owner = lower a.owner;
    zchf = lower a.zchf;
    zchf_name = a.zchf_name;
    zchf_symbol = a.zchf_symbol;
    zchf_decimals = a.zchf_decimals;
    collateral = lower a.collateral;
    price = a.price;
    created = a.created;
    is_original = a.is_original;
    is_clone = a.is_clone;
    denied = a.denied;
    deny_date = a.deny_date;
    closed = a.closed;
    original = lower a.original;
    parent = lower a.parent;
    minimum_collateral = a.minimum_collateral;
    annual_interest_ppm = a.annual_interest_ppm;
    risk_premium_ppm = a.risk_premium_ppm;
    reserve_contribution = a.reserve_contribution;
    start = a.start;
    cooldown = cooldown_of a.cooldown;
    expiration = a.expiration;
    challenge_period = a.challenge_period;
    collateral_name = a.collateral_name;
    collateral_symbol = a.collateral_symbol;
    collateral_decimals = a.collateral_decimals;
    collateral_balance = a.collateral_balance;
    limit_for_position = a.limit_for_position;
    limit_for_clones = a.limit_for_clones;
    available_for_clones = a.available_for_clones;
    available_for_minting = a.available_for_minting;
    available_for_position = a.available_for_position;
    minted = a.minted;
  }

-- V2 only
unfoldable pub is_v2 : ApiPosition → Bool
is_v2 a = int_beq a.version (pos 2)

unfoldable pub converted : (Text → Option ℤ) → List ApiPosition → List Position
unfolding convert_api is_v2
converted scan_int list = map (convert_api scan_int) (keep is_v2 list)

module _ (scan_int : Text → Option ℤ) where
  -- The two writes, once the head is known.
  unfoldable pub write_seed : List ApiPosition → ℕ → Exec Store (Unit {0})
  unfolding bulk_upsert set_last_block converted
  write_seed list block =
      bulk_upsert (converted scan_int list) (to_int64 block) >> set_last_block block

  unfoldable pub seed_at : List ApiPosition → Option ℕ → Exec Store (Unit {0})
  unfolding write_seed
  seed_at list none = fail rpc_failed
  seed_at list (some block) = write_seed list block

-- ch.BlockNumber answers `head`, where `none` is an error.
module _ (http_get : Text → Option Text) (decode : Text → Option (List ApiPosition))
    (scan_int : Text → Option ℤ) (head : Option ℕ) where
  unfoldable pub seed_with : Result (List ApiPosition) → Exec Store (Unit {0})
  unfolding seed_at
  seed_with (err e) = fail e
  seed_with (ok list) = seed_at scan_int list head

  unfoldable pub bootstrap_after : ℕ → Exec Store (Unit {0})
  unfolding seed_with fetch_and_decode
  bootstrap_after count =
      if ltb 0 count
      then pure tt
      else seed_with (fetch_and_decode http_get decode endpoint_positions)

  -- Bootstrap
  unfoldable pub bootstrap : Exec Store (Unit {0})
  unfolding bootstrap_after count_positions
  bootstrap = do count ← count_positions; bootstrap_after count
