-- ===== src/Chain/Returns.antt =====
-- What HydratePosition of chain/hydrate.go reads out of the results of its 18 calls.
use zchf_grenadier.Prelude.{
  ℕ, Bool, false, not, none, some, List, [], ◌∷◌, nat_eq, list_eq, ◌==◌, if◌then◌else◌, get_elem?,
}
use zchf_grenadier.Prelude.Int.{ℤ, pos, to_int64}
use zchf_grenadier.Text.{Text, codes}
use zchf_grenadier.Text.Decimal.{print}
use zchf_grenadier.Store.Rows.{Position}
use zchf_grenadier.Chain.Abi.{
  Decoded, value, ◌>>=◌, value_or, decode_address, decode_uint256, decode_uint64, decode_bool,
}
use zchf_grenadier.Chain.Multicall.{McResult}

-- r: a missing result and a failed one are nil.
unfoldable pub return_at : List McResult → ℕ → List ℕ
return_at rs i = elim (get_elem? rs i) [
  | none ↦ []
  | some r ↦ if r.success then r.return_data else []
]

unfoldable must_addr : List ℕ → Decoded Text
unfolding decode_address
must_addr bytes = value_or [] (decode_address bytes 0)

unfoldable must_big : List ℕ → Decoded Text
unfolding decode_uint256 print
must_big bytes = value_or 0 (decode_uint256 bytes 0) >>= λ v. value (print v)

-- mustU64 and mustU32
unfoldable must_int : List ℕ → Decoded ℤ
unfolding decode_uint64 to_int64
must_int bytes = value_or 0 (decode_uint64 bytes 0) >>= λ v. value (to_int64 v)

unfoldable must_bool : List ℕ → Decoded Bool
unfolding decode_bool
must_bool bytes = value_or false (decode_bool bytes 0)

-- The fields that the results describe.
unfoldable pub fields_of : List McResult → Decoded Position
unfolding return_at must_addr must_big must_int must_bool
fields_of rs = do
  owner ← must_addr (return_at rs 0)
  original ← must_addr (return_at rs 1)
  collateral ← must_addr (return_at rs 2)
  zchf ← must_addr (return_at rs 3)
  price ← must_big (return_at rs 4)
  minted ← must_big (return_at rs 5)
  minimum ← must_big (return_at rs 6)
  limit ← must_big (return_at rs 7)
  clones ← must_big (return_at rs 8)
  minting ← must_big (return_at rs 9)
  start ← must_int (return_at rs 10)
  expiration ← must_int (return_at rs 11)
  cooldown ← must_int (return_at rs 12)
  period ← must_int (return_at rs 13)
  premium ← must_int (return_at rs 14)
  reserve ← must_int (return_at rs 15)
  closed ← must_bool (return_at rs 16)
  value (record {
    version = pos 2;
    position = [];
    owner = owner;
    zchf = zchf;
    collateral = collateral;
    price = price;
    created = pos 0;
    is_original = false;
    is_clone = false;
    denied = false;
    deny_date = pos 0;
    closed = closed;
    original = original;
    parent = [];
    zchf_name = [];
    zchf_symbol = [];
    zchf_decimals = pos 0;
    minimum_collateral = minimum;
    annual_interest_ppm = pos 0;
    risk_premium_ppm = premium;
    reserve_contribution = reserve;
    start = start;
    cooldown = cooldown;
    expiration = expiration;
    challenge_period = period;
    collateral_name = [];
    collateral_symbol = [];
    collateral_decimals = pos 0;
    collateral_balance = [];
    limit_for_position = limit;
    limit_for_clones = [];
    available_for_clones = clones;
    available_for_minting = minting;
    available_for_position = [];
    minted = minted;
  })

-- Position: addr, p.IsOriginal and p.IsClone
unfoldable pub placed : Text → Position → Position
placed addr p = record p {
  position = addr;
  is_original = p.original == addr;
  is_clone = not (p.original == addr);
}

-- The position that the results describe.
unfoldable pub position_of : Text → List McResult → Decoded Position
unfolding fields_of placed
position_of addr rs = fields_of rs >>= λ p. value (placed addr p)

-- sels
abbrev pub signatures : List Text
signatures =
    codes "owner()"
    ∷ codes "original()"
    ∷ codes "collateral()"
    ∷ codes "zchf()"
    ∷ codes "price()"
    ∷ codes "minted()"
    ∷ codes "minimumCollateral()"
    ∷ codes "limit()"
    ∷ codes "availableForClones()"
    ∷ codes "availableForMinting()"
    ∷ codes "start()"
    ∷ codes "expiration()"
    ∷ codes "cooldown()"
    ∷ codes "challengePeriod()"
    ∷ codes "riskPremiumPPM()"
    ∷ codes "reserveContribution()"
    ∷ codes "isClosed()"
    ∷ codes "challengedAmount()"
    ∷ []
