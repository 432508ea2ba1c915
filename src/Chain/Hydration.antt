-- ===== src/Chain/Hydration.antt =====
-- HydratePosition and HydrateERC20 of chain/hydrate.go, over eth_call on Multicall3.
pub mod Laws
pub mod Held
pub mod Refused
use zchf_grenadier.Prelude.{
  ℕ, Bool, true, false, not, Option, none, some, List, [], ◌∷◌, ◌++◌, map, nat_eq, list_eq, ◌==◌,
  if◌then◌else◌, get_elem?,
}
use zchf_grenadier.Prelude.Int.{ℤ, pos, to_int64}
use zchf_grenadier.Text.{Text, codes, lower}
use zchf_grenadier.Text.Decimal.{print}
use zchf_grenadier.Table.{Table, find, upsert}
use zchf_grenadier.Store.Rows.{Position}
use zchf_grenadier.Chain.Hydrate.{Erc20Meta, CollateralMeta}
use zchf_grenadier.Chain.Returns.{position_of, signatures}
use zchf_grenadier.Chain.Abi.{
  Decoded, value, refused, panicked, ◌>>=◌, value_or, decode_address, decode_uint256, decode_uint64,
  decode_bool, decode_string, encode_address,
}
use zchf_grenadier.Chain.Multicall.{McCall, McResult, encode_aggregate3, decode_aggregate3_result}

-- `selector` is the first four bytes of a signature's hash, `eth_call` the answer of Multicall3 to
-- calldata, where `none` is an error, and `fits` says for which sizes make has room.
module _ (selector : Text → List ℕ) (eth_call : List ℕ → Option (List ℕ))
    (fits : ℕ → ℕ → Bool) where
  unfoldable pub selector_call : Text → Text → McCall
  selector_call target sig = record {
    target = target;
    allow_failure = true;
    call_data = selector sig;
  }

  unfoldable pub encoded : List McCall → Option (List ℕ)
  unfolding encode_aggregate3
  encoded = encode_aggregate3 (selector (codes "aggregate3((address,bool,bytes)[])"))

  unfoldable pub answered : Option (List ℕ) → Decoded (List McResult)
  unfolding decode_aggregate3_result
  answered none = refused
  answered (some answer) = decode_aggregate3_result fits answer

  -- The results that are answered to calldata.
  unfoldable pub results_of : List ℕ → Decoded (List McResult)
  unfolding answered
  results_of bytes = answered (eth_call bytes)

  unfoldable pub call_all : List McCall → Decoded (List McResult)
  unfolding encoded results_of
  call_all calls = elim (encoded calls) [ none ↦ refused | some bytes ↦ results_of bytes ]

  unfoldable pub set_balance : Position → Decoded ℕ → Decoded Position
  unfolding print
  set_balance p (value v) = value (record p { collateral_balance = print v })
  set_balance p refused = value p
  set_balance p panicked = panicked

  -- bres, e2: an error leaves the position as it is.
  unfoldable pub balance_from : Position → Decoded (List McResult) → Decoded Position
  unfolding set_balance decode_uint256
  balance_from p (value []) = value p
  balance_from p (value (r ∷ rs)) =
      if r.success then set_balance p (decode_uint256 r.return_data 0) else value p
  balance_from p refused = value p
  balance_from p panicked = panicked

  -- The balance of the collateral token, where there is one.
  unfoldable pub with_balance : Text → Position → Decoded Position
  unfolding balance_from call_all encode_address
  with_balance addr p = if p.collateral == [] then value p else elim (encode_address addr) [
    | none ↦ value p
    | some arg ↦ balance_from p (
        call_all (
          record {
            target = p.collateral;
            allow_failure = true;
            call_data = selector (codes "balanceOf(address)") ++ arg;
          }
          ∷ []))
  ]

  -- A string or a number of the token's results; a failed one leaves the zero value.
  unfoldable pub string_result : List McResult → ℕ → Decoded Text
  unfolding decode_string
  string_result rs i = elim (get_elem? rs i) [
    | none ↦ value []
    | some r ↦ if r.success then value_or [] (decode_string r.return_data 0) else value []
  ]

  unfoldable pub number_result : List McResult → ℕ → Decoded ℕ
  unfolding decode_uint64
  number_result rs i = elim (get_elem? rs i) [
    | none ↦ value 0
    | some r ↦ if r.success then value_or 0 (decode_uint64 r.return_data 0) else value 0
  ]

  unfoldable pub erc20_of : List McResult → Decoded Erc20Meta
  unfolding string_result number_result to_int64
  erc20_of rs = do
    name ← string_result rs 0
    symbol ← string_result rs 1
    decimals ← number_result rs 2
    value (record { name = name; symbol = symbol; decimals = to_int64 decimals })

  or_nil : Option (List ℕ) → List ℕ
  or_nil none = []
  or_nil (some bytes) = bytes

  -- HydrateERC20: an error of the encoding is not looked at.
  unfoldable pub hydrate_erc20 : Text → Decoded Erc20Meta
  unfolding erc20_of results_of encoded selector_call or_nil lower
  hydrate_erc20 addr =
      let calls =
        map (selector_call (lower addr))
          (codes "name()" ∷ codes "symbol()" ∷ codes "decimals()" ∷ []) in
      results_of (or_nil (encoded calls)) >>= erc20_of

  -- The metadata of a token that the map does not hold; an error leaves the zero value.
  unfoldable pub add_token :
      Text → CollateralMeta → Decoded Erc20Meta → Decoded Erc20Meta × CollateralMeta
  unfolding upsert
  add_token token meta (value m) = (value m, upsert token m meta)
  add_token token meta refused = (value (record { name = []; symbol = []; decimals = pos 0 }), meta)
  add_token token meta panicked = (panicked, meta)

  unfoldable pub held_or_added :
      Text → CollateralMeta → Option Erc20Meta → Decoded Erc20Meta × CollateralMeta
  unfolding add_token hydrate_erc20
  held_or_added token meta (some m) = (value m, meta)
  held_or_added token meta none = add_token token meta (hydrate_erc20 token)

  unfoldable pub token_meta : Text → CollateralMeta → Decoded Erc20Meta × CollateralMeta
  unfolding held_or_added find
  token_meta token meta = held_or_added token meta (find token meta)

  set_zchf : Position → Decoded Erc20Meta × CollateralMeta → Decoded Position × CollateralMeta
  set_zchf p (m, meta) = (
    m >>= λ t.
        value (record p { zchf_name = t.name; zchf_symbol = t.symbol; zchf_decimals = t.decimals }),
    meta,
  )

  -- if p.Zchf != ""
  unfoldable pub with_zchf : Position → CollateralMeta → Decoded Position × CollateralMeta
  unfolding set_zchf token_meta
  with_zchf p meta = if p.zchf == [] then (value p, meta) else set_zchf p (token_meta p.zchf meta)

  unfoldable pub set_collateral :
      Position → Decoded Erc20Meta × CollateralMeta → Decoded Position × CollateralMeta
  unfolding with_zchf
  set_collateral p (value t, meta) =
      with_zchf
        (record p {
          collateral_name = t.name;
          collateral_symbol = t.symbol;
          collateral_decimals = t.decimals;
        })
        meta
  set_collateral p (refused, meta) = (refused, meta)
  set_collateral p (panicked, meta) = (panicked, meta)

  unfoldable pub with_meta : Decoded Position → CollateralMeta → Decoded Position × CollateralMeta
  unfolding set_collateral token_meta
  with_meta (value p) meta = set_collateral p (token_meta p.collateral meta)
  with_meta refused meta = (refused, meta)
  with_meta panicked meta = (panicked, meta)

  -- The position without the metadata of its tokens: HydratePosition on a nil map.
  unfoldable pub hydrate_plain_position : Text → Decoded Position
  unfolding with_balance position_of call_all selector_call lower
  hydrate_plain_position a =
      let addr = lower a in
      call_all (map (selector_call addr) signatures) >>= λ rs.
      position_of addr rs >>= with_balance addr

  -- HydratePosition on a map
  unfoldable pub hydrate_position : Text → CollateralMeta → Decoded Position × CollateralMeta
  unfolding with_meta hydrate_plain_position
  hydrate_position a meta = with_meta (hydrate_plain_position a) meta
