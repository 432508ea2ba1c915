-- ===== src/Transport/Requests.antt =====
-- CallRaw of transport/balanced.go: which answers are cached and for how long they are true. The
-- race of the endpoints, racePool, and the text that encoding/json makes of the parameters are
-- arguments; calls that are in flight at once under one key are one call, the sense of singleflight.
pub mod Laws
use zchf_grenadier.Prelude.{
  ℕ, Bool, true, false, ◌||◌, ◌&&◌, not, Option, none, some, List, [], ◌∷◌, ◌++◌, nat_eq, list_eq,
  ◌==◌, if◌then◌else◌,
}
use zchf_grenadier.Text.{Text, codes}
use zchf_grenadier.Transport.Cache.{Cache, CacheConfig, get_cache, put_cache, Tip}

-- A parameter: a string, an object by its toBlock where that is a string, or any other value.
pub data Param : Type 0 where
  text : Text → Param
  object : Option Text → Param
  other : Param

-- params: a []any or any other value
pub data Params : Type 0 where
  array : List Param → Params
  no_array : Params

unfoldable pub is_one_of : Text → List Text → Bool
is_one_of method [] = false
is_one_of method (m ∷ ms) = method == m || is_one_of method ms

-- neverCache
unfoldable pub never_cache : Text → Bool
unfolding is_one_of
never_cache method = is_one_of method (
    codes "eth_sendTransaction"
    ∷ codes "eth_sendRawTransaction"
    ∷ codes "eth_estimateGas"
    ∷ codes "eth_gasPrice"
    ∷ codes "eth_maxPriorityFeePerGas"
    ∷ codes "eth_feeHistory"
    ∷ [])

-- The tags that follow the head: none, latest and pending.
unfoldable pub is_head_tag : Text → Bool
unfolding is_one_of
is_head_tag tag = is_one_of tag ([] ∷ codes "latest" ∷ codes "pending" ∷ [])

-- eth_getBlockByNumber, by its first parameter
unfoldable pub block_sensitive : Params → Bool
unfolding is_head_tag
block_sensitive (array (text tag ∷ rest)) = is_head_tag tag || tag == codes "earliest"
block_sensitive (array (object to_block ∷ rest)) = true
block_sensitive (array (other ∷ rest)) = true
block_sensitive (array []) = true
block_sensitive no_array = true

-- eth_call and the others that end in a block tag
unfoldable pub last_sensitive : List Param → Bool
unfolding is_head_tag
last_sensitive [] = true
last_sensitive (text tag ∷ []) = is_head_tag tag
last_sensitive (object to_block ∷ []) = true
last_sensitive (other ∷ []) = true
last_sensitive (p ∷ q ∷ rest) = last_sensitive (q ∷ rest)

unfoldable pub state_sensitive : Params → Bool
unfolding last_sensitive
state_sensitive (array ps) = last_sensitive ps
state_sensitive no_array = true

-- eth_getLogs, by the toBlock of its filter
unfoldable pub logs_sensitive : Params → Bool
unfolding is_head_tag
logs_sensitive (array (object (some to_block) ∷ rest)) = is_head_tag to_block
logs_sensitive (array (object none ∷ rest)) = true
logs_sensitive (array (text tag ∷ rest)) = true
logs_sensitive (array (other ∷ rest)) = true
logs_sensitive (array []) = true
logs_sensitive no_array = true

-- isHeadSensitive
unfoldable pub is_head_sensitive : Text → Params → Bool
unfolding is_one_of block_sensitive state_sensitive logs_sensitive
is_head_sensitive method params =
    if is_one_of method (
      codes "eth_chainId"
      ∷ codes "net_version"
      ∷ codes "eth_getTransactionReceipt"
      ∷ codes "eth_getTransactionByHash"
      ∷ codes "eth_getTransactionByBlockHashAndIndex"
      ∷ codes "eth_getTransactionByBlockNumberAndIndex"
      ∷ codes "eth_getBlockByHash"
      ∷ [])
    then false
    else if method == codes "eth_getBlockByNumber"
    then block_sensitive params
    else if is_one_of method (
        codes "eth_call"
        ∷ codes "eth_getStorageAt"
        ∷ codes "eth_getCode"
        ∷ codes "eth_getBalance"
        ∷ codes "eth_getTransactionCount"
        ∷ [])
    then state_sensitive params
    else if method == codes "eth_getLogs"
    then logs_sensitive params
    else true

-- The clock where CallRaw reads it: at each look-up, and twice in putCache.
pub record Clock : Type 0 where
  pub looked : ℕ
  pub rechecked : ℕ
  pub swept : ℕ
  pub stored : ℕ

-- cacheKey; `encode` is what Encode writes, with its line feed, nothing where it fails.
unfoldable pub cache_key : (Params → Text) → Text → Params → Text
cache_key encode method params = method ++ b'|' ∷ encode params

-- An answer from the cache, or what is done without one.
unfoldable pub hit_or : Tip → Option Text → Option Text × Tip → Option Text × Tip
hit_or b none miss = miss
hit_or b (some v) miss = (some v, b)

module _ (order : Cache → Cache) (cfg : CacheConfig) where
  -- The end of the flight: an answer is put in the cache, an error is not.
  unfoldable pub landed : Clock → Text → Bool → Option Text × Tip → Option Text × Tip
  unfolding put_cache
  landed t key hs (none, b) = (none, b)
  landed t key hs (some raw, b) = (
    some raw,
    record {
      last_block = b.last_block;
      cache = put_cache order cfg t.swept t.stored key raw hs b.cache;
    },
  )

  -- CallRaw. `meanwhile` is what other calls do between its first look-up and its flight.
  unfoldable pub call_raw :
      (Params → Text)
      → (Text → Params → Tip → Option Text × Tip)
      → (Tip → Tip)
      → Clock
      → Text
      → Params
      → Tip
      → Option Text × Tip
  unfolding never_cache cache_key hit_or landed is_head_sensitive get_cache
  call_raw encode race meanwhile t method params b =
      let key = cache_key encode method params in
      if never_cache method
      then race method params b
      else hit_or b (get_cache t.looked key b.cache) (
          hit_or (meanwhile b) (get_cache t.rechecked key (meanwhile b).cache)
            (landed t key (is_head_sensitive method params) (race method params (meanwhile b))))
