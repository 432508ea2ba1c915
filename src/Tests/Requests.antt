-- ===== src/Tests/Requests.antt =====
-- The theorems on CallRaw, at a request for logs that ends in a block and one that has no end.
use zchf_grenadier.Prelude.{
  ◌≡◌, refl, true, false, Option, some, none, [], ◌∷◌, nat_eq, list_eq, arith,
}
use zchf_grenadier.Text.{Text, codes}
use zchf_grenadier.Transport.Cache.{Cache, CacheConfig, get_cache, see_block, Tip}
use zchf_grenadier.Transport.Requests.{
  text, object, other, array, Params, is_head_sensitive, never_cache, Clock, call_raw,
}
use zchf_grenadier.Transport.Requests.Laws.{call_raw-call_raw, call_raw-see_block}

abbrev get_logs : Text
get_logs = codes "eth_getLogs"

abbrev up_to_block : Params
up_to_block = array (object (some (codes "0x10")) ∷ [])

abbrev up_to_head : Params
up_to_head = array (object none ∷ [])

abbrev written : Params → Text
written params = codes "[{}]"

abbrev as_is : Cache → Cache
as_is cache = cache

abbrev hundred : CacheConfig
hundred = record { max_cache_entries = 100; call_ttl = 10 }

abbrev empty_tip : Tip
empty_tip = record { last_block = 5; cache = [] }

abbrev no_logs : Text → Params → Tip → Option Text × Tip
no_logs method params b = (some (codes "[]"), b)

abbrev unreachable : Text → Params → Tip → Option Text × Tip
unreachable method params b = (none, b)

abbrev nothing_else : Tip → Tip
nothing_else b = b

abbrev at_one : Clock
at_one = record { looked = 1; rechecked = 2; swept = 3; stored = 4 }

abbrev at_nine : Clock
at_nine = record { looked = 9; rechecked = 9; swept = 9; stored = 9 }

to_block_is_stable : is_head_sensitive get_logs up_to_block ≡ false
unfolding is_head_sensitive
to_block_is_stable = refl

to_head_is_sensitive : is_head_sensitive get_logs up_to_head ≡ true
unfolding is_head_sensitive
to_head_is_sensitive = refl

latest_balance :
    is_head_sensitive
      (codes "eth_getBalance")
      (array (text (codes "0xa1") ∷ text (codes "latest") ∷ []))
    ≡ true
unfolding is_head_sensitive
latest_balance = refl

finalized_block :
    is_head_sensitive (codes "eth_getBlockByNumber") (array (text (codes "finalized") ∷ other ∷ []))
    ≡ false
unfolding is_head_sensitive
finalized_block = refl

gas_price : never_cache (codes "eth_gasPrice") ≡ true
unfolding never_cache
gas_price = refl

call_raw-call_raw_example :
    ((call_raw as_is hundred written no_logs nothing_else at_one get_logs up_to_head empty_tip).0
      ≡ some (codes "[]"))
    × (call_raw as_is hundred written unreachable nothing_else at_nine get_logs up_to_head
          (call_raw as_is hundred written no_logs nothing_else at_one get_logs up_to_head
            empty_tip).1
        ≡ call_raw as_is hundred written no_logs nothing_else at_one get_logs up_to_head empty_tip)
unfolding never_cache get_cache
call_raw-call_raw_example =
    call_raw-call_raw written as_is hundred no_logs unreachable nothing_else nothing_else at_one
      at_nine get_logs up_to_head empty_tip empty_tip (codes "[]") refl refl refl refl
      (ground arith)

call_raw-see_block_example :
    (call_raw as_is hundred written unreachable nothing_else at_nine get_logs up_to_block (
      see_block true 6
        (call_raw as_is hundred written no_logs nothing_else at_one get_logs up_to_block
          empty_tip).1)).0
    ≡ some (codes "[]")
unfolding never_cache get_cache is_head_sensitive
call_raw-see_block_example =
    call_raw-see_block written as_is hundred no_logs unreachable nothing_else nothing_else at_one
      at_nine get_logs up_to_block empty_tip empty_tip (codes "[]") true 6 refl refl refl refl refl
      (ground arith)
