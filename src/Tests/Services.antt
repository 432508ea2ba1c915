-- ===== src/Tests/Services.antt =====
-- The theorems on the scan, the proxy, the cache, the selection and the texts of numbers.
use mathlib.Core.List.{Perm}
use zchf_grenadier.Prelude.{
  ◌≤◌, ◌≡◌, refl, true, false, not, none, some, List, if◌then◌else◌, eqb, [], ◌∷◌, nat_eq, list_eq,
  arith, length, All,
}
use zchf_grenadier.Prelude.Int.{ℤ, pos, negsuc}
use zchf_grenadier.Text.{codes, has_prefix, text_lt}
use zchf_grenadier.Text.Decimal.{is_digit, parse_int, print_int, parse_int-print_int}
use zchf_grenadier.Table.{find}
use zchf_grenadier.Store.Rows.{Position}
use zchf_grenadier.Store.Curate.{is_curatable, best_of}
use zchf_grenadier.Store.Curate.Best.{Unbeaten, IsSelection, best_of-Unbeaten, best_of-IsSelection}
use zchf_grenadier.Indexer.Challenges.Traversal.{IsInOrder, one_by_one, scan_challenges-IsInOrder}
use zchf_grenadier.Indexer.Challenges.Scan.{Rpc, scan_challenges}
use zchf_grenadier.Chain.Log.{Log, block_num}
use zchf_grenadier.Chain.Abi.{refused}
use zchf_grenadier.Store.Handle.{Store}
use zchf_grenadier.Api.Near.{
  NearQuoteReq, forwarded, is_allowed_origin, all_digits, is_digit_string, compare_digit_strings,
  is_empty_or_longer, upstream, check_quote, decoded_verdict, verdict, base_usdc, near_body_limit,
}
use zchf_grenadier.Api.Near.Accepted.{IsAcceptable, verdict-IsAcceptable}
use zchf_grenadier.Transport.Cache.{
  CacheEntry, Cache, CacheConfig, sweep, put_cache, Tip, see_block,
}
use zchf_grenadier.Transport.Cache.Laws.{put_cache-bounded, put_cache-grows, see_block-purges}
use zchf_grenadier.Tests.Data.{no_junk, alice, started_log, denied_position, bid_eight}

-- A chain with two blocks of an event each, of which the first cannot be fetched.
abbrev two_blocks : Rpc
two_blocks = record {
  get_logs = λ a b. some (bid_eight.log ∷ started_log ∷ []);
  get_block = λ b. if eqb b (block_num started_log) then none else some (pos 7, λ tx. alice);
  hydrate = λ p. refused;
}

scan_challenges-IsInOrder_example :
    (ls : List Log) × Perm ls (bid_eight.log ∷ started_log ∷ [])
    × IsInOrder ls
    × ((s : Store)
        → scan_challenges no_junk two_blocks 16 32 s ≡ one_by_one no_junk two_blocks ls s)
scan_challenges-IsInOrder_example =
    scan_challenges-IsInOrder no_junk two_blocks 16 32 (bid_eight.log ∷ started_log ∷ []) refl

-- 100,000 USDC
abbrev quote_request : NearQuoteReq
quote_request = record {
  origin_asset = base_usdc;
  destination_asset = codes "nep141:btc.omft.near";
  amount = codes "100000000000";
  recipient = codes "bc1q";
  refund_to = codes "0xa1";
  slippage_bps = pos 100;
  deadline = codes "2025-01-01T00:00:00Z";
}

quote_forwarded :
    verdict (λ body. some quote_request) (codes "{}") ≡ forwarded (upstream quote_request)
unfolding verdict decoded_verdict check_quote is_allowed_origin has_prefix is_digit_string
    all_digits is_digit compare_digit_strings text_lt is_empty_or_longer
quote_forwarded = refl

verdict-IsAcceptable_example :
    (length (codes "{}") ≤ near_body_limit)
    × (req : NearQuoteReq) × (some quote_request ≡ some req)
    × IsAcceptable req
    × (upstream quote_request ≡ upstream req)
verdict-IsAcceptable_example =
    verdict-IsAcceptable (λ body. some quote_request) (codes "{}") (upstream quote_request)
      quote_forwarded

abbrev old_entry : CacheEntry
old_entry = record { value = codes "1"; expires = 90; head_sensitive = false }

abbrev head_entry : CacheEntry
head_entry = record { value = codes "2"; expires = 90; head_sensitive = true }

abbrev two_entries : Cache
two_entries = (codes "a", old_entry) ∷ (codes "b", head_entry) ∷ []

abbrev ten_entries : CacheConfig
ten_entries = record { max_cache_entries = 10; call_ttl = 60 }

put_cache-bounded_example :
    length (put_cache (λ c. c) ten_entries 100 101 (codes "c") (codes "3") true two_entries) ≤ 10
put_cache-bounded_example =
    put_cache-bounded (λ c. c) (λ c. refl) ten_entries 100 101 (codes "c") (codes "3") true
      two_entries (omega arith) (omega arith)

abbrev tip : Tip
tip = record { last_block = 20; cache = two_entries }

see_block-purges_example :
    All (λ p. not p.1.head_sensitive ≡ true) (see_block true 21 tip).cache
    × (find (codes "a") (see_block true 21 tip).cache ≡ some old_entry)
    × (20 ≤ (see_block true 21 tip).last_block)
    × (21 ≤ (see_block true 21 tip).last_block)
see_block-purges_example =
    see_block-purges 21 tip (codes "a") old_entry (omega arith) (unfold find in refl) refl

-- Open, with room for clones.
abbrev cheap : Position
cheap = record denied_position {
  denied = false;
  available_for_clones = codes "5";
  reserve_contribution = pos 100;
  annual_interest_ppm = pos 3;
}

abbrev dear : Position
dear = record cheap { annual_interest_ppm = pos 9 }

-- An order by the interest alone.
abbrev by_interest : ℤ → ℤ → ℤ
by_interest reserve interest = interest

cheap_curatable : is_curatable dear (pos 50) ≡ true
unfolding is_curatable parse_int
cheap_curatable = refl

best_of-Unbeaten_example :
    Unbeaten by_interest dear (best_of by_interest (pos 50) (cheap ∷ dear ∷ []) [])
best_of-Unbeaten_example =
    best_of-Unbeaten by_interest (pos 50) (cheap ∷ []) dear [] [] cheap_curatable

best_of-IsSelection_example :
    IsSelection by_interest (pos 50) (best_of by_interest (pos 50) (cheap ∷ dear ∷ []) [])
best_of-IsSelection_example = best_of-IsSelection by_interest (pos 50) (cheap ∷ dear ∷ [])

parse_int-print_int_example : parse_int (print_int (negsuc 41)) ≡ some (negsuc 41)
parse_int-print_int_example = parse_int-print_int (negsuc 41)

abbrev two_limit : CacheConfig
two_limit = record { max_cache_entries = 2; call_ttl = 60 }

put_cache-grows_example :
    length (put_cache (λ c. c) two_limit 80 81 (codes "c") (codes "3") true two_entries) ≡ 3
put_cache-grows_example =
    put_cache-grows (λ c. c) two_limit 80 81 (codes "c") (codes "3") true two_entries (omega arith)
      (omega arith) (unfold sweep in refl) refl (unfold find in refl)
