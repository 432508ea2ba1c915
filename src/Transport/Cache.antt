-- ===== src/Transport/Cache.antt =====
-- The cache of transport/balanced.go. Times are nanoseconds; a Go map is a table in an order that
-- means nothing, and `order` is the one in which a range over it happens to go.
pub mod Laws
use zchf_grenadier.Prelude.{
  ℕ, ◌+◌, ◌/◌, ◌≤◌, Bool, true, false, not, ◌&&◌, Option, none, some, List, [], ◌∷◌, nat_eq,
  list_eq, if◌then◌else◌, length, drop, keep, ltb, leb, eqb,
}
use zchf_grenadier.Text.{Text}
use zchf_grenadier.Table.{Table, find, upsert}

-- cacheEntry
pub record CacheEntry : Type 0 where
  pub value : Text
  pub expires : ℕ
  pub head_sensitive : Bool

abbrev pub Cache : Type 0
Cache = Table Text CacheEntry

-- now.After(e.expires)
abbrev pub is_expired : ℕ → CacheEntry → Bool
is_expired now e = ltb e.expires now

live_value : ℕ → Option CacheEntry → Option Text
live_value now none = none
live_value now (some e) = if is_expired now e then none else some e.value

-- getCache
unfoldable pub get_cache : ℕ → Text → Cache → Option Text
unfolding live_value find
get_cache now key cache = live_value now (find key cache)

-- MaxCacheEntries and CallTTL
pub record CacheConfig : Type 0 where
  pub max_cache_entries : ℕ
  pub call_ttl : ℕ

-- The first eviction: the expired entries.
unfoldable pub sweep : ℕ → Cache → Cache
sweep now cache = keep (λ p. not (is_expired now p.1)) cache

module _ (order : Cache → Cache) (cfg : CacheConfig) where
  -- The two evictions of a full cache.
  unfoldable pub make_room : ℕ → Cache → Cache
  unfolding sweep
  make_room now cache =
      let swept = sweep now cache in
      if leb cfg.max_cache_entries (length cache)
      then if leb cfg.max_cache_entries (length swept)
        then drop (cfg.max_cache_entries / 10) (order swept)
        else swept
      else cache

  -- putCache; the clock is read for the sweep and again for the entry.
  unfoldable pub put_cache : ℕ → ℕ → Text → Text → Bool → Cache → Cache
  unfolding make_room upsert
  put_cache now later key value head_sensitive cache =
      upsert key
        (record { value = value; expires = later + cfg.call_ttl; head_sensitive = head_sensitive })
        (make_room now cache)

-- delete(b.cache, k) where ce.headSensitive
unfoldable pub purge : Cache → Cache
purge cache = keep (λ p. not p.1.head_sensitive) cache

-- The highest block seen, and the cache.
pub record Tip : Type 0 where
  pub last_block : ℕ
  pub cache : Cache

-- recordBlockResp, once the number is parsed
unfoldable pub see_block : Bool → ℕ → Tip → Tip
unfolding purge
see_block block_aware n b = record {
  last_block = if ltb b.last_block n then n else b.last_block;
  cache = if block_aware && not (eqb n b.last_block) then purge b.cache else b.cache;
}
