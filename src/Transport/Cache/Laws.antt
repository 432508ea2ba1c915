-- ===== src/Transport/Cache/Laws.antt =====
-- The size of the cache, and what it returns.
use zchf_grenadier.Prelude.{
  leb, none, ℕ, ◌+◌, ◌-◌, ◌/◌, ◌≤◌, ◌<◌, ◌≡◌, ◌≢◌, eqb, refl, ◌∙◌, Bool, true, false, not, some,
  nat_eq, list_eq, length, drop, keep, ltb, All, arith, length-drop, length-keep-le, All-keep,
}
use zchf_grenadier.Text.{Text}
use zchf_grenadier.Table.{find}
use zchf_grenadier.Table.Laws.{find-upsert_self, find-keep, length-upsert_new, length-upsert-le}
use zchf_grenadier.Transport.Cache.{
  CacheEntry, Cache, CacheConfig, is_expired, get_cache, sweep, make_room, put_cache, purge, Tip,
  see_block,
}

-- A value put in the cache is read back under its key at any time up to the end of its lifetime,
-- whatever the cache held and whatever was evicted.
pub get_cache-put_cache :
    (order : Cache → Cache) (cfg : CacheConfig) (now later read : ℕ) (key value : Text) (hs : Bool)
    (cache : Cache)
    → read ≤ later + cfg.call_ttl
    → get_cache read key (put_cache order cfg now later key value hs cache) ≡ some value
unfolding get_cache put_cache
get_cache-put_cache order cfg now later read key value hs cache h =
    let alive : ltb (later + cfg.call_ttl) read ≡ false = ground arith in
    rw (
      find-upsert_self key
          (record { value = value; expires = later + cfg.call_ttl; head_sensitive = hs })
          (make_room order cfg now cache),
      alive,
    )

module _ (order : Cache → Cache) (same_length : (c : Cache) → length (order c) ≡ length c)
    (cfg : CacheConfig) where
  make_room-below :
      (now : ℕ) (cache : Cache)
      → 10 ≤ cfg.max_cache_entries
      → length cache ≤ cfg.max_cache_entries
      → length (make_room order cfg now cache) < cfg.max_cache_entries
  unfolding make_room sweep
  make_room-below now cache ten small =
      let swept = keep (λ p. not (is_expired now p.1)) cache in
      let fewer = length-keep-le (λ p. not (is_expired now p.1)) cache in
      let dropped : length (drop (cfg.max_cache_entries / 10) (order swept))
          ≡ length swept - cfg.max_cache_entries / 10 =
        length-drop _ (order swept) ∙ rw (same_length swept) refl in
      ground (arith, fewer, dropped)

  -- A cache limited to ten entries or more never outgrows its limit: a cache within it is within
  -- it after putCache, where ranging over the map visits as many entries as the map has.
  pub put_cache-bounded :
      (now later : ℕ) (key value : Text) (hs : Bool) (cache : Cache)
      → 10 ≤ cfg.max_cache_entries
      → length cache ≤ cfg.max_cache_entries
      → length (put_cache order cfg now later key value hs cache) ≤ cfg.max_cache_entries
  unfolding put_cache
  put_cache-bounded now later key value hs cache ten small =
      let room = make_room-below now cache ten small in
      omega (arith, room, length-upsert-le key _ (make_room order cfg now cache))

abbrev is_stable : Text × CacheEntry → Bool
is_stable p = not p.1.head_sensitive

-- A block number other than the last one, seen with BlockAwareCache on, leaves no head-sensitive
-- entry in the cache, keeps every other entry under its key, and the last block only grows.
pub see_block-purges :
    (n : ℕ) (b : Tip) (key : Text) (e : CacheEntry)
    → n ≢ b.last_block
    → find key b.cache ≡ some e
    → e.head_sensitive ≡ false
    → All (λ p. not p.1.head_sensitive ≡ true) (see_block true n b).cache
      × (find key (see_block true n b).cache ≡ some e)
      × (b.last_block ≤ (see_block true n b).last_block)
      × (n ≤ (see_block true n b).last_block)
unfolding see_block purge
see_block-purges n b key e other found stable =
    let differ : eqb n b.last_block ≡ false = ground (arith, other) in
    rw differ (
      All-keep is_stable b.cache,
      find-keep is_stable key e b.cache found (rw stable refl),
      ground arith,
      ground arith,
    )

-- A cache limited to less than ten entries has no working limit: where it is full, nothing in it has
-- expired and ranging over the map visits as many entries as the map has, a new key makes it one
-- entry larger.
pub put_cache-grows :
    (order : Cache → Cache) (cfg : CacheConfig) (now later : ℕ) (key value : Text) (hs : Bool)
    (cache : Cache)
    → cfg.max_cache_entries < 10
    → cfg.max_cache_entries ≤ length cache
    → sweep now cache ≡ cache
    → length (order cache) ≡ length cache
    → find key (order cache) ≡ none
    → length (put_cache order cfg now later key value hs cache) ≡ length cache + 1
unfolding put_cache make_room
put_cache-grows order cfg now later key value hs cache few full alive same fresh =
    let over : leb cfg.max_cache_entries (length cache) ≡ true = ground arith in
    let nothing : cfg.max_cache_entries / 10 ≡ 0 = omega arith in
    rw (alive, over, nothing) (length-upsert_new key _ (order cache) fresh ∙ rw same refl)
