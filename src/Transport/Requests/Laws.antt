-- ===== src/Transport/Requests/Laws.antt =====
-- What CallRaw answers, and what it leaves in the cache.
use zchf_grenadier.Prelude.{
  ℕ, ◌+◌, ◌≤◌, ◌≡◌, refl, ap, ◌∙◌, Bool, false, not, ◌&&◌, Option, none, some, nat_eq, list_eq,
  arith, eqb, ltb, Bool-cases, inl, inr,
}
use zchf_grenadier.Text.{Text}
use zchf_grenadier.Table.{find}
use zchf_grenadier.Table.Laws.{find-keep, find-upsert_self}
use zchf_grenadier.Transport.Cache.{
  Cache, CacheEntry, CacheConfig, get_cache, put_cache, make_room, purge, see_block, Tip,
}
use zchf_grenadier.Transport.Cache.Laws.{get_cache-put_cache}
use zchf_grenadier.Transport.Requests.{
  Params, never_cache, is_head_sensitive, cache_key, Clock, landed, hit_or, call_raw,
}

module _ (encode : Params → Text) (order : Cache → Cache) (cfg : CacheConfig) where
  -- An answer that is still alive in the cache is given without a request, and nothing changes.
  pub call_raw-hit :
      (race : Text → Params → Tip → Option Text × Tip) (meanwhile : Tip → Tip) (t : Clock)
      (method : Text) (params : Params) (b : Tip) (v : Text)
      → never_cache method ≡ false
      → get_cache t.looked (cache_key encode method params) b.cache ≡ some v
      → call_raw order cfg encode race meanwhile t method params b ≡ (some v, b)
  unfolding call_raw hit_or
  call_raw-hit race meanwhile t method params b v cached found = rw (cached, found) refl

  -- A call that misses at both look-ups lands what the race gives.
  call_raw-miss :
      (race : Text → Params → Tip → Option Text × Tip) (meanwhile : Tip → Tip) (t : Clock)
      (method : Text) (params : Params) (b : Tip) (r : Option Text × Tip)
      → never_cache method ≡ false
      → get_cache t.looked (cache_key encode method params) b.cache ≡ none
      → get_cache t.rechecked (cache_key encode method params) (meanwhile b).cache ≡ none
      → race method params (meanwhile b) ≡ r
      → call_raw order cfg encode race meanwhile t method params b
        ≡ landed order cfg t (cache_key encode method params) (is_head_sensitive method params) r
  unfolding call_raw hit_or
  call_raw-miss race meanwhile t method params b r cached missed missed_again given =
      rw (cached, missed, missed_again, given) refl

  -- A call that fails leaves what the race left: an error is not cached.
  pub call_raw-failed :
      (race : Text → Params → Tip → Option Text × Tip) (meanwhile : Tip → Tip) (t : Clock)
      (method : Text) (params : Params) (b after : Tip)
      → never_cache method ≡ false
      → get_cache t.looked (cache_key encode method params) b.cache ≡ none
      → get_cache t.rechecked (cache_key encode method params) (meanwhile b).cache ≡ none
      → race method params (meanwhile b) ≡ (none, after)
      → call_raw order cfg encode race meanwhile t method params b ≡ (none, after)
  unfolding landed
  call_raw-failed race meanwhile t method params b after cached missed missed_again failed =
      call_raw-miss race meanwhile t method params b (none, after) cached missed missed_again failed

  -- A call that misses the cache at both look-ups and is answered by an endpoint gives that answer,
  -- and the same call made again while the entry lives gives it once more, without a request and
  -- without a change, whatever the cache held, whatever was evicted and whatever the endpoints say
  -- by then.
  pub call_raw-call_raw :
      (race later_race : Text → Params → Tip → Option Text × Tip) (meanwhile later : Tip → Tip)
      (t again : Clock) (method : Text) (params : Params) (b after : Tip) (raw : Text)
      → never_cache method ≡ false
      → get_cache t.looked (cache_key encode method params) b.cache ≡ none
      → get_cache t.rechecked (cache_key encode method params) (meanwhile b).cache ≡ none
      → race method params (meanwhile b) ≡ (some raw, after)
      → again.looked ≤ t.stored + cfg.call_ttl
      → ((call_raw order cfg encode race meanwhile t method params b).0 ≡ some raw)
        × (call_raw order cfg encode later_race later again method params
              (call_raw order cfg encode race meanwhile t method params b).1
            ≡ call_raw order cfg encode race meanwhile t method params b)
  unfolding landed
  call_raw-call_raw race later_race meanwhile later t again method params b after raw cached missed
        missed_again answered alive =
      let key = cache_key encode method params in
      let hs = is_head_sensitive method params in
      let flown : call_raw order cfg encode race meanwhile t method params b
          ≡ landed order cfg t key hs (some raw, after) =
        call_raw-miss race meanwhile t method params b (some raw, after) cached missed missed_again
          answered in
      rw flown (
        refl,
        call_raw-hit later_race later again method params
            (landed order cfg t key hs (some raw, after)).1 raw cached
            (get_cache-put_cache order cfg t.swept t.stored again.looked key raw hs after.cache
              alive),
      )

-- An entry that is not head-sensitive stays under its key when a block is seen.
find-see_block :
    (aware : Bool) (n : ℕ) (b : Tip) (key : Text) (e : CacheEntry)
    → find key b.cache ≡ some e
    → e.head_sensitive ≡ false
    → find key (see_block aware n b).cache ≡ some e
unfolding see_block purge
find-see_block aware n b key e found stable =
    elim (Bool-cases (aware && not (eqb n b.last_block))) [
      | inl go ↦
          rw go (find-keep (λ p. not p.1.head_sensitive) key e b.cache found (rw stable refl))
      | inr stay ↦ rw stay found
    ]

module _ (encode : Params → Text) (order : Cache → Cache) (cfg : CacheConfig) where
  -- The answer to a call that isHeadSensitive takes for one that no block changes outlives new
  -- blocks: a call that misses the cache at both look-ups and is answered by an endpoint gives, made
  -- again while the entry lives and after a block of any number was seen, the same answer without a
  -- request.
  pub call_raw-see_block :
      (race later_race : Text → Params → Tip → Option Text × Tip) (meanwhile later : Tip → Tip)
      (t again : Clock) (method : Text) (params : Params) (b after : Tip) (raw : Text)
      (aware : Bool) (n : ℕ)
      → never_cache method ≡ false
      → is_head_sensitive method params ≡ false
      → get_cache t.looked (cache_key encode method params) b.cache ≡ none
      → get_cache t.rechecked (cache_key encode method params) (meanwhile b).cache ≡ none
      → race method params (meanwhile b) ≡ (some raw, after)
      → again.looked ≤ t.stored + cfg.call_ttl
      → (call_raw order cfg encode later_race later again method params
          (see_block aware n (call_raw order cfg encode race meanwhile t method params b).1)).0
        ≡ some raw
  unfolding landed put_cache get_cache
  call_raw-see_block race later_race meanwhile later t again method params b after raw aware n
        cached stable missed missed_again answered alive =
      let key = cache_key encode method params in
      let flown : call_raw order cfg encode race meanwhile t method params b
          ≡ landed order cfg t key false (some raw, after) =
        call_raw-miss encode order cfg race meanwhile t method params b (some raw, after) cached
          missed missed_again answered
        ∙ ap (λ h. landed order cfg t key h (some raw, after)) stable in
      let entry : CacheEntry = record {
        value = raw;
        expires = t.stored + cfg.call_ttl;
        head_sensitive = false;
      } in
      let held =
        find-see_block aware n (landed order cfg t key false (some raw, after)).1 key entry
          (find-upsert_self key entry (make_room order cfg t.swept after.cache)) refl in
      let young : ltb (t.stored + cfg.call_ttl) again.looked ≡ false = ground arith in
      rw flown (
        ap (λ r. r.0)
          (call_raw-hit encode order cfg later_race later again method params
            (see_block aware n (landed order cfg t key false (some raw, after)).1) raw cached
            (rw (held, young) refl)))
